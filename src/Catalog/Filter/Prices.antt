-- ===== src/Catalog/Filter/Prices.antt =====
-- What the price filter asks of a row, choice by choice, and that `matchBand` decides it.
use mikrollm.Base.{
  ◌≡◌, refl, Option, Bool, true, false, not, ◌&&◌, ◌||◌, [], ◌∷◌, ◌==◌, text_eq, list_beq, eq_iff,
  arith, Bool-cases, inl, inr,
}
use mikrollm.Base.Text.{Text, lit, is_empty}
use mikrollm.Catalog.Band.{Floats, price, match_band}

-- The choices of the price filter.
abbrev pub asks_price : Text → Bool
asks_price want =
    want == lit "none"
    || (want == lit "free"
        || (want == lit "paid"
            || (want == lit "lt0.5"
                || (want == lit "lt2" || (want == lit "lt10" || want == lit "more")))))

module _ (fl : Floats) (band : Text) (prompt : Option Text) where
  -- Whether the row has a price, and whether it is below a limit.
  abbrev pub has_price : Bool
  has_price = not (band == lit "none")

  abbrev pub is_below : fl.Num → Bool
  is_below limit = has_price && fl.lt (price fl prompt) limit

  pub data FitsPrice (want : Text) : Type 0 where
    any_price : asks_price want ≡ false → FitsPrice want
    unknown : want ≡ lit "none" → band ≡ lit "none" → FitsPrice want
    free : want ≡ lit "free" → band ≡ lit "free" → FitsPrice want
    paid : want ≡ lit "paid" → has_price ≡ true → (band == lit "free") ≡ false → FitsPrice want
    below_half : want ≡ lit "lt0.5" → is_below fl.half ≡ true → FitsPrice want
    below_two : want ≡ lit "lt2" → is_below fl.two ≡ true → FitsPrice want
    below_ten : want ≡ lit "lt10" → is_below fl.ten ≡ true → FitsPrice want
    more : want ≡ lit "more" → has_price ≡ true → is_below fl.ten ≡ false → FitsPrice want

  price_sound_full :
      (want : Text) → is_empty want ≡ false → match_band fl band prompt want ≡ true → FitsPrice want
  unfolding match_band
  price_sound_full want full h = elim (Bool-cases (want == lit "none")) [
    | inl y ↦
        unknown ((eq_iff want (lit "none")).0 y)
          ((eq_iff band (lit "none")).0 (ground (arith, h, full, y)))
    | inr n1 ↦ elim (Bool-cases (want == lit "free")) [
      | inl y ↦
          free ((eq_iff want (lit "free")).0 y)
            ((eq_iff band (lit "free")).0 (ground (arith, h, full, n1, y)))
      | inr n2 ↦ elim (Bool-cases (want == lit "paid")) [
        | inl y ↦
            paid ((eq_iff want (lit "paid")).0 y) (ground (arith, h, full, n1, n2, y))
              (ground (arith, h, full, n1, n2, y))
        | inr n3 ↦ elim (Bool-cases (want == lit "lt0.5")) [
          | inl y ↦
              below_half ((eq_iff want (lit "lt0.5")).0 y) (ground (arith, h, full, n1, n2, n3, y))
          | inr n4 ↦ elim (Bool-cases (want == lit "lt2")) [
            | inl y ↦
                below_two ((eq_iff want (lit "lt2")).0 y)
                  (ground (arith, h, full, n1, n2, n3, n4, y))
            | inr n5 ↦ elim (Bool-cases (want == lit "lt10")) [
              | inl y ↦
                  below_ten ((eq_iff want (lit "lt10")).0 y)
                    (ground (arith, h, full, n1, n2, n3, n4, n5, y))
              | inr n6 ↦ elim (Bool-cases (want == lit "more")) [
                | inl y ↦
                    more ((eq_iff want (lit "more")).0 y)
                      (ground (arith, h, full, n1, n2, n3, n4, n5, n6, y))
                      (ground (arith, h, full, n1, n2, n3, n4, n5, n6, y))
                | inr n7 ↦ any_price (ground (arith, n1, n2, n3, n4, n5, n6, n7))
              ]
            ]
          ]
        ]
      ]
    ]
  ]

  pub price_sound : (want : Text) → match_band fl band prompt want ≡ true → FitsPrice want
  price_sound [] h = any_price (unfold list_beq in unfold lit in refl)
  price_sound (c ∷ s) h = price_sound_full (c ∷ s) refl h

  pub price_complete : (want : Text) → FitsPrice want → match_band fl band prompt want ≡ true
  unfolding match_band lit list_beq
  price_complete want (any_price n) = ground (arith, n)
  price_complete want (unknown e b) = rw (e, b) refl
  price_complete want (free e b) = rw (e, b) refl
  price_complete want (paid e b f) = rw e (ground (arith, b, f))
  price_complete want (below_half e b) = rw e (ground (arith, b))
  price_complete want (below_two e b) = rw e (ground (arith, b))
  price_complete want (below_ten e b) = rw e (ground (arith, b))
  price_complete want (more e b m) = rw e (ground (arith, b, m))
