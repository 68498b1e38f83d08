-- ===== src/Catalog/Ranks/Entries.antt =====
-- Lists of entries: looking a node up, counting by rating, and what sorting keeps of both.
use mikrollm.Base.{
  ℕ, ◌+◌, ◌≡◌, refl, ◌∙◌, Option, none, some, Bool, true, false, List, [], ◌∷◌, if◌then◌else◌, ◌==◌,
  text_eq, eq_iff, arith, All, Bool-cases, inl, inr,
}
use mikrollm.Base.Text.{Text}
use mikrollm.Base.Text.Int.{ℤ, ltb_ℤ}
use mikrollm.Catalog.Ranks.{Entry, insert_by, sort_by, rating_before}

unfoldable pub rating_at : Text → List Entry → Option ℤ
rating_at id [] = none
rating_at id (e ∷ es) = if e.node == id then some e.rating else rating_at id es

-- Each node has one entry.
abbrev pub Distinct : List Entry → Type 0
Distinct [] = Unit
Distinct (e ∷ es) = (rating_at e.node es ≡ none) × Distinct es

-- How many entries pass a test.
unfoldable pub tally : (Entry → Bool) → List Entry → ℕ
tally p [] = 0
tally p (e ∷ es) = (if p e then 1 else 0) + tally p es

-- No entry is behind one with a lower rating.
abbrev pub Descending : List Entry → Type 0
Descending [] = Unit
Descending (e ∷ es) = All (λ d. ltb_ℤ e.rating d.rating ≡ false) es × Descending es

module _ (before : Entry → Entry → Bool) where
  tally-insert_by :
      (p : Entry → Bool) (d : Entry) (es : List Entry)
      → tally p (insert_by before d es) ≡ tally p (d ∷ es)
  unfolding tally insert_by
  tally-insert_by p d [] = refl
  tally-insert_by p d (e ∷ es) = ground (arith, tally-insert_by p d es)

  pub tally-sort_by :
      (p : Entry → Bool) (es : List Entry) → tally p (sort_by before es) ≡ tally p es
  unfolding tally sort_by
  tally-sort_by p [] = refl
  tally-sort_by p (e ∷ es) =
      tally-insert_by p e (sort_by before es) ∙ omega (arith, tally-sort_by p es)

  rating_at-insert_by :
      (id : Text) (d : Entry) (es : List Entry)
      → rating_at d.node es ≡ none
      → rating_at id (insert_by before d es) ≡ rating_at id (d ∷ es)
  unfolding rating_at insert_by
  rating_at-insert_by id d [] h = refl
  rating_at-insert_by id d (e ∷ es) h =
      ground (
        arith,
        eq_iff e.node d.node,
        eq_iff e.node id,
        eq_iff d.node id,
        rating_at-insert_by id d es,
      )

  pub rating_at-sort_by :
      (id : Text) (es : List Entry)
      → Distinct es
      → rating_at id (sort_by before es) ≡ rating_at id es
  unfolding rating_at sort_by
  rating_at-sort_by id [] h = refl
  rating_at-sort_by id (e ∷ es) h =
      rating_at-insert_by id e (sort_by before es) (rating_at-sort_by e.node es h.1 ∙ h.0)
      ∙ ground (arith, rating_at-sort_by id es h.1)

  Distinct-insert_by :
      (d : Entry) (es : List Entry)
      → rating_at d.node es ≡ none
      → Distinct es
      → Distinct (insert_by before d es)
  unfolding rating_at insert_by
  Distinct-insert_by d [] h k = (refl, tt)
  Distinct-insert_by d (e ∷ es) h k = ground (
    arith,
    eq_iff e.node d.node,
    eq_iff d.node e.node,
    rating_at-insert_by e.node d es,
    Distinct-insert_by d es,
  )

  pub Distinct-sort_by : (es : List Entry) → Distinct es → Distinct (sort_by before es)
  unfolding sort_by
  Distinct-sort_by [] h = tt
  Distinct-sort_by (e ∷ es) h =
      Distinct-insert_by e (sort_by before es) (rating_at-sort_by e.node es h.1 ∙ h.0)
        (Distinct-sort_by es h.1)

ltb_ℤ-trans : (a b c : ℤ) → ltb_ℤ a b ≡ false → ltb_ℤ b c ≡ false → ltb_ℤ a c ≡ false
ltb_ℤ-trans a b c h k = ground arith

ltb_ℤ-asym : (a b : ℤ) → ltb_ℤ a b ≡ true → ltb_ℤ b a ≡ false
ltb_ℤ-asym a b h = ground arith

All-insert_by :
    (before : Entry → Entry → Bool) (P : Entry → Type 0) (d : Entry) (es : List Entry)
    → P d
    → All P es
    → All P (insert_by before d es)
unfolding insert_by
All-insert_by before P d [] h k = (h, tt)
All-insert_by before P d (e ∷ es) h k = elim (Bool-cases (before d e)) [
  | inl y ↦ rw y (h, k)
  | inr n ↦ rw n (k.0, All-insert_by before P d es h k.1)
]

below-weaken :
    (d e : Entry) (es : List Entry)
    → ltb_ℤ d.rating e.rating ≡ false
    → All (λ x. ltb_ℤ e.rating x.rating ≡ false) es
    → All (λ x. ltb_ℤ d.rating x.rating ≡ false) es
below-weaken d e [] h k = tt
below-weaken d e (x ∷ es) h k =
    (ltb_ℤ-trans d.rating e.rating x.rating h k.0, below-weaken d e es h k.1)

Descending-insert_by :
    (d : Entry) (es : List Entry) → Descending es → Descending (insert_by rating_before d es)
unfolding insert_by rating_before
Descending-insert_by d [] k = (tt, tt)
Descending-insert_by d (e ∷ es) k = elim (Bool-cases (ltb_ℤ d.rating e.rating)) [
  | inl y ↦ rw y (
    All-insert_by rating_before _ d es (ltb_ℤ-asym d.rating e.rating y) k.0,
    Descending-insert_by d es k.1,
  )
  | inr n ↦ rw n ((n, below-weaken d e es n k.0), k)
]

pub Descending-sort_by : (es : List Entry) → Descending (sort_by rating_before es)
unfolding sort_by
Descending-sort_by [] = tt
Descending-sort_by (e ∷ es) =
    Descending-insert_by e (sort_by rating_before es) (Descending-sort_by es)
