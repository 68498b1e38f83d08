-- ===== src/Chat/Submit/Payload/Fields.antt =====
-- Reading and setting the fields of a payload, and which fields each step leaves alone.
use mikrollm.Base.{
  both_false, ◌≡◌, refl, ◌∙◌, Option, some, Bool, true, false, List, [], ◌∷◌, if◌then◌else◌, ◌==◌,
  text_eq, eq_iff, eq_refl, any, arith, Bool-cases, inl, inr,
}
use mikrollm.Base.Text.{Text, lit}
use mikrollm.Catalog.Band.{Floats}
use mikrollm.Chat.{Mode, chat, image, video}
use mikrollm.Chat.Params.{Value, put, skip_param}
use mikrollm.Chat.Params.Laws.{keys}
use mikrollm.Chat.Submit.Payload.{
  get, plain, Payload, text_field, is_falsy, is_blank, with_extra, with_number, with_size,
  with_seconds, with_refs,
}

get-put :
    {A : Type 0} (j k : Text) (v : A) (p : List (Text × A))
    → get j (put k v p) ≡ (if k == j then some v else get j p)
unfolding get put
get-put j k v [] = refl
get-put j k v ((i, w) ∷ p) = elim (Bool-cases (i == k)) [
  | inl y ↦ elim (Bool-cases (k == j)) [
    | inl there ↦ rw (y, there) refl
    | inr gone ↦ rw (y, gone, (eq_iff i k).0 y, gone) refl
  ]
  | inr n ↦ rw (n, get-put j k v p) (apart n)
]
  where
    apart :
        (i == k) ≡ false
        → (if i == j then some w else (if k == j then some v else get j p))
          ≡ (if k == j then some v else (if i == j then some w else get j p))
    apart n = ground (arith, eq_iff i j, eq_iff k j, eq_iff i k)

-- A field that is set under another name, or under this one.
pub get-put_other :
    {A : Type 0} (j k : Text) (v : A) (p : List (Text × A))
    → (k == j) ≡ false
    → get j (put k v p) ≡ get j p
get-put_other j k v p n = get-put j k v p ∙ rw n refl

pub get-put_same :
    {A : Type 0} (k : Text) (v : A) (p : List (Text × A)) → get k (put k v p) ≡ some v
get-put_same k v p = get-put k k v p ∙ rw (eq_refl k) refl

-- Whether a test puts the field or not.
get-put_if :
    {A : Type 0} (b : Bool) (j k : Text) (v : A) (p : List (Text × A))
    → (k == j) ≡ false
    → get j (if b then put k v p else p) ≡ get j p
get-put_if true j k v p n = get-put_other j k v p n
get-put_if false j k v p n = refl

-- A field that is set when a test of its value asks for it passes the test no more.
filled :
    {A : Type 0} (test : Option A → Bool) (k : Text) (v : A) (p : List (Text × A))
    → test (some v) ≡ false
    → test (get k (if test (get k p) then put k v p else p)) ≡ false
filled test k v p good = elim (Bool-cases (test (get k p))) [
  | inl y ↦ rw (y, get-put_same k v p) good
  | inr n ↦ rw n n
]

skip-apart : (j k : Text) → skip_param j ≡ true → skip_param k ≡ false → (k == j) ≡ false
skip-apart j k own free = ground (arith, eq_iff k j, own, free)

module _ (fl : Floats) (is_zero : fl.Num → Bool) where
  pub get-with_extra :
      (j : Text) (extra : List (Text × Value fl)) (p : Payload fl is_zero)
      → skip_param j ≡ true
      → any skip_param (keys fl extra) ≡ false
      → get j (with_extra fl is_zero extra p) ≡ get j p
  unfolding with_extra
  get-with_extra j [] p own free = refl
  get-with_extra j ((k, v) ∷ extra) p own free =
      let (free_k, free_rest) = both_false (skip_param k) (any skip_param (keys fl extra)) free in
      get-with_extra j extra (put k (plain v) p) own free_rest
      ∙ get-put_other j k (plain v) p (skip-apart j k own free_k)

  pub get-with_number :
      (j : Text) (p : Payload fl is_zero)
      → (lit "n" == j) ≡ false
      → get j (with_number fl is_zero p) ≡ get j p
  unfolding with_number lit
  get-with_number j p other = get-put_if _ j (lit "n") _ p other

  pub get-with_size :
      (j : Text) (mode : Mode) (p : Payload fl is_zero)
      → (lit "size" == j) ≡ false
      → get j (with_size fl is_zero mode p) ≡ get j p
  unfolding with_size lit
  get-with_size j mode p other = get-put_if _ j (lit "size") _ p other

  pub get-with_seconds :
      (j : Text) (mode : Mode) (p : Payload fl is_zero)
      → (lit "seconds" == j) ≡ false
      → get j (with_seconds fl is_zero mode p) ≡ get j p
  unfolding with_seconds lit
  get-with_seconds j chat p other = refl
  get-with_seconds j image p other = refl
  get-with_seconds j video p other = get-put_if _ j (lit "seconds") _ p other

  pub get-with_refs :
      (j : Text) (refs : List Text) (p : Payload fl is_zero)
      → (lit "input_image" == j) ≡ false
      → (lit "input_images" == j) ≡ false
      → (lit "input_references" == j) ≡ false
      → get j (with_refs fl is_zero refs p) ≡ get j p
  unfolding with_refs lit
  get-with_refs j [] p a b c = refl
  get-with_refs j (u ∷ us) p a b c =
      get-put_other j _ _ _ c ∙ get-put_other j _ _ _ b ∙ get-put_other j _ _ _ a

  pub falsy-with_size :
      (mode : Mode) (p : Payload fl is_zero)
      → is_falsy fl is_zero (get (lit "size") (with_size fl is_zero mode p)) ≡ false
  unfolding with_size lit is_falsy text_field
  falsy-with_size chat p = filled (is_falsy fl is_zero) (lit "size") _ p refl
  falsy-with_size image p = filled (is_falsy fl is_zero) (lit "size") _ p refl
  falsy-with_size video p = filled (is_falsy fl is_zero) (lit "size") _ p refl

  pub blank-with_seconds :
      (p : Payload fl is_zero)
      → is_blank fl is_zero (get (lit "seconds") (with_seconds fl is_zero video p)) ≡ false
  unfolding with_seconds lit is_blank text_field
  blank-with_seconds p = filled (is_blank fl is_zero) (lit "seconds") _ p refl
