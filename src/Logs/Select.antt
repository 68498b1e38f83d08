-- ===== src/Logs/Select.antt =====
-- Select elements, and queries as maps.
use mikrollm.Base.{
  ℕ, zero, suc, ◌+◌, ◌≡◌, refl, ap, Option, none, some, Bool, true, false, ◌&&◌, List, [], ◌∷◌,
  if◌then◌else◌, ◌==◌, text_eq, eq_iff, get_elem?, arith, Bool-cases, Option-cases, inl, inr,
}
use mikrollm.Base.Text.{Text, is_empty}
use mikrollm.Logs.{SelectBox, value_of, index_from, set_sel, Params, get, set, set_if}

-- `index_from` finds the value that it looks for, and finds one that is there.
index_from_lem :
    (i : ℕ) (v : Text) (os : List Text) (k : ℕ)
    → index_from i v os ≡ some k
    → (j : ℕ) × (k ≡ i + j) × (get_elem? os j ≡ some v)
unfolding index_from
index_from_lem i v [] k h = cc
index_from_lem i v (o ∷ os) k h = elim (Bool-cases (o == v)) [
  | inl same ↦ (0, ground arith, ap some ((eq_iff o v).0 same))
  | inr other ↦
      let (j, e, found) = index_from_lem (i + 1) v os k (rw other at h) in
      (suc j, omega arith, found)
]

index_from-found :
    (i j : ℕ) (v : Text) (os : List Text)
    → get_elem? os j ≡ some v
    → (k : ℕ) × (index_from i v os ≡ some k)
unfolding index_from
index_from-found i j v [] h = cc
index_from-found i zero v (o ∷ os) h = (i, ground (arith, eq_iff o v))
index_from-found i (suc j) v (o ∷ os) h = elim (Bool-cases (o == v)) [
  | inl same ↦ (i, rw same refl)
  | inr other ↦ rw other (index_from-found (i + 1) j v os h)
]

-- A select element whose first option is empty.
abbrev pub HasEmptyFirst : SelectBox → Type 0
HasEmptyFirst s = get_elem? s.options 0 ≡ some []

abbrev pub stored : Text → Option Text
stored v = if is_empty v then none else some v

set_sel_found :
    (s : SelectBox) (c : ℕ) (w : Text)
    → get_elem? s.options s.index ≡ some (c ∷ w)
    → value_of (set_sel (record s { index = 0 }) (some (c ∷ w))) ≡ c ∷ w
unfolding set_sel value_of
set_sel_found s c w h =
    let (k, found) = index_from-found 0 s.index (c ∷ w) s.options h in
    let (j, e, there) = index_from_lem 0 (c ∷ w) s.options k found in
    let at_k : get_elem? s.options k ≡ some (c ∷ w) =
      let same : k ≡ j = omega arith in rw same there in
    rw (found, set_sel) (rw (at_k, value_of) refl)

set_sel_empty : (s : SelectBox) → HasEmptyFirst s → value_of (record s { index = 0 }) ≡ []
unfolding value_of
set_sel_empty s h = rw (h, value_of) refl

stored_empty :
    (s : SelectBox) → HasEmptyFirst s → value_of (set_sel (record s { index = 0 }) (stored [])) ≡ []
unfolding set_sel
stored_empty s h = set_sel_empty s h

value_of_missing : (s : SelectBox) → get_elem? s.options s.index ≡ none → value_of s ≡ []
unfolding value_of
value_of_missing s h = ground arith

value_of_found : (s : SelectBox) (v : Text) → get_elem? s.options s.index ≡ some v → value_of s ≡ v
unfolding value_of
value_of_found s v h = ground arith

-- Setting a fresh select element to the value that another state of it showed gives that value.
pub set_sel-value_of :
    (s : SelectBox)
    → HasEmptyFirst s
    → value_of (set_sel (record s { index = 0 }) (stored (value_of s))) ≡ value_of s
set_sel-value_of s h = elim (Option-cases (get_elem? s.options s.index)) [
  | inl missing ↦ rw (value_of_missing s missing) (stored_empty s h)
  | inr (v, there) ↦ by_value v there (value_of_found s v there)
]
  where
    by_value :
        (v : Text)
        → get_elem? s.options s.index ≡ some v
        → value_of s ≡ v
        → value_of (set_sel (record s { index = 0 }) (stored (value_of s))) ≡ value_of s
    by_value [] there e = rw e (stored_empty s h)
    by_value (c ∷ w) there e = rw e (set_sel_found s c w there)

pub get-set :
    (k j v : Text) (ps : Params) → get j (set k v ps) ≡ (if k == j then some v else get j ps)
unfolding get set
get-set k j v [] = refl
get-set k j v ((i, w) ∷ ps) = ground (arith, eq_iff k j, eq_iff i k, eq_iff i j, get-set k j v ps)

pub get-set_if :
    (b : Bool) (k j v : Text) (ps : Params)
    → get j (set_if b k v ps) ≡ (if b && k == j then some v else get j ps)
unfolding set_if
get-set_if true k j v ps = get-set k j v ps
get-set_if false k j v ps = refl
