-- ===== src/Logs/Trim.antt =====
-- `trim` and its two halves.
use mathlib.Core.List.{reverse, reverse-cons, reverse-append}
use mikrollm.Base.{ℕ, ◌≡◌, refl, Bool, true, false, ◌&&◌, [], ◌∷◌, ◌++◌, if◌then◌else◌, arith}
use mikrollm.Base.Text.{Text, is_space, trim_start, trim, is_empty}

-- `trimEnd`, by recursion on the text.
trim_end : Text → Text
trim_end [] = []
trim_end (c ∷ s) = if is_empty (trim_end s) && is_space c then [] else c ∷ trim_end s

trim_start-snoc :
    (s : Text) (c : ℕ)
    → trim_start (s ++ c ∷ [])
      ≡ (if is_empty (trim_start s) && is_space c then [] else trim_start s ++ c ∷ [])
unfolding trim_start
trim_start-snoc [] c = ground arith
trim_start-snoc (d ∷ s) c = ground (arith, trim_start-snoc s c)

is_empty-reverse : (s : Text) → is_empty (reverse s) ≡ is_empty s
is_empty-reverse [] = refl
is_empty-reverse (c ∷ s) = rw reverse-cons (snoc (reverse s))
  where
    snoc : (t : Text) → is_empty (t ++ c ∷ []) ≡ false
    snoc [] = refl
    snoc (d ∷ t) = refl

reverse-if :
    (b : Bool) (c : ℕ) (t : Text)
    → reverse (if b then [] else t ++ c ∷ []) ≡ (if b then [] else c ∷ reverse t)
reverse-if true c t = refl
reverse-if false c t = reverse-append t (c ∷ [])

trim_end_lem : (s : Text) → reverse (trim_start (reverse s)) ≡ trim_end s
unfolding trim_end trim_start
trim_end_lem [] = refl
trim_end_lem (c ∷ s) =
    rw (reverse-cons c s, trim_start-snoc (reverse s) c, reverse-if)
      (rw (← trim_end_lem s, is_empty-reverse) refl)

trim_start_idem : (s : Text) → trim_start (trim_start s) ≡ trim_start s
unfolding trim_start
trim_start_idem [] = refl
trim_start_idem (c ∷ s) = ground (arith, trim_start_idem s)

trim_end_idem : (s : Text) → trim_end (trim_end s) ≡ trim_end s
unfolding trim_end
trim_end_idem [] = refl
trim_end_idem (c ∷ s) = ground (arith, trim_end_idem s)

-- Trimming the end of a text that does not begin with white space leaves it so.
start_end : (s : Text) → trim_start (trim_end (trim_start s)) ≡ trim_end (trim_start s)
unfolding trim_start trim_end
start_end [] = refl
start_end (c ∷ s) = ground (arith, start_end s)

pub trim_idem : (s : Text) → trim (trim s) ≡ trim s
unfolding trim
trim_idem s = simp (trim_end_lem, start_end, trim_end_idem)
