-- ===== src/Page/Copy.antt =====
-- The buttons that copy a text (`data-copy`): their label and the timers that restore it.
use mikrollm.Base.{
  ℕ, zero, suc, ◌≡◌, refl, sym, ap, ◌∙◌, Option, none, some, List, [], ◌∷◌, ◌++◌, nat_eq, length,
}
use mikrollm.Base.Text.{Text, lit, trim}

-- The button: its label, and the labels that its timers will restore, in the order in which they were
-- set; all wait equally long.
pub record CopyButton : Type 0 where
  pub label : Text
  pub timers : List Text

unfoldable pub copied_label : Text
unfolding lit
copied_label = lit "Скопировано"

-- What a click copies of the element it points at, if that is there.
abbrev pub copied_text : Option Text → Option Text
copied_text none = none
copied_text (some text) = some (trim text)

-- `ok`, when the text has been copied.
unfoldable pub copied : CopyButton → CopyButton
copied b = record { label = copied_label; timers = b.timers ++ b.label ∷ [] }

abbrev restore_first : List Text → CopyButton → CopyButton
restore_first [] b = b
restore_first (l ∷ ls) b = record { label = l; timers = ls }

-- The first of the timers fires.
unfoldable pub timeout : CopyButton → CopyButton
timeout b = restore_first b.timers b

abbrev pub copies : ℕ → CopyButton → CopyButton
copies zero b = b
copies (suc n) b = copies n (copied b)

abbrev pub timeouts : ℕ → CopyButton → CopyButton
timeouts zero b = b
timeouts (suc n) b = timeouts n (timeout b)

-- A button that no timer waits for.
abbrev pub quiet : Text → CopyButton
quiet l = record { label = l; timers = [] }

abbrev copied_labels : ℕ → List Text
copied_labels zero = []
copied_labels (suc n) = copied_label ∷ copied_labels n

abbrev last_label : Text → List Text → Text
last_label l [] = l
last_label l (m ∷ ms) = last_label m ms

append-cons : (xs : List Text) (y : Text) (zs : List Text) → (xs ++ y ∷ []) ++ zs ≡ xs ++ y ∷ zs
append-cons [] y zs = refl
append-cons (x ∷ xs) y zs = ap (λ r. x ∷ r) (append-cons xs y zs)

append_nil : (xs : List Text) → xs ++ [] ≡ xs
append_nil [] = refl
append_nil (x ∷ xs) = ap (λ r. x ∷ r) (append_nil xs)

-- The button right after a copy, with its timers.
abbrev busy_button : List Text → CopyButton
busy_button ls = record { label = copied_label; timers = ls }

copies-busy :
    (n : ℕ) (ls : List Text) → copies n (busy_button ls) ≡ busy_button (ls ++ copied_labels n)
unfolding copied
copies-busy zero ls = ap busy_button (sym (append_nil ls))
copies-busy (suc n) ls =
    copies-busy n (ls ++ copied_label ∷ [])
    ∙ ap busy_button (append-cons ls copied_label (copied_labels n))

timeouts-all :
    (l : Text) (ls : List Text)
    → timeouts (length ls) (record { label = l; timers = ls }) ≡ quiet (last_label l ls)
unfolding timeout
timeouts-all l [] = refl
timeouts-all l (m ∷ ms) = timeouts-all m ms

length-copied_labels : (n : ℕ) → length (copied_labels n) ≡ n
length-copied_labels zero = refl
length-copied_labels (suc n) = ap suc (length-copied_labels n)

last_label-copied : (n : ℕ) → last_label copied_label (copied_labels n) ≡ copied_label
last_label-copied zero = refl
last_label-copied (suc n) = last_label-copied n

-- The label when all timers have fired, after one copy and `n` more before the first of them.
abbrev pub final_label : ℕ → Text → Text
final_label zero l = l
final_label (suc n) l = copied_label

last_label-final : (n : ℕ) (l : Text) → last_label l (copied_labels n) ≡ final_label n l
last_label-final zero l = refl
last_label-final (suc n) l = last_label-copied n

copied-quiet : (l : Text) → copied (quiet l) ≡ busy_button (l ∷ [])
unfolding copied
copied-quiet l = refl

-- From a button that no timer waits for, one copy and its timer give the button back as it was. With
-- further copies before the first timer fires, the button is quiet again when all timers have fired, but
-- with the label of a copy instead of its own.
pub copies_lem :
    (n : ℕ) (l : Text) → timeouts (suc n) (copies (suc n) (quiet l)) ≡ quiet (final_label n l)
copies_lem n l =
    ap (λ b. timeouts (suc n) (copies n b)) (copied-quiet l)
    ∙ ap (timeouts (suc n)) (copies-busy n (l ∷ []))
    ∙ ap (λ k. timeouts (suc k) (busy_button (l ∷ copied_labels n))) (sym (length-copied_labels n))
    ∙ timeouts-all copied_label (l ∷ copied_labels n)
    ∙ ap quiet (last_label-final n l)
