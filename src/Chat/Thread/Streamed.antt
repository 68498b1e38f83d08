-- ===== src/Chat/Thread/Streamed.antt =====
-- The log while an answer streams in.
use mikrollm.Base.{ℕ, ◌+◌, ◌<◌, ◌≡◌, false, List, [], ◌∷◌, ◌==◌, nat_eq, arith}
use mikrollm.Base.Text.{Text}
use mikrollm.Chat.{assistant}
use mikrollm.Chat.Submit.{waiting}
use mikrollm.Chat.Thread.{Bubble, Log, bubble, say, set_think}

-- No element of a log has a number.
abbrev Lacks : ℕ → List (ℕ × Bubble) → Type 0
Lacks n [] = Unit
Lacks n ((k, b) ∷ es) = ((k == n) ≡ false) × Lacks n es

-- The elements of a log are numbered below its next number.
abbrev pub IsNumbered : List (ℕ × Bubble) → ℕ → Type 0
IsNumbered [] n = Unit
IsNumbered ((k, b) ∷ es) n = (k < n) × IsNumbered es n

-- The bubble of an answer that has streamed so far.
abbrev pub streamed : Text → Text → Bubble
streamed acc think = record (say acc (bubble assistant waiting)) {
  think = set_think think (bubble assistant waiting).think;
}

-- The element that a submission makes for the answer.
abbrev pub asst_of : Log → ℕ
asst_of l = l.next + 1

IsNumbered-later : (es : List (ℕ × Bubble)) (n : ℕ) → IsNumbered es n → IsNumbered es (n + 1)
IsNumbered-later [] n h = tt
IsNumbered-later ((k, b) ∷ es) n (low, h) = (omega (arith, low), IsNumbered-later es n h)
