-- ===== src/Chat/Thread/Texts.antt =====
-- The log while a picture or a film is made: what `setPendingText` writes to it.
use mathlib.Core.Option
use mikrollm.Base.{
  ℕ, ◌≡◌, refl, sym, ap, ◌∙◌, Option, none, some, true, false, ◌||◌, List, [], ◌∷◌, ◌++◌,
  if◌then◌else◌, arith,
}
use mikrollm.Base.Text.{Text, is_empty}
use mikrollm.Chat.Models.{is_chat}
use mikrollm.Chat.{Mode, user, assistant, Message}
use mikrollm.Chat.Store.Ops.{blank_message}
use mikrollm.Chat.Store.Steps.{asked, waiting_text, or_kept}
use mikrollm.Chat.Submit.{waiting}
use mikrollm.Chat.Submit.Again.{pop_answer}
use mikrollm.Chat.Submit.Again.Laws.{redone}
use mikrollm.Chat.Thread.{
  Bubble, Log, bubble, append_refs, paint_message, append_bubble, append_all, paint, with_refs,
  is_answer, say, say_last, show_pending, or_old, show_sent, show_again,
}
use mikrollm.Chat.Thread.Laws.{
  waits, edit_last-end, asked-end, painted, painted-append, paint_message-said, append-cons,
}

-- `say_last` on the bubbles.
abbrev say_bubbles : Text → List Bubble → Option (List Bubble)
say_bubbles text [] = none
say_bubbles text (b ∷ bs) = elim (say_bubbles text bs) [
  | some r ↦ some (b ∷ r)
  | none ↦ if is_answer b.role then some (say text b ∷ bs) else none
]

-- The bubbles of a log in order, each with its rows of references.
abbrev pub full : List (ℕ × Bubble) → List Bubble
full [] = []
full ((k, b) ∷ es) = b ∷ full es

full-append : (es fs : List (ℕ × Bubble)) → full (es ++ fs) ≡ full es ++ full fs
full-append [] fs = refl
full-append ((k, b) ∷ es) fs = ap (λ r. b ∷ r) (full-append es fs)

full-append_bubble :
    (b : Bubble) (l : Log) → full (append_bubble b l).elements ≡ full l.elements ++ b ∷ []
unfolding append_bubble
full-append_bubble b l = full-append l.elements ((l.next, b) ∷ [])

full-append_all :
    (ms : List Message) (l : Log) → full (append_all ms l).elements ≡ full l.elements ++ painted ms
unfolding append_all
full-append_all [] l = sym (append_nil (full l.elements))
  where
    append_nil : (xs : List Bubble) → xs ++ [] ≡ xs
    append_nil [] = refl
    append_nil (x ∷ xs) = ap (λ r. x ∷ r) (append_nil xs)
full-append_all (m ∷ ms) l =
    full-append_all ms (append_bubble (paint_message m) l)
    ∙ ap (λ r. r ++ painted ms) (full-append_bubble (paint_message m) l)
    ∙ append-cons (full l.elements) (paint_message m) (painted ms)

full-paint : (ms : List Message) (l : Log) → full (paint ms l).elements ≡ painted ms
unfolding paint
full-paint ms l = full-append_all ms _

full-say_last :
    (text : Text) (es : List (ℕ × Bubble))
    → Option.map full (say_last text es) ≡ say_bubbles text (full es)
unfolding say_last
full-say_last text [] = refl
full-say_last text ((k, b) ∷ es) = ground (arith, full-say_last text es)

say_bubbles-end :
    (text old : Text) (bs : List Bubble)
    → say_bubbles text (bs ++ bubble assistant old ∷ []) ≡ some (bs ++ bubble assistant text ∷ [])
unfolding bubble
say_bubbles-end text old [] = refl
say_bubbles-end text old (b ∷ bs) = rw (say_bubbles-end text old bs) refl

full-or_old :
    (o : Option (List (ℕ × Bubble))) (es : List (ℕ × Bubble)) (bs : List Bubble)
    → Option.map full o ≡ some bs
    → full (or_old o es) ≡ bs
full-or_old none es bs e = absurd (cc e)
full-or_old (some fs) es bs e = cc e

waiting_text-answer :
    (text old : Text) (ms : List Message)
    → waiting_text text (ms ++ waits old ∷ []) ≡ ms ++ waits text ∷ []
waiting_text-answer text old ms =
    ap (λ o. or_kept o (ms ++ waits old ∷ []))
      (edit_last-end (λ m. record m { content = text; pending = true }) (waits old) ms refl)

painted-answer :
    (text : Text) (ms : List Message)
    → painted (ms ++ waits text ∷ []) ≡ painted ms ++ bubble assistant text ∷ []
painted-answer text ms =
    painted-append ms (waits text ∷ [])
    ∙ ap (λ b. painted ms ++ b ∷ []) (paint_message-said assistant text true)

-- The texts that a request tells, one after the other, on the log and on the messages.
abbrev pub show_texts : List Text → Log → Log
show_texts [] l = l
show_texts (t ∷ ts) l = show_texts ts (show_pending t l)

abbrev pub told_texts : List Text → List Message → List Message
told_texts [] ms = ms
told_texts (t ∷ ts) ms = told_texts ts (waiting_text t ms)

-- The text of the answer after these texts.
abbrev pub last_told : Text → List Text → Text
last_told old [] = old
last_told old (t ∷ ts) = last_told t ts

-- The row that a submission adds under its question.
abbrev pub ref_rows : Mode → List Text → List (List Text)
ref_rows m shot = if is_chat m || is_empty shot then [] else shot ∷ []

full-show_pending :
    (text old : Text) (bs : List Bubble) (l : Log)
    → full l.elements ≡ bs ++ bubble assistant old ∷ []
    → full (show_pending text l).elements ≡ bs ++ bubble assistant text ∷ []
unfolding show_pending
full-show_pending text old bs l h =
    full-or_old (say_last text l.elements) l.elements _
      (full-say_last text l.elements ∙ ap (say_bubbles text) h ∙ say_bubbles-end text old bs)

full-show_texts :
    (ts : List Text) (old : Text) (bs : List Bubble) (l : Log)
    → full l.elements ≡ bs ++ bubble assistant old ∷ []
    → full (show_texts ts l).elements ≡ bs ++ bubble assistant (last_told old ts) ∷ []
full-show_texts [] old bs l h = h
full-show_texts (t ∷ ts) old bs l h =
    full-show_texts ts t bs (show_pending t l) (full-show_pending t old bs l h)

painted-told_texts :
    (ts : List Text) (old : Text) (ms : List Message)
    → painted (told_texts ts (ms ++ waits old ∷ []))
      ≡ painted ms ++ bubble assistant (last_told old ts) ∷ []
painted-told_texts [] old ms = painted-answer old ms
painted-told_texts (t ∷ ts) old ms =
    ap (λ ns. painted (told_texts ts ns)) (waiting_text-answer t old ms)
    ∙ painted-told_texts ts t ms

question-with_refs :
    (m : Mode) (text : Text) (shot : List Text)
    → with_refs m shot (bubble user text) ≡ record (bubble user text) { rows = ref_rows m shot }
unfolding with_refs append_refs bubble
question-with_refs m text shot = ground arith

full-show_sent :
    (m : Mode) (text : Text) (shot : List Text) (ms : List Message) (l : Log)
    → full (show_sent m text shot (paint ms l)).elements
      ≡ (painted ms ++ record (bubble user text) { rows = ref_rows m shot } ∷ [])
        ++ bubble assistant waiting ∷ []
unfolding show_sent
full-show_sent m text shot ms l =
    full-append_bubble (bubble assistant waiting) _
    ∙ ap (λ r. r ++ bubble assistant waiting ∷ [])
        (full-append_bubble (with_refs m shot (bubble user text)) (paint ms l))
    ∙ rw (full-paint ms l, question-with_refs m text shot) refl

full-show_again :
    (ms : List Message) (l : Log)
    → full (show_again ms l).elements ≡ painted ms ++ bubble assistant waiting ∷ []
unfolding show_again
full-show_again ms l =
    full-append_bubble (bubble assistant waiting) (paint ms l)
    ∙ ap (λ r. r ++ bubble assistant waiting ∷ []) (full-paint ms l)

painted-asked :
    (text : Text) (ts : List Text) (ms : List Message)
    → painted (told_texts ts (asked text waiting ms))
      ≡ painted ms ++ bubble user text ∷ bubble assistant (last_told waiting ts) ∷ []
painted-asked text ts ms =
    ap (λ ns. painted (told_texts ts ns)) (asked-end text waiting ms)
    ∙ painted-told_texts ts waiting (ms ++ blank_message user text ∷ [])
    ∙ ap (λ bs. bs ++ bubble assistant (last_told waiting ts) ∷ [])
        (painted-append ms (blank_message user text ∷ [])
          ∙ ap (λ b. painted ms ++ b ∷ []) (paint_message-said user text false))
    ∙ append-cons (painted ms) (bubble user text) (bubble assistant (last_told waiting ts) ∷ [])

-- From a submission to a log that was painted, through every status text that is told while its chat
-- is shown, the log shows the bubbles of the messages before, the question with one row of just the
-- references it was sent with (and no row for a chat or without references), and one answer with the
-- last text that was told; a repaint of the messages would show the same bubbles with the question
-- without its row. From the button that repeats a request on, the log shows exactly what a repaint of
-- the messages would show.
pub show_texts_lem :
    (m : Mode) (text : Text) (shot ts : List Text) (ms : List Message) (l : Log)
    → (full (show_texts ts (show_sent m text shot (paint ms l))).elements
        ≡ painted ms
          ++ record (bubble user text) { rows = ref_rows m shot }
            ∷ bubble assistant (last_told waiting ts)
            ∷ [])
      × (painted (told_texts ts (asked text waiting ms))
          ≡ painted ms ++ bubble user text ∷ bubble assistant (last_told waiting ts) ∷ [])
      × (full (show_texts ts (show_again (pop_answer ms) l)).elements
          ≡ painted (told_texts ts (redone ms)))
show_texts_lem m text shot ts ms l = (
  full-show_texts ts waiting _ (show_sent m text shot (paint ms l))
        (full-show_sent m text shot ms l)
      ∙ append-cons (painted ms) _ _,
  painted-asked text ts ms,
  full-show_texts ts waiting _ (show_again (pop_answer ms) l) (full-show_again (pop_answer ms) l)
      ∙ sym (painted-told_texts ts waiting (pop_answer ms)),
)
