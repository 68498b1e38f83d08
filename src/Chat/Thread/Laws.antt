-- ===== src/Chat/Thread/Laws.antt =====
-- What the log shows is what a repaint would show.
use mikrollm.Base.{
  ℕ, ◌≡◌, refl, sym, ap, ◌∙◌, some, Bool, true, List, [], ◌∷◌, ◌++◌, map, nat_eq, arith,
}
use mikrollm.Base.Text.{Text, lit}
use mikrollm.Chat.{Role, user, assistant, Message}
use mikrollm.Chat.Store.Ops.{blank_message, edit_last}
use mikrollm.Chat.Store.Steps.{asked}
use mikrollm.Chat.Thread.{
  Bubble, Log, bubble, shown_text, fill_media, paint_message, append_bubble, append_all, paint,
}

-- The bubbles of a log in order, without the rows of references.
abbrev pub bare : Bubble → Bubble
bare b = record b { rows = [] }

abbrev pub bubbles : List (ℕ × Bubble) → List Bubble
bubbles [] = []
bubbles ((k, b) ∷ es) = bare b ∷ bubbles es

abbrev pub painted : List Message → List Bubble
painted ms = map paint_message ms

pub bubbles-append : (es fs : List (ℕ × Bubble)) → bubbles (es ++ fs) ≡ bubbles es ++ bubbles fs
bubbles-append [] fs = refl
bubbles-append ((k, b) ∷ es) fs = ap (λ r. bare b ∷ r) (bubbles-append es fs)

pub bare-paint_message : (m : Message) → bare (paint_message m) ≡ paint_message m
unfolding paint_message bubble fill_media
bare-paint_message m = ground arith

bubbles-append_bubble :
    (b : Bubble) (l : Log)
    → bubbles (append_bubble b l).elements ≡ bubbles l.elements ++ bare b ∷ []
unfolding append_bubble
bubbles-append_bubble b l = bubbles-append l.elements ((l.next, b) ∷ [])

pub append-cons :
    (xs : List Bubble) (b : Bubble) (ys : List Bubble) → (xs ++ b ∷ []) ++ ys ≡ xs ++ b ∷ ys
append-cons [] b ys = refl
append-cons (x ∷ xs) b ys = ap (λ r. x ∷ r) (append-cons xs b ys)

bubbles-append_all :
    (ms : List Message) (l : Log)
    → bubbles (append_all ms l).elements ≡ bubbles l.elements ++ painted ms
unfolding append_all
bubbles-append_all [] l = sym (append_nil (bubbles l.elements))
  where
    append_nil : (xs : List Bubble) → xs ++ [] ≡ xs
    append_nil [] = refl
    append_nil (x ∷ xs) = ap (λ r. x ∷ r) (append_nil xs)
bubbles-append_all (m ∷ ms) l =
    bubbles-append_all ms (append_bubble (paint_message m) l)
    ∙ ap (λ r. r ++ painted ms) (bubbles-append_bubble (paint_message m) l)
    ∙ append-cons (bubbles l.elements) (bare (paint_message m)) (painted ms)
    ∙ ap (λ b. bubbles l.elements ++ b ∷ painted ms) (bare-paint_message m)

pub bubbles-paint : (ms : List Message) (l : Log) → bubbles (paint ms l).elements ≡ painted ms
unfolding paint
bubbles-paint ms l = bubbles-append_all ms _

pub painted-append : (ms ns : List Message) → painted (ms ++ ns) ≡ painted ms ++ painted ns
painted-append [] ns = refl
painted-append (m ∷ ms) ns = ap (λ r. paint_message m ∷ r) (painted-append ms ns)

-- What a repaint shows of a question and of an answer that waits.
pub paint_message-said :
    (r : Role) (text : Text) (p : Bool)
    → paint_message (record (blank_message r text) { pending = p }) ≡ bubble r text
unfolding paint_message bubble fill_media shown_text lit
paint_message-said user [] p = refl
paint_message-said user (c ∷ text) p = refl
paint_message-said assistant [] p = refl
paint_message-said assistant (c ∷ text) p = refl

pub bare-bubble : (r : Role) (text : Text) → bare (bubble r text) ≡ bubble r text
unfolding bubble
bare-bubble r text = refl

-- An edit of the last answer after any messages.
pub edit_last-end :
    (g : Message → Message) (m : Message) (ms : List Message)
    → m.role ≡ assistant
    → edit_last g (ms ++ m ∷ []) ≡ some (ms ++ g m ∷ [])
unfolding edit_last
edit_last-end g m [] e = ground arith
edit_last-end g m (n ∷ []) e = ground arith
edit_last-end g m (n ∷ k ∷ ms) e = rw (edit_last-end g m (k ∷ ms) e) refl

-- The answer that waits for a request.
abbrev pub waits : Text → Message
waits note = record (blank_message assistant note) { pending = true }

pub asked-end :
    (text note : Text) (ms : List Message)
    → asked text note ms ≡ (ms ++ blank_message user text ∷ []) ++ waits note ∷ []
asked-end text note [] = refl
asked-end text note (m ∷ ms) = ap (λ r. m ∷ r) (asked-end text note ms)
