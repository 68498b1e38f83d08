-- ===== src/Chat/Thread/Offers.antt =====
-- What the button "Ещё раз" of an answer asks for.
use mathlib.Core.Option
use mikrollm.Base.{◌≡◌, refl, ap, ◌∙◌, Option, none, some, List, [], ◌∷◌, ◌++◌, last?}
use mikrollm.Base.Text.{Text}
use mikrollm.Chat.{image, video, user, Message}
use mikrollm.Chat.Store.Ops.{Fields, blank_message, finish_messages, assign}
use mikrollm.Chat.Store.Steps.{asked}
use mikrollm.Chat.Thread.{Bubble, Actions, bubble, paint_message, fill_media}
use mikrollm.Chat.Thread.Laws.{painted, waits, edit_last-end, asked-end}

-- The buttons that an answer with these fields has.
abbrev film_offer : Text → Option Text → Option Actions → Option Actions
film_offer text none o = o
film_offer text (some v) o = some (record { kind = video; src = v; prompt = text })

abbrev picture_offer : Text → Option Text → Option Actions
picture_offer text none = none
picture_offer text (some i) = some (record { kind = image; src = i; prompt = text })

abbrev pub offer : Fields → Option Actions
offer f = film_offer f.content f.film (picture_offer f.content f.picture)

abbrev pub actions_of : Bubble → Option Actions
actions_of b = b.actions

last?-end : {A : Type 0} (xs : List A) (x : A) → last? (xs ++ x ∷ []) ≡ some x
last?-end [] x = refl
last?-end (y ∷ []) x = refl
last?-end (y ∷ z ∷ xs) x = last?-end (z ∷ xs) x

finish-waits :
    (f : Fields) (note : Text) (ms : List Message)
    → finish_messages f (ms ++ waits note ∷ []) ≡ ms ++ assign f (waits note) ∷ []
unfolding finish_messages
finish-waits f note ms = rw (edit_last-end (assign f) (waits note) ms refl, finish_messages) refl

last?-painted :
    (ms : List Message) (m : Message) → last? (painted (ms ++ m ∷ [])) ≡ some (paint_message m)
last?-painted [] m = refl
last?-painted (n ∷ []) m = refl
last?-painted (n ∷ k ∷ ms) m = last?-painted (k ∷ ms) m

actions-assign :
    (f : Fields) (note : Text) → actions_of (paint_message (assign f (waits note))) ≡ offer f
unfolding paint_message bubble fill_media
actions-assign f note = by_fields f.picture f.film
  where
    by_fields :
        (p v : Option Text)
        → actions_of (paint_message (assign (record f { picture = p; film = v }) (waits note)))
          ≡ offer (record f { picture = p; film = v })
    by_fields none none = refl
    by_fields none (some v) = refl
    by_fields (some p) none = refl
    by_fields (some p) (some v) = refl

-- When the request for a question ends, its answer has a button that repeats it if and only if the
-- answer has a picture or a film. What the button asks for is the text of the answer itself, whatever
-- the question was.
pub offer_lem :
    (f : Fields) (question note : Text) (ms : List Message)
    → Option.map actions_of (last? (painted (finish_messages f (asked question note ms))))
      ≡ some (offer f)
offer_lem f question note ms =
    let e : finish_messages f (asked question note ms)
        ≡ (ms ++ blank_message user question ∷ []) ++ assign f (waits note) ∷ [] =
      ap (finish_messages f) (asked-end question note ms)
      ∙ finish-waits f note (ms ++ blank_message user question ∷ []) in
    ap (λ ns. Option.map actions_of (last? (painted ns))) e
    ∙ ap (Option.map actions_of)
        (last?-painted (ms ++ blank_message user question ∷ []) (assign f (waits note)))
    ∙ ap some (actions-assign f note)
