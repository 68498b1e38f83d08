-- ===== src/Examples/Sessions.antt =====
-- The theorems on the playground with its requests, and on what it shows, on small pages.
use mathlib.Core.Option
use mikrollm.Base.{
  ◌≡◌, refl, none, some, true, false, List, [], ◌∷◌, ◌++◌, ◌==◌, text_eq, last?, list_beq, arith,
  take, drop, ◌-◌, length, Bool-cases, inl, inr,
}
use mikrollm.Base.Text.{Text, lit}
use mikrollm.Chat.{image, user, assistant, Message}
use mikrollm.Chat.Store.Ops.{Fields, blank_message, finish_messages}
use mikrollm.Chat.Store.View.{addr}
use mikrollm.Chat.Store.Steps.{asked}
use mikrollm.Chat.Submit.{waiting}
use mikrollm.Chat.Submit.Again.{pop_answer}
use mikrollm.Chat.Submit.Again.Laws.{redone}
use mikrollm.Chat.Session.{Session, requested, shows, opens, sends, ends, happen}
use mikrollm.Chat.Session.Status.{status}
use mikrollm.Chat.Session.Laws.{count, Served, IsSound, IsFresh}
use mikrollm.Chat.Session.Sound.{IsLed, rest, after, happens-IsSound}
use mikrollm.Chat.Thread.{Log, bubble, show_sent, show_again, paint}
use mikrollm.Chat.Thread.Laws.{painted}
use mikrollm.Chat.Thread.Texts.{full, show_texts, told_texts, show_texts_lem}
use mikrollm.Chat.Thread.Offers.{offer, actions_of, offer_lem}
use mikrollm.Chat.Refs.{Strip, attach, cross, clear_refs}
use mikrollm.Chat.Refs.Laws.{IsTidy, read_urls, strip_lem}
use mikrollm.Examples.Playground.{app, takes_all, app-IsConsistent, digits}

abbrev session : Session
session = record { app = app; locked = false; requests = [] }

idle-Served : (j : Text) → Served (status j app.chats) (count j [])
unfolding status count
idle-Served j = elim (Bool-cases (lit "one" == j)) [
  | inl y ↦ rw y refl
  | inr n ↦
      rw n (elim (Bool-cases (lit "two" == j)) [ inl y ↦ rw y refl | inr k ↦ rw k (omega arith) ])
]

session-IsSound : IsSound session
unfolding status lit list_beq
session-IsSound = record { consistent = app-IsConsistent; mirrored = refl; served = idle-Served }

three_free : IsFresh (opens (lit "three")) session
unfolding addr requested lit list_beq
three_free = (refl, refl)

abbrev painted_cat : Fields
painted_cat = record {
  content = lit "Изображение сгенерировано.";
  think = none;
  picture = some (lit "data:a");
  film = none;
}

-- A chat is opened, a question is sent in the first one, and its answer comes.
abbrev led : Session
led = happen takes_all (ends (lit "one") painted_cat) (
    happen takes_all (sends false (lit " кот "))
      (happen takes_all (shows (lit "one")) (happen takes_all (opens (lit "three")) session)))

led-IsLed : IsLed takes_all session led
led-IsLed =
    after (ends (lit "one") painted_cat)
      (after (sends false (lit " кот "))
        (after (shows (lit "one")) (after (opens (lit "three")) rest three_free) tt) tt)
      tt

happens-IsSound_example : IsSound led
happens-IsSound_example = happens-IsSound takes_all session-IsSound led-IsLed

abbrev talk : List Message
talk = blank_message user (lit "привет") ∷ blank_message assistant (lit "да") ∷ []

abbrev no_log : Log
no_log = record { elements = []; next = 0; note_hidden = false }

abbrev notes : List Text
notes = lit "в очереди" ∷ lit "идёт" ∷ []

abbrev told_log : Log
told_log = show_texts notes (show_sent image (lit "кот") (lit "data:b" ∷ []) (paint talk no_log))

show_texts_lem_example :
    (full told_log.elements
      ≡ painted talk
        ++ record (bubble user (lit "кот")) { rows = (lit "data:b" ∷ []) ∷ [] }
          ∷ bubble assistant (lit "идёт")
          ∷ [])
    × (painted (told_texts notes (asked (lit "кот") waiting talk))
        ≡ painted talk ++ bubble user (lit "кот") ∷ bubble assistant (lit "идёт") ∷ [])
    × (full (show_texts notes (show_again (pop_answer talk) no_log)).elements
        ≡ painted (told_texts notes (redone talk)))
show_texts_lem_example = show_texts_lem image (lit "кот") (lit "data:b" ∷ []) notes talk no_log

offer_lem_example :
    Option.map actions_of
      (last? (painted (finish_messages painted_cat (asked (lit "кот") waiting talk))))
    ≡ some (offer painted_cat)
offer_lem_example = offer_lem painted_cat (lit "кот") waiting talk

abbrev strip : Strip
strip = record { refs = []; hidden = true; thumbs = []; zone = none; field = false }

strip-IsTidy : IsTidy digits image strip
strip-IsTidy = record { hides = refl; pictures = λ k. refl }

abbrev attached : Strip
attached = attach digits image (some (lit "data:a") ∷ some (lit "data:b") ∷ []) [] strip

attached-IsTidy : IsTidy digits image attached
attached-IsTidy =
    (strip_lem digits image strip 0 (some (lit "data:a") ∷ some (lit "data:b") ∷ []) []
      strip-IsTidy).0

strip_lem_example :
    IsTidy digits image (attach digits image (some (lit "data:c") ∷ []) attached.refs attached)
    × IsTidy digits image (cross digits image 1 attached)
    × IsTidy digits image (clear_refs digits image attached)
    × ((attach digits image (some (lit "data:c") ∷ []) attached.refs attached).refs
        ≡ attached.refs ++ read_urls (take (6 - length attached.refs) (some (lit "data:c") ∷ [])))
    × ((cross digits image 1 attached).refs ≡ take 1 attached.refs ++ drop 2 attached.refs)
    × ((clear_refs digits image attached).refs ≡ [])
strip_lem_example =
    strip_lem digits image attached 1 (some (lit "data:c") ∷ []) attached.refs attached-IsTidy
