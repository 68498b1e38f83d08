-- ===== src/Chat/Thread.antt =====
-- The thread of messages as it is shown: `paintThread`, `bubble`, `fillMedia`, `mediaActions`,
-- `appendRefsToBubble`, and what a submission, the button "Ещё раз", `setPendingText` and a stream
-- write to the log.
pub mod Laws
pub mod Texts
pub mod Streamed
pub mod Offers
use mikrollm.Base.{
  ℕ, ◌+◌, Option, none, some, Bool, true, false, not, List, [], ◌∷◌, ◌++◌, if◌then◌else◌, ◌==◌,
  nat_eq,
}
use mikrollm.Base.Text.{Text, lit, is_empty, either}
use mikrollm.Chat.{Mode, image, video, Role, user, assistant, Message}
use mikrollm.Chat.Models.{is_chat}
use mikrollm.Chat.Panels.{has_image, has_film}
use mikrollm.Chat.Submit.{waiting}

-- What the element `.txt` holds; a picture has its address and its alternative text.
pub data Body : Type 0 where
  words : Text → Body
  picture : Text → Text → Body
  film : Text → Body

-- The element `.think`, which only an answer has.
pub data Think : Type 0 where
  without folded : Think
  told : Text → Think

-- The buttons "Скачать" and "Ещё раз": the mode, the address and the prompt that they act with.
pub record Actions : Type 0 where
  pub kind : Mode
  pub src : Text
  pub prompt : Text

-- A `.chat-msg`; `rows` are the rows of references at the end of its `.txt`.
pub record Bubble : Type 0 where
  pub role : Role
  pub think : Think
  pub body : Body
  pub rows : List (List Text)
  pub actions : Option Actions

-- `bubble`
unfoldable pub bubble : Role → Text → Bubble
bubble r text = record {
  role = r;
  think = elim r [ user ↦ without | assistant ↦ folded ];
  body = words text;
  rows = [];
  actions = none;
}

unfoldable pub append_refs : List Text → Bubble → Bubble
append_refs urls b = if is_empty urls then b else record b { rows = b.rows ++ urls ∷ [] }

-- What `paintThread` shows of a message in words.
unfoldable pub shown_text : Message → Text
unfolding lit
shown_text m =
    either m.content
      (if has_film m then lit "видео" else if has_image m then lit "изображение" else [])

abbrev pub show_think : Text → Think → Think
show_think text without = without
show_think text folded = if is_empty text then folded else told text
show_think text (told old) = if is_empty text then told old else told text

abbrev pub film_body : Option Text → Bubble → Bubble
film_body none b = b
film_body (some v) b = record b { body = film v; rows = [] }

unfoldable pub fill_media : Message → Bubble → Bubble
fill_media m b = elim m.picture [
  | some i ↦ record b { body = picture i m.content; rows = [] }
  | none ↦ film_body m.film b
]

-- `mediaActions` replaces the buttons that are there.
abbrev pub media_actions : Mode → Option Text → Text → Bubble → Bubble
media_actions kind none prompt b = b
media_actions kind (some src) prompt b = record b {
  actions = some (record { kind = kind; src = src; prompt = prompt });
}

-- A message as `paintThread` shows it.
unfoldable pub paint_message : Message → Bubble
paint_message m =
    let b = bubble m.role (shown_text m) in
    let c = fill_media m (record b { think = show_think m.think b.think }) in
    media_actions video m.film m.content (media_actions image m.picture m.content c)

-- The log: its bubbles as elements, numbered in the order in which they are made, and whether the
-- note of an empty thread is hidden.
pub record Log : Type 0 where
  pub elements : List (ℕ × Bubble)
  pub next : ℕ
  pub note_hidden : Bool

unfoldable pub append_bubble : Bubble → Log → Log
append_bubble b l = record {
  elements = l.elements ++ (l.next, b) ∷ [];
  next = l.next + 1;
  note_hidden = true;
}

unfoldable pub append_all : List Message → Log → Log
append_all [] l = l
append_all (m ∷ ms) l = append_all ms (append_bubble (paint_message m) l)

-- `paintThread` removes every bubble first.
unfoldable pub paint : List Message → Log → Log
paint ms l = append_all ms (record l { elements = []; note_hidden = not (is_empty ms) })

unfoldable pub with_refs : Mode → List Text → Bubble → Bubble
with_refs m shot b = if is_chat m then b else append_refs shot b

-- What a submission appends to the log, and what the button "Ещё раз" makes of it.
unfoldable pub show_sent : Mode → Text → List Text → Log → Log
show_sent m text shot l =
    append_bubble (bubble assistant waiting) (append_bubble (with_refs m shot (bubble user text)) l)

unfoldable pub show_again : List Message → Log → Log
show_again popped l = append_bubble (bubble assistant waiting) (paint popped l)

abbrev pub is_answer : Role → Bool
is_answer user = false
is_answer assistant = true

-- `textContent = text`
abbrev pub say : Text → Bubble → Bubble
say text b = record b { body = words text; rows = [] }

-- `setPendingText` for the chat that is shown: it writes to the last answer of the log.
unfoldable pub say_last : Text → List (ℕ × Bubble) → Option (List (ℕ × Bubble))
say_last text [] = none
say_last text ((k, b) ∷ es) = elim (say_last text es) [
  | some r ↦ some ((k, b) ∷ r)
  | none ↦ if is_answer b.role then some ((k, say text b) ∷ es) else none
]

abbrev pub or_old {ℓ} : {A : Type ℓ} → Option A → A → A
or_old none a = a
or_old (some b) a = b

unfoldable pub show_pending : Text → Log → Log
show_pending text l = record l { elements = or_old (say_last text l.elements) l.elements }

-- `asst.think.hidden = !think; asst.think.textContent = think`, where there is such an element.
abbrev pub set_think : Text → Think → Think
set_think think without = without
set_think think folded = if is_empty think then folded else told think
set_think think (told old) = if is_empty think then folded else told think

-- What a stream writes to the element `asst` that its submission made, wherever that is now.
unfoldable pub stream_to : ℕ → Text → Text → List (ℕ × Bubble) → List (ℕ × Bubble)
stream_to asst acc think [] = []
stream_to asst acc think ((k, b) ∷ es) =
    let rest = stream_to asst acc think es in
    if k == asst
    then (k, record (say acc b) { think = set_think think b.think }) ∷ rest
    else (k, b) ∷ rest

unfoldable pub show_stream : ℕ → Text → Text → Log → Log
show_stream asst acc think l = record l { elements = stream_to asst acc think l.elements }
