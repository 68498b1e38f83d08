-- ===== src/Chat/Session.antt =====
-- The playground with what the user can click and with its requests under way: whether the input is
-- locked, and which chats have a request that has not ended.
pub mod Status
pub mod Lock
pub mod Starts
pub mod Laws
pub mod Sound
pub mod Opened
pub mod Stop
use mikrollm.Base.{
  Option, none, some, Bool, true, false, List, [], ◌∷◌, if◌then◌else◌, ◌==◌, ◌!=◌, text_eq, any,
  select, last?,
}
use mikrollm.Base.Text.{Text}
use mikrollm.Chat.{Mode}
use mikrollm.Chat.Store.{Chat, Bag, App, chat_by_id, snapshot_chat}
use mikrollm.Chat.Store.Ops.{
  Fields, last_by_id, switch_chat, new_chat, close_chat, set_pending_text, finish_assistant,
}
use mikrollm.Chat.Submit.{Sent, ignored, refused, sent, submit}
use mikrollm.Chat.Submit.Again.{again}

-- `locked` is `input.disabled`, which `setChatBusy` sets for the active chat along with the buttons.
pub record Session : Type 0 where
  pub app : App
  pub locked : Bool
  pub requests : List Text

unfoldable pub requested : Text → List Text → Bool
requested id rs = any (λ r. r == id) rs

-- A request ends.
unfoldable pub without_one : Text → List Text → List Text
without_one id [] = []
without_one id (r ∷ rs) = if r == id then rs else r ∷ without_one id rs

-- What the user does, and what a request does before and at its end. Fresh ids are those that
-- `newChat` draws.
pub data Event : Type 0 where
  shows : Text → Event
  opens : Text → Event
  closes : Text → Text → Event
  sends : Bool → Text → Event
  repeats : Mode → Event
  tells : Text → Text → Event
  ends : Text → Fields → Event

-- `!!next.busy`, if there is such a chat.
abbrev pub busy_or : Bool → Option Chat → Bool
busy_or locked none = locked
busy_or locked (some c) = c.busy

-- `setBusy` in `switchChat`.
unfoldable pub lock_shown : Text → App → Bool → Bool
lock_shown id s locked =
    if id == s.active then locked else busy_or locked (last_by_id id (snapshot_chat s).chats)

abbrev pub remaining : Text → App → App
remaining id s = record s { chats = select (λ c. c.id != id) s.chats }

unfoldable pub lock_closed : Text → App → Bool → Bool
lock_closed id s locked = elim (last? (remaining id s).chats) [
  | none ↦ false
  | some c ↦ if s.active == id then lock_shown c.id (remaining id s) locked else locked
]

-- `if (id === activeId) … setChatBusy(id, false)`
unfoldable pub lock_ended : Text → App → Bool → Bool
lock_ended id s locked = elim (chat_by_id id s.chats) [
  | none ↦ locked
  | some c ↦ if id == s.active then false else locked
]

abbrev pub after_submit : Session → App × Sent → Session
after_submit s (t, ignored) = record s { app = t }
after_submit s (t, refused) = record s { app = t }
after_submit s (t, sent m prompt) = record {
  app = t;
  locked = true;
  requests = s.app.active ∷ s.requests;
}

-- The button that repeats a request does so for the active chat, unless it is busy.
abbrev pub after_repeat : (Bag → Bool) → Mode → Session → Option Chat → Session
after_repeat takes kind s none = s
after_repeat takes kind s (some c) = if c.busy then s else record {
  app = again takes kind c s.app;
  locked = true;
  requests = s.app.active ∷ s.requests;
}

-- An input that is locked sends nothing, and a request that is not under way does nothing.
unfoldable pub happen : (Bag → Bool) → Event → Session → Session
happen takes (shows id) s = record s {
  app = switch_chat takes id s.app;
  locked = lock_shown id s.app s.locked;
}
happen takes (opens fresh) s = record s { app = new_chat takes fresh s.app; locked = false }
happen takes (closes fresh id) s = record s {
  app = close_chat takes fresh id s.app;
  locked = lock_closed id s.app s.locked;
}
happen takes (sends needs_image raw) s =
    if s.locked then s else after_submit s (submit takes needs_image raw s.app)
happen takes (repeats kind) s = after_repeat takes kind s (chat_by_id s.app.active s.app.chats)
happen takes (tells id text) s =
    if requested id s.requests then record s { app = set_pending_text id text s.app } else s
happen takes (ends id f) s =
    if requested id s.requests
    then record {
      app = finish_assistant takes id f s.app;
      locked = lock_ended id s.app s.locked;
      requests = without_one id s.requests;
    }
    else s
