-- ===== src/Chat/Store.antt =====
-- The chats of the playground: the array `chats`, the active chat, and the arrays of messages, which
-- the chats and the variable `messages` share by reference.
pub mod Ops
pub mod View
pub mod Inv
pub mod Edits
pub mod Steps
pub mod Reload
use mikrollm.Base.{
  ℕ, zero, suc, ◌+◌, Option, none, some, Bool, true, false, not, ◌&&◌, ◌||◌, List, [], ◌∷◌, ◌++◌,
  map, if◌then◌else◌, ◌==◌, ◌!=◌, nat_eq, text_eq, find, select, take, last?,
}
use mikrollm.Base.Text.{Text, lit, is_empty}
use mikrollm.Chat.{Mode, Role, user, assistant, Message}
use mikrollm.Chat.Models.{Composer, model_value, set_model, filter_models, sync_mode_to_model}

-- An element of `chats`. `messages` is the address of its array; `running` tells whether `ac` holds
-- an abort controller.
pub record Chat : Type 0 where
  pub id : Text
  pub title : Text
  pub messages : ℕ
  pub model : Text
  pub mode : Mode
  pub updated : ℕ
  pub busy : Bool
  pub running : Bool
  pub gen_kind : Text

-- What `persist` writes of a chat, and the whole entry "ml-chats".
pub record PackedChat : Type 0 where
  pub id : Text
  pub title : Text
  pub model : Text
  pub mode : Mode
  pub updated : ℕ
  pub messages : List Message

pub record Bag : Type 0 where
  pub active : Text
  pub chats : List PackedChat

-- The entry "ml-chats": not there, not JSON, or what `persist` wrote.
pub data Saved : Type 0 where
  absent broken : Saved
  bag : Bag → Saved

-- The playground. `heap` gives the array at an address, and the addresses from `next` on are unused;
-- `messages` is the address in the variable of that name; `saved` is the entry "ml-chats" of the
-- local storage, and `now` the clock.
pub record App : Type 0 where
  pub chats : List Chat
  pub active : Text
  pub messages : ℕ
  pub heap : ℕ → List Message
  pub next : ℕ
  pub composer : Composer
  pub saved : Saved
  pub now : ℕ

-- `String(content).slice(0, 32)` of the first message of the user that is not empty.
unfoldable pub chat_title : List Message → Text
unfolding lit
chat_title [] = lit "Новый чат"
chat_title (m ∷ ms) = elim m.role [
  | user ↦ if is_empty m.content then chat_title ms else take 32 m.content
  | assistant ↦ chat_title ms
]

unfoldable pub chat_by_id : Text → List Chat → Option Chat
chat_by_id id [] = none
chat_by_id id (c ∷ cs) = if c.id == id then some c else chat_by_id id cs

-- An assignment to the fields of the object that `chatById` finds.
unfoldable pub update_chat : Text → (Chat → Chat) → List Chat → List Chat
update_chat id f [] = []
update_chat id f (c ∷ cs) = if c.id == id then f c ∷ cs else c ∷ update_chat id f cs

abbrev pub write : ℕ → List Message → (ℕ → List Message) → ℕ → List Message
write a ms heap b = if b == a then ms else heap b

abbrev pub take_snapshot : App → Chat → Chat
take_snapshot s c = record c {
  messages = s.messages;
  model = model_value s.composer;
  mode = s.composer.mode;
  title = chat_title (s.heap s.messages);
  updated = s.now;
}

unfoldable pub snapshot_chat : App → App
snapshot_chat s = record s { chats = update_chat s.active (take_snapshot s) s.chats }

-- The row that `pack` writes for a message.
unfoldable pub pack_message : Bool → Message → Message
pack_message with_image m = record {
  role = m.role;
  content = m.content;
  think = m.think;
  picture = if with_image then m.picture else none;
  film = m.film;
  had_image = elim m.picture [ none ↦ m.had_image | some _ ↦ true ];
  pending = m.pending;
}

abbrev pub pack_chat : Bool → (ℕ → List Message) → Chat → PackedChat
pack_chat with_image heap c = record {
  id = c.id;
  title = c.title;
  model = c.model;
  mode = c.mode;
  updated = c.updated;
  messages = map (pack_message with_image) (heap c.messages);
}

unfoldable pub pack : Bool → App → Bag
pack with_image s = record { active = s.active; chats = map (pack_chat with_image s.heap) s.chats }

-- `persist`, over the test whether the storage takes an entry: `setItem` throws if it does not.
module _ (takes : Bag → Bool) where
  unfoldable pub store : App → App
  store s =
      if takes (pack true s)
      then record s { saved = bag (pack true s) }
      else if takes (pack false s)
      then record s { saved = bag (pack false s) }
      else s

  unfoldable pub persist : App → App
  persist s = store (snapshot_chat s)
