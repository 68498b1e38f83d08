-- ===== src/Chat/Store/Ops.antt =====
-- The operations on chats: `switchChat`, `newChat`, the close-button, `setChatBusy`,
-- `setPendingText`, `finishAssistant`, the first lines of a submission, and `restore`.
use mikrollm.Base.{
  ℕ, ◌+◌, Option, none, some, Bool, true, false, List, [], ◌∷◌, ◌++◌, if◌then◌else◌, ◌==◌, ◌!=◌,
  nat_eq, text_eq, select, last?, length,
}
use mikrollm.Base.Text.{Text, lit, is_empty}
use mikrollm.Chat.{Mode, Role, user, assistant, Message}
use mikrollm.Chat.Models.{Composer, model_value, set_model, filter_models, sync_mode_to_model}
use mikrollm.Chat.Store.{
  Chat, PackedChat, Bag, Saved, absent, broken, bag, App, chat_title, chat_by_id, update_chat,
  write, snapshot_chat, persist,
}

-- The last element of `chats` with an id, as the loops of `switchChat` and `restore` find it.
unfoldable pub last_by_id : Text → List Chat → Option Chat
last_by_id id [] = none
last_by_id id (c ∷ cs) = elim (last_by_id id cs) [
  | some d ↦ some d
  | none ↦ if c.id == id then some c else none
]

-- `modelEl.value = chat.model; modeEl.value = chat.mode; filterModels()`.
unfoldable pub load_composer : Chat → Composer → Composer
load_composer c comp = filter_models (record (set_model c.model comp) { mode = c.mode })

-- `paintThread` ends with `syncModeToModel`.
abbrev pub paint_thread : App → App
paint_thread s = record s { composer = sync_mode_to_model s.composer }

-- `setChatBusy` on the chats; the rest of it shows and hides buttons.
unfoldable pub set_chat_busy : Text → Bool → App → App
set_chat_busy id on s = record s { chats = update_chat id (λ c. record c { busy = on }) s.chats }

-- The chat `id` becomes the active one, from its object.
abbrev pub activate : Text → Chat → App → App
activate id c s = record s {
  active = id;
  messages = c.messages;
  composer = load_composer c s.composer;
}

-- The last assistant message of an array, changed by `f`; `none` if the last message is no such.
unfoldable pub edit_last : (Message → Message) → List Message → Option (List Message)
edit_last f [] = none
edit_last f (m ∷ []) = elim m.role [ assistant ↦ some (f m ∷ []) | user ↦ none ]
edit_last f (m ∷ n ∷ ms) = elim (edit_last f (n ∷ ms)) [ none ↦ none | some r ↦ some (m ∷ r) ]

-- The fields that `finishAssistant` is called with; `none` leaves a field of the message alone.
pub record Fields : Type 0 where
  pub content : Text
  pub think : Option Text
  pub picture : Option Text
  pub film : Option Text

abbrev pub keep {ℓ} : {A : Type ℓ} → Option A → A → A
keep none old = old
keep (some a) old = a

abbrev pub keep_some {ℓ} : {A : Type ℓ} → Option A → Option A → Option A
keep_some none old = old
keep_some (some a) old = some a

-- `Object.assign(last, fields, { pending: false })`
abbrev pub assign : Fields → Message → Message
assign f m = record m {
  content = f.content;
  think = keep f.think m.think;
  picture = keep_some f.picture m.picture;
  film = keep_some f.film m.film;
  pending = false;
}

abbrev pub blank_message : Role → Text → Message
blank_message r text = record {
  role = r;
  content = text;
  think = [];
  picture = none;
  film = none;
  had_image = false;
  pending = false;
}

unfoldable pub finish_messages : Fields → List Message → List Message
finish_messages f ms = elim (edit_last (assign f) ms) [
  | some r ↦ r
  | none ↦ ms ++ assign f (blank_message assistant []) ∷ []
]

unfoldable pub set_pending_text : Text → Text → App → App
set_pending_text id text s = elim (chat_by_id id s.chats) [
  | none ↦ s
  | some c ↦
      elim (edit_last (λ m. record m { content = text; pending = true }) (s.heap c.messages)) [
        | none ↦ s
        | some r ↦ record s { heap = write c.messages r s.heap }
      ]
]

-- `messages = c.messages`
abbrev pub read_messages : Text → App → App
read_messages id s = record s {
  messages = elim (chat_by_id id s.chats) [ none ↦ s.messages | some c ↦ c.messages ];
}

abbrev pub idle : Chat → Chat
idle c = record c { busy = false; running = false; gen_kind = [] }

abbrev pub unpack_chat : ℕ → PackedChat → Chat
unpack_chat a p = record {
  id = p.id;
  title = p.title;
  messages = a;
  model = p.model;
  mode = p.mode;
  updated = p.updated;
  busy = false;
  running = false;
  gen_kind = [];
}

-- The chats of the entry, their arrays at the addresses from `a` on.
unfoldable pub unpack : ℕ → List PackedChat → List Chat
unpack a [] = []
unpack a (p ∷ ps) = unpack_chat a p ∷ unpack (a + 1) ps

unfoldable pub unpack_heap : ℕ → List PackedChat → (ℕ → List Message) → ℕ → List Message
unpack_heap a [] heap = heap
unpack_heap a (p ∷ ps) heap = unpack_heap (a + 1) ps (write a p.messages heap)

-- The chat that `restore` opens: the last one with the id, or the first one, `d`.
abbrev pub or_first : Option Chat → Chat → Chat
or_first none d = d
or_first (some c) d = c

unfoldable pub current : Text → Chat → List Chat → Chat
current id d cs = or_first (last_by_id id (d ∷ cs)) d

-- An entry of an older version of the page, in the session storage.
pub record Legacy : Type 0 where
  pub messages : List Message
  pub model : Text
  pub mode : Mode

-- The object that `newChat` makes, with its array at an address.
unfoldable pub made_chat : Text → App → Chat
unfolding lit
made_chat id s = record {
  id = id;
  title = lit "Новый чат";
  messages = s.next;
  model = model_value s.composer;
  mode = s.composer.mode;
  updated = s.now;
  busy = false;
  running = false;
  gen_kind = [];
}

-- `newChat` up to its call of `persist`, with the id that it draws from the clock and the random
-- numbers. It allocates two arrays: one for the chat and one for the variable.
unfoldable pub add_chat : Text → App → App
add_chat id s =
    let t = snapshot_chat s in
    record t {
      chats = t.chats ++ made_chat id s ∷ [];
      active = id;
      messages = s.next + 1;
      heap = write s.next [] (write (s.next + 1) [] s.heap);
      next = s.next + 2;
      composer = record t.composer { refs = [] };
    }

module _ (takes : Bag → Bool) where
  unfoldable pub switch_chat : Text → App → App
  switch_chat id s =
      if id == s.active
      then s
      else let t = snapshot_chat s in
        elim (last_by_id id t.chats) [
          | none ↦ t
          | some c ↦ persist takes (paint_thread (activate id c t))
        ]

  unfoldable pub new_chat : Text → App → App
  new_chat id s = persist takes (add_chat id s)

  -- The close-button of the tab `id`; `fresh` is the id of the chat that replaces the last one.
  unfoldable pub close_chat : Text → Text → App → App
  close_chat fresh id s =
      let t = record s { chats = select (λ c. c.id != id) s.chats } in
      elim (last? t.chats) [
        | none ↦ new_chat fresh t
        | some c ↦ if s.active == id then switch_chat c.id t else persist takes t
      ]

  unfoldable pub finish_assistant : Text → Fields → App → App
  finish_assistant id f s = elim (chat_by_id id s.chats) [
    | none ↦ s
    | some c ↦
        let t = persist takes (record s {
          heap = write c.messages (finish_messages f (s.heap c.messages)) s.heap;
          chats = update_chat id idle s.chats;
        }) in
        if id == s.active then set_chat_busy id false (paint_thread (read_messages id t)) else t
  ]

  -- A submission: the message of the user and the one that waits, and `persist`.
  unfoldable pub push_pair : Text → Text → App → App
  push_pair text waiting s = persist takes (record s {
    heap =
        write s.messages
          (s.heap s.messages
            ++ blank_message user text
              ∷ record (blank_message assistant waiting) { pending = true }
              ∷ [])
          s.heap;
  })

  -- `restore` without an entry "ml-chats": the entry of the older version, if there is one.
  unfoldable pub restore_old : Text → Option Legacy → App → App
  unfolding lit
  restore_old fresh none s = new_chat fresh s
  restore_old fresh (some l) s = paint_thread (record s {
    chats =
        record {
          id = lit "c0";
          title = chat_title l.messages;
          messages = s.next;
          model = l.model;
          mode = l.mode;
          updated = s.now;
          busy = false;
          running = false;
          gen_kind = [];
        }
        ∷ [];
    active = lit "c0";
    messages = s.next;
    heap = write s.next l.messages s.heap;
    next = s.next + 1;
    composer = filter_models (record s.composer { mode = l.mode });
  })

  -- `restore` with an entry: its active id and its chats.
  unfoldable pub restore_bag : Text → Text → List PackedChat → App → App
  restore_bag fresh active [] s = new_chat fresh (record s { chats = []; active = active })
  restore_bag fresh active (p ∷ ps) s =
      let d = unpack_chat s.next p in
      let cs = unpack (s.next + 1) ps in
      let c = current (if is_empty active then d.id else active) d cs in
      paint_thread (
        activate c.id c (record s {
          chats = d ∷ cs;
          heap = unpack_heap s.next (p ∷ ps) s.heap;
          next = s.next + length (p ∷ ps);
        }))

  unfoldable pub restore_saved : Text → Option Legacy → Saved → App → App
  restore_saved fresh old absent s = restore_old fresh old s
  restore_saved fresh old broken s = new_chat fresh s
  restore_saved fresh old (bag b) s = restore_bag fresh b.active b.chats s

  -- `restore` on a page that has just been loaded; `fresh` is the id that `newChat` would draw.
  unfoldable pub restore : Text → Option Legacy → App → App
  restore fresh old s = restore_saved fresh old s.saved s
