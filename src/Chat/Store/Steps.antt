-- ===== src/Chat/Store/Steps.antt =====
-- The playground as a state machine over the operations on its chats, against threads of messages
-- that are held by id.
pub mod Close
use mathlib.Core.Option
use mikrollm.Base.{
  ℕ, zero, suc, ◌+◌, ◌<◌, ◌≤◌, ◌≡◌, ◌≢◌, ◌⊎◌, refl, sym, ap, ◌∙◌, Option, none, some, Bool, true,
  false, not, ◌&&◌, ◌||◌, List, [], ◌∷◌, ◌++◌, if◌then◌else◌, ◌==◌, ◌!=◌, text_eq, eq_iff, eq_refl,
  arith, Bool-cases, inl, inr, Option-cases, select,
}
use mikrollm.Base.Text.{Text, is_empty}
use mikrollm.Chat.{Message, Role, user, assistant}
use mikrollm.Chat.Store.{Chat, Bag, App, chat_by_id, snapshot_chat, persist}
use mikrollm.Chat.Store.Ops.{
  Fields, edit_last, finish_messages, blank_message, set_chat_busy, set_pending_text,
  finish_assistant, push_pair, switch_chat, new_chat, close_chat,
}
use mikrollm.Chat.Store.View.{
  Skeleton, skeleton, addr, IsProper, IsConsistent, read, thread, Same, Same-IsConsistent,
  Same-thread, snapshot_chat-Same, addr-chat_by_id,
}
use mikrollm.Chat.Store.Inv.Moves.{
  Switched, Switched-IsConsistent, Switched-thread, switch_chat-Switched, switch_chat-Same, Grown,
  Grown-IsConsistent, Grown-thread, new_chat-Grown, Same-refl,
}
use mikrollm.Chat.Store.Edits.{
  Edited, Edited-IsConsistent, Edited-thread, set_chat_busy-Same, finish_assistant-Edited,
  set_pending_text-Edited, push_pair-Edited,
}
use mikrollm.Chat.Store.Steps.Close.{close_threads, Closed, close_chat-Closed}

-- What the user, a running generation and the start of a submission do to the chats.
pub data Action : Type 0 where
  switch : Text → Action
  start : Text → Action
  close : Text → Text → Action
  busy : Text → Bool → Action
  pending : Text → Text → Action
  finish : Text → Fields → Action
  push : Text → Text → Action

unfoldable pub step : (Bag → Bool) → Action → App → App
step takes (switch id) s = switch_chat takes id s
step takes (start id) s = new_chat takes id s
step takes (close fresh id) s = close_chat takes fresh id s
step takes (busy id on) s = set_chat_busy id on s
step takes (pending id text) s = set_pending_text id text s
step takes (finish id f) s = finish_assistant takes id f s
step takes (push text waiting) s = push_pair takes text waiting s

-- The id drawn for a further chat is not yet in use. (The one drawn when the only chat closes
-- cannot clash.)
abbrev pub IsAllowed : Action → App → Type 0
IsAllowed (start id) s = addr id (skeleton s.chats) ≡ none
IsAllowed _ s = Unit

abbrev pub Threads : Type 0
Threads = Text → Option (List Message)

-- An edit of the messages, where it finds one to change.
abbrev pub or_kept : Option (List Message) → List Message → List Message
or_kept none ms = ms
or_kept (some r) ms = r

abbrev pub waiting_text : Text → List Message → List Message
waiting_text text ms = or_kept (edit_last (λ m. record m { content = text; pending = true }) ms) ms

abbrev pub asked : Text → Text → List Message → List Message
asked text waiting ms =
    ms ++ blank_message user text ∷ record (blank_message assistant waiting) { pending = true } ∷ []

abbrev pub at_id : Text → (List Message → List Message) → Threads → Threads
at_id id f th j = if j == id then Option.map f (th j) else th j

-- The abstract operation: it acts on threads held by id, with no references.
abbrev pub act : Action → Text → Bool → Threads → Threads
act (switch id) active sole th j = th j
act (start id) active sole th j = if j == id then some [] else th j
act (close fresh id) active sole th j = close_threads sole fresh id th j
act (busy id on) active sole th j = th j
act (pending id text) active sole th j = at_id id (waiting_text text) th j
act (finish id f) active sole th j = at_id id (finish_messages f) th j
act (push text waiting) active sole th j = at_id active (asked text waiting) th j

-- Whether an action closes the only chat.
abbrev pub is_sole : Action → App → Bool
is_sole (close fresh id) s = is_empty (select (λ c. c.id != id) s.chats)
is_sole _ s = false

-- What a step does right: it keeps the playground consistent and acts on the threads as `act` does.
abbrev pub Implements : Action → App → App → Type 0
Implements a s t =
    IsConsistent t × ((j : Text) → thread t j ≡ act a s.active (is_sole a s) (thread s) j)

thread_missing :
    (s : App) (id j : Text) (f : List Message → List Message)
    → chat_by_id id s.chats ≡ none
    → thread s j ≡ at_id id f (thread s) j
unfolding thread read
thread_missing s id j f h =
    let no_addr : addr id (skeleton s.chats) ≡ none = addr-chat_by_id id s.chats ∙ rw h refl in
    ground (arith, eq_iff j id)

thread_there :
    (s : App) (id : Text) (c : Chat)
    → chat_by_id id s.chats ≡ some c
    → thread s id ≡ some (s.heap c.messages)
unfolding thread read
thread_there s id c h = rw (addr-chat_by_id id s.chats, h) refl

thread_at :
    (s : App) (id : Text) (a : ℕ)
    → addr id (skeleton s.chats) ≡ some a
    → thread s id ≡ some (s.heap a)
unfolding thread read
thread_at s id a h = rw h refl

at_id_lem :
    (s : App) (id j : Text) (f : List Message → List Message) (a : ℕ) (ms : List Message)
    → addr id (skeleton s.chats) ≡ some a
    → f (s.heap a) ≡ ms
    → at_id id f (thread s) j ≡ (if j == id then some ms else thread s j)
at_id_lem s id j f a ms found e = elim (Bool-cases (j == id)) [
  | inl y ↦ rw (y, (eq_iff j id).0 y, thread_at s id a found, e) refl
  | inr n ↦ rw n refl
]

unchanged :
    (s : App) (id j : Text) (f : List Message → List Message) (c : Chat)
    → chat_by_id id s.chats ≡ some c
    → f (s.heap c.messages) ≡ s.heap c.messages
    → thread s j ≡ at_id id f (thread s) j
unchanged s id j f c h same = elim (Bool-cases (j == id)) [
  | inl y ↦ rw (y, (eq_iff j id).0 y, thread_there s id c h, same) refl
  | inr n ↦ rw n refl
]

Edited-threads :
    {s t : App} {id : Text} {a : ℕ} {ms : List Message} (f : List Message → List Message)
    → Edited s t id a ms
    → IsConsistent s
    → f (s.heap a) ≡ ms
    → (j : Text) → thread t j ≡ at_id id f (thread s) j
Edited-threads {s} {t} {id} {a} {ms} f w h e j =
    Edited-thread w h j ∙ sym (at_id_lem s id j f a ms w.found e)

module _ (takes : Bag → Bool) (s : App) (h : IsConsistent s) where
  switch_lem : (id : Text) → Implements (switch id) s (switch_chat takes id s)
  switch_lem id = elim (Bool-cases (id == s.active)) [
    | inl y ↦ unmoved (inl y)
    | inr n ↦ elim (Option-cases (addr id (skeleton s.chats))) [
      | inl e ↦ unmoved (inr e)
      | inr (a, e) ↦
          let moved = switch_chat-Switched takes s id a h.proper snapshot n e in
          (Switched-IsConsistent moved h.proper e, Switched-thread moved)
    ]
  ]
    where
      snapshot : Same s (snapshot_chat s)
      snapshot = snapshot_chat-Same s h.aliased

      unmoved :
          ((id == s.active) ≡ true) ⊎ (addr id (skeleton s.chats) ≡ none)
          → Implements (switch id) s (switch_chat takes id s)
      unmoved o =
          let same = switch_chat-Same takes s id h.proper snapshot o in
          (Same-IsConsistent same h, Same-thread same)

  start_lem :
      (id : Text)
      → addr id (skeleton s.chats) ≡ none
      → Implements (start id) s (new_chat takes id s)
  start_lem id free =
      let grown = new_chat-Grown takes s id (snapshot_chat-Same s h.aliased) free in
      (Grown-IsConsistent grown h.proper free, Grown-thread grown h.proper free)

  pending_lem : (id text : Text) → Implements (pending id text) s (set_pending_text id text s)
  unfolding set_pending_text
  pending_lem id text = elim (Option-cases (chat_by_id id s.chats)) [
    | inl e ↦ rw (e, set_pending_text) (h, λ j. thread_missing s id j (waiting_text text) e)
    | inr (c, e) ↦
        with_chat c e
          (edit_last (λ m. record m { content = text; pending = true }) (s.heap c.messages)) refl
  ]
    where
      with_chat :
          (c : Chat)
          → chat_by_id id s.chats ≡ some c
          → (o : Option (List Message))
          → edit_last (λ m. record m { content = text; pending = true }) (s.heap c.messages) ≡ o
          → Implements (pending id text) s (set_pending_text id text s)
      with_chat c e none k =
          let still = ap (λ o. or_kept o (s.heap c.messages)) k in
          rw (e, set_pending_text)
            (rw (k, set_pending_text) (h, λ j. unchanged s id j (waiting_text text) c e still))
      with_chat c e (some r) k =
          let w = set_pending_text-Edited takes s h id text c r e k in
          (
            Edited-IsConsistent w h,
            Edited-threads (waiting_text text) w h (ap (λ o. or_kept o (s.heap c.messages)) k),
          )

  finish_lem : (id : Text) (f : Fields) → Implements (finish id f) s (finish_assistant takes id f s)
  unfolding finish_assistant
  finish_lem id f = elim (Option-cases (chat_by_id id s.chats)) [
    | inl e ↦ rw (e, finish_assistant) (h, λ j. thread_missing s id j (finish_messages f) e)
    | inr (c, e) ↦
        let w = finish_assistant-Edited takes s h id f c e in
        (Edited-IsConsistent w h, Edited-threads (finish_messages f) w h refl)
  ]

  pub push_lem :
      (text waiting : Text) → Implements (push text waiting) s (push_pair takes text waiting s)
  push_lem text waiting =
      let w = push_pair-Edited takes s h text waiting in
      (Edited-IsConsistent w h, Edited-threads (asked text waiting) w h refl)

-- Whatever the storage takes, an action on a consistent playground, with an unused id if it starts a
-- chat, leaves the playground consistent, and does to the messages of every chat, held by its id,
-- what the operation `act` on messages by id says, which knows no references.
pub step_lem :
    (takes : Bag → Bool) (a : Action) (s : App)
    → IsConsistent s
    → IsAllowed a s
    → Implements a s (step takes a s)
unfolding step Closed
step_lem takes (switch id) s h ok = switch_lem takes s h id
step_lem takes (start id) s h ok = start_lem takes s h id ok
step_lem takes (close fresh id) s h ok = close_chat-Closed takes fresh id s h
step_lem takes (busy id on) s h ok =
    let same = set_chat_busy-Same id on s in (Same-IsConsistent same h, Same-thread same)
step_lem takes (pending id text) s h ok = pending_lem takes s h id text
step_lem takes (finish id f) s h ok = finish_lem takes s h id f
step_lem takes (push text waiting) s h ok = push_lem takes s h text waiting

-- The playgrounds that actions lead to, in which every id drawn is free.
pub data IsReachable (takes : Bag → Bool) (s : App) : App → Type 0 where
  stay : IsReachable takes s s
  next :
      {t : App} (a : Action)
      → IsReachable takes s t
      → IsAllowed a t
      → IsReachable takes s (step takes a t)

-- Whatever the order of the actions, if each started chat gets an unused id, a playground that was
-- consistent stays so: the chats have distinct ids and arrays of their own, and the variable
-- `messages` is the array of the active chat.
pub reachable-IsConsistent :
    (takes : Bag → Bool) {s t : App} → IsConsistent s → IsReachable takes s t → IsConsistent t
reachable-IsConsistent takes h stay = h
reachable-IsConsistent takes h (next {t} a r ok) =
    (step_lem takes a t (reachable-IsConsistent takes h r) ok).0
