-- ===== src/Chat/Store/View.antt =====
-- The chats without their labels: which id stands for which array, and what the operations on the
-- list of chats do to that.
use mikrollm.Base.{
  ℕ, ◌<◌, ◌≡◌, ◌≢◌, refl, ◌∙◌, Option, none, some, List, [], ◌∷◌, if◌then◌else◌, ◌==◌, text_eq,
  nat_eq, eq_iff, arith,
}
use mikrollm.Base.Text.{Text}
use mikrollm.Chat.{Message}
use mikrollm.Chat.Store.{Chat, App, chat_by_id, update_chat, take_snapshot, snapshot_chat}
use mikrollm.Chat.Store.Ops.{last_by_id}

-- Each chat as its id and the address of its array.
abbrev pub Skeleton : Type 0
Skeleton = List (Text × ℕ)

abbrev pub skeleton : List Chat → Skeleton
skeleton [] = []
skeleton (c ∷ cs) = (c.id, c.messages) ∷ skeleton cs

unfoldable pub addr : Text → Skeleton → Option ℕ
addr id [] = none
addr id ((k, a) ∷ sk) = if k == id then some a else addr id sk

-- The ids are distinct, and so are the addresses, which lie below `n`.
abbrev pub HasNo : ℕ → Skeleton → Type 0
HasNo a [] = Unit
HasNo a ((_, b) ∷ sk) = (a ≢ b) × HasNo a sk

abbrev pub IsProper : ℕ → Skeleton → Type 0
IsProper n [] = Unit
IsProper n ((k, a) ∷ sk) = (addr k sk ≡ none) × (a < n) × HasNo a sk × IsProper n sk

-- The playground is consistent: its chats have distinct ids and arrays of their own, and the
-- variable `messages` is the array of the active chat.
pub record IsConsistent (s : App) : Type 0 where
  pub proper : IsProper s.next (skeleton s.chats)
  pub aliased : addr s.active (skeleton s.chats) ≡ some s.messages

unfoldable pub read : (ℕ → List Message) → Option ℕ → Option (List Message)
read heap none = none
read heap (some a) = some (heap a)

-- The messages of a chat, by its id.
unfoldable pub thread : App → Text → Option (List Message)
thread s id = read s.heap (addr id (skeleton s.chats))

-- The parts of a playground that its threads depend on.
pub record Same (s t : App) : Type 0 where
  pub skeleton_eq : skeleton t.chats ≡ skeleton s.chats
  pub active_eq : t.active ≡ s.active
  pub messages_eq : t.messages ≡ s.messages
  pub heap_eq : t.heap ≡ s.heap
  pub next_eq : t.next ≡ s.next

pub Same-trans : {s t u : App} → Same s t → Same t u → Same s u
Same-trans p q = record {
  skeleton_eq = q.skeleton_eq ∙ p.skeleton_eq;
  active_eq = q.active_eq ∙ p.active_eq;
  messages_eq = q.messages_eq ∙ p.messages_eq;
  heap_eq = q.heap_eq ∙ p.heap_eq;
  next_eq = q.next_eq ∙ p.next_eq;
}

pub Same-IsConsistent : {s t : App} → Same s t → IsConsistent s → IsConsistent t
Same-IsConsistent p h = record {
  proper = rw (p.next_eq, p.skeleton_eq) h.proper;
  aliased = rw (p.active_eq, p.skeleton_eq, p.messages_eq) h.aliased;
}

pub Same-thread : {s t : App} → Same s t → (id : Text) → thread t id ≡ thread s id
unfolding thread
Same-thread p id = rw (p.skeleton_eq, p.heap_eq) refl

-- A change of a chat that keeps its id and its array.
pub skeleton-update_chat :
    (id : Text) (f : Chat → Chat) (cs : List Chat)
    → ((c : Chat) → ((f c).id ≡ c.id) × ((f c).messages ≡ c.messages))
    → skeleton (update_chat id f cs) ≡ skeleton cs
unfolding update_chat
skeleton-update_chat id f [] h = refl
skeleton-update_chat id f (c ∷ cs) h = ground (arith, h c, skeleton-update_chat id f cs h)

-- A snapshot of a consistent playground changes no id and no array.
skeleton-snapshot :
    (s : App) (cs : List Chat)
    → addr s.active (skeleton cs) ≡ some s.messages
    → skeleton (update_chat s.active (take_snapshot s) cs) ≡ skeleton cs
unfolding update_chat addr
skeleton-snapshot s [] h = refl
skeleton-snapshot s (c ∷ cs) h = ground (arith, skeleton-snapshot s cs)

skeleton-snapshot_missing :
    (s : App) (cs : List Chat)
    → addr s.active (skeleton cs) ≡ none
    → skeleton (update_chat s.active (take_snapshot s) cs) ≡ skeleton cs
unfolding update_chat addr
skeleton-snapshot_missing s [] h = refl
skeleton-snapshot_missing s (c ∷ cs) h = ground (arith, skeleton-snapshot_missing s cs)

pub snapshot_chat-Same :
    (s : App) → addr s.active (skeleton s.chats) ≡ some s.messages → Same s (snapshot_chat s)
unfolding snapshot_chat
snapshot_chat-Same s h = record {
  skeleton_eq = skeleton-snapshot s s.chats h;
  active_eq = refl;
  messages_eq = refl;
  heap_eq = refl;
  next_eq = refl;
}

-- A snapshot whose active chat is not there does nothing.
pub snapshot_chat-Same_missing :
    (s : App) → addr s.active (skeleton s.chats) ≡ none → Same s (snapshot_chat s)
unfolding snapshot_chat
snapshot_chat-Same_missing s h = record {
  skeleton_eq = skeleton-snapshot_missing s s.chats h;
  active_eq = refl;
  messages_eq = refl;
  heap_eq = refl;
  next_eq = refl;
}

pub addr-chat_by_id :
    (id : Text) (cs : List Chat)
    → addr id (skeleton cs) ≡ elim (chat_by_id id cs) [ none ↦ none | some c ↦ some c.messages ]
unfolding addr chat_by_id
addr-chat_by_id id [] = refl
addr-chat_by_id id (c ∷ cs) = ground (arith, addr-chat_by_id id cs)

-- With distinct ids the last chat with an id is the first one.
pub last_by_id_lem :
    (n : ℕ) (id : Text) (cs : List Chat)
    → IsProper n (skeleton cs)
    → (addr id (skeleton cs) ≡ elim (last_by_id id cs) [ none ↦ none | some c ↦ some c.messages ])
unfolding addr last_by_id
last_by_id_lem n id [] h = refl
last_by_id_lem n id (c ∷ cs) h = ground (arith, eq_iff c.id id, last_by_id_lem n id cs h.3)

pub last_by_id-id : (id : Text) (cs : List Chat) (c : Chat) → last_by_id id cs ≡ some c → c.id ≡ id
unfolding last_by_id
last_by_id-id id [] c h = cc
last_by_id-id id (d ∷ cs) c h = ground (arith, eq_iff d.id id, last_by_id-id id cs c)
