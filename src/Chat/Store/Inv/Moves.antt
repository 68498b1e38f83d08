-- ===== src/Chat/Store/Inv/Moves.antt =====
-- What `switchChat`, `newChat` and `persist` do to ids and arrays, from a playground whose snapshot
-- changes neither.
use mikrollm.Base.{
  ℕ, ◌+◌, ◌≡◌, ◌⊎◌, refl, ap, ◌∙◌, none, some, Bool, true, false, List, [], ◌∷◌, ◌++◌,
  if◌then◌else◌, ◌==◌, text_eq, nat_eq, eq_iff, eq_refl, arith, Bool-cases, inl, inr, Option-cases,
}
use mikrollm.Base.Text.{Text}
use mikrollm.Chat.{Message}
use mikrollm.Chat.Store.{
  Chat, Bag, App, write, update_chat, take_snapshot, snapshot_chat, store, persist,
}
use mikrollm.Chat.Store.Ops.{
  last_by_id, activate, paint_thread, made_chat, add_chat, switch_chat, new_chat,
}
use mikrollm.Chat.Store.View.{
  skeleton, addr, IsProper, IsConsistent, read, thread, Same, Same-trans, snapshot_chat-Same,
  last_by_id_lem,
}
use mikrollm.Chat.Store.Inv.{read-write_unused, addr-snoc, IsProper-snoc}

module _ (takes : Bag → Bool) where
  store-Same : (s : App) → Same s (store takes s)
  unfolding store
  store-Same s = ground arith

  pub persist-Same :
      (s : App) → addr s.active (skeleton s.chats) ≡ some s.messages → Same s (persist takes s)
  unfolding persist
  persist-Same s h = Same-trans (snapshot_chat-Same s h) (store-Same (snapshot_chat s))

pub Same-refl : (s : App) → Same s s
Same-refl s = record {
  skeleton_eq = refl;
  active_eq = refl;
  messages_eq = refl;
  heap_eq = refl;
  next_eq = refl;
}

-- What a switch to the chat `id` comes to, if it has the array `a`.
pub record Switched (s t : App) (id : Text) (a : ℕ) : Type 0 where
  pub skeleton_eq : skeleton t.chats ≡ skeleton s.chats
  pub heap_eq : t.heap ≡ s.heap
  pub next_eq : t.next ≡ s.next
  pub active_eq : t.active ≡ id
  pub messages_eq : t.messages ≡ a

pub Switched-IsConsistent :
    {s t : App} {id : Text} {a : ℕ}
    → Switched s t id a
    → IsProper s.next (skeleton s.chats)
    → addr id (skeleton s.chats) ≡ some a
    → IsConsistent t
Switched-IsConsistent w h e = record {
  proper = rw (w.next_eq, w.skeleton_eq) h;
  aliased = rw (w.active_eq, w.skeleton_eq, w.messages_eq) e;
}

pub Switched-thread :
    {s t : App} {id : Text} {a : ℕ} → Switched s t id a → (j : Text) → thread t j ≡ thread s j
unfolding thread
Switched-thread w j = rw (w.skeleton_eq, w.heap_eq) refl

last_found :
    (n a : ℕ) (id : Text) (cs : List Chat)
    → IsProper n (skeleton cs)
    → addr id (skeleton cs) ≡ some a
    → (c : Chat) × (last_by_id id cs ≡ some c) × (c.messages ≡ a)
last_found n a id cs h e = elim (Option-cases (last_by_id id cs)) [
  | inl missing ↦ absurd (cc (rw missing at (last_by_id_lem n id cs h)))
  | inr (c, found) ↦ (c, found, ground (arith, last_by_id_lem n id cs h))
]

last_missing :
    (n : ℕ) (id : Text) (cs : List Chat)
    → IsProper n (skeleton cs)
    → addr id (skeleton cs) ≡ none
    → last_by_id id cs ≡ none
last_missing n id cs h e = elim (Option-cases (last_by_id id cs)) [
  | inl missing ↦ missing
  | inr (c, found) ↦ ground (arith, last_by_id_lem n id cs h)
]

module _ (takes : Bag → Bool) where
  abbrev open_chat : Text → Chat → App → App
  open_chat id c t = paint_thread (activate id c t)

  persist-Switched :
      (s : App) (id : Text) (a : ℕ) (c : Chat)
      → Same s (snapshot_chat s)
      → addr id (skeleton s.chats) ≡ some a
      → c.messages ≡ a
      → Switched s (persist takes (open_chat id c (snapshot_chat s))) id a
  persist-Switched s id a c same e m = record {
    skeleton_eq = kept.skeleton_eq ∙ same.skeleton_eq;
    heap_eq = kept.heap_eq ∙ same.heap_eq;
    next_eq = kept.next_eq ∙ same.next_eq;
    active_eq = kept.active_eq;
    messages_eq = kept.messages_eq ∙ m;
  }
    where
      aliased : addr id (skeleton (snapshot_chat s).chats) ≡ some c.messages
      aliased = rw (same.skeleton_eq, m) e

      kept :
          Same (open_chat id c (snapshot_chat s)) (persist takes (open_chat id c (snapshot_chat s)))
      kept = persist-Same takes (open_chat id c (snapshot_chat s)) aliased

  -- From a playground whose snapshot changes no id and no array, a switch to a chat that is there.
  pub switch_chat-Switched :
      (s : App) (id : Text) (a : ℕ)
      → IsProper s.next (skeleton s.chats)
      → Same s (snapshot_chat s)
      → (id == s.active) ≡ false
      → addr id (skeleton s.chats) ≡ some a
      → Switched s (switch_chat takes id s) id a
  unfolding switch_chat
  switch_chat-Switched s id a h same other e =
      let (c, found, m) =
        last_found s.next a id (snapshot_chat s).chats proper (rw same.skeleton_eq e) in
      rw (other, found) (persist-Switched s id a c same e m)
    where
      proper : IsProper s.next (skeleton (snapshot_chat s).chats)
      proper = rw same.skeleton_eq h

  -- A switch to the active chat, or to one that is not there, changes no id and no array.
  pub switch_chat-Same :
      (s : App) (id : Text)
      → IsProper s.next (skeleton s.chats)
      → Same s (snapshot_chat s)
      → ((id == s.active) ≡ true) ⊎ (addr id (skeleton s.chats) ≡ none)
      → Same s (switch_chat takes id s)
  unfolding switch_chat
  switch_chat-Same s id h same (inl e) = rw e (Same-refl s)
  switch_chat-Same s id h same (inr e) = elim (Bool-cases (id == s.active)) [
    | inl y ↦ rw y (Same-refl s)
    | inr n ↦
        rw
          (
            n,
            last_missing s.next id (snapshot_chat s).chats (rw same.skeleton_eq h)
                (rw same.skeleton_eq e),
          )
          same
  ]

-- What a new chat comes to.
pub record Grown (s t : App) (id : Text) : Type 0 where
  pub skeleton_eq : skeleton t.chats ≡ skeleton s.chats ++ (id, s.next + 1) ∷ []
  pub heap_eq : t.heap ≡ write s.next [] (write (s.next + 1) [] s.heap)
  pub next_eq : t.next ≡ s.next + 2
  pub active_eq : t.active ≡ id
  pub messages_eq : t.messages ≡ s.next + 1

pub Grown-IsConsistent :
    {s t : App} {id : Text}
    → Grown s t id
    → IsProper s.next (skeleton s.chats)
    → addr id (skeleton s.chats) ≡ none
    → IsConsistent t
Grown-IsConsistent {s} {t} {id} g h e = record {
  proper =
      rw (g.next_eq, g.skeleton_eq)
        (IsProper-snoc s.next (s.next + 2) (s.next + 1) id (skeleton s.chats) h e (omega arith)
          (omega arith));
  aliased =
      rw (g.active_eq, g.skeleton_eq, g.messages_eq)
        (addr-snoc id id (s.next + 1) (skeleton s.chats) e ∙ rw (eq_refl id) refl);
}

read_new :
    (n : ℕ) (heap : ℕ → List Message)
    → read (write n [] (write (n + 1) [] heap)) (some (n + 1)) ≡ some []
unfolding read
read_new n heap = ground arith

-- The thread of a new chat is empty, and the others are as they were.
pub Grown-thread :
    {s t : App} {id : Text}
    → Grown s t id
    → IsProper s.next (skeleton s.chats)
    → addr id (skeleton s.chats) ≡ none
    → (j : Text) → thread t j ≡ (if j == id then some [] else thread s j)
unfolding thread
Grown-thread {s} {t} {id} g h e j =
    rw (g.skeleton_eq, g.heap_eq, addr-snoc j id (s.next + 1) (skeleton s.chats) e)
      (by_id (j == id))
  where
    by_id :
        (b : Bool)
        → read
            (write s.next [] (write (s.next + 1) [] s.heap))
            (if b then some (s.next + 1) else addr j (skeleton s.chats))
          ≡ (if b then some [] else read s.heap (addr j (skeleton s.chats)))
    by_id true = read_new s.next s.heap
    by_id false =
        read-write_unused s.next s.next j (skeleton s.chats) [] (write (s.next + 1) [] s.heap) h
          (omega arith)
        ∙ read-write_unused s.next (s.next + 1) j (skeleton s.chats) [] s.heap h (omega arith)

skeleton-snapshot_last :
    (s : App) (c : Chat) (cs : List Chat)
    → addr s.active (skeleton cs) ≡ none
    → c.id ≡ s.active
    → skeleton (update_chat s.active (take_snapshot s) (cs ++ c ∷ []))
      ≡ skeleton cs ++ (s.active, s.messages) ∷ []
unfolding update_chat addr
skeleton-snapshot_last s c [] h e = ground (arith, eq_iff c.id s.active)
skeleton-snapshot_last s c (d ∷ cs) h e =
    ground (arith, skeleton-snapshot_last s c cs, eq_iff d.id s.active)

pub new_chat-Grown :
    (takes : Bag → Bool) (s : App) (id : Text)
    → Same s (snapshot_chat s)
    → addr id (skeleton s.chats) ≡ none
    → Grown s (new_chat takes id s) id
unfolding new_chat persist snapshot_chat add_chat made_chat
new_chat-Grown takes s id same e = record {
  skeleton_eq =
      kept.skeleton_eq
      ∙ skeleton-snapshot_last (add_chat id s) (made_chat id s) (snapshot_chat s).chats
          (rw same.skeleton_eq e) refl
      ∙ ap (λ sk. sk ++ (id, s.next + 1) ∷ []) same.skeleton_eq;
  heap_eq = kept.heap_eq;
  next_eq = kept.next_eq;
  active_eq = kept.active_eq;
  messages_eq = kept.messages_eq;
}
  where
    kept : Same (snapshot_chat (add_chat id s)) (store takes (snapshot_chat (add_chat id s)))
    kept = store-Same takes (snapshot_chat (add_chat id s))
