-- ===== src/Chat/Session/Status.antt =====
-- Which chats there are and which of them are busy, and what the operations of the playground do to
-- that.
use mikrollm.Base.{
  ℕ, ◌≡◌, ◌⊎◌, refl, ap, ◌∙◌, Option, none, some, Bool, true, false, List, [], ◌∷◌, ◌++◌,
  if◌then◌else◌, ◌==◌, ◌!=◌, text_eq, nat_eq, eq_iff, select, arith, Bool-cases, Option-cases, inl,
  inr,
}
use mikrollm.Base.Text.{Text}
use mikrollm.Chat.Store.{
  Chat, Bag, App, chat_by_id, update_chat, write, take_snapshot, snapshot_chat, store, persist,
}
use mikrollm.Chat.Store.Ops.{
  Fields, last_by_id, idle, finish_messages, set_chat_busy, paint_thread, read_messages, made_chat,
  add_chat, activate, switch_chat, new_chat, set_pending_text, finish_assistant, push_pair,
  edit_last,
}
use mikrollm.Chat.Store.View.{skeleton, addr, IsProper}

-- Whether the chat with an id is busy, if there is one.
unfoldable pub status : Text → List Chat → Option Bool
status id [] = none
status id (c ∷ cs) = if c.id == id then some c.busy else status id cs

abbrev pub found_status : Option Chat → Option Bool
found_status none = none
found_status (some c) = some c.busy

pub status-chat_by_id :
    (id : Text) (cs : List Chat) → status id cs ≡ found_status (chat_by_id id cs)
unfolding status chat_by_id
status-chat_by_id id [] = refl
status-chat_by_id id (c ∷ cs) = elim (Bool-cases (c.id == id)) [
  | inl y ↦ rw y refl
  | inr n ↦ rw n (status-chat_by_id id cs)
]

pub status-missing :
    (id : Text) (cs : List Chat) → addr id (skeleton cs) ≡ none → status id cs ≡ none
unfolding status addr
status-missing id [] h = refl
status-missing id (c ∷ cs) h = ground (arith, status-missing id cs)

pub status-there :
    (id : Text) (a : ℕ) (cs : List Chat)
    → addr id (skeleton cs) ≡ some a
    → (b : Bool) × (status id cs ≡ some b)
unfolding status addr
status-there id a [] h = absurd (cc h)
status-there id a (c ∷ cs) h = elim (Bool-cases (c.id == id)) [
  | inl y ↦ (c.busy, rw y refl)
  | inr n ↦ let (b, e) = status-there id a cs (rw n at h) in (b, rw n e)
]

-- With distinct ids the last chat with an id is the chat with that id.
pub status-last_by_id :
    (n : ℕ) (id : Text) (cs : List Chat)
    → IsProper n (skeleton cs)
    → status id cs ≡ found_status (last_by_id id cs)
unfolding status last_by_id
status-last_by_id n id [] h = refl
status-last_by_id n id (c ∷ cs) (apart, low, own, h) =
    ground (arith, status-last_by_id n id cs h, status-missing id cs, eq_iff c.id id, apart)

pub status-update_chat :
    (j id : Text) (f : Chat → Chat) (cs : List Chat)
    → ((c : Chat) → ((f c).id ≡ c.id) × ((f c).busy ≡ c.busy))
    → status j (update_chat id f cs) ≡ status j cs
unfolding status update_chat
status-update_chat j id f [] same = refl
status-update_chat j id f (c ∷ cs) same =
    ground (arith, same c, eq_iff c.id id, eq_iff c.id j, status-update_chat j id f cs same)

-- The status of the chat `id` becomes `b`, if there is such a chat.
abbrev pub set_status : Text → Bool → Text → Option Bool → Option Bool
set_status id b j none = none
set_status id b j (some o) = some (if j == id then b else o)

pub status-update_busy :
    (j id : Text) (b : Bool) (f : Chat → Chat) (cs : List Chat)
    → ((c : Chat) → ((f c).id ≡ c.id) × ((f c).busy ≡ b))
    → status j (update_chat id f cs) ≡ set_status id b j (status j cs)
unfolding status update_chat
status-update_busy j id b f [] sets = refl
status-update_busy j id b f (c ∷ cs) sets =
    ground (
      arith,
      sets c,
      eq_iff c.id id,
      eq_iff c.id j,
      eq_iff j id,
      status-update_busy j id b f cs sets,
    )

abbrev or_status : Option Bool → Option Bool → Option Bool
or_status none o = o
or_status (some b) o = some b

status-append :
    (j : Text) (cs : List Chat) (c : Chat)
    → status j (cs ++ c ∷ []) ≡ or_status (status j cs) (if c.id == j then some c.busy else none)
unfolding status
status-append j [] c = refl
status-append j (d ∷ cs) c = ground (arith, status-append j cs c)

pub status-select :
    (j id : Text) (cs : List Chat)
    → status j (select (λ c. c.id != id) cs) ≡ (if j == id then none else status j cs)
unfolding status
status-select j id [] = ground arith
status-select j id (c ∷ cs) =
    ground (arith, eq_iff c.id id, eq_iff c.id j, eq_iff j id, status-select j id cs)

pub status-snapshot_chat :
    (j : Text) (s : App) → status j (snapshot_chat s).chats ≡ status j s.chats
unfolding snapshot_chat
status-snapshot_chat j s =
    status-update_chat j s.active (take_snapshot s) s.chats (λ c. (refl, refl))

pub status-set_chat_busy :
    (j id : Text) (b : Bool) (s : App)
    → status j (set_chat_busy id b s).chats ≡ set_status id b j (status j s.chats)
unfolding set_chat_busy
status-set_chat_busy j id b s =
    status-update_busy j id b (λ c. record c { busy = b }) s.chats (λ c. (refl, refl))

pub status-set_pending_text :
    (j id text : Text) (s : App) → status j (set_pending_text id text s).chats ≡ status j s.chats
unfolding set_pending_text
status-set_pending_text j id text s = elim (Option-cases (chat_by_id id s.chats)) [
  | inl missing ↦ rw (missing, set_pending_text) refl
  | inr (c, there) ↦
      rw (there, set_pending_text)
        (elim (Option-cases
          (edit_last (λ m. record m { content = text; pending = true }) (s.heap c.messages))) [
            | inl e ↦ rw e refl
            | inr (r, e) ↦ rw e refl
          ])
]

module _ (takes : Bag → Bool) where
  pub chats-store : (s : App) → (store takes s).chats ≡ s.chats
  unfolding store
  chats-store s = ground arith

  pub status-persist : (j : Text) (s : App) → status j (persist takes s).chats ≡ status j s.chats
  unfolding persist
  status-persist j s = ap (status j) (chats-store (snapshot_chat s)) ∙ status-snapshot_chat j s

  pub status-switch_chat :
      (j id : Text) (s : App) → status j (switch_chat takes id s).chats ≡ status j s.chats
  unfolding switch_chat
  status-switch_chat j id s = elim (Bool-cases (id == s.active)) [
    | inl y ↦ rw y refl
    | inr n ↦ elim (Option-cases (last_by_id id (snapshot_chat s).chats)) [
      | inl missing ↦ rw (n, missing) (status-snapshot_chat j s)
      | inr (c, there) ↦
          rw (n, there)
            (status-persist j (paint_thread (activate id c (snapshot_chat s)))
              ∙ status-snapshot_chat j s)
    ]
  ]

  pub status-push_pair :
      (j text waiting : Text) (s : App)
      → status j (push_pair takes text waiting s).chats ≡ status j s.chats
  unfolding push_pair
  status-push_pair j text waiting s = status-persist j _

  pub status-new_chat :
      (j id : Text) (s : App)
      → status id s.chats ≡ none
      → status j (new_chat takes id s).chats ≡ (if j == id then some false else status j s.chats)
  unfolding new_chat add_chat made_chat
  status-new_chat j id s fresh =
      status-persist j (add_chat id s)
      ∙ status-append j (snapshot_chat s).chats (made_chat id s)
      ∙ ground (arith, status-snapshot_chat j s, fresh, eq_iff id j, eq_iff j id)

  pub status-finish_assistant :
      (j id : Text) (f : Fields) (s : App)
      → status j (finish_assistant takes id f s).chats ≡ set_status id false j (status j s.chats)
  unfolding finish_assistant
  status-finish_assistant j id f s = elim (Option-cases (chat_by_id id s.chats)) [
    | inl missing ↦ rw (missing, finish_assistant) (gone missing)
    | inr (c, there) ↦
        rw (there, finish_assistant)
          (elim (Bool-cases (id == s.active)) [
            | inl y ↦ rw y (
                status-set_chat_busy j id false (paint_thread (read_messages id (ended c)))
                ∙ ap (set_status id false j) (status-ended c)
                ∙ twice (status j s.chats))
            | inr n ↦ rw n (status-ended c)
          ])
  ]
    where
      ended : Chat → App
      ended c = persist takes (record s {
        heap = write c.messages (finish_messages f (s.heap c.messages)) s.heap;
        chats = update_chat id idle s.chats;
      })

      status-ended :
          (c : Chat) → status j (ended c).chats ≡ set_status id false j (status j s.chats)
      status-ended c =
          status-persist j _ ∙ status-update_busy j id false idle s.chats (λ c. (refl, refl))

      twice :
          (o : Option Bool)
          → set_status id false j (set_status id false j o) ≡ set_status id false j o
      twice none = refl
      twice (some b) = ground arith

      by_id : (o : Option Bool) → (o ≡ none) ⊎ ((j == id) ≡ false) → o ≡ set_status id false j o
      by_id none h = refl
      by_id (some b) (inl e) = absurd (cc e)
      by_id (some b) (inr n) = rw n refl

      gone :
          chat_by_id id s.chats ≡ none → status j s.chats ≡ set_status id false j (status j s.chats)
      gone missing = by_id (status j s.chats) (elim (Bool-cases (j == id)) [
        | inl y ↦ inl (
            ap (λ k. status k s.chats) ((eq_iff j id).0 y)
            ∙ status-chat_by_id id s.chats
            ∙ rw missing refl)
        | inr n ↦ inr n
      ])
