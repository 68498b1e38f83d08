-- ===== src/Chat/Panels/Queue.antt =====
-- Which chats the queue of generations lists: `renderChatQueue`, over `finishAssistant` and over a
-- reload of the page.
pub mod Reload
use mathlib.Core.Option
use mikrollm.Base.{
  ℕ, ◌≡◌, refl, sym, ap, ◌∙◌, Option, none, some, Bool, true, false, not, ◌&&◌, ◌||◌, List, [], ◌∷◌,
  ◌++◌, any, if◌then◌else◌, ◌==◌, text_eq, nat_eq, eq_iff, eq_refl, arith, Bool-cases, Option-cases,
  inl, inr, last?,
}
use mikrollm.Base.Text.{Text}
use mikrollm.Chat.{Message, user, assistant}
use mikrollm.Chat.Store.{
  Chat, Bag, App, chat_by_id, update_chat, write, take_snapshot, snapshot_chat, store, persist,
}
use mikrollm.Chat.Store.Ops.{
  Fields, edit_last, assign, blank_message, finish_messages, idle, set_chat_busy, finish_assistant,
  paint_thread, read_messages,
}
use mikrollm.Chat.Store.View.{skeleton, addr, IsProper, IsConsistent, read, thread, addr-chat_by_id}
use mikrollm.Chat.Store.Steps.{step, finish, step_lem, at_id}
use mikrollm.Chat.Panels.{last_pending, is_pending, Job, job_of, jobs_of, chat_jobs}

-- Whether the chat with an id is busy.
abbrev busy_found : Option Chat → Bool
busy_found none = false
busy_found (some c) = c.busy

unfoldable pub busy_of : Text → List Chat → Bool
busy_of id cs = busy_found (chat_by_id id cs)

-- Whether the last message of a thread waits.
unfoldable pub waits : Option (List Message) → Bool
waits none = false
waits (some ms) = last_pending ms

-- Whether the queue lists the chat with an id.
unfoldable pub listed : (Text → Text) → Text → App → Bool
listed to_lower id s = any (λ j. j.id == id) (chat_jobs to_lower s)

module _ (to_lower : Text → Text) (heap : ℕ → List Message) where
  job-id : (ms : List Message) (c : Chat) → (job_of to_lower ms c).id ≡ c.id
  unfolding job_of
  job-id ms c = refl

  any-jobs_missing :
      (id : Text) (cs : List Chat)
      → addr id (skeleton cs) ≡ none
      → any (λ j. j.id == id) (jobs_of to_lower heap cs) ≡ false
  unfolding jobs_of addr job_of
  any-jobs_missing id [] h = refl
  any-jobs_missing id (c ∷ cs) h = ground (arith, any-jobs_missing id cs)

  any-jobs :
      (n : ℕ) (id : Text) (cs : List Chat)
      → IsProper n (skeleton cs)
      → any (λ j. j.id == id) (jobs_of to_lower heap cs)
        ≡ (busy_of id cs || waits (read heap (addr id (skeleton cs))))
  unfolding jobs_of addr busy_of chat_by_id read waits job_of
  any-jobs n id [] h = refl
  any-jobs n id (c ∷ cs) h =
      ground (arith, eq_iff c.id id, any-jobs n id cs h.3, any-jobs_missing id cs)

-- The queue of a consistent playground lists a chat exactly if it is busy or its last message waits.
pub listed_lem :
    (to_lower : Text → Text) (id : Text) (s : App)
    → IsConsistent s
    → listed to_lower id s ≡ (busy_of id s.chats || waits (thread s id))
unfolding listed chat_jobs thread
listed_lem to_lower id s h = any-jobs to_lower s.heap s.next id s.chats h.proper

busy_of-update_chat :
    (j id : Text) (f : Chat → Chat) (cs : List Chat)
    → ((c : Chat) → (f c).id ≡ c.id)
    → ((c : Chat) → (f c).busy ≡ c.busy)
    → busy_of j (update_chat id f cs) ≡ busy_of j cs
unfolding busy_of chat_by_id update_chat
busy_of-update_chat j id f [] keeps same = refl
busy_of-update_chat j id f (c ∷ cs) keeps same = ground (
  arith,
  keeps c,
  same c,
  eq_iff c.id id,
  eq_iff c.id j,
  busy_of-update_chat j id f cs keeps same,
)

busy_of-update_idle :
    (j id : Text) (f : Chat → Chat) (cs : List Chat)
    → ((c : Chat) → (f c).id ≡ c.id)
    → ((c : Chat) → (f c).busy ≡ false)
    → busy_of j (update_chat id f cs) ≡ (if j == id then false else busy_of j cs)
unfolding busy_of chat_by_id update_chat
busy_of-update_idle j id f [] keeps idles = ground arith
busy_of-update_idle j id f (c ∷ cs) keeps idles = ground (
  arith,
  keeps c,
  idles c,
  eq_iff c.id id,
  eq_iff c.id j,
  eq_iff j id,
  busy_of-update_idle j id f cs keeps idles,
)

module _ (takes : Bag → Bool) where
  chats-store : (s : App) → (store takes s).chats ≡ s.chats
  unfolding store
  chats-store s = ground arith

  busy_of-persist : (j : Text) (s : App) → busy_of j (persist takes s).chats ≡ busy_of j s.chats
  unfolding persist snapshot_chat
  busy_of-persist j s =
      ap (busy_of j) (chats-store (snapshot_chat s))
      ∙ busy_of-update_chat j s.active (take_snapshot s) s.chats (λ c. refl) (λ c. refl)

  -- The chats of the page after a generation has ended, before `setChatBusy`.
  busy_of-ended :
      (j id : Text) (heap : ℕ → List Message) (s : App)
      → busy_of j
          (persist takes (record s { heap = heap; chats = update_chat id idle s.chats })).chats
        ≡ (if j == id then false else busy_of j s.chats)
  busy_of-ended j id heap s =
      busy_of-persist j (record s { heap = heap; chats = update_chat id idle s.chats })
      ∙ busy_of-update_idle j id idle s.chats (λ c. refl) (λ c. refl)

  busy_of-finish :
      (j id : Text) (f : Fields) (s : App)
      → busy_of j (finish_assistant takes id f s).chats
        ≡ (if j == id then false else busy_of j s.chats)
  unfolding finish_assistant set_chat_busy
  busy_of-finish j id f s = elim (Option-cases (chat_by_id id s.chats)) [
    | inl missing ↦
        rw (missing, finish_assistant) (unfold busy_of in ground (arith, eq_iff j id, missing))
    | inr (c, found) ↦
        rw (found, finish_assistant)
          (elim (Bool-cases (id == s.active)) [
            | inl y ↦ rw y (
                let ended = write c.messages (finish_messages f (s.heap c.messages)) s.heap in
                let t =
                  persist takes (record s { heap = ended; chats = update_chat id idle s.chats }) in
                ground (
                  arith,
                  busy_of-ended j id ended s,
                  busy_of-update_idle j id (λ (d : Chat). record d { busy = false }) t.chats
                      (λ d. refl) (λ d. refl),
                ))
            | inr n ↦ rw n (busy_of-ended j id _ s)
          ])
  ]

last?-cons : (m x : Message) (r : List Message) → last? r ≡ some x → last? (m ∷ r) ≡ some x
last?-cons m x [] h = cc
last?-cons m x (n ∷ r) h = h

last?-edit_last :
    (f : Message → Message) (ms r : List Message)
    → edit_last f ms ≡ some r
    → (m : Message) × (last? r ≡ some (f m))
unfolding edit_last
last?-edit_last f [] r h = cc
last?-edit_last f (m ∷ []) r h = (m, ground arith)
last?-edit_last f (m ∷ n ∷ ms) r h = elim (Option-cases (edit_last f (n ∷ ms))) [
  | inl e ↦ absurd (cc (rw e at h))
  | inr (r', e) ↦
      let (x, l) = last?-edit_last f (n ∷ ms) r' e in
      let tail = rw e at h in (x, ground (arith, last?-cons m (f x) r' l, tail))
]

last?-snoc : (ms : List Message) (m : Message) → last? (ms ++ m ∷ []) ≡ some m
last?-snoc [] m = refl
last?-snoc (n ∷ ms) m = last?-cons n m (ms ++ m ∷ []) (last?-snoc ms m)

-- The last message of a finished thread does not wait.
last_pending-finish : (f : Fields) (ms : List Message) → last_pending (finish_messages f ms) ≡ false
unfolding last_pending finish_messages
last_pending-finish f ms = elim (Option-cases (edit_last (assign f) ms)) [
  | inl e ↦
      rw (e, finish_messages)
        (ground (arith, last?-snoc ms (assign f (blank_message assistant []))))
  | inr (r, e) ↦
      let (m, l) = last?-edit_last (assign f) ms r e in rw (e, finish_messages) (ground (arith, l))
]

waits-finish :
    (id j : Text) (f : Fields) (th : Text → Option (List Message))
    → waits (at_id id (finish_messages f) th j) ≡ (if j == id then false else waits (th j))
unfolding waits
waits-finish id j f th = elim (Bool-cases (j == id)) [
  | inl y ↦ rw y (by_thread (th j))
  | inr n ↦ rw n refl
]
  where
    by_thread : (o : Option (List Message)) → waits (Option.map (finish_messages f) o) ≡ false
    by_thread none = refl
    by_thread (some ms) = last_pending-finish f ms

-- The end of a generation takes its chat off the queue, and changes nothing else there.
pub listed-finish_assistant :
    (takes : Bag → Bool) (to_lower : Text → Text) (id j : Text) (f : Fields) (s : App)
    → IsConsistent s
    → listed to_lower j (finish_assistant takes id f s)
      ≡ (if j == id then false else listed to_lower j s)
unfolding step
listed-finish_assistant takes to_lower id j f s h =
    let (still, threads) = step_lem takes (finish id f) s h tt in
    let after = listed_lem to_lower j (finish_assistant takes id f s) still in
    let before = listed_lem to_lower j s h in
    let busy = busy_of-finish takes j id f s in
    let last = ap waits (threads j) ∙ waits-finish id j f (thread s) in
    ground (arith, after, before, busy, last)
