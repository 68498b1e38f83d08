-- ===== src/Chat/Store/Edits.antt =====
-- The operations that write to the array of one chat: `setPendingText`, `finishAssistant` and the
-- first lines of a submission.
use mikrollm.Base.{
  ℕ, ◌≡◌, refl, sym, ◌∙◌, Option, none, some, Bool, true, false, List, [], ◌∷◌, ◌++◌, if◌then◌else◌,
  ◌==◌, text_eq, nat_eq, eq_iff,
}
use mikrollm.Base.Text.{Text}
use mikrollm.Chat.{Message, user, assistant}
use mikrollm.Chat.Store.{Chat, Bag, App, write, update_chat, chat_by_id, persist}
use mikrollm.Chat.Store.Ops.{
  Fields, edit_last, finish_messages, blank_message, idle, paint_thread, read_messages,
  set_chat_busy, set_pending_text, finish_assistant, push_pair,
}
use mikrollm.Chat.Store.View.{
  skeleton, addr, IsConsistent, thread, Same, Same-trans, addr-chat_by_id, skeleton-update_chat,
}
use mikrollm.Chat.Store.Inv.{read-write}
use mikrollm.Chat.Store.Inv.Moves.{persist-Same}

-- `t` is `s` with the array of the chat `id`, at the address `a`, replaced by `ms`.
pub record Edited (s t : App) (id : Text) (a : ℕ) (ms : List Message) : Type 0 where
  pub found : addr id (skeleton s.chats) ≡ some a
  pub skeleton_eq : skeleton t.chats ≡ skeleton s.chats
  pub active_eq : t.active ≡ s.active
  pub messages_eq : t.messages ≡ s.messages
  pub heap_eq : t.heap ≡ write a ms s.heap
  pub next_eq : t.next ≡ s.next

pub Edited-IsConsistent :
    {s t : App} {id : Text} {a : ℕ} {ms : List Message}
    → Edited s t id a ms
    → IsConsistent s
    → IsConsistent t
Edited-IsConsistent w h = record {
  proper = rw (w.next_eq, w.skeleton_eq) h.proper;
  aliased = rw (w.active_eq, w.skeleton_eq, w.messages_eq) h.aliased;
}

pub Edited-thread :
    {s t : App} {id : Text} {a : ℕ} {ms : List Message}
    → Edited s t id a ms
    → IsConsistent s
    → (j : Text) → thread t j ≡ (if j == id then some ms else thread s j)
unfolding thread
Edited-thread {s} {id} {a} {ms} w h j =
    rw (w.skeleton_eq, w.heap_eq)
      (read-write s.next a id j (skeleton s.chats) ms s.heap h.proper w.found)

pub Edited-Same :
    {s t u : App} {id : Text} {a : ℕ} {ms : List Message}
    → Edited s t id a ms
    → Same t u
    → Edited s u id a ms
Edited-Same w p = record {
  found = w.found;
  skeleton_eq = p.skeleton_eq ∙ w.skeleton_eq;
  active_eq = p.active_eq ∙ w.active_eq;
  messages_eq = p.messages_eq ∙ w.messages_eq;
  heap_eq = p.heap_eq ∙ w.heap_eq;
  next_eq = p.next_eq ∙ w.next_eq;
}

pub addr_of_chat :
    (id : Text) (cs : List Chat) (c : Chat)
    → chat_by_id id cs ≡ some c
    → addr id (skeleton cs) ≡ some c.messages
addr_of_chat id cs c h = addr-chat_by_id id cs ∙ rw h refl

pub set_chat_busy-Same : (id : Text) (on : Bool) (s : App) → Same s (set_chat_busy id on s)
unfolding set_chat_busy
set_chat_busy-Same id on s = record {
  skeleton_eq = skeleton-update_chat id _ s.chats (λ c. (refl, refl));
  active_eq = refl;
  messages_eq = refl;
  heap_eq = refl;
  next_eq = refl;
}

-- In a consistent playground `messages = c.messages`, for the active chat, changes nothing.
read_messages-Same :
    (s : App) (id : Text) → IsConsistent s → s.active ≡ id → Same s (read_messages id s)
read_messages-Same s id h e = record {
  skeleton_eq = refl;
  active_eq = refl;
  messages_eq =
      by_chat (chat_by_id id s.chats) (sym (addr-chat_by_id id s.chats) ∙ rw (← e) h.aliased);
  heap_eq = refl;
  next_eq = refl;
}
  where
    by_chat :
        (o : Option Chat)
        → elim o as (λ _. Option ℕ) [ none ↦ none | some c ↦ some c.messages ] ≡ some s.messages
        → elim o as (λ _. ℕ) [ none ↦ s.messages | some c ↦ c.messages ] ≡ s.messages
    by_chat none k = refl
    by_chat (some c) k = cc

paint_thread-Same : (s : App) → Same s (paint_thread s)
paint_thread-Same s = record {
  skeleton_eq = refl;
  active_eq = refl;
  messages_eq = refl;
  heap_eq = refl;
  next_eq = refl;
}

module _ (takes : Bag → Bool) (s : App) (h : IsConsistent s) where
  pub persist-Edited :
      {t : App} {id : Text} {a : ℕ} {ms : List Message}
      → Edited s t id a ms
      → Edited s (persist takes t) id a ms
  persist-Edited {t} w = Edited-Same w (persist-Same takes t (Edited-IsConsistent w h).aliased)

  -- The state of `finishAssistant` before it calls `persist`.
  abbrev finished : Text → Fields → Chat → App
  finished id f c = record s {
    heap = write c.messages (finish_messages f (s.heap c.messages)) s.heap;
    chats = update_chat id idle s.chats;
  }

  finished-Edited :
      (id : Text) (f : Fields) (c : Chat)
      → chat_by_id id s.chats ≡ some c
      → Edited s (finished id f c) id c.messages (finish_messages f (s.heap c.messages))
  finished-Edited id f c there = record {
    found = addr_of_chat id s.chats c there;
    skeleton_eq = skeleton-update_chat id _ s.chats (λ c. (refl, refl));
    active_eq = refl;
    messages_eq = refl;
    heap_eq = refl;
    next_eq = refl;
  }

  pub finish_assistant-Edited :
      (id : Text) (f : Fields) (c : Chat)
      → chat_by_id id s.chats ≡ some c
      → Edited s
          (finish_assistant takes id f s)
          id
          c.messages
          (finish_messages f (s.heap c.messages))
  unfolding finish_assistant
  finish_assistant-Edited id f c there =
      rw (there, finish_assistant)
        (by_active (id == s.active) (λ y. sym ((eq_iff id s.active).0 y)))
    where
      done : App
      done = persist takes (finished id f c)

      w : Edited s done id c.messages (finish_messages f (s.heap c.messages))
      w = persist-Edited (finished-Edited id f c there)

      painted :
          s.active ≡ id → Same done (set_chat_busy id false (paint_thread (read_messages id done)))
      painted e =
          Same-trans (read_messages-Same done id (Edited-IsConsistent w h) (w.active_eq ∙ e)) (
            Same-trans (paint_thread-Same (read_messages id done))
              (set_chat_busy-Same id false (paint_thread (read_messages id done))))

      by_active :
          (b : Bool)
          → (b ≡ true → s.active ≡ id)
          → Edited s
              (if b then set_chat_busy id false (paint_thread (read_messages id done)) else done)
              id
              c.messages
              (finish_messages f (s.heap c.messages))
      by_active true e = Edited-Same w (painted (e refl))
      by_active false e = w

  pub set_pending_text-Edited :
      (id text : Text) (c : Chat) (ms : List Message)
      → chat_by_id id s.chats ≡ some c
      → edit_last (λ m. record m { content = text; pending = true }) (s.heap c.messages) ≡ some ms
      → Edited s (set_pending_text id text s) id c.messages ms
  unfolding set_pending_text
  set_pending_text-Edited id text c ms there e =
      rw (there, set_pending_text)
        (rw e record {
          found = addr_of_chat id s.chats c there;
          skeleton_eq = refl;
          active_eq = refl;
          messages_eq = refl;
          heap_eq = refl;
          next_eq = refl;
        })

  pub push_pair-Edited :
      (text waiting : Text)
      → Edited s (push_pair takes text waiting s) s.active s.messages (
          s.heap s.messages
          ++ blank_message user text
            ∷ record (blank_message assistant waiting) { pending = true }
            ∷ [])
  unfolding push_pair
  push_pair-Edited text waiting = persist-Edited record {
    found = h.aliased;
    skeleton_eq = refl;
    active_eq = refl;
    messages_eq = refl;
    heap_eq = refl;
    next_eq = refl;
  }
