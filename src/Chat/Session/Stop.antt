-- ===== src/Chat/Session/Stop.antt =====
-- The stop-button: whose request it aborts, and which chats have an abort controller.
pub mod Laws
pub mod Target
use mikrollm.Base.{
  ◌+◌, ◌≡◌, refl, Option, none, some, Bool, true, List, [], ◌∷◌, ◌++◌, if◌then◌else◌, ◌==◌, text_eq,
  arith, Bool-cases, inl, inr, select,
}
use mikrollm.Base.Text.{Text}
use mikrollm.Chat.{Mode}
use mikrollm.Chat.Store.{Chat, App, chat_by_id, update_chat, take_snapshot, snapshot_chat}
use mikrollm.Chat.Store.Ops.{set_chat_busy}
use mikrollm.Chat.Submit.{running_as, start_as}

-- The click on the stop-button: the chat whose request it aborts. `last` is the chat of the request
-- that the variable `ac` belongs to, if there has been one.
abbrev pub abort_of : Option Text → Text → Option Chat → Option Text
abort_of last id none = last
abort_of last id (some c) = if c.running then some id else last

unfoldable pub stop : Option Text → App → Option Text
stop last s = abort_of last s.active (chat_by_id s.active s.chats)

-- A chat has an abort controller if and only if it is busy.
abbrev pub IsPaired : Chat → Type 0
IsPaired c = c.running ≡ c.busy

abbrev pub Paired : List Chat → Type 0
Paired [] = Unit
Paired (c ∷ cs) = IsPaired c × Paired cs

pub Paired-update_chat :
    (id : Text) (f : Chat → Chat) (cs : List Chat)
    → ((c : Chat) → IsPaired c → IsPaired (f c))
    → Paired cs
    → Paired (update_chat id f cs)
unfolding update_chat
Paired-update_chat id f [] keeps h = tt
Paired-update_chat id f (c ∷ cs) keeps (p, h) = elim (Bool-cases (c.id == id)) [
  | inl y ↦ rw y (keeps c p, h)
  | inr n ↦ rw n (p, Paired-update_chat id f cs keeps h)
]

pub update_chat-update_chat :
    (id : Text) (f g : Chat → Chat) (cs : List Chat)
    → ((c : Chat) → (g c).id ≡ c.id)
    → update_chat id f (update_chat id g cs) ≡ update_chat id (λ c. f (g c)) cs
unfolding update_chat
update_chat-update_chat id f g [] same = refl
update_chat-update_chat id f g (c ∷ cs) same =
    ground (arith, same c, update_chat-update_chat id f g cs same)

pub Paired-select : (p : Chat → Bool) (cs : List Chat) → Paired cs → Paired (select p cs)
Paired-select p [] h = tt
Paired-select p (c ∷ cs) (k, h) = elim (Bool-cases (p c)) [
  | inl y ↦ rw y (k, Paired-select p cs h)
  | inr n ↦ rw n (Paired-select p cs h)
]

pub Paired-append : (cs : List Chat) (c : Chat) → Paired cs → IsPaired c → Paired (cs ++ c ∷ [])
Paired-append [] c h p = (p, tt)
Paired-append (d ∷ cs) c (k, h) p = (k, Paired-append cs c h p)

pub Paired-chat_by_id :
    (id : Text) (cs : List Chat) (c : Chat) → Paired cs → chat_by_id id cs ≡ some c → IsPaired c
unfolding chat_by_id
Paired-chat_by_id id [] c h e = absurd (cc e)
Paired-chat_by_id id (d ∷ cs) c (p, h) e = ground (arith, Paired-chat_by_id id cs c h)

pub Paired-snapshot_chat : (s : App) → Paired s.chats → Paired (snapshot_chat s).chats
unfolding snapshot_chat
Paired-snapshot_chat s = Paired-update_chat s.active (take_snapshot s) s.chats (λ c p. p)

pub Paired-start_as : (m : Mode) (s : App) → Paired s.chats → Paired (start_as m s).chats
unfolding start_as set_chat_busy
Paired-start_as m s h =
    rw
      (update_chat-update_chat s.active (running_as m) (λ c. record c { busy = true }) s.chats
        (λ c. refl))
      (Paired-update_chat s.active _ s.chats (λ c p. refl) h)
