-- ===== src/Chat/Panels/Queue/Reload.antt =====
-- The queue after a reload of the page, whose answers under way have been lost: `persist`, `restore`,
-- `renderChatQueue`.
use mikrollm.Base.{
  ℕ, ◌+◌, ◌≡◌, refl, sym, ap, ◌∙◌, subst, Option, none, some, Bool, true, false, List, [], ◌∷◌, map,
  text_eq, arith,
}
use mikrollm.Base.Text.{Text, is_empty}
use mikrollm.Chat.{Message}
use mikrollm.Chat.Store.{
  Chat, PackedChat, Bag, App, chat_by_id, snapshot_chat, pack_message, pack_chat, pack, persist,
}
use mikrollm.Chat.Store.Ops.{Legacy, unpack, restore_bag, restore}
use mikrollm.Chat.Store.View.{
  skeleton, addr, IsConsistent, Same-IsConsistent, snapshot_chat-Same, thread,
}
use mikrollm.Chat.Store.Reload.{restore_bag-IsConsistent}
use mikrollm.Chat.Store.Reload.RoundTrip.{repacked, IsDistinct-pack, restore-saved, restore-persist}
use mikrollm.Chat.Panels.{last_pending}
use mikrollm.Chat.Panels.Queue.{busy_of, waits, listed, listed_lem}

busy_of-unpack : (id : Text) (a : ℕ) (ps : List PackedChat) → busy_of id (unpack a ps) ≡ false
unfolding busy_of chat_by_id unpack
busy_of-unpack id a [] = refl
busy_of-unpack id a (p ∷ ps) = ground (arith, busy_of-unpack id (a + 1) ps)

last?-map :
    (f : Message → Message) (ms : List Message)
    → ((m : Message) → (f m).pending ≡ m.pending)
    → last_pending (map f ms) ≡ last_pending ms
unfolding last_pending
last?-map f [] h = refl
last?-map f (m ∷ []) h = h m
last?-map f (m ∷ n ∷ ms) h = last?-map f (n ∷ ms) h

waits-repacked : (w : Bool) (o : Option (List Message)) → waits (repacked w o) ≡ waits o
unfolding waits pack_message
waits-repacked w none = refl
waits-repacked w (some ms) = last?-map (pack_message w) ms (λ m. refl)

busy_of-restore_bag :
    (takes : Bag → Bool) (fresh active id : Text) (ps : List PackedChat) (s : App)
    → is_empty ps ≡ false
    → busy_of id (restore_bag takes fresh active ps s).chats ≡ false
unfolding restore_bag
busy_of-restore_bag takes fresh active id [] s h = cc
busy_of-restore_bag takes fresh active id (p ∷ ps) s h =
    unfold unpack in busy_of-unpack id s.next (p ∷ ps)

is_empty-chats : (w : Bool) (s : App) → IsConsistent s → is_empty (pack w s).chats ≡ false
unfolding pack
is_empty-chats w s h = by_chats s.chats h.aliased
  where
    by_chats :
        (cs : List Chat)
        → addr s.active (skeleton cs) ≡ some s.messages
        → is_empty (map (pack_chat w s.heap) cs) ≡ false
    by_chats [] e = unfold addr in cc
    by_chats (c ∷ cs) e = refl

-- After a reload no chat is busy, since the requests under way are gone; yet the queue still lists
-- every chat whose last message waited when the page was saved, as if it were being worked on.
pub listed-restore :
    (takes : Bag → Bool) (to_lower : Text → Text) (fresh j : Text) (old : Option Legacy) (s p : App)
    → IsConsistent s
    → is_empty s.active ≡ false
    → takes (pack false (snapshot_chat s)) ≡ true
    → p.saved ≡ (persist takes s).saved
    → (busy_of j (restore takes fresh old p).chats ≡ false)
      × (listed to_lower j (restore takes fresh old p) ≡ waits (thread s j))
listed-restore takes to_lower fresh j old s p h named small e = (
  idle,
  listed_lem to_lower j (restore takes fresh old p) consistent
      ∙ rw idle (ap waits back ∙ waits-repacked w (thread s j)),
)
  where
    w : Bool
    w = takes (pack true (snapshot_chat s))

    h' : IsConsistent (snapshot_chat s)
    h' = Same-IsConsistent (snapshot_chat-Same s h.aliased) h

    opened :
        restore takes fresh old p
        ≡ restore_bag takes fresh
            (pack w (snapshot_chat s)).active
            (pack w (snapshot_chat s)).chats
            p
    opened = restore-saved takes fresh old s p small e

    idle : busy_of j (restore takes fresh old p).chats ≡ false
    idle =
        ap (λ (t : App). busy_of j t.chats) opened
        ∙ busy_of-restore_bag takes fresh (pack w (snapshot_chat s)).active j
            (pack w (snapshot_chat s)).chats p (is_empty-chats w (snapshot_chat s) h')

    consistent : IsConsistent (restore takes fresh old p)
    consistent = subst IsConsistent (sym opened) (
        restore_bag-IsConsistent takes fresh (pack w (snapshot_chat s)).active
          (pack w (snapshot_chat s)).chats p
          (unfold pack in
            IsDistinct-pack w (snapshot_chat s).heap (snapshot_chat s).next (snapshot_chat s).chats
              h'.proper))

    back : thread (restore takes fresh old p) j ≡ repacked w (thread s j)
    back = (restore-persist takes fresh old s p h named small e).0 j
