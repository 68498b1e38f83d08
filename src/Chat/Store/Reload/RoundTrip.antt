-- ===== src/Chat/Store/Reload/RoundTrip.antt =====
-- The threads of the chats over a reload of the page: `persist`, then `restore`.
use mikrollm.Base.{
  ℕ, ◌+◌, ◌≡◌, refl, ap, ◌∙◌, Option, none, some, Bool, true, false, List, [], ◌∷◌, map, ◌==◌,
  text_eq, arith, Bool-cases, inl, inr, Option-cases, length,
}
use mikrollm.Base.Text.{Text, is_empty}
use mikrollm.Chat.{Message}
use mikrollm.Chat.Store.{
  Chat, PackedChat, Bag, bag, App, snapshot_chat, pack_message, pack_chat, pack, store, persist,
}
use mikrollm.Chat.Store.Ops.{
  Legacy, current, unpack_chat, unpack, restore_bag, restore_saved, restore,
}
use mikrollm.Chat.Store.View.{
  skeleton, addr, IsProper, IsConsistent, read, thread, Same-IsConsistent, Same-thread,
  snapshot_chat-Same,
}
use mikrollm.Chat.Store.Reload.{stored, IsDistinct, IsProper-unpack, read-unpack, current-id}

-- The messages as an entry holds them, with their pictures or without.
abbrev pub repacked : Bool → Option (List Message) → Option (List Message)
repacked w none = none
repacked w (some ms) = some (map (pack_message w) ms)

stored-pack :
    (w : Bool) (heap : ℕ → List Message) (id : Text) (cs : List Chat)
    → stored id (map (pack_chat w heap) cs) ≡ repacked w (read heap (addr id (skeleton cs)))
unfolding stored read addr
stored-pack w heap id [] = refl
stored-pack w heap id (c ∷ cs) = elim (Bool-cases (c.id == id)) [
  | inl y ↦ rw y refl
  | inr n ↦ rw n (stored-pack w heap id cs)
]

pub IsDistinct-pack :
    (w : Bool) (heap : ℕ → List Message) (n : ℕ) (cs : List Chat)
    → IsProper n (skeleton cs)
    → IsDistinct (map (pack_chat w heap) cs)
unfolding read
IsDistinct-pack w heap n [] h = tt
IsDistinct-pack w heap n (c ∷ cs) h =
    (stored-pack w heap c.id cs ∙ rw h.0 refl, IsDistinct-pack w heap n cs h.3)

addr_of_stored :
    (id : Text) (a : ℕ) (ps : List PackedChat) (heap : ℕ → List Message) (ms : List Message)
    → stored id ps ≡ some ms
    → (b : ℕ) × (addr id (skeleton (unpack a ps)) ≡ some b)
unfolding read
addr_of_stored id a ps heap ms h = elim (Option-cases (addr id (skeleton (unpack a ps)))) [
  | inl missing ↦ absurd (cc (h, rw missing at (read-unpack id a ps heap)))
  | inr found ↦ found
]

-- What comes back: the messages under each id, and the active chat.
abbrev Returns : (Text → Option (List Message)) → Text → App → Type 0
Returns th active t = ((j : Text) → thread t j ≡ th j) × (t.active ≡ active)

module _ (takes : Bag → Bool) (fresh : Text) where
  thread-restore_bag :
      (active : Text) (p : PackedChat) (ps : List PackedChat) (s : App) (j : Text)
      → thread (restore_bag takes fresh active (p ∷ ps) s) j ≡ stored j (p ∷ ps)
  unfolding thread restore_bag
  thread-restore_bag active p ps s j = unfold unpack in read-unpack j s.next (p ∷ ps) s.heap

  active-restore_bag :
      (active : Text) (p : PackedChat) (ps : List PackedChat) (s : App) (ms : List Message)
      → IsDistinct (p ∷ ps)
      → stored active (p ∷ ps) ≡ some ms
      → is_empty active ≡ false
      → (restore_bag takes fresh active (p ∷ ps) s).active ≡ active
  unfolding restore_bag current
  active-restore_bag active p ps s ms distinct there named = rw named (
      current-id (s.next + length (p ∷ ps)) found.0 active (unpack_chat s.next p)
        (unpack (s.next + 1) ps) proper found.1)
    where
      proper :
          IsProper
            (s.next + length (p ∷ ps))
            (skeleton (unpack_chat s.next p ∷ unpack (s.next + 1) ps))
      proper =
          unfold unpack in
          IsProper-unpack (s.next + length (p ∷ ps)) s.next (p ∷ ps) distinct (omega arith)

      found :
          (a : ℕ) × (addr active (skeleton (unpack_chat s.next p ∷ unpack (s.next + 1) ps))
            ≡ some a)
      found = unfold unpack in addr_of_stored active s.next (p ∷ ps) s.heap ms there

  -- Opening an entry whose chats have distinct ids, the active one among them.
  restore_bag-Returns :
      (active : Text) (ps : List PackedChat) (s : App) (ms : List Message)
      → IsDistinct ps
      → stored active ps ≡ some ms
      → is_empty active ≡ false
      → Returns (λ j. stored j ps) active (restore_bag takes fresh active ps s)
  unfolding stored
  restore_bag-Returns active [] s ms distinct there named = cc
  restore_bag-Returns active (p ∷ ps) s ms distinct there named = (
    λ j. thread-restore_bag active p ps s j,
    active-restore_bag active p ps s ms distinct there named,
  )

  -- Opening what was packed of a consistent playground.
  pack-Returns :
      (w : Bool) (t p : App)
      → IsConsistent t
      → is_empty t.active ≡ false
      → Returns
          (λ j. repacked w (thread t j))
          t.active
          (restore_bag takes fresh (pack w t).active (pack w t).chats p)
  unfolding pack thread
  pack-Returns w t p h named =
      let there : stored t.active (map (pack_chat w t.heap) t.chats)
          ≡ some (map (pack_message w) (t.heap t.messages)) =
        stored-pack w t.heap t.active t.chats ∙ rw h.aliased (unfold read in refl) in
      let (back, active) =
        restore_bag-Returns t.active (map (pack_chat w t.heap) t.chats) p _
          (IsDistinct-pack w t.heap t.next t.chats h.proper) there named in
      (λ j. back j ∙ stored-pack w t.heap j t.chats, active)

  saved-persist :
      (s : App)
      → takes (pack false (snapshot_chat s)) ≡ true
      → (persist takes s).saved ≡ bag (pack (takes (pack true (snapshot_chat s))) (snapshot_chat s))
  unfolding persist store
  saved-persist s small = ground arith

  -- What `restore` opens after `persist`.
  pub restore-saved :
      (old : Option Legacy) (s p : App)
      → takes (pack false (snapshot_chat s)) ≡ true
      → p.saved ≡ (persist takes s).saved
      → let b = pack (takes (pack true (snapshot_chat s))) (snapshot_chat s) in
        restore takes fresh old p ≡ restore_bag takes fresh b.active b.chats p
  unfolding restore restore_saved
  restore-saved old s p small e =
      ap (λ e. restore_saved takes fresh old e p) (e ∙ saved-persist s small)

  -- If a consistent playground with a named active chat is saved, and the storage takes at least the
  -- entry without pictures, then opening the page again gives the chats back: the same chat is active,
  -- and under every id are the messages that the entry holds of that chat, with their pictures
  -- exactly if the storage takes them.
  pub restore-persist :
      (old : Option Legacy) (s p : App)
      → IsConsistent s
      → is_empty s.active ≡ false
      → takes (pack false (snapshot_chat s)) ≡ true
      → p.saved ≡ (persist takes s).saved
      → ((j : Text)
          → thread (restore takes fresh old p) j
            ≡ repacked (takes (pack true (snapshot_chat s))) (thread s j))
        × ((restore takes fresh old p).active ≡ s.active)
  restore-persist old s p h named small e =
      let same = snapshot_chat-Same s h.aliased in
      let w = takes (pack true (snapshot_chat s)) in
      let (back, active) =
        pack-Returns w (snapshot_chat s) p (Same-IsConsistent same h) (rw same.active_eq named) in
      let opened = restore-saved old s p small e in
      (
        λ j. ap (λ t. thread t j) opened ∙ back j ∙ ap (repacked w) (Same-thread same j),
        ap (λ (t : App). t.active) opened ∙ active ∙ same.active_eq,
      )
