-- ===== src/Chat/Store/Reload.antt =====
-- Opening the page again: `restore` on what `persist` wrote.
pub mod RoundTrip
use mikrollm.Base.{
  ℕ, suc, ◌+◌, ◌<◌, ◌≤◌, ◌≡◌, ◌≢◌, refl, sym, ap, ◌∙◌, Option, none, some, Bool, true, false, List,
  [], ◌∷◌, ◌++◌, map, if◌then◌else◌, ◌==◌, text_eq, nat_eq, eq_iff, eq_refl, arith, Bool-cases, inl,
  inr, Option-cases, length,
}
use mikrollm.Base.Text.{Text, lit, is_empty}
use mikrollm.Chat.{Message}
use mikrollm.Chat.Store.{
  Chat, PackedChat, Bag, Saved, absent, broken, bag, App, write, snapshot_chat, pack_message,
  pack_chat, pack, store, persist,
}
use mikrollm.Chat.Store.Ops.{
  last_by_id, activate, paint_thread, unpack, unpack_heap, or_first, current, Legacy, new_chat,
  unpack_chat, restore_old, restore_bag, restore_saved, restore,
}
use mikrollm.Chat.Store.View.{
  skeleton, addr, HasNo, IsProper, IsConsistent, read, thread, last_by_id_lem, last_by_id-id,
  snapshot_chat-Same, snapshot_chat-Same_missing,
}
use mikrollm.Chat.Store.Inv.Moves.{Grown-IsConsistent, new_chat-Grown}

-- The messages that an entry holds under an id.
unfoldable pub stored : Text → List PackedChat → Option (List Message)
stored id [] = none
stored id (p ∷ ps) = if p.id == id then some p.messages else stored id ps

-- The chats of an entry have distinct ids.
abbrev pub IsDistinct : List PackedChat → Type 0
IsDistinct [] = Unit
IsDistinct (p ∷ ps) = (stored p.id ps ≡ none) × IsDistinct ps

addr-unpack :
    (id : Text) (a : ℕ) (ps : List PackedChat)
    → stored id ps ≡ none
    → addr id (skeleton (unpack a ps)) ≡ none
unfolding addr unpack stored
addr-unpack id a [] h = refl
addr-unpack id a (p ∷ ps) h = ground (arith, addr-unpack id (a + 1) ps)

HasNo-unpack : (b a : ℕ) (ps : List PackedChat) → b < a → HasNo b (skeleton (unpack a ps))
unfolding unpack
HasNo-unpack b a [] h = tt
HasNo-unpack b a (p ∷ ps) h = (omega arith, HasNo-unpack b (a + 1) ps (omega arith))

pub IsProper-unpack :
    (n a : ℕ) (ps : List PackedChat)
    → IsDistinct ps
    → a + length ps ≤ n
    → IsProper n (skeleton (unpack a ps))
unfolding unpack
IsProper-unpack n a [] h le = tt
IsProper-unpack n a (p ∷ ps) (h, hs) le = (
  addr-unpack p.id (a + 1) ps h,
  omega arith,
  HasNo-unpack a (a + 1) ps (omega arith),
  IsProper-unpack n (a + 1) ps hs (omega arith),
)

addr_first : (d : Chat) (cs : List Chat) → addr d.id (skeleton (d ∷ cs)) ≡ some d.messages
unfolding addr
addr_first d cs = rw (eq_refl d.id) refl

-- The chat that is opened has its array under its id.
pub addr-current :
    (n : ℕ) (id : Text) (d : Chat) (cs : List Chat)
    → IsProper n (skeleton (d ∷ cs))
    → addr (current id d cs).id (skeleton (d ∷ cs)) ≡ some (current id d cs).messages
unfolding current
addr-current n id d cs h = by_found (last_by_id id (d ∷ cs)) refl
  where
    by_found :
        (o : Option Chat)
        → last_by_id id (d ∷ cs) ≡ o
        → addr (or_first o d).id (skeleton (d ∷ cs)) ≡ some (or_first o d).messages
    by_found none missing = addr_first d cs
    by_found (some c) found =
        rw (last_by_id-id id (d ∷ cs) c found) (last_by_id_lem n id (d ∷ cs) h ∙ rw found refl)

pub current-id :
    (n a : ℕ) (id : Text) (d : Chat) (cs : List Chat)
    → IsProper n (skeleton (d ∷ cs))
    → addr id (skeleton (d ∷ cs)) ≡ some a
    → (current id d cs).id ≡ id
unfolding current
current-id n a id d cs h there = by_found (last_by_id id (d ∷ cs)) refl
  where
    by_found : (o : Option Chat) → last_by_id id (d ∷ cs) ≡ o → (or_first o d).id ≡ id
    by_found none missing = cc (there, rw missing at (last_by_id_lem n id (d ∷ cs) h))
    by_found (some c) found = last_by_id-id id (d ∷ cs) c found

-- The messages of a restored chat are those of the entry.
unpack_heap-below :
    (b a : ℕ) (ps : List PackedChat) (heap : ℕ → List Message)
    → b < a
    → unpack_heap a ps heap b ≡ heap b
unfolding unpack_heap
unpack_heap-below b a [] heap h = refl
unpack_heap-below b a (p ∷ ps) heap h =
    unpack_heap-below b (a + 1) ps (write a p.messages heap) (omega arith) ∙ ground arith

pub read-unpack :
    (id : Text) (a : ℕ) (ps : List PackedChat) (heap : ℕ → List Message)
    → read (unpack_heap a ps heap) (addr id (skeleton (unpack a ps))) ≡ stored id ps
unfolding read addr unpack unpack_heap stored
read-unpack id a [] heap = refl
read-unpack id a (p ∷ ps) heap = elim (Bool-cases (p.id == id)) [
  | inl y ↦ rw y (
      ap some
        (unpack_heap-below a (a + 1) ps (write a p.messages heap) (omega arith) ∙ ground arith))
  | inr n ↦ rw n (read-unpack id (a + 1) ps (write a p.messages heap))
]

module _ (takes : Bag → Bool) (fresh : Text) where
  -- The chat that `newChat` makes on a page without chats.
  first_chat : (s : App) → s.chats ≡ [] → IsConsistent (new_chat takes fresh s)
  unfolding addr
  first_chat s blank =
      let none_there : addr s.active (skeleton s.chats) ≡ none = rw blank refl in
      let free : addr fresh (skeleton s.chats) ≡ none = rw blank refl in
      let proper : IsProper s.next (skeleton s.chats) = rw blank tt in
      Grown-IsConsistent
        (new_chat-Grown takes s fresh (snapshot_chat-Same_missing s none_there) free) proper free

  restore_old-IsConsistent :
      (old : Option Legacy) (s : App) → s.chats ≡ [] → IsConsistent (restore_old takes fresh old s)
  unfolding restore_old addr
  restore_old-IsConsistent none s blank = first_chat s blank
  restore_old-IsConsistent (some l) s blank = record {
    proper = (refl, omega arith, tt, tt);
    aliased = rw (eq_refl (lit "c0")) refl;
  }

  pub restore_bag-IsConsistent :
      (active : Text) (ps : List PackedChat) (s : App)
      → IsDistinct ps
      → IsConsistent (restore_bag takes fresh active ps s)
  unfolding restore_bag
  restore_bag-IsConsistent active [] s h =
      first_chat (record s { chats = []; active = active }) refl
  restore_bag-IsConsistent active (p ∷ ps) s h = record {
    proper = proper;
    aliased =
        addr-current (s.next + length (p ∷ ps)) (if is_empty active then p.id else active)
          (unpack_chat s.next p) (unpack (s.next + 1) ps) proper;
  }
    where
      proper :
          IsProper
            (s.next + length (p ∷ ps))
            (skeleton (unpack_chat s.next p ∷ unpack (s.next + 1) ps))
      proper =
          unfold unpack in
          IsProper-unpack (s.next + length (p ∷ ps)) s.next (p ∷ ps) h (omega arith)

  -- The entry, if there is one, has distinct ids.
  abbrev pub HasDistinct : Saved → Type 0
  HasDistinct (bag b) = IsDistinct b.chats
  HasDistinct absent = Unit
  HasDistinct broken = Unit

  restore_saved-IsConsistent :
      (old : Option Legacy) (e : Saved) (s : App)
      → HasDistinct e
      → s.chats ≡ []
      → IsConsistent (restore_saved takes fresh old e s)
  unfolding restore_saved
  restore_saved-IsConsistent old absent s h blank = restore_old-IsConsistent old s blank
  restore_saved-IsConsistent old broken s h blank = first_chat s blank
  restore_saved-IsConsistent old (bag b) s h blank = restore_bag-IsConsistent b.active b.chats s h

  -- Whatever the storage holds (nothing, something that is no JSON, the entry of the older version, or
  -- an entry whose chats have distinct ids), opening the page gives a consistent playground.
  pub restore-IsConsistent :
      (old : Option Legacy) (s : App)
      → HasDistinct s.saved
      → s.chats ≡ []
      → IsConsistent (restore takes fresh old s)
  unfolding restore
  restore-IsConsistent old s h blank = restore_saved-IsConsistent old s.saved s h blank
