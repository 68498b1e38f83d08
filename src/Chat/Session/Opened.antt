-- ===== src/Chat/Session/Opened.antt =====
-- The playground from the moment its page is opened: `restore`, and whatever happens after it.
use mikrollm.Base.{
  ℕ, ◌+◌, ◌≡◌, refl, sym, ap, ◌∙◌, subst, Option, none, some, Bool, true, false, List, [], ◌∷◌,
  ◌==◌, text_eq, arith, Bool-cases, inl, inr,
}
use mikrollm.Base.Text.{Text, lit, is_empty}
use mikrollm.Chat.Store.{Chat, PackedChat, Bag, Saved, absent, broken, bag, App}
use mikrollm.Chat.Store.Ops.{
  Legacy, unpack, paint_thread, new_chat, restore_old, restore_bag, restore_saved, restore,
}
use mikrollm.Chat.Store.View.{IsConsistent}
use mikrollm.Chat.Store.Reload.{HasDistinct, restore-IsConsistent}
use mikrollm.Chat.Session.{Session}
use mikrollm.Chat.Session.Status.{status, status-there, status-new_chat}
use mikrollm.Chat.Session.Laws.{count, Served, IsSound}
use mikrollm.Chat.Session.Sound.{IsLed, happens-IsSound}

-- The end of `chatPlayground`: `restore(); syncModeToModel();`, with an input that is not locked.
unfoldable pub opened : (Bag → Bool) → Text → Option Legacy → App → Session
opened takes fresh old s = record {
  app = paint_thread (restore takes fresh old s);
  locked = false;
  requests = [];
}

abbrev pub is_true : Option Bool → Bool
is_true none = false
is_true (some b) = b

-- No chat is busy.
abbrev IsCalm : List Chat → Type 0
IsCalm cs = (j : Text) → Served (status j cs) 0

IsCalm-unpack : (a : ℕ) (ps : List PackedChat) → IsCalm (unpack a ps)
unfolding status unpack
IsCalm-unpack a [] j = omega arith
IsCalm-unpack a (p ∷ ps) j = elim (Bool-cases (p.id == j)) [
  | inl y ↦ rw y refl
  | inr n ↦ rw n (IsCalm-unpack (a + 1) ps j)
]

module _ (takes : Bag → Bool) (fresh : Text) where
  IsCalm-new_chat : (s : App) → s.chats ≡ [] → IsCalm (new_chat takes fresh s).chats
  unfolding status
  IsCalm-new_chat s blank j =
      rw (status-new_chat takes j fresh s (rw blank refl))
        (elim (Bool-cases (j == fresh)) [ inl y ↦ rw y refl | inr n ↦ rw (n, blank) (omega arith) ])

  IsCalm-restore_old :
      (old : Option Legacy) (s : App) → s.chats ≡ [] → IsCalm (restore_old takes fresh old s).chats
  unfolding restore_old status
  IsCalm-restore_old none s blank j = IsCalm-new_chat s blank j
  IsCalm-restore_old (some l) s blank j = elim (Bool-cases (lit "c0" == j)) [
    | inl y ↦ rw y refl
    | inr n ↦ rw n (omega arith)
  ]

  IsCalm-restore_bag :
      (active : Text) (ps : List PackedChat) (s : App)
      → IsCalm (restore_bag takes fresh active ps s).chats
  unfolding restore_bag
  IsCalm-restore_bag active [] s = IsCalm-new_chat (record s { chats = []; active = active }) refl
  IsCalm-restore_bag active (p ∷ ps) s = unfold unpack in IsCalm-unpack s.next (p ∷ ps)

  IsCalm-restore_saved :
      (old : Option Legacy) (e : Saved) (s : App)
      → s.chats ≡ []
      → IsCalm (restore_saved takes fresh old e s).chats
  unfolding restore_saved
  IsCalm-restore_saved old absent s blank = IsCalm-restore_old old s blank
  IsCalm-restore_saved old broken s blank = IsCalm-new_chat s blank
  IsCalm-restore_saved old (bag b) s blank = IsCalm-restore_bag b.active b.chats s

  module _ (old : Option Legacy) (s : App) (h : HasDistinct takes fresh s.saved)
      (blank : s.chats ≡ []) where
    IsCalm-restore : IsCalm (restore takes fresh old s).chats
    unfolding restore
    IsCalm-restore = IsCalm-restore_saved old s.saved s blank

    -- The page is sound when it is opened.
    pub opened-IsSound : IsSound (opened takes fresh old s)
    unfolding opened count
    opened-IsSound =
        let t = restore takes fresh old s in
        let ok : IsConsistent t = restore-IsConsistent takes fresh old s h blank in
        let (b, e) = status-there t.active t.messages t.chats ok.aliased in
        let calm : Served (some b) 0 = subst (λ o. Served o 0) e (IsCalm-restore t.active) in
        record {
          consistent = record { proper = ok.proper; aliased = ok.aliased };
          mirrored = e ∙ ap some (idle b calm);
          served = IsCalm-restore;
        }
      where
        idle : (b : Bool) → Served (some b) 0 → b ≡ false
        idle true k = absurd (omega arith)
        idle false k = refl

-- No request is under way: the input is free and no chat is busy.
Served-idle :
    (rs : List Text) (j : Text) (o : Option Bool)
    → is_empty rs ≡ true
    → Served o (count j rs)
    → is_true o ≡ false
unfolding count
Served-idle [] j none e h = refl
Served-idle [] j (some true) e h = absurd (omega arith)
Served-idle [] j (some false) e h = refl
Served-idle (r ∷ rs) j o e h = absurd (cc e)

-- A session that is sound, with no request under way.
IsSound-quiet :
    (s : Session) (j : Text)
    → IsSound s
    → is_empty s.requests ≡ true
    → (s.locked ≡ false) × (is_true (status j s.app.chats) ≡ false)
IsSound-quiet s j h e = (
  sym (ap is_true h.mirrored)
      ∙ Served-idle s.requests s.app.active (status s.app.active s.app.chats) e
          (h.served s.app.active),
  Served-idle s.requests j (status j s.app.chats) e (h.served j),
)

-- Whatever the storage holds (nothing, something that is no JSON, the entry of the older version, or an
-- entry whose chats have distinct ids), from the opening of the page on, whatever the user does and in
-- whatever order the requests report and end, with unused ids for new chats: when no request is under
-- way, the playground is sound, its input is not locked and no chat is busy.
pub opened_lem :
    (takes : Bag → Bool) (fresh : Text) (old : Option Legacy) (s : App) (t : Session) (j : Text)
    → HasDistinct takes fresh s.saved
    → s.chats ≡ []
    → IsLed takes (opened takes fresh old s) t
    → is_empty t.requests ≡ true
    → IsSound t × (t.locked ≡ false) × (is_true (status j t.app.chats) ≡ false)
opened_lem takes fresh old s t j h blank led quiet =
    let sound = happens-IsSound takes (opened-IsSound takes fresh old s h blank) led in
    let (free, idle) = IsSound-quiet t j sound quiet in (sound, free, idle)
