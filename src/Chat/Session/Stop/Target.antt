-- ===== src/Chat/Session/Stop/Target.antt =====
-- Whose request the stop-button aborts, whatever happens on the playground.
use mikrollm.Base.{
  ◌+◌, ◌≡◌, refl, sym, ap, ◌∙◌, subst, Option, none, some, Bool, true, false, List, [], ◌∷◌,
  if◌then◌else◌, text_eq, arith, Bool-cases, inl, inr,
}
use mikrollm.Base.Text.{Text, trim}
use mikrollm.Chat.{Mode}
use mikrollm.Chat.Store.{Chat, PackedChat, Bag, Saved, absent, broken, bag, App, chat_by_id}
use mikrollm.Chat.Store.Ops.{Legacy, push_pair, restore_old, restore_bag, restore_saved, restore}
use mikrollm.Chat.Store.Reload.{HasDistinct}
use mikrollm.Chat.Submit.{
  Sent, ignored, refused, sent, media_mode, prompt_of, waiting, begin, try_send, submit,
}
use mikrollm.Chat.Submit.Again.{asked_again, again}
use mikrollm.Chat.Session.{
  Session, requested, Event, shows, opens, closes, sends, repeats, tells, ends, after_submit,
  after_repeat, happen,
}
use mikrollm.Chat.Session.Status.{found_status, status-chat_by_id}
use mikrollm.Chat.Session.Laws.{count, Served, IsSound, count-requested}
use mikrollm.Chat.Session.Sound.{IsLed, rest, after, happens-IsSound}
use mikrollm.Chat.Session.Opened.{opened, opened-IsSound}
use mikrollm.Chat.Session.Stop.{abort_of, stop, Paired, Paired-chat_by_id, Paired-start_as}
use mikrollm.Chat.Session.Stop.Laws.{
  Paired-set_pending_text, Paired-media_mode, Paired-unpack, Paired-persist, Paired-switch_chat,
  Paired-new_chat, Paired-close_chat, Paired-finish_assistant,
}

-- What a submission gives, with its chats paired.
record PairsSent (r : App × Sent) : Type 0 where
  chats_paired : Paired r.0.chats

PairsSent-if :
    (b : Bool) (r q : App × Sent) → PairsSent r → PairsSent q → PairsSent (if b then r else q)
PairsSent-if true r q hr hq = hr
PairsSent-if false r q hr hq = hq

Paired-after_submit :
    (s : Session) (r : App × Sent) → Paired r.0.chats → Paired (after_submit s r).app.chats
Paired-after_submit s (t, ignored) h = h
Paired-after_submit s (t, refused) h = h
Paired-after_submit s (t, sent m prompt) h = h

Paired-session :
    (b : Bool) (s t : Session)
    → Paired s.app.chats
    → Paired t.app.chats
    → Paired (if b then s else t).app.chats
Paired-session true s t hs ht = hs
Paired-session false s t hs ht = ht

module _ (takes : Bag → Bool) where
  begin-PairsSent :
      (m : Mode) (text : Text) (s : App)
      → Paired s.chats
      → PairsSent (begin m (push_pair takes text waiting s), sent m text)
  unfolding begin push_pair
  begin-PairsSent m text s h = record {
    chats_paired = Paired-start_as m (push_pair takes text waiting s) (Paired-persist takes _ h);
  }

  try_send-PairsSent :
      (needs_image : Bool) (text : Text) (s : App)
      → Paired s.chats
      → PairsSent (try_send takes needs_image text s)
  unfolding try_send
  try_send-PairsSent needs_image text s h =
      PairsSent-if _ (s, ignored) _ (record { chats_paired = h })
        (PairsSent-if _ (s, refused) _ (record { chats_paired = h })
          (begin-PairsSent s.composer.mode (prompt_of text) s h))

  submit-PairsSent :
      (needs_image : Bool) (raw : Text) (s : App)
      → Paired s.chats
      → PairsSent (submit takes needs_image raw s)
  unfolding submit
  submit-PairsSent needs_image raw s h =
      PairsSent-if _ (s, ignored) _ (record { chats_paired = h })
        (try_send-PairsSent needs_image (trim raw) (media_mode s) (Paired-media_mode s h))

  Paired-again :
      (kind : Mode) (c : Chat) (s : App) → Paired s.chats → Paired (again takes kind c s).chats
  unfolding again asked_again
  Paired-again kind c s h = Paired-start_as kind (asked_again takes c s) (Paired-persist takes _ h)

  Paired-after_repeat :
      (kind : Mode) (s : Session) (o : Option Chat)
      → Paired s.app.chats
      → Paired (after_repeat takes kind s o).app.chats
  Paired-after_repeat kind s none h = h
  Paired-after_repeat kind s (some c) h = Paired-session c.busy s _ h (Paired-again kind c s.app h)

  Paired-happen :
      (e : Event) (s : Session) → Paired s.app.chats → Paired (happen takes e s).app.chats
  unfolding happen
  Paired-happen (shows id) s h = Paired-switch_chat takes id s.app h
  Paired-happen (opens fresh) s h = Paired-new_chat takes fresh s.app h
  Paired-happen (closes fresh id) s h = Paired-close_chat takes fresh id s.app h
  Paired-happen (sends needs_image raw) s h = Paired-session s.locked s _ h (
      Paired-after_submit s (submit takes needs_image raw s.app)
        ((submit-PairsSent needs_image raw s.app h).chats_paired))
  Paired-happen (repeats kind) s h =
      Paired-after_repeat kind s (chat_by_id s.app.active s.app.chats) h
  Paired-happen (tells id text) s h =
      Paired-session (requested id s.requests) _ s (Paired-set_pending_text id text s.app h) h
  Paired-happen (ends id f) s h =
      Paired-session (requested id s.requests) _ s (Paired-finish_assistant takes id f s.app h) h

  Paired-IsLed : {s t : Session} → Paired s.app.chats → IsLed takes s t → Paired t.app.chats
  Paired-IsLed h rest = h
  Paired-IsLed h (after {t} e r free) = Paired-happen e t (Paired-IsLed h r)

  module _ (fresh : Text) where
    Paired-restore_bag :
        (active : Text) (ps : List PackedChat) (s : App)
        → Paired (restore_bag takes fresh active ps s).chats
    unfolding restore_bag
    Paired-restore_bag active [] s =
        Paired-new_chat takes fresh (record s { chats = []; active = active }) tt
    Paired-restore_bag active (p ∷ ps) s = (refl, Paired-unpack (s.next + 1) ps)

    Paired-restore_old :
        (old : Option Legacy) (s : App)
        → Paired s.chats
        → Paired (restore_old takes fresh old s).chats
    unfolding restore_old
    Paired-restore_old none s h = Paired-new_chat takes fresh s h
    Paired-restore_old (some l) s h = (refl, tt)

    Paired-restore_saved :
        (old : Option Legacy) (e : Saved) (s : App)
        → Paired s.chats
        → Paired (restore_saved takes fresh old e s).chats
    unfolding restore_saved
    Paired-restore_saved old absent s h = Paired-restore_old old s h
    Paired-restore_saved old broken s h = Paired-new_chat takes fresh s h
    Paired-restore_saved old (bag b) s h = Paired-restore_bag b.active b.chats s

    Paired-opened :
        (old : Option Legacy) (s : App) → s.chats ≡ [] → Paired (opened takes fresh old s).app.chats
    unfolding opened restore
    Paired-opened old s blank = Paired-restore_saved old s.saved s (subst Paired (sym blank) tt)

-- With an input that is locked, the active chat is there and has an abort controller.
stop-locked :
    (last : Option Text) (s : Session)
    → IsSound s
    → Paired s.app.chats
    → s.locked ≡ true
    → stop last s.app ≡ some s.app.active
unfolding stop
stop-locked last s h paired locked = by_chat (chat_by_id s.app.active s.app.chats) refl
  where
    by_chat :
        (o : Option Chat)
        → chat_by_id s.app.active s.app.chats ≡ o
        → abort_of last s.app.active o ≡ some s.app.active
    by_chat none e =
        absurd (cc (h.mirrored, status-chat_by_id s.app.active s.app.chats, ap found_status e))
    by_chat (some c) e =
        let own = Paired-chat_by_id s.app.active s.app.chats c paired e in
        let busy : some c.busy ≡ some true =
          sym (ap found_status e)
          ∙ sym (status-chat_by_id s.app.active s.app.chats)
          ∙ h.mirrored
          ∙ ap some locked in
        let on : c.running ≡ true = cc (own, busy) in rw on refl

-- With an input that is locked, the active chat has a request under way.
requested-locked :
    (s : Session) → IsSound s → s.locked ≡ true → requested s.app.active s.requests ≡ true
requested-locked s h locked = elim (Bool-cases (requested s.app.active s.requests)) [
  | inl y ↦ y
  | inr n ↦
      let one : Served (some true) (count s.app.active s.requests) =
        subst (λ o. Served o (count s.app.active s.requests)) (h.mirrored ∙ ap some locked)
          (h.served s.app.active) in
      let none_left = count-requested s.app.active s.requests n in
      absurd (omega (arith, one, none_left))
]

-- From the opening of the page on, whatever is stored (with distinct ids), whatever the user does and in
-- whatever order the requests report and end, with unused ids for new chats: while the input is locked,
-- and so the stop-button is there, the button aborts the request of the chat that is shown, and there is
-- one; it never aborts that of another chat, whichever request the variable `ac` belongs to.
pub stop_lem :
    (takes : Bag → Bool) (fresh : Text) (old : Option Legacy) (s : App) (t : Session)
    (last : Option Text)
    → HasDistinct takes fresh s.saved
    → s.chats ≡ []
    → IsLed takes (opened takes fresh old s) t
    → t.locked ≡ true
    → (stop last t.app ≡ some t.app.active) × (requested t.app.active t.requests ≡ true)
stop_lem takes fresh old s t last h blank led locked =
    let sound = happens-IsSound takes (opened-IsSound takes fresh old s h blank) led in
    let paired = Paired-IsLed takes (Paired-opened takes fresh old s blank) led in
    (stop-locked last t sound paired locked, requested-locked t sound locked)
