-- ===== src/Chat/Session/Sound.antt =====
-- The input and the requests of the playground, whatever happens on it.
use mikrollm.Base.{
  ◌≡◌, refl, ap, ◌∙◌, Option, none, some, Bool, true, false, [], ◌∷◌, if◌then◌else◌, ◌==◌, text_eq,
  eq_iff, eq_refl, arith, Bool-cases, inl, inr,
}
use mikrollm.Base.Text.{Text}
use mikrollm.Chat.{Mode}
use mikrollm.Chat.Store.{Chat, Bag, App, chat_by_id}
use mikrollm.Chat.Store.Ops.{Fields, set_pending_text}
use mikrollm.Chat.Store.View.{IsConsistent, snapshot_chat-Same}
use mikrollm.Chat.Store.Edits.{Edited-IsConsistent}
use mikrollm.Chat.Store.Steps.{switch, start, close, pending, finish, step, step_lem}
use mikrollm.Chat.Submit.{Sent, ignored, refused, sent, submit}
use mikrollm.Chat.Submit.Laws.{Submits, submit_lem}
use mikrollm.Chat.Submit.Again.{again}
use mikrollm.Chat.Submit.Again.Laws.{again-Edited}
use mikrollm.Chat.Session.{
  Session, requested, Event, shows, opens, closes, sends, repeats, tells, ends, after_submit,
  after_repeat, happen,
}
use mikrollm.Chat.Session.Status.{
  status, found_status, set_status, status-missing, status-chat_by_id, status-switch_chat,
  status-new_chat, status-set_pending_text, status-finish_assistant,
}
use mikrollm.Chat.Session.Lock.{
  switch_chat-Mirrors, new_chat-Mirrors, close_chat-Mirrors, status-close_chat,
  finish_assistant-Mirrors,
}
use mikrollm.Chat.Session.Starts.{sent_status, submit-Marks, status-again}
use mikrollm.Chat.Session.Laws.{
  count, Served, IsSound, IsFresh, count-requested, Served-same, Served-closed, Served-started,
  Served-ended,
}

IsSound-if :
    (b : Bool) (r q : Session)
    → (b ≡ true → IsSound r)
    → (b ≡ false → IsSound q)
    → IsSound (if b then r else q)
IsSound-if true r q hr hq = hr refl
IsSound-if false r q hr hq = hq refl

active-set_pending_text :
    (id text : Text) (s : App) → (set_pending_text id text s).active ≡ s.active
unfolding set_pending_text
active-set_pending_text id text s = ground arith

module _ (takes : Bag → Bool) (s : Session) (h : IsSound s) where
  shows_lem : (id : Text) → IsSound (happen takes (shows id) s)
  unfolding happen step
  shows_lem id = record {
    consistent = (step_lem takes (switch id) s.app h.consistent tt).0;
    mirrored =
        switch_chat-Mirrors takes s.app id s.locked
          (rw ((snapshot_chat-Same s.app h.consistent.aliased).skeleton_eq) h.consistent.proper)
          h.mirrored;
    served = λ j. Served-same _ _ _ (status-switch_chat takes j id s.app) (h.served j);
  }

  opens_lem : (id : Text) → IsFresh (opens id) s → IsSound (happen takes (opens id) s)
  unfolding happen step
  opens_lem id (free, unused) = record {
    consistent = (step_lem takes (start id) s.app h.consistent free).0;
    mirrored = new_chat-Mirrors takes id s.app missing;
    served = λ j. Served-same _ _ _ (status-new_chat takes j id s.app missing) (opened j);
  }
    where
      missing : status id s.app.chats ≡ none
      missing = status-missing id s.app.chats free

      opened :
          (j : Text)
          → Served (if j == id then some false else status j s.app.chats) (count j s.requests)
      opened j = elim (Bool-cases (j == id)) [
        | inl y ↦ rw y (rw ((eq_iff j id).0 y) (count-requested id s.requests unused))
        | inr n ↦ rw n (h.served j)
      ]

  closes_lem :
      (fresh id : Text) → IsFresh (closes fresh id) s → IsSound (happen takes (closes fresh id) s)
  unfolding happen step
  closes_lem fresh id unused = record {
    consistent = (step_lem takes (close fresh id) s.app h.consistent tt).0;
    mirrored = close_chat-Mirrors takes s.app h.consistent s.locked fresh id h.mirrored;
    served = λ j.
        Served-same _ _ _ (status-close_chat takes s.app h.consistent s.locked fresh id j) (
          Served-closed _ fresh id j (λ k. status k s.app.chats) (count j s.requests)
            (λ y. rw ((eq_iff j fresh).0 y) (count-requested fresh s.requests unused))
            (h.served j));
  }

  -- The active chat gets a request.
  started :
      (t : App)
      → IsConsistent t
      → t.active ≡ s.app.active
      → status s.app.active s.app.chats ≡ some false
      → ((j : Text) → status j t.chats ≡ set_status s.app.active true j (status j s.app.chats))
      → IsSound (record { app = t; locked = true; requests = s.app.active ∷ s.requests })
  started t ok same idle marked = record {
    consistent = ok;
    mirrored =
        ap (λ k. status k t.chats) same
        ∙ marked s.app.active
        ∙ ap (set_status s.app.active true s.app.active) idle
        ∙ rw (eq_refl s.app.active) refl;
    served = λ j. Served-same _ _ _ (marked j) (
        Served-started s.app.active j (status j s.app.chats) s.requests
          (λ y. ap (λ k. status k s.app.chats) ((eq_iff j s.app.active).0 y) ∙ idle) (h.served j));
  }

  -- The chats change, and no status does.
  moved :
      (t : App)
      → IsConsistent t
      → t.active ≡ s.app.active
      → ((j : Text) → status j t.chats ≡ status j s.app.chats)
      → IsSound (record s { app = t })
  moved t ok same still = record {
    consistent = ok;
    mirrored = ap (λ k. status k t.chats) same ∙ still s.app.active ∙ h.mirrored;
    served = λ j. Served-same _ _ _ (still j) (h.served j);
  }

  submitted :
      (r : App × Sent)
      → s.locked ≡ false
      → Submits s.app r
      → ((j : Text)
          → status j r.0.chats ≡ sent_status s.app.active r.1 (λ k. status k s.app.chats) j)
      → IsSound (after_submit s r)
  submitted (t, ignored) free (ok, same, _) marked = moved t ok same marked
  submitted (t, refused) free (ok, same, _) marked = moved t ok same marked
  submitted (t, sent m prompt) free (ok, same, _) marked =
      started t ok same (h.mirrored ∙ ap some free) marked

  sends_lem : (needs_image : Bool) (raw : Text) → IsSound (happen takes (sends needs_image raw) s)
  unfolding happen
  sends_lem needs_image raw =
      IsSound-if s.locked s _ (λ y. h)
        (λ n.
          submitted (submit takes needs_image raw s.app) n
            (submit_lem takes needs_image raw s.app h.consistent).0
            (λ j. submit-Marks takes needs_image raw s.app j))

  repeated :
      (kind : Mode) (o : Option Chat)
      → chat_by_id s.app.active s.app.chats ≡ o
      → IsSound (after_repeat takes kind s o)
  repeated kind none e = h
  repeated kind (some c) e =
      IsSound-if c.busy s _ (λ y. h)
        (λ n.
          let w = again-Edited takes s.app h.consistent c e kind in
          started (again takes kind c s.app) (Edited-IsConsistent w h.consistent) w.active_eq
            (status-chat_by_id s.app.active s.app.chats ∙ ap found_status e ∙ ap some n)
            (λ j. status-again takes j kind c s.app))

  tells_lem : (id text : Text) → IsSound (happen takes (tells id text) s)
  unfolding happen step
  tells_lem id text =
      IsSound-if (requested id s.requests) _ s
        (λ y.
          moved (set_pending_text id text s.app)
            (step_lem takes (pending id text) s.app h.consistent tt).0
            (active-set_pending_text id text s.app) (λ j. status-set_pending_text j id text s.app))
        (λ n. h)

  ends_lem : (id : Text) (f : Fields) → IsSound (happen takes (ends id f) s)
  unfolding happen step
  ends_lem id f =
      IsSound-if (requested id s.requests) _ s
        (λ y. record {
          consistent = (step_lem takes (finish id f) s.app h.consistent tt).0;
          mirrored = finish_assistant-Mirrors takes s.app h.consistent s.locked [] id f h.mirrored;
          served = λ j.
              Served-same _ _ _ (status-finish_assistant takes j id f s.app)
                (Served-ended id j (status j s.app.chats) s.requests y (h.served j));
        })
        (λ n. h)

  -- Whatever happens on a sound playground, with an id that is free where a chat starts.
  happen-IsSound : (e : Event) → IsFresh e s → IsSound (happen takes e s)
  unfolding happen
  happen-IsSound (shows id) free = shows_lem id
  happen-IsSound (opens id) free = opens_lem id free
  happen-IsSound (closes fresh id) free = closes_lem fresh id free
  happen-IsSound (sends needs_image raw) free = sends_lem needs_image raw
  happen-IsSound (repeats kind) free = repeated kind (chat_by_id s.app.active s.app.chats) refl
  happen-IsSound (tells id text) free = tells_lem id text
  happen-IsSound (ends id f) free = ends_lem id f

-- The sessions that events lead to, in which every id drawn is free.
pub data IsLed (takes : Bag → Bool) (s : Session) : Session → Type 0 where
  rest : IsLed takes s s
  after :
      {t : Session} (e : Event) → IsLed takes s t → IsFresh e t → IsLed takes s (happen takes e t)

-- Whatever the user does and in whatever order the requests report and end, as long as each chat that
-- starts draws an id that no chat and no request under way has, a playground that was sound stays
-- sound: its chats are consistent, its input is locked if and only if the active chat is busy, a chat
-- that is there is busy if and only if it has a request under way and never has two, and a chat that
-- was closed leaves at most one request behind.
pub happens-IsSound : (takes : Bag → Bool) {s t : Session} → IsSound s → IsLed takes s t → IsSound t
happens-IsSound takes h rest = h
happens-IsSound takes h (after {t} e r free) =
    happen-IsSound takes t (happens-IsSound takes h r) e free
