-- ===== src/Chat/Session/Lock.antt =====
-- The input is locked exactly while the active chat is busy: `setBusy` and `setChatBusy` in
-- `switchChat`, `newChat`, the close-button and `finishAssistant`.
use mikrollm.Base.{
  ◌≡◌, refl, sym, ap, ◌∙◌, Option, none, some, Bool, true, false, List, [], if◌then◌else◌, ◌==◌,
  text_eq, eq_iff, eq_refl, last?, arith, Bool-cases, Option-cases, inl, inr,
}
use mikrollm.Base.Text.{Text, is_empty}
use mikrollm.Chat.Store.{Chat, Bag, App, chat_by_id, snapshot_chat, store, persist}
use mikrollm.Chat.Store.Ops.{
  Fields, last_by_id, add_chat, activate, paint_thread, switch_chat, new_chat, close_chat,
  finish_assistant,
}
use mikrollm.Chat.Store.View.{skeleton, addr, IsProper, IsConsistent, snapshot_chat-Same_missing}
use mikrollm.Chat.Store.Inv.{addr-select, IsProper-select}
use mikrollm.Chat.Store.Edits.{finish_assistant-Edited}
use mikrollm.Chat.Store.Steps.Close.{last?-addr, last?-none, last?-nonempty}
use mikrollm.Chat.Session.{lock_shown, remaining, lock_closed, lock_ended}
use mikrollm.Chat.Session.Status.{
  status, found_status, status-there, status-select, status-last_by_id, status-snapshot_chat,
  status-persist, status-new_chat, status-switch_chat, status-finish_assistant,
}

-- The active chat is there, and the input is locked if it is busy.
abbrev pub Mirrors : Bool → App → Type 0
Mirrors locked s = status s.active s.chats ≡ some locked

-- The statuses after a chat is closed; a fresh chat that is not busy replaces the sole chat.
abbrev pub close_status : Bool → Text → Text → (Text → Option Bool) → Text → Option Bool
close_status sole fresh id st j =
    if sole then (if j == fresh then some false else none) else if j == id then none else st j

status_nil : (id : Text) (cs : List Chat) → cs ≡ [] → status id cs ≡ none
unfolding status
status_nil id cs e = rw e refl

module _ (takes : Bag → Bool) where
  active-store : (s : App) → (store takes s).active ≡ s.active
  unfolding store
  active-store s = ground arith

  pub active-persist : (s : App) → (persist takes s).active ≡ s.active
  unfolding persist snapshot_chat
  active-persist s = active-store (snapshot_chat s)

  module _ (s : App) (id : Text) (locked : Bool)
      (proper : IsProper s.next (skeleton (snapshot_chat s).chats)) where
    status_last : status id s.chats ≡ found_status (last_by_id id (snapshot_chat s).chats)
    status_last =
        sym (status-snapshot_chat id s) ∙ status-last_by_id s.next id (snapshot_chat s).chats proper

    opened_Mirrors :
        (c : Chat)
        → last_by_id id (snapshot_chat s).chats ≡ some c
        → Mirrors c.busy (persist takes (paint_thread (activate id c (snapshot_chat s))))
    opened_Mirrors c there =
        let t = paint_thread (activate id c (snapshot_chat s)) in
        ap (λ k. status k (persist takes t).chats) (active-persist t)
        ∙ status-persist takes id t
        ∙ status-snapshot_chat id s
        ∙ status_last
        ∙ rw there refl

    -- A switch to another chat that is there, from whatever chat.
    pub switch_chat-Mirrors_there :
        (b : Bool)
        → (id == s.active) ≡ false
        → status id s.chats ≡ some b
        → Mirrors (lock_shown id s locked) (switch_chat takes id s)
    unfolding switch_chat lock_shown
    switch_chat-Mirrors_there b other e =
        elim (Option-cases (last_by_id id (snapshot_chat s).chats)) [
          | inl missing ↦
              let gone : found_status (last_by_id id (snapshot_chat s).chats) ≡ none =
                rw missing refl in
              absurd (cc (sym e ∙ status_last ∙ gone))
          | inr (c, there) ↦ rw (other, there) (opened_Mirrors c there)
        ]

    -- A switch to any chat.
    pub switch_chat-Mirrors :
        Mirrors locked s → Mirrors (lock_shown id s locked) (switch_chat takes id s)
    unfolding switch_chat lock_shown snapshot_chat
    switch_chat-Mirrors m = elim (Bool-cases (id == s.active)) [
      | inl y ↦ rw y m
      | inr n ↦ elim (Option-cases (last_by_id id (snapshot_chat s).chats)) [
        | inl missing ↦ rw (n, missing) (status-snapshot_chat s.active s ∙ m)
        | inr (c, there) ↦ rw (n, there) (opened_Mirrors c there)
      ]
    ]

  pub new_chat-Mirrors :
      (id : Text) (s : App) → status id s.chats ≡ none → Mirrors false (new_chat takes id s)
  unfolding new_chat add_chat
  new_chat-Mirrors id s fresh =
      ap (λ k. status k (new_chat takes id s).chats) (active-persist (add_chat id s))
      ∙ status-new_chat takes id id s fresh
      ∙ rw (eq_refl id) refl

  module _ (s : App) (h : IsConsistent s) (locked : Bool) (fresh id : Text) where
    IsProper-remaining : IsProper s.next (skeleton (remaining id s).chats)
    IsProper-remaining = IsProper-select s.next id s.chats h.proper

    IsProper-shown :
        (s.active == id) ≡ true → IsProper s.next (skeleton (snapshot_chat (remaining id s)).chats)
    unfolding snapshot_chat
    IsProper-shown y =
        let gone : addr s.active (skeleton (remaining id s).chats) ≡ none =
          ground (arith, addr-select s.active id s.chats) in
        rw ((snapshot_chat-Same_missing (remaining id s) gone).skeleton_eq) IsProper-remaining

    shown_Mirrors :
        (c : Chat)
        → last? (remaining id s).chats ≡ some c
        → (s.active == id) ≡ true
        → Mirrors
            (lock_shown c.id (remaining id s) locked)
            (switch_chat takes c.id (remaining id s))
    shown_Mirrors c l y =
        let (a, found) = last?-addr (remaining id s).chats c l in
        let (b, there) = status-there c.id a (remaining id s).chats found in
        let other : (c.id == s.active) ≡ false =
          ground (arith, eq_iff c.id s.active, eq_iff s.active id, addr-select c.id id s.chats) in
        switch_chat-Mirrors_there (remaining id s) c.id locked (IsProper-shown y) b other there

    pub close_chat-Mirrors :
        Mirrors locked s → Mirrors (lock_closed id s locked) (close_chat takes fresh id s)
    unfolding close_chat lock_closed
    close_chat-Mirrors m = elim (Option-cases (last? (remaining id s).chats)) [
      | inl nothing ↦
          rw (nothing, close_chat, lock_closed)
            (new_chat-Mirrors fresh (remaining id s)
              (status_nil fresh (remaining id s).chats (last?-none (remaining id s).chats nothing)))
      | inr (c, l) ↦
          rw (l, close_chat, lock_closed)
            (elim (Bool-cases (s.active == id)) [
              | inl y ↦ rw y (shown_Mirrors c l y)
              | inr n ↦ rw n (
                  ap (λ k. status k (persist takes (remaining id s)).chats)
                    (active-persist (remaining id s))
                  ∙ status-persist takes s.active (remaining id s)
                  ∙ status-select s.active id s.chats
                  ∙ rw n m)
            ])
    ]

    pub status-close_chat :
        (j : Text)
        → status j (close_chat takes fresh id s).chats
          ≡ close_status (is_empty (remaining id s).chats) fresh id (λ k. status k s.chats) j
    unfolding close_chat
    status-close_chat j = elim (Option-cases (last? (remaining id s).chats)) [
      | inl nothing ↦
          let e = last?-none (remaining id s).chats nothing in
          rw (nothing, close_chat)
            (status-new_chat takes j fresh (remaining id s) (status_nil fresh _ e)
              ∙ rw (status_nil j (remaining id s).chats e) (rw e refl))
      | inr (c, l) ↦
          rw (l, close_chat)
            (rw (last?-nonempty (remaining id s).chats c l) (elim (Bool-cases (s.active == id)) [
              | inl y ↦
                  rw y
                    (status-switch_chat takes j c.id (remaining id s) ∙ status-select j id s.chats)
              | inr n ↦ rw n (status-persist takes j (remaining id s) ∙ status-select j id s.chats)
            ]))
    ]

    finish_missing : (f : Fields) → chat_by_id id s.chats ≡ none → finish_assistant takes id f s ≡ s
    unfolding finish_assistant
    finish_missing f missing = rw (missing, finish_assistant) refl

    pub finish_assistant-Mirrors :
        (f : Fields)
        → Mirrors locked s
        → Mirrors (lock_ended id s locked) (finish_assistant takes id f s)
    unfolding lock_ended
    finish_assistant-Mirrors f m = elim (Option-cases (chat_by_id id s.chats)) [
      | inl missing ↦ rw (missing, lock_ended, finish_missing f missing) m
      | inr (c, there) ↦
          rw (there, lock_ended)
            (ap (λ k. status k (finish_assistant takes id f s).chats)
                ((finish_assistant-Edited takes s h id f c there).active_eq)
              ∙ status-finish_assistant takes s.active id f s
              ∙ ground (arith, m, eq_iff id s.active, eq_iff s.active id))
    ]
