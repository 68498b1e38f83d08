-- ===== src/Chat/Session/Stop/Laws.antt =====
-- What the handlers of the playground do to the abort controllers of the chats, and what the
-- stop-button then aborts.
use mikrollm.Base.{
  ℕ, ◌+◌, ◌≡◌, refl, sym, ap, ◌∙◌, subst, Bool, true, false, List, [], ◌∷◌, if◌then◌else◌, ◌==◌,
  ◌!=◌, text_eq, eq_iff, Bool-cases, Option-cases, inl, inr, last?,
}
use mikrollm.Base.Text.{Text}
use mikrollm.Chat.Store.{
  Chat, PackedChat, Bag, App, chat_by_id, update_chat, take_snapshot, snapshot_chat, store, persist,
  write,
}
use mikrollm.Chat.Store.Ops.{
  Fields, last_by_id, idle, finish_messages, set_chat_busy, paint_thread, read_messages, made_chat,
  add_chat, switch_chat, new_chat, close_chat, set_pending_text, finish_assistant, edit_last,
  unpack,
}
use mikrollm.Chat.Submit.{media_mode}
use mikrollm.Chat.Session.{remaining}
use mikrollm.Chat.Session.Status.{chats-store}
use mikrollm.Chat.Session.Stop.{
  Paired, Paired-update_chat, update_chat-update_chat, Paired-select, Paired-append,
  Paired-snapshot_chat,
}

pub Paired-if :
    (b : Bool) (s t : App) → Paired s.chats → Paired t.chats → Paired (if b then s else t).chats
Paired-if true s t hs ht = hs
Paired-if false s t hs ht = ht

pub Paired-set_pending_text :
    (id text : Text) (s : App) → Paired s.chats → Paired (set_pending_text id text s).chats
unfolding set_pending_text
Paired-set_pending_text id text s h = elim (Option-cases (chat_by_id id s.chats)) [
  | inl missing ↦ rw (missing, set_pending_text) h
  | inr (c, there) ↦
      rw (there, set_pending_text)
        (elim (Option-cases
          (edit_last (λ m. record m { content = text; pending = true }) (s.heap c.messages))) [
            | inl e ↦ rw e h
            | inr (r, e) ↦ rw e h
          ])
]

pub Paired-media_mode : (s : App) → Paired s.chats → Paired (media_mode s).chats
unfolding media_mode
Paired-media_mode s h = Paired-if _ _ s h h

pub Paired-unpack : (a : ℕ) (ps : List PackedChat) → Paired (unpack a ps)
unfolding unpack
Paired-unpack a [] = tt
Paired-unpack a (p ∷ ps) = (refl, Paired-unpack (a + 1) ps)

chats_reset :
    (id : Text) (s u : App)
    → u.active ≡ id
    → u.chats ≡ update_chat id idle s.chats
    → (snapshot_chat u).chats ≡ update_chat id (λ c. take_snapshot u (idle c)) s.chats
unfolding snapshot_chat
chats_reset id s u active chats =
    ap (λ k. update_chat k (take_snapshot u) u.chats) active
    ∙ ap (update_chat id (take_snapshot u)) chats
    ∙ update_chat-update_chat id (take_snapshot u) idle s.chats (λ c. refl)

module _ (takes : Bag → Bool) where
  pub Paired-persist : (s : App) → Paired s.chats → Paired (persist takes s).chats
  unfolding persist
  Paired-persist s h =
      subst Paired (sym (chats-store takes (snapshot_chat s))) (Paired-snapshot_chat s h)

  pub Paired-switch_chat :
      (id : Text) (s : App) → Paired s.chats → Paired (switch_chat takes id s).chats
  unfolding switch_chat
  Paired-switch_chat id s h = elim (Bool-cases (id == s.active)) [
    | inl y ↦ rw y h
    | inr n ↦ elim (Option-cases (last_by_id id (snapshot_chat s).chats)) [
      | inl missing ↦ rw (n, missing) (Paired-snapshot_chat s h)
      | inr (c, there) ↦ rw (n, there) (Paired-persist _ (Paired-snapshot_chat s h))
    ]
  ]

  pub Paired-new_chat : (id : Text) (s : App) → Paired s.chats → Paired (new_chat takes id s).chats
  unfolding new_chat add_chat made_chat
  Paired-new_chat id s h =
      Paired-persist (add_chat id s)
        (Paired-append (snapshot_chat s).chats (made_chat id s) (Paired-snapshot_chat s h) refl)

  pub Paired-close_chat :
      (fresh id : Text) (s : App) → Paired s.chats → Paired (close_chat takes fresh id s).chats
  unfolding close_chat
  Paired-close_chat fresh id s h =
      let k = Paired-select (λ c. c.id != id) s.chats h in
      elim (Option-cases (last? (remaining id s).chats)) [
        | inl nothing ↦ rw (nothing, close_chat) (Paired-new_chat fresh (remaining id s) k)
        | inr (c, l) ↦
            rw (l, close_chat)
              (Paired-if (s.active == id) _ _ (Paired-switch_chat c.id (remaining id s) k)
                (Paired-persist (remaining id s) k))
      ]

  -- The end of `finishAssistant` for the chat that is shown, whose fields have been reset before.
  pub Paired-freed :
      (id : Text) (s u : App)
      → u.active ≡ id
      → u.chats ≡ update_chat id idle s.chats
      → Paired s.chats
      → Paired (set_chat_busy id false (paint_thread (read_messages id (persist takes u)))).chats
  unfolding set_chat_busy persist
  Paired-freed id s u active chats h =
      let reset : (store takes (snapshot_chat u)).chats
          ≡ update_chat id (λ c. take_snapshot u (idle c)) s.chats =
        chats-store takes (snapshot_chat u) ∙ chats_reset id s u active chats in
      subst Paired
        (sym (
          ap (update_chat id (λ c. record c { busy = false })) reset
          ∙ update_chat-update_chat id (λ c. record c { busy = false })
              (λ c. take_snapshot u (idle c)) s.chats (λ c. refl)))
        (Paired-update_chat id _ s.chats (λ c p. refl) h)

  pub Paired-finish_assistant :
      (id : Text) (f : Fields) (s : App)
      → Paired s.chats
      → Paired (finish_assistant takes id f s).chats
  unfolding finish_assistant
  Paired-finish_assistant id f s h = elim (Option-cases (chat_by_id id s.chats)) [
    | inl missing ↦ rw (missing, finish_assistant) h
    | inr (c, there) ↦
        rw (there, finish_assistant)
          (elim (Bool-cases (id == s.active)) [
            | inl y ↦ rw y (Paired-freed id s (ended c) (sym ((eq_iff id s.active).0 y)) refl h)
            | inr n ↦ rw n (Paired-persist (ended c) (idled c))
          ])
  ]
    where
      ended : Chat → App
      ended c = record s {
        heap = write c.messages (finish_messages f (s.heap c.messages)) s.heap;
        chats = update_chat id idle s.chats;
      }

      idled : (c : Chat) → Paired (ended c).chats
      idled c = Paired-update_chat id idle s.chats (λ d p. refl) h
