-- ===== src/Chat/Session/Starts.antt =====
-- What a submission and the button "Ещё раз" do to the statuses of the chats.
use mikrollm.Base.{◌≡◌, refl, ◌∙◌, Option, Bool, true, false, if◌then◌else◌, text_eq, arith}
use mikrollm.Base.Text.{Text, trim}
use mikrollm.Chat.{Mode}
use mikrollm.Chat.Store.{Chat, Bag, App}
use mikrollm.Chat.Store.Ops.{set_chat_busy, push_pair}
use mikrollm.Chat.Submit.{
  Sent, ignored, refused, sent, media_mode, prompt_of, waiting, running_as, start_as, begin,
  try_send, submit,
}
use mikrollm.Chat.Submit.Again.{asked_again, again}
use mikrollm.Chat.Session.Status.{
  status, set_status, status-update_chat, status-set_chat_busy, status-persist, status-push_pair,
}
use mikrollm.Chat.Session.Lock.{active-persist}

status-start_as :
    (j : Text) (m : Mode) (s : App)
    → status j (start_as m s).chats ≡ set_status s.active true j (status j s.chats)
unfolding start_as
status-start_as j m s =
    status-update_chat j s.active (running_as m) (set_chat_busy s.active true s).chats
      (λ c. (refl, refl))
    ∙ status-set_chat_busy j s.active true s

status-begin :
    (j : Text) (m : Mode) (s : App)
    → status j (begin m s).chats ≡ set_status s.active true j (status j s.chats)
unfolding begin
status-begin j m s = status-start_as j m s

status-media_mode : (j : Text) (s : App) → status j (media_mode s).chats ≡ status j s.chats
unfolding media_mode
status-media_mode j s = ground arith

active-media_mode : (s : App) → (media_mode s).active ≡ s.active
unfolding media_mode
active-media_mode s = ground arith

-- The statuses after a submission: one that ends in a request marks the active chat.
abbrev pub sent_status : Text → Sent → (Text → Option Bool) → Text → Option Bool
sent_status active ignored st j = st j
sent_status active refused st j = st j
sent_status active (sent m prompt) st j = set_status active true j (st j)

abbrev Marks : App → App × Sent → Type 0
Marks s r = (j : Text) → status j r.0.chats ≡ sent_status s.active r.1 (λ k. status k s.chats) j

Marks-if :
    (s : App) (b : Bool) (r q : App × Sent) → Marks s r → Marks s q → Marks s (if b then r else q)
Marks-if s true r q hr hq = hr
Marks-if s false r q hr hq = hq

Marks-after :
    (s t : App) (r : App × Sent)
    → t.active ≡ s.active
    → ((j : Text) → status j t.chats ≡ status j s.chats)
    → Marks t r
    → Marks s r
Marks-after s t (u, ignored) active same h = λ j. h j ∙ same j
Marks-after s t (u, refused) active same h = λ j. h j ∙ same j
Marks-after s t (u, sent m prompt) active same h = λ j. h j ∙ rw (active, same j) refl

module _ (takes : Bag → Bool) where
  active-push_pair : (text note : Text) (s : App) → (push_pair takes text note s).active ≡ s.active
  unfolding push_pair
  active-push_pair text note s = active-persist takes _

  module _ (needs_image : Bool) where
    begin-Marks :
        (m : Mode) (text : Text) (s : App)
        → Marks s (begin m (push_pair takes text waiting s), sent m text)
    begin-Marks m text s j =
        status-begin j m (push_pair takes text waiting s)
        ∙ rw (active-push_pair text waiting s, status-push_pair takes j text waiting s) refl

    try_send-Marks : (text : Text) (s : App) → Marks s (try_send takes needs_image text s)
    unfolding try_send
    try_send-Marks text s =
        Marks-if s _ (s, ignored) _ (λ j. refl)
          (Marks-if s _ (s, refused) _ (λ j. refl) (begin-Marks s.composer.mode (prompt_of text) s))

    pub submit-Marks : (raw : Text) (s : App) → Marks s (submit takes needs_image raw s)
    unfolding submit
    submit-Marks raw s =
        Marks-if s _ (s, ignored) _ (λ j. refl)
          (Marks-after s (media_mode s) (try_send takes needs_image (trim raw) (media_mode s))
            (active-media_mode s) (λ j. status-media_mode j s)
            (try_send-Marks (trim raw) (media_mode s)))

  active-asked_again : (c : Chat) (s : App) → (asked_again takes c s).active ≡ s.active
  unfolding asked_again
  active-asked_again c s = active-persist takes _

  status-asked_again :
      (j : Text) (c : Chat) (s : App) → status j (asked_again takes c s).chats ≡ status j s.chats
  unfolding asked_again
  status-asked_again j c s = status-persist takes j _

  pub status-again :
      (j : Text) (kind : Mode) (c : Chat) (s : App)
      → status j (again takes kind c s).chats ≡ set_status s.active true j (status j s.chats)
  unfolding again
  status-again j kind c s =
      status-start_as j kind (asked_again takes c s)
      ∙ rw (active-asked_again c s, status-asked_again j c s) refl
