-- ===== src/Chat/Submit/Laws.antt =====
-- What a submission does to the chats, on each way that it ends: `submit`.
use mikrollm.Base.{
  ◌≡◌, refl, subst, ◌∙◌, Bool, true, false, not, ◌&&◌, ◌||◌, List, if◌then◌else◌, text_eq, arith,
  Bool-cases, inl, inr,
}
use mikrollm.Base.Text.{Text, lit, is_empty, trim}
use mikrollm.Chat.{Mode}
use mikrollm.Chat.Models.{media_kind, model_value, option_media, is_chat, filter_models}
use mikrollm.Chat.Store.{Bag, App}
use mikrollm.Chat.Store.Ops.{set_chat_busy, push_pair}
use mikrollm.Chat.Store.View.{
  IsConsistent, thread, Same, Same-trans, Same-IsConsistent, Same-thread, skeleton-update_chat,
}
use mikrollm.Chat.Store.Edits.{set_chat_busy-Same, push_pair-Edited}
use mikrollm.Chat.Store.Steps.{Threads, at_id, asked, push_lem}
use mikrollm.Chat.Submit.{
  Sent, ignored, refused, sent, media_mode, prompt_of, waiting, running_as, start_as, begin,
  try_send, submit,
}

-- What becomes of the threads: a request adds the question and a waiting answer to the active chat.
abbrev pub sent_threads : Text → Sent → Threads → Threads
sent_threads active ignored th j = th j
sent_threads active refused th j = th j
sent_threads active (sent m prompt) th j = at_id active (asked prompt waiting) th j

-- What a submission does right.
abbrev pub Submits : App → App × Sent → Type 0
Submits s r =
    IsConsistent r.0
    × (r.0.active ≡ s.active)
    × ((j : Text) → thread r.0 j ≡ sent_threads s.active r.1 (thread s) j)

media_mode-Same : (s : App) → Same s (media_mode s)
unfolding media_mode
media_mode-Same s = ground arith

pub start_as-Same : (m : Mode) (s : App) → Same s (start_as m s)
unfolding start_as
start_as-Same m s = Same-trans (set_chat_busy-Same s.active true s) (record {
  skeleton_eq =
      skeleton-update_chat s.active (running_as m) (set_chat_busy s.active true s).chats
        (λ c. (refl, refl));
  active_eq = refl;
  messages_eq = refl;
  heap_eq = refl;
  next_eq = refl;
})

begin-Same : (m : Mode) (s : App) → Same s (begin m s)
unfolding begin
begin-Same m s = Same-trans (start_as-Same m s) (record {
  skeleton_eq = refl;
  active_eq = refl;
  messages_eq = refl;
  heap_eq = refl;
  next_eq = refl;
})

Submits-stay : (s : App) → IsConsistent s → Submits s (s, ignored)
Submits-stay s h = (h, refl, λ j. refl)

-- The mode of a request: a model for pictures or films changes the mode of a chat to its own.
abbrev pub request_mode : App → Mode
request_mode s =
    let kind = media_kind (option_media s.composer) in
    if not (is_chat kind) && is_chat s.composer.mode then kind else s.composer.mode

-- Neither a text nor, for a picture or a film, a reference.
abbrev pub is_blank : Text → List Text → Mode → Bool
is_blank text refs m = is_empty text && (is_empty refs || is_chat m)

-- A picture or a film without the reference that its model needs.
abbrev pub lacks_ref : Bool → List Text → Mode → Bool
lacks_ref needs_image refs m = not (is_chat m) && (needs_image && is_empty refs)

-- How a submission has to end: for whether there is no model, for the text and for the references, in
-- the mode of the request.
abbrev pub Ends : Bool → Bool → Text → List Text → Mode → Sent → Type 0
Ends needs_image no_model text refs m ignored = (no_model || is_blank text refs m) ≡ true
Ends needs_image no_model text refs m refused =
    ((no_model || is_blank text refs m) ≡ false) × (lacks_ref needs_image refs m ≡ true)
Ends needs_image no_model text refs m (sent k prompt) =
    ((no_model || is_blank text refs m) ≡ false)
    × (lacks_ref needs_image refs m ≡ false)
    × (k ≡ m)
    × (prompt ≡ (if is_empty text then lit "по референсам" else text))

Submits-if :
    (s : App) (b : Bool) (r q : App × Sent)
    → Submits s r
    → Submits s q
    → Submits s (if b then r else q)
Submits-if s true r q hr hq = hr
Submits-if s false r q hr hq = hq

-- A submission after a change that keeps the threads.
Submits-after : (s t : App) (r : App × Sent) → Same s t → Submits t r → Submits s r
unfolding thread
Submits-after s t (u, ignored) same (still, active, moved) =
    (still, active ∙ same.active_eq, λ j. moved j ∙ Same-thread same j)
Submits-after s t (u, refused) same (still, active, moved) =
    (still, active ∙ same.active_eq, λ j. moved j ∙ Same-thread same j)
Submits-after s t (u, sent m prompt) same (still, active, moved) =
    (still, active ∙ same.active_eq, λ j. moved j ∙ rw (same.active_eq, Same-thread same j) refl)

refs-media_mode : (s : App) → (media_mode s).composer.refs ≡ s.composer.refs
unfolding media_mode filter_models
refs-media_mode s = ground arith

mode-media_mode : (s : App) → (media_mode s).composer.mode ≡ request_mode s
unfolding media_mode filter_models
mode-media_mode s = ground arith

Ends-along :
    (needs no_model : Bool) (text : Text) {refs rs : List Text} {m k : Mode} (r : Sent)
    → refs ≡ rs
    → m ≡ k
    → Ends needs no_model text refs m r
    → Ends needs no_model text rs k r
Ends-along needs no_model text {refs} {rs} {m} {k} r e f h =
    subst (λ xs. Ends needs no_model text xs k r) e
      (subst (λ j. Ends needs no_model text refs j r) f h)

module _ (takes : Bag → Bool) (needs_image : Bool) where
  sent-Submits :
      (m : Mode) (text : Text) (s : App)
      → IsConsistent s
      → Submits s (begin m (push_pair takes text waiting s), sent m text)
  sent-Submits m text s h =
      let (still, moved) = push_lem takes s h text waiting in
      let same = begin-Same m (push_pair takes text waiting s) in
      (
        Same-IsConsistent same still,
        same.active_eq ∙ (push_pair-Edited takes s h text waiting).active_eq,
        λ j. Same-thread same j ∙ moved j,
      )

  try_send-Submits :
      (text : Text) (s : App) → IsConsistent s → Submits s (try_send takes needs_image text s)
  unfolding try_send
  try_send-Submits text s h =
      let m = s.composer.mode in
      Submits-if s _ (s, ignored) _ (Submits-stay s h)
        (Submits-if s _ (s, refused) _ (h, refl, λ j. refl) (sent-Submits m (prompt_of text) s h))

  try_send-Ends :
      (text : Text) (s : App)
      → Ends needs_image false text s.composer.refs s.composer.mode
          (try_send takes needs_image text s).1
  unfolding try_send
  try_send-Ends text s = elim (Bool-cases (is_blank text s.composer.refs s.composer.mode)) [
    | inl y ↦ rw (blank y) y
    | inr n ↦ elim (Bool-cases (lacks_ref needs_image s.composer.refs s.composer.mode)) [
      | inl y ↦ rw (present n, lacking y) (n, y)
      | inr fit ↦ rw (present n, fitting fit) (n, fit, refl, unfold prompt_of in refl)
    ]
  ]
    where
      blank :
          is_blank text s.composer.refs s.composer.mode ≡ true
          → (is_empty text && not (not (is_empty s.composer.refs) && not (is_chat s.composer.mode)))
            ≡ true
      blank y = ground (arith, y)

      present :
          is_blank text s.composer.refs s.composer.mode ≡ false
          → (is_empty text && not (not (is_empty s.composer.refs) && not (is_chat s.composer.mode)))
            ≡ false
      present n = ground (arith, n)

      lacking :
          lacks_ref needs_image s.composer.refs s.composer.mode ≡ true
          → (not (is_chat s.composer.mode) && (needs_image && not (not (is_empty s.composer.refs))))
            ≡ true
      lacking y = ground (arith, y)

      fitting :
          lacks_ref needs_image s.composer.refs s.composer.mode ≡ false
          → (not (is_chat s.composer.mode) && (needs_image && not (not (is_empty s.composer.refs))))
            ≡ false
      fitting n = ground (arith, n)

  -- Whatever the storage takes and the user typed, a submission on a consistent playground leaves it
  -- consistent with the same chat active. It is ignored only if no model is chosen, or if the trimmed
  -- text is empty and no references stand in for it (as they do for a picture or a film); it complains
  -- only of a picture or a film whose model needs a reference that is not there; and it sends in
  -- every other case and in no other, in the mode of the request (a model for pictures or films changes
  -- that of a chat), the trimmed text or, for references alone, the words that stand for it. If it
  -- sends, it adds that question and a waiting answer to the messages of the active chat; otherwise
  -- the messages of every chat stay.
  pub submit_lem :
      (raw : Text) (s : App)
      → IsConsistent s
      → Submits s (submit takes needs_image raw s)
        × Ends needs_image
            (is_empty (model_value s.composer))
            (trim raw)
            s.composer.refs
            (request_mode s)
            (submit takes needs_image raw s).1
  unfolding submit
  submit_lem raw s h =
      let same = media_mode-Same s in
      let t = media_mode s in
      elim (Bool-cases (is_empty (model_value s.composer))) [
        | inl y ↦ rw y (Submits-stay s h, refl)
        | inr n ↦ rw n (
          Submits-after s t (try_send takes needs_image (trim raw) t) same
              (try_send-Submits (trim raw) t (Same-IsConsistent same h)),
          Ends-along needs_image false (trim raw) _ (refs-media_mode s) (mode-media_mode s)
              (try_send-Ends (trim raw) t),
        )
      ]
