-- ===== src/Chat/Submit/Media/Settles.antt =====
-- What the actions of a request for a picture or a film come to on the chats of the page: `runMedia`
-- over `setPendingText`, `finishAssistant` and `renderChatQueue`.
use mikrollm.Base.{
  both_true, ℕ, ◌≡◌, refl, sym, ◌∙◌, Bool, true, false, ◌&&◌, List, [], ◌∷◌, ◌++◌, if◌then◌else◌,
  ◌==◌, text_eq, eq_iff, eq_refl, arith, Bool-cases, inl, inr,
}
use mikrollm.Base.Text.{Text, is_empty}
use mikrollm.Chat.{Message, Mode, chat, image, video}
use mikrollm.Chat.Store.{Bag, App}
use mikrollm.Chat.Store.View.{IsConsistent, thread}
use mikrollm.Chat.Store.Steps.{
  Action, switch, start, close, busy, pending, finish, push, step, step_lem, at_id, waiting_text,
}
use mikrollm.Chat.Store.Ops.{Fields, finish_messages, set_pending_text, finish_assistant}
use mikrollm.Chat.Poll.{
  Job, Moment, Outcome, waiting, done, abort_error, timed_out, fatal, Poll, poll_image, poll_video,
  video_job_status,
}
use mikrollm.Chat.Poll.Ends.{is_over}
use mikrollm.Chat.Poll.Rounds.{own, closed, is_done, own-append, closed-append, Rounds, poll-Rounds}
use mikrollm.Chat.Panels.Queue.{listed, listed-finish_assistant}
use mikrollm.Chat.Submit.Media.{
  Response, stopped, lost, answered, show_image, is_open_job, on_image, on_video, on_answer,
  on_response, last_words, run_media,
}

module _ (to_lower : Text → Text) (digits : ℕ → Text) (content_url : Text → Text) (id : Text) where
  abbrev IsRound : Poll → Type 0
  IsRound p = Rounds id (is_done p.outcome) p.said

  show_image-IsRound :
      (j : Job) (json : Text) → IsRound (show_image to_lower digits content_url id j json)
  unfolding show_image
  show_image-IsRound j json = ground (arith, eq_refl id)

  on_image-IsRound :
      (job : Text) (j : Job) (json : Text) (ms : List Moment)
      → IsRound (on_image to_lower digits content_url id job j json ms)
  unfolding on_image
  on_image-IsRound job j json ms =
      elim (Bool-cases (is_open_job (video_job_status to_lower j) job j)) [
        | inl y ↦
            let (mine, last) = poll-Rounds to_lower digits poll_image id ms in
            rw y (ground (arith, eq_refl id, mine), last)
        | inr n ↦ rw n (show_image-IsRound j json)
      ]

  on_video-IsRound :
      (job : Text) (j : Job) (ms : List Moment)
      → IsRound (on_video to_lower digits content_url id job j ms)
  unfolding on_video
  on_video-IsRound job j ms = elim (Bool-cases (is_empty job)) [
    | inl y ↦ rw y (refl, refl)
    | inr n ↦
        let (mine, last) = poll-Rounds to_lower digits (poll_video job (content_url job)) id ms in
        rw n (ground (arith, eq_refl id, mine), last)
  ]

  on_response-IsRound :
      (mode : Mode) (r : Response) (ms : List Moment)
      → IsRound (on_response to_lower digits content_url id mode r ms)
  unfolding on_response on_answer
  on_response-IsRound mode stopped ms = (refl, refl)
  on_response-IsRound mode (lost t) ms = (refl, refl)
  on_response-IsRound mode (answered false job j json) ms = (refl, refl)
  on_response-IsRound chat (answered true job j json) ms = on_video-IsRound job j ms
  on_response-IsRound image (answered true job j json) ms = on_image-IsRound job j json ms
  on_response-IsRound video (answered true job j json) ms = on_video-IsRound job j ms

  spoken :
      (f : Fields) (acts : List Action)
      → own id acts ≡ true
      → Rounds id true (acts ++ finish id f ∷ [])
  spoken f acts mine = (
    own-append id acts (finish id f ∷ []) ∙ ground (arith, mine, eq_refl id),
    closed-append false acts (finish id f ∷ []),
  )

  -- The last words make an end of every outcome but waiting.
  with_last_words :
      (mode : Mode) (o : Outcome) (acts : List Action)
      → Rounds id (is_done o) acts
      → Rounds id (is_over o) (acts ++ last_words to_lower digits content_url id mode o)
  unfolding last_words
  with_last_words mode waiting acts (mine, last) =
      (own-append id acts [] ∙ ground (arith, mine), closed-append false acts [] ∙ last)
  with_last_words mode done acts (mine, last) =
      (own-append id acts [] ∙ ground (arith, mine), closed-append false acts [] ∙ last)
  with_last_words mode abort_error acts (mine, last) = spoken _ acts mine
  with_last_words mode timed_out acts (mine, last) = spoken _ acts mine
  with_last_words mode (fatal t) acts (mine, last) = spoken _ acts mine

  run_media-Rounds :
      (mode : Mode) (r : Response) (ms : List Moment)
      → Rounds id
          (is_over (on_response to_lower digits content_url id mode r ms).outcome)
          (run_media to_lower digits content_url id mode r ms)
  unfolding run_media
  run_media-Rounds mode r ms = with_last_words mode _ _ (on_response-IsRound mode r ms)

-- The page after a list of actions.
unfoldable pub play : (Bag → Bool) → List Action → App → App
play takes [] s = s
play takes (a ∷ acts) s = play takes acts (step takes a s)

-- What actions on one chat come to: the playground is consistent, the messages of another chat are
-- those of before, and once the last action is an end the queue does not list the chat.
abbrev pub Settles : (Text → Text) → Text → Text → Bool → App → App → Type 0
Settles to_lower id j over s t =
    IsConsistent t
    × (((if j == id then thread s j else thread t j) ≡ thread s j)
        × ((over && listed to_lower id t) ≡ false))

kept_here :
    {A : Type 0} (b : Bool) (s t u changed : A)
    → (if b then t else u) ≡ t
    → t ≡ (if b then changed else s)
    → (if b then s else u) ≡ s
kept_here true s t u changed later now = refl
kept_here false s t u changed later now = later ∙ now

-- Actions after a first one on the same chat.
Settles-next :
    (to_lower : Text → Text) (id j i : Text) (f : List Message → List Message) (over : Bool)
    (s t u : App)
    → i ≡ id
    → thread t j ≡ at_id i f (thread s) j
    → Settles to_lower id j over t u
    → Settles to_lower id j over s u
Settles-next to_lower id j i f over s t u same moved (still, (kept, off)) =
    let before = rw same at moved in (still, (kept_here (j == id) _ _ _ _ kept before, off))

module _ (takes : Bag → Bool) (to_lower : Text → Text) (id j : Text) where
  pub play-Settles :
      (acts : List Action) (over : Bool) (s : App)
      → own id acts ≡ true
      → IsConsistent s
      → (over && listed to_lower id s) ≡ false
      → Settles to_lower id j (closed over acts) s (play takes acts s)
  unfolding play step
  play-Settles [] over s mine h off = (h, (ground arith, off))
  play-Settles (pending i t ∷ acts) over s mine h off =
      let (here, rest) = both_true (i == id) (own id acts) mine in
      let (still, moved) = step_lem takes (pending i t) s h tt in
      Settles-next to_lower id j i (waiting_text t) _ s (set_pending_text i t s) _
        ((eq_iff i id).0 here) (moved j)
        (play-Settles acts false (set_pending_text i t s) rest still refl)
  play-Settles (finish i f ∷ acts) over s mine h off =
      let (here, rest) = both_true (i == id) (own id acts) mine in
      let same = (eq_iff i id).0 here in
      let (still, moved) = step_lem takes (finish i f) s h tt in
      let gone = listed-finish_assistant takes to_lower i id f s h in
      Settles-next to_lower id j i (finish_messages f) _ s (finish_assistant takes i f s) _ same
        (moved j)
        (play-Settles acts true (finish_assistant takes i f s) rest still
          (ground (arith, gone, same, eq_refl id)))
  play-Settles (switch i ∷ acts) over s mine h off = absurd (cc mine)
  play-Settles (start i ∷ acts) over s mine h off = absurd (cc mine)
  play-Settles (close i i' ∷ acts) over s mine h off = absurd (cc mine)
  play-Settles (busy i b ∷ acts) over s mine h off = absurd (cc mine)
  play-Settles (push i i' ∷ acts) over s mine h off = absurd (cc mine)

-- Whatever a request for a picture or a film of a chat leads to, and whatever its poll finds, its
-- actions on a consistent playground leave it consistent and leave the messages of every other chat
-- alone; and once the request has come to an end, with whatever outcome, the queue of generations
-- does not list its chat.
pub run_media-Settles :
    (takes : Bag → Bool) (to_lower : Text → Text) (digits : ℕ → Text) (content_url : Text → Text)
    (id j : Text) (mode : Mode) (r : Response) (ms : List Moment) (s : App)
    → IsConsistent s
    → Settles to_lower id j
        (is_over (on_response to_lower digits content_url id mode r ms).outcome)
        s
        (play takes (run_media to_lower digits content_url id mode r ms) s)
run_media-Settles takes to_lower digits content_url id j mode r ms s h =
    let (mine, last) = run_media-Rounds to_lower digits content_url id mode r ms in
    let after =
      play-Settles takes to_lower id j (run_media to_lower digits content_url id mode r ms) false s
        mine h refl in
    rw (sym last) after
