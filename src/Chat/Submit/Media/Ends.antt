-- ===== src/Chat/Submit/Media/Ends.antt =====
-- A request for a picture or a film ends: `runMedia` with the time limits of its polls.
use mikrollm.Base.{
  ℕ, ◌<◌, ◌≡◌, refl, ◌∙◌, true, false, List, ◌++◌, All, length, arith, Bool-cases, inl, inr,
}
use mikrollm.Base.Text.{Text, is_empty}
use mikrollm.Chat.{Mode, chat, image, video}
use mikrollm.Chat.Poll.{
  Job, Moment, Outcome, waiting, done, abort_error, timed_out, fatal, poll_image, poll_video,
  video_job_status,
}
use mikrollm.Chat.Poll.Finishes.{finishes}
use mikrollm.Chat.Poll.Ends.{is_over, poll_ends}
use mikrollm.Chat.Submit.Media.{
  Response, stopped, lost, answered, is_open_job, show_image, on_image, on_video, on_answer,
  on_response, run_media,
}
use mikrollm.Chat.Submit.Media.Laws.{ends, finishes-run_media}

-- The milliseconds after which the page gives up: 20 minutes for a picture, 45 for a film.
abbrev pub patience : Mode → ℕ
patience image = 1200000
patience _ = 2700000

module _ (to_lower : Text → Text) (digits : ℕ → Text) (content_url : Text → Text) (id : Text)
    (early late : List Moment) (enough : length early < length late) where
  on_image_ends :
      (job : Text) (j : Job) (json : Text)
      → All (λ (m : Moment). patience image < m.elapsed) late
      → is_over (on_image to_lower digits content_url id job j json (early ++ late)).outcome ≡ true
  unfolding on_image poll_image show_image
  on_image_ends job j json p = elim (Bool-cases (is_open_job (video_job_status to_lower j) job j)) [
    | inl y ↦ rw y (poll_ends to_lower digits poll_image id early late p enough)
    | inr n ↦ rw n (ground arith)
  ]

  on_video_ends :
      (job : Text) (j : Job)
      → All (λ (m : Moment). patience video < m.elapsed) late
      → is_over (on_video to_lower digits content_url id job j (early ++ late)).outcome ≡ true
  unfolding on_video poll_video
  on_video_ends job j p = elim (Bool-cases (is_empty job)) [
    | inl y ↦ rw y refl
    | inr n ↦
        rw n (poll_ends to_lower digits (poll_video job (content_url job)) id early late p enough)
  ]

  on_response_ends :
      (mode : Mode) (r : Response)
      → All (λ (m : Moment). patience mode < m.elapsed) late
      → is_over (on_response to_lower digits content_url id mode r (early ++ late)).outcome ≡ true
  unfolding on_response on_answer
  on_response_ends mode stopped p = refl
  on_response_ends mode (lost t) p = refl
  on_response_ends mode (answered false job j json) p = refl
  on_response_ends chat (answered true job j json) p = on_video_ends job j p
  on_response_ends image (answered true job j json) p = on_image_ends job j json p
  on_response_ends video (answered true job j json) p = on_video_ends job j p

over-ends : (o : Outcome) → is_over o ≡ true → ends o ≡ 1
over-ends waiting h = absurd (cc h)
over-ends done h = refl
over-ends abort_error h = refl
over-ends timed_out h = refl
over-ends (fatal t) h = refl

-- A request for a picture or a film ends, whatever the server answers, even if every answer leaves
-- the job undecided: when it has made more ticks past its time limit than before it, the answer of
-- its chat has been finished, and only once.
pub run_media-ends :
    (to_lower : Text → Text) (digits : ℕ → Text) (content_url : Text → Text) (id : Text)
    (mode : Mode) (r : Response) (early late : List Moment)
    → length early < length late
    → All (λ (m : Moment). patience mode < m.elapsed) late
    → finishes (run_media to_lower digits content_url id mode r (early ++ late)) ≡ 1
run_media-ends to_lower digits content_url id mode r early late enough p =
    finishes-run_media to_lower digits content_url id mode r (early ++ late)
    ∙ over-ends (on_response to_lower digits content_url id mode r (early ++ late)).outcome
        (on_response_ends to_lower digits content_url id early late enough mode r p)
