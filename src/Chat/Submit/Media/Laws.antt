-- ===== src/Chat/Submit/Media/Laws.antt =====
-- How a request for a picture or a film ends: `runMedia`.
use mikrollm.Base.{ℕ, ◌+◌, ◌≡◌, refl, ◌∙◌, true, false, List, arith}
use mikrollm.Base.Text.{Text}
use mikrollm.Chat.{Mode, chat, image, video}
use mikrollm.Chat.Poll.{
  Job, Moment, Outcome, waiting, done, abort_error, timed_out, fatal, Poll, poll_image, poll_video,
}
use mikrollm.Chat.Poll.Finishes.{finishes, finishes_at, finishes-append, finishes-poll}
use mikrollm.Chat.Submit.Media.{
  Response, stopped, lost, answered, show_image, on_image, on_video, on_answer, on_response,
  last_words, run_media,
}

-- One for a request that has come to an end, with a result or an error, and none for one that waits.
abbrev pub ends : Outcome → ℕ
ends waiting = 0
ends _ = 1

-- A poll that finishes the answer once if it is done, and not otherwise.
abbrev IsFair : Poll → Type 0
IsFair p = finishes p.said ≡ finishes_at p.outcome

module _ (to_lower : Text → Text) (digits : ℕ → Text) (content_url : Text → Text)
    (chat_id : Text) where
  show_image-IsFair :
      (j : Job) (json : Text) → IsFair (show_image to_lower digits content_url chat_id j json)
  unfolding show_image
  show_image-IsFair j json = ground arith

  on_image-IsFair :
      (id : Text) (j : Job) (json : Text) (ms : List Moment)
      → IsFair (on_image to_lower digits content_url chat_id id j json ms)
  unfolding on_image
  on_image-IsFair id j json ms =
      ground (arith, show_image-IsFair j json, finishes-poll to_lower digits poll_image chat_id ms)

  on_video-IsFair :
      (id : Text) (j : Job) (ms : List Moment)
      → IsFair (on_video to_lower digits content_url chat_id id j ms)
  unfolding on_video
  on_video-IsFair id j ms =
      ground (arith, finishes-poll to_lower digits (poll_video id (content_url id)) chat_id ms)

  on_answer-IsFair :
      (mode : Mode) (id : Text) (j : Job) (json : Text) (ms : List Moment)
      → IsFair (on_answer to_lower digits content_url chat_id mode id j json ms)
  unfolding on_answer
  on_answer-IsFair chat id j json ms = on_video-IsFair id j ms
  on_answer-IsFair image id j json ms = on_image-IsFair id j json ms
  on_answer-IsFair video id j json ms = on_video-IsFair id j ms

  on_response-IsFair :
      (mode : Mode) (r : Response) (ms : List Moment)
      → IsFair (on_response to_lower digits content_url chat_id mode r ms)
  unfolding on_response
  on_response-IsFair mode stopped ms = refl
  on_response-IsFair mode (lost t) ms = refl
  on_response-IsFair mode (answered true id j json) ms = on_answer-IsFair mode id j json ms
  on_response-IsFair mode (answered false id j json) ms = refl

  ends-last_words :
      (mode : Mode) (o : Outcome)
      → finishes_at o + finishes (last_words to_lower digits content_url chat_id mode o) ≡ ends o
  unfolding last_words
  ends-last_words mode waiting = refl
  ends-last_words mode done = refl
  ends-last_words mode abort_error = refl
  ends-last_words mode timed_out = refl
  ends-last_words mode (fatal t) = refl

-- Whatever a request for a picture or a film leads to, and whatever its poll finds, it finishes the
-- answer of its chat exactly once when it has come to an end, be it with a result, an abort, a
-- refusal, an error or the time limit, and not at all while its poll is still waiting.
pub finishes-run_media :
    (to_lower : Text → Text) (digits : ℕ → Text) (content_url : Text → Text) (chat_id : Text)
    (mode : Mode) (r : Response) (ms : List Moment)
    → finishes (run_media to_lower digits content_url chat_id mode r ms)
      ≡ ends (on_response to_lower digits content_url chat_id mode r ms).outcome
unfolding run_media
finishes-run_media to_lower digits content_url chat_id mode r ms =
    let p = on_response to_lower digits content_url chat_id mode r ms in
    finishes-append p.said (last_words to_lower digits content_url chat_id mode p.outcome)
    ∙ rw (on_response-IsFair to_lower digits content_url chat_id mode r ms)
        (ends-last_words to_lower digits content_url chat_id mode p.outcome)
