-- ===== src/Chat/Submit/Media.antt =====
-- The request of `runMedia` after its start: what its response leads to, the poll that it may begin,
-- and the `.catch` at its end.
pub mod Laws
pub mod Settles
pub mod Ends
use mikrollm.Base.{
  ℕ, zero, suc, Option, none, some, Bool, true, false, not, ◌&&◌, ◌||◌, List, [], ◌∷◌, ◌++◌,
  if◌then◌else◌, ◌==◌, text_eq,
}
use mikrollm.Base.Text.{Text, lit, is_empty, either}
use mikrollm.Chat.{Mode, chat, image, video}
use mikrollm.Chat.Store.Steps.{Action, pending, finish}
use mikrollm.Chat.Poll.{
  ErrorField, no_error, words, object, Job, Kind, Moment, Outcome, waiting, done, abort_error,
  timed_out, fatal, Poll, fields, image_src, video_job_status, queue_wait_text, poll_image,
  poll_video, poll,
}

-- What `fetch` leads to: it refuses because of the abort, or with a message of the browser (a body
-- that is no JSON included), or a response comes, with `r.ok`, the `id` of the job, its other fields
-- and its JSON text.
pub data Response : Type 0 where
  stopped : Response
  lost : Text → Response
  answered : Bool → Text → Job → Text → Response

-- `(x.j && x.j.error && x.j.error.message) || JSON.stringify(x.j) || "error"`
unfoldable pub refusal : ErrorField → Text → Text
unfolding lit
refusal no_error json = either json (lit "error")
refusal (words t) json = either json (lit "error")
refusal (object message json_of_error) json = either message (either json (lit "error"))

unfoldable pub has_picture : Job → Bool
has_picture j = elim j.first_datum [ none ↦ false | some _ ↦ true ]

unfoldable pub is_open_job : Text → Text → Job → Bool
unfolding lit
is_open_job st id j =
    not (is_empty id) && ((st == lit "queued" || st == lit "in_progress") && not (has_picture j))

abbrev ended : Outcome → List Action → Poll
ended o acts = record { outcome = o; waits = []; said = acts }

abbrev after_said : Action → Poll → Poll
after_said a p = record p { said = a ∷ p.said }

module _ (to_lower : Text → Text) (digits : ℕ → Text) (content_url : Text → Text)
    (chat_id : Text) where
  -- A picture that comes with the first response, or its JSON text if there is no file.
  unfoldable pub show_image : Job → Text → Poll
  unfolding lit
  show_image j json =
      if is_empty (image_src j.first_datum)
      then ended done (finish chat_id (fields json none none) ∷ [])
      else ended done (
          finish chat_id
            (fields (lit "Изображение сгенерировано.") (some (image_src j.first_datum)) none)
          ∷ [])

  unfoldable pub on_image : Text → Job → Text → List Moment → Poll
  unfolding lit
  on_image id j json ms =
      let st = video_job_status to_lower j in
      if is_open_job st id j
      then after_said (pending chat_id (queue_wait_text digits (lit "картинка") j st 0))
          (poll to_lower digits poll_image chat_id ms)
      else show_image j json

  -- `content_url` is the address of a film by the id of its job.
  unfoldable pub on_video : Text → Job → List Moment → Poll
  unfolding lit
  on_video id j ms =
      if is_empty id
      then ended (fatal (lit "провайдер не вернул id задачи")) []
      else after_said (pending chat_id (queue_wait_text digits (lit "видео " ++ id) j j.status 0))
          (poll to_lower digits (poll_video id (content_url id)) chat_id ms)

  unfoldable pub on_answer : Mode → Text → Job → Text → List Moment → Poll
  on_answer image id j json ms = on_image id j json ms
  on_answer _ id j json ms = on_video id j ms

  unfoldable pub on_response : Mode → Response → List Moment → Poll
  on_response mode stopped ms = ended abort_error []
  on_response mode (lost t) ms = ended (fatal t) []
  on_response mode (answered ok id j json) ms =
      if ok then on_answer mode id j json ms else ended (fatal (refusal j.error json)) []

  unfoldable pub timeout_text : Mode → Text
  unfolding lit
  timeout_text image = lit "картинка всё ещё не готова (ждали 20 мин)"
  timeout_text _ = lit "видео всё ещё не готово (ждали 45 мин)"

  -- The `.catch` at the end: an error ends the answer of the chat with its words.
  unfoldable pub last_words : Mode → Outcome → List Action
  unfolding lit
  last_words mode abort_error = finish chat_id (fields (lit "остановлено") none none) ∷ []
  last_words mode timed_out = finish chat_id (fields (timeout_text mode) none none) ∷ []
  last_words mode (fatal t) = finish chat_id (fields t none none) ∷ []
  last_words mode waiting = []
  last_words mode done = []

  -- What a request does to the chats, for its response and the moments that its poll finds.
  unfoldable pub run_media : Mode → Response → List Moment → List Action
  run_media mode r ms = let p = on_response mode r ms in p.said ++ last_words mode p.outcome
