-- ===== src/Chat/Poll.antt =====
-- Waiting for a picture or a film (`pollImage`, `pollVideo`): the answers of the server, how long
-- the page waits between two of them, and when it gives up. What a poll does to the chats is the
-- list of actions `said`, on the chat it stands in.
pub mod Waits
pub mod Finishes
pub mod Laws
pub mod Rounds
pub mod Ends
use mikrollm.Base.{
  ℕ, zero, suc, ◌+◌, ◌*◌, ◌/◌, ◌-◌, min, max, Option, none, some, Bool, true, false, not, ◌&&◌,
  ◌||◌, List, [], ◌∷◌, ◌++◌, if◌then◌else◌, ◌==◌, text_eq, ltb, leb,
}
use mikrollm.Base.Text.{Text, lit, is_empty, either, contains}
use mikrollm.Chat.Store.Ops.{Fields}
use mikrollm.Chat.Store.Steps.{Action, pending, finish}

-- The field `error`: missing, a text, or an object with its `message` and its JSON text.
pub data ErrorField : Type 0 where
  no_error : ErrorField
  words : Text → ErrorField
  object : Text → Text → ErrorField

-- The first entry of `data`, when `data` is a list.
pub record Picture : Type 0 where
  pub b64_json : Text
  pub url : Text

-- An answer on a job; empty texts stand for missing fields, `inner_status` and `inner_state` are
-- the fields of `data` when it is an object.
pub record Job : Type 0 where
  pub error : ErrorField
  pub message : Text
  pub status : Text
  pub state : Text
  pub inner_status : Text
  pub inner_state : Text
  pub queue_ahead : Option ℕ
  pub first_datum : Option Picture

-- `String(s || "").toLowerCase()` of the first of the four fields that is there.
unfoldable pub video_job_status : (Text → Text) → Job → Text
video_job_status to_lower j =
    to_lower (either j.status (either j.state (either j.inner_status j.inner_state)))

-- `(j.error && (j.error.message || j.error)) || j.message || ""`, where an object is shown as `shown`
-- makes it.
abbrev pub problem : (Text → Text) → Job → Text
problem shown j = elim j.error [
  | no_error ↦ j.message
  | words t ↦ either t j.message
  | object t json ↦ either t (shown json)
]

abbrev pub has_error : Job → Bool
has_error j = elim j.error [ no_error ↦ false | words t ↦ not (is_empty t) | object _ _ ↦ true ]

-- The letters A to Z, for the flag `i` of the pattern.
abbrev pub ascii_lower : Text → Text
ascii_lower [] = []
ascii_lower (c ∷ s) = (if leb 65 c && leb c 90 then c + 32 else c) ∷ ascii_lower s

-- `/rate limit/i.test(String(em))`
unfoldable pub rate_limited : Job → Bool
unfolding lit
rate_limited j = contains (ascii_lower (problem (λ _. lit "[object Object]") j)) (lit "rate limit")

unfoldable pub is_done : Text → Bool
unfolding lit
is_done st =
    st == lit "completed" || st == lit "complete" || st == lit "succeeded" || st == lit "success"

unfoldable pub is_failed : Text → Bool
unfolding lit
is_failed st =
    st == lit "failed" || st == lit "error" || st == lit "cancelled" || st == lit "canceled"

unfoldable pub reason : Job → Text
unfolding lit
reason j = either (problem (λ json. json) j) (lit "генерация не удалась")

-- `Math.round((Date.now() - t0) / 1000)`
abbrev pub seconds : ℕ → ℕ
seconds ms = (ms + 500) / 1000

unfoldable pub queue_wait_text : (ℕ → Text) → Text → Job → Text → ℕ → Text
unfolding lit
queue_wait_text digits label j st sec =
    (label ++ lit " · " ++ either st (lit "ожидание"))
    ++ elim j.queue_ahead [
      | none ↦ []
      | some ahead ↦ if ltb 0 ahead then lit " · перед ней " ++ digits ahead else []
    ]
    ++ lit " · "
    ++ digits sec
    ++ lit " с"

-- What an answer means.
pub data Verdict : Type 0 where
  ready : Fields → Verdict
  broken : Text → Verdict
  unready : Verdict

-- What differs between the two: the waits, the time limit, the words, and the reading of an answer.
pub record Kind : Type 0 where
  pub first_delay : ℕ
  pub growth : ℕ
  pub longest : ℕ
  pub limit_delay : ℕ
  pub limit_longest : ℕ
  pub max_wait : ℕ
  pub label : Text
  pub again : Text
  pub verdict : Text → Job → Verdict

abbrev pub failure : Text → Job → Verdict
failure st j =
    if is_failed st || has_error j && not (rate_limited j) then broken (reason j) else unready

abbrev pub fields : Text → Option Text → Option Text → Fields
fields content picture film = record {
  content = content;
  think = none;
  picture = picture;
  film = film;
}

unfoldable pub video_verdict : Text → Text → Job → Verdict
unfolding lit
video_verdict src st j =
    if is_done st then ready (fields (lit "Видео сгенерировано.") none (some src)) else failure st j

-- `d.b64_json ? ("data:image/png;base64," + d.b64_json) : (d.url || "")`
unfoldable pub image_src : Option Picture → Text
unfolding lit
image_src none = []
image_src (some p) =
    if is_empty p.b64_json then p.url else lit "data:image/png;base64," ++ p.b64_json

abbrev has_datum : Option Picture → Bool
has_datum none = false
has_datum (some _) = true

unfoldable pub image_verdict : Text → Job → Verdict
unfolding lit
image_verdict st j =
    if is_done st || has_datum j.first_datum
    then if is_empty (image_src j.first_datum)
      then broken (lit "картинка готова, но без файла")
      else ready (fields (lit "Изображение сгенерировано.") (some (image_src j.first_datum)) none)
    else failure st j

-- `pollVideo` of the job `vid`, whose film is at `src`.
unfoldable pub poll_video : Text → Text → Kind
unfolding lit
poll_video vid src = record {
  first_delay = 5000;
  growth = 400;
  longest = 10000;
  limit_delay = 10000;
  limit_longest = 20000;
  max_wait = 45 * 60 * 1000;
  label = lit "видео " ++ vid;
  again = lit "видео " ++ vid ++ lit " · повтор запроса статуса…";
  verdict = video_verdict src;
}

unfoldable pub poll_image : Kind
unfolding lit
poll_image = record {
  first_delay = 2000;
  growth = 300;
  longest = 8000;
  limit_delay = 8000;
  limit_longest = 15000;
  max_wait = 20 * 60 * 1000;
  label = lit "картинка";
  again = lit "картинка · повтор запроса статуса…";
  verdict = image_verdict;
}

-- What a request leads to: `fetch` refuses because of the abort or otherwise, or a response comes,
-- with `r.ok`, its body and the milliseconds since `t0`. A body that is no JSON reads as not ok and
-- without fields.
pub data Reply : Type 0 where
  stopped : Reply
  lost : Reply
  answered : Bool → Job → ℕ → Reply

-- What one call of `tick` finds: whether the signal is aborted, the milliseconds since `t0`, and
-- what its request leads to.
pub record Moment : Type 0 where
  pub aborted : Bool
  pub elapsed : ℕ
  pub reply : Reply

pub data Outcome : Type 0 where
  waiting done abort_error timed_out : Outcome
  fatal : Text → Outcome

-- A poll so far: its outcome, the waits, and the actions on the chats, both in order.
pub record Poll : Type 0 where
  pub outcome : Outcome
  pub waits : List ℕ
  pub said : List Action

abbrev pub grown : Kind → ℕ → ℕ
grown k delay = min k.longest (delay + k.growth)

abbrev pub limited : Kind → ℕ → ℕ
limited k delay = min k.limit_longest (max delay k.limit_delay)

-- What a tick comes to: the promise settles, or after a wait of `delay` there is a further tick,
-- whose refusal goes to the `.catch` of `handlers` earlier ones, the innermost first.
pub data Move : Type 0 where
  stops : Outcome → List Action → Move
  goes : List Action → (handlers delay : ℕ) → Move

module _ (to_lower : Text → Text) (digits : ℕ → Text) (k : Kind) (chat_id : Text) where
  -- The `.catch` of a tick, for an error that is neither an abort nor fatal.
  unfoldable pub retry : ℕ → ℕ → Move
  retry handlers delay = goes (pending chat_id k.again ∷ []) handlers (grown k delay)

  -- The refusal of a tick that is past the time limit. The tick's own `.catch` covers its request,
  -- but not the refusals before it, so this one goes to an earlier tick, if there is one.
  unfoldable pub give_up : ℕ → ℕ → Move
  give_up zero delay = stops timed_out []
  give_up (suc handlers) delay = retry handlers delay

  unfoldable pub conclude : Action → Verdict → ℕ → ℕ → Move
  conclude said (ready f) handlers delay = stops done (said ∷ finish chat_id f ∷ [])
  conclude said (broken t) handlers delay = stops (fatal t) (said ∷ [])
  conclude said unready handlers delay = goes (said ∷ []) (suc handlers) (grown k delay)

  unfoldable pub hear : Reply → ℕ → ℕ → Move
  unfolding lit
  hear stopped handlers delay = stops abort_error []
  hear lost handlers delay = retry handlers delay
  hear (answered ok j ms) handlers delay =
      let st = video_job_status to_lower j in
      let said = pending chat_id (queue_wait_text digits k.label j st (seconds ms)) in
      if not ok && rate_limited j
      then goes (pending chat_id (lit "проверка статуса, ждём лимит…") ∷ []) (suc handlers)
          (limited k delay)
      else conclude said (k.verdict st j) handlers delay

  unfoldable pub tick : Moment → ℕ → ℕ → Move
  tick m handlers delay =
      if m.aborted
      then stops abort_error []
      else if ltb k.max_wait m.elapsed
      then give_up handlers delay
      else hear m.reply handlers delay

  unfoldable pub follow : Move → (ℕ → ℕ → Poll) → Poll
  follow (stops o acts) rest = record { outcome = o; waits = []; said = acts }
  follow (goes acts handlers delay) rest =
      let p = rest handlers delay in record p { waits = delay ∷ p.waits; said = acts ++ p.said }

  -- The ticks of a poll with the given moments; after the last one it is still waiting.
  unfoldable pub ticks : List Moment → ℕ → ℕ → Poll
  ticks [] handlers delay = record { outcome = waiting; waits = []; said = [] }
  ticks (m ∷ ms) handlers delay = follow (tick m handlers delay) (ticks ms)

  unfoldable pub poll : List Moment → Poll
  poll ms = ticks ms zero k.first_delay
