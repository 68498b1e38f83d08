-- ===== src/Chat/Submit/Talk.antt =====
-- The request of a text chat (`submit` from its `fetch` on): the two numbers that it carries, what its
-- stream does to the chat, and how it ends.
pub mod Laws
use mikrollm.Base.{
  ℕ, zero, Option, none, some, Bool, true, false, not, ◌&&◌, ◌||◌, List, [], ◌∷◌, ◌++◌,
  if◌then◌else◌, map,
}
use mikrollm.Base.Text.{Text, lit, is_empty, either, split}
use mikrollm.Base.Text.Int.{ℤ, pos, negsuc, parse_int}
use mikrollm.Catalog.Band.{Floats}
use mikrollm.Chat.Params.{Value, whole, real}
use mikrollm.Chat.Stream.{
  Chunk, Reading, clean, payload, is_skipped, take_parsed, take_line, take_text,
}
use mikrollm.Chat.Store.Ops.{Fields}
use mikrollm.Chat.Store.Steps.{Action, pending, finish}
use mikrollm.Chat.Submit.{waiting}
use mikrollm.Chat.Submit.Payload.{get}

-- The numbers of a request: the one of the form of extra parameters, or that of its own control, or a
-- fixed one. `default` is 0.7, and zero counts as no number.
module _ (fl : Floats) (is_zero : fl.Num → Bool) (default : fl.Num) where
  open fl use {parse_float}

  abbrev pub number_or : Option fl.Num → fl.Num
  number_or none = default
  number_or (some x) = if is_zero x then default else x

  abbrev pub given_or {ℓ} : {A : Type ℓ} → Option A → A → A
  given_or none a = a
  given_or (some b) a = b

  unfoldable pub temperature : List (Text × Value fl) → Text → Value fl
  unfolding lit
  temperature extra control =
      given_or (get (lit "temperature") extra) (real (number_or (parse_float control)))

  abbrev pub count_or : Option ℤ → ℤ
  count_or none = pos 1024
  count_or (some (pos zero)) = pos 1024
  count_or (some z) = z

  unfoldable pub max_tokens : List (Text × Value fl) → Text → Value fl
  unfolding lit
  max_tokens extra control =
      given_or (get (lit "max_tokens") extra) (whole (count_or (parse_int control)))

-- How a stream ends: it is done, aborted, or fails with a message.
pub data Ending : Type 0 where
  done stopped : Ending
  failed : Text → Ending

-- What the request leads to: it ends before there is a response, the server refuses with a text and
-- a status, there is no body, or there is a stream of texts, each with whether its chat is the one that
-- is shown when it comes; a stream without an ending is still going on.
pub data Response : Type 0 where
  ended : Ending → Response
  refused : (text status : Text) → Response
  no_stream : Response
  streams : List (Text × Bool) → Option Ending → Response

abbrev think_of : Text → Option Text
think_of t = if is_empty t then none else some t

abbrev pub fresh : Reading
fresh = record { acc = []; think = []; buf = [] }

module _ (parse_json : Text → Option Chunk) (id : Text) where
  -- What a chunk says to a chat that is not shown; the answer of the chat that is shown is painted.
  unfoldable pub say_parsed : Bool → Option Chunk → Reading → List Action
  say_parsed shown none r = []
  say_parsed shown (some c) r = if shown then [] else pending id (either r.acc waiting) ∷ []

  unfoldable pub say_line : Bool → Text → Reading → List Action
  say_line shown raw r =
      let line = clean raw in
      let parsed = parse_json (payload line) in
      if is_skipped line then [] else say_parsed shown parsed (take_parsed parse_json parsed r)

  unfoldable pub say_lines : Bool → List Text → Reading → List Action
  say_lines shown [] r = []
  say_lines shown (line ∷ []) r = []
  say_lines shown (line ∷ m ∷ ls) r =
      say_line shown line r ++ say_lines shown (m ∷ ls) (take_line parse_json line r)

  -- `pump`, with what it says.
  unfoldable pub say_pump : List (Text × Bool) → Reading → List Action
  say_pump [] r = []
  say_pump ((t, shown) ∷ ts) r =
      say_lines shown (split 10 (r.buf ++ t)) r ++ say_pump ts (take_text parse_json t r)

  unfoldable pub read_pump : List (Text × Bool) → Reading → Reading
  read_pump [] r = r
  read_pump ((t, shown) ∷ ts) r = read_pump ts (take_text parse_json t r)

  -- The `.then` and the `.catch` at the end.
  unfoldable pub conclude : Ending → Reading → Fields
  unfolding lit
  conclude done r = record {
    content = either r.acc r.think;
    think = think_of r.think;
    picture = none;
    film = none;
  }
  conclude stopped r = record {
    content = either r.acc (lit "остановлено");
    think = think_of r.think;
    picture = none;
    film = none;
  }
  conclude (failed message) r = record {
    content = either message (lit "ошибка");
    think = none;
    picture = none;
    film = none;
  }

  abbrev pub end_of : Option Ending → Reading → List Action
  end_of none r = []
  end_of (some e) r = finish id (conclude e r) ∷ []

  unfoldable pub refusal : Text → Text → Ending
  refusal text status = failed (either text status)

  unfoldable pub missing_stream : Ending
  unfolding lit
  missing_stream = failed (lit "нет потока")

  unfoldable pub run_talk : Response → List Action
  run_talk (ended e) = end_of (some e) fresh
  run_talk (refused text status) = end_of (some (refusal text status)) fresh
  run_talk no_stream = end_of (some missing_stream) fresh
  run_talk (streams ts e) = say_pump ts fresh ++ end_of e (read_pump ts fresh)
