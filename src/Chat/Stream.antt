-- ===== src/Chat/Stream.antt =====
-- The answer of a chat as it streams in: the function `pump` of a submission, its buffer of text and
-- what it makes of a line.
pub mod Laws
use mikrollm.Base.{
  ℕ, Option, none, some, Bool, true, false, not, ◌&&◌, ◌||◌, List, [], ◌∷◌, ◌++◌, if◌then◌else◌,
  ◌==◌, text_eq, nat_eq, last?, drop,
}
use mikrollm.Base.Text.{Text, lit, is_empty, trim, starts_with, split}

-- What `JSON.parse` gives of a line that is an object: the fields that the script reads, empty texts
-- where a field is missing. The first three are those of the first choice's `delta` or `message`,
-- `whole` is `message.content` of the object itself, `error` the text of its error.
pub record Chunk : Type 0 where
  pub reasoning : Text
  pub reasoning_content : Text
  pub content : Text
  pub whole : Text
  pub error : Text

-- The variables `acc`, `think` and `buf`.
pub record Reading : Type 0 where
  pub acc : Text
  pub think : Text
  pub buf : Text

-- `line.replace(/\r$/, "").trim()`; the carriage return is white space.
unfoldable pub clean : Text → Text
clean line = trim line

unfoldable pub take_chunk : Chunk → Reading → Reading
take_chunk c r =
    let said = r.acc ++ c.content in
    let acc = if is_empty c.content && not (is_empty c.whole) then c.whole else said in
    record r { think = r.think ++ c.reasoning ++ c.reasoning_content; acc = acc ++ c.error }

-- The text after "data:" of a line that has it.
unfoldable pub payload : Text → Text
unfolding lit
payload line = if starts_with (lit "data:") line then trim (drop 5 line) else line

unfoldable pub is_skipped : Text → Bool
unfolding lit
is_skipped line = is_empty line || line == lit "data: [DONE]"

module _ (parse_json : Text → Option Chunk) where
  abbrev pub take_parsed : Option Chunk → Reading → Reading
  take_parsed none r = r
  take_parsed (some c) r = take_chunk c r

  unfoldable pub take_line : Text → Reading → Reading
  take_line raw r =
      let line = clean raw in
      if is_skipped line then r else take_parsed (parse_json (payload line)) r

  -- `parts.forEach`, and what `parts.pop` has left in the buffer.
  unfoldable pub take_lines : List Text → Reading → Reading
  take_lines [] r = r
  take_lines (line ∷ []) r = record r { buf = line }
  take_lines (line ∷ m ∷ ls) r = take_lines (m ∷ ls) (take_line line r)

  -- What `reader.read()` gives, decoded.
  unfoldable pub take_text : Text → Reading → Reading
  take_text t r = take_lines (split 10 (r.buf ++ t)) r

  -- `pump` until the stream is done.
  unfoldable pub pump : List Text → Reading → Reading
  pump [] r = r
  pump (t ∷ ts) r = pump ts (take_text t r)
