-- ===== src/Html/Pieces.antt =====
-- Markup that is put together from literals of the script, escaped texts and texts that are put in as
-- they are.
use mikrollm.Base.{ℕ, ◌+◌, ◌≡◌, some, List, [], ◌∷◌, ◌++◌, arith, String}
use mikrollm.Base.Text.{Text, lit}
use mikrollm.Html.{esc_html, esc}
use mikrollm.Html.Markup.{marks, marks-append, marks-esc, esc_html-inert}

-- A literal, `escHtml(t)`, `esc(t)` of the queue board, or `t` itself.
pub data Piece : Type 0 where
  tag : String → Piece
  words : Text → Piece
  board_words : Text → Piece
  raw : Text → Piece

unfoldable pub piece_html : Piece → Text
piece_html (tag t) = lit t
piece_html (words t) = esc_html (some t)
piece_html (board_words t) = esc (some t)
piece_html (raw t) = t

unfoldable pub html : List Piece → Text
html [] = []
html (p ∷ ps) = piece_html p ++ html ps

-- The markup characters of the literals, and those of the texts that are put in as they are.
unfoldable pub tag_marks : List Piece → ℕ
tag_marks [] = 0
tag_marks (tag t ∷ ps) = marks (lit t) + tag_marks ps
tag_marks (words t ∷ ps) = tag_marks ps
tag_marks (board_words t ∷ ps) = tag_marks ps
tag_marks (raw t ∷ ps) = tag_marks ps

unfoldable pub raw_marks : List Piece → ℕ
raw_marks [] = 0
raw_marks (raw t ∷ ps) = marks t + raw_marks ps
raw_marks (tag t ∷ ps) = raw_marks ps
raw_marks (words t ∷ ps) = raw_marks ps
raw_marks (board_words t ∷ ps) = raw_marks ps

-- An escaped text adds no markup.
pub marks-html : (ps : List Piece) → marks (html ps) ≡ tag_marks ps + raw_marks ps
unfolding html piece_html tag_marks raw_marks
marks-html [] = unfold marks in omega arith
marks-html (tag t ∷ ps) = omega (arith, marks-append (lit t) (html ps), marks-html ps)
marks-html (words t ∷ ps) =
    omega
      (arith, marks-append (esc_html (some t)) (html ps), esc_html-inert (some t), marks-html ps)
marks-html (board_words t ∷ ps) =
    omega (arith, marks-append (esc (some t)) (html ps), marks-esc (some t), marks-html ps)
marks-html (raw t ∷ ps) = omega (arith, marks-append t (html ps), marks-html ps)
