-- ===== src/Html.antt =====
-- HTML escaping of the page script (internal/web/static/app.js): `escHtml`, and `esc` of the queue
-- board.
pub mod Markup
pub mod RoundTrip
pub mod Pieces
use mikrollm.Base.{ℕ, Option, none, some, if◌then◌else◌, ◌==◌, nat_eq, [], ◌∷◌, ◌++◌}
use mikrollm.Base.Text.{Text, lit, or_text}

-- The replacement of one character by `escHtml`, which is the character itself outside `[&<>"']`.
unfoldable pub entity : ℕ → Text
unfolding lit
entity c =
    if c == b'&'
    then lit "&amp;"
    else if c == b'<'
    then lit "&lt;"
    else if c == b'>'
    then lit "&gt;"
    else if c == 34
    then lit "&quot;"
    else if c == 39
    then lit "&#39;"
    else c ∷ []

unfoldable pub escape : Text → Text
escape [] = []
escape (c ∷ s) = entity c ++ escape s

-- `escHtml`: null and undefined give the empty text.
unfoldable pub esc_html : Option Text → Text
esc_html none = escape []
esc_html (some s) = escape s

-- The replacement of one character by the `esc` of the queue board: apostrophes stay.
unfoldable pub board_entity : ℕ → Text
unfolding lit
board_entity c =
    if c == b'&'
    then lit "&amp;"
    else if c == b'<'
    then lit "&lt;"
    else if c == b'>'
    then lit "&gt;"
    else if c == 34
    then lit "&quot;"
    else c ∷ []

unfoldable pub board_escape : Text → Text
board_escape [] = []
board_escape (c ∷ s) = board_entity c ++ board_escape s

-- `esc(s)`: `String(s || "")` with its special characters replaced.
unfoldable pub esc : Option Text → Text
esc s = board_escape (or_text s [])
