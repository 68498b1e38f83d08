-- ===== src/Html/Markup.antt =====
-- The characters that make markup: how often they stand in an escaped text, and in joined texts.
use mikrollm.Base.{
  ℕ, ◌+◌, ◌≡◌, refl, Option, none, some, if◌then◌else◌, ◌==◌, nat_eq, [], ◌∷◌, ◌++◌, arith, ◌||◌,
}
use mikrollm.Base.Text.{Text, or_text}
use mikrollm.Html.{entity, escape, esc_html, board_entity, board_escape, esc}

-- How many units of a text are `<`, `>` or `"`.
unfoldable pub marks : Text → ℕ
marks [] = 0
marks (c ∷ s) = (if c == b'<' || (c == b'>' || c == 34) then 1 else 0) + marks s

-- How often one unit stands in a text.
unfoldable pub count : ℕ → Text → ℕ
count d [] = 0
count d (c ∷ s) = (if c == d then 1 else 0) + count d s

pub marks-append : (s t : Text) → marks (s ++ t) ≡ marks s + marks t
unfolding marks
marks-append [] t = omega arith
marks-append (c ∷ s) t = ground (arith, marks-append s t)

count-append : (d : ℕ) (s t : Text) → count d (s ++ t) ≡ count d s + count d t
unfolding count
count-append d [] t = omega arith
count-append d (c ∷ s) t = ground (arith, count-append d s t)

marks-entity : (c : ℕ) → marks (entity c) ≡ 0
unfolding marks entity
marks-entity c = ground arith

quotes-entity : (c : ℕ) → count 39 (entity c) ≡ 0
unfolding count entity
quotes-entity c = ground arith

marks-board_entity : (c : ℕ) → marks (board_entity c) ≡ 0
unfolding marks board_entity
marks-board_entity c = ground arith

pub marks-escape : (s : Text) → marks (escape s) ≡ 0
unfolding escape marks
marks-escape [] = refl
marks-escape (c ∷ s) =
    omega (arith, marks-append (entity c) (escape s), marks-entity c, marks-escape s)

quotes-escape : (s : Text) → count 39 (escape s) ≡ 0
unfolding escape count
quotes-escape [] = refl
quotes-escape (c ∷ s) =
    omega (arith, count-append 39 (entity c) (escape s), quotes-entity c, quotes-escape s)

-- What `escHtml` returns holds no `<`, `>`, `"` and no apostrophe, whatever its argument.
pub esc_html-inert : (s : Option Text) → (marks (esc_html s) ≡ 0) × (count 39 (esc_html s) ≡ 0)
unfolding esc_html
esc_html-inert none = (marks-escape [], quotes-escape [])
esc_html-inert (some s) = (marks-escape s, quotes-escape s)

pub marks-board_escape : (s : Text) → marks (board_escape s) ≡ 0
unfolding board_escape marks
marks-board_escape [] = refl
marks-board_escape (c ∷ s) = omega (
  arith,
  marks-append (board_entity c) (board_escape s),
  marks-board_entity c,
  marks-board_escape s,
)

pub marks-esc : (s : Option Text) → marks (esc s) ≡ 0
unfolding esc
marks-esc s = marks-board_escape (or_text s [])
