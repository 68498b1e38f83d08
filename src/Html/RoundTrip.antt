-- ===== src/Html/RoundTrip.antt =====
-- Decoding of the five character references, and the two escaping functions: `escHtml`, `esc`.
use mikrollm.Base.{
  ℕ, zero, suc, ◌≡◌, refl, ap, ◌∙◌, Option, none, some, if◌then◌else◌, ◌==◌, nat_eq, [], ◌∷◌, ◌++◌,
  arith, ◌||◌,
}
use mikrollm.Base.Text.{Text, lit, starts_with, or_text}
use mikrollm.Html.{entity, escape, esc_html, board_entity, board_escape, esc}

-- What follows the `&` of a reference: its character and the number of units to skip.
reference : Text → Option (ℕ × ℕ)
unfolding lit
reference s =
    if starts_with (lit "amp;") s
    then some (b'&', 4)
    else if starts_with (lit "lt;") s
    then some (b'<', 3)
    else if starts_with (lit "gt;") s
    then some (b'>', 3)
    else if starts_with (lit "quot;") s
    then some (34, 5)
    else if starts_with (lit "#39;") s
    then some (39, 4)
    else none

-- `c` before what is read next.
abbrev before : ℕ → Option Text → Option Text
before c none = none
before c (some s) = some (c ∷ s)

-- A reading of HTML that stands where data is meant, between tags or between two quotes `q`: the five
-- character references are replaced, and a `<`, a `>` or a `q` that stands as itself is no data.
pub decode : ℕ → ℕ → Text → Option Text
unfolding reference
decode q n [] = some []
decode q (suc n) (c ∷ s) = decode q n s
decode q zero (c ∷ s) =
    if c == b'<' || (c == b'>' || c == q)
    then none
    else if c == b'&'
    then elim (reference s) [
      | none ↦ before c (decode q zero s)
      | some (d, k) ↦ before d (decode q k s)
    ]
    else before c (decode q zero s)

decode-entity : (c : ℕ) (r : Text) → decode 34 zero (entity c ++ r) ≡ before c (decode 34 zero r)
unfolding decode entity
decode-entity c r = ground arith

decode-entity_single :
    (c : ℕ) (r : Text) → decode 39 zero (entity c ++ r) ≡ before c (decode 39 zero r)
unfolding decode entity
decode-entity_single c r = ground arith

decode-board_entity :
    (c : ℕ) (r : Text) → decode 34 zero (board_entity c ++ r) ≡ before c (decode 34 zero r)
unfolding decode board_entity
decode-board_entity c r = ground arith

decode-escape : (s : Text) → decode 34 zero (escape s) ≡ some s
unfolding escape decode
decode-escape [] = refl
decode-escape (c ∷ s) = decode-entity c (escape s) ∙ ap (before c) (decode-escape s)

decode-escape_single : (s : Text) → decode 39 zero (escape s) ≡ some s
unfolding escape decode
decode-escape_single [] = refl
decode-escape_single (c ∷ s) =
    decode-entity_single c (escape s) ∙ ap (before c) (decode-escape_single s)

decode-board_escape : (s : Text) → decode 34 zero (board_escape s) ≡ some s
unfolding board_escape decode
decode-board_escape [] = refl
decode-board_escape (c ∷ s) =
    decode-board_entity c (board_escape s) ∙ ap (before c) (decode-board_escape s)

-- The result of `escHtml` is data wherever it is put, between tags, between double quotes or between
-- single ones, for it has no `<`, `>` or quote of its own; read there, it gives the argument back, or
-- the empty text for null. The same holds of the queue board's `esc`, but between tags or double
-- quotes only.
pub decode-escapes :
    (s : Option Text)
    → (decode 34 zero (esc_html s) ≡ some (or_text s []))
      × (decode 39 zero (esc_html s) ≡ some (or_text s []))
      × (decode 34 zero (esc s) ≡ some (or_text s []))
unfolding esc_html esc
decode-escapes none = (decode-escape [], decode-escape_single [], decode-board_escape [])
decode-escapes (some []) = (decode-escape [], decode-escape_single [], decode-board_escape [])
decode-escapes (some (c ∷ s)) =
    (decode-escape (c ∷ s), decode-escape_single (c ∷ s), decode-board_escape (c ∷ s))
