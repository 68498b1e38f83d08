-- ===== src/Page/Rows.antt =====
-- The rows of a page: the box that checks the visible models, the filter of the aliases by hub and the
-- filter of the list of keys.
use mikrollm.Base.{
  ℕ, suc, ◌≡◌, refl, sym, ap, ◌∙◌, Option, none, some, Bool, true, false, not, ◌&&◌, ◌||◌, List, [],
  ◌∷◌, map, if◌then◌else◌, ◌==◌, text_eq, length, length-map, all, select, arith,
}
use mikrollm.Base.Text.{Text, or_text, is_empty, trim, contains}

-- A box of a model that the box above it acts on: whether it is disabled, checked, and whether it stands
-- in a row, with `is-hidden`.
pub record Box : Type 0 where
  pub disabled : Bool
  pub checked : Bool
  pub row : Option Bool

abbrev pub row_hidden : Option Bool → Bool
row_hidden none = false
row_hidden (some hidden) = hidden

unfoldable pub toggle_box : Bool → Box → Box
toggle_box on b = if b.disabled || row_hidden b.row then b else record b { checked = on }

unfoldable pub toggle : Bool → List Box → List Box
toggle on bs = map (toggle_box on) bs

-- A row with an attribute (`data-hub` or `data-name`), and whether it has `is-hidden`.
pub record Row : Type 0 where
  pub attr : Option Text
  pub hidden : Bool

unfoldable pub hub_ok : Text → Row → Bool
hub_ok v r = is_empty v || or_text r.attr [] == v

abbrev pub hide_row : Text → Row → Row
hide_row v r = record r { hidden = not (hub_ok v r) }

unfoldable pub hide_by_hub : Text → List Row → List Row
hide_by_hub v rs = map (hide_row v) rs

-- The variables `vis` and `total` after the loop.
unfoldable pub counted : Text → List Row → ℕ × ℕ
counted v [] = (0, 0)
counted v (r ∷ rs) =
    let (vis, total) = counted v rs in ((if hub_ok v r then suc vis else vis), suc total)

-- The table of the aliases, with its counter (`none`: no such element).
pub record Aliases : Type 0 where
  pub rows : List Row
  pub counter : Option (ℕ × ℕ)

abbrev pub written : ℕ × ℕ → Option (ℕ × ℕ) → Option (ℕ × ℕ)
written n none = none
written n (some old) = some n

unfoldable pub apply_hub : Text → Aliases → Aliases
apply_hub v a = record {
  rows = hide_by_hub v a.rows;
  counter = written (counted v a.rows) a.counter;
}

module _ (to_lower : Text → Text) where
  -- `tr.classList.toggle("is-hidden", q && name.indexOf(q) === -1)`
  abbrev pub filter_key : Text → Row → Row
  filter_key q r = record r {
    hidden = not (is_empty q) && not (contains (to_lower (or_text r.attr [])) q);
  }

  unfoldable pub filter_keys : Text → List Row → List Row
  filter_keys raw rs = map (filter_key (to_lower (trim raw))) rs

-- The rows that are shown.
unfoldable pub shown_rows : List Row → ℕ
shown_rows [] = 0
shown_rows (r ∷ rs) = if r.hidden then shown_rows rs else suc (shown_rows rs)

counted-shown :
    (v : Text) (rs : List Row)
    → ((counted v rs).0 ≡ shown_rows (hide_by_hub v rs)) × ((counted v rs).1 ≡ length rs)
unfolding counted shown_rows hide_by_hub
counted-shown v [] = (refl, refl)
counted-shown v (r ∷ rs) = ground (arith, counted-shown v rs)

length-hide_by_hub : (v : Text) (rs : List Row) → length (hide_by_hub v rs) ≡ length rs
unfolding hide_by_hub
length-hide_by_hub v rs = length-map (hide_row v) rs

-- Where the page has a counter of aliases, after the filter by hub it tells how many rows are shown and
-- how many there are.
pub apply_hub_lem :
    (v : Text) (a : Aliases) (old : ℕ × ℕ)
    → a.counter ≡ some old
    → (apply_hub v a).counter ≡ some (shown_rows (apply_hub v a).rows, length (apply_hub v a).rows)
unfolding apply_hub
apply_hub_lem v a old e =
    let (vis, total) = counted-shown v a.rows in
    let same = length-hide_by_hub v a.rows in rw e (ap some (λ i. (vis i, (total ∙ sym same) i)))

toggle_box-twice : (on old : Bool) (b : Box) → toggle_box on (toggle_box old b) ≡ toggle_box on b
unfolding toggle_box
toggle_box-twice on old b = ground arith

-- Whether the user cannot see or change a box.
abbrev pub out_of_reach : Box → Bool
out_of_reach b = b.disabled || row_hidden b.row

abbrev pub is_as : Bool → Box → Bool
is_as on b = out_of_reach b || (if on then b.checked else not b.checked)

toggle-twice : (on old : Bool) (bs : List Box) → toggle on (toggle old bs) ≡ toggle on bs
unfolding toggle
toggle-twice on old [] = refl
toggle-twice on old (b ∷ bs) = cc (toggle_box-twice on old b, toggle-twice on old bs)

toggle-is_as : (on : Bool) (bs : List Box) → all (is_as on) (toggle on bs) ≡ true
unfolding toggle toggle_box
toggle-is_as on [] = refl
toggle-is_as on (b ∷ bs) = ground (arith, toggle-is_as on bs)

toggle-out_of_reach :
    (on : Bool) (bs : List Box) → select out_of_reach (toggle on bs) ≡ select out_of_reach bs
unfolding toggle toggle_box
toggle-out_of_reach on [] = refl
toggle-out_of_reach on (b ∷ bs) = ground (arith, toggle-out_of_reach on bs)

-- The box above a table sets every box that the user can see and change to its own state, and leaves
-- the others, those of hidden rows and the disabled ones, as they were, in their order; of two changes
-- only the last one counts.
pub toggle_lem :
    (on old : Bool) (bs : List Box)
    → (all (is_as on) (toggle on bs) ≡ true)
      × (select out_of_reach (toggle on bs) ≡ select out_of_reach bs)
      × (toggle on (toggle old bs) ≡ toggle on bs)
toggle_lem on old bs = (toggle-is_as on bs, toggle-out_of_reach on bs, toggle-twice on old bs)
