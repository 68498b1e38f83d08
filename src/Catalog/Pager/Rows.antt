-- ===== src/Catalog/Pager/Rows.antt =====
-- Which rows the marks of a page leave on the screen.
use mikrollm.Base.{
  ℕ, zero, suc, ◌+◌, ◌-◌, ◌<◌, min, max, ◌≡◌, refl, some, Bool, not, ◌&&◌, ◌||◌, List, [], ◌∷◌,
  if◌then◌else◌, ltb, leb, arith, get_elem?, length,
}
use mikrollm.Catalog.{ModelRow}
use mikrollm.Catalog.Pager.{visible, show_all, mark}

-- The rows on the screen: neither filtered out nor on another page.
unfoldable pub on_screen : List ModelRow → List ModelRow
on_screen [] = []
on_screen (r ∷ rs) = if r.hidden || r.paged_out then on_screen rs else r ∷ on_screen rs

-- For each visible row in order, whether it is on the screen.
unfoldable pub shown : List ModelRow → List Bool
shown [] = []
shown (r ∷ rs) = if r.hidden then shown rs else not r.paged_out ∷ shown rs

pub length-shown : (rs : List ModelRow) → length (shown rs) ≡ visible rs
unfolding shown visible
length-shown [] = refl
length-shown (r ∷ rs) = ground (arith, length-shown rs)

pub visible-show_all : (rs : List ModelRow) → visible (show_all rs) ≡ visible rs
unfolding visible show_all
visible-show_all [] = refl
visible-show_all (r ∷ rs) = ground (arith, visible-show_all rs)

pub visible-mark : (from to i : ℕ) (rs : List ModelRow) → visible (mark from to i rs) ≡ visible rs
unfolding visible mark
visible-mark from to i [] = refl
visible-mark from to i (r ∷ rs) =
    ground (arith, visible-mark from to i rs, visible-mark from to (i + 1) rs)

-- The visible row with index `k` is on the screen exactly if its index lies in the page's range.
pub shown-mark :
    (from to i k : ℕ) (rs : List ModelRow)
    → k < visible rs
    → get_elem? (shown (mark from to i rs)) k ≡ some (leb from (i + k) && ltb (i + k) to)
unfolding visible shown mark
shown-mark from to i k [] h = absurd (omega arith)
shown-mark from to i zero (r ∷ rs) h = ground (arith, shown-mark from to i zero rs)
shown-mark from to i (suc k) (r ∷ rs) h =
    ground (arith, shown-mark from to i (suc k) rs, shown-mark from to (i + 1) k rs)

-- The number of rows on the screen is that of the indices in both ranges.
pub length-on_screen-mark :
    (from to i : ℕ) (rs : List ModelRow)
    → length (on_screen (mark from to i rs)) ≡ min to (i + visible rs) - max from i
unfolding visible on_screen mark
length-on_screen-mark from to i [] = omega arith
length-on_screen-mark from to i (r ∷ rs) =
    ground (arith, length-on_screen-mark from to i rs, length-on_screen-mark from to (i + 1) rs)
