-- ===== src/Catalog/Pager.antt =====
-- `paginateCatalog`: the catalog's rows in pages, over the rows that the filters leave visible, and
-- the two buttons of the pager.
pub mod Rows
pub mod Laws
use mikrollm.Base.{
  ℕ, zero, suc, ◌+◌, ◌-◌, ◌*◌, ◌/◌, min, max, Option, none, some, Bool, true, false, not, ◌&&◌,
  ◌||◌, List, [], ◌∷◌, if◌then◌else◌, ltb, leb, nat_beq,
}
use mikrollm.Base.Text.{Text}
use mikrollm.Base.Text.Int.{ℤ, pos, negsuc, parse_int}
use mikrollm.Catalog.{ModelRow}

pub record Button : Type 0 where
  pub to_page : ℕ
  pub disabled : Bool

-- What the pager shows: the buttons, and the numbers of the line "a–b из n".
pub record Pager : Type 0 where
  pub prev : Button
  pub next : Button
  pub first : ℕ
  pub last : ℕ
  pub total : ℕ

-- The page: the value of `#catalog-page-size` (`none`: no such control), whether `#catalog-pager`
-- is there, its content (`none`: empty), the rows, and the variable `catalogPage`.
pub record Catalog : Type 0 where
  pub size : Option Text
  pub has_pager : Bool
  pub pager : Option Pager
  pub rows : List ModelRow
  pub page : ℕ

-- `parseInt(sizeEl.value, 10)`, 10 for NaN; 0 stands for every size that is not positive.
unfoldable pub page_size : Text → ℕ
page_size value = elim (parse_int value) [
  | none ↦ 10
  | some z ↦ elim z [ pos n ↦ n | negsuc _ ↦ 0 ]
]

-- The number of rows that the filters leave.
unfoldable pub visible : List ModelRow → ℕ
visible [] = 0
visible (r ∷ rs) = (if r.hidden then 0 else 1) + visible rs

unfoldable pub show_all : List ModelRow → List ModelRow
show_all [] = []
show_all (r ∷ rs) = (if r.hidden then r else record r { paged_out = false }) ∷ show_all rs

-- The toggle of `is-paged-out`, from the visible row with index `i` on.
unfoldable pub mark : ℕ → ℕ → ℕ → List ModelRow → List ModelRow
mark from to i [] = []
mark from to i (r ∷ rs) =
    (if r.hidden then r else record r { paged_out = ltb i from || leb to i })
    ∷ mark from to (if r.hidden then i else i + 1) rs

-- `Math.max(1, Math.ceil(n / sz) || 1)`, for a positive size.
unfoldable pub page_count : ℕ → ℕ → ℕ
page_count n sz = max 1 ((n + sz - 1) / sz)

-- The page number after the two clamps.
unfoldable pub clamp_page : ℕ → ℕ → ℕ
clamp_page pages page =
    let page' = if ltb pages page then pages else page in if ltb page' 1 then 1 else page'

unfoldable pub draw : ℕ → ℕ → ℕ → Pager
draw n sz page =
    let from = (page - 1) * sz in
    record {
      prev = record { to_page = page - 1; disabled = leb page 1 };
      next = record { to_page = page + 1; disabled = leb (page_count n sz) page };
      first = if nat_beq n 0 then 0 else from + 1;
      last = min n (from + sz);
      total = n;
    }

unfoldable pub paginate : Bool → Catalog → Catalog
paginate reset c = elim c.size [
  | none ↦ c
  | some value ↦
      let page = if reset then 1 else c.page in
      let n = visible c.rows in
      let sz = page_size value in
      let rows = show_all c.rows in
      if not c.has_pager
      then record c { rows = rows; page = page }
      else if leb sz 0
      then record c { rows = rows; page = page; pager = none }
      else let page' = clamp_page (page_count n sz) page in
        let from = (page' - 1) * sz in
        record c {
          rows = mark from (min n (from + sz)) 0 rows;
          page = page';
          pager = some (draw n sz page');
        }
]

-- A click on a button of the pager, which does nothing while the button is disabled.
unfoldable pub click : Button → Catalog → Catalog
click b c = if b.disabled then c else paginate false (record c { page = b.to_page })
