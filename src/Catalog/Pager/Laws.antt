-- ===== src/Catalog/Pager/Laws.antt =====
-- What a page of the catalog shows, and what its buttons do.
use native.Mathlib.Nat.{le-div_iff_mul-le, div-lt_iff_lt-mul, zero-add}
use mikrollm.Base.{
  ℕ, ◌+◌, ◌-◌, ◌*◌, ◌/◌, ◌≤◌, ◌<◌, min, ◌≡◌, refl, ap, ◌∙◌, some, Bool, true, false, ◌&&◌, List, [],
  ◌∷◌, if◌then◌else◌, ltb, leb, nat_beq, arith, get_elem?, length,
}
use mikrollm.Base.Text.{Text}
use mikrollm.Catalog.{ModelRow}
use mikrollm.Catalog.Pager.{
  Button, Pager, Catalog, page_size, visible, show_all, mark, page_count, clamp_page, draw,
  paginate, click,
}
use mikrollm.Catalog.Pager.Rows.{
  on_screen, shown, visible-show_all, visible-mark, shown-mark, length-on_screen-mark,
}

pub clamp_page-bounds :
    (pages page : ℕ) → 1 ≤ pages → (1 ≤ clamp_page pages page) × (clamp_page pages page ≤ pages)
unfolding clamp_page
clamp_page-bounds pages page h = ground arith

page_count-pos : (n sz : ℕ) → 1 ≤ page_count n sz
unfolding page_count
page_count-pos n sz = omega arith

-- An index lies in the range of page `m + 1` exactly if `m` is its quotient by the size.
in_range : (sz m k : ℕ) → 0 < sz → (leb (m * sz) k && ltb k (m * sz + sz)) ≡ nat_beq m (k / sz)
in_range sz m k h = ground (
  arith,
  (le-div_iff_mul-le {k = sz} {x = m} {y = k} h).0,
  (le-div_iff_mul-le {k = sz} {x = m} {y = k} h).1,
  (div-lt_iff_lt-mul {k = sz} {x = k} {y = m + 1} h).0,
  (div-lt_iff_lt-mul {k = sz} {x = k} {y = m + 1} h).1,
)

page_test :
    (sz n p k : ℕ)
    → 0 < sz
    → k < n
    → 1 ≤ p
    → (leb ((p - 1) * sz) k && ltb k (min n ((p - 1) * sz + sz))) ≡ nat_beq p (k / sz + 1)
page_test sz n p k h kn hp = ground (arith, in_range sz (p - 1) k h)

-- The state after the script has drawn a page of a positive size.
pub record IsPage (n sz : ℕ) (c : Catalog) : Type 0 where
  pub page_pos : 1 ≤ c.page
  pub page_max : c.page ≤ page_count n sz
  pub all_rows : visible c.rows ≡ n
  pub drawn : c.pager ≡ some (draw n sz c.page)
  pub shows : (k : ℕ) → k < n → get_elem? (shown c.rows) k ≡ some (nat_beq c.page (k / sz + 1))
  pub on_it : length (on_screen c.rows) ≡ min n ((c.page - 1) * sz + sz) - (c.page - 1) * sz

show_all-mark : (from to i : ℕ) (rs : List ModelRow) → show_all (mark from to i rs) ≡ show_all rs
unfolding show_all mark
show_all-mark from to i [] = refl
show_all-mark from to i (r ∷ rs) =
    ground (arith, show_all-mark from to i rs, show_all-mark from to (i + 1) rs)

show_all-show_all : (rs : List ModelRow) → show_all (show_all rs) ≡ show_all rs
unfolding show_all
show_all-show_all [] = refl
show_all-show_all (r ∷ rs) = ground (arith, show_all-show_all rs)

clamp_page_self : (pages q : ℕ) → 1 ≤ q → q ≤ pages → clamp_page pages q ≡ q
unfolding clamp_page
clamp_page_self pages q h1 h2 = ground arith

click_enabled :
    (b : Button) (c : Catalog)
    → b.disabled ≡ false
    → click b c ≡ paginate false (record c { page = b.to_page })
unfolding click
click_enabled b c h = ground arith

click_disabled : (b : Button) (c : Catalog) → b.disabled ≡ true → click b c ≡ c
unfolding click
click_disabled b c h = ground arith

module _ (value : Text) where
  -- The catalog with page `p` drawn.
  abbrev pub page_at : Catalog → ℕ → Catalog
  page_at c p =
      let from = (p - 1) * page_size value in
      record c {
        rows = mark from (min (visible c.rows) (from + page_size value)) 0 (show_all c.rows);
        page = p;
        pager = some (draw (visible c.rows) (page_size value) p);
      }

  abbrev pub pages : Catalog → ℕ
  pages c = page_count (visible c.rows) (page_size value)

  paginate-page_at :
      (reset : Bool) (c : Catalog)
      → c.size ≡ some value
      → c.has_pager ≡ true
      → 0 < page_size value
      → paginate reset c ≡ page_at c (clamp_page (pages c) (if reset then 1 else c.page))
  unfolding paginate
  paginate-page_at reset c hs hp hz = ground arith

  visible-page_at : (c : Catalog) (p : ℕ) → visible (page_at c p).rows ≡ visible c.rows
  visible-page_at c p = visible-mark _ _ 0 (show_all c.rows) ∙ visible-show_all c.rows

  -- Drawing a page forgets which page was drawn before.
  page_at-page_at :
      (c : Catalog) (p q : ℕ) → page_at (record (page_at c p) { page = q }) q ≡ page_at c q
  page_at-page_at c p q = simp (show_all-mark, show_all-show_all, visible-mark, visible-show_all)

  page_at-IsPage :
      (c : Catalog) (p : ℕ)
      → 0 < page_size value
      → 1 ≤ p
      → p ≤ pages c
      → IsPage (visible c.rows) (page_size value) (page_at c p)
  page_at-IsPage c p hz h1 h2 = record {
    page_pos = h1;
    page_max = h2;
    all_rows = visible-page_at c p;
    drawn = refl;
    shows = λ k h.
        shown-mark _ _ 0 k (show_all c.rows) (omega (arith, visible-show_all c.rows))
        ∙ ap some (rw zero-add (page_test _ (visible c.rows) p k hz h h1));
    on_it = omega (
      arith,
      length-on_screen-mark from (min (visible c.rows) (from + page_size value)) 0
          (show_all c.rows),
      visible-show_all c.rows,
    );
  }
    where
      from : ℕ
      from = (p - 1) * page_size value

  module _ (reset : Bool) (c : Catalog) (sized : c.size ≡ some value) (there : c.has_pager ≡ true)
      (positive : 0 < page_size value) where
    target : ℕ
    target = clamp_page (pages c) (if reset then 1 else c.page)

    target_bounds : (1 ≤ target) × (target ≤ pages c)
    unfolding target
    target_bounds = clamp_page-bounds _ _ (page_count-pos (visible c.rows) (page_size value))

    paginate-target : paginate reset c ≡ page_at c target
    unfolding target
    paginate-target = paginate-page_at reset c sized there positive

    -- After the pager has been drawn with a positive page size, the page lies between 1 and the
    -- number of pages, the filters' rows are as they were, the visible row with index k is on the
    -- screen exactly if the page is k / size + 1, and the screen holds the rows of that page alone.
    pub paginate-IsPage : IsPage (visible c.rows) (page_size value) (paginate reset c)
    paginate-IsPage =
        rw paginate-target (page_at-IsPage c target positive target_bounds.0 target_bounds.1)

    go_to :
        (p q : ℕ)
        → 1 ≤ q
        → q ≤ pages c
        → paginate false (record (page_at c p) { page = q }) ≡ page_at c q
    go_to p q h1 h2 =
        paginate-page_at false (record (page_at c p) { page = q }) sized there positive
        ∙ ap (page_at (record (page_at c p) { page = q })) still
        ∙ page_at-page_at c p q
      where
        still : clamp_page (pages (page_at c p)) q ≡ q
        still = rw (visible-mark, visible-show_all) (clamp_page_self (pages c) q h1 h2)

    abbrev pub drawn_at : ℕ → Pager
    drawn_at p = draw (visible c.rows) (page_size value) p

    next-page_at :
        (p : ℕ) → 1 ≤ p → p < pages c → click (drawn_at p).next (page_at c p) ≡ page_at c (p + 1)
    unfolding draw
    next-page_at p h1 h2 =
        click_enabled (drawn_at p).next (page_at c p) (ground arith)
        ∙ go_to p (p + 1) (omega arith) (omega arith)

    prev-page_at :
        (p : ℕ) → 1 < p → p ≤ pages c → click (drawn_at p).prev (page_at c p) ≡ page_at c (p - 1)
    unfolding draw
    prev-page_at p h1 h2 =
        click_enabled (drawn_at p).prev (page_at c p) (ground arith)
        ∙ go_to p (p - 1) (omega arith) (omega arith)

    last-page_at : (p : ℕ) → p ≡ pages c → click (drawn_at p).next (page_at c p) ≡ page_at c p
    unfolding draw
    last-page_at p h = click_disabled (drawn_at p).next (page_at c p) (ground arith)

    -- What the next-button does to a drawn catalog.
    abbrev pub NextDraws : Catalog → Type 0
    NextDraws d =
        ((click (drawn_at d.page).next d).page ≡ d.page + 1)
        × IsPage (visible c.rows) (page_size value) (click (drawn_at d.page).next d)
        × (click (drawn_at (d.page + 1)).prev (click (drawn_at d.page).next d) ≡ d)

    page_at-NextDraws : (p : ℕ) → 1 ≤ p → p < pages c → NextDraws (page_at c p)
    page_at-NextDraws p h1 h2 = rw (next-page_at p h1 h2) (
      refl,
      page_at-IsPage c (p + 1) positive (omega arith) (omega arith),
      prev-page_at (p + 1) (omega arith) (omega arith) ∙ ap (page_at c) (omega arith),
    )

    next_cases :
        ((paginate reset c).page < pages c → NextDraws (paginate reset c))
        × ((paginate reset c).page ≡ pages c
            → click (drawn_at (paginate reset c).page).next (paginate reset c) ≡ paginate reset c)
    next_cases =
        rw paginate-target (λ h. page_at-NextDraws target target_bounds.0 h, last-page_at target)

    -- On a drawn catalog that is not on its last page, the next-button draws the page that follows,
    -- and the previous-button of that page gives back the catalog as it was, rows included.
    pub click-next : (paginate reset c).page < pages c → NextDraws (paginate reset c)
    click-next h = next_cases.0 h

    -- On a drawn catalog that is on its last page, the next-button changes nothing.
    pub click-next_last :
        (paginate reset c).page ≡ pages c
        → click (drawn_at (paginate reset c).page).next (paginate reset c) ≡ paginate reset c
    click-next_last h = next_cases.1 h
