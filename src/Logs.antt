-- ===== src/Logs.antt =====
-- `logFilters`: the filters of the request log, which are kept in the query of the page's address.
pub mod Trim
pub mod Select
pub mod Laws
use mikrollm.Base.{
  ℕ, zero, suc, ◌+◌, Option, none, some, Bool, true, false, not, ◌&&◌, ◌||◌, List, [], ◌∷◌, ◌++◌,
  map, if◌then◌else◌, ◌==◌, ◌!=◌, text_eq, nat_eq, ltb, length, get_elem?, select,
}
use mikrollm.Base.Text.{Text, lit, or_text, is_empty, trim, contains}
use mikrollm.Base.Text.Int.{ℤ, pos, parse_int, int_or_zero, ltb_ℤ}

-- A `select` element: the values of its options, and `selectedIndex`.
pub record SelectBox : Type 0 where
  pub options : List Text
  pub index : ℕ

unfoldable pub value_of : SelectBox → Text
value_of s = elim (get_elem? s.options s.index) [ none ↦ [] | some v ↦ v ]

-- The index of the first option with a value, counted from `i`.
unfoldable pub index_from : ℕ → Text → List Text → Option ℕ
index_from i v [] = none
index_from i v (o ∷ os) = if o == v then some i else index_from (i + 1) v os

-- `setSel`, on a select element that is there.
unfoldable pub set_sel : SelectBox → Option Text → SelectBox
set_sel s none = s
set_sel s (some v) =
    if is_empty v
    then s
    else elim (index_from 0 v s.options) [ none ↦ s | some i ↦ record s { index = i } ]

pub record LogControls : Type 0 where
  pub q : Text
  pub status : SelectBox
  pub model : SelectBox
  pub backend : SelectBox
  pub key : SelectBox
  pub ms : SelectBox

-- A row `.log-tr` by its data attributes.
pub record LogRow : Type 0 where
  pub hay : Option Text
  pub kind : Option Text
  pub model : Option Text
  pub backend : Option Text
  pub key : Option Text
  pub ms : Option Text
  pub hidden : Bool

-- The query of an address, as its list of names and values.
abbrev pub Params : Type 0
Params = List (Text × Text)

unfoldable pub get : Text → Params → Option Text
get k [] = none
get k ((j, v) ∷ ps) = if j == k then some v else get k ps

-- `URLSearchParams.set`.
unfoldable pub set : Text → Text → Params → Params
set k v [] = (k, v) ∷ []
set k v ((j, w) ∷ ps) = if j == k then (k, v) ∷ ps else (j, w) ∷ set k v ps

-- `!x || attribute === x`
unfoldable pub attr_ok : Text → Option Text → Bool
attr_ok x attr = is_empty x || elim attr [ none ↦ false | some a ↦ a == x ]

-- The classes of the duration filter, in milliseconds.
unfoldable pub ms_ok : Text → Option Text → Bool
ms_ok ms attr =
    let n = int_or_zero (parse_int (or_text attr (lit "0"))) in
    (ms != lit "fast" || ltb_ℤ n (pos 100))
    && ((ms != lit "mid" || (not (ltb_ℤ n (pos 100)) && ltb_ℤ n (pos 1000)))
        && (ms != lit "slow" || not (ltb_ℤ n (pos 1000))))

-- The page: the rows, the counter "vis из total", whether the note "nothing found" is hidden, and
-- the query of the address.
pub record LogPage : Type 0 where
  pub controls : LogControls
  pub rows : List LogRow
  pub count : ℕ × ℕ
  pub empty_hidden : Bool
  pub url : Params

unfoldable pub set_if : Bool → Text → Text → Params → Params
set_if b k v ps = if b then set k v ps else ps

abbrev pub filled : Text → Bool
filled v = not (is_empty v)

-- The page with the counter and the note written from the rows.
abbrev pub present : LogControls → List LogRow → Params → LogPage
present c rows url =
    let vis = length (select (λ (r : LogRow). not r.hidden) rows) in
    record {
      controls = c;
      rows = rows;
      count = (vis, length rows);
      empty_hidden = ltb 0 vis || length rows == 0;
      url = url;
    }

module _ (to_lower : Text → Text) where
  unfoldable pub log_ok : LogControls → LogRow → Bool
  log_ok c r =
      let q = to_lower (trim c.q) in
      (is_empty q || contains (to_lower (or_text r.hay [])) q)
      && (attr_ok (value_of c.status) r.kind
          && (attr_ok (value_of c.model) r.model
              && (attr_ok (value_of c.backend) r.backend
                  && (attr_ok (value_of c.key) r.key && ms_ok (value_of c.ms) r.ms))))

  -- The query that `apply` writes.
  unfoldable pub url_of : LogControls → Params
  url_of c =
      let p1 = set_if (filled (to_lower (trim c.q))) (lit "q") (trim c.q) [] in
      let p2 = set_if (filled (value_of c.status)) (lit "status") (value_of c.status) p1 in
      let p3 = set_if (filled (value_of c.model)) (lit "model") (value_of c.model) p2 in
      let p4 = set_if (filled (value_of c.backend)) (lit "backend") (value_of c.backend) p3 in
      let p5 = set_if (filled (value_of c.key)) (lit "key") (value_of c.key) p4 in
      set_if (filled (value_of c.ms)) (lit "ms") (value_of c.ms) p5

  abbrev pub mark_row : LogControls → LogRow → LogRow
  mark_row c r = record r { hidden = not (log_ok c r) }

  unfoldable pub apply : LogPage → LogPage
  apply p = present p.controls (map (mark_row p.controls) p.rows) (url_of p.controls)

  -- What the script does when it starts: the controls are read from the address, then `apply`.
  unfoldable pub read_url : Params → LogControls → LogControls
  read_url ps c = record {
    q = or_text (get (lit "q") ps) c.q;
    status = set_sel c.status (get (lit "status") ps);
    model = set_sel c.model (get (lit "model") ps);
    backend = set_sel c.backend (get (lit "backend") ps);
    key = set_sel c.key (get (lit "key") ps);
    ms = set_sel c.ms (get (lit "ms") ps);
  }

  unfoldable pub start : LogPage → LogPage
  start p = apply (record p { controls = read_url p.url p.controls })

-- The click on `#log-clear`.
abbrev pub reset : LogControls → LogControls
reset c = record {
  q = [];
  status = record c.status { index = 0 };
  model = record c.model { index = 0 };
  backend = record c.backend { index = 0 };
  key = record c.key { index = 0 };
  ms = record c.ms { index = 0 };
}

unfoldable pub clear : (Text → Text) → LogPage → LogPage
clear to_lower p = apply to_lower (record p { controls = reset p.controls })
