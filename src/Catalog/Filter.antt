-- ===== src/Catalog/Filter.antt =====
-- `bindModelFilters`: the filters over the catalog and over the models of a key.
pub mod Rows
pub mod Prices
pub mod Servers
pub mod Admits
pub mod Laws
pub mod Groups
use mikrollm.Base.{
  ℕ, ◌+◌, ◌≤◌, Option, none, some, Bool, true, false, not, ◌&&◌, ◌||◌, List, [], ◌∷◌, map,
  if◌then◌else◌, leb, ◌==◌, ◌!=◌, text_eq, any, length,
}
use mikrollm.Base.Text.{Text, lit, or_text, is_empty, trim, contains, split}
use mikrollm.Catalog.{ModelRow, CheckBox}
use mikrollm.Catalog.Band.{Floats, match_band}
use mikrollm.Catalog.Ranks.{is_hub, rank}
use mikrollm.Catalog.Pager.{Catalog, paginate, visible}

-- The controls; `none` where the page has no such control.
pub record Controls : Type 0 where
  pub name : Option Text
  pub provider : Option Text
  pub price : Option Text
  pub media : Option Text
  pub server : Option Text
  pub only_picked : Option Bool

-- The children of `#key-models`: group headings, with whether they are hidden, and rows.
pub data PickNode : Type 0 where
  heading : Bool → PickNode
  pick : ModelRow → PickNode

-- Which rows a filter is bound to: `.model-tr` or `#key-models .pick`.
pub data Target : Type 0 where
  model_rows : Target
  key_rows : Target

-- The two tables of the document, and the counters "vis из total" behind them (`none`: not yet
-- written).
pub record Tables : Type 0 where
  pub catalog : Catalog
  pub picks : List PickNode
  pub catalog_count : Option (ℕ × ℕ)
  pub key_count : Option (ℕ × ℕ)

abbrev pub is_checked : Option CheckBox → Bool
is_checked none = false
is_checked (some b) = b.checked

-- The value of a control, empty where there is none.
abbrev pub chosen : Option Text → Text
chosen v = or_text v []

unfoldable pub provider_ok : Text → ModelRow → Bool
provider_ok prov row = is_empty prov || chosen row.provider == prov

-- The rank test of "__hub_top10__" and "__hub_top100__", over the rows of the catalog.
unfoldable pub rank_ok : List ModelRow → ℕ → ModelRow → Bool
rank_ok rows lim row =
    is_hub row && elim (rank rows (chosen row.hub_node)) [ none ↦ false | some k ↦ leb k lim ]

unfoldable pub server_ok : List ModelRow → Text → ModelRow → Bool
server_ok rows server row =
    if server == lit "__hub__"
    then is_hub row
    else if server == lit "__hub_top10__"
    then rank_ok rows 10 row
    else if server == lit "__hub_top100__"
    then rank_ok rows 100 row
    else is_empty server || any (λ s. s == server) (split b',' (chosen row.servers))

abbrev pub picked_ok : Option Bool → ModelRow → Bool
picked_ok none row = true
picked_ok (some only) row = not only || is_checked row.checkbox

module _ (to_lower : Text → Text) where
  abbrev pub query : Controls → Text
  query c = to_lower (trim (chosen c.name))

  unfoldable pub name_ok : Text → ModelRow → Bool
  name_ok q row =
      is_empty q
      || (contains (to_lower (chosen row.name)) q
          || (contains (to_lower (chosen row.title)) q
              || contains (to_lower (chosen row.provider)) q))

  unfoldable pub media_ok : Text → ModelRow → Bool
  media_ok media row =
      let row_media = to_lower (chosen row.media) in
      (media != lit "image" || contains row_media (lit "image"))
      && ((media != lit "video" || contains row_media (lit "video"))
          && (media != lit "chat" || is_empty row_media))

module _ (fl : Floats) (to_lower : Text → Text) where
  -- The variable `ok` after the body of the loop over the rows.
  unfoldable pub row_ok : List ModelRow → Controls → ModelRow → Bool
  row_ok rows c row =
      name_ok to_lower (query to_lower c) row
      && (provider_ok (chosen c.provider) row
          && (server_ok rows (chosen c.server) row
              && (match_band fl (or_text row.band (lit "none")) row.prompt (chosen c.price)
                  && (media_ok to_lower (chosen c.media) row && picked_ok c.only_picked row))))

  abbrev pub filter_row : List ModelRow → Controls → ModelRow → ModelRow
  filter_row rows c row = record row { hidden = not (row_ok rows c row) }

  unfoldable pub filter_picks : List ModelRow → Controls → List PickNode → List PickNode
  filter_picks rows c [] = []
  filter_picks rows c (heading h ∷ ns) = heading h ∷ filter_picks rows c ns
  filter_picks rows c (pick r ∷ ns) = pick (filter_row rows c r) ∷ filter_picks rows c ns

-- The variable `any` of a heading: whether a row up to the next heading is visible.
unfoldable pub any_visible : List PickNode → Bool
any_visible [] = false
any_visible (heading _ ∷ _) = false
any_visible (pick r ∷ ns) = not r.hidden || any_visible ns

-- The loop over `#key-models .pick-group`.
unfoldable pub update_groups : List PickNode → List PickNode
update_groups [] = []
update_groups (heading h ∷ ns) = heading (not (any_visible ns)) ∷ update_groups ns
update_groups (pick r ∷ ns) = pick r ∷ update_groups ns

abbrev pub pick_rows : List PickNode → List ModelRow
pick_rows [] = []
pick_rows (heading _ ∷ ns) = pick_rows ns
pick_rows (pick r ∷ ns) = r ∷ pick_rows ns

-- The counter after a pass over `rows`; it keeps its text if there are none.
abbrev pub counter : List ModelRow → Option (ℕ × ℕ) → Option (ℕ × ℕ)
counter [] old = old
counter (r ∷ rs) old = some (visible (r ∷ rs), length (r ∷ rs))

module _ (fl : Floats) (to_lower : Text → Text) where
  unfoldable pub apply : Target → Controls → Tables → Tables
  apply model_rows c t =
      let rows = map (filter_row fl to_lower t.catalog.rows c) t.catalog.rows in
      record t {
        catalog = paginate true (record t.catalog { rows = rows });
        picks = update_groups t.picks;
        catalog_count = counter rows t.catalog_count;
      }
  apply key_rows c t =
      let picks = filter_picks fl to_lower t.catalog.rows c t.picks in
      record t { picks = update_groups picks; key_count = counter (pick_rows picks) t.key_count }
