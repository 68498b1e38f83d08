-- ===== src/Examples/Tables.antt =====
-- The theorems on markup, the tables and the filters, on small pages.
use mikrollm.Base.{
  ℕ, ◌*◌, ◌<◌, ◌≡◌, refl, none, some, true, false, List, [], ◌∷◌, map, arith, ltb, text_eq, length,
}
use mikrollm.Base.Text.{Text, lit, or_text}
use mikrollm.Base.Text.Int.{pos, negsuc, parse_int}
use mikrollm.Html.{esc_html, esc}
use mikrollm.Html.RoundTrip.{decode, decode-escapes}
use mikrollm.Catalog.{ModelRow}
use mikrollm.Catalog.Band.{Floats}
use mikrollm.Catalog.Pager.{Catalog, page_size, visible, paginate}
use mikrollm.Catalog.Pager.Laws.{IsPage, paginate-IsPage}
use mikrollm.Catalog.Ranks.{rank}
use mikrollm.Catalog.Ranks.Laws.{best_rating, IsPlaced, rank_lem}
use mikrollm.Catalog.Filter.{Controls, heading, pick, Tables, pick_rows}
use mikrollm.Catalog.Filter.Laws.{after, Sifts, hidden_flags, apply-model_rows}
use mikrollm.Catalog.Picker.{Picker, change, remove_chip, clear_picked, check_group}
use mikrollm.Catalog.Picker.Laws.{IsSynced, picker-IsSynced}

ltb_trans : (a b c : ℕ) → ltb a b ≡ true → ltb b c ≡ true → ltb a c ≡ true
ltb_trans a b c h k = ground arith

-- Prices in tenths, read from whole numbers.
abbrev tenths : Floats
tenths = record {
  Num = ℕ;
  parse_float = λ t. elim (parse_int t) [
    | none ↦ none
    | some z ↦ elim z [ pos n ↦ some (10 * n) | negsuc _ ↦ some 0 ]
  ];
  lt = ltb;
  zero = 0;
  half = 5;
  two = 20;
  ten = 100;
  lt_trans = ltb_trans;
  half-lt-two = refl;
  two-lt-ten = refl;
}

abbrev same : Text → Text
same t = t

abbrev row : Text → Text → ModelRow
row name rating = record {
  name = some name;
  title = none;
  provider = some (lit "hub");
  media = none;
  servers = none;
  band = some (lit "free");
  prompt = none;
  hub = some (lit "1");
  hub_node = some name;
  hub_rating = some rating;
  group = some (lit "g");
  checkbox = some (record { value = name; checked = true; disabled = false });
  hidden = false;
  paged_out = false;
}

abbrev rows : List ModelRow
rows = row (lit "a") (lit "3") ∷ row (lit "b") (lit "5") ∷ []

abbrev catalog : Catalog
catalog = record { size = some (lit "1"); has_pager = true; pager = none; rows = rows; page = 1 }

abbrev controls : Controls
controls = record {
  name = some [];
  provider = some [];
  price = some [];
  media = none;
  server = some [];
  only_picked = none;
}

abbrev tables : Tables
tables = record {
  catalog = catalog;
  picks = heading false ∷ map pick rows;
  catalog_count = none;
  key_count = none;
}

abbrev picker : Picker
picker = record {
  tables = tables;
  controls = controls;
  filtered = true;
  chips = [];
  picked = 0;
  note_hidden = false;
}

size_positive : 0 < page_size (lit "1")
unfolding page_size lit parse_int
size_positive = omega arith

paginate-IsPage_example : IsPage (visible rows) (page_size (lit "1")) (paginate true catalog)
paginate-IsPage_example = paginate-IsPage (lit "1") true catalog refl refl size_positive

abbrev first_drawn : Catalog
first_drawn = paginate true catalog

abbrev at_last : Catalog
at_last = record catalog { page = 9 }

rank_lem_example : IsPlaced rows (rank rows (lit "a")) (best_rating (lit "a") rows)
rank_lem_example = rank_lem rows (lit "a")

abbrev asking : Controls
asking = record controls { name = some (lit "a"); server = some (lit "__hub_top10__") }

apply-model_rows_example :
    Sifts tenths same asking tables rows
      (hidden_flags (after tenths same asking tables).catalog.rows)
    × ((after tenths same asking tables).catalog_count
        ≡ some (visible (after tenths same asking tables).catalog.rows, length rows))
    × (pick_rows (after tenths same asking tables).picks ≡ pick_rows tables.picks)
    × ((after tenths same asking tables).key_count ≡ none)
apply-model_rows_example = apply-model_rows tenths same asking tables

picker-IsSynced_example :
    IsSynced (change tenths same picker)
    × ((name : Text) → IsSynced (remove_chip tenths same name picker))
    × IsSynced (clear_picked tenths same picker)
    × ((g : Text) → IsSynced (check_group tenths same g picker))
picker-IsSynced_example = picker-IsSynced tenths same picker

decode-escapes_example :
    (decode 34 0 (esc_html (some (lit "a<b>'c'"))) ≡ some (or_text (some (lit "a<b>'c'")) []))
    × (decode 39 0 (esc_html (some (lit "a<b>'c'"))) ≡ some (or_text (some (lit "a<b>'c'")) []))
    × (decode 34 0 (esc (some (lit "a<b>'c'"))) ≡ some (or_text (some (lit "a<b>'c'")) []))
decode-escapes_example = decode-escapes (some (lit "a<b>'c'"))
