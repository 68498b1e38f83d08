-- ===== src/Catalog/Ranks.antt =====
-- `hubNodeRanks`: the hub nodes of the catalog, ranked by their best rating. An object that is used
-- as a map is a list of entries in insertion order. (A node named like a property that every object
-- inherits, such as "constructor", is outside this model.)
pub mod Entries
pub mod Laws
use mikrollm.Base.{
  ℕ, zero, suc, ◌+◌, ◌-◌, ◌*◌, ◌<◌, Option, none, some, Bool, true, false, not, ◌&&◌, ◌||◌, List,
  [], ◌∷◌, if◌then◌else◌, ltb, leb, ◌==◌, nat_eq, text_eq, all,
}
use mikrollm.Base.Text.{Text, lit, or_text, is_empty}
use mikrollm.Base.Text.Int.{ℤ, parse_int, int_or_zero, ltb_ℤ}
use mikrollm.Catalog.{ModelRow}

pub record Entry : Type 0 where
  pub node : Text
  pub rating : ℤ

abbrev pub entry : Text → ℤ → Entry
entry id r = record { node = id; rating = r }

-- `if (best[id] == null || r > best[id]) best[id] = r`
unfoldable pub put_best : Text → ℤ → List Entry → List Entry
put_best id r [] = entry id r ∷ []
put_best id r (e ∷ es) =
    if e.node == id then (if ltb_ℤ e.rating r then entry id r else e) ∷ es else e ∷ put_best id r es

unfoldable pub rating_of : ModelRow → ℤ
rating_of row = int_or_zero (parse_int (or_text row.hub_rating (lit "0")))

abbrev pub node_of : ModelRow → Text
node_of row = or_text row.hub_node []

unfoldable pub is_hub : ModelRow → Bool
is_hub row = elim row.hub [ none ↦ false | some h ↦ h == lit "1" ]

-- One round of the loop over `.model-tr[data-hub='1']`; other rows are not visited.
unfoldable pub add_row : List Entry → ModelRow → List Entry
add_row es row =
    if is_hub row && not (is_empty (node_of row))
    then put_best (node_of row) (rating_of row) es
    else es

unfoldable pub best_from : List Entry → List ModelRow → List Entry
best_from es [] = es
best_from es (row ∷ rows) = best_from (add_row es row) rows

unfoldable pub value_from : ℕ → Text → ℕ
value_from acc [] = acc
value_from acc (c ∷ s) = value_from (acc * 10 + (c - 48)) s

-- Whether a property name is an array index: a decimal number below 2^32 - 1, in its shortest form.
unfoldable pub is_index : Text → Bool
is_index [] = false
is_index (c ∷ s) =
    all (λ d. leb b'0' d && leb d b'9') (c ∷ s)
    && (not (c == b'0') || is_empty s)
    && ltb (value_from 0 (c ∷ s)) 4294967295

-- `Object.keys` lists the array indices first, in ascending order, then the rest as inserted:
-- whether `d` goes before `e` where it was inserted earlier.
unfoldable pub key_before : Entry → Entry → Bool
key_before d e =
    if is_index d.node
    then not (is_index e.node) || leb (value_from 0 d.node) (value_from 0 e.node)
    else not (is_index e.node)

-- The comparison of `ids.sort`: `d` stays before `e` unless `e` has the better rating.
unfoldable pub rating_before : Entry → Entry → Bool
rating_before d e = not (ltb_ℤ d.rating e.rating)

-- A stable sort by a comparison.
unfoldable pub insert_by : (Entry → Entry → Bool) → Entry → List Entry → List Entry
insert_by before d [] = d ∷ []
insert_by before d (e ∷ es) = if before d e then d ∷ e ∷ es else e ∷ insert_by before d es

unfoldable pub sort_by : (Entry → Entry → Bool) → List Entry → List Entry
sort_by before [] = []
sort_by before (e ∷ es) = insert_by before e (sort_by before es)

unfoldable pub best : List ModelRow → List Entry
best rows = best_from [] rows

unfoldable pub ranked : List ModelRow → List Entry
ranked rows = sort_by rating_before (sort_by key_before (best rows))

-- `rank[id]`, where the entry with index 0 of the sorted list gets rank `i`.
unfoldable pub rank_from : ℕ → Text → List Entry → Option ℕ
rank_from i id [] = none
rank_from i id (e ∷ es) = if e.node == id then some i else rank_from (i + 1) id es

unfoldable pub rank : List ModelRow → Text → Option ℕ
rank rows id = rank_from 1 id (ranked rows)
