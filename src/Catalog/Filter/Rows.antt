-- ===== src/Catalog/Filter/Rows.antt =====
-- Which rows pass the filters.
use mikrollm.Base.{
  ℕ, ◌<◌, ◌≡◌, refl, ◌⊎◌, some, true, List, [], text_eq, arith, Option-cases, inl, inr, list_beq,
}
use mikrollm.Base.Text.{Text, lit, trim}
use mikrollm.Base.Text.Int.{ℤ}
use mikrollm.Catalog.{ModelRow}
use mikrollm.Catalog.Band.{Floats, match_band}
use mikrollm.Catalog.Ranks.{is_hub, rank, best, ranked}
use mikrollm.Catalog.Ranks.Entries.{tally}
use mikrollm.Catalog.Ranks.Laws.{best_rating, better, rank_bounds}
use mikrollm.Catalog.Filter.{
  Controls, chosen, name_ok, provider_ok, rank_ok, server_ok, media_ok, picked_ok, row_ok,
}

-- No filter is set.
pub record IsClear (c : Controls) : Type 0 where
  pub no_name : chosen c.name ≡ []
  pub no_provider : chosen c.provider ≡ []
  pub no_price : chosen c.price ≡ []
  pub no_media : chosen c.media ≡ []
  pub no_server : chosen c.server ≡ []
  pub not_only : picked_ok c.only_picked ≡ (λ _. true)

module _ (fl : Floats) (to_lower : Text → Text) (lower-empty : to_lower [] ≡ []) where
  -- With no filter set, every row passes. (The lower case of the empty text is empty.)
  pub row_ok-clear :
      (rows : List ModelRow) (c : Controls) (row : ModelRow)
      → IsClear c
      → row_ok fl to_lower rows c row ≡ true
  unfolding row_ok name_ok provider_ok server_ok media_ok match_band trim lit list_beq
  row_ok-clear rows c row h =
      rw (h.no_name, h.no_provider, h.no_price, h.no_media, h.no_server, h.not_only, lower-empty)
        refl

-- The row is one of a hub node that fewer than `lim` nodes of the catalog are rated above.
abbrev IsRankedWithin : ℕ → List ModelRow → ModelRow → Type 0
IsRankedWithin lim rows row =
    (is_hub row ≡ true)
    × (a : ℤ) × (best_rating (chosen row.hub_node) rows ≡ some a)
    × (tally (better a) (best rows) < lim)

rank_ok_lem :
    (rows : List ModelRow) (lim : ℕ) (row : ModelRow)
    → rank_ok rows lim row ≡ true
    → IsRankedWithin lim rows row
unfolding rank_ok
rank_ok_lem rows lim row h = elim (Option-cases (rank rows (chosen row.hub_node))) [
  | inl unranked ↦ ground arith
  | inr (k, ranked) ↦ elim (Option-cases (best_rating (chosen row.hub_node) rows)) [
    | inl unrated ↦ cc ((rank_bounds rows (chosen row.hub_node)).0.1 unrated)
    | inr (a, rated) ↦
        let place = (rank_bounds rows (chosen row.hub_node)).1 k a ranked rated in
        (ground arith, a, rated, ground arith)
  ]
]

server_top :
    (rows : List ModelRow) (row : ModelRow)
    → (server_ok rows (chosen (some (lit "__hub_top10__"))) row ≡ rank_ok rows 10 row)
      × (server_ok rows (chosen (some (lit "__hub_top100__"))) row ≡ rank_ok rows 100 row)
unfolding server_ok lit list_beq
server_top rows row = (refl, refl)

module _ (fl : Floats) (to_lower : Text → Text) (rows : List ModelRow) (c : Controls)
    (row : ModelRow) where
  server_of_row : row_ok fl to_lower rows c row ≡ true → server_ok rows (chosen c.server) row ≡ true
  unfolding row_ok
  server_of_row h = ground arith

  -- A row that passes while the server filter asks for the top 10 (100) hub nodes is a row of a hub
  -- node, and fewer than 10 (100) of the nodes in the catalog are rated above that node.
  pub top_rows :
      row_ok fl to_lower rows c row ≡ true
      → (lim : ℕ)
      → ((c.server ≡ some (lit "__hub_top10__")) × (lim ≡ 10))
        ⊎ ((c.server ≡ some (lit "__hub_top100__")) × (lim ≡ 100))
      → IsRankedWithin lim rows row
  top_rows h lim (inl (e, l)) =
      rank_ok_lem rows lim row (rw (l, ← (server_top rows row).0, ← e) (server_of_row h))
  top_rows h lim (inr (e, l)) =
      rank_ok_lem rows lim row (rw (l, ← (server_top rows row).1, ← e) (server_of_row h))
