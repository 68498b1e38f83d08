-- ===== src/Catalog/Filter/Servers.antt =====
-- What the server filter asks of a row, choice by choice, and that the test of `bindModelFilters` decides
-- it.
use mikrollm.Base.{
  ℕ, ◌≤◌, ◌≡◌, refl, some, Bool, true, false, ◌||◌, List, [], ◌==◌, text_eq, any, list_beq, eq_iff,
  arith, Bool-cases, or_cases, Option-cases, inl, inr,
}
use mikrollm.Base.Text.{Text, lit, is_empty, empty_nil, split}
use mikrollm.Catalog.{ModelRow}
use mikrollm.Catalog.Ranks.{is_hub, rank}
use mikrollm.Catalog.Filter.{chosen, rank_ok, server_ok}

-- The choices of the server filter that ask for hubs.
abbrev pub asks_hub : Text → Bool
asks_hub server =
    server == lit "__hub__" || (server == lit "__hub_top10__" || server == lit "__hub_top100__")

pub data FitsServer (rows : List ModelRow) (server : Text) (row : ModelRow) : Type 0 where
  any_server : server ≡ [] → FitsServer rows server row
  of_hub : server ≡ lit "__hub__" → is_hub row ≡ true → FitsServer rows server row
  of_top_10 :
      server ≡ lit "__hub_top10__"
      → is_hub row ≡ true
      → (k : ℕ) → rank rows (chosen row.hub_node) ≡ some k
      → k ≤ 10
      → FitsServer rows server row
  of_top_100 :
      server ≡ lit "__hub_top100__"
      → is_hub row ≡ true
      → (k : ℕ) → rank rows (chosen row.hub_node) ≡ some k
      → k ≤ 100
      → FitsServer rows server row
  on_server :
      asks_hub server ≡ false
      → any (λ s. s == server) (split b',' (chosen row.servers)) ≡ true
      → FitsServer rows server row

module _ (rows : List ModelRow) (row : ModelRow) where
  -- The rank of the node of a hub row is within `lim`.
  rank_within :
      (lim : ℕ)
      → rank_ok rows lim row ≡ true
      → (is_hub row ≡ true) × (k : ℕ) × (rank rows (chosen row.hub_node) ≡ some k) × (k ≤ lim)
  unfolding rank_ok
  rank_within lim h = elim (Option-cases (rank rows (chosen row.hub_node))) [
    | inl e ↦ absurd (ground (arith, h, e))
    | inr (k, e) ↦ (ground (arith, h, e), k, e, ground (arith, h, e))
  ]

  within_rank :
      (lim k : ℕ)
      → is_hub row ≡ true
      → rank rows (chosen row.hub_node) ≡ some k
      → k ≤ lim
      → rank_ok rows lim row ≡ true
  unfolding rank_ok
  within_rank lim k y e l = rw (y, e) (ground (arith, l))

  pub server_sound : (server : Text) → server_ok rows server row ≡ true → FitsServer rows server row
  unfolding server_ok
  server_sound server h = elim (Bool-cases (server == lit "__hub__")) [
    | inl y ↦ of_hub ((eq_iff server (lit "__hub__")).0 y) (ground (arith, h, y))
    | inr n ↦ elim (Bool-cases (server == lit "__hub_top10__")) [
      | inl y ↦
          let (hub, k, e, l) = rank_within 10 (ground (arith, h, n, y)) in
          of_top_10 ((eq_iff server (lit "__hub_top10__")).0 y) hub k e l
      | inr j ↦ elim (Bool-cases (server == lit "__hub_top100__")) [
        | inl y ↦
            let (hub, k, e, l) = rank_within 100 (ground (arith, h, n, j, y)) in
            of_top_100 ((eq_iff server (lit "__hub_top100__")).0 y) hub k e l
        | inr i ↦ elim (or_cases (is_empty server) _ (ground (arith, h, n, j, i))) [
          | inl e ↦ any_server (empty_nil server e)
          | inr e ↦ on_server (ground (arith, n, j, i)) e
        ]
      ]
    ]
  ]

  pub server_complete :
      (server : Text) → FitsServer rows server row → server_ok rows server row ≡ true
  unfolding server_ok lit list_beq
  server_complete server (any_server e) = rw e refl
  server_complete server (of_hub e y) = rw (e, y) refl
  server_complete server (of_top_10 e y k r l) = rw e (within_rank 10 k y r l)
  server_complete server (of_top_100 e y k r l) = rw e (within_rank 100 k y r l)
  server_complete server (on_server n e) = ground (arith, n, e)
