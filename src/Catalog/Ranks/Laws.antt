-- ===== src/Catalog/Ranks/Laws.antt =====
-- What the rank of a hub node says about its rating.
use mikrollm.Base.{
  ℕ, ◌+◌, ◌<◌, ◌≤◌, ◌≡◌, refl, ap, ◌∙◌, ◌↔◌, Option, none, some, Bool, false, not, ◌&&◌, List, [],
  ◌∷◌, if◌then◌else◌, ◌==◌, text_eq, eq_iff, arith, All, Bool-cases, inl, inr,
}
use mikrollm.Base.Text.{Text, is_empty}
use mikrollm.Base.Text.Int.{ℤ, ltb_ℤ}
use mikrollm.Catalog.{ModelRow}
use mikrollm.Catalog.Ranks.{
  Entry, put_best, best_from, add_row, best, is_hub, node_of, rating_of, key_before, rating_before,
  ranked, rank_from, rank,
}
use mikrollm.Catalog.Ranks.Entries.{
  rating_at, Distinct, tally, Descending, tally-sort_by, rating_at-sort_by, Distinct-sort_by,
  Descending-sort_by,
}

-- The greater of two ratings, of which the first may be missing.
abbrev greater : Option ℤ → ℤ → Option ℤ
greater none r = some r
greater (some w) r = some (if ltb_ℤ w r then r else w)

-- The rows that rate the node `id`, read one by one.
rates : Text → ModelRow → Bool
rates id row = is_hub row && (not (is_empty (node_of row)) && node_of row == id)

-- The best rating of a node over the rows, from a rating that is known before.
abbrev best_rating_from : Option ℤ → Text → List ModelRow → Option ℤ
best_rating_from known id [] = known
best_rating_from known id (row ∷ rows) =
    best_rating_from (if rates id row then greater known (rating_of row) else known) id rows

pub best_rating : Text → List ModelRow → Option ℤ
best_rating id rows = best_rating_from none id rows

rating_at-put_best :
    (k id : Text) (r : ℤ) (es : List Entry)
    → rating_at k (put_best id r es)
      ≡ (if id == k then greater (rating_at k es) r else rating_at k es)
unfolding rating_at put_best
rating_at-put_best k id r [] = ground arith
rating_at-put_best k id r (e ∷ es) =
    ground (arith, eq_iff e.node id, eq_iff e.node k, eq_iff id k, rating_at-put_best k id r es)

Distinct-put_best :
    (id : Text) (r : ℤ) (es : List Entry) → Distinct es → Distinct (put_best id r es)
unfolding put_best rating_at
Distinct-put_best id r [] h = (refl, tt)
Distinct-put_best id r (e ∷ es) h = ground (
  arith,
  eq_iff e.node id,
  eq_iff id e.node,
  rating_at-put_best e.node id r es,
  Distinct-put_best id r es,
)

rating_at-add_row :
    (id : Text) (es : List Entry) (row : ModelRow)
    → rating_at id (add_row es row)
      ≡ (if rates id row then greater (rating_at id es) (rating_of row) else rating_at id es)
unfolding add_row rates
rating_at-add_row id es row = ground (arith, rating_at-put_best id (node_of row) (rating_of row) es)

Distinct-add_row : (es : List Entry) (row : ModelRow) → Distinct es → Distinct (add_row es row)
unfolding add_row
Distinct-add_row es row h = elim (Bool-cases (is_hub row && not (is_empty (node_of row)))) [
  | inl y ↦ rw y (Distinct-put_best (node_of row) (rating_of row) es h)
  | inr n ↦ rw n h
]

rating_at-best_from :
    (id : Text) (rows : List ModelRow) (es : List Entry)
    → rating_at id (best_from es rows) ≡ best_rating_from (rating_at id es) id rows
unfolding best_from
rating_at-best_from id [] es = refl
rating_at-best_from id (row ∷ rows) es =
    rating_at-best_from id rows (add_row es row)
    ∙ ap (λ k. best_rating_from k id rows) (rating_at-add_row id es row)

Distinct-best_from :
    (rows : List ModelRow) (es : List Entry) → Distinct es → Distinct (best_from es rows)
unfolding best_from
Distinct-best_from [] es h = h
Distinct-best_from (row ∷ rows) es h =
    Distinct-best_from rows (add_row es row) (Distinct-add_row es row h)

-- Whether an entry is rated above `a`, and whether it is rated `a` or above.
abbrev pub better : ℤ → Entry → Bool
better a e = ltb_ℤ a e.rating

abbrev pub at_least : ℤ → Entry → Bool
at_least a e = not (ltb_ℤ e.rating a)

none_better :
    (a : ℤ) (es : List Entry) → All (λ d. ltb_ℤ a d.rating ≡ false) es → tally (better a) es ≡ 0
unfolding tally
none_better a [] h = refl
none_better a (e ∷ es) h = ground (arith, none_better a es)

below_first :
    (id : Text) (r a : ℤ) (es : List Entry)
    → All (λ d. ltb_ℤ r d.rating ≡ false) es
    → rating_at id es ≡ some a
    → ltb_ℤ r a ≡ false
unfolding rating_at
below_first id r a [] h k = cc
below_first id r a (e ∷ es) h k = ground (arith, below_first id r a es)

ltb_ℤ_irrefl : (a : ℤ) → ltb_ℤ a a ≡ false
ltb_ℤ_irrefl a = ground arith

rank_from-bounds :
    (id : Text) (i k : ℕ) (a : ℤ) (es : List Entry)
    → Descending es
    → rank_from i id es ≡ some k
    → rating_at id es ≡ some a
    → (i + tally (better a) es ≤ k) × (k < i + tally (at_least a) es)
unfolding rank_from rating_at tally
rank_from-bounds id i k a [] d h r = cc
rank_from-bounds id i k a (e ∷ es) d h r = ground (
  arith,
  none_better a es,
  ltb_ℤ_irrefl a,
  below_first id e.rating a es,
  rank_from-bounds id (i + 1) k a es,
)

rank_from-none :
    (id : Text) (i : ℕ) (es : List Entry) → (rank_from i id es ≡ none) ↔ (rating_at id es ≡ none)
unfolding rank_from rating_at
rank_from-none id i [] = ground arith
rank_from-none id i (e ∷ es) = ground (arith, rank_from-none id (i + 1) es)

rating_at-ranked :
    (id : Text) (rows : List ModelRow) → rating_at id (ranked rows) ≡ best_rating id rows
unfolding ranked best best_rating rating_at
rating_at-ranked id rows =
    let distinct = Distinct-best_from rows [] tt in
    rating_at-sort_by rating_before id _ (Distinct-sort_by key_before _ distinct)
    ∙ rating_at-sort_by key_before id _ distinct
    ∙ rating_at-best_from id rows []

tally-ranked :
    (p : Entry → Bool) (rows : List ModelRow) → tally p (ranked rows) ≡ tally p (best rows)
unfolding ranked
tally-ranked p rows = tally-sort_by rating_before p _ ∙ tally-sort_by key_before p (best rows)

pub rank_bounds :
    (rows : List ModelRow) (id : Text)
    → ((rank rows id ≡ none) ↔ (best_rating id rows ≡ none))
      × ((k : ℕ) (a : ℤ)
          → rank rows id ≡ some k
          → best_rating id rows ≡ some a
          → (tally (better a) (best rows) < k) × (k ≤ tally (at_least a) (best rows)))
unfolding rank
rank_bounds rows id = (
  rw (← rating_at-ranked id rows) (rank_from-none id 1 (ranked rows)),
  λ k a h r.
      bounds k a (rank_from-bounds id 1 k a (ranked rows) sorted h (rating_at-ranked id rows ∙ r)),
)
  where
    sorted : Descending (ranked rows)
    sorted = unfold ranked in Descending-sort_by _

    bounds :
        (k : ℕ) (a : ℤ)
        → (1 + tally (better a) (ranked rows) ≤ k) × (k < 1 + tally (at_least a) (ranked rows))
        → (tally (better a) (best rows) < k) × (k ≤ tally (at_least a) (best rows))
    bounds k a h = omega (arith, tally-ranked (better a) rows, tally-ranked (at_least a) rows)

-- What a place and a best rating of a node say of each other: neither is there without the other,
-- and the place is above the number of nodes that are rated better and at most the number of those
-- that are rated at least as good.
abbrev pub IsPlaced : List ModelRow → Option ℕ → Option ℤ → Type 0
IsPlaced rows none none = Unit
IsPlaced rows none (some a) = ⊥
IsPlaced rows (some k) none = ⊥
IsPlaced rows (some k) (some a) =
    (tally (better a) (best rows) < k) × (k ≤ tally (at_least a) (best rows))

rank-IsPlaced :
    (rows : List ModelRow) (id : Text) (o : Option ℕ) (q : Option ℤ)
    → rank rows id ≡ o
    → best_rating id rows ≡ q
    → IsPlaced rows o q
rank-IsPlaced rows id none none h r = tt
rank-IsPlaced rows id none (some a) h r = cc (r, (rank_bounds rows id).0.0 h)
rank-IsPlaced rows id (some k) none h r = cc (h, (rank_bounds rows id).0.1 r)
rank-IsPlaced rows id (some k) (some a) h r = (rank_bounds rows id).1 k a h r

-- A node has no rank exactly if no hub row rates it. The rank of a node that is rated is above the
-- number of nodes with a better best rating than its own, and at most the number of nodes with one
-- that is at least as good: it stands behind every better node and before every worse one.
pub rank_lem :
    (rows : List ModelRow) (id : Text) → IsPlaced rows (rank rows id) (best_rating id rows)
rank_lem rows id = rank-IsPlaced rows id (rank rows id) (best_rating id rows) refl refl
