-- ===== src/Catalog/Filter/Laws.antt =====
-- What a pass of the filters leaves in the tables: rows, counters, pages and group headings.
use mikrollm.Base.{
  if◌then◌else◌, ℕ, ◌+◌, ◌≡◌, refl, ap, sym, subst, ◌∙◌, Option, some, Bool, true, false, not, List,
  [], ◌∷◌, map, arith, length, length-map,
}
use mikrollm.Base.Text.{Text, is_empty}
use mikrollm.Catalog.{ModelRow}
use mikrollm.Catalog.Band.{Floats}
use mikrollm.Catalog.Pager.{Catalog, paginate, visible, show_all, mark}
use mikrollm.Catalog.Filter.{
  Controls, PickNode, heading, pick, model_rows, Tables, row_ok, filter_row, update_groups,
  pick_rows, counter, apply,
}
use mikrollm.Catalog.Filter.Admits.{Sifted, row_ok-Sifted}
use mikrollm.Catalog.Filter.Rows.{IsClear, row_ok-clear}

-- Which rows are hidden by the filters.
abbrev pub hidden_flags : List ModelRow → List Bool
hidden_flags rs = map (λ r. r.hidden) rs

flags-show_all : (rs : List ModelRow) → hidden_flags (show_all rs) ≡ hidden_flags rs
unfolding show_all
flags-show_all [] = refl
flags-show_all (r ∷ rs) = ground (arith, flags-show_all rs)

flags-mark :
    (from to i : ℕ) (rs : List ModelRow) → hidden_flags (mark from to i rs) ≡ hidden_flags rs
unfolding mark
flags-mark from to i [] = refl
flags-mark from to i (r ∷ rs) =
    ground (arith, flags-mark from to i rs, flags-mark from to (i + 1) rs)

-- Drawing a page hides and shows no row by filter.
flags-paginate :
    (reset : Bool) (c : Catalog) → hidden_flags (paginate reset c).rows ≡ hidden_flags c.rows
unfolding paginate
flags-paginate reset c = grind (arith, flags-mark, flags-show_all)

visible-flags :
    (rs ts : List ModelRow) → hidden_flags rs ≡ hidden_flags ts → visible rs ≡ visible ts
unfolding visible
visible-flags [] [] h = refl
visible-flags [] (t ∷ ts) h = cc
visible-flags (r ∷ rs) [] h = cc
visible-flags (r ∷ rs) (t ∷ ts) h = ground (arith, visible-flags rs ts)

visible-paginate : (reset : Bool) (c : Catalog) → visible (paginate reset c).rows ≡ visible c.rows
visible-paginate reset c = visible-flags _ _ (flags-paginate reset c)

visible_all :
    (rs ts : List ModelRow) → hidden_flags rs ≡ map (λ _. false) ts → visible rs ≡ length ts
unfolding visible
visible_all [] [] h = refl
visible_all [] (t ∷ ts) h = cc
visible_all (r ∷ rs) [] h = cc
visible_all (r ∷ rs) (t ∷ ts) h = ground (arith, visible_all rs ts)

counter_lem :
    (rs : List ModelRow) (old : Option (ℕ × ℕ))
    → counter rs old ≡ (if is_empty rs then old else some (visible rs, length rs))
counter_lem [] old = refl
counter_lem (r ∷ rs) old = refl

is_empty-map {ℓ κ} :
    {A : Type ℓ} {B : Type κ} (f : A → B) (xs : List A) → is_empty (map f xs) ≡ is_empty xs
is_empty-map f [] = refl
is_empty-map f (x ∷ xs) = refl

pick_rows-update_groups : (ns : List PickNode) → pick_rows (update_groups ns) ≡ pick_rows ns
unfolding update_groups
pick_rows-update_groups [] = refl
pick_rows-update_groups (heading h ∷ ns) = pick_rows-update_groups ns
pick_rows-update_groups (pick r ∷ ns) = ap (r ∷◌) (pick_rows-update_groups ns)

module _ (fl : Floats) (to_lower : Text → Text) (c : Controls) (t : Tables) where
  abbrev pub after : Tables
  after = apply fl to_lower model_rows c t

  abbrev passes : ModelRow → Bool
  passes r = row_ok fl to_lower t.catalog.rows c r

  flags-filter :
      (rs : List ModelRow)
      → hidden_flags (map (filter_row fl to_lower t.catalog.rows c) rs)
        ≡ map (λ r. not (passes r)) rs
  flags-filter [] = refl
  flags-filter (r ∷ rs) = ap (not (passes r) ∷◌) (flags-filter rs)

  flags-after : hidden_flags after.catalog.rows ≡ map (λ r. not (passes r)) t.catalog.rows
  unfolding apply
  flags-after =
      flags-paginate true
        (record t.catalog { rows = map (filter_row fl to_lower t.catalog.rows c) t.catalog.rows })
      ∙ flags-filter t.catalog.rows

  -- Each row in its place has the flag that the filters leave it with.
  abbrev pub Sifts : List ModelRow → List Bool → Type 0
  Sifts [] [] = Unit
  Sifts (r ∷ rs) (h ∷ hs) = Sifted fl to_lower t.catalog.rows c r h × Sifts rs hs
  Sifts _ _ = ⊥

  passes-Sifts : (rs : List ModelRow) → Sifts rs (map (λ r. not (passes r)) rs)
  passes-Sifts [] = tt
  passes-Sifts (r ∷ rs) = (row_ok-Sifted fl to_lower t.catalog.rows c r, passes-Sifts rs)

  -- A pass over the catalog leaves each of its rows, in its place, on show if every control admits it,
  -- and hidden if one does not: the query is empty or stands in its name, title or provider; the
  -- provider is the chosen one; the row is a hub's, of a hub's node with a rank within the top 10 or
  -- 100, or on the chosen server; its price is in the chosen band; its media are the chosen ones; and it
  -- is picked if only picked rows are asked for. The page that is drawn then changes none of that, and
  -- unless the catalog is empty the counter holds the number of visible rows and that of all rows. The
  -- key's rows and counter stay.
  pub apply-model_rows :
      Sifts t.catalog.rows (hidden_flags after.catalog.rows)
      × (after.catalog_count ≡ (
          if is_empty t.catalog.rows
          then t.catalog_count
          else some (visible after.catalog.rows, length t.catalog.rows)))
      × (pick_rows after.picks ≡ pick_rows t.picks)
      × (after.key_count ≡ t.key_count)
  unfolding apply
  apply-model_rows = (
    subst (Sifts t.catalog.rows) (sym flags-after) (passes-Sifts t.catalog.rows),
    counter_lem rows' t.catalog_count
        ∙ rw
            (
              visible-paginate true (record t.catalog { rows = rows' }),
              length-map (filter_row fl to_lower t.catalog.rows c) t.catalog.rows,
              is_empty-map (filter_row fl to_lower t.catalog.rows c) t.catalog.rows,
            )
            refl,
    pick_rows-update_groups t.picks,
    refl,
  )
    where
      rows' : List ModelRow
      rows' = map (filter_row fl to_lower t.catalog.rows c) t.catalog.rows

  all_pass :
      to_lower [] ≡ []
      → IsClear c
      → (rs : List ModelRow) → map (λ r. not (passes r)) rs ≡ map (λ _. false) rs
  all_pass e h [] = refl
  all_pass e h (r ∷ rs) =
      rw (row_ok-clear fl to_lower e t.catalog.rows c r h) (ap (false ∷◌) (all_pass e h rs))

  -- With no filter set, a pass over the catalog makes every row visible. (The lower case of the
  -- empty text is empty.)
  pub apply-clear :
      to_lower [] ≡ [] → IsClear c → visible after.catalog.rows ≡ length t.catalog.rows
  apply-clear e h = visible_all _ t.catalog.rows (flags-after ∙ all_pass e h t.catalog.rows)
