-- ===== src/Catalog/Filter/Groups.antt =====
-- The headings of the groups of a key's models after a pass of the filters.
use mikrollm.Base.{◌≡◌, refl, ap, ◌∙◌, Bool, true, false, not, List, [], ◌∷◌, ◌++◌, map, arith, all}
use mikrollm.Base.Text.{Text}
use mikrollm.Catalog.{ModelRow}
use mikrollm.Catalog.Band.{Floats}
use mikrollm.Catalog.Filter.{
  Controls, PickNode, heading, pick, key_rows, Tables, row_ok, filter_row, filter_picks,
  any_visible, update_groups, apply,
}

-- A pass over the group headings at the end of a group: what follows is a heading or nothing.
abbrev pub StartsGroup : List PickNode → Type 0
StartsGroup [] = Unit
StartsGroup (heading _ ∷ _) = Unit
StartsGroup (pick _ ∷ _) = ⊥

abbrev pub picks_of : List ModelRow → List PickNode
picks_of rs = map pick rs

any_visible-picks :
    (rs : List ModelRow) (ms : List PickNode)
    → StartsGroup ms
    → any_visible (picks_of rs ++ ms) ≡ not (all (λ r. r.hidden) rs)
unfolding any_visible
any_visible-picks [] [] s = refl
any_visible-picks [] (heading g ∷ ms) s = refl
any_visible-picks [] (pick r ∷ ms) s = absurd s
any_visible-picks (r ∷ rs) ms s = ground (arith, any_visible-picks rs ms)

update_groups-picks :
    (rs : List ModelRow) (ms : List PickNode)
    → update_groups (picks_of rs ++ ms) ≡ picks_of rs ++ update_groups ms
unfolding update_groups
update_groups-picks [] ms = refl
update_groups-picks (r ∷ rs) ms = ap (pick r ∷◌) (update_groups-picks rs ms)

not-not : (b : Bool) → not (not b) ≡ b
not-not true = refl
not-not false = refl

any_visible-append :
    (ns ms : List PickNode) (h : Bool) → any_visible (ns ++ heading h ∷ ms) ≡ any_visible ns
unfolding any_visible
any_visible-append [] ms h = refl
any_visible-append (heading g ∷ ns) ms h = refl
any_visible-append (pick r ∷ ns) ms h = ground (arith, any_visible-append ns ms h)

-- The headings in front of a heading do not depend on what stands behind it.
update_groups-append :
    (ns ms : List PickNode) (h : Bool)
    → update_groups (ns ++ heading h ∷ ms) ≡ update_groups ns ++ update_groups (heading h ∷ ms)
unfolding update_groups
update_groups-append [] ms h = refl
update_groups-append (heading g ∷ ns) ms h =
    rw (any_visible-append ns ms h)
      (ap (heading (not (any_visible ns)) ∷◌) (update_groups-append ns ms h))
update_groups-append (pick r ∷ ns) ms h = ap (pick r ∷◌) (update_groups-append ns ms h)

update_groups-group :
    (ns ms : List PickNode) (h : Bool) (rs : List ModelRow)
    → StartsGroup ms
    → update_groups (ns ++ heading h ∷ (picks_of rs ++ ms))
      ≡ update_groups ns ++ heading (all (λ r. r.hidden) rs) ∷ (picks_of rs ++ update_groups ms)
unfolding update_groups
update_groups-group ns ms h rs s =
    update_groups-append ns (picks_of rs ++ ms) h
    ∙ rw (any_visible-picks rs ms s, not-not, update_groups-picks rs ms) refl

all_hidden :
    (p : ModelRow → Bool) (f : ModelRow → ModelRow) (rs : List ModelRow)
    → ((r : ModelRow) → (f r).hidden ≡ p r)
    → all (λ r. r.hidden) (map f rs) ≡ all p rs
all_hidden p f [] h = refl
all_hidden p f (r ∷ rs) h = ground (arith, h r, all_hidden p f rs h)

module _ (fl : Floats) (to_lower : Text → Text) (c : Controls) (t : Tables) where
  abbrev pub filtered : ModelRow → ModelRow
  filtered r = filter_row fl to_lower t.catalog.rows c r

  filter_picks-append :
      (ns ms : List PickNode)
      → filter_picks fl to_lower t.catalog.rows c (ns ++ ms)
        ≡ filter_picks fl to_lower t.catalog.rows c ns
          ++ filter_picks fl to_lower t.catalog.rows c ms
  unfolding filter_picks
  filter_picks-append [] ms = refl
  filter_picks-append (heading h ∷ ns) ms = ap (heading h ∷◌) (filter_picks-append ns ms)
  filter_picks-append (pick r ∷ ns) ms = ap (pick (filtered r) ∷◌) (filter_picks-append ns ms)

  filter_picks-picks :
      (rs : List ModelRow)
      → filter_picks fl to_lower t.catalog.rows c (picks_of rs) ≡ picks_of (map filtered rs)
  unfolding filter_picks
  filter_picks-picks [] = refl
  filter_picks-picks (r ∷ rs) = ap (pick (filtered r) ∷◌) (filter_picks-picks rs)

  filter_picks-StartsGroup :
      (ms : List PickNode)
      → StartsGroup ms
      → StartsGroup (filter_picks fl to_lower t.catalog.rows c ms)
  unfolding filter_picks
  filter_picks-StartsGroup [] s = tt
  filter_picks-StartsGroup (heading h ∷ ms) s = tt
  filter_picks-StartsGroup (pick r ∷ ms) s = absurd s

  -- After a pass over a key's models, the heading of a group is hidden exactly if no row of the
  -- group passes the filters, wherever the group stands; its rows are those before the pass, each
  -- hidden exactly if it does not pass; and the groups before and behind it are treated the same
  -- way.
  pub apply-group :
      (ns ms : List PickNode) (h : Bool) (rs : List ModelRow)
      → StartsGroup ms
      → t.picks ≡ ns ++ heading h ∷ (picks_of rs ++ ms)
      → (apply fl to_lower key_rows c t).picks
        ≡ (apply fl to_lower key_rows c (record t { picks = ns })).picks
          ++ heading (all (λ r. not (row_ok fl to_lower t.catalog.rows c r)) rs)
            ∷ (picks_of (map filtered rs)
                ++ (apply fl to_lower key_rows c (record t { picks = ms })).picks)
  unfolding apply filter_picks
  apply-group ns ms h rs s e =
      ap (λ ps. update_groups (pass ps)) e
      ∙ ap update_groups (filter_picks-append ns (heading h ∷ (picks_of rs ++ ms)))
      ∙ ap (λ ps. update_groups (pass ns ++ heading h ∷ ps)) behind
      ∙ update_groups-group (pass ns) (pass ms) h (map filtered rs) (filter_picks-StartsGroup ms s)
      ∙ ap
          (λ b.
            update_groups (pass ns)
            ++ heading b ∷ (picks_of (map filtered rs) ++ update_groups (pass ms)))
          (all_hidden _ filtered rs (λ r. refl))
    where
      pass : List PickNode → List PickNode
      pass = filter_picks fl to_lower t.catalog.rows c

      behind : pass (picks_of rs ++ ms) ≡ picks_of (map filtered rs) ++ pass ms
      behind =
          filter_picks-append (picks_of rs) ms ∙ ap (λ ps. ps ++ pass ms) (filter_picks-picks rs)
