-- ===== src/Catalog/Picker/Laws.antt =====
-- The chips and the check boxes of `keyPicker`, and what its buttons pick and drop.
use mikrollm.Base.{◌≡◌, refl, ◌∙◌, not, List, [], ◌∷◌, ◌==◌, text_eq, length, select, arith}
use mikrollm.Base.Text.{Text, is_empty}
use mikrollm.Catalog.{ModelRow}
use mikrollm.Catalog.Band.{Floats}
use mikrollm.Catalog.Filter.{
  Controls, PickNode, heading, pick, key_rows, Tables, apply, filter_picks, update_groups,
}
use mikrollm.Catalog.Picker.{
  Picker, selected, map_boxes, sync_picked, with_boxes, uncheck, remove_box, check_box, refresh,
  change, remove_chip, clear_picked, check_group,
}

-- The chips, their number and the note agree with the check boxes.
pub record IsSynced (p : Picker) : Type 0 where
  pub chips_eq : p.chips ≡ selected p.tables.picks
  pub picked_eq : p.picked ≡ length (selected p.tables.picks)
  pub note_eq : p.note_hidden ≡ not (is_empty (selected p.tables.picks))

module _ (fl : Floats) (to_lower : Text → Text) where
  selected-filter_picks :
      (rows : List ModelRow) (c : Controls) (ns : List PickNode)
      → selected (filter_picks fl to_lower rows c ns) ≡ selected ns
  unfolding selected filter_picks
  selected-filter_picks rows c [] = refl
  selected-filter_picks rows c (heading h ∷ ns) = selected-filter_picks rows c ns
  selected-filter_picks rows c (pick r ∷ ns) = ground (arith, selected-filter_picks rows c ns)

selected-update_groups : (ns : List PickNode) → selected (update_groups ns) ≡ selected ns
unfolding selected update_groups
selected-update_groups [] = refl
selected-update_groups (heading h ∷ ns) = selected-update_groups ns
selected-update_groups (pick r ∷ ns) = ground (arith, selected-update_groups ns)

selected-remove :
    (name : Text) (ns : List PickNode)
    → selected (map_boxes (remove_box name) ns) ≡ select (λ v. not (v == name)) (selected ns)
unfolding selected map_boxes remove_box
selected-remove name [] = refl
selected-remove name (heading h ∷ ns) = selected-remove name ns
selected-remove name (pick r ∷ ns) = ground (arith, selected-remove name ns)

selected-clear : (ns : List PickNode) → selected (map_boxes (λ _ b. uncheck b) ns) ≡ []
unfolding selected map_boxes
selected-clear [] = refl
selected-clear (heading h ∷ ns) = selected-clear ns
selected-clear (pick r ∷ ns) = ground (arith, selected-clear ns)

selected-apply :
    (fl : Floats) (to_lower : Text → Text) (c : Controls) (t : Tables)
    → selected (apply fl to_lower key_rows c t).picks ≡ selected t.picks
unfolding apply
selected-apply fl to_lower c t =
    selected-update_groups _ ∙ selected-filter_picks fl to_lower t.catalog.rows c t.picks

module _ (fl : Floats) (to_lower : Text → Text) where
  -- The filters do not change what is picked.
  selected-refresh :
      (p : Picker) → selected (refresh fl to_lower p).tables.picks ≡ selected p.tables.picks
  unfolding refresh sync_picked
  selected-refresh p = ground (arith, selected-apply fl to_lower p.controls p.tables)

  refresh-IsSynced : (p : Picker) → IsSynced (refresh fl to_lower p)
  unfolding refresh sync_picked
  refresh-IsSynced p = ground (arith, selected-apply fl to_lower p.controls p.tables)

  -- After each handler of the picker, the chips are the values of the checked boxes in their order,
  -- the number beside them is their number, and the note is hidden exactly if there are any, with
  -- the filters run or not.
  pub picker-IsSynced :
      (p : Picker)
      → IsSynced (change fl to_lower p)
        × ((name : Text) → IsSynced (remove_chip fl to_lower name p))
        × IsSynced (clear_picked fl to_lower p)
        × ((g : Text) → IsSynced (check_group fl to_lower g p))
  unfolding change remove_chip clear_picked check_group
  picker-IsSynced p = (
    refresh-IsSynced p,
    λ name. refresh-IsSynced (with_boxes (remove_box name) p),
    refresh-IsSynced (with_boxes (λ _ b. uncheck b) p),
    λ g. refresh-IsSynced (with_boxes (check_box g) p),
  )

  -- A click on a chip drops exactly the boxes of its model from what is picked, and keeps the order
  -- of the others; the clear-button leaves no box picked.
  pub picked_after :
      (p : Picker)
      → ((name : Text)
          → selected (remove_chip fl to_lower name p).tables.picks
            ≡ select (λ v. not (v == name)) (selected p.tables.picks))
        × (selected (clear_picked fl to_lower p).tables.picks ≡ [])
  unfolding remove_chip clear_picked
  picked_after p = (
    λ name. selected-refresh (with_boxes (remove_box name) p) ∙ selected-remove name p.tables.picks,
    selected-refresh (with_boxes (λ _ b. uncheck b) p) ∙ selected-clear p.tables.picks,
  )
