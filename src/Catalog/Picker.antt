-- ===== src/Catalog/Picker.antt =====
-- `keyPicker`: the chips of the models that are picked for a key, and the handlers that change the
-- check boxes. Also the box "all models", which disables the check boxes.
pub mod Laws
use mikrollm.Base.{
  ℕ, zero, suc, Option, none, some, Bool, true, false, not, ◌&&◌, List, [], ◌∷◌, if◌then◌else◌,
  ◌==◌, text_eq, length,
}
use mikrollm.Base.Text.{Text, is_empty}
use mikrollm.Catalog.{ModelRow, CheckBox}
use mikrollm.Catalog.Band.{Floats}
use mikrollm.Catalog.Filter.{Controls, PickNode, heading, pick, Target, key_rows, Tables, apply}

-- The chips in order, the number beside them, and whether the note "nothing picked" is hidden.
-- `filtered` tells whether `bindModelFilters` returned a function.
pub record Picker : Type 0 where
  pub tables : Tables
  pub controls : Controls
  pub filtered : Bool
  pub chips : List Text
  pub picked : ℕ
  pub note_hidden : Bool

-- The values of `input[name=model]:checked`.
unfoldable pub selected : List PickNode → List Text
selected [] = []
selected (heading h ∷ ns) = selected ns
selected (pick r ∷ ns) = elim r.checkbox [
  | none ↦ selected ns
  | some b ↦ if b.checked then b.value ∷ selected ns else selected ns
]

abbrev pub map_box : (CheckBox → CheckBox) → ModelRow → ModelRow
map_box f r = record r { checkbox = elim r.checkbox [ none ↦ none | some b ↦ some (f b) ] }

-- A change of the check boxes of all rows.
unfoldable pub map_boxes : (ModelRow → CheckBox → CheckBox) → List PickNode → List PickNode
map_boxes f [] = []
map_boxes f (heading h ∷ ns) = heading h ∷ map_boxes f ns
map_boxes f (pick r ∷ ns) = pick (map_box (f r) r) ∷ map_boxes f ns

unfoldable pub sync_picked : Picker → Picker
sync_picked p =
    let chips = selected p.tables.picks in
    record p { chips = chips; picked = length chips; note_hidden = not (is_empty chips) }

abbrev pub with_boxes : (ModelRow → CheckBox → CheckBox) → Picker → Picker
with_boxes f p = record p { tables = record p.tables { picks = map_boxes f p.tables.picks } }

abbrev pub uncheck : CheckBox → CheckBox
uncheck b = record b { checked = false }

-- The click on the chip `name`.
unfoldable pub remove_box : Text → ModelRow → CheckBox → CheckBox
remove_box name r b = if b.value == name then uncheck b else b

-- The button of the group `g`: the rows that are visible, of boxes that are not disabled.
unfoldable pub check_box : Text → ModelRow → CheckBox → CheckBox
check_box g r b =
    if elim r.group [ none ↦ false | some h ↦ h == g ] && (not r.hidden && not b.disabled)
    then record b { checked = true }
    else b

module _ (fl : Floats) (to_lower : Text → Text) where
  -- `syncPicked(); if (applyKeyFilters) applyKeyFilters();`
  unfoldable pub refresh : Picker → Picker
  refresh p =
      let q = sync_picked p in
      if q.filtered then record q { tables = apply fl to_lower key_rows q.controls q.tables } else q

  -- The handlers. `change` is the event after the user has set the boxes to what they are.
  unfoldable pub change : Picker → Picker
  change p = refresh p

  unfoldable pub remove_chip : Text → Picker → Picker
  remove_chip name p = refresh (with_boxes (remove_box name) p)

  unfoldable pub clear_picked : Picker → Picker
  clear_picked p = refresh (with_boxes (λ _ b. uncheck b) p)

  unfoldable pub check_group : Text → Picker → Picker
  check_group g p = refresh (with_boxes (check_box g) p)

-- `sync` of the box `#all-models`, on the boxes of the key's models.
unfoldable pub sync_all_models : Bool → List PickNode → List PickNode
sync_all_models all = map_boxes (λ _ b. record b { disabled = all })
