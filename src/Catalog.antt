-- ===== src/Catalog.antt =====
-- The model tables of the page script: rows with their data attributes, the price bands, the pages
-- of the catalog, the ranks of hub nodes and the filters.
pub mod Band
pub mod Pager
pub mod Ranks
pub mod Filter
pub mod Picker
use mikrollm.Base.{Option, Bool}
use mikrollm.Base.Text.{Text}

pub record CheckBox : Type 0 where
  pub value : Text
  pub checked : Bool
  pub disabled : Bool

-- A row of `.model-tr` or `#key-models .pick`: its data attributes (`none`: the attribute is not
-- there), its check box `input[name=model]` if it has one, and the classes that the script sets.
pub record ModelRow : Type 0 where
  pub name : Option Text
  pub title : Option Text
  pub provider : Option Text
  pub media : Option Text
  pub servers : Option Text
  pub band : Option Text
  pub prompt : Option Text
  pub hub : Option Text
  pub hub_node : Option Text
  pub hub_rating : Option Text
  pub group : Option Text
  pub checkbox : Option CheckBox
  pub hidden : Bool
  pub paged_out : Bool
