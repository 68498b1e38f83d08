-- ===== src/Page/Memory.antt =====
-- What the pages remember in the local storage: whether the panel of the queue is open, the model of the
-- playground, and the size of the catalog's pages.
use mikrollm.Base.{
  ℕ, zero, suc, ◌+◌, ◌≡◌, refl, sym, ap, ◌∙◌, Option, none, some, Bool, true, false, not, List, [],
  ◌∷◌, if◌then◌else◌, ◌==◌, text_eq, eq_iff, list_beq, get_elem?, any, arith, Bool-cases, inl, inr,
}
use mikrollm.Base.Text.{Text, lit, is_empty}
use mikrollm.Chat.Models.{
  ModelOption, Composer, selected_option, model_value, option_from, sync_mode_to_model,
}
use mikrollm.Catalog.Pager.{Catalog, paginate}

-- `#chat-q-panel`, the class and the attribute of its toggle, and the entry "ml-chat-q".
pub record Panel : Type 0 where
  pub hidden : Bool
  pub is_open : Bool
  pub expanded : Bool
  pub entry : Option Text

-- What the storage keeps when a text is written to it.
abbrev pub kept : Bool → Text → Option Text → Option Text
kept takes text old = if takes then some text else old

-- `setQOpen`
unfoldable pub set_q_open : Bool → Bool → Panel → Panel
unfolding lit
set_q_open takes on p = record {
  hidden = not on;
  is_open = on;
  expanded = on;
  entry = kept takes (if on then lit "1" else lit "0") p.entry;
}

unfoldable pub click_toggle : Bool → Panel → Panel
click_toggle takes p = set_q_open takes p.hidden p

abbrev pub is_one : Option Text → Bool
is_one none = false
is_one (some t) = t == lit "1"

-- `setQOpen(localStorage.getItem("ml-chat-q") === "1")`
unfoldable pub load_panel : Bool → Panel → Panel
load_panel takes p = set_q_open takes (is_one p.entry) p

abbrev pub clicks : Bool → ℕ → Panel → Panel
clicks takes zero p = p
clicks takes (suc n) p = clicks takes n (click_toggle takes p)

-- The model that was chosen last, if the select still has it.
abbrev pub select_found : Option ℕ → Composer → Composer
select_found none c = c
select_found (some i) c = record c { selected = some i }

unfoldable pub restore_model : Option Text → Composer → Composer
restore_model none c = c
restore_model (some v) c = if is_empty v then c else select_found (option_from 0 v c.options) c

-- The user chooses the option `i`: what is stored, and the composer after `syncModeToModel`.
unfoldable pub choose_model : ℕ → Composer → Composer × Text
choose_model i c = let d = record c { selected = some i } in (sync_mode_to_model d, model_value d)

-- `sizeEl.value = s`, for a select with these values.
abbrev pub set_size : List Text → Text → Text
set_size values s = if any (λ v. v == s) values then s else []

abbrev pub stored_size : List Text → Option Text → Text → Text
stored_size values none now = now
stored_size values (some s) now = if is_empty s then now else set_size values s

abbrev pub on_size : (Text → Text) → Option Text → Option Text
on_size f none = none
on_size f (some v) = some (f v)

unfoldable pub open_catalog : List Text → Option Text → Catalog → Catalog
open_catalog values entry c =
    paginate false (record c { size = on_size (stored_size values entry) c.size })

-- The user chooses a size: the catalog, and what is stored.
unfoldable pub change_size : Bool → Text → Option Text → Catalog → Catalog × Option Text
change_size takes v entry c = (paginate true (record c { size = some v }), kept takes v entry)

-- The panel, its toggle and its entry agree.
record Agrees (p : Panel) : Type 0 where
  pub class_eq : p.is_open ≡ not p.hidden
  pub attribute_eq : p.expanded ≡ not p.hidden
  pub entry_eq : is_one p.entry ≡ not p.hidden

is_one-entry : (on : Bool) → is_one (some (if on then lit "1" else lit "0")) ≡ on
unfolding lit list_beq
is_one-entry true = refl
is_one-entry false = refl

not-not : (b : Bool) → not (not b) ≡ b
not-not b = ground arith

set_q_open-Agrees : (on : Bool) (p : Panel) → Agrees (set_q_open true on p)
unfolding set_q_open
set_q_open-Agrees on p = record {
  class_eq = sym (not-not on);
  attribute_eq = sym (not-not on);
  entry_eq = is_one-entry on ∙ sym (not-not on);
}

clicks-Agrees : (n : ℕ) (p : Panel) → Agrees p → Agrees (clicks true n p)
unfolding click_toggle
clicks-Agrees zero p h = h
clicks-Agrees (suc n) p h = clicks-Agrees n (click_toggle true p) (set_q_open-Agrees p.hidden p)

hidden-load_panel : (takes : Bool) (p : Panel) → (load_panel takes p).hidden ≡ not (is_one p.entry)
unfolding load_panel set_q_open
hidden-load_panel takes p = refl

-- Where the storage takes what is written: after a page is loaded and any number of clicks on the
-- toggle, the class and the attribute of the toggle tell whether the panel is shown, and a page that is
-- loaded with the entry that is left shows or hides the panel as it was.
pub panel_lem :
    (n : ℕ) (p fresh : Panel)
    → ((clicks true n (load_panel true p)).is_open ≡ not (clicks true n (load_panel true p)).hidden)
      × ((clicks true n (load_panel true p)).expanded
          ≡ not (clicks true n (load_panel true p)).hidden)
      × ((load_panel true
            (record fresh { entry = (clicks true n (load_panel true p)).entry })).hidden
          ≡ (clicks true n (load_panel true p)).hidden)
unfolding load_panel
panel_lem n p fresh =
    let q = clicks true n (load_panel true p) in
    let h = clicks-Agrees n (load_panel true p) (set_q_open-Agrees (is_one p.entry) p) in
    (
      h.class_eq,
      h.attribute_eq,
      hidden-load_panel true (record fresh { entry = q.entry })
          ∙ ap not h.entry_eq
          ∙ not-not q.hidden,
    )

-- The option that a value leads back to has that value.
abbrev LeadsBack : ℕ → Text → List ModelOption → Type 0
LeadsBack k v os =
    (j : ℕ) × (p : ModelOption) × (option_from k v os ≡ some (k + j))
    × (get_elem? os j ≡ some p)
    × (p.value ≡ v)

LeadsBack-cons :
    (k : ℕ) (v : Text) (p : ModelOption) (os : List ModelOption)
    → (p.value == v) ≡ false
    → LeadsBack (k + 1) v os
    → LeadsBack k v (p ∷ os)
unfolding option_from
LeadsBack-cons k v p os n (j, q, found, there, same) =
    (suc j, q, rw n (found ∙ ap some (omega arith)), there, same)

LeadsBack-here :
    (k : ℕ) (v : Text) (p : ModelOption) (os : List ModelOption)
    → (p.value == v) ≡ true
    → LeadsBack k v (p ∷ os)
unfolding option_from
LeadsBack-here k v p os y = (0, p, rw y (ap some (omega arith)), refl, (eq_iff p.value v).0 y)

option_from-LeadsBack :
    (k i : ℕ) (o : ModelOption) (os : List ModelOption)
    → get_elem? os i ≡ some o
    → LeadsBack k o.value os
option_from-LeadsBack k i o [] h = absurd (cc h)
option_from-LeadsBack k zero o (p ∷ os) h =
    let same : p.value ≡ o.value = cc h in
    LeadsBack-here k o.value p os ((eq_iff p.value o.value).1 same)
option_from-LeadsBack k (suc i) o (p ∷ os) h = elim (Bool-cases (p.value == o.value)) [
  | inl y ↦ LeadsBack-here k o.value p os y
  | inr n ↦ LeadsBack-cons k o.value p os n (option_from-LeadsBack (k + 1) i o os h)
]

abbrev value_or : Option ModelOption → Text
value_or none = []
value_or (some o) = o.value

model_value_lem : (c : Composer) → model_value c ≡ value_or (selected_option c)
unfolding model_value selected_option
model_value_lem c = ground arith

model_value-at :
    (j : ℕ) (c : Composer) (p : ModelOption)
    → get_elem? c.options j ≡ some p
    → model_value (record c { selected = some j }) ≡ p.value
unfolding selected_option
model_value-at j c p e = model_value_lem (record c { selected = some j }) ∙ ap value_or e

restored :
    (i : ℕ) (o : ModelOption) (d : Composer)
    → get_elem? d.options i ≡ some o
    → is_empty o.value ≡ false
    → model_value (restore_model (some o.value) d) ≡ o.value
unfolding restore_model
restored i o d there full =
    let (j, p, found, here, same) = option_from-LeadsBack 0 i o d.options there in
    let at : option_from 0 o.value d.options ≡ some j = found ∙ ap some (omega arith) in
    rw (full, at) (model_value-at j d p here ∙ same)

-- When the user chooses an option of the models that has a value, the playground that is loaded with
-- what is then stored, with the same options and whatever was selected in it, has that model.
pub choose_model_lem :
    (i : ℕ) (o : ModelOption) (c fresh : Composer)
    → get_elem? c.options i ≡ some o
    → is_empty o.value ≡ false
    → model_value (restore_model (some (choose_model i c).1) (record fresh { options = c.options }))
      ≡ o.value
unfolding choose_model
choose_model_lem i o c fresh there full =
    rw (model_value-at i c o there) (restored i o (record fresh { options = c.options }) there full)

-- The page size survives a reload if the storage takes it and the select has it.
size-paginate : (reset : Bool) (c : Catalog) → (paginate reset c).size ≡ c.size
unfolding paginate
size-paginate reset c = ground arith

stored_size-kept :
    (values : List Text) (v now : Text)
    → any (λ w. w == v) values ≡ true
    → is_empty v ≡ false
    → stored_size values (some v) now ≡ v
stored_size-kept values v now there full = rw (full, there) refl

-- The size of the catalog's pages that the user chooses is the size after the page is loaded again, if
-- the storage takes it and the select has it, and it is not empty.
pub change_size_lem :
    (values : List Text) (v old : Text) (entry : Option Text) (c fresh : Catalog)
    → any (λ w. w == v) values ≡ true
    → is_empty v ≡ false
    → (open_catalog values (change_size true v entry c).1 (record fresh { size = some old })).size
      ≡ some v
unfolding open_catalog change_size
change_size_lem values v old entry c fresh there full =
    size-paginate false _ ∙ ap some (stored_size-kept values v old there full)
