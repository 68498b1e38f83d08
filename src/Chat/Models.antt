-- ===== src/Chat/Models.antt =====
-- The model and the mode of the chat playground: `mediaKind`, `filterModels`, `syncModeToModel`,
-- and the references that `filterModels` drops in the chat mode.
pub mod Laws
use mikrollm.Base.{
  ℕ, zero, suc, ◌+◌, Option, none, some, Bool, true, false, not, ◌&&◌, ◌||◌, List, [], ◌∷◌, map,
  if◌then◌else◌, ◌==◌, text_eq, get_elem?,
}
use mikrollm.Base.Text.{Text, lit, or_text, is_empty, contains}
use mikrollm.Chat.{Mode, chat, image, video}

-- An option of `#chat-model`; `hidden` stands for `hidden` and `disabled`, which are set together.
pub record ModelOption : Type 0 where
  pub value : Text
  pub media : Option Text
  pub hidden : Bool

-- The model select (`selected`: `selectedIndex`, `none` for -1), the mode select and the references.
pub record Composer : Type 0 where
  pub options : List ModelOption
  pub selected : Option ℕ
  pub mode : Mode
  pub refs : List Text

unfoldable pub media_kind : Text → Mode
media_kind media =
    let v = contains media (lit "video") in
    let im = contains media (lit "image") in
    if v && not im then video else if im && not v then image else chat

unfoldable pub selected_option : Composer → Option ModelOption
selected_option c = elim c.selected [ none ↦ none | some i ↦ get_elem? c.options i ]

-- `modelEl.value`
unfoldable pub model_value : Composer → Text
unfolding selected_option
model_value c = elim (selected_option c) [ none ↦ [] | some o ↦ o.value ]

unfoldable pub option_media : Composer → Text
unfolding selected_option
option_media c = elim (selected_option c) [ none ↦ [] | some o ↦ or_text o.media [] ]

-- Whether an option can serve a mode.
unfoldable pub serves : Mode → ModelOption → Bool
serves chat o = true
serves image o = contains (or_text o.media []) (lit "image")
serves video o = contains (or_text o.media []) (lit "video")

-- The options after the loop of `filterModels`; one with no value is not touched.
abbrev pub filter_option : Mode → ModelOption → ModelOption
filter_option m o = if is_empty o.value then o else record o { hidden = not (serves m o) }

-- The variable `first`: the index of the first option with a value that serves the mode.
unfoldable pub first_from : ℕ → Mode → List ModelOption → Option ℕ
first_from i m [] = none
first_from i m (o ∷ os) =
    if not (is_empty o.value) && serves m o then some i else first_from (i + 1) m os

abbrev pub is_hidden : Option ModelOption → Bool
is_hidden none = false
is_hidden (some o) = o.hidden

abbrev pub is_chat : Mode → Bool
is_chat chat = true
is_chat image = false
is_chat video = false

unfoldable pub filter_models : Composer → Composer
filter_models c =
    let options = map (filter_option c.mode) c.options in
    let first = first_from 0 c.mode c.options in
    let shown = record c { options = options; refs = if is_chat c.mode then [] else c.refs } in
    if is_hidden (selected_option shown)
    then elim first [ none ↦ shown | some i ↦ record shown { selected = some i } ]
    else shown

-- The mode that `syncModeToModel` leaves in `#gen-mode`.
abbrev pub wanted_mode : Mode → Mode → Mode
wanted_mode chat m = m
wanted_mode image m = image
wanted_mode video m = video

unfoldable pub sync_mode_to_model : Composer → Composer
sync_mode_to_model c =
    filter_models (record c { mode = wanted_mode (media_kind (option_media c)) c.mode })

-- The first option with a value, counted from `i`.
unfoldable pub option_from : ℕ → Text → List ModelOption → Option ℕ
option_from i v [] = none
option_from i v (o ∷ os) = if o.value == v then some i else option_from (i + 1) v os

-- `if (modelEl && v) modelEl.value = v`
unfoldable pub set_model : Text → Composer → Composer
set_model v c = if is_empty v then c else record c { selected = option_from 0 v c.options }
