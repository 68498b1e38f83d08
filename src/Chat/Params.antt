-- ===== src/Chat/Params.antt =====
-- The form of extra parameters (`renderParams`, `paramInput`, `collectExtraParams`) and the pictures
-- that are attached (`addRefFiles`).
pub mod Laws
pub mod Load
use mikrollm.Base.{
  ℕ, zero, suc, ◌-◌, Option, none, some, Bool, true, false, not, ◌&&◌, ◌||◌, List, [], ◌∷◌, ◌++◌,
  if◌then◌else◌, ◌==◌, text_eq, any, take, length, leb, select,
}
use mikrollm.Base.Text.{Text, lit, is_empty, or_text, trim}
use mikrollm.Base.Text.Int.{ℤ, parse_int}
use mikrollm.Catalog.Band.{Floats}

-- A parameter of a schema. Empty texts stand for missing fields; `default` is the default value as a
-- text, and `enum` the list of choices as texts.
pub record Param : Type 0 where
  pub name : Text
  pub typ : Text
  pub required : Bool
  pub default : Option Text
  pub enum : List Text

pub record Schema : Type 0 where
  pub parameters : List Param
  pub required_parameters : List Text

unfoldable pub skip_param : Text → Bool
unfolding lit
skip_param name =
    name == lit "prompt"
    || (name == lit "model"
        || (name == lit "input_images"
            || (name == lit "input_reference"
                || (name == lit "input_references" || name == lit "n"))))

unfoldable pub is_image_param : Param → Bool
unfolding lit
is_image_param p =
    p.typ == lit "image" || (p.name == lit "input_image" || p.name == lit "input_video")

-- `required.indexOf(name) >= 0`
abbrev pub lists : List Text → Text → Bool
lists required name = any (λ r. r == name) required

unfoldable pub needs_input_image : Schema → Bool
unfolding lit
needs_input_image s =
    lists s.required_parameters (lit "input_image")
    || (lists s.required_parameters (lit "input_images")
        || lists s.required_parameters (lit "input_video"))

-- An element with `data-param`: its name and `data-type`, and what the user sees in it.
pub record Element : Type 0 where
  pub name : Text
  pub typ : Text
  pub is_checkbox : Bool
  pub checked : Bool
  pub value : Text

-- A row of the form: its parameter's name, whether it is marked as required, and its element, or
-- `none` for the place that pictures are dropped on.
pub record Row : Type 0 where
  pub name : Text
  pub starred : Bool
  pub element : Option Element

-- The values of `#chat-temp` and `#chat-max`, empty where there is no such control.
pub record Composed : Type 0 where
  pub temp : Text
  pub max : Text

unfoldable pub default_of : Composed → Param → Option Text
unfolding lit
default_of c p =
    if p.name == lit "max_tokens" && not (is_empty c.max)
    then some c.max
    else if p.name == lit "temperature" && not (is_empty c.temp)
    then some c.temp
    else p.default

abbrev pub text_of : Option Text → Text
text_of none = []
text_of (some t) = t

-- The value of a `select` element: the choice that the default names, or the first one.
abbrev pub chosen_of : Option Text → List Text → Text
chosen_of def [] = []
chosen_of none (o ∷ os) = o
chosen_of (some d) (o ∷ os) = if lists (o ∷ os) d then d else o

unfoldable pub is_boolean : Text → Bool
unfolding lit
is_boolean t = t == lit "boolean" || t == lit "bool"

unfoldable pub param_input : Composed → Param → Element
unfolding lit
param_input c p =
    let def = default_of c p in
    let typ = or_text (some p.typ) (lit "string") in
    record {
      name = p.name;
      typ = typ;
      is_checkbox = is_empty p.enum && is_boolean typ;
      checked = is_empty p.enum && is_boolean typ && text_of def == lit "true";
      value =
          if is_empty p.enum
          then if is_boolean typ then lit "on" else text_of def
          else chosen_of def p.enum;
    }

-- A row of the form, for a parameter that is shown.
unfoldable pub row_of : Composed → List Text → Param → Row
row_of c required p = record {
  name = p.name;
  starred = p.required || lists required p.name;
  element = if is_image_param p then none else some (param_input c p);
}

-- The loop of `renderParams`, with its variable `sawImage`.
unfoldable pub rows_from : Composed → List Text → List Param → Bool → List Row
rows_from c required [] saw_image = []
rows_from c required (p ∷ ps) saw_image =
    let rest = rows_from c required ps in
    if is_empty p.name || skip_param p.name
    then rest saw_image
    else if is_image_param p && saw_image
    then rest saw_image
    else row_of c required p ∷ rest (saw_image || is_image_param p)

unfoldable pub render_params : Composed → Schema → List Row
render_params c s = rows_from c s.required_parameters s.parameters false

-- The elements of a form, `#chat-params-fields [data-param]`.
unfoldable pub elements : List Row → List Element
elements [] = []
elements (r ∷ rs) = elim r.element [ none ↦ elements rs | some e ↦ e ∷ elements rs ]

-- `out[name] = v` on an object, by its keys and values.
unfoldable pub put : {A : Type 0} → Text → A → List (Text × A) → List (Text × A)
put k v [] = (k, v) ∷ []
put k v ((j, w) ∷ out) = if j == k then (k, v) ∷ out else (j, w) ∷ put k v out

module _ (fl : Floats) where
  open fl use {Num, parse_float}

  pub data Value : Type 0 where
    flag : Bool → Value
    whole : ℤ → Value
    real : Num → Value
    words : Text → Value

  unfoldable pub number_of : Text → Text → Option Value
  unfolding lit
  number_of typ v =
      if typ == lit "integer" || typ == lit "int"
      then elim (parse_int v) [ none ↦ none | some z ↦ some (whole z) ]
      else if typ == lit "number" || typ == lit "float"
      then elim (parse_float v) [ none ↦ none | some f ↦ some (real f) ]
      else some (words v)

  -- What the body of the loop sends of an element.
  unfoldable pub value_of : Element → Option Value
  value_of e =
      if is_empty e.name
      then none
      else if e.is_checkbox
      then some (flag e.checked)
      else if is_empty (trim e.value)
      then none
      else number_of e.typ (trim e.value)

  -- The assignment at the end of the body, where there is something to send.
  unfoldable pub put_some : Text → Option Value → List (Text × Value) → List (Text × Value)
  put_some k none out = out
  put_some k (some v) out = put k v out

  unfoldable pub collect_from : List Element → List (Text × Value) → List (Text × Value)
  collect_from [] out = out
  collect_from (e ∷ es) out = collect_from es (put_some e.name (value_of e) out)

  unfoldable pub collect_extra_params : List Element → List (Text × Value)
  collect_extra_params es = collect_from es []

-- `addRefFiles`: what is attached when the pictures have been read, from the array `refs` at the call
-- and the one at that time. `none` is a file that is not a readable picture.
abbrev pub max_refs : ℕ
max_refs = 6

abbrev pub with_url : Option Text → Option (List Text) → Option (List Text)
with_url none us = none
with_url (some u) none = none
with_url (some u) (some us) = some (if is_empty u then us else u ∷ us)

unfoldable pub read_all : List (Option Text) → Option (List Text)
read_all [] = some []
read_all (f ∷ fs) = with_url f (read_all fs)

unfoldable pub add_ref_files : List (Option Text) → List Text → List Text → List Text
add_ref_files files before refs =
    let room = max_refs - length before in
    if leb room 0
    then refs
    else elim (read_all (take room files)) [ none ↦ refs | some us ↦ refs ++ us ]

-- The cross on the picture `i`: `refs.splice(i, 1)`.
unfoldable pub remove_ref : ℕ → List Text → List Text
remove_ref i [] = []
remove_ref zero (u ∷ us) = us
remove_ref (suc i) (u ∷ us) = u ∷ remove_ref i us
