-- ===== src/Model.antt =====
-- The dialog of a model: what a click on the settings of a model of the catalog puts into it
-- (`metaRow`, `hostButton` and the handler on `.js-model-settings`).
pub mod Laws
use mikrollm.Base.{
  ℕ, Option, none, some, Bool, true, false, not, ◌&&◌, ◌||◌, List, [], ◌∷◌, ◌++◌, map,
  if◌then◌else◌, ◌==◌, text_eq, select,
}
use mikrollm.Base.Text.{Text, lit, is_empty, either, join}

-- A server that has the model, from the JSON in `data-hosts`; empty texts stand for missing fields.
pub record Host : Type 0 where
  pub id : Text
  pub name : Text
  pub short : Text
  pub hint : Text
  pub label : Text
  pub kind : Text
  pub can_load : Bool
  pub can_delete : Bool
  pub loaded : Bool
  pub hub : Bool
  pub online : Bool
  pub cloud : Bool

-- The data attributes of the button; `hosts` is `none` if `data-hosts` is no JSON.
pub record Dataset : Type 0 where
  pub name : Text
  pub title : Text
  pub connected : Text
  pub hub : Text
  pub hub_name : Text
  pub online : Text
  pub provider : Text
  pub size : Text
  pub ctx : Text
  pub price : Text
  pub media : Text
  pub schedule : Text
  pub ctx_n : Text
  pub hosts : Option (List Host)

-- A button with `data-ollama`, `data-id` and `data-name`.
pub record HostButton : Type 0 where
  pub text : Text
  pub cls : Text
  pub action : Text
  pub id : Text
  pub name : Text

pub record Pill : Type 0 where
  pub cls : Text
  pub text : Text

-- A line of the list of servers.
pub record HostRow : Type 0 where
  pub title : Text
  pub hint : Text
  pub buttons : List HostButton
  pub pills : List Pill

pub record Dialog : Type 0 where
  pub title : Text
  pub sub : Text
  pub meta : List (Text × Text)
  pub rows : List HostRow
  pub connect_hidden : Bool
  pub alias : Text
  pub upstream : Text
  pub ctx : Text
  pub lb : Text
  pub hub_disabled : Bool
  pub hub_id : Text
  pub hub_name : Text
  pub label_hidden : Bool
  pub boxes : List (Text × Text)

abbrev pub one_if {ℓ} : {A : Type ℓ} → Bool → A → List A
one_if b a = if b then a ∷ [] else []

unfoldable pub is_one : Text → Bool
unfolding lit
is_one t = t == lit "1"

unfoldable pub meta_row : Text → Text → List (Text × Text)
meta_row label value = one_if (not (is_empty value)) (label, value)

unfoldable pub bits_of : Dataset → List Text
unfolding lit
bits_of d =
    one_if (not (is_empty d.title)) d.title
    ++ (if is_one d.connected
        then lit "Уже в шлюзе. Имя для клиентов меняется в списке alias ниже." ∷ []
        else one_if (not (is_empty d.hub) && not (is_one d.online)) (lit "Узел сейчас офлайн."))

unfoldable pub meta_of : Dataset → List (Text × Text)
unfolding lit
meta_of d =
    meta_row (lit "Провайдер") d.provider
    ++ meta_row (lit "Размер") d.size
    ++ meta_row (lit "Контекст") d.ctx
    ++ meta_row (lit "Цена") d.price
    ++ meta_row (lit "Тип") d.media
    ++ meta_row (lit "Окно") d.schedule

unfoldable pub load_button : Text → Host → HostButton
unfolding lit
load_button name h =
    if h.loaded
    then record {
      text = lit "Выгрузить из RAM";
      cls = lit "pill-btn ram";
      action = lit "unload";
      id = h.id;
      name = name;
    }
    else record {
      text = lit "В RAM";
      cls = lit "pill-btn";
      action = lit "load";
      id = h.id;
      name = name;
    }

unfoldable pub delete_button : Text → Host → HostButton
unfolding lit
delete_button name h = record {
  text = lit "Удалить с диска";
  cls = lit "btn-sm danger-text";
  action = lit "delete";
  id = h.id;
  name = name;
}

unfoldable pub buttons_of : Text → Host → List HostButton
buttons_of name h =
    one_if (h.can_load && not (is_empty h.id)) (load_button name h)
    ++ one_if (h.can_delete && not (is_empty h.id)) (delete_button name h)

unfoldable pub hub_pill : Bool → Pill
unfolding lit
hub_pill true = record { cls = lit "pill ok"; text = lit "онлайн" }
hub_pill false = record { cls = lit "pill"; text = lit "офлайн" }

unfoldable pub kind_pill : Host → Pill
unfolding lit
kind_pill h =
    let name = if h.cloud then lit "облако" else either h.label (either h.kind (lit "сервер")) in
    record {
      cls = if h.loaded then lit "pill ram" else lit "pill";
      text = if h.loaded then name ++ lit " · RAM" else name;
    }

unfoldable pub pills_of : Host → List Pill
pills_of h = if h.hub then hub_pill h.online ∷ [] else one_if (not h.can_load) (kind_pill h)

unfoldable pub row_of : Text → Host → HostRow
unfolding lit
row_of name h = record {
  title = either h.short (either h.name (lit "сервер"));
  hint = h.hint;
  buttons = buttons_of name h;
  pills = pills_of h;
}

abbrev pub hosts_of : Option (List Host) → List Host
hosts_of none = []
hosts_of (some hs) = hs

-- A box for a server: its value and the text behind it; each box is checked.
unfoldable pub box_of : Host → Text × Text
unfolding lit
box_of h = (
  h.id,
  lit " "
      ++ either h.name (either h.short h.id)
      ++ (if is_empty h.label then [] else lit " · " ++ h.label),
)

unfoldable pub boxes_of : Bool → List Host → List (Text × Text)
boxes_of true hs = []
boxes_of false hs = map box_of (select (λ h. not (is_empty h.id)) hs)

-- The click on the settings of a model.
unfoldable pub show_model : Dataset → Dialog
unfolding lit
show_model d =
    let hosts = hosts_of d.hosts in
    let is_hub = not (is_empty d.hub) in
    record {
      title = either d.name (lit "Модель");
      sub = join (lit " · ") (bits_of d);
      meta = meta_of d;
      rows = map (row_of d.name) hosts;
      connect_hidden = not (not (is_one d.connected) && not (is_hub && not (is_one d.online)));
      alias = d.name;
      upstream = d.name;
      ctx = either d.ctx_n (lit "0");
      lb = lit "least_conn";
      hub_disabled = not is_hub;
      hub_id = if is_hub then d.hub else [];
      hub_name = if is_hub then d.hub_name else [];
      label_hidden = is_hub;
      boxes = boxes_of is_hub hosts;
    }
