-- ===== src/Jobs/Actions.antt =====
-- The buttons that load, unload and delete a model, and the form that downloads one: what they ask, what
-- they request, and what the answer does to the page.
pub mod Laws
use mikrollm.Base.{
  Option, none, some, Bool, true, false, not, ◌||◌, ◌++◌, if◌then◌else◌, ◌==◌, text_eq,
}
use mikrollm.Base.Text.{Text, lit, is_empty, either, trim}
use mikrollm.Jobs.{LoadButton, PullForm}
use mikrollm.Jobs.Watch.{Page, poll_jobs, on_some}

-- `data-ollama`, `data-name-from` and the button itself.
pub record ModelButton : Type 0 where
  pub action : Text
  pub from : Text
  pub button : LoadButton

-- What is asked of the server: nothing, since the id or the name is missing, of which the buttons
-- complain with an alert; nothing, since the user declined; or a request to an address with a name.
pub data Asked : Type 0 where
  missing declined : Asked
  requests : Text → Text → Asked

unfoldable pub loads_model : Text → Bool
unfolding lit
loads_model action = action == lit "load"

-- The question of `confirm`.
unfoldable pub verb : Text → Text → Text
unfolding lit
verb action name =
    if loads_model action
    then lit "Загрузить «"
      ++ name
      ++ lit "» в RAM? Для большой модели это может занять несколько минут."
    else if action == lit "delete"
    then lit "Удалить «" ++ name ++ lit "» с диска сервера?"
    else lit "Выгрузить «" ++ name ++ lit "» из RAM?"

unfoldable pub address : Text → Text → Text
unfolding lit
address id action = lit "/admin/ollama/" ++ id ++ lit "/" ++ action

-- The name of the model: that of the field the button points at, where there is one.
abbrev pub field_name : Option Text → Text → Text
field_name none name = name
field_name (some v) name = trim v

unfoldable pub name_of : (Text → Option Text) → ModelButton → Text
name_of field b = if is_empty b.from then b.button.name else field_name (field b.from) b.button.name

unfoldable pub pressed : ModelButton → ModelButton
unfolding lit
pressed b = record b {
  button = record b.button {
    disabled = true;
    label = if loads_model b.action then lit "загрузка…" else b.button.label;
  };
}

-- The handler up to its request; `confirms` is what the user answers to a question.
unfoldable pub click : (Text → Option Text) → (Text → Bool) → ModelButton → ModelButton × Asked
click field confirms b =
    let name = name_of field b in
    if is_empty b.button.id || is_empty name
    then (b, missing)
    else if not (confirms (verb b.action name))
    then (b, declined)
    else (pressed b, requests (address b.button.id b.action) name)

-- The end of a request: a response with its `ok` and the error it tells of, or a failure.
pub data Reply : Type 0 where
  told : Bool → Text → Reply
  broken : Text → Reply

-- What the page shows then: an alert, and whether it loads again.
pub record Settled : Type 0 where
  pub button : ModelButton
  pub page : Page
  pub alert : Option Text
  pub reloads : Bool

abbrev pub restored : Text → ModelButton → ModelButton
restored old b = record b { button = record b.button { disabled = false; label = old } }

abbrev pub failed_with : Text → Text → ModelButton → Page → Settled
failed_with message old b p = record {
  button = restored old b;
  page = p;
  alert = some message;
  reloads = false;
}

unfoldable pub error_of : Text → Text
unfolding lit
error_of error = either error (lit "ошибка")

-- The handler from its request on; `old` is the label before the click.
unfoldable pub settle : Text → Reply → ModelButton → Page → Settled
settle old (broken message) b p = failed_with message old b p
settle old (told ok error) b p =
    if not ok
    then failed_with (error_of error) old b p
    else if loads_model b.action
    then record { button = b; page = poll_jobs p; alert = none; reloads = false }
    else record { button = b; page = p; alert = none; reloads = true }

-- The form for downloads, for the values of its two fields.
unfoldable pub pull : Text → Text → PullForm → PullForm × Asked
unfolding lit
pull id raw f =
    let name = trim raw in
    if is_empty id || is_empty name
    then (f, missing)
    else (record f { disabled = true }, requests (address id (lit "pull")) name)

abbrev pub enabled : PullForm → PullForm
enabled f = record f { disabled = false }

abbrev pub opened : PullForm → PullForm
opened f = record f { card_open = true }

unfoldable pub settle_pull : Reply → Page → Page × Option Text
settle_pull (broken message) p =
    (record p { pull_form = on_some enabled p.pull_form }, some message)
settle_pull (told ok error) p =
    if not ok
    then (record p { pull_form = on_some enabled p.pull_form }, some (error_of error))
    else (poll_jobs (record p { pull_form = on_some opened p.pull_form }), none)
