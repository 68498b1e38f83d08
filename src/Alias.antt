-- ===== src/Alias.antt =====
-- The dialog of an alias: the select of models and the boxes of servers (`setBackends`,
-- `ensureOption`, `filterUpstream`, `syncBackendsFromUpstream`), and what a click on the settings of an
-- alias puts into the form.
pub mod Upstream
use mikrollm.Base.{
  ℕ, Option, none, some, Bool, true, false, not, ◌&&◌, ◌||◌, List, [], ◌∷◌, ◌++◌, map,
  if◌then◌else◌, ◌==◌, text_eq, any, select,
}
use mikrollm.Base.Text.{Text, lit, is_empty, either, trim, split}
use mikrollm.Alias.Upstream.{
  Select, Boxes, ensure_option, filter_upstream, set_backends, sync_backends,
}

-- The data attributes of a button `.js-alias-settings`, empty where they are missing.
pub record Dataset : Type 0 where
  pub id : Text
  pub alias : Text
  pub system : Text
  pub remote : Text
  pub provider : Text
  pub upstream : Text
  pub backends : Text
  pub lb : Text
  pub hub_share : Text
  pub context : Text
  pub detected : Text
  pub fallback : Text
  pub cache : Text
  pub think : Text
  pub temp : Text
  pub predict : Text
  pub ctx : Text
  pub extra : Text
  pub lock_think : Text
  pub lock_temp : Text
  pub lock_predict : Text
  pub lock_ctx : Text

-- The part of the form for an alias that this node serves.
pub record LocalPart : Type 0 where
  pub off : Bool
  pub providers : List Text
  pub provider : Text
  pub upstream : Select
  pub boxes : Boxes
  pub lb : Text
  pub hub : Bool

-- The select of fallbacks: its options with whether each is disabled, and its value.
pub record Fallback : Type 0 where
  pub options : List (Text × Bool)
  pub value : Text

pub record Locks : Type 0 where
  pub think : Bool
  pub temp : Bool
  pub predict : Bool
  pub ctx : Bool

-- The form. `range` and `unset` are the slider of the temperature.
pub record Dialog : Type 0 where
  pub action : Text
  pub heading : Text
  pub name : Text
  pub read_only : Bool
  pub local_part : LocalPart
  pub note_hidden : Bool
  pub context : Text
  pub context_hint : Text
  pub fallback : Fallback
  pub cache : Text
  pub think : List (Text × Bool)
  pub temp : Text
  pub range : Text
  pub unset : Bool
  pub predict : Text
  pub ctx : Text
  pub extra : Text
  pub locks : Locks
  pub delete_action : Text
  pub delete_hidden : Bool

-- The value of a select after `select.value = v`.
abbrev pub value_among : List Text → Text → Text
value_among options v = if any (λ o. o == v) options then v else []

unfoldable pub set_radio : Text → List (Text × Bool) → List (Text × Bool)
set_radio val rs = map (λ (r : Text × Bool). (r.0, r.0 == val)) rs

unfoldable pub is_locked : Text → Bool
unfolding lit
is_locked on = on == lit "true"

unfoldable pub is_one : Text → Bool
unfolding lit
is_one t = t == lit "1"

unfoldable pub set_fallback : Text → Text → Fallback → Fallback
set_fallback alias fallback f = record {
  options = map (λ (o : Text × Bool). (o.0, not (is_empty o.0) && o.0 == alias)) f.options;
  value = value_among (map (λ (o : Text × Bool). o.0) f.options) fallback;
}

unfoldable pub hint_of : Text → Text
unfolding lit
hint_of detected =
    if not (is_empty detected) && not (detected == lit "0")
    then lit "0 — взять с сервера (" ++ detected ++ lit ")."
    else lit "0 — взять с сервера."

-- `browser` is the option that the browser selects when options are removed, `clamp` what a slider
-- makes of a value.
module _ (browser : Select → Option ℕ) (clamp : Text → Text) where
  unfoldable pub show_local : Dataset → LocalPart → LocalPart
  unfolding lit
  show_local d p =
      let prov = value_among p.providers d.provider in
      record p {
        provider = prov;
        upstream =
            filter_upstream prov d.upstream
              (ensure_option browser d.upstream d.provider d.backends p.upstream);
        boxes = set_backends d.backends p.boxes;
        lb = either d.lb (lit "least_conn");
        hub = is_one d.hub_share;
      }

  unfoldable pub sync_temp : Dialog → Dialog
  unfolding lit
  sync_temp g =
      let v = trim g.temp in
      record g { range = clamp (if is_empty v then lit "0" else v); unset = is_empty v }

  -- The click on the settings of an alias.
  unfoldable pub show_alias : Dataset → Dialog → Dialog
  unfolding lit
  show_alias d g =
      let remote = is_one d.remote in
      let part = record g.local_part { off = remote } in
      sync_temp record {
        action = lit "/admin/models/" ++ d.id ++ lit "/settings";
        heading = d.alias;
        name = d.alias;
        read_only = is_one d.system;
        local_part = if remote then part else show_local d part;
        note_hidden = not remote;
        context = either d.context (lit "0");
        context_hint = hint_of d.detected;
        fallback = set_fallback d.alias d.fallback g.fallback;
        cache = either d.cache (lit "inherit");
        think = set_radio d.think g.think;
        temp = d.temp;
        range = g.range;
        unset = g.unset;
        predict = d.predict;
        ctx = d.ctx;
        extra = d.extra;
        locks = record {
          think = is_locked d.lock_think;
          temp = is_locked d.lock_temp;
          predict = is_locked d.lock_predict;
          ctx = is_locked d.lock_ctx;
        };
        delete_action = lit "/admin/models/" ++ d.id ++ lit "/delete";
        delete_hidden = is_one d.system;
      }

  -- The user types a temperature.
  unfoldable pub type_temp : Text → Dialog → Dialog
  type_temp t g = sync_temp (record g { temp = t })

-- The user moves the slider of the temperature, which then has the value `v`.
unfoldable pub slide : Text → Dialog → Dialog
slide v g = record g { temp = v; range = v; unset = false }

-- The question before an alias is deleted.
unfoldable pub delete_question : Dialog → Text
unfolding lit
delete_question g =
    lit "Убрать «"
    ++ either g.name (either g.heading (lit "alias"))
    ++ lit "» из шлюза? Файл на сервере останется."

-- The user chooses a provider, or a model.
unfoldable pub choose_provider : Text → LocalPart → LocalPart
choose_provider prov p =
    let sel = filter_upstream prov [] p.upstream in
    record p { provider = prov; upstream = sel; boxes = sync_backends sel p.boxes }

unfoldable pub choose_upstream : Option ℕ → LocalPart → LocalPart
choose_upstream i p =
    let sel = record p.upstream { selected = i } in
    record p { upstream = sel; boxes = sync_backends sel p.boxes }
