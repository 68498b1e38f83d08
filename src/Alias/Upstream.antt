-- ===== src/Alias/Upstream.antt =====
-- The select of models in the dialog of an alias, and the boxes of the servers that serve one.
pub mod Laws
use mikrollm.Base.{
  ℕ, zero, suc, Option, none, some, Bool, true, false, not, ◌&&◌, ◌||◌, List, [], ◌∷◌, ◌++◌, map,
  if◌then◌else◌, ◌==◌, text_eq, any, select, get_elem?, find,
}
use mikrollm.Base.Text.{Text, is_empty, trim, split}

-- An option: its value, `data-provider` and `data-backends`, whether it has `data-extra`, and whether
-- it is hidden and disabled.
pub record UpOption : Type 0 where
  pub value : Text
  pub provider : Text
  pub backends : Text
  pub extra : Bool
  pub off : Bool

-- The select, with the index of the option that is selected.
pub record Select : Type 0 where
  pub options : List UpOption
  pub selected : Option ℕ

-- The boxes of the servers: `value` and `checked`.
abbrev pub Boxes : Type 0
Boxes = List (Text × Bool)

unfoldable pub ids_of : Text → List Text
ids_of csv = select (λ t. not (is_empty t)) (map trim (split b',' csv))

unfoldable pub set_backends : Text → Boxes → Boxes
set_backends csv bs = map (λ (b : Text × Bool). (b.0, any (λ i. i == b.0) (ids_of csv))) bs

abbrev pub shifted : Option ℕ → Option ℕ
shifted none = none
shifted (some i) = some (suc i)

-- The index of the first option that passes a test.
unfoldable pub index_of : (UpOption → Bool) → List UpOption → Option ℕ
index_of p [] = none
index_of p (o ∷ os) = let rest = index_of p os in if p o then some zero else shifted rest

abbrev pub option_at : List UpOption → Option ℕ → Option UpOption
option_at os none = none
option_at os (some i) = get_elem? os i

-- `upSel.value`, empty if nothing is selected.
abbrev pub value_of : Option UpOption → Text
value_of none = []
value_of (some o) = o.value

unfoldable pub select_value : Select → Text
select_value s = value_of (option_at s.options s.selected)

-- `browser` is the option that the browser selects once options are removed.
unfoldable pub ensure_option :
    (Select → Option ℕ) → (name provider backends : Text) → Select → Select
ensure_option browser name provider backends s =
    let kept = select (λ o. not o.extra) s.options in
    let t = record s { options = kept; selected = browser (record s { options = kept }) } in
    if is_empty name then s else if any (λ o. o.value == name) kept then t else record t {
      options =
          kept
          ++ (record {
            value = name;
            provider = provider;
            backends = backends;
            extra = true;
            off = false;
          }
              ∷ []);
    }

-- An option of another provider is hidden and disabled; the one without a value stays as it is.
unfoldable pub filter_option : Text → UpOption → UpOption
filter_option prov o =
    if is_empty o.value then o else record o { off = not (is_empty prov || o.provider == prov) }

abbrev pub is_value : Text → UpOption → Bool
is_value v o = o.value == v

abbrev pub is_live : UpOption → Bool
is_live o = not (is_empty o.value) && not o.off

-- `upSel.value = first.value`, where there is an option `first`.
unfoldable pub select_first : Option UpOption → List UpOption → Option ℕ → Option ℕ
select_first none os before = before
select_first (some o) os before = index_of (is_value o.value) os

unfoldable pub filter_upstream : (prov preferred : Text) → Select → Select
filter_upstream prov preferred s =
    let keep = if is_empty preferred then select_value s else preferred in
    let os = map (filter_option prov) s.options in
    record {
      options = os;
      selected =
          if any (λ o. o.value == keep && not o.off) os
          then index_of (is_value keep) os
          else select_first (find is_live os) os s.selected;
    }

unfoldable pub sync_backends : Select → Boxes → Boxes
sync_backends s bs = elim (option_at s.options s.selected) [
  | none ↦ bs
  | some o ↦ set_backends o.backends bs
]
