-- ===== src/Alias/Upstream/Laws.antt =====
-- Which model the dialog of an alias shows: `ensureOption` and `filterUpstream`, as the click on its
-- settings calls them.
use mikrollm.Base.{
  ℕ, ◌≡◌, refl, ◌∙◌, Option, none, some, Bool, true, false, not, ◌&&◌, ◌||◌, List, [], ◌∷◌, ◌++◌,
  map, ◌==◌, text_eq, eq_iff, eq_refl, any, select, arith, Bool-cases, inl, inr,
}
use mikrollm.Base.Text.{Text, is_empty}
use mikrollm.Alias.Upstream.{
  UpOption, Select, shifted, index_of, option_at, value_of, select_value, ensure_option,
  filter_option, is_value, filter_upstream,
}
use mikrollm.Alias.{Dataset, Dialog, value_among, is_one, show_local, show_alias, sync_temp}

value-index_of :
    (v : Text) (os : List UpOption)
    → any (is_value v) os ≡ true
    → value_of (option_at os (index_of (is_value v) os)) ≡ v
unfolding index_of
value-index_of v [] h = absurd (cc h)
value-index_of v (o ∷ os) h = elim (Bool-cases (is_value v o)) [
  | inl y ↦ rw y ((eq_iff o.value v).0 y)
  | inr n ↦ rw n (later (index_of (is_value v) os) (value-index_of v os (rw n at h)))
]
  where
    later :
        (i : Option ℕ)
        → value_of (option_at os i) ≡ v
        → value_of (option_at (o ∷ os) (shifted i)) ≡ v
    later none k = k
    later (some i) k = k

-- An option with a value, of a provider that the select shows.
abbrev pub is_offered : Text → Text → UpOption → Bool
is_offered prov v o = o.value == v && (is_empty prov || o.provider == prov)

any-filter_option :
    (prov v : Text) (os : List UpOption)
    → is_empty v ≡ false
    → any (λ o. o.value == v && not o.off) (map (filter_option prov) os)
      ≡ any (is_offered prov v) os
unfolding filter_option
any-filter_option prov v [] h = refl
any-filter_option prov v (o ∷ os) h =
    ground (arith, any-filter_option prov v os h, eq_iff o.value v, h)

any-weaken :
    (v : Text) (os : List UpOption)
    → any (λ o. o.value == v && not o.off) os ≡ true
    → any (is_value v) os ≡ true
any-weaken v [] h = h
any-weaken v (o ∷ os) h = ground (arith, any-weaken v os, h)

any-snoc :
    (p : UpOption → Bool) (os : List UpOption) (o : UpOption)
    → p o ≡ true
    → any p (os ++ o ∷ []) ≡ true
any-snoc p [] o h = ground (arith, h)
any-snoc p (x ∷ os) o h = ground (arith, any-snoc p os o h)

filter_upstream_lem :
    (prov v : Text) (s : Select)
    → is_empty v ≡ false
    → any (is_offered prov v) s.options ≡ true
    → select_value (filter_upstream prov v s) ≡ v
unfolding filter_upstream select_value
filter_upstream_lem prov v s full h =
    let there = any-filter_option prov v s.options full ∙ h in
    rw (full, there) (value-index_of v (map (filter_option prov) s.options) (any-weaken v _ there))

-- Among the options of the page itself none has the model `v`, or one has it that the provider `prov`
-- shows.
abbrev pub fits : Text → Text → List UpOption → Bool
fits prov v os =
    let kept = select (λ o. not o.extra) os in
    not (any (is_value v) kept) || any (is_offered prov v) kept

ensure_option-offers :
    (browser : Select → Option ℕ) (prov v provider backends : Text) (s : Select)
    → is_empty v ≡ false
    → (is_empty prov || provider == prov) ≡ true
    → fits prov v s.options ≡ true
    → any (is_offered prov v) (ensure_option browser v provider backends s).options ≡ true
unfolding ensure_option
ensure_option-offers browser prov v provider backends s full same h =
    let kept = select (λ o. not o.extra) s.options in
    elim (Bool-cases (any (is_value v) kept)) [
      | inl y ↦ rw (full, y) (rw y at h)
      | inr n ↦ rw (full, n) (any-snoc (is_offered prov v) kept _ (ground (arith, eq_refl v, same)))
    ]

-- The select of providers shows the provider that is asked for, or nothing.
value_among-fits :
    (providers : List Text) (v : Text)
    → (is_empty (value_among providers v) || v == value_among providers v) ≡ true
value_among-fits providers v = ground (arith, eq_refl v)

-- A click on the settings of an alias that this node serves, and that has a model, shows that model,
-- provided that among the options of the page itself none has the model or one has it whose provider
-- the dialog shows, whatever option the click on another alias has added.
pub show_alias-upstream :
    (browser : Select → Option ℕ) (clamp : Text → Text) (d : Dataset) (g : Dialog)
    → is_one d.remote ≡ false
    → is_empty d.upstream ≡ false
    → fits (value_among g.local_part.providers d.provider) d.upstream g.local_part.upstream.options
      ≡ true
    → select_value (show_alias browser clamp d g).local_part.upstream ≡ d.upstream
unfolding show_alias show_local sync_temp
show_alias-upstream browser clamp d g here full h =
    let p = g.local_part in
    let prov = value_among p.providers d.provider in
    rw here (
      filter_upstream_lem prov d.upstream
        (ensure_option browser d.upstream d.provider d.backends p.upstream) full
        (ensure_option-offers browser prov d.upstream d.provider d.backends p.upstream full
          (value_among-fits p.providers d.provider) h))
