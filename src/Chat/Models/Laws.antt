-- ===== src/Chat/Models/Laws.antt =====
-- How mode and model fit together after `filterModels`.
use mikrollm.Base.{
  ℕ, zero, suc, ◌+◌, ◌≡◌, refl, sym, ◌⊎◌, inl, inr, Option, none, some, true, false, not, ◌&&◌,
  List, [], ◌∷◌, map, if◌then◌else◌, text_eq, get_elem?, arith, subst, Bool-cases, Option-cases,
  any,
}
use mikrollm.Base.Text.{is_empty}
use mikrollm.Chat.{Mode, chat}
use mikrollm.Chat.Models.{
  ModelOption, Composer, selected_option, serves, filter_option, first_from, is_hidden, is_chat,
  filter_models,
}

-- The first option that serves is one that has a value and serves.
record IsFirst (m : Mode) (os : List ModelOption) (j : ℕ) : Type 0 where
  option : ModelOption
  there : get_elem? os j ≡ some option
  valued : is_empty option.value ≡ false
  serving : serves m option ≡ true

first_from_lem :
    (i k : ℕ) (m : Mode) (os : List ModelOption)
    → first_from i m os ≡ some k
    → (j : ℕ) × (k ≡ i + j) × IsFirst m os j
unfolding first_from
first_from_lem i k m [] h = cc
first_from_lem i k m (o ∷ os) h = elim (Bool-cases (not (is_empty o.value) && serves m o)) [
  | inl y ↦ (
    0,
    ground arith,
    record { option = o; there = refl; valued = ground arith; serving = ground arith },
  )
  | inr n ↦
      let (j, e, f) = first_from_lem (i + 1) k m os (rw n at h) in
      (
        suc j,
        omega arith,
        record { option = f.option; there = f.there; valued = f.valued; serving = f.serving },
      )
]

first_from-none :
    (i : ℕ) (m : Mode) (os : List ModelOption)
    → first_from i m os ≡ none
    → any (λ p. not (is_empty p.value) && serves m p) os ≡ false
unfolding first_from
first_from-none i m [] h = refl
first_from-none i m (o ∷ os) h = ground (arith, first_from-none (i + 1) m os)

get-filter :
    (m : Mode) (os : List ModelOption) (i : ℕ) {o : ModelOption}
    → get_elem? os i ≡ some o
    → get_elem? (map (filter_option m) os) i ≡ some (filter_option m o)
get-filter m [] i h = cc
get-filter m (p ∷ os) zero h = ground arith
get-filter m (p ∷ os) (suc i) h = get-filter m os i h

get-filter_inv :
    (m : Mode) (os : List ModelOption) (i : ℕ) (o : ModelOption)
    → get_elem? (map (filter_option m) os) i ≡ some o
    → (p : ModelOption) × (o ≡ filter_option m p)
get-filter_inv m [] i o h = cc
get-filter_inv m (p ∷ os) zero o h = (p, ground arith)
get-filter_inv m (p ∷ os) (suc i) o h = get-filter_inv m os i o h

filter_option-served :
    (m : Mode) (p : ModelOption)
    → is_empty (filter_option m p).value ≡ false
    → (filter_option m p).hidden ≡ false
    → serves m (filter_option m p) ≡ true
unfolding serves
filter_option-served chat p v h = refl
filter_option-served m p v h = ground arith

-- Some model can serve the mode.
abbrev pub CanServe : Composer → Type 0
CanServe c = any (λ p. not (is_empty p.value) && serves c.mode p) c.options ≡ true

-- The options and the references after the loop of `filterModels`, before it moves the selection.
abbrev shown : Composer → Composer
shown c = record c {
  options = map (filter_option c.mode) c.options;
  refs = if is_chat c.mode then [] else c.refs;
}

filter_models-cases :
    (c : Composer)
    → ((is_hidden (selected_option (shown c)) ≡ false) × (filter_models c ≡ shown c))
      ⊎ ((first_from 0 c.mode c.options ≡ none)
          ⊎ ((k : ℕ) × (first_from 0 c.mode c.options ≡ some k)
              × (filter_models c ≡ record (shown c) { selected = some k })))
unfolding filter_models
filter_models-cases c = elim (Bool-cases (is_hidden (selected_option (shown c)))) [
  | inl y ↦ elim (Option-cases (first_from 0 c.mode c.options)) [
    | inl e ↦ inr (inl e)
    | inr (k, e) ↦ inr (inr (k, e, rw (y, e) refl))
  ]
  | inr n ↦ inl (n, rw n refl)
]

on_show :
    (os : Option ModelOption) {o : ModelOption}
    → os ≡ some o
    → is_hidden os ≡ false
    → o.hidden ≡ false
on_show os e h = rw e at h

filtered_option :
    (m : Mode) (c : Composer) (o : ModelOption)
    → selected_option (record c { options = map (filter_option m) c.options }) ≡ some o
    → (p : ModelOption) × (o ≡ filter_option m p)
unfolding selected_option
filtered_option m c o h = elim (Option-cases c.selected) [
  | inl e ↦ cc (rw e at h)
  | inr (i, e) ↦ get-filter_inv m c.options i o (rw e at h)
]

served_of :
    (m : Mode) (o p : ModelOption)
    → o ≡ filter_option m p
    → is_empty o.value ≡ false
    → o.hidden ≡ false
    → (serves m o ≡ true) × (o.hidden ≡ false)
served_of m o p e v h = (
  rw e (
      filter_option-served m p (subst (λ (x : ModelOption). is_empty x.value ≡ false) e v)
        (subst (λ (x : ModelOption). x.hidden ≡ false) e h)),
  h,
)

first_on_show :
    (m : Mode) (p : ModelOption)
    → is_empty p.value ≡ false
    → serves m p ≡ true
    → (filter_option m p).hidden ≡ false
first_on_show m p v s = rw v (rw s refl)

moved_option :
    (m : Mode) (c : Composer) (k : ℕ) (o : ModelOption)
    → first_from 0 m c.options ≡ some k
    → selected_option (record c { options = map (filter_option m) c.options; selected = some k })
      ≡ some o
    → (p : ModelOption) × (o ≡ filter_option m p) × (o.hidden ≡ false)
unfolding selected_option
moved_option m c k o found there =
    let (j, e, f) = first_from_lem 0 k m c.options found in
    let same : k ≡ j = omega arith in
    let at_j = rw same at there in
    let is_it : o ≡ filter_option m f.option = cc (get-filter m c.options j f.there) in
    (
      f.option,
      is_it,
      subst (λ (x : ModelOption). x.hidden ≡ false) (sym is_it)
          (first_on_show m f.option f.valued f.serving),
    )

selected_served :
    (c : Composer)
    → CanServe c
    → ((o : ModelOption)
        → selected_option (filter_models c) ≡ some o
        → is_empty o.value ≡ false
        → (serves (filter_models c).mode o ≡ true) × (o.hidden ≡ false))
      × ((filter_models c).mode ≡ c.mode)
      × (c.mode ≡ chat → (filter_models c).refs ≡ [])
unfolding selected_option
selected_served c can = elim (filter_models-cases c) [
  | inl (seen, e) ↦ rw e (λ o there valued. kept o there valued seen, refl, λ m. rw m refl)
  | inr (inl stuck) ↦ cc (first_from-none 0 c.mode c.options stuck)
  | inr (inr (k, found, e)) ↦
      rw e (λ o there valued. moved k found o there valued, refl, λ m. rw m refl)
]
  where
    kept :
        (o : ModelOption)
        → selected_option (shown c) ≡ some o
        → is_empty o.value ≡ false
        → is_hidden (selected_option (shown c)) ≡ false
        → (serves c.mode o ≡ true) × (o.hidden ≡ false)
    kept o there valued seen =
        let (p, e) = filtered_option c.mode c o there in
        served_of c.mode o p e valued (on_show _ there seen)

    moved :
        (k : ℕ)
        → first_from 0 c.mode c.options ≡ some k
        → (o : ModelOption) → selected_option (record (shown c) { selected = some k }) ≡ some o
        → is_empty o.value ≡ false
        → (serves c.mode o ≡ true) × (o.hidden ≡ false)
    moved k found o there valued =
        let (p, e, seen) = moved_option c.mode c k o found there in
        served_of c.mode o p e valued seen

-- If some model can serve the mode, then after `filterModels` a selected option that has a value
-- serves the mode and is on show. The mode stays, and so do the references, except that none is left
-- in the chat mode.
pub filter_models_lem :
    (c : Composer) (o : ModelOption)
    → CanServe c
    → selected_option (filter_models c) ≡ some o
    → is_empty o.value ≡ false
    → (serves (filter_models c).mode o ≡ true)
      × (o.hidden ≡ false)
      × ((filter_models c).mode ≡ c.mode)
      × ((filter_models c).refs ≡ (if is_chat c.mode then [] else c.refs))
filter_models_lem c o can there valued =
    let (s, h) = (selected_served c can).0 o there valued in
    elim (filter_models-cases c) [
      | inl (seen, e) ↦ (s, h, rw e refl, rw e refl)
      | inr (inl stuck) ↦ cc (first_from-none 0 c.mode c.options stuck)
      | inr (inr (k, found, e)) ↦ (s, h, rw e refl, rw e refl)
    ]
