-- ===== src/Chat/Params/Laws.antt =====
-- What the form of extra parameters shows and sends, and how many pictures are attached:
-- `renderParams`, `collectExtraParams`, `addRefFiles`.
use mikrollm.Base.{
  ℕ, zero, suc, ◌+◌, ◌-◌, ◌≤◌, ◌≡◌, refl, ap, Option, none, some, Bool, true, false, not, ◌&&◌,
  ◌||◌, List, [], ◌∷◌, map, if◌then◌else◌, text_eq, any, all, All, select, take, length, leb, arith,
  Bool-cases, Option-cases, inl, inr, length-append, length-take_le,
}
use mikrollm.Base.Text.{Text, is_empty}
use mikrollm.Catalog.Band.{Floats}
use mikrollm.Chat.Params.{
  Param, Schema, skip_param, is_image_param, Element, Row, Composed, param_input, row_of, rows_from,
  render_params, elements, Value, put, put_some, value_of, collect_from, collect_extra_params,
  max_refs, with_url, read_all, add_ref_files, remove_ref,
}

-- A parameter that the form is about, and one that it has an element for.
abbrev pub is_shown : Param → Bool
is_shown p = not (is_empty p.name || skip_param p.name)

abbrev pub is_drop : Row → Bool
is_drop r = elim r.element [ none ↦ true | some _ ↦ false ]

abbrev pub is_asked : Param → Bool
is_asked p = is_shown p && not (is_image_param p)

abbrev pub has_picture : Param → Bool
has_picture p = is_shown p && is_image_param p

plain_rows :
    (c : Composed) (required : List Text) (ps : List Param) (saw : Bool)
    → map (λ r. r.name) (select (λ r. not (is_drop r)) (rows_from c required ps saw))
      ≡ map (λ p. p.name) (select is_asked ps)
unfolding rows_from row_of
plain_rows c required [] saw = refl
plain_rows c required (p ∷ ps) saw =
    ground (arith, plain_rows c required ps saw, plain_rows c required ps (saw || is_image_param p))

drop_rows :
    (c : Composed) (required : List Text) (ps : List Param) (saw : Bool)
    → length (select is_drop (rows_from c required ps saw))
      ≡ (if saw then 0 else if any has_picture ps then 1 else 0)
unfolding rows_from row_of
drop_rows c required [] saw = ground arith
drop_rows c required (p ∷ ps) saw =
    ground (arith, drop_rows c required ps saw, drop_rows c required ps (saw || is_image_param p))

-- The form has an element for each parameter of the schema that has a name, is not one of those that
-- the page sets itself and is no picture, in their order; and however many pictures the schema asks
-- for, it has one place to drop them on if it asks for any, and none otherwise.
pub render_params_lem :
    (c : Composed) (s : Schema)
    → (map (λ r. r.name) (select (λ r. not (is_drop r)) (render_params c s))
        ≡ map (λ p. p.name) (select is_asked s.parameters))
      × (length (select is_drop (render_params c s))
          ≡ (if any has_picture s.parameters then 1 else 0))
unfolding render_params
render_params_lem c s = (
  plain_rows c s.required_parameters s.parameters false,
  drop_rows c s.required_parameters s.parameters false,
)

-- Elements with the names of parameters that the page does not set itself.
abbrev IsFree : List Element → Type 0
IsFree es = All (λ e. skip_param e.name ≡ false) es

rows-IsFree :
    (c : Composed) (required : List Text) (ps : List Param) (saw : Bool)
    → IsFree (elements (rows_from c required ps saw))
unfolding rows_from row_of elements param_input
rows-IsFree c required [] saw = tt
rows-IsFree c required (p ∷ ps) saw =
    ground
      (arith, rows-IsFree c required ps saw, rows-IsFree c required ps (saw || is_image_param p))

edited-IsFree :
    (edit : Element → Element)
    → ((e : Element) → (edit e).name ≡ e.name)
    → (es : List Element) → IsFree es
    → IsFree (map edit es)
edited-IsFree edit keeps [] h = tt
edited-IsFree edit keeps (e ∷ es) (h, hs) = (rw (keeps e) h, edited-IsFree edit keeps es hs)

module _ (fl : Floats) where
  abbrev pub keys : List (Text × Value fl) → List Text
  keys [] = []
  keys ((k, v) ∷ out) = k ∷ keys out

  skip-put :
      (k : Text) (v : Value fl) (out : List (Text × Value fl))
      → skip_param k ≡ false
      → any skip_param (keys out) ≡ false
      → any skip_param (keys (put k v out)) ≡ false
  unfolding put
  skip-put k v [] h none_yet = ground arith
  skip-put k v ((j, w) ∷ out) h none_yet = ground (arith, skip-put k v out h)

  skip-put_some :
      (k : Text) (o : Option (Value fl)) (out : List (Text × Value fl))
      → skip_param k ≡ false
      → any skip_param (keys out) ≡ false
      → any skip_param (keys (put_some fl k o out)) ≡ false
  unfolding put_some
  skip-put_some k none out h none_yet = none_yet
  skip-put_some k (some v) out h none_yet = skip-put k v out h none_yet

  skip-collect_from :
      (es : List Element) (out : List (Text × Value fl))
      → IsFree es
      → any skip_param (keys out) ≡ false
      → any skip_param (keys (collect_from fl es out)) ≡ false
  unfolding collect_from
  skip-collect_from [] out h none_yet = none_yet
  skip-collect_from (e ∷ es) out (h, hs) none_yet =
      skip-collect_from es _ hs (skip-put_some e.name (value_of fl e) out h none_yet)

  -- Whatever the user enters in the form, what it adds to a request sets none of the fields that the
  -- page sets itself: the prompt, the model, the references and the number.
  pub skip-collect_extra_params :
      (c : Composed) (s : Schema) (edit : Element → Element)
      → ((e : Element) → (edit e).name ≡ e.name)
      → any skip_param (keys (collect_extra_params fl (map edit (elements (render_params c s)))))
        ≡ false
  unfolding collect_extra_params render_params
  skip-collect_extra_params c s edit keeps =
      skip-collect_from _ []
        (edited-IsFree edit keeps _ (rows-IsFree c s.required_parameters s.parameters false)) refl

length-with_url :
    (f : Option Text) (o : Option (List Text)) (n : ℕ)
    → ((us : List Text) → o ≡ some us → length us ≤ n)
    → (vs : List Text) → with_url f o ≡ some vs
    → length vs ≤ suc n
length-with_url none o n ih vs h = ground arith
length-with_url (some u) none n ih vs h = ground arith
length-with_url (some u) (some us) n ih vs h = ground (arith, ih us refl)

length-read_all :
    (files : List (Option Text)) (us : List Text)
    → read_all files ≡ some us
    → length us ≤ length files
unfolding read_all
length-read_all [] us h = ground arith
length-read_all (f ∷ fs) us h =
    omega (arith, length-with_url f (read_all fs) (length fs) (length-read_all fs) us h)

length-remove_ref : (i : ℕ) (us : List Text) → length (remove_ref i us) ≤ length us
unfolding remove_ref
length-remove_ref i [] = omega arith
length-remove_ref zero (u ∷ us) = omega arith
length-remove_ref (suc i) (u ∷ us) = omega (arith, length-remove_ref i us)

-- If a call that attaches pictures finds at most six, and when its files are read there are no more
-- than it found, then there are at most six afterwards. A picture that is removed while the files are
-- read leaves no more than the call found.
pub length-add_ref_files :
    (files : List (Option Text)) (before refs : List Text) (i : ℕ)
    → length before ≤ max_refs
    → length refs ≤ length before
    → (length (add_ref_files files before refs) ≤ max_refs)
      × (length (remove_ref i refs) ≤ length before)
unfolding add_ref_files
length-add_ref_files files before refs i few fewer =
    (attached, omega (arith, fewer, length-remove_ref i refs))
  where
    attached : length (add_ref_files files before refs) ≤ max_refs
    attached = elim (Option-cases (read_all (take (max_refs - length before) files))) [
      | inl n ↦ rw n (ground arith)
      | inr (us, y) ↦
          let short = length-read_all _ us y in
          let room = length-take_le (max_refs - length before) files in
          let sum = length-append refs us in rw y (ground (arith, short, room, sum))
    ]

read_all-map :
    (ws : List Text) → all (λ w. not (is_empty w)) ws ≡ true → read_all (map some ws) ≡ some ws
unfolding read_all
read_all-map [] h = refl
read_all-map (w ∷ ws) h = ground (arith, read_all-map ws)

take-map : (n : ℕ) (ws : List Text) → length ws ≡ n → take n (map some ws) ≡ map some ws
take-map zero [] h = refl
take-map zero (w ∷ ws) h = ground arith
take-map (suc n) [] h = refl
take-map (suc n) (w ∷ ws) h = ap (some w ∷◌) (take-map n ws (omega (arith, h)))

read_room :
    (before ws : List Text)
    → all (λ w. not (is_empty w)) ws ≡ true
    → length ws ≡ max_refs - length before
    → read_all (take (max_refs - length before) (map some ws)) ≡ some ws
read_room before ws h e = rw (take-map (max_refs - length before) ws e) (read_all-map ws h)

length-add_ref_files_full :
    (ws before refs : List Text)
    → all (λ w. not (is_empty w)) ws ≡ true
    → length ws ≡ max_refs - length before
    → length (add_ref_files (map some ws) before refs) ≡ length refs + length ws
unfolding add_ref_files
length-add_ref_files_full ws before refs ok full =
    elim (Bool-cases (leb (max_refs - length before) 0)) [
      | inl y ↦ rw y (ground arith)
      | inr n ↦ rw (n, read_room before ws ok full) (length-append refs ws)
    ]

-- Each of two calls that both start before the files of the other are read may attach as many as the
-- first one found room for: with enough readable pictures the two of them attach twice the room.
pub add_ref_files-overlap :
    (us vs before : List Text)
    → length before ≤ max_refs
    → all (λ u. not (is_empty u)) us ≡ true
    → all (λ v. not (is_empty v)) vs ≡ true
    → length us ≡ max_refs - length before
    → length vs ≡ max_refs - length before
    → length (add_ref_files (map some vs) before (add_ref_files (map some us) before before))
      ≡ length before + (max_refs - length before) + (max_refs - length before)
add_ref_files-overlap us vs before few ok ok' full full' = omega (
  arith,
  length-add_ref_files_full vs before (add_ref_files (map some us) before before) ok' full',
  length-add_ref_files_full us before before ok full,
  full,
  full',
)
