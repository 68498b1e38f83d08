-- ===== src/Chat/Refs/Laws.antt =====
-- What the strip of references and the zone of the parameters show, after each of the operations.
use mikrollm.Base.{
  ℕ, zero, suc, any, drop, get_elem?, ◌+◌, ◌-◌, ◌≡◌, refl, sym, ap, ◌∙◌, take, leb, Option, none,
  some, Bool, true, false, ◌||◌, List, [], ◌∷◌, ◌++◌, if◌then◌else◌, length, arith, Bool-cases, inl,
  inr,
}
use mikrollm.Base.Text.{Text, lit, is_empty}
use mikrollm.Chat.{Mode}
use mikrollm.Chat.Models.{is_chat}
use mikrollm.Chat.Params.{max_refs, with_url, read_all, remove_ref}
use mikrollm.Chat.Refs.{
  Strip, mark_zone, mark_param_drop, thumbs_from, render_refs, cross, clear_refs, attach,
}

-- A picture of the strip: its address and its alternative text, which numbers it from one.
abbrev pub captioned : (ℕ → Text) → ℕ → Option Text → Option (Text × Text)
captioned digits k none = none
captioned digits k (some u) = some (u, lit "референс " ++ digits (k + 1))

-- The addresses that a list of files gives: of all of them, or none if one cannot be read; an empty
-- address is left out.
abbrev pub is_unread : Option Text → Bool
is_unread none = true
is_unread (some u) = false

abbrev pub urls_of : List (Option Text) → List Text
urls_of [] = []
urls_of (none ∷ fs) = urls_of fs
urls_of (some [] ∷ fs) = urls_of fs
urls_of (some (c ∷ u) ∷ fs) = (c ∷ u) ∷ urls_of fs

abbrev pub read_urls : List (Option Text) → List Text
read_urls fs = if any is_unread fs then [] else urls_of fs

append_nil : (us : List Text) → us ++ [] ≡ us
append_nil [] = refl
append_nil (u ∷ us) = ap (λ r. u ∷ r) (append_nil us)

-- What is added for the result of `read_all`.
abbrev added : Option (List Text) → List Text
added none = []
added (some us) = us

added-with_url :
    (f : Option Text) (o : Option (List Text)) (fs : List (Option Text))
    → o ≡ (if any is_unread fs then none else some (urls_of fs))
    → with_url f o ≡ (if any is_unread (f ∷ fs) then none else some (urls_of (f ∷ fs)))
added-with_url f o fs e = ground (arith, e)

read_all-urls :
    (fs : List (Option Text)) → read_all fs ≡ (if any is_unread fs then none else some (urls_of fs))
unfolding read_all
read_all-urls [] = refl
read_all-urls (f ∷ fs) = added-with_url f (read_all fs) fs (read_all-urls fs)

added-read_all : (fs : List (Option Text)) → added (read_all fs) ≡ read_urls fs
added-read_all fs = ap added (read_all-urls fs) ∙ ground arith

remove_ref-take-drop : (i : ℕ) (us : List Text) → remove_ref i us ≡ take i us ++ drop (suc i) us
unfolding remove_ref
remove_ref-take-drop zero [] = refl
remove_ref-take-drop zero (u ∷ us) = refl
remove_ref-take-drop (suc i) [] = refl
remove_ref-take-drop (suc i) (u ∷ us) = ap (λ r. u ∷ r) (remove_ref-take-drop i us)

module _ (digits : ℕ → Text) (m : Mode) where
  -- The strip is hidden if there is no reference or the mode is the chat; otherwise it shows every
  -- reference in its place, numbered from one, and nothing else.
  pub record IsTidy (s : Strip) : Type 0 where
    pub hides : s.hidden ≡ (is_empty s.refs || is_chat m)
    pub pictures :
        (k : ℕ)
        → get_elem? s.thumbs k
          ≡ (if is_empty s.refs || is_chat m then none else captioned digits k (get_elem? s.refs k))

  get_elem?-thumbs_from :
      (us : List Text) (i k : ℕ)
      → get_elem? (thumbs_from digits i us) k ≡ captioned digits (i + k) (get_elem? us k)
  unfolding thumbs_from
  get_elem?-thumbs_from [] i k = refl
  get_elem?-thumbs_from (u ∷ us) i zero = ap (λ (n : ℕ). captioned digits n (some u)) (omega arith)
  get_elem?-thumbs_from (u ∷ us) i (suc k) =
      get_elem?-thumbs_from us (i + 1) k
      ∙ ap (λ (n : ℕ). captioned digits n (get_elem? us k)) (omega arith)

  refs-render_refs : (s : Strip) → (render_refs digits m s).refs ≡ s.refs
  unfolding render_refs mark_param_drop
  refs-render_refs s = ground arith

  render_refs-IsTidy : (s : Strip) → IsTidy (render_refs digits m s)
  unfolding render_refs mark_param_drop
  render_refs-IsTidy s = elim (Bool-cases (is_empty s.refs || is_chat m)) [
    | inl y ↦ rw y (record { hides = sym y; pictures = λ k. rw y refl })
    | inr n ↦ rw n (record { hides = sym n; pictures = λ k. rw n (first k) })
  ]
    where
      first :
          (k : ℕ)
          → get_elem? (thumbs_from digits 0 s.refs) k ≡ captioned digits k (get_elem? s.refs k)
      first k =
          get_elem?-thumbs_from s.refs 0 k
          ∙ ap (λ (n : ℕ). captioned digits n (get_elem? s.refs k)) (omega arith)

  cross-IsTidy : (i : ℕ) (s : Strip) → IsTidy (cross digits m i s)
  unfolding cross
  cross-IsTidy i s = render_refs-IsTidy _

  clear_refs-IsTidy : (s : Strip) → IsTidy (clear_refs digits m s)
  unfolding clear_refs
  clear_refs-IsTidy s =
      let t = render_refs-IsTidy (record s { refs = [] }) in
      record { hides = t.hides; pictures = t.pictures }

  IsTidy-if : (b : Bool) (s t : Strip) → IsTidy s → IsTidy t → IsTidy (if b then s else t)
  IsTidy-if true s t hs ht = hs
  IsTidy-if false s t hs ht = ht

  attach-IsTidy :
      (files : List (Option Text)) (before : List Text) (s : Strip)
      → IsTidy s
      → IsTidy (attach digits m files before s)
  unfolding attach
  attach-IsTidy files before s h =
      IsTidy-if (leb (max_refs - length before) 0) s _ h
        (read_in (read_all (take (max_refs - length before) files)))
    where
      read_in :
          (o : Option (List Text))
          → IsTidy (elim o as (λ _. Strip) [
            | none ↦ s
            | some us ↦ render_refs digits m (record s { refs = s.refs ++ us })
          ])
      read_in none = h
      read_in (some us) = render_refs-IsTidy _

  refs-attach :
      (files : List (Option Text)) (before : List Text) (s : Strip)
      → (attach digits m files before s).refs ≡ s.refs ++ read_urls (take (6 - length before) files)
  unfolding attach
  refs-attach files before s = elim (Bool-cases (leb (6 - length before) 0)) [
    | inl y ↦ rw y (
        sym (
          ap (λ (k : ℕ). s.refs ++ read_urls (take k files)) (no_room (6 - length before) y)
          ∙ append_nil s.refs))
    | inr n ↦ rw n (
        read_in (read_all (take (6 - length before) files))
        ∙ ap (λ us. s.refs ++ us) (added-read_all (take (6 - length before) files)))
  ]
    where
      no_room : (k : ℕ) → leb k 0 ≡ true → k ≡ 0
      no_room k y = ground (arith, y)

      read_in :
          (o : Option (List Text))
          → (elim o as (λ _. Strip) [
            | none ↦ s
            | some us ↦ render_refs digits m (record s { refs = s.refs ++ us })
          ]).refs
            ≡ s.refs ++ added o
      read_in none = sym (append_nil s.refs)
      read_in (some us) = refs-render_refs (record s { refs = s.refs ++ us })

  refs-cross :
      (i : ℕ) (s : Strip) → (cross digits m i s).refs ≡ take i s.refs ++ drop (suc i) s.refs
  unfolding cross
  refs-cross i s =
      refs-render_refs (record s { refs = remove_ref i s.refs }) ∙ remove_ref-take-drop i s.refs

  refs-clear_refs : (s : Strip) → (clear_refs digits m s).refs ≡ []
  unfolding clear_refs
  refs-clear_refs s = refs-render_refs (record s { refs = [] })

  -- A strip that is tidy stays so when files are attached, whether or not they can be read, when a
  -- cross is clicked, and when the references are cleared: it is hidden if there is no reference or
  -- the mode is the chat, and otherwise shows every reference in its place, numbered from one, and
  -- nothing else. Attached files add after the references that are there the addresses of as many files
  -- as six allow beside those at the call (empty addresses left out), or none if one cannot be read;
  -- the cross of a picture removes that reference and keeps those before and after it; and clearing
  -- leaves none.
  pub strip_lem :
      (s : Strip) (i : ℕ) (files : List (Option Text)) (before : List Text)
      → IsTidy s
      → IsTidy (attach digits m files before s)
        × IsTidy (cross digits m i s)
        × IsTidy (clear_refs digits m s)
        × ((attach digits m files before s).refs
            ≡ s.refs ++ read_urls (take (6 - length before) files))
        × ((cross digits m i s).refs ≡ take i s.refs ++ drop (suc i) s.refs)
        × ((clear_refs digits m s).refs ≡ [])
  strip_lem s i files before h = (
    attach-IsTidy files before s h,
    cross-IsTidy i s,
    clear_refs-IsTidy s,
    refs-attach files before s,
    refs-cross i s,
    refs-clear_refs s,
  )

  zone-cleared : (s : Strip) → (render_refs digits m (record s { refs = [] })).zone ≡ s.zone
  unfolding render_refs
  zone-cleared s = refl

  zone-cross_last :
      (u : Text) (s : Strip) → (cross digits m 0 (record s { refs = u ∷ [] })).zone ≡ s.zone
  unfolding cross remove_ref
  zone-cross_last u s = zone-cleared s

  zone-clear_refs : (s : Strip) → (clear_refs digits m s).zone ≡ s.zone
  unfolding clear_refs
  zone-clear_refs s = zone-cleared s

  zone-render_refs :
      (s : Strip)
      → (render_refs digits m s).zone
        ≡ (if is_empty s.refs || is_chat m then s.zone else mark_zone digits s.refs s.zone)
  unfolding render_refs mark_param_drop
  zone-render_refs s = ground arith

  -- A render labels the zone of the parameters with how many references there are, unless there is none
  -- or the mode is the chat; then the zone stays as it is. So when the last reference is removed by its
  -- cross, or all are cleared, as a submission does, the zone still tells of them.
  pub zone_lem :
      (s : Strip) (u : Text)
      → ((render_refs digits m s).zone
          ≡ (if is_empty s.refs || is_chat m then s.zone else mark_zone digits s.refs s.zone))
        × ((cross digits m 0 (record s { refs = u ∷ [] })).zone ≡ s.zone)
        × ((clear_refs digits m s).zone ≡ s.zone)
  zone_lem s u = (zone-render_refs s, zone-cross_last u s, zone-clear_refs s)
