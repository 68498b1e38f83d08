-- ===== src/Backend/Laws.antt =====
-- What the form of a backend makes of an address when the user changes the kind: `syncKind`.
use mikrollm.Base.{
  ◌≡◌, ◌≢◌, refl, ap, Bool, true, false, not, ◌||◌, List, [], ◌∷◌, if◌then◌else◌, ◌==◌, text_eq,
  nat_eq, nat_beq_iff, list_beq, All, arith, Bool-cases, inl, inr,
}
use mikrollm.Base.Text.{Text, lit, is_empty}
use mikrollm.Backend.{
  Meta, ollama_meta, kind_meta, known_urls, is_known, lookup, meta_of, without_slash, Form,
  synced_url, sync_kind, choose_kind,
}

-- An address that the page may replace: none, or one that it knows.
abbrev pub is_own : Text → Bool
is_own url = not (is_empty (without_slash url) || is_known (without_slash url))

-- The address of a kind is one that the page knows, and has no slash at its end.
abbrev IsListed : Meta → Type 0
IsListed m = (is_known m.url ≡ true) × (without_slash m.url ≡ m.url)

lookup-All :
    (P : Meta → Type 0) (kind : Text) (ms : List (Text × Meta)) (d : Meta)
    → All (λ (e : Text × Meta). P e.1) ms
    → P d
    → P (lookup kind ms d)
lookup-All P kind [] d hs h = h
lookup-All P kind ((k, m) ∷ rest) d (here, hs) h = elim (Bool-cases (k == kind)) [
  | inl y ↦ rw y here
  | inr n ↦ rw n (lookup-All P kind rest d hs h)
]

IsListed-meta_of : (kind : Text) → IsListed (meta_of kind)
unfolding meta_of kind_meta ollama_meta is_known known_urls without_slash lit list_beq
IsListed-meta_of kind =
    lookup-All IsListed kind kind_meta ollama_meta
      (
        (refl, refl),
        (
          (refl, refl),
          (
            (refl, refl),
            ((refl, refl), ((refl, refl), ((refl, refl), ((refl, refl), ((refl, refl), tt))))),
          ),
        ),
      )
      (refl, refl)

known-empty : is_known [] ≡ false
unfolding is_known known_urls lit list_beq
known-empty = refl

slash-empty : (url : Text) → is_empty (without_slash url) ≡ true → url ≢ lit "/" → url ≡ []
unfolding without_slash lit
slash-empty [] h other = refl
slash-empty (c ∷ []) h other = elim (Bool-cases (c == 47)) [
  | inl y ↦ absurd (other (rw ((nat_beq_iff c 47).0 y) refl))
  | inr n ↦ absurd (cc (rw n at h))
]
slash-empty (c ∷ d ∷ url) h other = absurd (cc h)

synced_url-synced_url :
    (m n : Meta) (url : Text)
    → IsListed m
    → url ≢ lit "/"
    → synced_url n (synced_url m url) ≡ synced_url n url
unfolding synced_url without_slash
synced_url-synced_url m n url (known, whole) other =
    ground (arith, slash-empty url, known-empty, known, whole, other)

own_stays : (m : Meta) (url : Text) → (if is_own url then synced_url m url else url) ≡ url
unfolding synced_url
own_stays m url = ground arith

-- The form after the user chooses a kind is the same whatever kind the user chose before, unless the
-- address is a single slash; and an address of the user's own, which is neither empty nor one that
-- the page knows, stays.
pub choose_kind-choose_kind :
    (first kind : Text) (f : Form)
    → f.url ≢ lit "/"
    → (choose_kind kind (choose_kind first f) ≡ choose_kind kind f)
      × ((if is_own f.url then (choose_kind kind f).url else f.url) ≡ f.url)
unfolding choose_kind sync_kind
choose_kind-choose_kind first kind f other = (
  ap (λ (url : Text). record (choose_kind kind f) { url = url })
      (synced_url-synced_url (meta_of first) (meta_of kind) f.url (IsListed-meta_of first) other),
  own_stays (meta_of kind) f.url,
)
