-- ===== src/Catalog/Filter/Admits.antt =====
-- Which rows the filters let through, filter by filter: what the value of each control asks of a row,
-- and that the tests of `bindModelFilters` and `matchBand` decide it.
use mikrollm.Base.{
  ◌≡◌, refl, ◌⊎◌, Option, none, some, Bool, true, false, not, ◌||◌, List, [], ◌==◌, text_eq,
  list_beq, eq_iff, arith, Bool-cases, or_cases, inl, inr,
}
use mikrollm.Base.Text.{Text, lit, or_text, is_empty, empty_nil, contains}
use mikrollm.Catalog.{ModelRow}
use mikrollm.Catalog.Band.{Floats}
use mikrollm.Catalog.Filter.Servers.{FitsServer, server_sound, server_complete}
use mikrollm.Catalog.Filter.Prices.{FitsPrice, price_sound, price_complete}
use mikrollm.Catalog.Filter.{
  Controls, is_checked, chosen, query, name_ok, provider_ok, media_ok, picked_ok, row_ok,
}

-- The query stands in the name, the title or the provider of a row.
pub data FitsName (to_lower : Text → Text) (q : Text) (row : ModelRow) : Type 0 where
  no_query : q ≡ [] → FitsName to_lower q row
  in_name : contains (to_lower (chosen row.name)) q ≡ true → FitsName to_lower q row
  in_title : contains (to_lower (chosen row.title)) q ≡ true → FitsName to_lower q row
  in_provider : contains (to_lower (chosen row.provider)) q ≡ true → FitsName to_lower q row

pub data FitsProvider (provider : Text) (row : ModelRow) : Type 0 where
  any_provider : provider ≡ [] → FitsProvider provider row
  same_provider : chosen row.provider ≡ provider → FitsProvider provider row

-- The choices of the media filter.
abbrev pub asks_media : Text → Bool
asks_media media = media == lit "image" || (media == lit "video" || media == lit "chat")

pub data FitsMedia (media of_row : Text) : Type 0 where
  any_media : asks_media media ≡ false → FitsMedia media of_row
  of_images : media ≡ lit "image" → contains of_row (lit "image") ≡ true → FitsMedia media of_row
  of_films : media ≡ lit "video" → contains of_row (lit "video") ≡ true → FitsMedia media of_row
  of_words : media ≡ lit "chat" → of_row ≡ [] → FitsMedia media of_row

pub data FitsPicked (only : Option Bool) (row : ModelRow) : Type 0 where
  no_box : only ≡ none → FitsPicked only row
  all_rows : only ≡ some false → FitsPicked only row
  is_picked : is_checked row.checkbox ≡ true → FitsPicked only row

module _ (to_lower : Text → Text) (q : Text) (row : ModelRow) where
  name_sound : name_ok to_lower q row ≡ true → FitsName to_lower q row
  unfolding name_ok
  name_sound h = elim (or_cases (is_empty q) _ h) [
    | inl e ↦ no_query (empty_nil q e)
    | inr k ↦ elim (or_cases (contains (to_lower (chosen row.name)) q) _ k) [
      | inl e ↦ in_name e
      | inr j ↦ elim (or_cases (contains (to_lower (chosen row.title)) q) _ j) [
        | inl e ↦ in_title e
        | inr e ↦ in_provider e
      ]
    ]
  ]

  name_complete : FitsName to_lower q row → name_ok to_lower q row ≡ true
  unfolding name_ok
  name_complete (no_query e) = rw e refl
  name_complete (in_name e) = ground (arith, e)
  name_complete (in_title e) = ground (arith, e)
  name_complete (in_provider e) = ground (arith, e)

module _ (provider : Text) (row : ModelRow) where
  provider_sound : provider_ok provider row ≡ true → FitsProvider provider row
  unfolding provider_ok
  provider_sound h = elim (or_cases (is_empty provider) _ h) [
    | inl e ↦ any_provider (empty_nil provider e)
    | inr e ↦ same_provider ((eq_iff (chosen row.provider) provider).0 e)
  ]

  provider_complete : FitsProvider provider row → provider_ok provider row ≡ true
  unfolding provider_ok
  provider_complete (any_provider e) = rw e refl
  provider_complete (same_provider e) = ground (arith, (eq_iff (chosen row.provider) provider).1 e)

module _ (media : Text) (to_lower : Text → Text) (row : ModelRow) where
  abbrev of_row : Text
  of_row = to_lower (chosen row.media)

  media_sound : media_ok to_lower media row ≡ true → FitsMedia media of_row
  unfolding media_ok
  media_sound h = elim (Bool-cases (media == lit "image")) [
    | inl y ↦ of_images ((eq_iff media (lit "image")).0 y) (ground (arith, h, y))
    | inr n ↦ elim (Bool-cases (media == lit "video")) [
      | inl y ↦ of_films ((eq_iff media (lit "video")).0 y) (ground (arith, h, y))
      | inr k ↦ elim (Bool-cases (media == lit "chat")) [
        | inl y ↦
            of_words ((eq_iff media (lit "chat")).0 y) (empty_nil of_row (ground (arith, h, y)))
        | inr j ↦ any_media (ground (arith, n, k, j))
      ]
    ]
  ]

  media_complete : FitsMedia media of_row → media_ok to_lower media row ≡ true
  unfolding media_ok lit list_beq
  media_complete (any_media n) = ground (arith, n)
  media_complete (of_images e i) = rw (e, i) refl
  media_complete (of_films e i) = rw (e, i) refl
  media_complete (of_words e i) = rw (e, i) refl

module _ (only : Option Bool) (row : ModelRow) where
  picked_sound : picked_ok only row ≡ true → FitsPicked only row
  picked_sound h = by_box only refl h
    where
      by_box : (o : Option Bool) → only ≡ o → picked_ok o row ≡ true → FitsPicked only row
      by_box none e k = no_box e
      by_box (some false) e k = all_rows e
      by_box (some true) e k = is_picked k

  picked_complete : FitsPicked only row → picked_ok only row ≡ true
  picked_complete (no_box e) = rw e refl
  picked_complete (all_rows e) = rw e refl
  picked_complete (is_picked c) = by_box only
    where
      by_box : (o : Option Bool) → picked_ok o row ≡ true
      by_box none = refl
      by_box (some b) = ground (arith, c)

module _ (fl : Floats) (to_lower : Text → Text) (rows : List ModelRow) (c : Controls)
    (row : ModelRow) where
  -- What the controls ask of a row, each by itself.
  pub record Admits : Type 0 where
    pub name_fits : FitsName to_lower (query to_lower c) row
    pub provider_fits : FitsProvider (chosen c.provider) row
    pub server_fits : FitsServer rows (chosen c.server) row
    pub price_fits : FitsPrice fl (or_text row.band (lit "none")) row.prompt (chosen c.price)
    pub media_fits : FitsMedia (chosen c.media) (to_lower (chosen row.media))
    pub picked_fits : FitsPicked c.only_picked row

  pub row_ok_sound : row_ok fl to_lower rows c row ≡ true → Admits
  unfolding row_ok
  row_ok_sound h = record {
    name_fits = name_sound to_lower (query to_lower c) row (ground (arith, h));
    provider_fits = provider_sound (chosen c.provider) row (ground (arith, h));
    server_fits = server_sound rows row (chosen c.server) (ground (arith, h));
    price_fits =
        price_sound fl (or_text row.band (lit "none")) row.prompt (chosen c.price)
          (ground (arith, h));
    media_fits = media_sound (chosen c.media) to_lower row (ground (arith, h));
    picked_fits = picked_sound c.only_picked row (ground (arith, h));
  }

  pub row_ok_complete : Admits → row_ok fl to_lower rows c row ≡ true
  unfolding row_ok
  row_ok_complete a = ground (
    arith,
    name_complete to_lower (query to_lower c) row a.name_fits,
    provider_complete (chosen c.provider) row a.provider_fits,
    server_complete rows row (chosen c.server) a.server_fits,
    price_complete fl (or_text row.band (lit "none")) row.prompt (chosen c.price) a.price_fits,
    media_complete (chosen c.media) to_lower row a.media_fits,
    picked_complete c.only_picked row a.picked_fits,
  )

  -- The flag of a row as the filters leave it: on show and admitted by every control, or hidden and
  -- not.
  abbrev pub Sifted : Bool → Type 0
  Sifted hidden = ((hidden ≡ false) × Admits) ⊎ ((hidden ≡ true) × ¬ Admits)

  pub row_ok-Sifted : Sifted (not (row_ok fl to_lower rows c row))
  row_ok-Sifted = elim (Bool-cases (row_ok fl to_lower rows c row)) [
    | inl y ↦ inl (rw y refl, row_ok_sound y)
    | inr n ↦ inr (rw n refl, λ a. absurd (ground (arith, n, row_ok_complete a)))
  ]
