-- ===== src/Chat/Submit/Payload/Laws.antt =====
-- The fields of a payload that the page sets itself, whatever the form of extra parameters holds:
-- `runMedia` with `collectExtraParams`.
use mikrollm.Base.{
  ◌≡◌, refl, ap, ◌∙◌, Option, none, some, Bool, true, false, ◌&&◌, List, [], ◌∷◌, map,
  if◌then◌else◌, ◌==◌, text_eq, list_beq, any,
}
use mikrollm.Base.Text.{Text, lit}
use mikrollm.Base.Text.Int.{pos}
use mikrollm.Catalog.Band.{Floats}
use mikrollm.Chat.{Message, Mode, chat, image, video}
use mikrollm.Chat.Params.{
  Value, whole, skip_param, Composed, Schema, Element, elements, render_params,
  collect_extra_params,
}
use mikrollm.Chat.Params.Laws.{keys, skip-collect_extra_params}
use mikrollm.Chat.Submit.Payload.{
  get, Field, plain, images, image_urls, Payload, text_field, is_falsy, is_blank, is_missing,
  first_fields, with_extra, with_number, with_size, with_seconds, with_refs, payload,
}
use mikrollm.Chat.Submit.Payload.Fields.{
  get-with_extra, get-with_number, get-with_size, get-with_seconds, get-with_refs, falsy-with_size,
  blank-with_seconds, get-put_other, get-put_same,
}

module _ (fl : Floats) (is_zero : fl.Num → Bool) where
  abbrev is_video : Mode → Bool
  is_video video = true
  is_video _ = false

  -- The references as a payload carries them.
  abbrev pub carried : (List Text → Field fl is_zero) → List Text → Option (Field fl is_zero)
  carried wrap [] = none
  carried wrap (u ∷ us) = some (wrap (u ∷ us))

  timed :
      (mode : Mode) (p : Payload fl is_zero)
      → (is_video mode
          && is_blank fl is_zero (get (lit "seconds") (with_seconds fl is_zero mode p)))
        ≡ false
  timed chat p = refl
  timed image p = refl
  timed video p = blank-with_seconds fl is_zero p

  with_refs-images :
      (us : List Text) (p : Payload fl is_zero)
      → get (lit "input_images") p ≡ none
      → get (lit "input_images") (with_refs fl is_zero us p) ≡ carried images us
  unfolding with_refs lit list_beq
  with_refs-images [] p h = h
  with_refs-images (u ∷ us) p h =
      get-put_other (lit "input_images") (lit "input_references") _ _ refl
      ∙ get-put_same (lit "input_images") _ _

  with_refs-references :
      (us : List Text) (p : Payload fl is_zero)
      → get (lit "input_references") p ≡ none
      → get (lit "input_references") (with_refs fl is_zero us p) ≡ carried image_urls us
  unfolding with_refs lit list_beq
  with_refs-references [] p h = h
  with_refs-references (u ∷ us) p h = get-put_same (lit "input_references") _ _

  -- What a payload says, for a mode, a model, a prompt and references.
  pub record Says (mode : Mode) (model prompt : Text) (refs : List Text) (p : Payload fl is_zero)
      : Type 0 where
    pub model_eq : get (lit "model") p ≡ some (text_field fl is_zero model)
    pub prompt_eq : get (lit "prompt") p ≡ some (text_field fl is_zero prompt)
    pub n_eq : get (lit "n") p ≡ some (plain (whole (pos 1)))
    pub images_eq : get (lit "input_images") p ≡ carried images refs
    pub references_eq : get (lit "input_references") p ≡ carried image_urls refs
    pub size_set : is_falsy fl is_zero (get (lit "size") p) ≡ false
    pub seconds_set : (is_video mode && is_blank fl is_zero (get (lit "seconds") p)) ≡ false

  module _ (mode : Mode) (model prompt : Text) (messages : List Message)
      (extra : List (Text × Value fl)) (free : any skip_param (keys fl extra) ≡ false) where
    abbrev start : Payload fl is_zero
    start = first_fields fl is_zero model prompt messages

    abbrev extended : Payload fl is_zero
    extended = with_extra fl is_zero extra start

    abbrev before_refs : Payload fl is_zero
    before_refs =
        with_seconds fl is_zero mode (with_size fl is_zero mode (with_number fl is_zero extended))

    -- A field that is none of the defaults.
    early :
        (j : Text)
        → skip_param j ≡ true
        → (lit "n" == j) ≡ false
        → (lit "size" == j) ≡ false
        → (lit "seconds" == j) ≡ false
        → get j before_refs ≡ get j start
    early j own a b c =
        get-with_seconds fl is_zero j mode
          (with_size fl is_zero mode (with_number fl is_zero extended)) c
        ∙ get-with_size fl is_zero j mode (with_number fl is_zero extended) b
        ∙ get-with_number fl is_zero j extended a
        ∙ get-with_extra fl is_zero j extra start own free

    before-n : get (lit "n") before_refs ≡ some (plain (whole (pos 1)))
    unfolding with_number is_missing lit first_fields get skip_param list_beq
    before-n =
        let none_yet : get (lit "n") extended ≡ none =
          get-with_extra fl is_zero (lit "n") extra start refl free in
        get-with_seconds fl is_zero (lit "n") mode
          (with_size fl is_zero mode (with_number fl is_zero extended)) refl
        ∙ get-with_size fl is_zero (lit "n") mode (with_number fl is_zero extended) refl
        ∙ rw none_yet (get-put_same (lit "n") (plain (whole (pos 1))) extended)

    before-images : get (lit "input_images") before_refs ≡ none
    unfolding lit first_fields get skip_param list_beq
    before-images = early (lit "input_images") refl refl refl refl

    before-references : get (lit "input_references") before_refs ≡ none
    unfolding lit first_fields get skip_param list_beq
    before-references = early (lit "input_references") refl refl refl refl

    before-size : is_falsy fl is_zero (get (lit "size") before_refs) ≡ false
    unfolding lit list_beq
    before-size =
        ap (is_falsy fl is_zero) (
          get-with_seconds fl is_zero (lit "size") mode
            (with_size fl is_zero mode (with_number fl is_zero extended)) refl)
        ∙ falsy-with_size fl is_zero mode (with_number fl is_zero extended)

    before-seconds :
        (is_video mode && is_blank fl is_zero (get (lit "seconds") before_refs)) ≡ false
    before-seconds = timed mode (with_size fl is_zero mode (with_number fl is_zero extended))

    Says-with_refs :
        (us : List Text) → Says mode model prompt us (with_refs fl is_zero us before_refs)
    unfolding lit first_fields get skip_param list_beq
    Says-with_refs us = record {
      model_eq =
          get-with_refs fl is_zero (lit "model") us before_refs refl refl refl
          ∙ early (lit "model") refl refl refl refl;
      prompt_eq =
          get-with_refs fl is_zero (lit "prompt") us before_refs refl refl refl
          ∙ early (lit "prompt") refl refl refl refl;
      n_eq = get-with_refs fl is_zero (lit "n") us before_refs refl refl refl ∙ before-n;
      images_eq = with_refs-images us before_refs before-images;
      references_eq = with_refs-references us before_refs before-references;
      size_set =
          ap (is_falsy fl is_zero)
            (get-with_refs fl is_zero (lit "size") us before_refs refl refl refl)
          ∙ before-size;
      seconds_set =
          ap (λ o. is_video mode && is_blank fl is_zero o)
            (get-with_refs fl is_zero (lit "seconds") us before_refs refl refl refl)
          ∙ before-seconds;
    }

-- Whatever the user enters in the form of extra parameters, which has the elements that the schema
-- gives rise to, the payload of a request for a picture or a film carries the model and the prompt of
-- the request, the number one, the references of the chat that is shown as they are attached and none
-- otherwise, a size, and for a film a number of seconds.
pub payload_lem :
    (fl : Floats) (is_zero : fl.Num → Bool) (c : Composed) (sch : Schema) (edit : Element → Element)
    → ((e : Element) → (edit e).name ≡ e.name)
    → (mode : Mode) (model prompt : Text) (messages : List Message) (shown : Bool)
      (refs : List Text)
    → Says fl is_zero mode model prompt (if shown then refs else []) (
        payload fl is_zero mode model prompt messages
          (collect_extra_params fl (map edit (elements (render_params c sch))))
          shown
          refs)
unfolding payload
payload_lem fl is_zero c sch edit keeps mode model prompt messages shown refs =
    Says-with_refs fl is_zero mode model prompt messages
      (collect_extra_params fl (map edit (elements (render_params c sch))))
      (skip-collect_extra_params fl c sch edit keeps) (if shown then refs else [])
