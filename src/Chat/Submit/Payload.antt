-- ===== src/Chat/Submit/Payload.antt =====
-- What a request for a picture or a film carries: the payload of `runMedia`.
pub mod Fields
pub mod Laws
use mikrollm.Base.{
  ℕ, zero, suc, Option, none, some, Bool, true, false, not, ◌&&◌, ◌||◌, List, [], ◌∷◌, map,
  if◌then◌else◌, ◌==◌, text_eq, select,
}
use mikrollm.Base.Text.{Text, lit, is_empty}
use mikrollm.Base.Text.Int.{ℤ, pos, negsuc}
use mikrollm.Catalog.Band.{Floats}
use mikrollm.Chat.{Message, Role, user, assistant, Mode, chat, image, video}
use mikrollm.Chat.Params.{Value, flag, whole, real, words, put}

-- `payload[name]` on an object, by its keys and values; `none` is a missing key.
unfoldable pub get : {A : Type 0} → Text → List (Text × A) → Option A
get k [] = none
get k ((j, v) ∷ fields) = if j == k then some v else get k fields

module _ (fl : Floats) (is_zero : fl.Num → Bool) where
  -- The values of a payload: one from the form or of the page, the messages with their roles, the
  -- references as they are and as objects of the type `image_url`.
  pub data Field : Type 0 where
    plain : Value fl → Field
    thread : List (Role × Text) → Field
    images : List Text → Field
    image_urls : List Text → Field

  abbrev pub Payload : Type 0
  Payload = List (Text × Field)

  unfoldable pub text_field : Text → Field
  text_field t = plain (words t)

  -- The test of a value that may be missing, `!v`.
  unfoldable pub is_falsy : Option Field → Bool
  is_falsy none = true
  is_falsy (some (plain (flag b))) = not b
  is_falsy (some (plain (whole (pos zero)))) = true
  is_falsy (some (plain (whole (pos (suc n))))) = false
  is_falsy (some (plain (whole (negsuc n)))) = false
  is_falsy (some (plain (real x))) = is_zero x
  is_falsy (some (plain (words t))) = is_empty t
  is_falsy (some (thread ms)) = false
  is_falsy (some (images us)) = false
  is_falsy (some (image_urls us)) = false

  -- `v == null || v === ""`, and `v == null`.
  unfoldable pub is_blank : Option Field → Bool
  is_blank none = true
  is_blank (some (plain (words t))) = is_empty t
  is_blank (some _) = false

  unfoldable pub is_missing : Option Field → Bool
  is_missing none = true
  is_missing (some _) = false

  unfoldable pub first_fields : Text → Text → List Message → Payload
  unfolding lit
  first_fields model prompt messages =
      (lit "model", text_field model)
      ∷ (lit "prompt", text_field prompt)
      ∷ (
        lit "messages",
        thread (map (λ m. (m.role, m.content)) (select (λ m. not m.pending) messages)),
      )
      ∷ []

  unfoldable pub with_extra : List (Text × Value fl) → Payload → Payload
  with_extra [] p = p
  with_extra ((k, v) ∷ extra) p = with_extra extra (put k (plain v) p)

  unfoldable pub with_number : Payload → Payload
  unfolding lit
  with_number p =
      if is_missing (get (lit "n") p) then put (lit "n") (plain (whole (pos 1))) p else p

  unfoldable pub with_size : Mode → Payload → Payload
  unfolding lit
  with_size mode p =
      if is_falsy (get (lit "size") p)
      then put (lit "size")
          (text_field (elim mode [ video ↦ lit "720x1280" | _ ↦ lit "1024x1024" ])) p
      else p

  unfoldable pub with_seconds : Mode → Payload → Payload
  unfolding lit
  with_seconds video p =
      if is_blank (get (lit "seconds") p) then put (lit "seconds") (text_field (lit "4")) p else p
  with_seconds _ p = p

  -- The references go along with the request of the chat that is shown.
  unfoldable pub with_refs : List Text → Payload → Payload
  unfolding lit
  with_refs [] p = p
  with_refs (u ∷ us) p =
      put (lit "input_references") (image_urls (u ∷ us))
        (put (lit "input_images") (images (u ∷ us)) (put (lit "input_image") (text_field u) p))

  unfoldable pub payload :
      Mode
      → (model prompt : Text) → List Message
      → List (Text × Value fl)
      → (shown : Bool) → List Text
      → Payload
  payload mode model prompt messages extra shown refs = with_refs (if shown then refs else []) (
      with_seconds mode
        (with_size mode (with_number (with_extra extra (first_fields model prompt messages)))))
