-- ===== src/Chat/Refs.antt =====
-- How the references of the playground are shown: `renderRefs` with its crosses, `clearRefs`, the zone
-- of the parameters that `markParamDrop` labels, and the ways that files come in.
pub mod Laws
use mikrollm.Base.{
  ℕ, ◌+◌, ◌-◌, take, leb, Option, none, some, Bool, true, false, not, ◌||◌, List, [], ◌∷◌, ◌++◌,
  if◌then◌else◌, length,
}
use mikrollm.Base.Text.{Text, lit, is_empty, starts_with}
use mikrollm.Chat.{Mode}
use mikrollm.Chat.Models.{is_chat}
use mikrollm.Chat.Params.{max_refs, read_all, remove_ref}

-- `#chat-param-drop`
pub record Zone : Type 0 where
  pub has_file : Bool
  pub is_required : Bool
  pub label : Text

-- `#chat-refs`: whether it is hidden, and its pictures with their alternative texts; the zone is there
-- if the model takes pictures. `field` is whether the file input still holds its files.
pub record Strip : Type 0 where
  pub refs : List Text
  pub hidden : Bool
  pub thumbs : List (Text × Text)
  pub zone : Option Zone
  pub field : Bool

-- A file of the clipboard: its type, and what `getAsFile` gives.
pub record Item {ℓ} (File : Type ℓ) : Type ℓ where
  pub typ : Text
  pub file : Option File

module _ {ℓ} {File : Type ℓ} where
  abbrev pub cons_some : Option File → List File → List File
  cons_some none fs = fs
  cons_some (some f) fs = f ∷ fs

  -- The pictures of the clipboard that a paste attaches, unless the mode is the chat.
  unfoldable pub pasted : List (Item File) → List File
  unfolding lit
  pasted [] = []
  pasted (i ∷ is) =
      let rest = pasted is in
      if starts_with (lit "image/") i.typ then cons_some i.file rest else rest

  unfoldable pub taken : Mode → List File → List File
  taken m fs = if is_chat m then [] else fs

module _ (digits : ℕ → Text) where
  unfoldable pub zone_label : Bool → List Text → Text
  unfolding lit
  zone_label required us =
      if not (is_empty us)
      then lit "фото: " ++ digits (length us)
      else if required
      then lit "Нужен референс — нажмите или перетащите"
      else lit "Нажмите или перетащите фото"

  abbrev pub mark_zone : List Text → Option Zone → Option Zone
  mark_zone us none = none
  mark_zone us (some z) =
      some (record z { has_file = not (is_empty us); label = zone_label z.is_required us })

  unfoldable pub mark_param_drop : Strip → Strip
  mark_param_drop s = record s { zone = mark_zone s.refs s.zone }

  unfoldable pub thumbs_from : ℕ → List Text → List (Text × Text)
  unfolding lit
  thumbs_from i [] = []
  thumbs_from i (u ∷ us) = (u, lit "референс " ++ digits (i + 1)) ∷ thumbs_from (i + 1) us

  unfoldable pub render_refs : Mode → Strip → Strip
  render_refs m s =
      if is_empty s.refs || is_chat m
      then record s { hidden = true; thumbs = [] }
      else mark_param_drop (record s { hidden = false; thumbs = thumbs_from 0 s.refs })

  -- The cross of the picture `i`.
  unfoldable pub cross : Mode → ℕ → Strip → Strip
  cross m i s = render_refs m (record s { refs = remove_ref i s.refs })

  unfoldable pub clear_refs : Mode → Strip → Strip
  clear_refs m s = record (render_refs m (record s { refs = [] })) { field = false }

  -- `addRefFiles`, from the array `refs` at the call to the one when the pictures have been read.
  unfoldable pub attach : Mode → List (Option Text) → List Text → Strip → Strip
  attach m files before s =
      let room = max_refs - length before in
      if leb room 0 then s else elim (read_all (take room files)) [
        | none ↦ s
        | some us ↦ render_refs m (record s { refs = s.refs ++ us })
      ]
