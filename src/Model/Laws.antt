-- ===== src/Model/Laws.antt =====
-- What the dialog of a model can do: its buttons name the model and a server, and its form says where
-- the model is in one of two ways.
use mikrollm.Base.{
  ◌≤◌, ◌≡◌, refl, Bool, true, false, not, ◌&&◌, List, [], ◌∷◌, map, if◌then◌else◌, select, all, All,
  All-append, length, arith, Bool-cases, inl, inr,
}
use mikrollm.Base.Text.{Text, is_empty}
use mikrollm.Model.{
  Host, Dataset, HostButton, HostRow, Dialog, one_if, load_button, delete_button, buttons_of,
  pills_of, row_of, hosts_of, box_of, boxes_of, show_model,
}

-- A button that asks for the model `name` on a server.
abbrev pub Asks : Text → HostButton → Type 0
Asks name b = (b.name ≡ name) × (is_empty b.id ≡ false)

-- A line with at most two buttons, which ask for the model, and at most one pill.
abbrev pub IsGoodRow : Text → HostRow → Type 0
IsGoodRow name r = All (Asks name) r.buttons × ((length r.buttons ≤ 2) × (length r.pills ≤ 1))

-- The form names a node of the hub and no server, or no node and only servers.
abbrev pub says_where : Dialog → Bool
says_where g =
    if g.hub_disabled
    then is_empty g.hub_id && all (λ (b : Text × Text). not (is_empty b.0)) g.boxes
    else not (is_empty g.hub_id) && is_empty g.boxes

load_button-Asks : (name : Text) (h : Host) → is_empty h.id ≡ false → Asks name (load_button name h)
unfolding load_button
load_button-Asks name h e = elim (Bool-cases h.loaded) [
  | inl y ↦ rw y (refl, e)
  | inr n ↦ rw n (refl, e)
]

id_there : (b : Bool) (t : Text) → (b && not (is_empty t)) ≡ true → is_empty t ≡ false
id_there b t h = ground arith

All-one_if :
    (P : HostButton → Type 0) (b : Bool) (x : HostButton) → (b ≡ true → P x) → All P (one_if b x)
All-one_if P true x h = (h refl, tt)
All-one_if P false x h = tt

buttons_of-All : (name : Text) (h : Host) → All (Asks name) (buttons_of name h)
unfolding buttons_of delete_button
buttons_of-All name h =
    All-append (Asks name) _ _
      (All-one_if (Asks name) _ (load_button name h)
        (λ e. load_button-Asks name h (id_there h.can_load h.id e)))
      (All-one_if (Asks name) _ (delete_button name h) (λ e. (refl, id_there h.can_delete h.id e)))

buttons_of-few : (name : Text) (h : Host) → length (buttons_of name h) ≤ 2
unfolding buttons_of
buttons_of-few name h = ground arith

pills_of-few : (h : Host) → length (pills_of h) ≤ 1
unfolding pills_of
pills_of-few h = ground arith

rows-All : (name : Text) (hs : List Host) → All (IsGoodRow name) (map (row_of name) hs)
unfolding row_of
rows-All name [] = tt
rows-All name (h ∷ hs) =
    ((buttons_of-All name h, (buttons_of-few name h, pills_of-few h)), rows-All name hs)

boxes-all :
    (hs : List Host)
    → all
        (λ (b : Text × Text). not (is_empty b.0))
        (map box_of (select (λ h. not (is_empty h.id)) hs))
      ≡ true
unfolding box_of
boxes-all [] = refl
boxes-all (h ∷ hs) = ground (arith, boxes-all hs)

-- Whatever the data of a model and of its servers, each line of the dialog has at most two buttons,
-- all of them for this model and a server with an id, and at most one pill; and the form names either
-- the node of the hub and no server, or no node and only servers with an id.
pub show_model_lem :
    (d : Dataset) → All (IsGoodRow d.name) (show_model d).rows × (says_where (show_model d) ≡ true)
unfolding show_model boxes_of
show_model_lem d = (
  rows-All d.name (hosts_of d.hosts),
  elim (Bool-cases (is_empty d.hub)) [
    | inl y ↦ rw y (boxes-all (hosts_of d.hosts))
    | inr n ↦ rw (n, n) refl
  ],
)
