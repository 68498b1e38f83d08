-- ===== src/Page/Forms.antt =====
-- The forms of a page: the token that each one carries, the fields that a kind of backend shows, the
-- boxes that reveal a part of the page, and the backends of an upstream model.
use mathlib.Core.List.{reverse}
use mikrollm.Base.{
  ◌≡◌, refl, Option, none, some, Bool, true, false, not, ◌&&◌, ◌||◌, List, [], ◌∷◌, ◌++◌, map,
  if◌then◌else◌, ◌==◌, text_eq, any, arith, eq_refl,
}
use mikrollm.Base.Text.{Text, lit, or_text, is_empty, is_space, split}

-- A form: whether its method is post, and its inputs, each a name and a value.
pub record Form : Type 0 where
  pub post : Bool
  pub inputs : List (Text × Text)

-- `csrfToken`, for the tag `meta` with its `content`.
abbrev pub csrf_token : Option (Option Text) → Text
csrf_token none = []
csrf_token (some content) = or_text content []

unfoldable pub is_csrf : Text × Text → Bool
unfolding lit
is_csrf (name, value) = name == lit "csrf"

unfoldable pub add_token : Text → Form → Form
unfolding lit
add_token token f =
    if f.post && not (any is_csrf f.inputs)
    then record f { inputs = f.inputs ++ (lit "csrf", token) ∷ [] }
    else f

-- `s.split(/\s+/)`; `gap` tells that the last unit read was white space.
unfoldable pub words_from : Bool → Text → Text → List Text
words_from gap cur [] = reverse cur ∷ []
words_from gap cur (c ∷ s) =
    if is_space c
    then if gap then words_from true [] s else reverse cur ∷ words_from true [] s
    else words_from false (c ∷ cur) s

unfoldable pub split_words : Text → List Text
split_words s = words_from false [] s

-- An element with `data-for-kind`.
pub record Field : Type 0 where
  pub kinds : Option Text
  pub hidden : Bool

unfoldable pub sync_field : Text → Field → Field
sync_field k f = record f { hidden = not (any (λ w. w == k) (split_words (or_text f.kinds []))) }

unfoldable pub sync_kind : Text → List Field → List Field
sync_kind k fs = map (sync_field k) fs

-- `data-reveal`: whether the part that it names, if it is there, is hidden.
abbrev pub reveal : Bool → Option Bool → Option Bool
reveal checked none = none
reveal checked (some hidden) = some (not checked)

-- The choice of an upstream model: the value and the placeholder of the alias, and the backends' boxes,
-- each a value and whether it is checked.
pub record Upstream : Type 0 where
  pub alias : Option (Text × Text)
  pub backends : List (Text × Bool)

abbrev pub name_alias : Text → Option (Text × Text) → Option (Text × Text)
name_alias v none = none
name_alias v (some (value, placeholder)) = some (value, if is_empty value then v else placeholder)

abbrev pub check_backend : List Text → Text × Bool → Text × Bool
check_backend ids (value, checked) = (value, any (λ i. i == value) ids)

unfoldable pub choose_upstream : Text → Option Text → Upstream → Upstream
choose_upstream value backends u = record {
  alias = name_alias value u.alias;
  backends = map (check_backend (split 44 (or_text backends []))) u.backends;
}

any-append :
    (p : Text × Text → Bool) (xs : List (Text × Text)) (x : Text × Text)
    → any p (xs ++ x ∷ []) ≡ (any p xs || p x)
any-append p [] x = ground arith
any-append p (y ∷ xs) x = ground (arith, any-append p xs x)

is_csrf-token : (token : Text) → is_csrf (lit "csrf", token) ≡ true
unfolding is_csrf
is_csrf-token token = eq_refl (lit "csrf")

any-add_token :
    (token : Text) (f : Form)
    → any is_csrf (add_token token f).inputs ≡ (f.post || any is_csrf f.inputs)
unfolding add_token
any-add_token token f =
    ground (arith, any-append is_csrf f.inputs (lit "csrf", token), is_csrf-token token)

post-add_token : (token : Text) (f : Form) → (add_token token f).post ≡ f.post
unfolding add_token
post-add_token token f = ground arith

add_token_same :
    (token : Text) (f : Form)
    → (f.post && not (any is_csrf f.inputs)) ≡ false
    → add_token token f ≡ f
unfolding add_token
add_token_same token f n = rw n refl

-- After the script has gone over a form, the form has an input for the token if and only if its method
-- is post or it had one, and going over it again, with whatever token, changes nothing.
pub add_token_lem :
    (token later : Text) (f : Form)
    → (any is_csrf (add_token token f).inputs ≡ (f.post || any is_csrf f.inputs))
      × (add_token later (add_token token f) ≡ add_token token f)
add_token_lem token later f = (
  any-add_token token f,
  add_token_same later (add_token token f)
      (ground (arith, any-add_token token f, post-add_token token f)),
)
