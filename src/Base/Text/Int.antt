-- ===== src/Base/Text/Int.antt =====
-- `parseInt(s, 10)`, without the rounding of numbers above 2^53, and signed integers.
use Prim.Native.Nat.{ℕ, suc, ◌+◌, ◌-◌, ◌*◌}
use mathlib.Core.Bool.{Bool, true, false, ◌&&◌}
use mathlib.Core.Option.{Option, none, some}
use mathlib.Core.List.{[], ◌∷◌}
use mikrollm.Base.Tests.{ltb, leb, ◌==◌, nat_eq, if◌then◌else◌}
use mikrollm.Base.Text.{Text, trim_start}

-- `negsuc n` is -(n + 1).
pub data ℤ : Type 0 where
  pos : ℕ → ℤ
  negsuc : ℕ → ℤ

abbrev pub negate : ℕ → ℤ
negate n = elim n [ ℕ.zero ↦ pos 0 | suc k ↦ negsuc k ]

abbrev pub ltb_ℤ : ℤ → ℤ → Bool
ltb_ℤ (pos a) (pos b) = ltb a b
ltb_ℤ (pos a) (negsuc b) = false
ltb_ℤ (negsuc a) (pos b) = true
ltb_ℤ (negsuc a) (negsuc b) = ltb b a

abbrev is_digit : ℕ → Bool
is_digit c = leb b'0' c && leb c b'9'

-- The value of the longest prefix of digits, after `acc`; `seen` tells whether there was a digit.
digits_from : Bool → ℕ → Text → Option ℕ
digits_from seen acc [] = if seen then some acc else none
digits_from seen acc (c ∷ s) =
    if is_digit c then digits_from true (acc * 10 + (c - 48)) s else if seen then some acc else none

abbrev as_pos : Option ℕ → Option ℤ
as_pos none = none
as_pos (some n) = some (pos n)

abbrev as_neg : Option ℕ → Option ℤ
as_neg none = none
as_neg (some n) = some (negate n)

signed : Text → Option ℤ
unfolding digits_from
signed [] = none
signed (c ∷ s) =
    if c == b'-'
    then as_neg (digits_from false 0 s)
    else if c == b'+'
    then as_pos (digits_from false 0 s)
    else as_pos (digits_from false 0 (c ∷ s))

-- `none` is NaN.
unfoldable pub parse_int : Text → Option ℤ
unfolding signed trim_start
parse_int s = signed (trim_start s)

-- `parseInt(s, 10) || 0`.
abbrev pub int_or_zero : Option ℤ → ℤ
int_or_zero none = pos 0
int_or_zero (some z) = z
