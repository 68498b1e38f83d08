-- ===== src/Catalog/Band.antt =====
-- `matchBand`: whether a row's price lies in the band that the price filter asks for.
use mikrollm.Base.{
  ℕ, ◌+◌, ◌≤◌, Option, none, some, Bool, true, not, ◌&&◌, ◌≡◌, ◌==◌, ◌!=◌, text_eq, if◌then◌else◌,
  eq_iff, arith, list_beq,
}
use mikrollm.Base.Text.{Text, lit, or_text, is_empty}

-- The numbers of the host: what the script uses of `parseFloat` (`none` is NaN) and of `<`.
pub record Floats : Type 1 where
  pub Num : Type 0
  pub parse_float : Text → Option Num
  pub lt : Num → Num → Bool
  pub zero : Num
  pub half : Num
  pub two : Num
  pub ten : Num
  pub lt_trans : (a b c : Num) → lt a b ≡ true → lt b c ≡ true → lt a c ≡ true
  pub half-lt-two : lt half two ≡ true
  pub two-lt-ten : lt two ten ≡ true

module _ (fl : Floats) where
  open fl use {Num, parse_float, lt, zero, half, two, ten}

  -- `parseFloat(prompt || "0") || 0`
  unfoldable pub price : Option Text → Num
  price prompt = elim (parse_float (or_text prompt (lit "0"))) [ none ↦ zero | some p ↦ p ]

  unfoldable pub match_band : Text → Option Text → Text → Bool
  unfolding price
  match_band band prompt want =
      let p = price prompt in
      if is_empty want
      then true
      else if want == lit "none"
      then band == lit "none"
      else if want == lit "free"
      then band == lit "free"
      else if want == lit "paid"
      then band != lit "none" && band != lit "free"
      else if want == lit "lt0.5"
      then band != lit "none" && lt p half
      else if want == lit "lt2"
      then band != lit "none" && lt p two
      else if want == lit "lt10"
      then band != lit "none" && lt p ten
      else if want == lit "more"
      then band != lit "none" && not (lt p ten)
      else true

  abbrev pub one : Bool → ℕ
  one b = if b then 1 else 0

  -- How the answers for the choices of the price filter fit together, for one row.
  pub record IsConsistent (band : Text) (prompt : Option Text) : Type 0 where
    pub one_kind :
        one (match_band band prompt (lit "none"))
          + one (match_band band prompt (lit "free"))
          + one (match_band band prompt (lit "paid"))
        ≡ 1
    pub nested_low :
        one (match_band band prompt (lit "lt0.5")) ≤ one (match_band band prompt (lit "lt2"))
    pub nested_high :
        one (match_band band prompt (lit "lt2")) ≤ one (match_band band prompt (lit "lt10"))
    pub split_at_ten :
        one (match_band band prompt (lit "lt10")) + one (match_band band prompt (lit "more"))
        ≡ one (not (match_band band prompt (lit "none")))

  -- For each row exactly one of the choices "none", "free" and "paid" accepts it; the bands below
  -- 0.5, 2 and 10 are nested; and of the bands "lt10" and "more" exactly one accepts a row with a
  -- price, and neither accepts one without.
  pub match_band-IsConsistent : (band : Text) (prompt : Option Text) → IsConsistent band prompt
  unfolding match_band lit list_beq
  match_band-IsConsistent band prompt = record {
    one_kind = ground (arith, eq_iff band (lit "none"), eq_iff band (lit "free"));
    nested_low = ground (arith, fl.lt_trans (price prompt) half two, fl.half-lt-two);
    nested_high = ground (arith, fl.lt_trans (price prompt) two ten, fl.two-lt-ten);
    split_at_ten = ground arith;
  }
