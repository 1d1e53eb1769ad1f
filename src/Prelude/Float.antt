-- ===== src/Prelude/Float.antt =====
-- Go's float64. The language has no floating-point numbers, so the type and its operations are a
-- parameter; a theorem that rests on a law of them names that law.
use Prim.Native.Nat.{ℕ}
use Prim.Native.String.{String}
use mathlib.Core.Bool.{Bool}
use mathlib.Core.Option.{Option}

pub record Float : Type 1 where
  pub Carrier : Type 0
  pub less : Carrier → Carrier → Bool
  -- `float64(n)`
  pub of_nat : ℕ → Carrier
  -- The literal n / d, d a power of ten.
  pub ratio : ℕ → ℕ → Carrier
  pub add : Carrier → Carrier → Carrier
  pub sub : Carrier → Carrier → Carrier
  pub mul : Carrier → Carrier → Carrier
  pub div : Carrier → Carrier → Carrier
  pub neg : Carrier → Carrier
  pub exp : Carrier → Carrier
  pub is_nan : Carrier → Bool
  -- `==`
  pub equal : Carrier → Carrier → Bool
  -- math.Trunc
  pub trunc : Carrier → Carrier
  -- strconv.FormatFloat in format 'f' with this many decimals; `none` is precision -1.
  pub format : Option ℕ → Carrier → String
