-- ===== src/BenchCharts/Float.antt =====
-- Values of Go's float64 as their bit patterns, and `positiveFinite` of
-- internal/testutil/cmd/benchcharts/main.go.
use postgres_sqlguard.Common.{
  ℕ, ◌*◌, ◌/◌, ◌%◌, ◌^◌, ◌<◌, ◌≡◌, ◌↔◌, arith, Bool, true, not, ◌&&◌, ◌==◌, GoString,
}

-- The bits of a float64: a sign, 11 bits of exponent, 52 bits of fraction.
abbrev pub Float64 : Type 0
Float64 = ℕ

abbrev pub sign : Float64 → ℕ
sign x = x / 2 ^ 63

abbrev pub exponent : Float64 → ℕ
exponent x = x / 2 ^ 52 % 2 ^ 11

abbrev pub fraction : Float64 → ℕ
fraction x = x % 2 ^ 52

-- `math.IsNaN(x)`
unfoldable pub is_nan : Float64 → Bool
is_nan x = exponent x == 2047 && not (fraction x == 0)

-- `math.IsInf(x, 0)`
unfoldable pub is_inf : Float64 → Bool
is_inf x = exponent x == 2047 && fraction x == 0

-- `x > 0`, which is false of a NaN.
unfoldable pub gt_zero : Float64 → Bool
unfolding is_nan
gt_zero x = not (is_nan x) && sign x == 0 && not (exponent x == 0 && fraction x == 0)

-- `positiveFinite`
unfoldable pub positive_finite : Float64 → Bool
unfolding gt_zero is_inf is_nan
positive_finite value = gt_zero value && not (is_inf value) && not (is_nan value)

-- The bit patterns of the positive finite values are the numbers between that of zero and that
-- of positive infinity, both excluded.
pub positive_finite_iff :
    (x : Float64) → x < 2 ^ 64 → (positive_finite x ≡ true) ↔ ((0 < x) × (x < 2047 * 2 ^ 52))
unfolding positive_finite gt_zero is_inf is_nan
positive_finite_iff x w = (λ h. (ground arith, ground arith), λ h. ground arith)

-- What `renderGroupedBars` and `writeBar` compute with: the arithmetic of float64 and the
-- formatting verbs of `fmt`.
pub record FloatOps : Type 0 where
  pub add : Float64 → Float64 → Float64
  pub sub : Float64 → Float64 → Float64
  pub mul : Float64 → Float64 → Float64
  pub div : Float64 → Float64 → Float64
  pub max : Float64 → Float64 → Float64
  pub min : Float64 → Float64 → Float64
  pub of_int : ℕ → Float64
  -- `%.Nf`
  pub fixed : ℕ → Float64 → GoString
