-- ===== src/Python/Floats.antt =====
-- Python's floats, which the studies use and do not implement: a parameter of the models.
use mncs_reference_studies.Common.{ℕ, Option, ◌≡◌, Bool, true, false, ◌&&◌, if◌then◌else◌}
use mncs_reference_studies.Common.Int.{ℤ}

-- `lt` and `le` are separate tests, since both are false on a NaN. `tenths n` is the literal
-- n/10, `hundredths n` the literal n/100, `tiny` the literal 1e-12. `float_of n` is
-- `float(n)` and `ratio a b` is `a / b` on integers, for a b that is not zero: both are none when
-- Python raises an OverflowError. `of_int` is the float of an integer that is known to be small.
-- An integer is compared with a float exactly: `int_le n x` is `n <= x`, `le_int x n` is `x <= n`.
pub record Floats : Type 1 where
  pub Float : Type 0
  pub lt : Float → Float → Bool
  pub le : Float → Float → Bool
  pub add : Float → Float → Float
  pub sub : Float → Float → Float
  pub mul : Float → Float → Float
  pub div : Float → Float → Float
  pub sqrt : Float → Float
  pub of_int : ℤ → Float
  pub float_of : ℤ → Option Float
  pub ratio : ℤ → ℤ → Option Float
  pub int_le : ℤ → Float → Bool
  pub le_int : Float → ℤ → Bool
  pub int_lt : ℤ → Float → Bool
  pub lt_int : Float → ℤ → Bool
  pub tenths : ℕ → Float
  pub hundredths : ℕ → Float
  pub tiny : Float
  pub infinity : Float
  pub is_finite : Float → Bool

-- The built-in `min` and `max` keep their first argument unless the second one is beyond it.
abbrev pub min_float : (F : Floats) → F.Float → F.Float → F.Float
min_float F a b = if F.lt b a then b else a

abbrev pub max_float : (F : Floats) → F.Float → F.Float → F.Float
max_float F a b = if F.lt a b then b else a

-- `a == b`
abbrev pub eq_float : (F : Floats) → F.Float → F.Float → Bool
eq_float F a b = F.le a b && F.le b a

-- What IEEE comparison promises: no two floats each precede the other.
abbrev pub IsAsymmetric : Floats → Type 0
IsAsymmetric F = (a b : F.Float) → F.lt a b ≡ true → F.lt b a ≡ false
