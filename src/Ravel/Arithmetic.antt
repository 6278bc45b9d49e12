-- ===== src/Ravel/Arithmetic.antt =====
-- The arithmetic of the evaluator with the exceptions of Python: a division by zero, an integer that
-- no float holds, and the root of a negative number.
pub mod Partial
use mncs_reference_studies.Common.{Option, none, some, ◌==◌, if◌then◌else◌}
use mncs_reference_studies.Common.Int.{ℤ, pos, int_eq}
use mncs_reference_studies.Common.Result.{ok, raise}
use mncs_reference_studies.Python.Floats.{Floats, eq_float}
use mncs_reference_studies.Ravel.Values.{Outcome, zero_division, overflow_error, value_error}

module _ (F : Floats) where
  abbrev pub zero_float : F.Float
  zero_float = F.tenths 0

  abbrev pub or_overflow : Option F.Float → Outcome F.Float
  or_overflow none = raise overflow_error
  or_overflow (some x) = ok x

  -- `float(n)`
  abbrev pub to_float : ℤ → Outcome F.Float
  to_float n = or_overflow (F.float_of n)

  -- `a / b` on integers
  abbrev pub quotient : ℤ → ℤ → Outcome F.Float
  quotient a b = if b == pos 0 then raise zero_division else or_overflow (F.ratio a b)

  -- `x / y` on floats
  abbrev pub divide : F.Float → F.Float → Outcome F.Float
  divide x y = if eq_float F y zero_float then raise zero_division else ok (F.div x y)

  -- `math.sqrt(x)`
  abbrev pub square_root : F.Float → Outcome F.Float
  square_root x = if F.lt x zero_float then raise value_error else ok (F.sqrt x)
