-- ===== src/Python/Equality.antt =====
-- `==` on JSON values: numbers by value, where a Boolean is 0 or 1, and dictionaries in any order.
use mncs_reference_studies.Common.{
  Bool, true, false, ◌&&◌, Option, none, some, length, ◌==◌, string_eq, nat_eq,
}
use mncs_reference_studies.Common.Int.{ℤ, pos, int_eq}
use mncs_reference_studies.Dict.{lookup}
use mncs_reference_studies.Python.Floats.{Floats, eq_float}
use mncs_reference_studies.Python.Json.{
  Json, Items, Fields, null, text, flag, int, number, array, object, no_items, item, no_fields,
  field, entries,
}

-- A scalar as a number, if it is one.
pub data Number (N : Type 0) : Type 0 where
  whole : ℤ → Number N
  real : N → Number N

abbrev pub number_of : {N : Type 0} → Json N → Option (Number N)
number_of (flag true) = some (whole (pos 1))
number_of (flag false) = some (whole (pos 0))
number_of (int n) = some (whole n)
number_of (number x) = some (real x)
number_of _ = none

abbrev pub eq_number : (F : Floats) → Number F.Float → Number F.Float → Bool
eq_number F (whole m) (whole n) = m == n
eq_number F (real x) (real y) = eq_float F x y
eq_number F (whole n) (real x) = F.int_le n x && F.le_int x n
eq_number F (real x) (whole n) = F.int_le n x && F.le_int x n

abbrev pub eq_scalar : (F : Floats) → Option (Number F.Float) → Option (Number F.Float) → Bool
eq_scalar F (some a) (some b) = eq_number F a b
eq_scalar F _ _ = false

unfoldable mutual
  pub equal_by : {N : Type 0} → (Json N → Json N → Bool) → Json N → Json N → Bool
  equal_by scalar null null = true
  equal_by scalar (text s) (text t) = s == t
  equal_by scalar (array xs) (array ys) = items_equal scalar xs ys
  equal_by scalar (object fs) (object gs) =
      length (entries fs) == length (entries gs) && fields_equal scalar fs gs
  equal_by scalar x y = scalar x y

  pub items_equal : {N : Type 0} → (Json N → Json N → Bool) → Items N → Items N → Bool
  items_equal scalar no_items no_items = true
  items_equal scalar (item x xs) (item y ys) = equal_by scalar x y && items_equal scalar xs ys
  items_equal scalar _ _ = false

  -- Every field of the first has an equal one in the second.
  pub fields_equal : {N : Type 0} → (Json N → Json N → Bool) → Fields N → Fields N → Bool
  fields_equal scalar no_fields gs = true
  fields_equal scalar (field k x fs) gs =
      elim (lookup k (entries gs)) [ none ↦ false | some y ↦ equal_by scalar x y ]
      && fields_equal scalar fs gs

unfoldable pub json_eq : (F : Floats) → Json F.Float → Json F.Float → Bool
json_eq F = equal_by (λ x y. eq_scalar F (number_of x) (number_of y))
