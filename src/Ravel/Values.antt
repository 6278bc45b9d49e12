-- ===== src/Ravel/Values.antt =====
-- The `require_…` functions: a JSON value is of the declared kind, or an `EvaluationError` says not.
-- A set is a list here: the order in which Python walks it decides only which error comes first.
pub mod Checked
pub mod Settles
use mncs_reference_studies.Common.{
  ℕ, String, Bool, true, false, ◌&&◌, ◌||◌, not, Option, none, some, List, [], ◌∷◌, length, drop,
  ◌==◌, nat_eq, string_eq, if◌then◌else◌,
}
use mncs_reference_studies.Common.Int.{ℤ, pos, leb_ℤ, ltb_ℤ}
use mncs_reference_studies.Common.Result.{Result, ok, raise, ◌>>=◌, ◌>>◌, require}
use mncs_reference_studies.Common.Sets.{contains}
use mncs_reference_studies.Common.Text.{◌<>◌}
use mncs_reference_studies.Dict.{lookup, keys}
use mncs_reference_studies.Python.Json.{
  Json, null, text, flag, int, number, array, object, entries, items,
}
use mncs_reference_studies.Python.Hex.{code_points, all_hex, hex_from}

-- `EvaluationError` with its message; the keys that a mismatch lists are left out. The other
-- exceptions are those of Python itself.
pub data Failure : Type 0 where
  evaluation_error : String → Failure
  key_error : String → Failure
  type_error : Failure
  zero_division : Failure
  overflow_error : Failure
  value_error : Failure

abbrev pub Outcome {ℓ} : Type ℓ → Type ℓ
Outcome A = Result Failure A

abbrev pub Object : Type 0 → Type 0
Object N = List (String × Json N)

-- `if test: raise EvaluationError(message)`
abbrev pub reject_if : Bool → String → Outcome (Unit {0})
reject_if test message = require (not test) (evaluation_error message)

-- `value[key]` on a dictionary
abbrev pub found {ℓ} : {A : Type ℓ} → String → Option A → Outcome A
found key none = raise (key_error key)
found key (some x) = ok x

unfoldable pub get : {N : Type 0} → String → Object N → Outcome (Json N)
get key fields = found key (lookup key fields)

unfoldable pub require_object : {N : Type 0} → Json N → String → Outcome (Object N)
require_object (object fs) context = ok (entries fs)
require_object _ context = raise (evaluation_error (context <> ": expected object"))

unfoldable pub all_in : List String → List String → Bool
all_in [] names = true
all_in (k ∷ ks) names = contains k names && all_in ks names

-- `set(names) == set(others)`
abbrev pub same_set : List String → List String → Bool
same_set names others = all_in names others && all_in others names

unfoldable pub require_exact_keys :
    {N : Type 0} → Object N → List String → String → Outcome (Unit {0})
require_exact_keys value names context =
    reject_if (not (same_set (keys value) names)) (context <> ": key mismatch")

abbrev pub outside : ℤ → ℤ → Option ℤ → Bool
outside n low none = ltb_ℤ n low
outside n low (some high) = ltb_ℤ n low || ltb_ℤ high n

unfoldable pub require_int : {N : Type 0} → Json N → String → ℤ → Option ℤ → Outcome ℤ
require_int (int n) context low high = do
  reject_if (outside n low high) (context <> ": integer outside declared range")
  ok n
require_int _ context low high = raise (evaluation_error (context <> ": expected integer"))

-- With the default bounds.
abbrev pub require_natural : {N : Type 0} → Json N → String → Outcome ℤ
require_natural value context = require_int value context (pos 0) none

unfoldable pub require_bool : {N : Type 0} → Json N → String → Outcome Bool
require_bool (flag b) context = ok b
require_bool _ context = raise (evaluation_error (context <> ": expected boolean"))

abbrev pub is_empty_text : String → Bool
is_empty_text s = s == ""

unfoldable pub require_string : {N : Type 0} → Json N → String → Outcome String
require_string (text s) context = do
  reject_if (is_empty_text s) (context <> ": expected non-empty string")
  ok s
require_string _ context = raise (evaluation_error (context <> ": expected non-empty string"))

abbrev pub is_hex_of : ℕ → List ℕ → Bool
is_hex_of digits cs = length cs == digits && all_hex cs

-- `_validate_hex`
unfoldable pub validate_hex : {N : Type 0} → Json N → String → ℕ → Outcome String
validate_hex value context digits = do
  s ← require_string value context
  reject_if (not (is_hex_of digits (code_points s))) (context <> ": expected lowercase hex digits")
  ok s

abbrev pub is_prefixed : List ℕ → Bool
is_prefixed (a ∷ b ∷ cs) = a == b'0' && b == b'x'
is_prefixed _ = false

-- `_validate_u64_hex`
unfoldable pub validate_u64_hex : {N : Type 0} → Json N → String → Outcome ℕ
validate_u64_hex value context = do
  s ← require_string value context
  reject_if (not (length (code_points s) == 18 && is_prefixed (code_points s)))
      (context <> ": expected 0x plus 16 lowercase hex digits")
  reject_if (not (is_hex_of 16 (drop 2 (code_points s))))
      (context <> ": expected lowercase hex digits")
  ok (hex_from 0 (drop 2 (code_points s)))

-- `for key in names: require_int(fields[key], f"{context}.{key}")`
unfoldable pub require_naturals :
    {N : Type 0} → Object N → List String → String → Outcome (Unit {0})
require_naturals fields [] context = ok tt
require_naturals fields (k ∷ ks) context = do
  x ← get k fields
  n ← require_natural x (context <> "." <> k)
  require_naturals fields ks context

-- `for key in names: _validate_hex(fields[key], f"{context}.{key}", digits)`
unfoldable pub require_hexes :
    {N : Type 0} → Object N → List String → String → ℕ → Outcome (Unit {0})
require_hexes fields [] context digits = ok tt
require_hexes fields (k ∷ ks) context digits = do
  x ← get k fields
  s ← validate_hex x (context <> "." <> k) digits
  require_hexes fields ks context digits

-- The integer under a key where the code computes with a value that it has required to be one; a
-- Boolean counts as 0 or 1.
abbrev pub as_int : {N : Type 0} → Json N → Outcome ℤ
as_int (int n) = ok n
as_int (flag true) = ok (pos 1)
as_int (flag false) = ok (pos 0)
as_int _ = raise type_error

unfoldable pub int_at : {N : Type 0} → String → Object N → Outcome ℤ
int_at key fields = get key fields >>= as_int

-- `isinstance(value, list)`
abbrev pub as_list : {N : Type 0} → Json N → Option (List (Json N))
as_list (array xs) = some (items xs)
as_list _ = none
