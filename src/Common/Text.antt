-- ===== src/Common/Text.antt =====
-- `str(n)` for a natural number, and the joining of texts.
use Prim.Native.Nat.{ℕ, zero, suc, ◌+◌, ◌/◌, ◌%◌}
pub use Prim.Native.String.{◌++◌ as ◌<>◌}
pub use text.Mathlib.Text.{starts_with}
use Prim.Native.String.{String}
use mathlib.Core.Path.{◌≡◌, refl}
use mathlib.Core.List.{List, [], ◌∷◌}
use mncs_reference_studies.Common.Tests.{ltb, if◌then◌else◌}
use mncs_reference_studies.Common.Lists.{get_or}
use mncs_reference_studies.Common.Int.{ℤ, pos, negsuc}

abbrev digits : List String
digits = "0" ∷ "1" ∷ "2" ∷ "3" ∷ "4" ∷ "5" ∷ "6" ∷ "7" ∷ "8" ∷ "9" ∷ []

digit : ℕ → String
digit d = get_or digits d "9"

decimal_from : ℕ → ℕ → String → String
unfolding digit
decimal_from zero n rest = rest
decimal_from (suc fuel) n rest =
    let longer = decimal_from fuel (n / 10) (digit (n % 10) <> rest) in
    if ltb n 10 then digit n <> rest else longer

unfoldable pub decimal : ℕ → String
unfolding decimal_from
decimal n = decimal_from (n + 1) n ""

-- `str(a)` for an integer.
abbrev pub str_ℤ : ℤ → String
str_ℤ (pos n) = decimal n
str_ℤ (negsuc n) = "-" <> decimal (n + 1)

decimal_sample : decimal 1015 ≡ "1015"
unfolding decimal
decimal_sample = refl
