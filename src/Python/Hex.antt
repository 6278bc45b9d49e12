-- ===== src/Python/Hex.antt =====
-- The characters of a text, hexadecimal digits, and bytes.
use Prim.Native.Char.{code}
use mncs_reference_studies.Common.{
  ℕ, zero, suc, ◌+◌, ◌-◌, ◌*◌, ◌/◌, ◌%◌, String, Bool, true, ◌&&◌, ◌||◌, List, [], ◌∷◌, ◌++◌, leb,
  ltb, nat_eq, if◌then◌else◌,
}

-- The code points of a text. `String` has its own `[]` and `∷`.
abbrev pub code_points : String → List ℕ
code_points String.[] = []
code_points (String.◌∷◌ c s) = code c ∷ code_points s

-- `c in "0123456789abcdef"`
abbrev pub is_hex : ℕ → Bool
is_hex c = (leb b'0' c && leb c b'9') || (leb b'a' c && leb c b'f')

unfoldable pub all_hex : List ℕ → Bool
all_hex [] = true
all_hex (c ∷ cs) = is_hex c && all_hex cs

abbrev pub digit_value : ℕ → ℕ
digit_value c = if leb b'a' c then c - 87 else c - 48

-- `int(text, 16)`, from the value of the digits before.
unfoldable pub hex_from : ℕ → List ℕ → ℕ
hex_from n [] = n
hex_from n (c ∷ cs) = hex_from (n * 16 + digit_value c) cs

-- `n.to_bytes(width, "big")`, for an n that fits.
unfoldable pub big_endian : ℕ → ℕ → List ℕ
big_endian zero n = []
big_endian (suc width) n = big_endian width (n / 256) ++ (n % 256 ∷ [])

-- `int.from_bytes(bytes, "big")`, from the value of the bytes before.
unfoldable pub from_big_endian : ℕ → List ℕ → ℕ
from_big_endian n [] = n
from_big_endian n (b ∷ bs) = from_big_endian (n * 256 + b) bs

-- `str.encode("utf-8")`
abbrev pub continued : ℕ → ℕ
continued n = 128 + n % 64

abbrev pub encode_point : ℕ → List ℕ
encode_point c =
    if ltb c 128
    then (c ∷ [])
    else if ltb c 2048
    then ((192 + c / 64) ∷ continued c ∷ [])
    else if ltb c 65536
    then ((224 + c / 4096) ∷ continued (c / 64) ∷ continued c ∷ [])
    else ((240 + c / 262144) ∷ continued (c / 4096) ∷ continued (c / 64) ∷ continued c ∷ [])

unfoldable pub encode_utf8 : List ℕ → List ℕ
encode_utf8 [] = []
encode_utf8 (c ∷ cs) = encode_point c ++ encode_utf8 cs
