-- ===== src/Python/Json.antt =====
-- JSON values, as `json.loads` gives them: the studies read them as dictionaries and lists.
use mncs_reference_studies.Common.{String, Bool, List, [], ◌∷◌}
use mncs_reference_studies.Common.Result.{Result}
use mncs_reference_studies.Common.Int.{ℤ}

mutual
  pub data Json (N : Type 0) : Type 0 where
    null : Json N
    text : String → Json N
    flag : Bool → Json N
    int : ℤ → Json N
    number : N → Json N
    array : Items N → Json N
    object : Fields N → Json N

  pub data Items (N : Type 0) : Type 0 where
    no_items : Items N
    item : Json N → Items N → Items N

  pub data Fields (N : Type 0) : Type 0 where
    no_fields : Fields N
    field : String → Json N → Fields N → Fields N

-- A dictionary in the order of its keys, and the elements of a list.
abbrev pub entries : {N : Type 0} → Fields N → List (String × Json N)
entries no_fields = []
entries (field k x fs) = (k, x) ∷ entries fs

abbrev pub items : {N : Type 0} → Items N → List (Json N)
items no_items = []
items (item x xs) = x ∷ items xs

-- Back from a dictionary: a value that the program builds.
abbrev pub fields_of : {N : Type 0} → List (String × Json N) → Fields N
fields_of [] = no_fields
fields_of ((k, x) ∷ rest) = field k x (fields_of rest)

-- The exceptions of `json.loads`: the one that is caught, and any other, as on bytes that are no UTF-8.
pub data LoadError : Type 0 where
  json_decode_error : LoadError
  other_error : LoadError

-- What the program calls on JSON: `canonical_bytes`, which is `json.dumps` with sorted keys,
-- `json.loads`, and the hexadecimal digest of `hashlib.sha256`.
pub record Codec (N : Type 0) : Type 1 where
  pub Bytes : Type 0
  pub canonical : Json N → Bytes
  pub loads : Bytes → Result LoadError (Json N)
  pub sha256 : Bytes → String
