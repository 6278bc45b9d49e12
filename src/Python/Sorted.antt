-- ===== src/Python/Sorted.antt =====
-- The value with the keys of every dictionary in order, as `json.dumps` with `sort_keys=True` writes it.
use mncs_reference_studies.Common.{
  ℕ, String, Bool, true, false, ◌&&◌, ◌||◌, List, [], ◌∷◌, ltb, ◌==◌, nat_eq, if◌then◌else◌,
}
use mncs_reference_studies.Python.Json.{
  Json, Items, Fields, null, text, flag, int, number, array, object, no_items, item, no_fields,
  field,
}
use mncs_reference_studies.Python.Hex.{code_points}

-- Python orders texts by their code points.
unfoldable pub le_points : List ℕ → List ℕ → Bool
le_points [] ds = true
le_points (c ∷ cs) [] = false
le_points (c ∷ cs) (d ∷ ds) = ltb c d || (c == d && le_points cs ds)

-- A key and its value before the first key that is not below it.
unfoldable pub put_key : {N : Type 0} → String → Json N → Fields N → Fields N
put_key k x no_fields = field k x no_fields
put_key k x (field j y fs) =
    let rest = put_key k x fs in
    if le_points (code_points k) (code_points j) then field k x (field j y fs) else field j y rest

unfoldable mutual
  pub sort_keys : {N : Type 0} → Json N → Json N
  sort_keys (array xs) = array (sort_items xs)
  sort_keys (object fs) = object (sort_fields fs)
  sort_keys null = null
  sort_keys (text s) = text s
  sort_keys (flag b) = flag b
  sort_keys (int n) = int n
  sort_keys (number x) = number x

  pub sort_items : {N : Type 0} → Items N → Items N
  sort_items no_items = no_items
  sort_items (item x xs) = item (sort_keys x) (sort_items xs)

  pub sort_fields : {N : Type 0} → Fields N → Fields N
  sort_fields no_fields = no_fields
  sort_fields (field k x fs) = put_key k (sort_keys x) (sort_fields fs)
