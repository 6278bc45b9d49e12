-- ===== src/Ravel/Preregistration.antt =====
-- `validate_preregistration` and `_validate_gate_list`, part by part.
pub mod Trials
pub mod Rules
pub mod Declared
pub mod Frozen
pub mod Validated
use mncs_reference_studies.Common.{
  ℕ, ◌+◌, String, Bool, true, false, ◌&&◌, ◌||◌, not, Option, none, some, List, [], ◌∷◌, length,
  ◌==◌, string_eq, nat_eq, if◌then◌else◌,
}
use mncs_reference_studies.Common.Int.{ℤ, pos, int_eq}
use mncs_reference_studies.Common.Result.{ok, raise, ◌>>=◌, ◌>>◌}
use mncs_reference_studies.Common.Sets.{contains, add}
use mncs_reference_studies.Common.Text.{◌<>◌}
use mncs_reference_studies.Dict.{lookup, keys, insert}
use mncs_reference_studies.Python.Floats.{Floats}
use mncs_reference_studies.Python.Json.{Json, null, text, flag, int, number, array, object, items}
use mncs_reference_studies.Ravel.Values.{
  Outcome, Object, evaluation_error, type_error, reject_if, get, require_object, require_exact_keys,
  require_int, require_natural, require_bool, require_string, validate_u64_hex, as_list,
}
use mncs_reference_studies.Ravel.Observations.{indexed}

-- `value == literal` for a text
abbrev pub is_text : {N : Type 0} → Json N → String → Bool
is_text (text s) t = s == t
is_text _ t = false

-- `not isinstance(value, list) or not value` raises.
abbrev pub filled_list : {N : Type 0} → Option (List (Json N)) → String → Outcome (List (Json N))
filled_list none message = raise (evaluation_error message)
filled_list (some []) message = raise (evaluation_error message)
filled_list (some (x ∷ xs)) message = ok (x ∷ xs)

-- `value in {…}` for a set of texts; a list or a dictionary has no hash.
abbrev pub in_set : {N : Type 0} → Json N → List String → Outcome Bool
in_set (text s) names = ok (contains s names)
in_set (array xs) names = raise type_error
in_set (object fs) names = raise type_error
in_set _ names = ok false

unfoldable pub require_strings : {N : Type 0} → ℕ → List (Json N) → String → Outcome (Unit {0})
require_strings index [] context = ok tt
require_strings index (x ∷ xs) context = do
  s ← require_string x (indexed context index)
  require_strings (index + 1) xs context

abbrev pub not_finite : (F : Floats) → Json F.Float → Bool
not_finite F (number x) = not (F.is_finite x)
not_finite F _ = false

-- `DATASET_KEYS`
abbrev pub dataset_keys : List String
dataset_keys =
    "base_training" ∷ "base_holdout" ∷ "drift_adaptation_training" ∷ "drift_holdout"
    ∷ "original_task_retention_holdout" ∷ "planning_cases" ∷ []

module _ (F : Floats) where
  -- The loop of `_validate_gate_list`, with the identities seen before.
  unfoldable pub validate_gates :
      ℕ → List String → List (Json F.Float) → String → Outcome (Unit {0})
  validate_gates index seen [] context = ok tt
  validate_gates index seen (value ∷ rest) context = do
    gate ← require_object value (indexed context index)
    require_exact_keys gate ("gate_id" ∷ "metric" ∷ "operator" ∷ "value" ∷ "rationale" ∷ [])
        (indexed context index)
    gate_id ← get "gate_id" gate
    identity ← require_string gate_id (indexed context index <> ".gate_id")
    reject_if (contains identity seen) (context <> ": duplicate gate id")
    operator ← get "operator" gate
    supported ← in_set operator ("ge" ∷ "le" ∷ "eq" ∷ [])
    reject_if (not supported) (indexed context index <> ": unsupported operator")
    threshold ← get "value" gate
    reject_if (not_finite F threshold) (indexed context index <> ": non-finite threshold")
    validate_gates (index + 1) (identity ∷ seen) rest context

  -- `_validate_gate_list`
  unfoldable pub validate_gate_list : Json F.Float → String → Outcome (Unit {0})
  validate_gate_list value context = do
    gates ← filled_list (as_list value) (context <> ": expected non-empty gate list")
    validate_gates 0 [] gates context

  unfoldable pub check_freeze : Object F.Float → Outcome (Unit {0})
  check_freeze prereg = do
    value ← get "freeze" prereg
    freeze ← require_object value "preregistration.freeze"
    require_exact_keys freeze
        ("state" ∷ "frozen_before_final_validation" ∷ "development_corpus" ∷ "final_validation_use"
          ∷ [])
        "preregistration.freeze"
    state ← get "state" freeze
    reject_if (not (is_text state "FROZEN")) "preregistration is not frozen"
    frozen ← get "frozen_before_final_validation" freeze
    before ← require_bool frozen "preregistration.freeze.frozen_before_final_validation"
    reject_if (not before) "preregistration is not frozen"
    use_declared ← get "final_validation_use" freeze
    reject_if (not (is_text use_declared "one_shot")) "final validation must be declared one-shot"
    corpus ← get "development_corpus" freeze
    s ← require_string corpus "preregistration.freeze.development"
    ok tt

  -- The root seed and the number of seeds of each regime.
  unfoldable pub check_derivation : Object F.Float → Outcome (ℕ × ℤ)
  check_derivation prereg = do
    value ← get "seed_derivation" prereg
    derivation ← require_object value "preregistration.seed_derivation"
    require_exact_keys derivation
        ("root_seed" ∷ "algorithm" ∷ "framing" ∷ "validation_seeds_per_regime" ∷ [])
        "preregistration.seed_derivation"
    algorithm ← get "algorithm" derivation
    reject_if (not (is_text algorithm "sha256-first-u64-big-endian"))
        "unsupported validation seed derivation"
    framing ← get "framing" derivation
    reject_if
        (not (
          is_text framing
            "root_seed_u64_be || utf8('validation\\0') || utf8(regime) || zero_byte || index_u32_be"))
        "unsupported validation seed framing"
    root ← get "root_seed" derivation
    root_seed ← validate_u64_hex root "preregistration.seed_derivation.root_seed"
    per_regime ← get "validation_seeds_per_regime" derivation
    expected ← require_int per_regime "validation_seeds_per_regime" (pos 1) none
    ok (root_seed, expected)

  -- `for name, count in counts.items(): require_int(count, …, minimum)`
  unfoldable pub require_values : Object F.Float → String → ℤ → Outcome (Unit {0})
  require_values [] context low = ok tt
  require_values ((name, value) ∷ rest) context low = do
    n ← require_int value (context <> "." <> name) low none
    require_values rest context low

  unfoldable pub check_datasets : Object F.Float → Outcome (Unit {0})
  check_datasets prereg = do
    value ← get "datasets_per_trial" prereg
    datasets ← require_object value "preregistration.datasets_per_trial"
    require_exact_keys datasets dataset_keys "preregistration.datasets_per_trial"
    require_values datasets "preregistration.datasets_per_trial" (pos 1)
    declared ← get "dataset_prohibitions" prereg
    prohibitions ← filled_list (as_list declared) "dataset_prohibitions must be a non-empty list"
    require_strings 0 prohibitions "dataset_prohibitions"

  -- One constant: all but one are natural numbers.
  abbrev pub require_constant : String → Json F.Float → Outcome (Unit {0})
  require_constant name value =
      if name == "evidence_schema"
      then (require_string value ("mechanism_constants." <> name) >>= λ s. ok tt)
      else (require_natural value ("mechanism_constants." <> name) >>= λ n. ok tt)

  unfoldable pub require_constants : Object F.Float → Outcome (Unit {0})
  require_constants [] = ok tt
  require_constants ((name, value) ∷ rest) = do require_constant name value; require_constants rest
