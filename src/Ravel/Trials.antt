-- ===== src/Ravel/Trials.antt =====
-- `validate_trial`, part by part: the raw record of one trial against the preregistration.
pub mod Admitted
pub mod Validated
pub mod Rates
pub mod Derived
pub mod Total
use mncs_reference_studies.Common.{
  ℕ, zero, suc, ◌+◌, String, Bool, true, false, ◌&&◌, ◌||◌, not, Option, none, some, List, [], ◌∷◌,
  length, ◌==◌, string_eq, nat_eq,
}
use mncs_reference_studies.Common.Int.{ℤ, pos}
use mncs_reference_studies.Common.Result.{ok, raise, ◌>>=◌, ◌>>◌}
use mncs_reference_studies.Common.Sets.{to_set}
use mncs_reference_studies.Common.Text.{◌<>◌}
use mncs_reference_studies.Dict.{lookup, keys, values}
use mncs_reference_studies.Python.Floats.{Floats}
use mncs_reference_studies.Python.Json.{Json, text, int, array, object, fields_of, items}
use mncs_reference_studies.Python.Equality.{json_eq}
use mncs_reference_studies.Ravel.Values.{
  Outcome, Object, type_error, evaluation_error, reject_if, get, require_object, require_exact_keys,
  require_int, require_bool, validate_hex, validate_u64_hex, require_naturals, same_set, as_list,
}
use mncs_reference_studies.Ravel.Observations.{
  validate_eval, validate_plan, validate_replay, validate_topology, validate_variant,
}
use mncs_reference_studies.Ravel.Seeds.{dataset_seed_xors, dataset_seeds_from}
use mncs_reference_studies.Ravel.Preregistration.{is_text, dataset_keys}
use mncs_reference_studies.Ravel.Metrics.Trial.{object_at}

-- `CHECKPOINT_MUTATION_KEYS` and `LINEAGE_INVARIANT_KEYS`
abbrev pub checkpoint_mutation_keys : List String
checkpoint_mutation_keys =
    "retrieval_key_component" ∷ "reconstruction_component" ∷ "next_observation_component" ∷ "label"
    ∷ "label_count" ∷ "lineage" ∷ "transition_graph_edge" ∷ "transition_support" ∷ "anchored_status"
    ∷ "payload_byte" ∷ "checkpoint_truncation" ∷ "appended_unexpected_byte"
    ∷ "incorrect_schema_version" ∷ "checkpoint_substitution" ∷ []

abbrev pub lineage_invariant_keys : List String
lineage_invariant_keys =
    "sibling_generation_equality" ∷ "parent_child_generation_increment" ∷ "lineage_uniqueness"
    ∷ "repeated_descendant_splitting" ∷ "no_accidental_lineage_reuse"
    ∷ "deterministic_topology_reproduction" ∷ []

-- `{name: _validate_u64_hex(value, …) for name, value in seeds.items()}`
unfoldable pub parse_seeds : {N : Type 0} → Object N → String → Outcome (List (String × ℕ))
parse_seeds [] context = ok []
parse_seeds ((name, value) ∷ rest) context = do
  seed ← validate_u64_hex value (context <> "." <> name)
  later ← parse_seeds rest context
  ok ((name, seed) ∷ later)

abbrev pub is_seed : Option ℕ → ℕ → Bool
is_seed none n = false
is_seed (some m) n = m == n

-- Every seed of the first dictionary is the one of the second.
unfoldable pub seeds_agree : List (String × ℕ) → List (String × ℕ) → Bool
seeds_agree [] expected = true
seeds_agree ((name, n) ∷ rest) expected =
    is_seed (lookup name expected) n && seeds_agree rest expected

abbrev pub same_seeds : List (String × ℕ) → List (String × ℕ) → Bool
same_seeds parsed expected = length parsed == length expected && seeds_agree parsed expected

-- The texts of a list that the preregistration has been checked to consist of.
unfoldable pub texts_of : {N : Type 0} → List (Json N) → Outcome (List String)
texts_of [] = ok []
texts_of (text s ∷ rest) = do later ← texts_of rest; ok (s ∷ later)
texts_of (x ∷ rest) = raise type_error

abbrev pub or_type_error {ℓ} : {A : Type ℓ} → Option A → Outcome A
or_type_error none = raise type_error
or_type_error (some a) = ok a

unfoldable pub require_bools : {N : Type 0} → Object N → List String → String → Outcome (Unit {0})
require_bools fields [] context = ok tt
require_bools fields (k ∷ ks) context = do
  x ← get k fields
  b ← require_bool x (context <> "." <> k)
  require_bools fields ks context

abbrev pub checkpoint_keys : List String
checkpoint_keys =
    "magic_hex" ∷ "schema_version" ∷ "byte_order" ∷ "real_encoding" ∷ "payload_digest"
    ∷ "transition_top_k" ∷ "transition_support_min" ∷ []

abbrev pub candidate_evals : List String
candidate_evals =
    "base_holdout" ∷ "adaptation_training" ∷ "static_model_drift_holdout"
    ∷ "adapted_model_drift_holdout" ∷ "base_holdout_retention" ∷ []

abbrev pub candidate_keys : List String
candidate_keys =
    "adaptation_completed" ∷ "expert_count" ∷ "base_training_evaluations"
    ∷ "adaptation_training_evaluations" ∷ "checkpoint_size_bytes" ∷ "model_identity"
    ∷ "behavior_identity" ∷ "base_holdout" ∷ "adaptation_training" ∷ "static_model_drift_holdout"
    ∷ "adapted_model_drift_holdout" ∷ "base_holdout_retention" ∷ "planning" ∷ "replay" ∷ "topology"
    ∷ []

-- The pairs of names under which the candidate's own comparison repeats the candidate.
abbrev pub repeated : List (String × String)
repeated =
    ("expert_count", "expert_count")
    ∷ ("checkpoint_size_bytes", "checkpoint_size_bytes")
    ∷ ("drift_holdout", "adapted_model_drift_holdout")
    ∷ ("retention_holdout", "base_holdout_retention")
    ∷ ("planning", "planning")
    ∷ []

abbrev pub trial_keys : List String
trial_keys =
    "schema" ∷ "trial_id" ∷ "regime" ∷ "seed" ∷ "dataset_seeds" ∷ "dataset_sizes"
    ∷ "checkpoint_format" ∷ "candidate" ∷ "integrity" ∷ "comparisons" ∷ []

-- An identity in a message; the preregistration has been checked to have texts there.
abbrev pub shown : {N : Type 0} → Json N → String
shown (text s) = s
shown _ = ""

module _ (F : Floats) where
  -- `first[key] != second[key]` raises, for each of the keys.
  unfoldable pub require_equal :
      Object F.Float → Object F.Float → List String → String → Outcome (Unit {0})
  require_equal first second [] message = ok tt
  require_equal first second (k ∷ ks) message = do
    x ← get k first
    y ← get k second
    reject_if (not (json_eq F x y)) message
    require_equal first second ks message

  unfoldable pub check_seeds : Object F.Float → String → Outcome (Unit {0})
  check_seeds fields context = do
    value ← get "seed" fields
    trial_seed ← validate_u64_hex value (context <> ".seed")
    declared ← get "dataset_seeds" fields
    seeds ← require_object declared (context <> ".dataset_seeds")
    require_exact_keys seeds dataset_keys (context <> ".dataset_seeds")
    parsed ← parse_seeds seeds (context <> ".dataset_seeds")
    reject_if (not (length (to_set (values parsed)) == length parsed))
        (context <> ": dataset seed collision")
    reject_if (not (same_seeds parsed (dataset_seeds_from dataset_seed_xors trial_seed)))
        (context <> ": dataset seed derivation mismatch")

  unfoldable pub check_sizes : Object F.Float → Object F.Float → String → Outcome (Unit {0})
  check_sizes fields prereg context = do
    value ← get "dataset_sizes" fields
    sizes ← require_object value (context <> ".dataset_sizes")
    require_exact_keys sizes dataset_keys (context <> ".dataset_sizes")
    declared ← get "datasets_per_trial" prereg
    reject_if (not (json_eq F value declared))
        (context <> ": partition sizes disagree with preregistration")

  -- `expected_checkpoint`
  abbrev pub expected_checkpoint : Json F.Float → Json F.Float → Json F.Float → Json F.Float
  expected_checkpoint schema top_k support_min = object (
      fields_of (
        ("magic_hex", text "524156454c303500")
        ∷ ("schema_version", schema)
        ∷ ("byte_order", text "big_endian")
        ∷ ("real_encoding", text "signed_q20_int64")
        ∷ ("payload_digest", text "sha256")
        ∷ ("transition_top_k", top_k)
        ∷ ("transition_support_min", support_min)
        ∷ []))

  unfoldable pub check_checkpoint : Object F.Float → Object F.Float → String → Outcome (Unit {0})
  check_checkpoint fields prereg context = do
    value ← get "checkpoint_format" fields
    checkpoint ← require_object value (context <> ".checkpoint")
    require_exact_keys checkpoint checkpoint_keys (context <> ".checkpoint")
    constants ← object_at "mechanism_constants" prereg
    version ← get "schema_version" checkpoint
    schema ← get "checkpoint_schema" constants
    reject_if (not (json_eq F version schema)) (context <> ": checkpoint schema mismatch")
    top_k ← get "transition_top_k" constants
    support_min ← get "transition_support_min" constants
    reject_if (not (json_eq F value (expected_checkpoint schema top_k support_min)))
        (context <> ": checkpoint format declaration mismatch")

  unfoldable pub validate_evals : Object F.Float → List String → String → Outcome (Unit {0})
  validate_evals fields [] context = ok tt
  validate_evals fields (k ∷ ks) context = do
    x ← get k fields
    e ← validate_eval x (context <> "." <> k)
    validate_evals fields ks context

  unfoldable pub check_candidate : Object F.Float → String → Outcome (Object F.Float)
  check_candidate fields context = do
    value ← get "candidate" fields
    candidate ← require_object value (context <> ".candidate")
    require_exact_keys candidate candidate_keys (context <> ".candidate")
    require_bools candidate ("adaptation_completed" ∷ []) context
    experts ← get "expert_count" candidate
    n ← require_int experts (context <> ".expert_count") (pos 1) (some (pos 80))
    require_naturals candidate
        ("base_training_evaluations" ∷ "adaptation_training_evaluations" ∷ "checkpoint_size_bytes"
          ∷ [])
        context
    model ← get "model_identity" candidate
    m ← validate_hex model (context <> ".model_identity") 64
    behavior ← get "behavior_identity" candidate
    b ← validate_hex behavior (context <> ".behavior_identity") 64
    validate_evals candidate candidate_evals (context <> ".candidate")
    planning ← get "planning" candidate
    p ← validate_plan planning (context <> ".candidate.planning")
    replay ← get "replay" candidate
    r ← validate_replay replay (context <> ".candidate.replay")
    topology ← get "topology" candidate
    t ← validate_topology topology (context <> ".candidate.topology")
    ok candidate

  -- One of the two collections of Boolean facts.
  unfoldable pub check_facts : Object F.Float → String → List String → String → Outcome (Unit {0})
  check_facts integrity collection names context = do
    value ← get collection integrity
    facts ← require_object value (context <> "." <> collection)
    require_exact_keys facts names (context <> "." <> collection)
    require_bools facts (keys facts) (context <> "." <> collection)

  unfoldable pub check_integrity : Object F.Float → String → Outcome (Unit {0})
  check_integrity fields context = do
    value ← get "integrity" fields
    integrity ← require_object value (context <> ".integrity")
    require_exact_keys integrity
        ("checkpoint_roundtrip" ∷ "checkpoint_identity_match" ∷ "checkpoint_behavior_match"
          ∷ "checkpoint_mutations" ∷ "lineage_invariants" ∷ "unsupported_graph_edge_violations"
          ∷ [])
        (context <> ".integrity")
    require_bools integrity
        ("checkpoint_roundtrip" ∷ "checkpoint_identity_match" ∷ "checkpoint_behavior_match" ∷ [])
        (context <> ".integrity")
    require_naturals integrity ("unsupported_graph_edge_violations" ∷ []) context
    check_facts integrity "checkpoint_mutations" checkpoint_mutation_keys context
    check_facts integrity "lineage_invariants" lineage_invariant_keys context

  unfoldable pub validate_variants : Object F.Float → String → Outcome (Unit {0})
  validate_variants [] context = ok tt
  validate_variants ((name, variant) ∷ rest) context = do
    v ← validate_variant variant (context <> "." <> name)
    validate_variants rest context

  unfoldable pub require_repeated :
      List (String × String) → Object F.Float → Object F.Float → String → Outcome (Unit {0})
  require_repeated [] comparison candidate message = ok tt
  require_repeated ((name, key) ∷ rest) comparison candidate message = do
    x ← get name comparison
    y ← get key candidate
    reject_if (not (json_eq F x y)) message
    require_repeated rest comparison candidate message

  unfoldable pub check_comparisons :
      Object F.Float → Object F.Float → Object F.Float → String → Outcome (Unit {0})
  check_comparisons fields prereg candidate context = do
    value ← get "comparisons" fields
    comparisons ← require_object value (context <> ".comparisons")
    declared ← get "comparison_variants" prereg
    listed ← or_type_error (as_list declared)
    names ← texts_of listed
    reject_if (not (same_set (keys comparisons) names))
        (context <> ": comparison variant set mismatch")
    validate_variants comparisons (context <> ".comparisons")
    own ← object_at "ravel_0_5_candidate" comparisons
    require_repeated repeated own candidate
        (context <> ": candidate comparison contradicts raw candidate")

  unfoldable pub validate_trial :
      Json F.Float → Object F.Float → Object F.Float → Outcome (Object F.Float)
  validate_trial trial expected prereg = do
    identity ← get "trial_id" expected
    let context = "trial[" <> shown identity <> "]"
    fields ← require_object trial context
    require_exact_keys fields trial_keys context
    schema ← get "schema" fields
    reject_if (not (is_text schema "ravel-raw-trial/0.5")) (context <> ": unsupported raw schema")
    require_equal fields expected ("trial_id" ∷ "regime" ∷ "seed" ∷ [])
        (context <> ": disagrees with preregistration")
    check_seeds fields context
    check_sizes fields prereg context
    check_checkpoint fields prereg context
    candidate ← check_candidate fields context
    check_integrity fields context
    check_comparisons fields prereg candidate context
    ok fields
