-- ===== src/Ravel/Preregistration/Rules.antt =====
-- The rules of a preregistration: variants, gates, the global pass rule, the dispositions of the
-- negative tests and the formal status; and `validate_preregistration` as a whole.
use mncs_reference_studies.Common.{
  ℕ, String, Bool, true, false, ◌&&◌, ◌||◌, not, some, List, [], ◌∷◌, length, ◌==◌, string_eq,
  nat_eq,
}
use mncs_reference_studies.Common.Int.{ℤ, pos, int_eq}
use mncs_reference_studies.Common.Result.{ok, raise, ◌>>=◌, ◌>>◌}
use mncs_reference_studies.Common.Text.{◌<>◌}
use mncs_reference_studies.Dict.{keys}
use mncs_reference_studies.Python.Floats.{Floats}
use mncs_reference_studies.Python.Json.{Json, array, object}
use mncs_reference_studies.Python.Equality.{json_eq}
use mncs_reference_studies.Ravel.Values.{
  Outcome, Object, type_error, reject_if, get, require_object, require_exact_keys, require_int,
  require_bool, require_string, is_empty_text, as_list, int_at,
}
use mncs_reference_studies.Ravel.Metrics
use mncs_reference_studies.Ravel.Metrics.Trial.{as_object}
use mncs_reference_studies.Ravel.Preregistration.{
  is_text, filled_list, in_set, require_strings, validate_gate_list, check_freeze, check_derivation,
  check_datasets, require_constants,
}
use mncs_reference_studies.Ravel.Preregistration.Trials.{nothing_seen, check_trials, check_regimes}

abbrev pub preregistration_keys : List String
preregistration_keys =
    "schema" ∷ "study_id" ∷ "candidate_id" ∷ "freeze" ∷ "seed_derivation" ∷ "datasets_per_trial"
    ∷ "dataset_prohibitions" ∷ "mechanism_constants" ∷ "trials" ∷ "comparison_variants"
    ∷ "common_gates" ∷ "regime_gates" ∷ "global_pass_rule" ∷ "negative_test_dispositions"
    ∷ "formal_status_regardless_of_development_result" ∷ []

abbrev pub constant_keys : List String
constant_keys =
    "dimensions" ∷ "classes" ∷ "actions" ∷ "states" ∷ "maximum_experts" ∷ "checkpoint_schema"
    ∷ "evidence_schema" ∷ "transition_top_k" ∷ "transition_support_min" ∷ "replay_count"
    ∷ "maximum_adaptation_births" ∷ "maximum_adaptation_retirements" ∷ "topology_objective_min_q20"
    ∷ "birth_residual_min_q20" ∷ []

module _ (F : Floats) where
  abbrev pub is_hashable : Json F.Float → Bool
  is_hashable (array xs) = false
  is_hashable (object fs) = false
  is_hashable _ = true

  unfoldable pub all_hashable : List (Json F.Float) → Bool
  all_hashable [] = true
  all_hashable (x ∷ xs) = is_hashable x && all_hashable xs

  unfoldable pub among : Json F.Float → List (Json F.Float) → Bool
  among x [] = false
  among x (y ∷ ys) = json_eq F x y || among x ys

  -- `len(values) == len(set(values))`
  unfoldable pub all_distinct : List (Json F.Float) → Bool
  all_distinct [] = true
  all_distinct (x ∷ xs) = not (among x xs) && all_distinct xs

  unfoldable pub check_variants : Object F.Float → Outcome (Unit {0})
  check_variants prereg = do
    value ← get "comparison_variants" prereg
    variants ← filled_list (as_list value) "comparison_variants must be a unique non-empty list"
    hashable (all_hashable variants)
    reject_if (not (all_distinct variants)) "comparison_variants must be a unique non-empty list"
    require_strings 0 variants "comparison_variants"
    where
      hashable : Bool → Outcome (Unit {0})
      hashable true = ok tt
      hashable false = raise type_error

  -- `for regime, gates in prereg["regime_gates"].items()`
  unfoldable pub check_regime_gates : Object F.Float → Outcome (Unit {0})
  check_regime_gates [] = ok tt
  check_regime_gates ((regime, gates) ∷ rest) = do
    validate_gate_list F gates ("regime_gates." <> regime)
    check_regime_gates rest

  unfoldable pub check_pass_rule : Object F.Float → ℕ → ℤ → Outcome (Unit {0})
  check_pass_rule prereg declared expected_per_regime = do
    value ← get "global_pass_rule" prereg
    rule ← require_object value "preregistration.global_pass_rule"
    require_exact_keys rule
        ("minimum_passing_trials" ∷ "minimum_passing_trials_per_regime"
          ∷ "all_integrity_gates_required" ∷ [])
        "preregistration.global_pass_rule"
    minimum ← get "minimum_passing_trials" rule
    n ← require_int minimum "global_pass_rule.minimum_passing_trials" (pos 0) (some (pos declared))
    per_regime ← get "minimum_passing_trials_per_regime" rule
    k ←
        require_int per_regime "global_pass_rule.minimum_passing_trials_per_regime" (pos 0)
          (some expected_per_regime)
    required ← get "all_integrity_gates_required" rule
    b ← require_bool required "global_pass_rule.all_integrity_gates_required"
    ok tt

  -- The body of the loop over the dispositions, and the loop.
  unfoldable pub check_disposition : String → Json F.Float → Outcome (Unit {0})
  check_disposition name value = do
    reject_if (is_empty_text name) "negative_test_dispositions: expected non-empty string"
    disposition ← require_object value ("negative_test_dispositions." <> name)
    require_exact_keys disposition
        ("expected_disposition" ∷ "expected_observation" ∷ "rationale" ∷ [])
        ("negative_test_dispositions." <> name)
    expected ← get "expected_disposition" disposition
    supported ←
        in_set expected (
          "reject" ∷ "fall_back" ∷ "fail_a_gate" ∷ "report_UNKNOWN" ∷ "preserve_non_promotion" ∷ [])
    reject_if (not supported) ("negative_test_dispositions." <> name <> ": unsupported")
    rationale ← get "rationale" disposition
    s ← require_string rationale ("negative_test_dispositions." <> name <> ".rationale")
    observation ← get "expected_observation" disposition
    b ← require_bool observation ("negative_test_dispositions." <> name <> ".expected_observation")
    ok tt

  unfoldable pub check_dispositions : Object F.Float → Outcome (Unit {0})
  check_dispositions [] = ok tt
  check_dispositions ((name, value) ∷ rest) = do
    check_disposition name value
    check_dispositions rest

  unfoldable pub check_negative_tests : Object F.Float → Outcome (Unit {0})
  check_negative_tests prereg = do
    value ← get "negative_test_dispositions" prereg
    dispositions ← require_object value "negative_test_dispositions"
    reject_if (length dispositions == 0) "negative_test_dispositions must not be empty"
    check_dispositions dispositions

  unfoldable pub check_formal : Object F.Float → Outcome (Unit {0})
  check_formal prereg = do
    value ← get "formal_status_regardless_of_development_result" prereg
    formal ← require_object value "formal_status_regardless_of_development_result"
    require_exact_keys formal ("mncs" ∷ "mncds" ∷ "promotion_authorized" ∷ [])
        "formal_status_regardless_of_development_result"
    mncs ← get "mncs" formal
    reject_if (not (is_text mncs "UNKNOWN")) "formal status boundary changed"
    mncds ← get "mncds" formal
    reject_if (not (is_text mncds "UNKNOWN")) "formal status boundary changed"
    promotion ← get "promotion_authorized" formal
    authorized ← require_bool promotion "formal_status.promotion_authorized"
    reject_if authorized "formal status boundary changed"

  unfoldable pub check_constants : Object F.Float → Outcome (Unit {0})
  check_constants prereg = do
    value ← get "mechanism_constants" prereg
    constants ← require_object value "preregistration.mechanism_constants"
    require_exact_keys constants constant_keys "preregistration.mechanism_constants"
    require_constants F constants
    n ← int_at "dimensions" constants
    reject_if (not (n == Metrics.dimensions)) "evaluator dimension schema mismatch"

  -- The trials with their regimes, and then the rules that depend on their number. A value of
  -- `regime_gates` that is no dictionary ends in an exception in any case.
  unfoldable pub check_study : (List ℕ → List ℕ) → Object F.Float → ℕ → ℤ → Outcome (Unit {0})
  check_study sha256 prereg root_seed expected_per_regime = do
    value ← get "trials" prereg
    trials ← filled_list (as_list value) "preregistration.trials must be non-empty list"
    seen ← check_trials sha256 root_seed 0 trials nothing_seen
    gates ← get "regime_gates" prereg
    regime_gates ← as_object gates
    check_regimes seen (keys regime_gates) expected_per_regime
    check_variants prereg
    common ← get "common_gates" prereg
    validate_gate_list F common "common_gates"
    check_regime_gates regime_gates
    check_pass_rule prereg (length trials) expected_per_regime

  unfoldable pub validate_preregistration :
      (List ℕ → List ℕ) → Json F.Float → Outcome (Object F.Float)
  validate_preregistration sha256 value = do
    prereg ← require_object value "preregistration"
    require_exact_keys prereg preregistration_keys "preregistration"
    schema ← get "schema" prereg
    reject_if (not (is_text schema "ravel-preregistration/0.5"))
        "unsupported preregistration schema"
    study ← get "study_id" prereg
    study_id ← require_string study "preregistration.study_id"
    candidate ← get "candidate_id" prereg
    candidate_id ← require_string candidate "preregistration.candidate_id"
    check_freeze F prereg
    derivation ← check_derivation F prereg
    check_datasets F prereg
    check_constants prereg
    check_study sha256 prereg derivation.0 derivation.1
    check_negative_tests prereg
    check_formal prereg
    ok prereg
