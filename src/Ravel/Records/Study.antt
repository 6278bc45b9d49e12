-- ===== src/Ravel/Records/Study.antt =====
-- A small study of the Ravel evaluator as JSON records: the preregistration and the raw evidence.
use mncs_reference_studies.Common.{true, false, [], ◌∷◌}
use mncs_reference_studies.Common.Int.{ℤ, pos}
use mncs_reference_studies.Python.Json.{
  Fields, text, flag, int, number, array, object, no_items, item, no_fields, field, fields_of,
}
use mncs_reference_studies.Ravel.Records.{declared_fields, size_fields, trial_fields, long_digest}

abbrev pub gate_fields : Fields ℤ
gate_fields = fields_of (
    ("gate_id", text "drift")
    ∷ ("metric", text "adapted_drift_accuracy")
    ∷ ("operator", text "ge")
    ∷ ("value", number (pos 7))
    ∷ ("rationale", text "adapts")
    ∷ [])

abbrev pub freeze_fields : Fields ℤ
freeze_fields = fields_of (
    ("state", text "FROZEN")
    ∷ ("frozen_before_final_validation", flag true)
    ∷ ("development_corpus", text "corpus")
    ∷ ("final_validation_use", text "one_shot")
    ∷ [])

abbrev pub derivation_fields : Fields ℤ
derivation_fields = fields_of (
    ("root_seed", text "0x0000000000000001")
    ∷ ("algorithm", text "sha256-first-u64-big-endian")
    ∷ (
      "framing",
      text "root_seed_u64_be || utf8('validation\\0') || utf8(regime) || zero_byte || index_u32_be",
    )
    ∷ ("validation_seeds_per_regime", int (pos 1))
    ∷ [])

abbrev pub constant_fields : Fields ℤ
constant_fields = fields_of (
    ("evidence_schema", text "ravel-trial-evidence/0.5")
    ∷ ("dimensions", int (pos 8))
    ∷ ("classes", int (pos 5))
    ∷ ("actions", int (pos 5))
    ∷ ("states", int (pos 5))
    ∷ ("maximum_experts", int (pos 5))
    ∷ ("checkpoint_schema", int (pos 5))
    ∷ ("transition_top_k", int (pos 5))
    ∷ ("transition_support_min", int (pos 5))
    ∷ ("replay_count", int (pos 5))
    ∷ ("maximum_adaptation_births", int (pos 5))
    ∷ ("maximum_adaptation_retirements", int (pos 5))
    ∷ ("topology_objective_min_q20", int (pos 5))
    ∷ ("birth_residual_min_q20", int (pos 5))
    ∷ [])

abbrev pub rule_fields : Fields ℤ
rule_fields = fields_of (
    ("minimum_passing_trials", int (pos 1))
    ∷ ("minimum_passing_trials_per_regime", int (pos 1))
    ∷ ("all_integrity_gates_required", flag true)
    ∷ [])

abbrev pub disposition_fields : Fields ℤ
disposition_fields = fields_of (
    ("expected_disposition", text "reject")
    ∷ ("expected_observation", flag true)
    ∷ ("rationale", text "truncated")
    ∷ [])

abbrev pub formal_fields : Fields ℤ
formal_fields = fields_of (
    ("mncs", text "UNKNOWN")
    ∷ ("mncds", text "UNKNOWN")
    ∷ ("promotion_authorized", flag false)
    ∷ [])

abbrev pub preregistration_fields : Fields ℤ
preregistration_fields = fields_of (
    ("schema", text "ravel-preregistration/0.5")
    ∷ ("study_id", text "study")
    ∷ ("candidate_id", text "ravel")
    ∷ ("freeze", object freeze_fields)
    ∷ ("seed_derivation", object derivation_fields)
    ∷ ("datasets_per_trial", object size_fields)
    ∷ ("dataset_prohibitions", array (item (text "reuse") no_items))
    ∷ ("mechanism_constants", object constant_fields)
    ∷ ("trials", array (item (object declared_fields) no_items))
    ∷ (
      "comparison_variants",
      array (
          item (text "ravel_0_5_candidate") (
            item (text "no_adaptation_static") (
              item (text "matched_compute_fixed_topology") (
                item (text "ravel_no_birth_same_replay_iterations") (
                  item (text "ravel_without_retirement_matched_work") (
                    item (text "periodic_replay_policy")
                      (item (text "flat_64_expert_complete_scan") no_items))))))),
    )
    ∷ ("common_gates", array (item (object gate_fields) no_items))
    ∷ ("regime_gates", object (field "base" (array (item (object gate_fields) no_items)) no_fields))
    ∷ ("global_pass_rule", object rule_fields)
    ∷ (
      "negative_test_dispositions",
      object (field "truncated" (object disposition_fields) no_fields),
    )
    ∷ ("formal_status_regardless_of_development_result", object formal_fields)
    ∷ [])

abbrev pub raw_fields : Fields ℤ
raw_fields = fields_of (
    ("schema", text "ravel-raw-observations/0.5")
    ∷ ("preregistration", text "ravel-0.5-preregistration.json")
    ∷ ("preregistration_sha256", text "digest")
    ∷ ("trials", array (item (object trial_fields) no_items))
    ∷ ("self_tests_sha256", long_digest)
    ∷ [])
