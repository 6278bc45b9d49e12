-- ===== src/Ravel/Records.antt =====
-- A small study of the Ravel evaluator as JSON records: the raw trial, with every variant.
pub mod Study
use mncs_reference_studies.Common.{ℕ, String, true, false, List, [], ◌∷◌}
use mncs_reference_studies.Common.Int.{ℤ, pos}
use mncs_reference_studies.Common.Text.{◌<>◌}
use mncs_reference_studies.Python.Json.{
  Json, Fields, text, flag, int, number, array, object, no_items, item, no_fields, field, fields_of,
}
use mncs_reference_studies.Ravel.Trials.{checkpoint_mutation_keys, lineage_invariant_keys}

abbrev pub block : String
block = "0123456789abcdef"

abbrev pub long_digest : Json ℤ
long_digest = text (block <> block <> block <> block)

abbrev pub eval_fields : ℕ → Fields ℤ
eval_fields correct = fields_of (
    ("samples", int (pos 10))
    ∷ ("rejected", int (pos 0))
    ∷ ("correct", int (pos correct))
    ∷ ("reconstruction_sse_q20", int (pos 1048576))
    ∷ ("prediction_sse_q20", int (pos 1048576))
    ∷ ("prediction_samples", int (pos 8))
    ∷ ("transition_correct", int (pos 5))
    ∷ ("transition_supported", int (pos 8))
    ∷ ("transition_unknown", int (pos 2))
    ∷ ("routing_certification_count", int (pos 10))
    ∷ ("routed_complete_mismatches", int (pos 0))
    ∷ ("expert_evaluations", int (pos 40))
    ∷ ("classification_checksum", text "0123456789abcdef")
    ∷ ("reconstruction_checksum", text "0123456789abcdef")
    ∷ ("prediction_checksum", text "0123456789abcdef")
    ∷ ("transition_checksum", text "0123456789abcdef")
    ∷ [])

abbrev pub plan_fields : Fields ℤ
plan_fields = fields_of (
    ("cases", int (pos 4))
    ∷ ("path_found", int (pos 3))
    ∷ ("exact_world_state_target_reached", int (pos 2))
    ∷ ("goal_expert_reached", int (pos 2))
    ∷ ("belief_set_target_reached", int (pos 2))
    ∷ ("executed_path_length", int (pos 9))
    ∷ ("optimal_path_length", int (pos 8))
    ∷ ("path_length_regret", int (pos 1))
    ∷ ("graph_disconnection_failures", int (pos 1))
    ∷ ("no_supported_edge_failures", int (pos 0))
    ∷ ("transition_model_error_failures", int (pos 0))
    ∷ ("state_aliasing_failures", int (pos 0))
    ∷ ("expansions", int (pos 20))
    ∷ ("checksum", text "0123456789abcdef")
    ∷ [])

abbrev pub variant_fields : ℕ → Fields ℤ
variant_fields correct = fields_of (
    ("expert_count", int (pos 4))
    ∷ ("training_evaluations", int (pos 50))
    ∷ ("checkpoint_size_bytes", int (pos 900))
    ∷ ("drift_holdout", object (eval_fields correct))
    ∷ ("retention_holdout", object (eval_fields 9))
    ∷ ("planning", object plan_fields)
    ∷ [])

abbrev pub replay_fields : Fields ℤ
replay_fields = fields_of (
    ("selected", int (pos 3))
    ∷ ("unique", int (pos 3))
    ∷ ("labels_covered", int (pos 3))
    ∷ ("actions_covered", int (pos 3))
    ∷ ("states_covered", int (pos 3))
    ∷ ("assigned_experts_covered", int (pos 3))
    ∷ ("transition_pairs_covered", int (pos 3))
    ∷ ("rare_cases_selected", int (pos 3))
    ∷ ("high_loss_cases_selected", int (pos 3))
    ∷ ("selection_checksum", text "0123456789abcdef")
    ∷ [])

abbrev pub training_fields : Fields ℤ
training_fields = fields_of (
    ("expert_evaluations", int (pos 2))
    ∷ ("samples", int (pos 2))
    ∷ ("certified", int (pos 2))
    ∷ ("births", int (pos 1))
    ∷ ("retired", int (pos 1))
    ∷ ("rejected_births", int (pos 2))
    ∷ ("rejected_retirements", int (pos 2))
    ∷ [])

abbrev pub birth_fields : Fields ℤ
birth_fields = fields_of (
    ("event_index", int (pos 3))
    ∷ ("normalized_score_q20", int (pos 70))
    ∷ ("dominant_channel", int (pos 2))
    ∷ [])

abbrev pub topology_fields : Fields ℤ
topology_fields = fields_of (
    ("accepted_births", int (pos 1))
    ∷ ("rejected_births", int (pos 0))
    ∷ ("accepted_retirements", int (pos 1))
    ∷ ("rejected_retirements", int (pos 0))
    ∷ ("objective_before_q20", int (pos 10))
    ∷ ("objective_after_q20", int (pos 30))
    ∷ ("births", array (item (object birth_fields) no_items))
    ∷ ("retired_lineages", array (item (text "0123456789abcdef") no_items))
    ∷ ("training_observations", object training_fields)
    ∷ [])

abbrev pub candidate_fields : Fields ℤ
candidate_fields = fields_of (
    ("adaptation_completed", flag true)
    ∷ ("expert_count", int (pos 4))
    ∷ ("base_training_evaluations", int (pos 60))
    ∷ ("adaptation_training_evaluations", int (pos 40))
    ∷ ("checkpoint_size_bytes", int (pos 900))
    ∷ ("model_identity", long_digest)
    ∷ ("behavior_identity", long_digest)
    ∷ ("base_holdout", object (eval_fields 9))
    ∷ ("adaptation_training", object (eval_fields 8))
    ∷ ("static_model_drift_holdout", object (eval_fields 5))
    ∷ ("adapted_model_drift_holdout", object (eval_fields 8))
    ∷ ("base_holdout_retention", object (eval_fields 9))
    ∷ ("planning", object plan_fields)
    ∷ ("replay", object replay_fields)
    ∷ ("topology", object topology_fields)
    ∷ [])

abbrev pub all_true : List String → Fields ℤ
all_true [] = no_fields
all_true (k ∷ ks) = field k (flag true) (all_true ks)

abbrev pub integrity_fields : Fields ℤ
integrity_fields = fields_of (
    ("checkpoint_roundtrip", flag true)
    ∷ ("checkpoint_identity_match", flag true)
    ∷ ("checkpoint_behavior_match", flag true)
    ∷ ("checkpoint_mutations", object (all_true checkpoint_mutation_keys))
    ∷ ("lineage_invariants", object (all_true lineage_invariant_keys))
    ∷ ("unsupported_graph_edge_violations", int (pos 0))
    ∷ [])

abbrev pub comparison_fields : Fields ℤ
comparison_fields = fields_of (
    ("ravel_0_5_candidate", object (variant_fields 8))
    ∷ ("no_adaptation_static", object (variant_fields 6))
    ∷ ("matched_compute_fixed_topology", object (variant_fields 6))
    ∷ ("ravel_no_birth_same_replay_iterations", object (variant_fields 6))
    ∷ ("ravel_without_retirement_matched_work", object (variant_fields 6))
    ∷ ("periodic_replay_policy", object (variant_fields 6))
    ∷ ("flat_64_expert_complete_scan", object (variant_fields 6))
    ∷ [])

abbrev pub seed_fields : Fields ℤ
seed_fields = fields_of (
    ("base_training", text "0x82c48aa273030adc")
    ∷ ("base_holdout", text "0x3a38a25dcc1da934")
    ∷ ("drift_adaptation_training", text "0x2d2ccebcb747f9f3")
    ∷ ("drift_holdout", text "0x181a7525e89e5894")
    ∷ ("original_task_retention_holdout", text "0x101b60c23e8db1b9")
    ∷ ("planning_cases", text "0x9d027a2bd0b140b0")
    ∷ [])

abbrev pub size_fields : Fields ℤ
size_fields = fields_of (
    ("base_training", int (pos 10))
    ∷ ("base_holdout", int (pos 10))
    ∷ ("drift_adaptation_training", int (pos 10))
    ∷ ("drift_holdout", int (pos 10))
    ∷ ("original_task_retention_holdout", int (pos 10))
    ∷ ("planning_cases", int (pos 10))
    ∷ [])

abbrev pub checkpoint_fields : Fields ℤ
checkpoint_fields = fields_of (
    ("magic_hex", text "524156454c303500")
    ∷ ("schema_version", int (pos 5))
    ∷ ("byte_order", text "big_endian")
    ∷ ("real_encoding", text "signed_q20_int64")
    ∷ ("payload_digest", text "sha256")
    ∷ ("transition_top_k", int (pos 5))
    ∷ ("transition_support_min", int (pos 5))
    ∷ [])

abbrev pub declared_fields : Fields ℤ
declared_fields =
    fields_of
      (("trial_id", text "t0") ∷ ("regime", text "base") ∷ ("seed", text "0x6173650000000000") ∷ [])

abbrev pub trial_fields : Fields ℤ
trial_fields = fields_of (
    ("schema", text "ravel-raw-trial/0.5")
    ∷ ("trial_id", text "t0")
    ∷ ("regime", text "base")
    ∷ ("seed", text "0x6173650000000000")
    ∷ ("dataset_seeds", object seed_fields)
    ∷ ("dataset_sizes", object size_fields)
    ∷ ("checkpoint_format", object checkpoint_fields)
    ∷ ("candidate", object candidate_fields)
    ∷ ("integrity", object integrity_fields)
    ∷ ("comparisons", object comparison_fields)
    ∷ [])
