-- ===== src/Ravel/Metrics/Trial.antt =====
-- `derive_trial_metrics`: the metrics of a trial by name, for its gates.
use mncs_reference_studies.Common.{String, Bool, true, ◌&&◌, not, List, [], ◌∷◌, ◌++◌, string_eq}
use mncs_reference_studies.Common.Int.{ℤ, ◌+ℤ◌, ◌-ℤ◌, int_eq}
use mncs_reference_studies.Common.Result.{ok, ◌>>=◌, ◌>>◌}
use mncs_reference_studies.Dict.{lookup}
use mncs_reference_studies.Python.Floats.{Floats}
use mncs_reference_studies.Ravel.Values.{Outcome, Object, reject_if, found, int_at}
use mncs_reference_studies.Ravel.Metrics.{EvalMetrics, PlanMetrics, work_ratio}
pub use mncs_reference_studies.Ravel.Metrics.Views.{Metric, truth, whole, real, Views}
unfoldable pub use mncs_reference_studies.Ravel.Metrics.Views.{
  Metrics, as_metric, metric_at, as_object, object_at, truthy, all_truthy, eval_at, plan_at,
  derive_views, view_metrics,
}

pub record VariantMetrics (F : Floats) : Type 0 where
  pub drift : EvalMetrics F
  pub retention : EvalMetrics F
  pub plan : PlanMetrics F
  pub training_evaluations : ℤ
  pub expert_count : ℤ
  pub checkpoint_size_bytes : ℤ

abbrev pub candidate_names : List (String × String)
candidate_names =
    ("adaptation_completed", "adaptation_completed")
    ∷ ("expert_count", "expert_count")
    ∷ ("checkpoint_size_bytes", "checkpoint_size_bytes")
    ∷ []

abbrev pub topology_names : List (String × String)
topology_names =
    ("accepted_births", "accepted_births") ∷ ("accepted_retirements", "accepted_retirements") ∷ []

abbrev pub replay_names : List (String × String)
replay_names =
    ("replay_selected", "selected")
    ∷ ("replay_unique", "unique")
    ∷ ("replay_labels_covered", "labels_covered")
    ∷ ("replay_actions_covered", "actions_covered")
    ∷ ("replay_states_covered", "states_covered")
    ∷ ("replay_experts_covered", "assigned_experts_covered")
    ∷ ("replay_transition_pairs_covered", "transition_pairs_covered")
    ∷ []

abbrev pub integrity_names : List (String × String)
integrity_names =
    ("checkpoint_roundtrip", "checkpoint_roundtrip")
    ∷ ("checkpoint_identity", "checkpoint_identity_match")
    ∷ ("checkpoint_behavior", "checkpoint_behavior_match")
    ∷ ("unsupported_graph_edge_violations", "unsupported_graph_edge_violations")
    ∷ []

module _ (F : Floats) where
  -- `candidate["base_training_evaluations"] + candidate["adaptation_training_evaluations"]`
  unfoldable pub training_work : Object F.Float → Outcome ℤ
  training_work candidate = do
    base ← int_at "base_training_evaluations" candidate
    adaptation ← int_at "adaptation_training_evaluations" candidate
    ok (base +ℤ adaptation)

  -- The metrics that are copied, each under its own name from a field of a record.
  unfoldable pub copied : List (String × String) → Object F.Float → Outcome (Metrics F)
  copied [] fields = ok []
  copied ((name, key) ∷ rest) fields = do
    m ← metric_at key fields
    later ← copied rest fields
    ok ((name, m) ∷ later)

  unfoldable pub integrity_metrics : Object F.Float → Outcome (Metrics F)
  integrity_metrics integrity = do
    copies ← copied integrity_names integrity
    mutations ← object_at "checkpoint_mutations" integrity
    lineage ← object_at "lineage_invariants" integrity
    ok (
        ("checkpoint_mutations", truth (all_truthy F mutations))
        ∷ ("lineage_invariants", truth (all_truthy F lineage))
        ∷ copies)

  -- The dictionary `metrics` before the comparisons; its names stand in another order here.
  unfoldable pub candidate_metrics : Object F.Float → Object F.Float → Views F → Outcome (Metrics F)
  candidate_metrics candidate integrity views = do
    replay ← object_at "replay" candidate
    topology ← object_at "topology" candidate
    seen ← view_metrics F views
    own ← copied candidate_names candidate
    births ← copied topology_names topology
    work ← training_work candidate
    coverage ← copied replay_names replay
    facts ← integrity_metrics integrity
    ok (seen ++ own ++ births ++ (("training_evaluations", whole work) ∷ coverage) ++ facts)

  unfoldable pub derive_variant : Object F.Float → Outcome (VariantMetrics F)
  derive_variant variant = do
    drift ← eval_at F "drift_holdout" variant
    retention ← eval_at F "retention_holdout" variant
    plan ← plan_at F "planning" variant
    work ← int_at "training_evaluations" variant
    experts ← int_at "expert_count" variant
    size ← int_at "checkpoint_size_bytes" variant
    ok (record {
      drift = drift;
      retention = retention;
      plan = plan;
      training_evaluations = work;
      expert_count = experts;
      checkpoint_size_bytes = size;
    })

  -- `comparison_metrics`, in the order of the variants.
  unfoldable pub derive_variants : Object F.Float → Outcome (List (String × VariantMetrics F))
  derive_variants [] = ok []
  derive_variants ((name, variant) ∷ rest) = do
    fields ← as_object variant
    m ← derive_variant fields
    later ← derive_variants rest
    ok ((name, m) ∷ later)

  -- The metrics against the comparison variants.
  unfoldable pub contrast_metrics :
      Views F → ℤ → Object F.Float → List (String × VariantMetrics F) → Outcome (Metrics F)
  contrast_metrics v work topology variants = do
    static ← found "no_adaptation_static" (lookup "no_adaptation_static" variants)
    matched ←
        found "matched_compute_fixed_topology" (lookup "matched_compute_fixed_topology" variants)
    no_birth ←
        found "ravel_no_birth_same_replay_iterations"
          (lookup "ravel_no_birth_same_replay_iterations" variants)
    no_retirement ←
        found "ravel_without_retirement_matched_work"
          (lookup "ravel_without_retirement_matched_work" variants)
    periodic ← found "periodic_replay_policy" (lookup "periodic_replay_policy" variants)
    flat ← found "flat_64_expert_complete_scan" (lookup "flat_64_expert_complete_scan" variants)
    training ← work_ratio F work matched.training_evaluations
    inference ← work_ratio F v.adapted.expert_evaluations flat.drift.expert_evaluations
    after ← int_at "objective_after_q20" topology
    before ← int_at "objective_before_q20" topology
    ok (
        ("static_exact_state_rate", real static.plan.exact_state_rate)
        ∷ ("static_belief_set_rate", real static.plan.belief_set_rate)
        ∷ (
          "exact_state_rate_delta",
          real (F.sub v.planning.exact_state_rate static.plan.exact_state_rate),
        )
        ∷ (
          "belief_set_rate_delta",
          real (F.sub v.planning.belief_set_rate static.plan.belief_set_rate),
        )
        ∷ (
          "matched_compute_drift_accuracy_delta",
          real (F.sub v.adapted.accuracy matched.drift.accuracy),
        )
        ∷ (
          "matched_compute_retention_delta",
          real (F.sub v.retention.accuracy matched.retention.accuracy),
        )
        ∷ ("matched_compute_training_evaluation_ratio", real training)
        ∷ ("no_birth_drift_accuracy_delta", real (F.sub v.adapted.accuracy no_birth.drift.accuracy))
        ∷ (
          "no_retirement_drift_accuracy_delta",
          real (F.sub v.adapted.accuracy no_retirement.drift.accuracy),
        )
        ∷ (
          "balanced_vs_periodic_drift_accuracy_delta",
          real (F.sub v.adapted.accuracy periodic.drift.accuracy),
        )
        ∷ (
          "balanced_vs_periodic_retention_delta",
          real (F.sub v.retention.accuracy periodic.retention.accuracy),
        )
        ∷ ("inference_evaluation_ratio_vs_flat64", real inference)
        ∷ ("topology_objective_gain_q20", whole (after -ℤ before))
        ∷ [])

  abbrev pub is_finite_metric : Metric F.Float → Bool
  is_finite_metric (real x) = F.is_finite x
  is_finite_metric _ = true

  unfoldable pub finite_metrics : Metrics F → Bool
  finite_metrics [] = true
  finite_metrics ((name, m) ∷ rest) = is_finite_metric m && finite_metrics rest

  unfoldable pub derive_trial_metrics : Object F.Float → Outcome (Metrics F)
  derive_trial_metrics fields = do
    candidate ← object_at "candidate" fields
    views ← derive_views F candidate
    integrity ← object_at "integrity" fields
    metrics ← candidate_metrics candidate integrity views
    comparisons ← object_at "comparisons" fields
    variants ← derive_variants comparisons
    work ← training_work candidate
    topology ← object_at "topology" candidate
    contrasts ← contrast_metrics views work topology variants
    reject_if (not (finite_metrics (metrics ++ contrasts))) "trial derived non-finite metric"
    ok (metrics ++ contrasts)
