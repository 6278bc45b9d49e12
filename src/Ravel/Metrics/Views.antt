-- ===== src/Ravel/Metrics/Views.antt =====
-- The views of a trial, the evaluations of its candidate, and the metrics that they give.
use mncs_reference_studies.Common.{
  String, Bool, true, false, ◌&&◌, not, List, [], ◌∷◌, ◌==◌, string_eq,
}
use mncs_reference_studies.Common.Int.{ℤ, pos, ◌+ℤ◌, int_eq}
use mncs_reference_studies.Common.Result.{ok, raise, ◌>>=◌}
use mncs_reference_studies.Python.Floats.{Floats, eq_float}
use mncs_reference_studies.Python.Json.{
  Json, null, text, flag, int, number, array, object, no_items, no_fields, item, field, entries,
}
use mncs_reference_studies.Ravel.Values.{Outcome, Object, type_error, get, is_empty_text}
use mncs_reference_studies.Ravel.Metrics.{
  EvalMetrics, PlanMetrics, derive_eval, derive_plan, headroom_improvement, relative_change,
}

-- A value in the dictionary of metrics.
pub data Metric (N : Type 0) : Type 0 where
  truth : Bool → Metric N
  whole : ℤ → Metric N
  real : N → Metric N

abbrev pub Metrics : Floats → Type 0
Metrics F = List (String × Metric F.Float)

-- A scalar that the program copies from a validated record.
abbrev pub as_metric : {N : Type 0} → Json N → Outcome (Metric N)
as_metric (flag b) = ok (truth b)
as_metric (int n) = ok (whole n)
as_metric (number x) = ok (real x)
as_metric _ = raise type_error

unfoldable pub metric_at : {N : Type 0} → String → Object N → Outcome (Metric N)
metric_at key fields = get key fields >>= as_metric

abbrev pub as_object : {N : Type 0} → Json N → Outcome (Object N)
as_object (object fs) = ok (entries fs)
as_object _ = raise type_error

unfoldable pub object_at : {N : Type 0} → String → Object N → Outcome (Object N)
object_at key fields = get key fields >>= as_object

-- `bool(value)`
abbrev pub truthy : (F : Floats) → Json F.Float → Bool
truthy F null = false
truthy F (text s) = not (is_empty_text s)
truthy F (flag b) = b
truthy F (int n) = not (n == pos 0)
truthy F (number x) = not (eq_float F x (F.tenths 0))
truthy F (array no_items) = false
truthy F (array (item x xs)) = true
truthy F (object no_fields) = false
truthy F (object (field k x fs)) = true

-- `all(values.values())`
unfoldable pub all_truthy : (F : Floats) → Object F.Float → Bool
all_truthy F [] = true
all_truthy F ((k, x) ∷ rest) = truthy F x && all_truthy F rest

pub record Views (F : Floats) : Type 0 where
  pub base : EvalMetrics F
  pub adaptation : EvalMetrics F
  pub static : EvalMetrics F
  pub adapted : EvalMetrics F
  pub retention : EvalMetrics F
  pub planning : PlanMetrics F

module _ (F : Floats) where
  abbrev pub eval_at : String → Object F.Float → Outcome (EvalMetrics F)
  eval_at key fields = object_at key fields >>= derive_eval F

  abbrev pub plan_at : String → Object F.Float → Outcome (PlanMetrics F)
  plan_at key fields = object_at key fields >>= derive_plan F

  unfoldable pub derive_views : Object F.Float → Outcome (Views F)
  derive_views candidate = do
    base ← eval_at "base_holdout" candidate
    adaptation ← eval_at "adaptation_training" candidate
    static ← eval_at "static_model_drift_holdout" candidate
    adapted ← eval_at "adapted_model_drift_holdout" candidate
    retention ← eval_at "base_holdout_retention" candidate
    planning ← plan_at "planning" candidate
    ok (record {
      base = base;
      adaptation = adaptation;
      static = static;
      adapted = adapted;
      retention = retention;
      planning = planning;
    })

  -- The metrics that the views give.
  unfoldable pub view_metrics : Views F → Outcome (Metrics F)
  view_metrics v = do
    improvement ← headroom_improvement F v.adapted.accuracy v.static.accuracy
    degradation ←
        relative_change F v.retention.reconstruction_rmse v.base.reconstruction_rmse
          v.base.reconstruction_rmse
    reconstruction ←
        relative_change F v.static.reconstruction_rmse v.adapted.reconstruction_rmse
          v.static.reconstruction_rmse
    prediction ←
        relative_change F v.static.prediction_rmse v.adapted.prediction_rmse
          v.static.prediction_rmse
    ok (
        ("base_accuracy", real v.base.accuracy)
        ∷ ("adaptation_training_accuracy", real v.adaptation.accuracy)
        ∷ ("static_drift_accuracy", real v.static.accuracy)
        ∷ ("adapted_drift_accuracy", real v.adapted.accuracy)
        ∷ ("retention_accuracy", real v.retention.accuracy)
        ∷ ("retention_accuracy_delta_from_base", real (F.sub v.retention.accuracy v.base.accuracy))
        ∷ ("drift_accuracy_delta", real (F.sub v.adapted.accuracy v.static.accuracy))
        ∷ ("headroom_normalized_accuracy_improvement", real improvement)
        ∷ ("base_reconstruction_rmse", real v.base.reconstruction_rmse)
        ∷ ("static_reconstruction_rmse", real v.static.reconstruction_rmse)
        ∷ ("adapted_reconstruction_rmse", real v.adapted.reconstruction_rmse)
        ∷ ("retention_reconstruction_rmse", real v.retention.reconstruction_rmse)
        ∷ ("retention_reconstruction_degradation_ratio", real degradation)
        ∷ ("reconstruction_improvement_ratio", real reconstruction)
        ∷ ("base_prediction_rmse", real v.base.prediction_rmse)
        ∷ ("static_prediction_rmse", real v.static.prediction_rmse)
        ∷ ("adapted_prediction_rmse", real v.adapted.prediction_rmse)
        ∷ ("retention_prediction_rmse", real v.retention.prediction_rmse)
        ∷ ("prediction_improvement_ratio", real prediction)
        ∷ (
          "retention_prediction_degradation",
          real (F.sub v.retention.prediction_rmse v.base.prediction_rmse),
        )
        ∷ ("static_transition_accuracy", real v.static.transition_accuracy)
        ∷ ("adapted_transition_accuracy", real v.adapted.transition_accuracy)
        ∷ (
          "transition_accuracy_delta",
          real (F.sub v.adapted.transition_accuracy v.static.transition_accuracy),
        )
        ∷ (
          "retention_transition_accuracy_delta",
          real (F.sub v.retention.transition_accuracy v.base.transition_accuracy),
        )
        ∷ ("transition_support_rate", real v.adapted.transition_support_rate)
        ∷ ("path_found_rate", real v.planning.path_found_rate)
        ∷ ("exact_state_rate", real v.planning.exact_state_rate)
        ∷ ("belief_set_rate", real v.planning.belief_set_rate)
        ∷ (
          "routing_mismatches",
          whole (
              v.base.routing_mismatches +ℤ v.adaptation.routing_mismatches
              +ℤ v.static.routing_mismatches +ℤ v.adapted.routing_mismatches
              +ℤ v.retention.routing_mismatches),
        )
        ∷ ("inference_expert_evaluations", whole v.adapted.expert_evaluations)
        ∷ [])
