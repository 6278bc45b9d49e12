-- ===== src/Ravel/Metrics.antt =====
-- `derive_eval`, `derive_plan` and `derive_trial_metrics`: rates, errors and differences, computed
-- from the counts of a validated trial.
pub mod Views
pub mod Trial
use mncs_reference_studies.Common.{
  ℕ, String, Bool, true, false, ◌&&◌, not, Option, none, some, List, [], ◌∷◌, ◌==◌, if◌then◌else◌,
}
use mncs_reference_studies.Common.Int.{ℤ, pos, ◌+ℤ◌, ◌-ℤ◌, ◌*ℤ◌, int_eq}
use mncs_reference_studies.Common.Result.{ok, raise, ◌>>=◌, ◌>>◌}
use mncs_reference_studies.Python.Floats.{Floats, max_float}
use mncs_reference_studies.Ravel.Arithmetic.{to_float, quotient, divide, square_root}
use mncs_reference_studies.Ravel.Values.{Outcome, Object, evaluation_error, reject_if, int_at}

-- `Q20_SCALE` and `DIMENSIONS`
abbrev pub q20_scale : ℤ
q20_scale = pos 1048576

abbrev pub dimensions : ℤ
dimensions = pos 8

pub record EvalMetrics (F : Floats) : Type 0 where
  pub accuracy : F.Float
  pub reconstruction_rmse : F.Float
  pub prediction_rmse : F.Float
  pub transition_accuracy : F.Float
  pub transition_support_rate : F.Float
  pub routing_mismatches : ℤ
  pub expert_evaluations : ℤ

pub record PlanMetrics (F : Floats) : Type 0 where
  pub path_found_rate : F.Float
  pub exact_state_rate : F.Float
  pub goal_expert_rate : F.Float
  pub belief_set_rate : F.Float
  pub path_length_regret : ℤ
  pub graph_disconnections : ℤ
  pub unsupported_edge_failures : ℤ
  pub transition_model_failures : ℤ
  pub state_aliasing_failures : ℤ

module _ (F : Floats) where
  -- The root of the mean of a sum of squares in Q20.
  unfoldable pub rmse : ℤ → ℤ → Outcome F.Float
  rmse sse_q20 count = do
    sse ← quotient F sse_q20 q20_scale
    terms ← to_float F (count *ℤ dimensions)
    mean ← divide F sse terms
    square_root F mean

  -- The error under a key, or infinity without a sample.
  unfoldable pub rmse_or_infinity : String → Object F.Float → ℤ → Outcome F.Float
  rmse_or_infinity key fields count =
      if count == pos 0 then ok F.infinity else int_at key fields >>= λ sse. rmse sse count

  -- The rate of a count, or 0.0 without a case.
  unfoldable pub rate_or_zero : String → Object F.Float → ℤ → Outcome F.Float
  rate_or_zero key fields count =
      if count == pos 0
      then ok (F.tenths 0)
      else int_at key fields >>= λ part. quotient F part count

  abbrev pub all_finite : EvalMetrics F → Bool
  all_finite m =
      F.is_finite m.accuracy
      && F.is_finite m.reconstruction_rmse
      && F.is_finite m.prediction_rmse
      && F.is_finite m.transition_accuracy
      && F.is_finite m.transition_support_rate

  unfoldable pub derive_eval : Object F.Float → Outcome (EvalMetrics F)
  derive_eval fields = do
    samples ← int_at "samples" fields
    prediction_samples ← int_at "prediction_samples" fields
    supported ← int_at "transition_supported" fields
    reject_if (samples == pos 0) "evaluation has zero samples"
    correct ← int_at "correct" fields
    accuracy ← quotient F correct samples
    reconstruction_sse ← int_at "reconstruction_sse_q20" fields
    reconstruction ← rmse reconstruction_sse samples
    prediction ← rmse_or_infinity "prediction_sse_q20" fields prediction_samples
    transition ← rate_or_zero "transition_correct" fields supported
    support ← quotient F supported samples
    mismatches ← int_at "routed_complete_mismatches" fields
    evaluations ← int_at "expert_evaluations" fields
    let result : EvalMetrics F = record {
      accuracy = accuracy;
      reconstruction_rmse = reconstruction;
      prediction_rmse = prediction;
      transition_accuracy = transition;
      transition_support_rate = support;
      routing_mismatches = mismatches;
      expert_evaluations = evaluations;
    }
    reject_if (not (all_finite result)) "derived evaluation contains non-finite metric"
    ok result

  unfoldable pub derive_plan : Object F.Float → Outcome (PlanMetrics F)
  derive_plan fields = do
    cases ← int_at "cases" fields
    reject_if (cases == pos 0) "planning has zero cases"
    path_found ← int_at "path_found" fields
    path_found_rate ← quotient F path_found cases
    exact ← int_at "exact_world_state_target_reached" fields
    exact_state_rate ← quotient F exact cases
    goal ← int_at "goal_expert_reached" fields
    goal_expert_rate ← quotient F goal cases
    belief ← int_at "belief_set_target_reached" fields
    belief_set_rate ← quotient F belief cases
    regret ← int_at "path_length_regret" fields
    disconnections ← int_at "graph_disconnection_failures" fields
    unsupported ← int_at "no_supported_edge_failures" fields
    model_failures ← int_at "transition_model_error_failures" fields
    aliasing ← int_at "state_aliasing_failures" fields
    ok (record {
      path_found_rate = path_found_rate;
      exact_state_rate = exact_state_rate;
      goal_expert_rate = goal_expert_rate;
      belief_set_rate = belief_set_rate;
      path_length_regret = regret;
      graph_disconnections = disconnections;
      unsupported_edge_failures = unsupported;
      transition_model_failures = model_failures;
      state_aliasing_failures = aliasing;
    })

  -- `_headroom_improvement`
  unfoldable pub headroom_improvement : F.Float → F.Float → Outcome F.Float
  headroom_improvement adapted static =
      let headroom = F.sub (F.tenths 10) static in
      if F.le headroom (F.tenths 0)
      then ok (if F.le static adapted then F.tenths 0 else F.sub adapted static)
      else divide F (F.sub adapted static) headroom

  -- The change from one error to another, relative to the error itself but never to less than 1e-12.
  abbrev pub relative_change : F.Float → F.Float → F.Float → Outcome F.Float
  relative_change after before base = divide F (F.sub after before) (max_float F base F.tiny)

  -- `float(a) / max(float(b), 1.0)`
  unfoldable pub work_ratio : ℤ → ℤ → Outcome F.Float
  work_ratio a b = do
    work ← to_float F a
    base ← to_float F b
    divide F work (max_float F base (F.tenths 10))
