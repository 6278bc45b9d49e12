-- ===== src/Ravel/Evaluation/Comparisons.antt =====
-- The comparison of a candidate with the variants of its trial.
use mncs_reference_studies.Common.{String, List, [], ◌∷◌, string_eq, nat_eq, if◌then◌else◌}
use mncs_reference_studies.Common.Int.{pos, ◌-ℤ◌}
use mncs_reference_studies.Common.Result.{ok, ◌>>=◌}
use mncs_reference_studies.Dict.{lookup}
use mncs_reference_studies.Python.Floats.{Floats}
use mncs_reference_studies.Python.Equality.{Number}
use mncs_reference_studies.Python.Equality
use mncs_reference_studies.Ravel.Arithmetic.{to_float}
use mncs_reference_studies.Ravel.Values.{Outcome, found}
use mncs_reference_studies.Ravel.Metrics.Trial.{Metric, Metrics, truth, whole, real, VariantMetrics}
use mncs_reference_studies.Ravel.Gates.{Quality, Relation, pareto_relation}

abbrev pub metric_number : {N : Type 0} → Metric N → Number N
metric_number (truth b) = Equality.whole (if b then pos 1 else pos 0)
metric_number (whole n) = Equality.whole n
metric_number (real x) = Equality.real x

module _ (F : Floats) where
  abbrev pub number_at : String → Metrics F → Outcome (Number F.Float)
  number_at name metrics = found name (lookup name metrics) >>= λ m. ok (metric_number m)

  unfoldable pub candidate_quality : Metrics F → Outcome (Quality F)
  candidate_quality metrics = do
    drift ← number_at "adapted_drift_accuracy" metrics
    retention ← number_at "retention_accuracy" metrics
    reconstruction ← number_at "adapted_reconstruction_rmse" metrics
    prediction ← number_at "adapted_prediction_rmse" metrics
    exact ← number_at "exact_state_rate" metrics
    belief ← number_at "belief_set_rate" metrics
    inference ← number_at "inference_expert_evaluations" metrics
    training ← number_at "training_evaluations" metrics
    experts ← number_at "expert_count" metrics
    size ← number_at "checkpoint_size_bytes" metrics
    ok (record {
      drift_accuracy = drift;
      retention_accuracy = retention;
      planning_exact_state_rate = exact;
      planning_belief_set_rate = belief;
      reconstruction_rmse = reconstruction;
      prediction_rmse = prediction;
      expert_evaluations = inference;
      training_evaluations = training;
      expert_count = experts;
      checkpoint_size_bytes = size;
    })

  -- `variant_metrics`
  unfoldable pub variant_quality : VariantMetrics F → Quality F
  variant_quality v = record {
    drift_accuracy = Equality.real v.drift.accuracy;
    retention_accuracy = Equality.real v.retention.accuracy;
    planning_exact_state_rate = Equality.real v.plan.exact_state_rate;
    planning_belief_set_rate = Equality.real v.plan.belief_set_rate;
    reconstruction_rmse = Equality.real v.drift.reconstruction_rmse;
    prediction_rmse = Equality.real v.drift.prediction_rmse;
    expert_evaluations = Equality.whole v.drift.expert_evaluations;
    training_evaluations = Equality.whole v.training_evaluations;
    expert_count = Equality.whole v.expert_count;
    checkpoint_size_bytes = Equality.whole v.checkpoint_size_bytes;
  }

  -- `a - b`, where an integer meets a float as the nearest float.
  abbrev pub minus : Number F.Float → Number F.Float → Outcome (Number F.Float)
  minus (Equality.whole m) (Equality.whole n) = ok (Equality.whole (m -ℤ n))
  minus (Equality.real x) (Equality.real y) = ok (Equality.real (F.sub x y))
  minus (Equality.whole m) (Equality.real y) = to_float F m >>= λ x. ok (Equality.real (F.sub x y))
  minus (Equality.real x) (Equality.whole n) = to_float F n >>= λ y. ok (Equality.real (F.sub x y))

  -- `paired_delta_candidate_minus_variant`
  unfoldable pub paired_delta : Quality F → Quality F → Outcome (Quality F)
  paired_delta c v = do
    drift_accuracy ← minus c.drift_accuracy v.drift_accuracy
    retention_accuracy ← minus c.retention_accuracy v.retention_accuracy
    planning_exact_state_rate ← minus c.planning_exact_state_rate v.planning_exact_state_rate
    planning_belief_set_rate ← minus c.planning_belief_set_rate v.planning_belief_set_rate
    reconstruction_rmse ← minus c.reconstruction_rmse v.reconstruction_rmse
    prediction_rmse ← minus c.prediction_rmse v.prediction_rmse
    expert_evaluations ← minus c.expert_evaluations v.expert_evaluations
    training_evaluations ← minus c.training_evaluations v.training_evaluations
    expert_count ← minus c.expert_count v.expert_count
    checkpoint_size_bytes ← minus c.checkpoint_size_bytes v.checkpoint_size_bytes
    ok (record {
      drift_accuracy = drift_accuracy;
      retention_accuracy = retention_accuracy;
      planning_exact_state_rate = planning_exact_state_rate;
      planning_belief_set_rate = planning_belief_set_rate;
      reconstruction_rmse = reconstruction_rmse;
      prediction_rmse = prediction_rmse;
      expert_evaluations = expert_evaluations;
      training_evaluations = training_evaluations;
      expert_count = expert_count;
      checkpoint_size_bytes = checkpoint_size_bytes;
    })

  pub record Comparison : Type 0 where
    pub metrics : Quality F
    pub delta : Quality F
    pub relation : Relation F

  unfoldable pub compare_variants :
      Quality F → List (String × VariantMetrics F) → Outcome (List (String × Comparison))
  compare_variants candidate [] = ok []
  compare_variants candidate ((name, v) ∷ rest) = do
    delta ← paired_delta candidate (variant_quality v)
    later ← compare_variants candidate rest
    let compared : Comparison = record {
      metrics = variant_quality v;
      delta = delta;
      relation = pareto_relation F candidate (variant_quality v);
    }
    ok ((name, compared) ∷ later)
