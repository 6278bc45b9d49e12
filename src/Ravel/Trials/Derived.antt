-- ===== src/Ravel/Trials/Derived.antt =====
-- What is derived from the validated parts of a trial is derived without
-- an exception but `EvaluationError` and `OverflowError`.
use mncs_reference_studies.Common.{false, String, true, ◌≡◌, refl, List, [], ◌∷◌, ◌==◌, string_eq}
use mncs_reference_studies.Common.Int.{ℤ, pos, int_eq}
use mncs_reference_studies.Common.Result.{ok, ◌>>=◌}
use mncs_reference_studies.Common.Sets.{contains}
use mncs_reference_studies.Common.Sorting.{All}
use mncs_reference_studies.Python.Floats.{Floats, max_float, eq_float}
use mncs_reference_studies.Python.Json.{flag, int, object, entries}
use mncs_reference_studies.Ravel.Values.{Outcome, Object}
use mncs_reference_studies.Ravel.Arithmetic.{zero_float}
use mncs_reference_studies.Ravel.Arithmetic.Partial.{
  IsPositiveSafe, max-nonzero, quotient-Settles, divide-Settles,
}
use mncs_reference_studies.Ravel.Values.Checked.{HasNatural, at_name, get-ok}
use mncs_reference_studies.Ravel.Values.Settles.{
  Settles, returned-Settles, >>=-Settles, ok-Settles, reject_if-Settles, guard-Settles,
  int_at-Settles,
}
use mncs_reference_studies.Ravel.Observations.{eval_counts, plan_counts}
use mncs_reference_studies.Ravel.Observations.Admitted.{IsEval}
use mncs_reference_studies.Ravel.Observations.Planned.{IsPlan}
use mncs_reference_studies.Ravel.Metrics.{derive_eval, derive_plan, EvalMetrics, PlanMetrics}
use mncs_reference_studies.Ravel.Metrics.Trial.{
  Metric, truth, whole, Metrics, Views, view_metrics, metric_at, object_at, eval_at, plan_at,
  derive_views, copied, integrity_names, integrity_metrics, training_work,
}
use mncs_reference_studies.Ravel.Trials.{candidate_evals}
use mncs_reference_studies.Ravel.Trials.Admitted.{HasObject, HasBool}
use mncs_reference_studies.Ravel.Trials.Validated.{IsAny, IsCandidate, IsIntegrity}
use mncs_reference_studies.Ravel.Trials.Rates.{
  not_zero, rmse-Settles, rmse_or_infinity-Settles, rate_or_zero-Settles,
  headroom_improvement-Settles,
}

module _ (F : Floats) (laws : IsPositiveSafe F) where
  pub derive_eval-Settles :
      (o : Object F.Float) → All (HasNatural o) eval_counts → Settles (derive_eval F o)
  unfolding derive_eval contains
  derive_eval-Settles o h =
      let at : (k : String) → contains k eval_counts ≡ true → HasNatural o k =
        λ k e. at_name (HasNatural o) k eval_counts e h in
      int_at-Settles "samples" o _ (at "samples" refl) λ samples.
        int_at-Settles "prediction_samples" o _ (at "prediction_samples" refl) λ predicted.
          int_at-Settles "transition_supported" o _ (at "transition_supported" refl) λ supported.
            guard-Settles (pos samples == pos 0) _ _ λ sampled.
              int_at-Settles "correct" o _ (at "correct" refl) λ correct.
                quotient-Settles F (pos correct) (pos samples) _ sampled λ accuracy e.
                  int_at-Settles "reconstruction_sse_q20" o _ (at "reconstruction_sse_q20" refl)
                    λ sse.
                      rmse-Settles F laws sse samples _ (not_zero samples sampled) λ reconstruction.
                        rmse_or_infinity-Settles F laws "prediction_sse_q20" o predicted _
                          (at "prediction_sse_q20" refl)
                          λ prediction.
                            rate_or_zero-Settles F laws "transition_correct" o supported _
                              (at "transition_correct" refl)
                              λ transition.
                                quotient-Settles F (pos supported) (pos samples) _ sampled
                                  λ support e'.
                                    int_at-Settles "routed_complete_mismatches" o _
                                      (at "routed_complete_mismatches" refl)
                                      λ d.
                                        int_at-Settles "expert_evaluations" o _
                                          (at "expert_evaluations" refl)
                                          λ e. reject_if-Settles _ _ _ (returned-Settles _)

  pub derive_plan-Settles :
      (o : Object F.Float) → All (HasNatural o) plan_counts → Settles (derive_plan F o)
  unfolding derive_plan contains
  derive_plan-Settles o h =
      let at : (k : String) → contains k plan_counts ≡ true → HasNatural o k =
        λ k e. at_name (HasNatural o) k plan_counts e h in
      int_at-Settles "cases" o _ (at "cases" refl) λ cases.
        guard-Settles (pos cases == pos 0) _ _ λ present.
          int_at-Settles "path_found" o _ (at "path_found" refl) λ a.
            quotient-Settles F (pos a) (pos cases) _ present λ r e1.
              int_at-Settles "exact_world_state_target_reached" o _
                (at "exact_world_state_target_reached" refl)
                λ b. quotient-Settles F (pos b) (pos cases) _ present λ r2 e2.
                  int_at-Settles "goal_expert_reached" o _ (at "goal_expert_reached" refl) λ c.
                    quotient-Settles F (pos c) (pos cases) _ present λ r3 e3.
                      int_at-Settles "belief_set_target_reached" o _
                        (at "belief_set_target_reached" refl)
                        λ d. quotient-Settles F (pos d) (pos cases) _ present λ r4 e4.
                          int_at-Settles "path_length_regret" o _ (at "path_length_regret" refl)
                            λ e.
                              int_at-Settles "graph_disconnection_failures" o _
                                (at "graph_disconnection_failures" refl)
                                λ f.
                                  int_at-Settles "no_supported_edge_failures" o _
                                    (at "no_supported_edge_failures" refl)
                                    λ g.
                                      int_at-Settles "transition_model_error_failures" o _
                                        (at "transition_model_error_failures" refl)
                                        λ i.
                                          int_at-Settles "state_aliasing_failures" o _
                                            (at "state_aliasing_failures" refl)
                                            λ j. returned-Settles _

  -- A dictionary under a key, and what is computed from it.
  pub object_at-Settles {ℓ} :
      {A : Type ℓ} (P : Object F.Float → Type 0) (k : String) (o : Object F.Float)
      (next : Object F.Float → Outcome A)
      → HasObject P o k
      → ((r : Object F.Float) → P r → Settles (next r))
      → Settles (object_at k o >>= next)
  unfolding object_at
  object_at-Settles P k o next (fs, e, p) s =
      ok-Settles (object_at k o) next (entries fs) (rw ((get-ok k o (object fs)).1 e) refl)
        (s (entries fs) p)

  pub eval_at-Settles {ℓ} :
      {A : Type ℓ} (k : String) (o : Object F.Float) (next : EvalMetrics F → Outcome A)
      → HasObject IsEval o k
      → ((m : EvalMetrics F) → Settles (next m))
      → Settles (eval_at F k o >>= next)
  eval_at-Settles k o next h s =
      >>=-Settles (eval_at F k o) next
        (object_at-Settles IsEval k o (derive_eval F) h λ r is. derive_eval-Settles r is.naturals)
        (λ m e. s m)

  pub plan_at-Settles {ℓ} :
      {A : Type ℓ} (k : String) (o : Object F.Float) (next : PlanMetrics F → Outcome A)
      → HasObject IsPlan o k
      → ((m : PlanMetrics F) → Settles (next m))
      → Settles (plan_at F k o >>= next)
  plan_at-Settles k o next h s =
      >>=-Settles (plan_at F k o) next
        (object_at-Settles IsPlan k o (derive_plan F) h λ r is. derive_plan-Settles r is.naturals)
        (λ m e. s m)

  pub derive_views-Settles : (o : Object F.Float) → IsCandidate F o → Settles (derive_views F o)
  unfolding derive_views contains
  derive_views-Settles o is =
      let at : (k : String) → contains k candidate_evals ≡ true → HasObject IsEval o k =
        λ k e. at_name (HasObject IsEval o) k candidate_evals e is.evals in
      eval_at-Settles "base_holdout" o _ (at "base_holdout" refl) λ a.
        eval_at-Settles "adaptation_training" o _ (at "adaptation_training" refl) λ b.
          eval_at-Settles "static_model_drift_holdout" o _ (at "static_model_drift_holdout" refl)
            λ c.
              eval_at-Settles "adapted_model_drift_holdout" o _
                (at "adapted_model_drift_holdout" refl)
                λ d.
                  eval_at-Settles "base_holdout_retention" o _ (at "base_holdout_retention" refl)
                    λ e. plan_at-Settles "planning" o _ is.planning λ p. returned-Settles _

  pub view_metrics-Settles {ℓ} :
      {A : Type ℓ} (v : Views F) (next : Metrics F → Outcome A)
      → ((m : Metrics F) → Settles (next m))
      → Settles (view_metrics F v >>= next)
  unfolding view_metrics
  view_metrics-Settles v next s =
      let change : (b : F.Float) → eq_float F (max_float F b F.tiny) (zero_float F) ≡ false =
        λ b. max-nonzero F b F.tiny laws laws.tiny_positive in
      >>=-Settles (view_metrics F v) next
        (headroom_improvement-Settles F laws v.adapted.accuracy v.static.accuracy _ λ a.
          divide-Settles F _ _ _ (change v.base.reconstruction_rmse) λ b e.
            divide-Settles F _ _ _ (change v.static.reconstruction_rmse) λ c e'.
              divide-Settles F _ _ _ (change v.static.prediction_rmse) λ d e''. returned-Settles _)
        (λ m e. s m)

  -- A field that a metric can be copied from.
  pub data HasMetric (o : Object F.Float) (k : String) : Type 0 where
    a_natural : HasNatural o k → HasMetric o k
    a_fact : HasBool o k → HasMetric o k

  metric_at-HasMetric :
      (o : Object F.Float) (k : String)
      → HasMetric o k
      → (m : Metric F.Float) × (metric_at k o ≡ ok m)
  unfolding metric_at
  metric_at-HasMetric o k (a_natural (n, e)) =
      (whole (pos n), rw ((get-ok k o (int (pos n))).1 e) refl)
  metric_at-HasMetric o k (a_fact (b, e)) = (truth b, rw ((get-ok k o (flag b)).1 e) refl)

  pub copied-Settles :
      (o : Object F.Float) (names : List (String × String))
      → All (λ p. HasMetric o p.1) names
      → Settles (copied F names o)
  unfolding copied
  copied-Settles o [] h = returned-Settles _
  copied-Settles o ((name, k) ∷ rest) (p, ps) =
      let (m, e) = metric_at-HasMetric o k p in
      ok-Settles (metric_at k o) _ m e (
        >>=-Settles (copied F rest o) _ (copied-Settles o rest ps) λ later same. returned-Settles _)

  pub integrity_metrics-Settles :
      (o : Object F.Float) → IsIntegrity F o → Settles (integrity_metrics F o)
  unfolding integrity_metrics
  integrity_metrics-Settles o is =
      let (roundtrip, (identity, (behavior, _))) = is.facts in
      >>=-Settles (copied F integrity_names o) _
        (copied-Settles o integrity_names
          (a_fact roundtrip, (a_fact identity, (a_fact behavior, (a_natural is.violations.0, tt)))))
        λ copies same.
          object_at-Settles IsAny "checkpoint_mutations" o _ is.mutations λ mutations u.
            object_at-Settles IsAny "lineage_invariants" o _ is.lineage
              λ lineage v. returned-Settles _

  pub training_work-Settles {ℓ} :
      {A : Type ℓ} (o : Object F.Float) (next : ℤ → Outcome A)
      → IsCandidate F o
      → ((n : ℤ) → Settles (next n))
      → Settles (training_work F o >>= next)
  unfolding training_work
  training_work-Settles o next is s =
      >>=-Settles (training_work F o) next
        (int_at-Settles "base_training_evaluations" o _ is.work.0 λ a.
          int_at-Settles "adaptation_training_evaluations" o _ is.work.1.0 λ b. returned-Settles _)
        (λ n e. s n)
