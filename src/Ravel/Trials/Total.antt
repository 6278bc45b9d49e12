-- ===== src/Ravel/Trials/Total.antt =====
-- The metrics of a validated trial: what can go wrong in `derive_trial_metrics`.
use mncs_reference_studies.Common.{
  String, true, ◌≡◌, refl, sym, ap, subst, ◌∙◌, List, [], ◌∷◌, string_eq,
}
use mncs_reference_studies.Common.Int.{ℤ, int_eq}
use mncs_reference_studies.Common.Result.{ok, ◌>>=◌, >>=-eq-ok, ok_inj}
use mncs_reference_studies.Common.Sets.{contains}
use mncs_reference_studies.Common.Sorting.{All}
use mncs_reference_studies.Dict.{lookup, keys}
use mncs_reference_studies.Python.Floats.{Floats}
use mncs_reference_studies.Python.Json.{Json, entries}
use mncs_reference_studies.Ravel.Values.{Outcome, Object, found, all_in}
use mncs_reference_studies.Ravel.Values.Checked.{HasNatural, at_name, at_names, all_in-All}
use mncs_reference_studies.Ravel.Arithmetic.Partial.{IsPositiveSafe}
use mncs_reference_studies.Ravel.Values.Settles.{
  Settles, returned-Settles, >>=-Settles, ok-Settles, reject_if-Settles, int_at-Settles,
  lookup-known,
}
use mncs_reference_studies.Ravel.Observations.{replay_counts, topology_counts}
use mncs_reference_studies.Ravel.Metrics.Trial.{
  Views, derive_views, copied, candidate_names, topology_names, replay_names, integrity_metrics,
  candidate_metrics, VariantMetrics, derive_variant, derive_variants, contrast_metrics,
  derive_trial_metrics, as_object,
}
use mncs_reference_studies.Ravel.Trials.{validate_trial}
use mncs_reference_studies.Ravel.Trials.Admitted.{IsVariant, AllObjects}
use mncs_reference_studies.Ravel.Trials.Validated.{
  IsCandidate, IsIntegrity, variant_names, IsCompared, IsTrial, validate_trial-IsTrial,
}
use mncs_reference_studies.Ravel.Trials.Rates.{work_ratio-Settles}
use mncs_reference_studies.Ravel.Trials.Derived.{
  object_at-Settles, eval_at-Settles, plan_at-Settles, derive_views-Settles, HasMetric, a_natural,
  a_fact, copied-Settles, integrity_metrics-Settles, training_work-Settles, view_metrics-Settles,
}

-- The variants that the metrics are compared with.
abbrev pub contrasted : List String
contrasted =
    "no_adaptation_static" ∷ "matched_compute_fixed_topology"
    ∷ "ravel_no_birth_same_replay_iterations" ∷ "ravel_without_retirement_matched_work"
    ∷ "periodic_replay_policy" ∷ "flat_64_expert_complete_scan" ∷ []

module _ (F : Floats) (laws : IsPositiveSafe F) where
  candidate_metrics-Settles :
      (candidate integrity : Object F.Float) (views : Views F)
      → IsCandidate F candidate
      → IsIntegrity F integrity
      → Settles (candidate_metrics F candidate integrity views)
  unfolding candidate_metrics contains
  candidate_metrics-Settles candidate integrity views is facts =
      object_at-Settles F laws (λ r. All (HasNatural r) replay_counts) "replay" candidate _
        is.replay
        λ replay counted.
          object_at-Settles F laws (λ t. All (HasNatural t) topology_counts) "topology" candidate _
            is.topology
            λ topology changed. view_metrics-Settles F laws views _ λ seen.
              >>=-Settles (copied F candidate_names candidate) _
                (copied-Settles F laws candidate candidate_names
                  (a_fact is.completed.0, (a_natural is.experts, (a_natural is.work.1.1.0, tt))))
                λ own e.
                  >>=-Settles (copied F topology_names topology) _
                    (copied-Settles F laws topology topology_names (
                      a_natural (
                          at_name (HasNatural topology) "accepted_births" topology_counts refl
                            changed),
                      (
                        a_natural (
                            at_name (HasNatural topology) "accepted_retirements" topology_counts
                              refl changed),
                        tt,
                      ),
                    ))
                    λ births e'. training_work-Settles F laws candidate _ is λ work.
                      >>=-Settles (copied F replay_names replay) _
                        (copied-Settles F laws replay replay_names (covered replay counted))
                        λ coverage e''.
                          >>=-Settles (integrity_metrics F integrity) _
                            (integrity_metrics-Settles F laws integrity facts)
                            λ copies e3. returned-Settles _
    where
      covered :
          (replay : Object F.Float)
          → All (HasNatural replay) replay_counts
          → All (λ p. HasMetric F laws replay p.1) replay_names
      covered replay (a, (b, (c, (d, (e, (f, (g, rest))))))) = (
        a_natural a,
        (
          a_natural b,
          (a_natural c, (a_natural d, (a_natural e, (a_natural f, (a_natural g, tt))))),
        ),
      )

  derive_variant-Settles : (o : Object F.Float) → IsVariant o → Settles (derive_variant F o)
  unfolding derive_variant
  derive_variant-Settles o is = eval_at-Settles F laws "drift_holdout" o _ is.drift λ drift.
      eval_at-Settles F laws "retention_holdout" o _ is.retention λ retention.
        plan_at-Settles F laws "planning" o _ is.planning λ plan.
          int_at-Settles "training_evaluations" o _ is.work.0 λ work.
            int_at-Settles "expert_count" o _ is.experts λ experts.
              int_at-Settles "checkpoint_size_bytes" o _ is.work.1.0 λ size. returned-Settles _

  derive_variants-Settles :
      (o : Object F.Float) → AllObjects IsVariant o → Settles (derive_variants F o)
  unfolding derive_variants
  derive_variants-Settles [] h = returned-Settles _
  derive_variants-Settles ((k, v) ∷ rest) ((fs, shape, is), later) =
      ok-Settles (as_object v) _ (entries fs) (rw shape refl) (
        >>=-Settles (derive_variant F (entries fs)) _ (derive_variant-Settles (entries fs) is)
          λ m e.
            >>=-Settles (derive_variants F rest) _ (derive_variants-Settles rest later)
              λ ms e'. returned-Settles _)

  -- The derived variants stand under the names of the comparisons.
  derive_variants-keys :
      (o : Object F.Float) (vs : List (String × VariantMetrics F))
      → derive_variants F o ≡ ok vs
      → keys vs ≡ keys o
  unfolding derive_variants keys
  derive_variants-keys [] vs h = ap keys (sym (ok_inj h))
  derive_variants-keys ((k, v) ∷ rest) vs h =
      let (fs, _, h1) = >>=-eq-ok (as_object v) _ h in
      let (m, _, h2) = >>=-eq-ok (derive_variant F fs) _ h1 in
      let (ms, e, h3) = >>=-eq-ok (derive_variants F rest) _ h2 in
      ap keys (sym (ok_inj h3)) ∙ ap (λ ks. k ∷ ks) (derive_variants-keys rest ms e)

  found-Settles {ℓ} :
      {A : Type ℓ} (name : String) (vs : List (String × VariantMetrics F))
      (next : VariantMetrics F → Outcome A)
      → contains name (keys vs) ≡ true
      → ((v : VariantMetrics F) → Settles (next v))
      → Settles (found name (lookup name vs) >>= next)
  found-Settles name vs next known s =
      let (v, e) = lookup-known name vs known in
      ok-Settles (found name (lookup name vs)) next v (rw e refl) (s v)

  contrast_metrics-Settles :
      (views : Views F) (work : ℤ) (topology : Object F.Float)
      (vs : List (String × VariantMetrics F))
      → All (HasNatural topology) topology_counts
      → All (λ name. contains name (keys vs) ≡ true) contrasted
      → Settles (contrast_metrics F views work topology vs)
  unfolding contrast_metrics contains
  contrast_metrics-Settles views work topology vs changed (a, (b, (c, (d, (e, (f, _)))))) =
      found-Settles "no_adaptation_static" vs _ a λ static.
        found-Settles "matched_compute_fixed_topology" vs _ b λ matched.
          found-Settles "ravel_no_birth_same_replay_iterations" vs _ c λ no_birth.
            found-Settles "ravel_without_retirement_matched_work" vs _ d λ no_retirement.
              found-Settles "periodic_replay_policy" vs _ e λ periodic.
                found-Settles "flat_64_expert_complete_scan" vs _ f λ flat.
                  work_ratio-Settles F laws work matched.training_evaluations _ λ training.
                    work_ratio-Settles F laws views.adapted.expert_evaluations
                      flat.drift.expert_evaluations _
                      λ inference.
                        int_at-Settles "objective_after_q20" topology _
                          (at_name (HasNatural topology) "objective_after_q20" topology_counts refl
                            changed)
                          λ after.
                            int_at-Settles "objective_before_q20" topology _
                              (at_name (HasNatural topology) "objective_before_q20" topology_counts
                                refl changed)
                              λ before. returned-Settles _

  derive_trial_metrics-IsTrial :
      (prereg o : Object F.Float) (names : List String)
      → IsTrial F prereg o
      → variant_names F prereg ≡ ok names
      → all_in contrasted names ≡ true
      → Settles (derive_trial_metrics F o)
  unfolding derive_trial_metrics contains
  derive_trial_metrics-IsTrial prereg o names is declared covers =
      object_at-Settles F laws (IsCandidate F) "candidate" o _ is.candidate λ candidate c.
        >>=-Settles (derive_views F candidate) _ (derive_views-Settles F laws candidate c)
          λ views e1.
            object_at-Settles F laws (IsIntegrity F) "integrity" o _ is.integrity λ integrity i.
              >>=-Settles (candidate_metrics F candidate integrity views) _
                (candidate_metrics-Settles candidate integrity views c i)
                λ metrics e2.
                  object_at-Settles F laws (IsCompared F prereg) "comparisons" o _ is.comparisons
                    λ comparisons d.
                      >>=-Settles (derive_variants F comparisons) _
                        (derive_variants-Settles comparisons d.variants)
                        λ variants e3. training_work-Settles F laws candidate _ c λ work.
                          object_at-Settles F laws (λ t. All (HasNatural t) topology_counts)
                            "topology" candidate _ c.topology
                            λ topology t.
                              >>=-Settles (contrast_metrics F views work topology variants) _
                                (contrast_metrics-Settles views work topology variants t (
                                  subst (λ ks. All (λ name. contains name ks ≡ true) contrasted)
                                    (sym (derive_variants-keys comparisons variants e3))
                                    (at_names (λ name. contains name (keys comparisons) ≡ true)
                                      contrasted d.names
                                      (subst (λ ns. all_in contrasted ns ≡ true)
                                        (ok_inj (sym declared ∙ d.declared)) covers)
                                      (all_in-All d.names (keys comparisons) d.covers))))
                                λ contrasts e4. reject_if-Settles _ _ _ (returned-Settles _)

  -- After `validate_trial`, when the preregistration declares the six variants that the metrics
  -- compare with, and floats keep the laws of positive numbers and zero, `derive_trial_metrics`
  -- returns metrics or raises an `EvaluationError` or an `OverflowError`: it ends in no missing key,
  -- no value of the wrong kind, no division by zero and no root of a negative number.
  pub derive_trial_metrics-Settles :
      (trial : Json F.Float) (expected prereg fields : Object F.Float) (names : List String)
      → validate_trial F trial expected prereg ≡ ok fields
      → variant_names F prereg ≡ ok names
      → all_in contrasted names ≡ true
      → Settles (derive_trial_metrics F fields)
  derive_trial_metrics-Settles trial expected prereg fields names h declared covers =
      derive_trial_metrics-IsTrial prereg fields names
        (validate_trial-IsTrial F trial expected prereg fields h).3 declared covers
