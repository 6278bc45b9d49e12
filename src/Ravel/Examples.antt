-- ===== src/Ravel/Examples.antt =====
-- A run of the Ravel evaluator on a small study, with numbers in tenths for the floats, and its
-- theorems at these values.
use mncs_reference_studies.Common.{
  [], ◌<◌, ◌%◌, ◌^◌, arith, ℕ, String, true, ◌≡◌, ◌↔◌, refl, List, ◌∷◌, length, drop,
}
use mncs_reference_studies.Common.Int.{ℤ, pos, ◌+ℤ◌, ◌-ℤ◌, ◌*ℤ◌}
use mncs_reference_studies.Common.Result.{ok}
use mncs_reference_studies.Common.Sets.{contains, to_set, add}
use mncs_reference_studies.Common.Text.{decimal}
use mncs_reference_studies.Common.Sorting.{sort_by, place, All}
use mncs_reference_studies.Dict.{lookup, keys, values, insert}
use mncs_reference_studies.Python.Tenths.{fixed}
use mncs_reference_studies.Python.Json.{Fields, object, entries}
use mncs_reference_studies.Python.Hex.{
  code_points, all_hex, hex_from, big_endian, from_big_endian, encode_utf8,
}
use mncs_reference_studies.Ravel.Values.{
  get, require_object, all_in, require_exact_keys, require_int, require_bool, require_string,
  validate_hex, validate_u64_hex, require_naturals, require_hexes, int_at,
}
use mncs_reference_studies.Ravel.Observations.{
  check_eval, validate_eval, check_bounded, check_plan, validate_plan, validate_replay,
  validate_birth, validate_births, validate_lineages, check_training, validate_topology,
  validate_variant,
}
use mncs_reference_studies.Ravel.Seeds.{
  mix64, encodable, dataset_seeds_from, framed_seed, derive_validation_seed,
}
use mncs_reference_studies.Ravel.Trials.{
  parse_seeds, seeds_agree, texts_of, require_bools, require_equal, check_seeds, check_sizes,
  check_checkpoint, validate_evals, check_candidate, check_facts, check_integrity,
  validate_variants, require_repeated, check_comparisons, validate_trial,
}
use mncs_reference_studies.Ravel.Records.{eval_fields, plan_fields, trial_fields, declared_fields}
use mncs_reference_studies.Ravel.Records.Study.{preregistration_fields, raw_fields}
use mncs_reference_studies.Python.Equality.{json_eq, equal_by}
use mncs_reference_studies.Python.Equality
use mncs_reference_studies.Ravel.Preregistration.{
  require_strings, validate_gates, validate_gate_list, check_freeze, check_derivation,
  require_values, check_datasets, require_constants,
}
use mncs_reference_studies.Ravel.Preregistration.Trials.{
  check_trial, check_trials, any_other, check_regimes,
}
use mncs_reference_studies.Ravel.Preregistration.Rules.{
  all_hashable, among, all_distinct, check_variants, check_regime_gates, check_pass_rule,
  check_disposition, check_dispositions, check_negative_tests, check_formal, check_constants,
  check_study, validate_preregistration,
}
use mncs_reference_studies.Ravel.Preregistration.Validated.{
  HasTrials, validate_preregistration-HasTrials,
}
use mncs_reference_studies.Ravel.Observations.Admitted.{IsEval, validate_eval_iff}
use mncs_reference_studies.Ravel.Observations.Planned.{IsPlan, validate_plan_iff}
use mncs_reference_studies.Ravel.Values.Settles.{Settles}
use mncs_reference_studies.Ravel.Arithmetic.Partial.{IsPositiveSafe}
use mncs_reference_studies.Ravel.Trials.Total.{contrasted, derive_trial_metrics-Settles}
use mncs_reference_studies.Ravel.Trials.Validated.{variant_names}
use mncs_reference_studies.Ravel.Metrics.{
  derive_eval, derive_plan, headroom_improvement, rmse, rmse_or_infinity, rate_or_zero, work_ratio,
}
use mncs_reference_studies.Ravel.Metrics.Trial.{
  metric_at, object_at, all_truthy, derive_views, view_metrics, training_work, copied,
  integrity_metrics, candidate_metrics, derive_variant, derive_variants, contrast_metrics,
  finite_metrics, derive_trial_metrics,
}
use mncs_reference_studies.Ravel.Gates.{
  Quality, candidate_dominates, passes, apply_gate, any_below, pareto_relation, least, greatest,
  middle, aggregate, float_numbers, summarize, Statistics,
}
use mncs_reference_studies.Ravel.Gates.Dominance.{IsBetter, flip, pareto_relation-dominates}
use mncs_reference_studies.Ravel.Evaluation.Comparisons.{
  candidate_quality, variant_quality, paired_delta, compare_variants,
}
use mncs_reference_studies.Ravel.Evaluation.{
  apply_gates, all_pass, gates_for, evaluate_trial, extend_series, count_trial, evaluate_trials,
  zero_counts, all_reach, aggregate_series, Evidence, conclude, check_root, check_raw, evaluate,
  Digests,
}
use mncs_reference_studies.Ravel.Evaluation.Counts.{IsEvaluated, evaluate-IsCounted}
use mncs_reference_studies.Ravel.Seeds.Frames.{
  IsDigest, IsScalar, derive_validation_seed-lt, framed_seed-inj,
}

program : Unit {0}
unfolding ◌+ℤ◌ ◌-ℤ◌ ◌*ℤ◌ decimal contains to_set add sort_by place lookup keys values insert all_hex
    hex_from big_endian from_big_endian encode_utf8 get require_object all_in require_exact_keys
    require_int require_bool require_string validate_hex validate_u64_hex require_naturals
    require_hexes int_at check_eval validate_eval check_bounded check_plan validate_plan
    validate_replay validate_birth validate_births validate_lineages check_training
    validate_topology validate_variant mix64 dataset_seeds_from framed_seed derive_validation_seed
    parse_seeds seeds_agree texts_of require_bools require_equal check_seeds check_sizes
    check_checkpoint validate_evals check_candidate check_facts check_integrity validate_variants
    require_repeated check_comparisons validate_trial json_eq equal_by object_at require_strings
    validate_gates validate_gate_list check_freeze check_derivation require_values check_datasets
    require_constants check_trial check_trials any_other check_regimes all_hashable among
    all_distinct check_variants check_regime_gates check_pass_rule check_disposition
    check_dispositions check_negative_tests check_formal check_constants check_study
    validate_preregistration derive_eval derive_plan headroom_improvement metric_at all_truthy
    derive_views view_metrics training_work copied integrity_metrics candidate_metrics
    derive_variant derive_variants contrast_metrics finite_metrics derive_trial_metrics passes
    apply_gate any_below pareto_relation least greatest middle aggregate float_numbers summarize
    rmse rmse_or_infinity rate_or_zero work_ratio encodable candidate_quality variant_quality
    paired_delta compare_variants apply_gates all_pass gates_for evaluate_trial extend_series
    count_trial evaluate_trials zero_counts all_reach aggregate_series conclude check_root check_raw
    evaluate
program = tt

eval_valid : validate_eval (object (eval_fields 8)) "e" ≡ ok (entries (eval_fields 8))
unfolding program
eval_valid = refl

trial_valid :
    validate_trial fixed
      (object trial_fields)
      (entries declared_fields)
      (entries preregistration_fields)
    ≡ ok (entries trial_fields)
unfolding program
trial_valid = refl

abbrev digests : Digests fixed
digests = record { sha256 = drop 20; sha256_json = λ j. "digest" }

abbrev statistics : Statistics fixed
statistics = record { mean = λ xs. ok (pos 0); deviation = λ xs. ok (pos 0) }

study_valid :
    validate_preregistration fixed (drop 20) (object preregistration_fields)
    ≡ ok (entries preregistration_fields)
unfolding program
study_valid = refl

evaluated :
    (e : Evidence fixed) × (evaluate fixed digests statistics
        (object raw_fields)
        (object preregistration_fields)
      ≡ ok e)
unfolding program
evaluated = (_, refl)

-- The trial passes its gates, and the study its thresholds.
evaluated_pass : (evaluated.0.passing ≡ 1) × (evaluated.0.development_pass ≡ true)
unfolding program evaluated
evaluated_pass = (refl, refl)

evaluate-IsCounted_example :
    IsEvaluated fixed digests (object raw_fields) (object preregistration_fields) evaluated.0
evaluate-IsCounted_example =
    evaluate-IsCounted fixed digests statistics (object raw_fields) (object preregistration_fields)
      evaluated.0 evaluated.1

validate_preregistration-HasTrials_example :
    (fs : Fields ℤ) × (root_seed : ℕ) × (per_regime : ℤ) × (object preregistration_fields
      ≡ object fs)
    × (entries fs ≡ entries preregistration_fields)
    × (check_derivation fixed (entries preregistration_fields) ≡ ok (root_seed, per_regime))
    × HasTrials fixed (drop 20) (entries preregistration_fields) root_seed per_regime
validate_preregistration-HasTrials_example =
    validate_preregistration-HasTrials fixed (drop 20) (object preregistration_fields)
      (entries preregistration_fields) study_valid

abbrev variants : List String
variants = "ravel_0_5_candidate" ∷ contrasted

variants_named : variant_names fixed (entries preregistration_fields) ≡ ok variants
unfolding program
variants_named = refl

variants_cover : all_in contrasted variants ≡ true
unfolding program
variants_cover = refl

fixed-IsPositiveSafe : IsPositiveSafe fixed
unfolding ◌*ℤ◌
fixed-IsPositiveSafe = record {
  above = λ a b h. ground arith;
  zero_below = λ b t h g. ground arith;
  tiny_positive = refl;
  one_positive = refl;
  float_positive = λ n x h e. ground arith;
  ratio_not_below = λ m n x h e. ground arith;
  div_not_below = λ x y h g. ground arith;
}

derive_trial_metrics-Settles_example : Settles (derive_trial_metrics fixed (entries trial_fields))
derive_trial_metrics-Settles_example =
    derive_trial_metrics-Settles fixed fixed-IsPositiveSafe (object trial_fields)
      (entries declared_fields) (entries preregistration_fields) (entries trial_fields) variants
      trial_valid variants_named variants_cover

validate_eval_iff_example :
    (validate_eval (object (eval_fields 8)) "e" ≡ ok (entries (eval_fields 8)))
    ↔ IsEval (entries (eval_fields 8))
validate_eval_iff_example = validate_eval_iff (eval_fields 8) "e"

validate_plan_iff_example :
    (validate_plan (object plan_fields) "p" ≡ ok (entries plan_fields))
    ↔ IsPlan (entries plan_fields)
validate_plan_iff_example = validate_plan_iff plan_fields "p"

-- Equal in everything but the accuracy.
abbrev quality : ℕ → Quality fixed
quality accuracy = record {
  drift_accuracy = Equality.real (pos accuracy);
  retention_accuracy = Equality.real (pos 9);
  planning_exact_state_rate = Equality.real (pos 5);
  planning_belief_set_rate = Equality.real (pos 5);
  reconstruction_rmse = Equality.real (pos 3);
  prediction_rmse = Equality.real (pos 2);
  expert_evaluations = Equality.whole (pos 40);
  training_evaluations = Equality.whole (pos 100);
  expert_count = Equality.whole (pos 4);
  checkpoint_size_bytes = Equality.whole (pos 900);
}

quality_dominates : pareto_relation fixed (quality 8) (quality 6) ≡ candidate_dominates
unfolding program
quality_dominates = refl

pareto_relation-dominates_example :
    ((pareto_relation fixed (quality 8) (quality 6) ≡ candidate_dominates)
      ↔ (IsBetter fixed (quality 8) (quality 6) × ¬ (IsBetter fixed (quality 6) (quality 8))))
    × (pareto_relation fixed (quality 6) (quality 8)
        ≡ flip fixed (pareto_relation fixed (quality 8) (quality 6)))
pareto_relation-dominates_example = pareto_relation-dominates fixed (quality 8) (quality 6)

-- A digest of 32 bytes, for the laws that ask for one.
abbrev stand_in : List ℕ → List ℕ
stand_in bs =
    length bs % 256
    ∷ 1
    ∷ 2
    ∷ 3
    ∷ 4
    ∷ 5
    ∷ 6
    ∷ 7
    ∷ 8
    ∷ 9
    ∷ 10
    ∷ 11
    ∷ 12
    ∷ 13
    ∷ 14
    ∷ 15
    ∷ 16
    ∷ 17
    ∷ 18
    ∷ 19
    ∷ 20
    ∷ 21
    ∷ 22
    ∷ 23
    ∷ 24
    ∷ 25
    ∷ 26
    ∷ 27
    ∷ 28
    ∷ 29
    ∷ 30
    ∷ 31
    ∷ []

stand_in-IsDigest : IsDigest stand_in
stand_in-IsDigest bs = (grind arith, refl)

derive_validation_seed-lt_example :
    (((1 < 2 ^ 64) × (3 < 2 ^ 32) × All IsScalar (code_points "base"))
      ↔ ((seed : ℕ) × (derive_validation_seed stand_in 1 "base" 3 ≡ ok seed)))
    × ((seed : ℕ) → derive_validation_seed stand_in 1 "base" 3 ≡ ok seed → seed < 2 ^ 64)
derive_validation_seed-lt_example = derive_validation_seed-lt stand_in 1 3 "base" stand_in-IsDigest

abbrev root_seed : ℕ
root_seed = 1

abbrev third : ℕ
third = 3

framed_seed-inj_example :
    (root_seed ≡ root_seed)
    × (encode_utf8 (code_points "base") ≡ encode_utf8 (code_points "base"))
    × (third ≡ third)
framed_seed-inj_example =
    framed_seed-inj root_seed root_seed third third "base" "base" (omega arith) (omega arith)
      (omega arith) (omega arith) refl
