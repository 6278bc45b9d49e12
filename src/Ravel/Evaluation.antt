-- ===== src/Ravel/Evaluation.antt =====
-- `evaluate`: all trials of the raw evidence, their gates and comparisons, and the development result.
pub mod Tallies
pub mod Counts
pub mod Comparisons
use mncs_reference_studies.Common.{
  ℕ, ◌+◌, ◌-◌, String, Bool, true, false, ◌&&◌, not, Option, none, some, List, [], ◌∷◌, ◌++◌,
  length, map, ◌==◌, string_eq, nat_eq, if◌then◌else◌,
}
use mncs_reference_studies.Common.Int.{ℤ, pos, ◌-ℤ◌, leb_ℤ}
use mncs_reference_studies.Common.Result.{ok, raise, ◌>>=◌, ◌>>◌}
use mncs_reference_studies.Dict.{lookup, insert, adjust, keys, values}
use mncs_reference_studies.Python.Floats.{Floats}
use mncs_reference_studies.Python.Json.{Json, text, object, array, entries}
use mncs_reference_studies.Python.Equality.{Number}
use mncs_reference_studies.Python.Equality
use mncs_reference_studies.Ravel.Values.{
  Outcome, Object, type_error, evaluation_error, reject_if, found, get, require_object,
  require_exact_keys, validate_hex, as_list, int_at,
}
use mncs_reference_studies.Ravel.Metrics.{EvalMetrics, PlanMetrics}
use mncs_reference_studies.Ravel.Metrics.Trial.{
  Metric, Metrics, truth, whole, real, VariantMetrics, as_object, object_at, derive_variants,
  derive_trial_metrics,
}
use mncs_reference_studies.Ravel.Gates.{
  GateResult, apply_gate, Quality, Relation, pareto_relation, Statistics, Aggregate, aggregate,
}
use mncs_reference_studies.Ravel.Preregistration.{is_text}
use mncs_reference_studies.Ravel.Preregistration.Rules.{validate_preregistration}
use mncs_reference_studies.Ravel.Trials.{validate_trial, or_type_error}
use mncs_reference_studies.Ravel.Evaluation.Comparisons.{
  metric_number, number_at, candidate_quality, variant_quality, minus, paired_delta, Comparison,
  compare_variants,
}

-- SHA-256 on bytes, for the seeds, and `sha256_json`, the digest of a canonical form.
pub record Digests (F : Floats) : Type 0 where
  pub sha256 : List ℕ → List ℕ
  pub sha256_json : Json F.Float → String

module _ (F : Floats) where
  pub record EvaluatedTrial : Type 0 where
    pub trial_id : Json F.Float
    pub seed : Json F.Float
    pub regime : String
    pub metrics : Metrics F
    pub gates : List (GateResult F)
    pub passed : Bool
    pub comparisons : List (String × Comparison F)

  unfoldable pub apply_gates : List (Json F.Float) → Metrics F → Outcome (List (GateResult F))
  apply_gates [] metrics = ok []
  apply_gates (value ∷ rest) metrics = do
    gate ← as_object value
    result ← apply_gate F gate metrics
    later ← apply_gates rest metrics
    ok (result ∷ later)

  -- `all(gate["pass"] for gate in gates)`
  unfoldable pub all_pass : List (GateResult F) → Bool
  all_pass [] = true
  all_pass (g ∷ gs) = g.pass && all_pass gs

  abbrev pub as_text : Json F.Float → Outcome String
  as_text (text s) = ok s
  as_text _ = raise type_error

  abbrev pub list_at : String → Object F.Float → Outcome (List (Json F.Float))
  list_at key fields = get key fields >>= λ value. or_type_error (as_list value)

  -- The gates of a trial: the common ones, and those of its regime.
  unfoldable pub gates_for : Object F.Float → String → Outcome (List (Json F.Float))
  gates_for prereg regime = do
    common ← list_at "common_gates" prereg
    by_regime ← object_at "regime_gates" prereg
    own ← list_at regime by_regime
    ok (common ++ own)

  -- One turn of the loop, up to the counting.
  unfoldable pub evaluate_trial :
      Json F.Float → Json F.Float → Object F.Float → Outcome EvaluatedTrial
  evaluate_trial trial declared prereg = do
    expected ← as_object declared
    fields ← validate_trial F trial expected prereg
    metrics ← derive_trial_metrics F fields
    value ← get "regime" fields
    regime ← as_text value
    trial_id ← get "trial_id" fields
    seed ← get "seed" fields
    listed ← gates_for prereg regime
    gates ← apply_gates listed metrics
    candidate ← candidate_quality F metrics
    comparisons ← object_at "comparisons" fields
    variants ← derive_variants F comparisons
    compared ← compare_variants F candidate variants
    ok (record {
      trial_id = trial_id;
      seed = seed;
      regime = regime;
      metrics = metrics;
      gates = gates;
      passed = all_pass gates;
      comparisons = compared;
    })

  abbrev pub Series : Type 0
  Series = List (String × List (Number F.Float))

  abbrev pub or_empty : Option (List (Number F.Float)) → List (Number F.Float)
  or_empty none = []
  or_empty (some xs) = xs

  -- `metric_series.setdefault(name, []).append(value)` for all metrics that are no Booleans.
  unfoldable pub extend_series : Metrics F → Series → Series
  extend_series [] series = series
  extend_series ((name, truth b) ∷ rest) series = extend_series rest series
  extend_series ((name, m) ∷ rest) series =
      extend_series rest
        (insert name (or_empty (lookup name series) ++ (metric_number m ∷ [])) series)

  -- The counts of the loop.
  pub record Tally : Type 0 where
    pub passing : ℕ
    pub by_regime : List (String × ℕ)
    pub series : Series
    pub evaluated : List EvaluatedTrial

  abbrev pub int_of_bool : Bool → ℕ
  int_of_bool true = 1
  int_of_bool false = 0

  abbrev pub counted : EvaluatedTrial → Tally → ℕ → Tally
  counted e t before = record {
    passing = t.passing + int_of_bool e.passed;
    by_regime = insert e.regime (before + int_of_bool e.passed) t.by_regime;
    series = extend_series e.metrics t.series;
    evaluated = t.evaluated ++ (e ∷ []);
  }

  -- `passing_by_regime[regime] += int(trial_pass)` raises for a regime that it does not have.
  unfoldable pub count_trial : EvaluatedTrial → Tally → Outcome Tally
  count_trial e t = do
    before ← found e.regime (lookup e.regime t.by_regime)
    ok (counted e t before)

  -- The loop over the declared trials, `trials[index]` beside each; the lengths are equal.
  unfoldable pub evaluate_trials :
      List (Json F.Float) → List (Json F.Float) → Object F.Float → Tally → Outcome Tally
  evaluate_trials (trial ∷ trials) (declared ∷ rest) prereg tally = do
    e ← evaluate_trial trial declared prereg
    after ← count_trial e tally
    evaluate_trials trials rest prereg after
  evaluate_trials _ _ prereg tally = ok tally

  unfoldable pub zero_counts : List String → List (String × ℕ)
  zero_counts [] = []
  zero_counts (k ∷ ks) = (k, 0) ∷ zero_counts ks

  -- `all(count >= required for count in counts)`
  unfoldable pub all_reach : List ℕ → ℤ → Bool
  all_reach [] required = true
  all_reach (n ∷ ns) required = leb_ℤ required (pos n) && all_reach ns required

  unfoldable pub aggregate_series : Statistics F → Series → Outcome (List (String × Aggregate F))
  aggregate_series stats [] = ok []
  aggregate_series stats ((name, xs) ∷ rest) = do
    a ← aggregate F stats xs
    later ← aggregate_series stats rest
    ok ((name, a) ∷ later)

  pub record Evidence : Type 0 where
    pub declared : ℕ
    pub passing : ℕ
    pub failing : ℕ
    pub required : ℤ
    pub by_regime : List (String × ℕ)
    pub required_per_regime : ℤ
    pub trials : List EvaluatedTrial
    pub aggregates : List (String × Aggregate F)
    pub development_pass : Bool
    pub formal_mncs_status : String
    pub formal_mncds_status : String
    pub promotion_authorized : Bool

  -- What `evaluate` returns for the counts of its loop.
  unfoldable pub conclude : Statistics F → Object F.Float → Tally → Outcome Evidence
  conclude stats prereg t = do
    rule ← object_at "global_pass_rule" prereg
    required ← int_at "minimum_passing_trials" rule
    required_per_regime ← int_at "minimum_passing_trials_per_regime" rule
    aggregates ← aggregate_series stats t.series
    ok (record {
      declared = length t.evaluated;
      passing = t.passing;
      failing = length t.evaluated - t.passing;
      required = required;
      by_regime = t.by_regime;
      required_per_regime = required_per_regime;
      trials = t.evaluated;
      aggregates = aggregates;
      development_pass =
          leb_ℤ required (pos t.passing) && all_reach (values t.by_regime) required_per_regime;
      formal_mncs_status = "UNKNOWN";
      formal_mncds_status = "UNKNOWN";
      promotion_authorized = false;
    })

  -- `not isinstance(trials, list) or len(trials) != declared` raises.
  abbrev pub raw_trials : Option (List (Json F.Float)) → ℕ → Outcome (List (Json F.Float))
  raw_trials none n = raise (evaluation_error "raw trial count mismatch")
  raw_trials (some xs) n = do reject_if (not (length xs == n)) "raw trial count mismatch"; ok xs

  -- The checks of the raw evidence as a whole.
  unfoldable pub check_root : Digests F → Json F.Float → Json F.Float → Outcome (Object F.Float)
  check_root digests raw preregistration = do
    root ← require_object raw "raw"
    require_exact_keys root
        ("schema" ∷ "preregistration" ∷ "preregistration_sha256" ∷ "trials" ∷ "self_tests_sha256"
          ∷ [])
        "raw"
    schema ← get "schema" root
    reject_if (not (is_text schema "ravel-raw-observations/0.5")) "unsupported aggregate raw schema"
    authority ← get "preregistration" root
    reject_if (not (is_text authority "ravel-0.5-preregistration.json"))
        "raw evidence names unexpected preregistration authority"
    digest ← get "preregistration_sha256" root
    reject_if (not (is_text digest (digests.sha256_json preregistration)))
        "raw evidence preregistration digest mismatch"
    tests ← get "self_tests_sha256" root
    h ← validate_hex tests "raw.self_tests_sha256" 64
    ok root

  -- Its trials, after those checks.
  unfoldable pub check_raw :
      Digests F → Json F.Float → Json F.Float → ℕ → Outcome (List (Json F.Float))
  check_raw digests raw preregistration declared = do
    root ← check_root digests raw preregistration
    value ← get "trials" root
    raw_trials (as_list value) declared

  unfoldable pub evaluate :
      Digests F → Statistics F → Json F.Float → Json F.Float → Outcome Evidence
  evaluate digests stats raw preregistration = do
    prereg ← validate_preregistration F digests.sha256 preregistration
    declared ← list_at "trials" prereg
    trials ← check_raw digests raw preregistration (length declared)
    regimes ← object_at "regime_gates" prereg
    tally ← evaluate_trials trials declared prereg (record {
      passing = 0;
      by_regime = zero_counts (keys regimes);
      series = [];
      evaluated = [];
    })
    conclude stats prereg tally
