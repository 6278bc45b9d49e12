-- ===== src/Ravel/Evaluation/Counts.antt =====
-- The counts of `evaluate` against the trials that they count.
use mncs_reference_studies.Common.{
  ℕ, ◌+◌, ◌≤◌, String, true, false, ◌&&◌, ◌≡◌, ◌↔◌, refl, sym, subst, ap, ◌∙◌, Option, none, some,
  List, [], ◌∷◌, length, arith, string_eq,
}
use mncs_reference_studies.Common.Int.{ℤ, pos, leb_ℤ, ◌≤ℤ◌}
use mncs_reference_studies.Common.Result.{ok, >>=-eq-ok, ok_inj}
use mncs_reference_studies.Common.Sorting.{All}
use mncs_reference_studies.Ravel.Preregistration.Rules.{validate_preregistration}
use mncs_reference_studies.Dict.{lookup, keys, values}
use mncs_reference_studies.Python.Floats.{Floats}
use mncs_reference_studies.Python.Json.{Json}
use mncs_reference_studies.Ravel.Values.{Object, get, int_at, as_list}
use mncs_reference_studies.Ravel.Metrics.Trial.{object_at}
use mncs_reference_studies.Ravel.Gates.{Statistics}
use mncs_reference_studies.Ravel.Evaluation.{
  EvaluatedTrial, Tally, counted, evaluate_trials, all_reach, raw_trials, check_root, check_raw,
  Digests, list_at, evaluate, aggregate_series, Evidence, conclude,
}
use mncs_reference_studies.Ravel.Evaluation.Tallies.{
  passed_in, passed_of, IsTally, AllEvaluated, evaluated-length, evaluate_trials-IsTally, start,
  start-IsTally,
}

module _ (F : Floats) where
  raw_trials-length :
      (o : Option (List (Json F.Float))) (n : ℕ) (xs : List (Json F.Float))
      → raw_trials F o n ≡ ok xs
      → length xs ≡ n
  raw_trials-length none n xs h = absurd (cc)
  raw_trials-length (some ys) n xs h = ground arith

  check_raw-length :
      (digests : Digests F) (raw preregistration : Json F.Float) (n : ℕ) (xs : List (Json F.Float))
      → check_raw F digests raw preregistration n ≡ ok xs
      → length xs ≡ n
  unfolding check_raw
  check_raw-length digests raw preregistration n xs h =
      let (root, _, h1) = >>=-eq-ok (check_root F digests raw preregistration) _ h in
      let (value, _, h2) = >>=-eq-ok (get "trials" root) _ h1 in
      raw_trials-length (as_list value) n xs h2

  -- The thresholds that a preregistration sets.
  pub record HasThresholds (prereg : Object F.Float) (e : Evidence F) : Type 0 where
    pub rule : Object F.Float
    pub is_rule : object_at "global_pass_rule" prereg ≡ ok rule
    pub in_total : int_at "minimum_passing_trials" rule ≡ ok e.required
    pub in_each : int_at "minimum_passing_trials_per_regime" rule ≡ ok e.required_per_regime

  -- What the evidence says of the trials in it, and of the preregistration.
  pub record IsCounted (prereg : Object F.Float) (declared : ℕ) (e : Evidence F) : Type 0 where
    pub all_declared : (e.declared ≡ declared) × (length e.trials ≡ declared)
    pub thresholds : HasThresholds prereg e
    pub passing : e.passing ≡ passed_in F e.trials
    pub split : e.passing + e.failing ≡ e.declared
    pub by_regime :
        (r : String) (n : ℕ) → lookup r e.by_regime ≡ some n → n ≡ passed_of F r e.trials
    pub decided : (e.development_pass ≡ true) ↔ (
        (e.required ≤ℤ pos e.passing)
        × All (λ n. e.required_per_regime ≤ℤ pos n) (values e.by_regime))
    pub not_promoted :
        (e.formal_mncs_status ≡ "UNKNOWN")
        × (e.formal_mncds_status ≡ "UNKNOWN")
        × (e.promotion_authorized ≡ false)

  passed_in-le : (es : List (EvaluatedTrial F)) → passed_in F es ≤ length es
  passed_in-le [] = omega arith
  passed_in-le (e ∷ es) = ground (arith, passed_in-le es)

  all_reach_iff : (ns : List ℕ) (k : ℤ) → (all_reach F ns k ≡ true) ↔ All (λ n. k ≤ℤ pos n) ns
  unfolding all_reach
  all_reach_iff [] k = (λ h. tt, λ h. refl)
  all_reach_iff (n ∷ ns) k = ground (arith, all_reach_iff ns k)

  decided_iff :
      (required per_regime : ℤ) (n : ℕ) (counts : List ℕ)
      → ((leb_ℤ required (pos n) && all_reach F counts per_regime) ≡ true)
        ↔ ((required ≤ℤ pos n) × All (λ m. per_regime ≤ℤ pos m) counts)
  decided_iff required per_regime n counts = ground (arith, all_reach_iff counts per_regime)

  conclude-IsCounted :
      (stats : Statistics F) (prereg : Object F.Float) (t : Tally F) (e : Evidence F) (n : ℕ)
      → IsTally F t
      → length t.evaluated ≡ n
      → conclude F stats prereg t ≡ ok e
      → IsCounted prereg n e × (e.trials ≡ t.evaluated)
  unfolding conclude
  conclude-IsCounted stats prereg t e n v all h =
      let (rule, r1, h1) = >>=-eq-ok (object_at "global_pass_rule" prereg) _ h in
      let (required, r2, h2) = >>=-eq-ok (int_at "minimum_passing_trials" rule) _ h1 in
      let (per, r3, h3) = >>=-eq-ok (int_at "minimum_passing_trials_per_regime" rule) _ h2 in
      let (stats', _, h4) = >>=-eq-ok (aggregate_series F stats t.series) _ h3 in
      subst (λ (e : Evidence F). IsCounted prereg n e × (e.trials ≡ t.evaluated)) (ok_inj h4)
        (
          record {
            all_declared = (all, all);
            thresholds = record { rule = rule; is_rule = r1; in_total = r2; in_each = r3 };
            passing = v.total;
            split = omega (arith, v.total, passed_in-le t.evaluated);
            by_regime = v.by_regime;
            decided = decided_iff required per t.passing (values t.by_regime);
            not_promoted = (refl, refl, refl);
          },
          refl,
        )

  -- The raw evidence and the preregistration that evidence comes from.
  pub record IsEvaluated (digests : Digests F) (raw preregistration : Json F.Float) (e : Evidence F)
      : Type 0 where
    pub prereg : Object F.Float
    pub declared : List (Json F.Float)
    pub trials : List (Json F.Float)
    pub validated : validate_preregistration F digests.sha256 preregistration ≡ ok prereg
    pub declares : list_at F "trials" prereg ≡ ok declared
    pub checked : check_raw F digests raw preregistration (length declared) ≡ ok trials
    pub each : AllEvaluated F prereg trials declared e.trials
    pub counted : IsCounted prereg (length declared) e

  -- When `evaluate` returns, the preregistration it was given is valid and the raw evidence has
  -- passed its checks; the evidence has the trials of the raw evidence in order, each evaluated
  -- against the trial declared in its place; its counts of passing and failing trials, in total and
  -- of each regime, are those of these trials; its two thresholds are those of the global pass rule
  -- of the preregistration, and it passes just when both are reached; and its formal status is
  -- UNKNOWN, with no promotion.
  pub evaluate-IsCounted :
      (digests : Digests F) (stats : Statistics F) (raw preregistration : Json F.Float)
      (e : Evidence F)
      → evaluate F digests stats raw preregistration ≡ ok e
      → IsEvaluated digests raw preregistration e
  unfolding evaluate
  evaluate-IsCounted digests stats raw preregistration e h =
      let (prereg, e1, h1) =
        >>=-eq-ok (validate_preregistration F digests.sha256 preregistration) _ h in
      let (declared, e2, h2) = >>=-eq-ok (list_at F "trials" prereg) _ h1 in
      let (trials, e3, h3) =
        >>=-eq-ok (check_raw F digests raw preregistration (length declared)) _ h2 in
      let (regimes, _, h4) = >>=-eq-ok (object_at "regime_gates" prereg) _ h3 in
      let (t, e5, h5) =
        >>=-eq-ok (evaluate_trials F trials declared prereg (start F (keys regimes))) _ h4 in
      let run =
        evaluate_trials-IsTally F trials declared prereg (start F (keys regimes)) t
          (check_raw-length digests raw preregistration (length declared) trials e3)
          (start-IsTally F (keys regimes)) e5 in
      let all =
        ap length run.after ∙ evaluated-length F prereg trials declared run.es run.evaluated in
      let (counted, shown) =
        conclude-IsCounted stats prereg t e (length declared) run.tallied all h5 in
      record {
        prereg = prereg;
        declared = declared;
        trials = trials;
        validated = e1;
        declares = e2;
        checked = e3;
        each =
            subst (AllEvaluated F prereg trials declared) (sym (shown ∙ run.after)) run.evaluated;
        counted = counted;
      }
