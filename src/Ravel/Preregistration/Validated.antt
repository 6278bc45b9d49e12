-- ===== src/Ravel/Preregistration/Validated.antt =====
-- What `validate_preregistration` establishes of the preregistration that it returns.
use mncs_reference_studies.Common.{
  string_eq, ℕ, String, true, not, ◌≡◌, sym, ap, subst, ◌∙◌, Option, none, some, List, [], ◌∷◌, map,
}
use mncs_reference_studies.Common.Int.{ℤ, pos}
use mncs_reference_studies.Common.Result.{ok, >>=-eq-ok, ok_inj}
use mncs_reference_studies.Common.Sets.{contains, NoRepeats}
use mncs_reference_studies.Dict.{keys}
use mncs_reference_studies.Python.Floats.{Floats}
use mncs_reference_studies.Python.Json.{Json, Fields, object, entries}
use mncs_reference_studies.Ravel.Values.{
  Object, reject_if, get, require_object, require_exact_keys, require_string, as_list,
}
use mncs_reference_studies.Ravel.Values.Checked.{require_object-ok}
use mncs_reference_studies.Ravel.Metrics.Trial.{as_object}
use mncs_reference_studies.Ravel.Preregistration.{
  is_text, filled_list, check_freeze, check_derivation, check_datasets,
}
use mncs_reference_studies.Ravel.Preregistration.Trials.{nothing_seen, check_trials, check_regimes}
use mncs_reference_studies.Ravel.Preregistration.Declared.{
  Declared, id_of, seed_of, count_of, AllSeeds, AllDeclared,
}
use mncs_reference_studies.Ravel.Preregistration.Frozen.{check_trials-IsFrozen, check_regimes-count}
use mncs_reference_studies.Ravel.Preregistration.Rules.{
  preregistration_keys, check_study, check_constants, check_negative_tests, check_formal,
  validate_preregistration,
}

filled_list-ok :
    (N : Type 0) (o : Option (List (Json N))) (message : String) (xs : List (Json N))
    → filled_list o message ≡ ok xs
    → o ≡ some xs
filled_list-ok N none message xs h = absurd (cc)
filled_list-ok N (some []) message xs h = absurd (cc)
filled_list-ok N (some (y ∷ ys)) message xs h = ap some (ok_inj h)

module _ (F : Floats) (sha256 : List ℕ → List ℕ) where
  -- The trials of a dictionary, for a root seed and a number of trials of each regime.
  pub record HasTrials (o : Object F.Float) (root_seed : ℕ) (per_regime : ℤ) : Type 0 where
    pub value : Json F.Float
    pub listed : get "trials" o ≡ ok value
    pub trials : List (Json F.Float)
    pub is_list : as_list value ≡ some trials
    pub ds : List Declared
    pub declared : AllDeclared trials ds
    pub seeded : AllSeeds sha256 root_seed (λ r. 0) ds
    pub identities : NoRepeats (map id_of ds)
    pub seeds : NoRepeats (map seed_of ds)
    pub gates : Json F.Float
    pub regime_gates : get "regime_gates" o ≡ ok gates
    pub regimes : Object F.Float
    pub is_regimes : as_object gates ≡ ok regimes
    pub counts : (r : String) → contains r (keys regimes) ≡ true → pos (count_of r ds) ≡ per_regime

  check_study-HasTrials :
      (o : Object F.Float) (root_seed : ℕ) (k : ℤ)
      → check_study F sha256 o root_seed k ≡ ok tt
      → HasTrials o root_seed k
  unfolding check_study
  check_study-HasTrials o root_seed k h =
      let message : String = "preregistration.trials must be non-empty list" in
      let (value, e1, h1) = >>=-eq-ok (get "trials" o) _ h in
      let (trials, e2, h2) = >>=-eq-ok (filled_list (as_list value) message) _ h1 in
      let (seen, e3, h3) = >>=-eq-ok (check_trials sha256 root_seed 0 trials nothing_seen) _ h2 in
      let (gates, e4, h4) = >>=-eq-ok (get "regime_gates" o) _ h3 in
      let (regimes, e5, h5) = >>=-eq-ok (as_object gates) _ h4 in
      let (_, e6, _) = >>=-eq-ok (check_regimes seen (keys regimes) k) _ h5 in
      let frozen = check_trials-IsFrozen sha256 root_seed trials seen e3 in
      record {
        value = value;
        listed = e1;
        trials = trials;
        is_list = filled_list-ok F.Float (as_list value) message trials e2;
        ds = frozen.ds;
        declared = frozen.declared;
        seeded = frozen.seeded;
        identities = frozen.identities;
        seeds = frozen.seeds;
        gates = gates;
        regime_gates = e4;
        regimes = regimes;
        is_regimes = e5;
        counts = λ r known.
            ap pos (sym (frozen.counted r)) ∙ check_regimes-count seen (keys regimes) k r e6 known;
      }

  -- A preregistration that `validate_preregistration` returns is the dictionary that it was given.
  -- Its derivation has a root seed and a number of trials of each regime. No two of its trials have
  -- the same identity or the same seed; the seed of each is the one derived from the root seed and
  -- its regime, at the number of the earlier trials of that regime; and each regime that has gates
  -- has that number of trials.
  pub validate_preregistration-HasTrials :
      (value : Json F.Float) (o : Object F.Float)
      → validate_preregistration F sha256 value ≡ ok o
      → (fs : Fields F.Float) × (root_seed : ℕ) × (per_regime : ℤ) × (value ≡ object fs)
        × (entries fs ≡ o)
        × (check_derivation F o ≡ ok (root_seed, per_regime))
        × HasTrials o root_seed per_regime
  unfolding validate_preregistration
  validate_preregistration-HasTrials value o h =
      let (p, e1, h1) = >>=-eq-ok (require_object value "preregistration") _ h in
      let (_, _, h2) =
        >>=-eq-ok (require_exact_keys p preregistration_keys "preregistration") _ h1 in
      let (schema, _, h3) = >>=-eq-ok (get "schema" p) _ h2 in
      let (_, _, h4) =
        >>=-eq-ok
          (reject_if (not (is_text schema "ravel-preregistration/0.5"))
            "unsupported preregistration schema")
          _ h3 in
      let (study, _, h5) = >>=-eq-ok (get "study_id" p) _ h4 in
      let (_, _, h6) = >>=-eq-ok (require_string study "preregistration.study_id") _ h5 in
      let (candidate, _, h7) = >>=-eq-ok (get "candidate_id" p) _ h6 in
      let (_, _, h8) = >>=-eq-ok (require_string candidate "preregistration.candidate_id") _ h7 in
      let (_, _, h9) = >>=-eq-ok (check_freeze F p) _ h8 in
      let (derivation, e10, h10) = >>=-eq-ok (check_derivation F p) _ h9 in
      let (_, _, h11) = >>=-eq-ok (check_datasets F p) _ h10 in
      let (_, _, h12) = >>=-eq-ok (check_constants F p) _ h11 in
      let (_, e13, h13) = >>=-eq-ok (check_study F sha256 p derivation.0 derivation.1) _ h12 in
      let (_, _, h14) = >>=-eq-ok (check_negative_tests F p) _ h13 in
      let (_, _, h15) = >>=-eq-ok (check_formal F p) _ h14 in
      let (fs, shape, same) = require_object-ok value "preregistration" p e1 in
      let final = ok_inj h15 in
      (
        fs,
        derivation.0,
        derivation.1,
        shape,
        same ∙ final,
        subst (λ q. check_derivation F q ≡ ok derivation) final e10,
        subst (λ q. HasTrials q derivation.0 derivation.1) final
            (check_study-HasTrials p derivation.0 derivation.1 e13),
      )
