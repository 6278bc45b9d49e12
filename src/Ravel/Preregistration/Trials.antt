-- ===== src/Ravel/Preregistration/Trials.antt =====
-- The trials of a preregistration: their identities, their derived seeds and their regimes.
use mncs_reference_studies.Common.{
  ℕ, ◌+◌, String, Bool, false, ◌||◌, not, Option, none, some, List, [], ◌∷◌, ◌==◌, string_eq,
  nat_eq,
}
use mncs_reference_studies.Common.Int.{ℤ, pos, int_eq}
use mncs_reference_studies.Common.Result.{ok, ◌>>=◌, ◌>>◌}
use mncs_reference_studies.Common.Sets.{contains}
use mncs_reference_studies.Dict.{lookup, keys, insert, values}
use mncs_reference_studies.Python.Json.{Json}
use mncs_reference_studies.Ravel.Values.{
  Outcome, reject_if, get, require_object, require_exact_keys, require_string, validate_u64_hex,
  same_set,
}
use mncs_reference_studies.Ravel.Observations.{indexed}
use mncs_reference_studies.Ravel.Seeds.{derive_validation_seed}

-- What the loop has seen: the identities, the seeds, and how many trials of each regime.
pub record Seen : Type 0 where
  pub identities : List String
  pub seeds : List String
  pub regimes : List (String × ℕ)

abbrev pub nothing_seen : Seen
nothing_seen = record { identities = []; seeds = []; regimes = [] }

abbrev pub count_or_zero : Option ℕ → ℕ
count_or_zero none = 0
count_or_zero (some n) = n

-- `regimes.get(regime, 0)`
abbrev pub regime_count : String → Seen → ℕ
regime_count regime seen = count_or_zero (lookup regime seen.regimes)

abbrev pub with_trial : String → String → String → Seen → Seen
with_trial trial_id regime seed seen = record {
  identities = trial_id ∷ seen.identities;
  seeds = seed ∷ seen.seeds;
  regimes = insert regime (regime_count regime seen + 1) seen.regimes;
}

module _ {N : Type 0} (sha256 : List ℕ → List ℕ) (root_seed : ℕ) where
  -- The body of the loop over the trials.
  unfoldable pub check_trial : ℕ → Json N → Seen → Outcome Seen
  check_trial index value seen = do
    trial ← require_object value (indexed "preregistration.trials" index)
    require_exact_keys trial ("trial_id" ∷ "regime" ∷ "seed" ∷ [])
        (indexed "preregistration.trials" index)
    identity ← get "trial_id" trial
    trial_id ← require_string identity (indexed "trials" index)
    declared ← get "regime" trial
    regime ← require_string declared (indexed "trials" index)
    given ← get "seed" trial
    seed ← require_string given (indexed "trials" index)
    seed_value ← validate_u64_hex given (indexed "trials" index)
    derived_seed ← derive_validation_seed sha256 root_seed regime (regime_count regime seen)
    reject_if (not (seed_value == derived_seed)) "seed disagrees with frozen derivation"
    reject_if (contains trial_id seen.identities || contains seed seen.seeds)
        "duplicate trial id or seed"
    ok (with_trial trial_id regime seed seen)

  unfoldable pub check_trials : ℕ → List (Json N) → Seen → Outcome Seen
  check_trials index [] seen = ok seen
  check_trials index (value ∷ rest) seen = do
    after ← check_trial index value seen
    check_trials (index + 1) rest after

-- `any(count != expected for count in regimes.values())`
unfoldable pub any_other : List ℕ → ℤ → Bool
any_other [] expected = false
any_other (n ∷ ns) expected = not (pos n == expected) || any_other ns expected

-- The checks after the loop, against the names of the regimes that have gates.
unfoldable pub check_regimes : Seen → List String → ℤ → Outcome (Unit {0})
check_regimes seen declared expected_per_regime = do
  reject_if (not (same_set (keys seen.regimes) declared))
      "trial regimes do not match regime gate authority"
  reject_if (any_other (values seen.regimes) expected_per_regime)
      "unexpected validation seed count per regime"
