-- ===== src/Ravel/Preregistration/Frozen.antt =====
-- The trials that a validated preregistration declares.
use mncs_reference_studies.Common.{
  ℕ, ◌+◌, String, Bool, true, false, ◌&&◌, not, ◌≡◌, refl, sym, ap, subst, ◌∙◌, inl, inr, List, [],
  ◌∷◌, map, arith, ◌==◌, nat_eq, string_eq, Bool-cases, if◌then◌else◌,
}
use mncs_reference_studies.Common.Result.{ok, >>=-eq-ok, ok_inj}
use mncs_reference_studies.Common.Sets.{contains, NoRepeats}
use mncs_reference_studies.Common.Int.{ℤ, pos, int_eq}
use mncs_reference_studies.Dict.{lookup, keys, values, lookup-insert}
use mncs_reference_studies.Python.Json.{Json}
use mncs_reference_studies.Ravel.Values.{reject_if, all_in, same_set}
use mncs_reference_studies.Ravel.Values.Checked.{reject_if-ok, at_name, all_in-All}
use mncs_reference_studies.Ravel.Preregistration.Trials.{
  Seen, nothing_seen, count_or_zero, regime_count, with_trial, check_trial, check_trials, any_other,
  check_regimes,
}
use mncs_reference_studies.Ravel.Preregistration.Declared.{
  Declared, id_of, seed_of, count_of, FreshFrom, IsSeed, AllSeeds, AllDeclared, check_trial-Step,
}

FreshFrom-contains :
    (earlier xs : List String) (y : String)
    → FreshFrom earlier xs
    → contains y earlier ≡ true
    → contains y xs ≡ false
unfolding contains
FreshFrom-contains earlier [] y f h = refl
FreshFrom-contains earlier (x ∷ xs) y f h =
    ground (arith, f.0, string_eq.beq_iff x y, FreshFrom-contains (x ∷ earlier) xs y f.1)

FreshFrom-NoRepeats : (earlier xs : List String) → FreshFrom earlier xs → NoRepeats xs
unfolding contains
FreshFrom-NoRepeats earlier [] f = tt
FreshFrom-NoRepeats earlier (x ∷ xs) f = (
  FreshFrom-contains (x ∷ earlier) xs x f.1 (ground (arith, string_eq.beq_iff x x)),
  FreshFrom-NoRepeats (x ∷ earlier) xs f.1,
)

-- The loop has counted the trials of each regime.
abbrev pub IsCount : Seen → (String → ℕ) → Type 0
IsCount seen earlier = (r : String) → regime_count r seen ≡ earlier r

abbrev plus_one : Declared → (String → ℕ) → String → ℕ
plus_one d earlier r = earlier r + (if d.regime == r then 1 else 0)

with_trial-IsCount :
    (d : Declared) (seen : Seen) (earlier : String → ℕ)
    → IsCount seen earlier
    → IsCount (with_trial d.trial_id d.regime d.seed seen) (plus_one d earlier)
with_trial-IsCount d seen earlier v r = elim (Bool-cases (d.regime == r)) [
  | inl same ↦
      let here = (string_eq.beq_iff d.regime r).0 same in
      rw (lookup-insert d.regime r (regime_count d.regime seen + 1) seen.regimes, same)
        (ap (λ k. regime_count k seen + 1) here ∙ ap (λ n. n + 1) (v r))
  | inr other ↦
      rw (lookup-insert d.regime r (regime_count d.regime seen + 1) seen.regimes, other)
        (omega (arith, v r))
]

module _ {N : Type 0} (sha256 : List ℕ → List ℕ) (root_seed : ℕ) where
  -- What the loop has let pass.
  record Passed (seen after : Seen) (earlier : String → ℕ) (vs : List (Json N)) : Type 0 where
    ds : List Declared
    declared : AllDeclared vs ds
    seeded : AllSeeds sha256 root_seed earlier ds
    new_ids : FreshFrom seen.identities (map id_of ds)
    new_seeds : FreshFrom seen.seeds (map seed_of ds)
    counted : IsCount after (λ r. earlier r + count_of r ds)

  check_trials-Passed :
      (index : ℕ) (vs : List (Json N)) (seen after : Seen) (earlier : String → ℕ)
      → IsCount seen earlier
      → check_trials sha256 root_seed index vs seen ≡ ok after
      → Passed seen after earlier vs
  unfolding check_trials
  check_trials-Passed index [] seen after earlier v h = record {
    ds = [];
    declared = tt;
    seeded = tt;
    new_ids = tt;
    new_seeds = tt;
    counted = λ r. omega (arith, v r, ap (regime_count r) (ok_inj h));
  }
  check_trials-Passed index (value ∷ vs) seen after earlier v h =
      let (next, e, h') = >>=-eq-ok (check_trial sha256 root_seed index value seen) _ h in
      let s = check_trial-Step sha256 root_seed index value seen next e in
      let counted =
        subst (λ u. IsCount u (plus_one s.d earlier)) s.result
          (with_trial-IsCount s.d seen earlier v) in
      let rest = check_trials-Passed (index + 1) vs next after (plus_one s.d earlier) counted h' in
      record {
        ds = s.d ∷ rest.ds;
        declared = (s.declared, rest.declared);
        seeded = (subst (IsSeed sha256 root_seed s.d) (v s.d.regime) s.seeded, rest.seeded);
        new_ids = (
          s.new_id,
          subst (λ (u : Seen). FreshFrom u.identities (map id_of rest.ds)) (sym s.result)
              rest.new_ids,
        );
        new_seeds = (
          s.new_seed,
          subst (λ (u : Seen). FreshFrom u.seeds (map seed_of rest.ds)) (sym s.result)
              rest.new_seeds,
        );
        counted = λ r. omega (arith, rest.counted r);
      }

  -- The declared trials of a list of values: no identity and no seed stands twice, each seed is the
  -- derived one, and the loop has counted the trials of each regime.
  pub record IsFrozen (vs : List (Json N)) (after : Seen) : Type 0 where
    pub ds : List Declared
    pub declared : AllDeclared vs ds
    pub seeded : AllSeeds sha256 root_seed (λ r. 0) ds
    pub identities : NoRepeats (map id_of ds)
    pub seeds : NoRepeats (map seed_of ds)
    pub counted : IsCount after (λ r. count_of r ds)

  pub check_trials-IsFrozen :
      (vs : List (Json N)) (after : Seen)
      → check_trials sha256 root_seed 0 vs nothing_seen ≡ ok after
      → IsFrozen vs after
  unfolding lookup
  check_trials-IsFrozen vs after h =
      let p = check_trials-Passed 0 vs nothing_seen after (λ r. 0) (λ r. refl) h in
      record {
        ds = p.ds;
        declared = p.declared;
        seeded = p.seeded;
        identities = FreshFrom-NoRepeats [] (map id_of p.ds) p.new_ids;
        seeds = FreshFrom-NoRepeats [] (map seed_of p.ds) p.new_seeds;
        counted = λ r. omega (arith, p.counted r);
      }

-- After `check_regimes`, every regime that has gates has the expected number of trials.
lookup-known :
    (r : String) (counts : List (String × ℕ)) (k : ℤ)
    → contains r (keys counts) ≡ true
    → any_other (values counts) k ≡ false
    → pos (count_or_zero (lookup r counts)) ≡ k
unfolding contains keys any_other values lookup
lookup-known r [] k known h = absurd (cc)
lookup-known r ((j, n) ∷ rest) k known h =
    ground (arith, int_eq.beq_iff (pos n) k, lookup-known r rest k)

pub check_regimes-count :
    (seen : Seen) (names : List String) (k : ℤ) (r : String)
    → check_regimes seen names k ≡ ok tt
    → contains r names ≡ true
    → pos (regime_count r seen) ≡ k
unfolding check_regimes
check_regimes-count seen names k r h known =
    let sets = not (same_set (keys seen.regimes) names) in
    let message : String = "trial regimes do not match regime gate authority" in
    let (_, e, h') = >>=-eq-ok (reject_if sets message) _ h in
    let matching = (reject_if-ok sets message).0 e in
    lookup-known r seen.regimes k
      (at_name (λ name. contains name (keys seen.regimes) ≡ true) r names known
        (all_in-All names (keys seen.regimes) (both (all_in (keys seen.regimes) names) _ matching)))
      ((reject_if-ok (any_other (values seen.regimes) k)
          "unexpected validation seed count per regime").0
        h')
  where
    both : (a b : Bool) → not (a && b) ≡ false → b ≡ true
    both a b e = ground arith
