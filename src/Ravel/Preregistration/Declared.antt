-- ===== src/Ravel/Preregistration/Declared.antt =====
-- A trial of a preregistration, and what `validate_preregistration` requires of it.
use mncs_reference_studies.Common.{
  ℕ, ◌+◌, String, Bool, true, false, ◌||◌, not, ◌≡◌, sym, ap, subst, ◌∙◌, some, List, [], ◌∷◌,
  arith, ◌==◌, nat_eq, string_eq, drop, if◌then◌else◌,
}
use mncs_reference_studies.Common.Int.{int_eq}
use mncs_reference_studies.Common.Result.{ok, >>=-eq-ok, ok_inj}
use mncs_reference_studies.Common.Sets.{contains}
use mncs_reference_studies.Dict.{lookup}
use mncs_reference_studies.Python.Json.{Json, Fields, text, object, entries}
use mncs_reference_studies.Python.Hex.{code_points, hex_from}
use mncs_reference_studies.Ravel.Values.{
  Object, reject_if, get, require_object, require_exact_keys, require_string, validate_u64_hex,
}
use mncs_reference_studies.Ravel.Values.Checked.{reject_if-ok, require_object-ok, get-ok}
use mncs_reference_studies.Ravel.Observations.{indexed}
use mncs_reference_studies.Ravel.Seeds.{derive_validation_seed}
use mncs_reference_studies.Ravel.Preregistration.Trials.{
  Seen, regime_count, with_trial, check_trial,
}

-- A trial as it is declared.
pub record Declared : Type 0 where
  pub trial_id : String
  pub regime : String
  pub seed : String

abbrev pub id_of : Declared → String
id_of d = d.trial_id

abbrev pub seed_of : Declared → String
seed_of d = d.seed

-- How many trials are of a regime.
abbrev pub count_of : String → List Declared → ℕ
count_of r [] = 0
count_of r (d ∷ ds) = (if d.regime == r then 1 else 0) + count_of r ds

-- None of the second list stands in the first one, nor earlier in its own.
abbrev pub FreshFrom : List String → List String → Type 0
FreshFrom earlier [] = Unit
FreshFrom earlier (x ∷ xs) = (contains x earlier ≡ false) × FreshFrom (x ∷ earlier) xs

-- The number that a seed writes after its `0x`.
abbrev pub seed_value : String → ℕ
seed_value s = hex_from 0 (drop 2 (code_points s))

module _ (sha256 : List ℕ → List ℕ) (root_seed : ℕ) where
  -- The seed of a trial is the one derived for its regime at an index.
  abbrev pub IsSeed : Declared → ℕ → Type 0
  IsSeed d index = derive_validation_seed sha256 root_seed d.regime index ≡ ok (seed_value d.seed)

  -- The index is the number of the earlier trials of the regime.
  abbrev pub AllSeeds : (String → ℕ) → List Declared → Type 0
  AllSeeds earlier [] = Unit
  AllSeeds earlier (d ∷ ds) =
      IsSeed d (earlier d.regime) × AllSeeds (λ r. earlier r + (if d.regime == r then 1 else 0)) ds

not-false : (b : Bool) → not b ≡ false → b ≡ true
not-false b h = ground arith

or_false : (a b : Bool) → (a || b) ≡ false → (a ≡ false) × (b ≡ false)
or_false a b h = ground arith

seed_value-ok :
    (N : Type 0) (s c : String) (n : ℕ)
    → validate_u64_hex {N = N} (text s) c ≡ ok n
    → n ≡ seed_value s
unfolding validate_u64_hex require_string
seed_value-ok N s c n h = ground arith

module _ {N : Type 0} where
  -- The value is an object with this identity, regime and seed.
  pub record IsDeclared (value : Json N) (d : Declared) : Type 0 where
    pub fields : Fields N
    pub is_object : value ≡ object fields
    pub identity : lookup "trial_id" (entries fields) ≡ some (text d.trial_id)
    pub regime : lookup "regime" (entries fields) ≡ some (text d.regime)
    pub seed : lookup "seed" (entries fields) ≡ some (text d.seed)

  -- The values declare the trials one by one.
  abbrev pub AllDeclared : List (Json N) → List Declared → Type 0
  AllDeclared [] [] = Unit
  AllDeclared (v ∷ vs) (d ∷ ds) = IsDeclared v d × AllDeclared vs ds
  AllDeclared _ _ = ⊥

  require_string-ok : (v : Json N) (c s : String) → require_string v c ≡ ok s → v ≡ text s
  unfolding require_string
  require_string-ok (text t) c s h = ground arith
  require_string-ok Json.null c s h = absurd (cc)
  require_string-ok (Json.flag b) c s h = absurd (cc)
  require_string-ok (Json.int n) c s h = absurd (cc)
  require_string-ok (Json.number x) c s h = absurd (cc)
  require_string-ok (Json.array xs) c s h = absurd (cc)
  require_string-ok (object fs) c s h = absurd (cc)

  text_at :
      (k : String) (o : Object N) (fs : Fields N)
      → entries fs ≡ o
      → (x : Json N) (t : String) → get k o ≡ ok x
      → x ≡ text t
      → lookup k (entries fs) ≡ some (text t)
  text_at k o fs same x t e is_text = ap (lookup k) same ∙ (get-ok k o x).0 e ∙ ap some is_text

module _ {N : Type 0} (sha256 : List ℕ → List ℕ) (root_seed : ℕ) where
  pub record Step (value : Json N) (seen after : Seen) : Type 0 where
    pub d : Declared
    pub declared : IsDeclared value d
    pub seeded : IsSeed sha256 root_seed d (regime_count d.regime seen)
    pub new_id : contains d.trial_id seen.identities ≡ false
    pub new_seed : contains d.seed seen.seeds ≡ false
    pub result : with_trial d.trial_id d.regime d.seed seen ≡ after

  pub check_trial-Step :
      (index : ℕ) (value : Json N) (seen after : Seen)
      → check_trial sha256 root_seed index value seen ≡ ok after
      → Step value seen after
  unfolding check_trial
  check_trial-Step index value seen after h =
      let c = indexed "preregistration.trials" index in
      let c' = indexed "trials" index in
      let (trial, e1, h1) = >>=-eq-ok (require_object value c) _ h in
      let (_, _, h2) =
        >>=-eq-ok (require_exact_keys trial ("trial_id" ∷ "regime" ∷ "seed" ∷ []) c) _ h1 in
      let (x, e3, h3) = >>=-eq-ok (get "trial_id" trial) _ h2 in
      let (identity, e4, h4) = >>=-eq-ok (require_string x c') _ h3 in
      let (y, e5, h5) = >>=-eq-ok (get "regime" trial) _ h4 in
      let (regime, e6, h6) = >>=-eq-ok (require_string y c') _ h5 in
      let (z, e7, h7) = >>=-eq-ok (get "seed" trial) _ h6 in
      let (seed, e8, h8) = >>=-eq-ok (require_string z c') _ h7 in
      let (n, e9, h9) = >>=-eq-ok (validate_u64_hex z c') _ h8 in
      let (m, e10, h10) =
        >>=-eq-ok (derive_validation_seed sha256 root_seed regime (regime_count regime seen)) _
          h9 in
      let (_, e11, h11) =
        >>=-eq-ok (reject_if (not (n == m)) "seed disagrees with frozen derivation") _ h10 in
      let (_, e12, h12) =
        >>=-eq-ok
          (reject_if (contains identity seen.identities || contains seed seen.seeds)
            "duplicate trial id or seed")
          _ h11 in
      let (fs, shape, same) = require_object-ok value c trial e1 in
      let fresh =
        (reject_if-ok (contains identity seen.identities || contains seed seen.seeds)
            "duplicate trial id or seed").0
          e12 in
      let derived = (reject_if-ok (not (n == m)) "seed disagrees with frozen derivation").0 e11 in
      let is_seed = require_string-ok z c' seed e8 in
      let valued =
        seed_value-ok N seed c' n (subst (λ v. validate_u64_hex v c' ≡ ok n) is_seed e9) in
      record {
        d = record { trial_id = identity; regime = regime; seed = seed };
        declared = record {
          fields = fs;
          is_object = shape;
          identity =
              text_at "trial_id" trial fs same x identity e3 (require_string-ok x c' identity e4);
          regime = text_at "regime" trial fs same y regime e5 (require_string-ok y c' regime e6);
          seed = text_at "seed" trial fs same z seed e7 is_seed;
        };
        seeded = e10 ∙ ap ok (sym ((nat_eq.beq_iff n m).0 (not-false (n == m) derived)) ∙ valued);
        new_id = (or_false (contains identity seen.identities) _ fresh).0;
        new_seed = (or_false (contains identity seen.identities) _ fresh).1;
        result = ok_inj h12;
      }
