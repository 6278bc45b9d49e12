-- ===== src/Ravel/Observations/Admitted.antt =====
-- What `validate_eval` and `validate_plan` admit, both ways.
use mncs_reference_studies.Common.{
  ℕ, ◌+◌, ◌≤◌, String, true, ◌||◌, not, ◌≡◌, ◌↔◌, refl, sym, ◌∙◌, subst, some, arith, ◌==◌,
  string_eq,
}
use mncs_reference_studies.Common.Int.{pos, ◌+ℤ◌, ltb_ℤ, int_eq}
use mncs_reference_studies.Common.Result.{ok, ◌>>◌, >>=-eq-ok, ok_inj}
use mncs_reference_studies.Common.Sorting.{All}
use mncs_reference_studies.Common.Sets.{contains}
use mncs_reference_studies.Common.Text.{◌<>◌}
use mncs_reference_studies.Dict.{lookup, keys}
use mncs_reference_studies.Python.Json.{Json, Fields, int, object, entries}
use mncs_reference_studies.Ravel.Values.{
  Outcome, Object, reject_if, same_set, require_object, require_exact_keys, require_naturals,
  require_hexes,
}
use mncs_reference_studies.Ravel.Values.Checked.{
  HasNatural, HasHex, at_name, require_object-ok, require_exact_keys-ok, int_at-natural,
  require_naturals-HasNatural, HasNatural-require_naturals, require_hexes-HasHex,
  HasHex-require_hexes,
}
use mncs_reference_studies.Ravel.Observations.{
  eval_counts, eval_checksums, eval_keys, check_eval, validate_eval,
}

-- The counts of an evaluation that are related to each other.
pub record EvalCounts : Type 0 where
  pub samples : ℕ
  pub prediction_samples : ℕ
  pub supported : ℕ
  pub correct : ℕ
  pub transition_correct : ℕ
  pub unknown : ℕ

pub record IsConsistent (n : EvalCounts) : Type 0 where
  pub correct_in : n.correct ≤ n.samples
  pub predicted_in : n.prediction_samples ≤ n.samples
  pub transition_in : n.transition_correct ≤ n.supported
  pub partition : n.supported + n.unknown ≡ n.samples

checks : EvalCounts → String → String → String → Outcome (Unit {0})
checks n a b c = do
  reject_if
      (ltb_ℤ (pos n.samples) (pos n.correct) || ltb_ℤ (pos n.samples) (pos n.prediction_samples)) a
  reject_if
      (ltb_ℤ (pos n.samples) (pos n.supported)
        || ltb_ℤ (pos n.supported) (pos n.transition_correct))
      b
  reject_if (not (pos n.supported +ℤ pos n.unknown == pos n.samples)) c

checks-IsConsistent : (n : EvalCounts) (a b c : String) → checks n a b c ≡ ok tt → IsConsistent n
unfolding checks ◌+ℤ◌
checks-IsConsistent n a b c h = record {
  correct_in = ground arith;
  predicted_in = ground arith;
  transition_in = ground arith;
  partition = ground arith;
}

IsConsistent-checks : (n : EvalCounts) (a b c : String) → IsConsistent n → checks n a b c ≡ ok tt
unfolding checks ◌+ℤ◌
IsConsistent-checks n a b c k =
    ground (arith, k.correct_in, k.predicted_in, k.transition_in, k.partition)

module _ {N : Type 0} where
  -- The counts of a dictionary.
  pub record HasCounts (o : Object N) (n : EvalCounts) : Type 0 where
    pub samples_at : lookup "samples" o ≡ some (int (pos n.samples))
    pub predicted_at : lookup "prediction_samples" o ≡ some (int (pos n.prediction_samples))
    pub supported_at : lookup "transition_supported" o ≡ some (int (pos n.supported))
    pub correct_at : lookup "correct" o ≡ some (int (pos n.correct))
    pub transition_at : lookup "transition_correct" o ≡ some (int (pos n.transition_correct))
    pub unknown_at : lookup "transition_unknown" o ≡ some (int (pos n.unknown))

  -- An admissible evaluation: exactly the declared keys, natural counts that agree with each other,
  -- and checksums of 16 hexadecimal digits.
  pub record IsEval (o : Object N) : Type 0 where
    pub declared : same_set (keys o) eval_keys ≡ true
    pub naturals : All (HasNatural o) eval_counts
    pub counts : EvalCounts
    pub has_counts : HasCounts o counts
    pub consistent : IsConsistent counts
    pub checksums : All (HasHex o 16) eval_checksums

  check_eval-eq :
      (o : Object N) (c : String) (n : EvalCounts)
      → HasCounts o n
      → check_eval o c
        ≡ checks n
            (c <> ": count exceeds samples")
            (c <> ": transition count contradiction")
            (c <> ": transition support partition contradiction")
  unfolding check_eval checks
  check_eval-eq o c n h =
      rw
        (
          int_at-natural "samples" o n.samples h.samples_at,
          int_at-natural "prediction_samples" o n.prediction_samples h.predicted_at,
          int_at-natural "transition_supported" o n.supported h.supported_at,
          int_at-natural "correct" o n.correct h.correct_at,
          int_at-natural "transition_correct" o n.transition_correct h.transition_at,
          int_at-natural "transition_unknown" o n.unknown h.unknown_at,
        )
        refl

  check_eval-IsConsistent :
      (o : Object N) (c : String) (n : EvalCounts)
      → HasCounts o n
      → (check_eval o c ≡ ok tt) ↔ IsConsistent n
  check_eval-IsConsistent o c n h = (
    (λ e. checks-IsConsistent n _ _ _ (sym (check_eval-eq o c n h) ∙ e)),
    λ k. check_eval-eq o c n h ∙ IsConsistent-checks n _ _ _ k,
  )

  counts_of : (o : Object N) → All (HasNatural o) eval_counts → (n : EvalCounts) × HasCounts o n
  unfolding contains
  counts_of o h = (
    record {
      samples = (at_name (HasNatural o) "samples" eval_counts refl h).0;
      prediction_samples = (at_name (HasNatural o) "prediction_samples" eval_counts refl h).0;
      supported = (at_name (HasNatural o) "transition_supported" eval_counts refl h).0;
      correct = (at_name (HasNatural o) "correct" eval_counts refl h).0;
      transition_correct = (at_name (HasNatural o) "transition_correct" eval_counts refl h).0;
      unknown = (at_name (HasNatural o) "transition_unknown" eval_counts refl h).0;
    },
    record {
      samples_at = (at_name (HasNatural o) "samples" eval_counts refl h).1;
      predicted_at = (at_name (HasNatural o) "prediction_samples" eval_counts refl h).1;
      supported_at = (at_name (HasNatural o) "transition_supported" eval_counts refl h).1;
      correct_at = (at_name (HasNatural o) "correct" eval_counts refl h).1;
      transition_at = (at_name (HasNatural o) "transition_correct" eval_counts refl h).1;
      unknown_at = (at_name (HasNatural o) "transition_unknown" eval_counts refl h).1;
    },
  )

  -- What `validate_eval` returns is the dictionary it was given, and an admissible evaluation.
  pub validate_eval-IsEval :
      (v : Json N) (c : String) (o : Object N)
      → validate_eval v c ≡ ok o
      → (fs : Fields N) × (v ≡ object fs) × (entries fs ≡ o) × IsEval o
  unfolding validate_eval
  validate_eval-IsEval v c o h =
      let (o', e1, h1) = >>=-eq-ok (require_object v c) _ h in
      let (_, e2, h2) = >>=-eq-ok (require_exact_keys o' eval_keys c) _ h1 in
      let (_, e3, h3) = >>=-eq-ok (require_naturals o' eval_counts c) _ h2 in
      let (_, e4, h4) = >>=-eq-ok (check_eval o' c) _ h3 in
      let (_, e5, h5) = >>=-eq-ok (require_hexes o' eval_checksums c 16) _ h4 in
      let (fs, shape, same) = require_object-ok v c o' e1 in
      let naturals = require_naturals-HasNatural o' eval_counts c e3 in
      let (n, has) = counts_of o' naturals in
      (
        fs,
        shape,
        same ∙ ok_inj h5,
        subst IsEval (ok_inj h5) (record {
          declared = (require_exact_keys-ok o' eval_keys c).0 e2;
          naturals = naturals;
          counts = n;
          has_counts = has;
          consistent = (check_eval-IsConsistent o' c n has).0 e4;
          checksums = require_hexes-HasHex o' eval_checksums c 16 e5;
        }),
      )

  -- `validate_eval` passes exactly the admissible evaluations, and returns them as they are.
  pub validate_eval_iff :
      (fs : Fields N) (c : String)
      → (validate_eval (object fs) c ≡ ok (entries fs)) ↔ IsEval (entries fs)
  unfolding validate_eval require_object
  validate_eval_iff fs c = (
    (λ h. (validate_eval-IsEval (object fs) c (entries fs) h).3),
    λ e.
        rw
          (
            (require_exact_keys-ok (entries fs) eval_keys c).1 e.declared,
            HasNatural-require_naturals (entries fs) eval_counts c e.naturals,
            (check_eval-IsConsistent (entries fs) c e.counts e.has_counts).1 e.consistent,
            HasHex-require_hexes (entries fs) eval_checksums c 16 e.checksums,
          )
          refl,
  )
