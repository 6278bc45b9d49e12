-- ===== src/Ravel/Evaluation/Tallies.antt =====
-- The counts of the loop of `evaluate`, and the trials that it evaluates.
use mncs_reference_studies.Common.{
  ℕ, ◌+◌, String, ◌≡◌, refl, sym, subst, ap, ◌∙◌, inl, inr, Option, none, some, some_inj, List, [],
  ◌∷◌, ◌++◌, length, arith, ◌==◌, string_eq, Bool-cases, if◌then◌else◌,
}
use mncs_reference_studies.Common.Result.{ok, >>=-eq-ok, ok_inj}
use mncs_reference_studies.Dict.{lookup, lookup-insert}
use mncs_reference_studies.Python.Floats.{Floats}
use mncs_reference_studies.Python.Json.{Json}
use mncs_reference_studies.Ravel.Values.{Object, found}
use mncs_reference_studies.Ravel.Evaluation.{
  EvaluatedTrial, Tally, int_of_bool, counted, count_trial, evaluate_trial, evaluate_trials,
  zero_counts,
}

module _ (F : Floats) where
  -- How many trials passed, and how many of a regime did.
  abbrev pub passed_in : List (EvaluatedTrial F) → ℕ
  passed_in [] = 0
  passed_in (e ∷ es) = int_of_bool F e.passed + passed_in es

  abbrev pub passed_of : String → List (EvaluatedTrial F) → ℕ
  passed_of regime [] = 0
  passed_of regime (e ∷ es) =
      (if e.regime == regime then int_of_bool F e.passed else 0) + passed_of regime es

  passed_in-snoc :
      (es : List (EvaluatedTrial F)) (e : EvaluatedTrial F)
      → passed_in (es ++ (e ∷ [])) ≡ passed_in es + int_of_bool F e.passed
  passed_in-snoc [] e = omega arith
  passed_in-snoc (x ∷ es) e = omega (arith, passed_in-snoc es e)

  passed_of-snoc :
      (r : String) (es : List (EvaluatedTrial F)) (e : EvaluatedTrial F)
      → passed_of r (es ++ (e ∷ []))
        ≡ passed_of r es + (if e.regime == r then int_of_bool F e.passed else 0)
  passed_of-snoc r [] e = omega arith
  passed_of-snoc r (x ∷ es) e = omega (arith, passed_of-snoc r es e)

  -- The tally says what its trials say.
  pub record IsTally (t : Tally F) : Type 0 where
    pub total : t.passing ≡ passed_in t.evaluated
    pub by_regime :
        (r : String) (n : ℕ) → lookup r t.by_regime ≡ some n → n ≡ passed_of r t.evaluated

  counted-IsTally :
      (e : EvaluatedTrial F) (t : Tally F) (before : ℕ)
      → IsTally t
      → lookup e.regime t.by_regime ≡ some before
      → IsTally (counted F e t before)
  counted-IsTally e t before v known = record {
    total = omega (arith, v.total, passed_in-snoc t.evaluated e);
    by_regime = λ r n h. elim (Bool-cases (e.regime == r)) [
      | inl same ↦
          let here = some_inj (
            sym
              (rw same at (lookup-insert e.regime r (before + int_of_bool F e.passed) t.by_regime))
            ∙ h) in
          let earlier = v.by_regime r before (
            subst (λ k. lookup k t.by_regime ≡ some before) ((string_eq.beq_iff e.regime r).0 same)
              known) in
          omega (arith, here, earlier, rw same at (passed_of-snoc r t.evaluated e))
      | inr other ↦
          let before_too = v.by_regime r n (
            sym
              (rw other at (lookup-insert e.regime r (before + int_of_bool F e.passed) t.by_regime))
            ∙ h) in
          omega (arith, before_too, rw other at (passed_of-snoc r t.evaluated e))
    ];
  }

  found-known : (k : String) (o : Option ℕ) (n : ℕ) → found k o ≡ ok n → o ≡ some n
  found-known k none n h = absurd (cc)
  found-known k (some m) n h = ap some (ok_inj h)

  count_trial-IsTally :
      (e : EvaluatedTrial F) (t t' : Tally F)
      → IsTally t
      → count_trial F e t ≡ ok t'
      → IsTally t' × (t'.evaluated ≡ t.evaluated ++ (e ∷ []))
  unfolding count_trial
  count_trial-IsTally e t t' v h =
      let (before, e1, h1) = >>=-eq-ok (found e.regime (lookup e.regime t.by_regime)) _ h in
      subst (λ (u : Tally F). IsTally u × (u.evaluated ≡ t.evaluated ++ (e ∷ []))) (ok_inj h1)
        (counted-IsTally e t before v (found-known e.regime _ before e1), refl)

  -- The trials of the raw evidence, each evaluated against the declared one in its place.
  pub data AllEvaluated (prereg : Object F.Float)
      : List (Json F.Float) → List (Json F.Float) → List (EvaluatedTrial F) → Type 0 where
    all_evaluated : AllEvaluated prereg [] [] []
    evaluated_next :
        {x d : Json F.Float} {e : EvaluatedTrial F} {xs ds : List (Json F.Float)}
        {es : List (EvaluatedTrial F)}
        → evaluate_trial F x d prereg ≡ ok e
        → AllEvaluated prereg xs ds es
        → AllEvaluated prereg (x ∷ xs) (d ∷ ds) (e ∷ es)

  -- What the loop adds to a tally: the trials of the two lists, in order.
  pub record IsRun (xs ds : List (Json F.Float)) (prereg : Object F.Float) (t t' : Tally F)
      : Type 0 where
    pub tallied : IsTally t'
    pub es : List (EvaluatedTrial F)
    pub evaluated : AllEvaluated prereg xs ds es
    pub after : t'.evaluated ≡ t.evaluated ++ es

  append_nil : {A : Type 0} (xs : List A) → xs ≡ xs ++ []
  append_nil [] = refl
  append_nil (x ∷ xs) = ap (λ r. x ∷ r) (append_nil xs)

  append_snoc : {A : Type 0} (xs ys : List A) (x : A) → (xs ++ (x ∷ [])) ++ ys ≡ xs ++ (x ∷ ys)
  append_snoc [] ys x = refl
  append_snoc (z ∷ xs) ys x = ap (λ r. z ∷ r) (append_snoc xs ys x)

  pub evaluated-length :
      (prereg : Object F.Float) (xs ds : List (Json F.Float)) (es : List (EvaluatedTrial F))
      → AllEvaluated prereg xs ds es
      → length es ≡ length ds
  evaluated-length prereg [] [] [] all_evaluated = refl
  evaluated-length prereg [] [] (e ∷ es) s = elim s [ ]
  evaluated-length prereg [] (d ∷ ds) es s = elim s [ ]
  evaluated-length prereg (x ∷ xs) [] es s = elim s [ ]
  evaluated-length prereg (x ∷ xs) (d ∷ ds) [] s = elim s [ ]
  evaluated-length prereg (x ∷ xs) (d ∷ ds) (e ∷ es) (evaluated_next h rest) =
      omega (arith, evaluated-length prereg xs ds es rest)

  pub evaluate_trials-IsTally :
      (trials declared : List (Json F.Float)) (prereg : Object F.Float) (t t' : Tally F)
      → length trials ≡ length declared
      → IsTally t
      → evaluate_trials F trials declared prereg t ≡ ok t'
      → IsRun trials declared prereg t t'
  unfolding evaluate_trials
  evaluate_trials-IsTally [] [] prereg t t' same v h =
      subst (IsRun [] [] prereg t) (ok_inj h)
        (record { tallied = v; es = []; evaluated = all_evaluated; after = append_nil t.evaluated })
  evaluate_trials-IsTally [] (d ∷ ds) prereg t t' same v h = absurd (omega arith)
  evaluate_trials-IsTally (x ∷ xs) [] prereg t t' same v h = absurd (omega arith)
  evaluate_trials-IsTally (x ∷ xs) (d ∷ ds) prereg t t' same v h =
      let (e, e1, h1) = >>=-eq-ok (evaluate_trial F x d prereg) _ h in
      let (u, e2, h2) = >>=-eq-ok (count_trial F e t) _ h1 in
      let (w, longer) = count_trial-IsTally e t u v e2 in
      let run = evaluate_trials-IsTally xs ds prereg u t' (omega arith) w h2 in
      record {
        tallied = run.tallied;
        es = e ∷ run.es;
        evaluated = evaluated_next e1 run.evaluated;
        after = run.after ∙ ap (λ r. r ++ run.es) longer ∙ append_snoc t.evaluated run.es e;
      }

  abbrev pub start : List String → Tally F
  start names = record { passing = 0; by_regime = zero_counts F names; series = []; evaluated = [] }

  zero_counts-zero :
      (ks : List String) (r : String) (n : ℕ) → lookup r (zero_counts F ks) ≡ some n → n ≡ 0
  unfolding zero_counts lookup
  zero_counts-zero [] r n h = absurd (cc)
  zero_counts-zero (k ∷ ks) r n h = ground (arith, zero_counts-zero ks r n)

  pub start-IsTally : (names : List String) → IsTally (start names)
  start-IsTally names = record { total = refl; by_regime = zero_counts-zero names }
