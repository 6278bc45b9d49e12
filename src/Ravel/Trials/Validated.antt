-- ===== src/Ravel/Trials/Validated.antt =====
-- `validate_trial` as a whole: what is known of the trial that it returns.
use mncs_reference_studies.Common.{
  String, Bool, true, false, ◌&&◌, not, ◌≡◌, sym, subst, ◌∙◌, some, List, [], ◌∷◌, arith, string_eq,
}
use mncs_reference_studies.Common.Int.{pos}
use mncs_reference_studies.Common.Result.{ok, ◌>>=◌, >>=-eq-ok, ok_inj}
use mncs_reference_studies.Common.Sorting.{All}
use mncs_reference_studies.Common.Text.{◌<>◌}
use mncs_reference_studies.Dict.{keys}
use mncs_reference_studies.Python.Floats.{Floats}
use mncs_reference_studies.Python.Json.{Json, Fields, object, entries}
use mncs_reference_studies.Ravel.Values.{
  Outcome, Object, reject_if, get, require_object, require_exact_keys, require_int,
  require_naturals, validate_hex, all_in, same_set, as_list,
}
use mncs_reference_studies.Ravel.Values.Checked.{
  HasNatural, reject_if-ok, require_object-ok, require_naturals-HasNatural,
}
use mncs_reference_studies.Ravel.Observations.{
  validate_eval, validate_plan, validate_replay, validate_topology, validate_variant, replay_counts,
  topology_counts,
}
use mncs_reference_studies.Ravel.Observations.Admitted.{IsEval, validate_eval-IsEval}
use mncs_reference_studies.Ravel.Observations.Planned.{IsPlan, validate_plan-IsPlan}
use mncs_reference_studies.Ravel.Preregistration.{is_text}
use mncs_reference_studies.Ravel.Trials.{
  candidate_evals, candidate_keys, trial_keys, shown, texts_of, or_type_error, require_bools,
  require_equal, check_seeds, check_sizes, check_checkpoint, validate_evals, check_candidate,
  check_facts, check_integrity, validate_variants, check_comparisons, validate_trial,
  checkpoint_mutation_keys,
}
use mncs_reference_studies.Ravel.Trials.Admitted.{
  HasObject, HasBool, HasObject-of, require_bools-HasBool, require_int-HasNatural, IsVariant,
  validate_variant-IsVariant, AllObjects, validate_replay-HasNatural, validate_topology-HasNatural,
}

abbrev pub work_keys : List String
work_keys =
    "base_training_evaluations" ∷ "adaptation_training_evaluations" ∷ "checkpoint_size_bytes" ∷ []

abbrev pub IsAny : {N : Type 0} → Object N → Type 0
IsAny o = Unit

module _ (F : Floats) where
  pub record IsCandidate (o : Object F.Float) : Type 0 where
    pub completed : All (HasBool o) ("adaptation_completed" ∷ [])
    pub experts : HasNatural o "expert_count"
    pub work : All (HasNatural o) work_keys
    pub evals : All (HasObject IsEval o) candidate_evals
    pub planning : HasObject IsPlan o "planning"
    pub replay : HasObject (λ r. All (HasNatural r) replay_counts) o "replay"
    pub topology : HasObject (λ t. All (HasNatural t) topology_counts) o "topology"

  pub record IsIntegrity (o : Object F.Float) : Type 0 where
    pub facts :
        All
          (HasBool o)
          ("checkpoint_roundtrip" ∷ "checkpoint_identity_match" ∷ "checkpoint_behavior_match" ∷ [])
    pub violations : All (HasNatural o) ("unsupported_graph_edge_violations" ∷ [])
    pub mutations : HasObject IsAny o "checkpoint_mutations"
    pub lineage : HasObject IsAny o "lineage_invariants"

  validate_evals-IsEval :
      (o : Object F.Float) (ks : List String) (c : String)
      → validate_evals F o ks c ≡ ok tt
      → All (HasObject IsEval o) ks
  unfolding validate_evals
  validate_evals-IsEval o [] c h = tt
  validate_evals-IsEval o (k ∷ ks) c h =
      let (x, e, h1) = >>=-eq-ok (get k o) _ h in
      let (d, e', h2) = >>=-eq-ok (validate_eval x (c <> "." <> k)) _ h1 in
      (
        HasObject-of IsEval o k x d e (validate_eval-IsEval x _ d e'),
        validate_evals-IsEval o ks c h2,
      )

  validate_variants-IsVariant :
      (o : Object F.Float) (c : String) → validate_variants F o c ≡ ok tt → AllObjects IsVariant o
  unfolding validate_variants
  validate_variants-IsVariant [] c h = tt
  validate_variants-IsVariant ((k, v) ∷ rest) c h =
      let (o, e, h') = >>=-eq-ok (validate_variant v (c <> "." <> k)) _ h in
      let (fs, shape, same, is) = validate_variant-IsVariant v (c <> "." <> k) o e in
      ((fs, shape, subst IsVariant (sym same) is), validate_variants-IsVariant rest c h')

  check_candidate-IsCandidate :
      (o : Object F.Float) (c : String) (candidate : Object F.Float)
      → check_candidate F o c ≡ ok candidate
      → HasObject IsCandidate o "candidate"
  unfolding check_candidate
  check_candidate-IsCandidate o c candidate h =
      let (v, e0, h0) = >>=-eq-ok (get "candidate" o) _ h in
      let (p, e1, h1) = >>=-eq-ok (require_object v (c <> ".candidate")) _ h0 in
      let (_, _, h2) = >>=-eq-ok (require_exact_keys p candidate_keys (c <> ".candidate")) _ h1 in
      let (_, e3, h3) = >>=-eq-ok (require_bools p ("adaptation_completed" ∷ []) c) _ h2 in
      let (x, e4, h4) = >>=-eq-ok (get "expert_count" p) _ h3 in
      let (n, e5, h5) =
        >>=-eq-ok (require_int x (c <> ".expert_count") (pos 1) (some (pos 80))) _ h4 in
      let (_, e6, h6) = >>=-eq-ok (require_naturals p work_keys c) _ h5 in
      let (model, _, h7) = >>=-eq-ok (get "model_identity" p) _ h6 in
      let (_, _, h8) = >>=-eq-ok (validate_hex model (c <> ".model_identity") 64) _ h7 in
      let (behavior, _, h9) = >>=-eq-ok (get "behavior_identity" p) _ h8 in
      let (_, _, h10) = >>=-eq-ok (validate_hex behavior (c <> ".behavior_identity") 64) _ h9 in
      let (_, e11, h11) =
        >>=-eq-ok (validate_evals F p candidate_evals (c <> ".candidate")) _ h10 in
      let (planning, e12, h12) = >>=-eq-ok (get "planning" p) _ h11 in
      let (q, e13, h13) = >>=-eq-ok (validate_plan planning (c <> ".candidate.planning")) _ h12 in
      let (replay, e14, h14) = >>=-eq-ok (get "replay" p) _ h13 in
      let (r, e15, h15) = >>=-eq-ok (validate_replay replay (c <> ".candidate.replay")) _ h14 in
      let (topology, e16, h16) = >>=-eq-ok (get "topology" p) _ h15 in
      let (t, e17, h17) =
        >>=-eq-ok (validate_topology topology (c <> ".candidate.topology")) _ h16 in
      let (fs, shape, same) = require_object-ok v (c <> ".candidate") p e1 in
      HasObject-of IsCandidate o "candidate" v p e0 (
        fs,
        shape,
        same,
        record {
          completed = require_bools-HasBool p _ c e3;
          experts = require_int-HasNatural p "expert_count" x _ 1 _ n e4 e5;
          work = require_naturals-HasNatural p work_keys c e6;
          evals = validate_evals-IsEval p candidate_evals _ e11;
          planning =
              HasObject-of IsPlan p "planning" planning q e12
                (validate_plan-IsPlan planning _ q e13);
          replay =
              HasObject-of (λ u. All (HasNatural u) replay_counts) p "replay" replay r e14
                (validate_replay-HasNatural replay _ r e15);
          topology =
              HasObject-of (λ u. All (HasNatural u) topology_counts) p "topology" topology t e16
                (validate_topology-HasNatural topology _ t e17);
        },
      )

  check_facts-HasObject :
      (o : Object F.Float) (collection : String) (names : List String) (c : String)
      → check_facts F o collection names c ≡ ok tt
      → HasObject IsAny o collection
  unfolding check_facts
  check_facts-HasObject o collection names c h =
      let (v, e0, h0) = >>=-eq-ok (get collection o) _ h in
      let (p, e1, h1) = >>=-eq-ok (require_object v (c <> "." <> collection)) _ h0 in
      let (fs, shape, same) = require_object-ok v (c <> "." <> collection) p e1 in
      HasObject-of IsAny o collection v p e0 (fs, shape, same, tt)

  abbrev integrity_keys : List String
  integrity_keys =
      "checkpoint_roundtrip" ∷ "checkpoint_identity_match" ∷ "checkpoint_behavior_match"
      ∷ "checkpoint_mutations" ∷ "lineage_invariants" ∷ "unsupported_graph_edge_violations" ∷ []

  abbrev integrity_facts : List String
  integrity_facts =
      "checkpoint_roundtrip" ∷ "checkpoint_identity_match" ∷ "checkpoint_behavior_match" ∷ []

  check_integrity-IsIntegrity :
      (o : Object F.Float) (c : String)
      → check_integrity F o c ≡ ok tt
      → HasObject IsIntegrity o "integrity"
  unfolding check_integrity
  check_integrity-IsIntegrity o c h =
      let (v, e0, h0) = >>=-eq-ok (get "integrity" o) _ h in
      let (p, e1, h1) = >>=-eq-ok (require_object v (c <> ".integrity")) _ h0 in
      let (_, _, h2) = >>=-eq-ok (require_exact_keys p integrity_keys (c <> ".integrity")) _ h1 in
      let (_, e3, h3) = >>=-eq-ok (require_bools p integrity_facts (c <> ".integrity")) _ h2 in
      let (_, e4, h4) =
        >>=-eq-ok (require_naturals p ("unsupported_graph_edge_violations" ∷ []) c) _ h3 in
      let (_, e5, h5) =
        >>=-eq-ok (check_facts F p "checkpoint_mutations" checkpoint_mutation_keys c) _ h4 in
      let (fs, shape, same) = require_object-ok v (c <> ".integrity") p e1 in
      HasObject-of IsIntegrity o "integrity" v p e0 (
        fs,
        shape,
        same,
        record {
          facts = require_bools-HasBool p integrity_facts _ e3;
          violations = require_naturals-HasNatural p _ c e4;
          mutations = check_facts-HasObject p "checkpoint_mutations" _ c e5;
          lineage = check_facts-HasObject p "lineage_invariants" _ c h5;
        },
      )

  -- The names of the comparison variants in a preregistration.
  abbrev pub variant_names : Object F.Float → Outcome (List String)
  variant_names prereg =
      get "comparison_variants" prereg >>= λ v. or_type_error (as_list v) >>= texts_of

  variant_names-of :
      (prereg : Object F.Float) (v : Json F.Float) (listed : List (Json F.Float))
      (names : List String)
      → get "comparison_variants" prereg ≡ ok v
      → or_type_error (as_list v) ≡ ok listed
      → texts_of listed ≡ ok names
      → variant_names prereg ≡ ok names
  variant_names-of prereg v listed names e e' e'' = rw (e, e') e''

  pub record IsCompared (prereg o : Object F.Float) : Type 0 where
    pub variants : AllObjects IsVariant o
    pub names : List String
    pub declared : variant_names prereg ≡ ok names
    pub covers : all_in names (keys o) ≡ true

  check_comparisons-IsCompared :
      (o prereg candidate : Object F.Float) (c : String)
      → check_comparisons F o prereg candidate c ≡ ok tt
      → HasObject (IsCompared prereg) o "comparisons"
  unfolding check_comparisons
  check_comparisons-IsCompared o prereg candidate c h =
      let (v, e0, h0) = >>=-eq-ok (get "comparisons" o) _ h in
      let (p, e1, h1) = >>=-eq-ok (require_object v (c <> ".comparisons")) _ h0 in
      let (d, e2, h2) = >>=-eq-ok (get "comparison_variants" prereg) _ h1 in
      let (listed, e3, h3) = >>=-eq-ok (or_type_error (as_list d)) _ h2 in
      let (names, e4, h4) = >>=-eq-ok (texts_of listed) _ h3 in
      let message : String = c <> ": comparison variant set mismatch" in
      let (_, e5, h5) = >>=-eq-ok (reject_if (not (same_set (keys p) names)) message) _ h4 in
      let (_, e6, _) = >>=-eq-ok (validate_variants F p (c <> ".comparisons")) _ h5 in
      let (fs, shape, same) = require_object-ok v (c <> ".comparisons") p e1 in
      HasObject-of (IsCompared prereg) o "comparisons" v p e0 (
        fs,
        shape,
        same,
        record {
          variants = validate_variants-IsVariant p _ e6;
          names = names;
          declared = variant_names-of prereg d listed names e2 e3 e4;
          covers =
              second (all_in (keys p) names) _
                ((reject_if-ok (not (same_set (keys p) names)) message).0 e5);
        },
      )
    where
      second : (a b : Bool) → not (a && b) ≡ false → b ≡ true
      second a b e = ground arith

  -- A validated trial: a candidate, facts and comparisons, from each of which the metrics are derived.
  pub record IsTrial (prereg o : Object F.Float) : Type 0 where
    pub candidate : HasObject IsCandidate o "candidate"
    pub integrity : HasObject IsIntegrity o "integrity"
    pub comparisons : HasObject (IsCompared prereg) o "comparisons"

  pub validate_trial-IsTrial :
      (trial : Json F.Float) (expected prereg o : Object F.Float)
      → validate_trial F trial expected prereg ≡ ok o
      → (fs : Fields F.Float) × (trial ≡ object fs) × (entries fs ≡ o) × IsTrial prereg o
  unfolding validate_trial
  validate_trial-IsTrial trial expected prereg o h =
      let (identity, _, h0) = >>=-eq-ok (get "trial_id" expected) _ h in
      let c : String = "trial[" <> shown identity <> "]" in
      let (p, e1, h1) = >>=-eq-ok (require_object trial c) _ h0 in
      let (_, _, h2) = >>=-eq-ok (require_exact_keys p trial_keys c) _ h1 in
      let (schema, _, h3) = >>=-eq-ok (get "schema" p) _ h2 in
      let (_, _, h4) =
        >>=-eq-ok
          (reject_if (not (is_text schema "ravel-raw-trial/0.5")) (c <> ": unsupported raw schema"))
          _ h3 in
      let (_, _, h5) =
        >>=-eq-ok
          (require_equal F p expected ("trial_id" ∷ "regime" ∷ "seed" ∷ [])
            (c <> ": disagrees with preregistration"))
          _ h4 in
      let (_, _, h6) = >>=-eq-ok (check_seeds F p c) _ h5 in
      let (_, _, h7) = >>=-eq-ok (check_sizes F p prereg c) _ h6 in
      let (_, _, h8) = >>=-eq-ok (check_checkpoint F p prereg c) _ h7 in
      let (candidate, e9, h9) = >>=-eq-ok (check_candidate F p c) _ h8 in
      let (_, e10, h10) = >>=-eq-ok (check_integrity F p c) _ h9 in
      let (_, e11, h11) = >>=-eq-ok (check_comparisons F p prereg candidate c) _ h10 in
      let (fs, shape, same) = require_object-ok trial c p e1 in
      (
        fs,
        shape,
        same ∙ ok_inj h11,
        subst (IsTrial prereg) (ok_inj h11) (record {
          candidate = check_candidate-IsCandidate p c candidate e9;
          integrity = check_integrity-IsIntegrity p c e10;
          comparisons = check_comparisons-IsCompared p prereg candidate c e11;
        }),
      )
