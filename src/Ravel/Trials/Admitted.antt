-- ===== src/Ravel/Trials/Admitted.antt =====
-- What `validate_trial` establishes of the records that the metrics are derived from.
use mncs_reference_studies.Common.{
  ℕ, String, Bool, ◌≡◌, sym, ap, subst, ◌∙◌, Option, none, some, List, [], ◌∷◌, arith, string_eq,
}
use mncs_reference_studies.Common.Int.{ℤ, pos, negsuc, ltb_ℤ}
use mncs_reference_studies.Common.Result.{ok, >>=-eq-ok, ok_inj}
use mncs_reference_studies.Common.Sorting.{All}
use mncs_reference_studies.Common.Text.{◌<>◌}
use mncs_reference_studies.Dict.{lookup}
use mncs_reference_studies.Python.Json.{
  Json, Fields, null, text, flag, int, number, array, object, entries,
}
use mncs_reference_studies.Ravel.Values.{
  Object, reject_if, get, require_object, require_exact_keys, require_int, require_bool,
  require_naturals, require_hexes, int_at, as_list,
}
use mncs_reference_studies.Ravel.Values.Checked.{
  HasNatural, require_object-ok, get-ok, require_naturals-HasNatural,
}
use mncs_reference_studies.Ravel.Observations.{
  validate_eval, validate_plan, validate_replay, validate_topology, validate_variant, replay_counts,
  topology_counts, topology_keys, counted_list, validate_births, validate_lineages, check_training,
}
use mncs_reference_studies.Ravel.Observations.Admitted.{IsEval, validate_eval-IsEval}
use mncs_reference_studies.Ravel.Observations.Planned.{IsPlan, validate_plan-IsPlan}
use mncs_reference_studies.Ravel.Trials.{require_bools}

abbrev variant_keys : List String
variant_keys =
    "expert_count" ∷ "training_evaluations" ∷ "checkpoint_size_bytes" ∷ "drift_holdout"
    ∷ "retention_holdout" ∷ "planning" ∷ []

module _ {N : Type 0} where
  -- A key whose value is a dictionary with a property.
  abbrev pub HasObject : (Object N → Type 0) → Object N → String → Type 0
  HasObject P o k = (fs : Fields N) × (lookup k o ≡ some (object fs)) × P (entries fs)

  abbrev pub HasBool : Object N → String → Type 0
  HasBool o k = (b : Bool) × (lookup k o ≡ some (flag b))

  require_bool-ok : (v : Json N) (c : String) (b : Bool) → require_bool v c ≡ ok b → v ≡ flag b
  unfolding require_bool
  require_bool-ok (flag b) c d h = ap flag (ok_inj h)
  require_bool-ok null c b h = absurd (cc)
  require_bool-ok (text s) c b h = absurd (cc)
  require_bool-ok (int n) c b h = absurd (cc)
  require_bool-ok (number x) c b h = absurd (cc)
  require_bool-ok (array xs) c b h = absurd (cc)
  require_bool-ok (object fs) c b h = absurd (cc)

  pub require_bools-HasBool :
      (o : Object N) (ks : List String) (c : String)
      → require_bools o ks c ≡ ok tt
      → All (HasBool o) ks
  unfolding require_bools
  require_bools-HasBool o [] c h = tt
  require_bools-HasBool o (k ∷ ks) c h =
      let (x, e, h1) = >>=-eq-ok (get k o) _ h in
      let (b, e', h2) = >>=-eq-ok (require_bool x (c <> "." <> k)) _ h1 in
      (
        (b, (get-ok k o x).0 e ∙ ap some (require_bool-ok x (c <> "." <> k) b e')),
        require_bools-HasBool o ks c h2,
      )

  -- An integer that is at least a natural bound is a natural number.
  pub require_int-HasNatural :
      (o : Object N) (k : String) (v : Json N) (c : String) (low : ℕ) (high : Option ℤ) (n : ℤ)
      → get k o ≡ ok v
      → require_int v c (pos low) high ≡ ok n
      → HasNatural o k
  unfolding require_int
  require_int-HasNatural o k (int (pos m)) c low high n e h = (m, (get-ok k o (int (pos m))).0 e)
  require_int-HasNatural o k (int (negsuc m)) c low none n e h = absurd (ground arith)
  require_int-HasNatural o k (int (negsuc m)) c low (some x) n e h = absurd (ground arith)
  require_int-HasNatural o k null c low high n e h = absurd (cc)
  require_int-HasNatural o k (text s) c low high n e h = absurd (cc)
  require_int-HasNatural o k (flag b) c low high n e h = absurd (cc)
  require_int-HasNatural o k (number x) c low high n e h = absurd (cc)
  require_int-HasNatural o k (array xs) c low high n e h = absurd (cc)
  require_int-HasNatural o k (object fs) c low high n e h = absurd (cc)

  -- A checked value under a key.
  pub HasObject-of :
      (P : Object N → Type 0) (o : Object N) (k : String) (v : Json N) (o' : Object N)
      → get k o ≡ ok v
      → (fs : Fields N) × (v ≡ object fs) × (entries fs ≡ o') × P o'
      → HasObject P o k
  HasObject-of P o k v o' e (fs, shape, same, p) =
      (fs, (get-ok k o v).0 e ∙ ap some shape, subst P (sym same) p)

  -- A validated comparison variant.
  pub record IsVariant (o : Object N) : Type 0 where
    pub experts : HasNatural o "expert_count"
    pub work : All (HasNatural o) ("training_evaluations" ∷ "checkpoint_size_bytes" ∷ [])
    pub drift : HasObject IsEval o "drift_holdout"
    pub retention : HasObject IsEval o "retention_holdout"
    pub planning : HasObject IsPlan o "planning"

  pub validate_variant-IsVariant :
      (v : Json N) (c : String) (o : Object N)
      → validate_variant v c ≡ ok o
      → (fs : Fields N) × (v ≡ object fs) × (entries fs ≡ o) × IsVariant o
  unfolding validate_variant
  validate_variant-IsVariant v c o h =
      let (p, e1, h1) = >>=-eq-ok (require_object v c) _ h in
      let (_, _, h2) = >>=-eq-ok (require_exact_keys p variant_keys c) _ h1 in
      let (x, e3, h3) = >>=-eq-ok (get "expert_count" p) _ h2 in
      let (n, e4, h4) =
        >>=-eq-ok (require_int x (c <> ".expert_count") (pos 1) (some (pos 80))) _ h3 in
      let (_, e5, h5) =
        >>=-eq-ok (require_naturals p ("training_evaluations" ∷ "checkpoint_size_bytes" ∷ []) c) _
          h4 in
      let (drift, e6, h6) = >>=-eq-ok (get "drift_holdout" p) _ h5 in
      let (d, e7, h7) = >>=-eq-ok (validate_eval drift (c <> ".drift_holdout")) _ h6 in
      let (retention, e8, h8) = >>=-eq-ok (get "retention_holdout" p) _ h7 in
      let (r, e9, h9) = >>=-eq-ok (validate_eval retention (c <> ".retention_holdout")) _ h8 in
      let (planning, e10, h10) = >>=-eq-ok (get "planning" p) _ h9 in
      let (q, e11, h11) = >>=-eq-ok (validate_plan planning (c <> ".planning")) _ h10 in
      let (fs, shape, same) = require_object-ok v c p e1 in
      (
        fs,
        shape,
        same ∙ ok_inj h11,
        subst IsVariant (ok_inj h11) (record {
          experts = require_int-HasNatural p "expert_count" x (c <> ".expert_count") 1 _ n e3 e4;
          work = require_naturals-HasNatural p _ c e5;
          drift =
              HasObject-of IsEval p "drift_holdout" drift d e6 (validate_eval-IsEval drift _ d e7);
          retention =
              HasObject-of IsEval p "retention_holdout" retention r e8
                (validate_eval-IsEval retention _ r e9);
          planning =
              HasObject-of IsPlan p "planning" planning q e10
                (validate_plan-IsPlan planning _ q e11);
        }),
      )

  -- Every value of a dictionary is a dictionary with a property.
  abbrev pub AllObjects : (Object N → Type 0) → Object N → Type 0
  AllObjects P [] = Unit
  AllObjects P ((k, v) ∷ rest) =
      ((fs : Fields N) × (v ≡ object fs) × P (entries fs)) × AllObjects P rest

  pub validate_replay-HasNatural :
      (v : Json N) (c : String) (o : Object N)
      → validate_replay v c ≡ ok o
      → (fs : Fields N) × (v ≡ object fs) × (entries fs ≡ o) × All (HasNatural o) replay_counts
  unfolding validate_replay
  validate_replay-HasNatural v c o h =
      let (p, e1, h1) = >>=-eq-ok (require_object v c) _ h in
      let (_, _, h2) =
        >>=-eq-ok (require_exact_keys p ("selection_checksum" ∷ replay_counts) c) _ h1 in
      let (_, e3, h3) = >>=-eq-ok (require_naturals p replay_counts c) _ h2 in
      let (unique, _, h4) = >>=-eq-ok (int_at "unique" p) _ h3 in
      let (selected, _, h5) = >>=-eq-ok (int_at "selected" p) _ h4 in
      let (_, _, h6) =
        >>=-eq-ok (reject_if (ltb_ℤ selected unique) (c <> ": unique exceeds selected")) _ h5 in
      let (_, _, h7) = >>=-eq-ok (require_hexes p ("selection_checksum" ∷ []) c 16) _ h6 in
      let (fs, shape, same) = require_object-ok v c p e1 in
      (
        fs,
        shape,
        same ∙ ok_inj h7,
        subst (λ q. All (HasNatural q) replay_counts) (ok_inj h7)
            (require_naturals-HasNatural p replay_counts c e3),
      )

  pub validate_topology-HasNatural :
      (v : Json N) (c : String) (o : Object N)
      → validate_topology v c ≡ ok o
      → (fs : Fields N) × (v ≡ object fs) × (entries fs ≡ o) × All (HasNatural o) topology_counts
  unfolding validate_topology
  validate_topology-HasNatural v c o h =
      let (p, e1, h1) = >>=-eq-ok (require_object v c) _ h in
      let (_, _, h2) = >>=-eq-ok (require_exact_keys p topology_keys c) _ h1 in
      let (_, e3, h3) = >>=-eq-ok (require_naturals p topology_counts c) _ h2 in
      let (births, _, h4) = >>=-eq-ok (get "births" p) _ h3 in
      let (m, _, h5) = >>=-eq-ok (int_at "accepted_births" p) _ h4 in
      let (bs, _, h6) =
        >>=-eq-ok (counted_list (as_list births) m (c <> ": birth trace length mismatch")) _ h5 in
      let (_, _, h7) = >>=-eq-ok (validate_births 0 bs (c <> ".births")) _ h6 in
      let (retired, _, h8) = >>=-eq-ok (get "retired_lineages" p) _ h7 in
      let (n, _, h9) = >>=-eq-ok (int_at "accepted_retirements" p) _ h8 in
      let (rs, _, h10) =
        >>=-eq-ok (counted_list (as_list retired) n (c <> ": retirement trace length mismatch")) _
          h9 in
      let (_, _, h11) = >>=-eq-ok (validate_lineages 0 rs (c <> ".retired_lineages")) _ h10 in
      let (_, _, h12) = >>=-eq-ok (check_training p m n c) _ h11 in
      let (fs, shape, same) = require_object-ok v c p e1 in
      (
        fs,
        shape,
        same ∙ ok_inj h12,
        subst (λ q. All (HasNatural q) topology_counts) (ok_inj h12)
            (require_naturals-HasNatural p topology_counts c e3),
      )
