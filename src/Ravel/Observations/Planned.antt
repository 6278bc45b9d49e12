-- ===== src/Ravel/Observations/Planned.antt =====
-- What `validate_plan` admits, both ways.
use mncs_reference_studies.Common.{
  ℕ, ◌+◌, ◌≤◌, String, true, not, ◌≡◌, ◌↔◌, refl, sym, ◌∙◌, subst, some, List, [], ◌∷◌, arith, ◌==◌,
  string_eq,
}
use mncs_reference_studies.Common.Int.{ℤ, pos, ◌+ℤ◌, ltb_ℤ, int_eq}
use mncs_reference_studies.Common.Result.{ok, >>=-eq-ok, ok_inj}
use mncs_reference_studies.Common.Sorting.{All}
use mncs_reference_studies.Common.Sets.{contains}
use mncs_reference_studies.Common.Text.{◌<>◌}
use mncs_reference_studies.Dict.{lookup, keys}
use mncs_reference_studies.Python.Json.{Json, Fields, int, object, entries}
use mncs_reference_studies.Ravel.Values.{
  Object, reject_if, all_in, same_set, require_object, require_exact_keys, require_naturals,
  require_hexes, int_at,
}
use mncs_reference_studies.Ravel.Values.Checked.{
  HasNatural, HasHex, at_name, at_names, require_object-ok, require_exact_keys-ok, int_at-natural,
  require_naturals-HasNatural, HasNatural-require_naturals, require_hexes-HasHex,
  HasHex-require_hexes,
}
use mncs_reference_studies.Ravel.Observations.{
  plan_counts, plan_keys, plan_bounded, check_bounded, check_plan, validate_plan,
}

reject_above :
    (n m : ℕ) (message : String) → (reject_if (ltb_ℤ (pos m) (pos n)) message ≡ ok tt) ↔ (n ≤ m)
reject_above n m message = ground arith

reject_unequal : (a b : ℤ) (message : String) → (reject_if (not (a == b)) message ≡ ok tt) ↔ (a ≡ b)
reject_unequal a b message = ground (arith, int_eq.beq_iff a b)

sum_pos : (a b d n : ℕ) → ((pos a +ℤ pos b +ℤ pos d) ≡ pos n) ↔ (a + b + d ≡ n)
unfolding ◌+ℤ◌
sum_pos a b d n = ground arith

module _ {N : Type 0} where
  -- A count that is at most the number of cases.
  abbrev pub IsBounded : Object N → ℕ → String → Type 0
  IsBounded o cases key = (n : ℕ) × (lookup key o ≡ some (int (pos n))) × (n ≤ cases)

  -- An admissible planning record: exactly the declared keys, natural counts of which the bounded
  -- ones are at most the number of cases, with every case either found, disconnected or without a
  -- supported edge, and a checksum of 16 hexadecimal digits.
  pub record IsPlan (o : Object N) : Type 0 where
    pub declared : same_set (keys o) plan_keys ≡ true
    pub naturals : All (HasNatural o) plan_counts
    pub cases : ℕ
    pub cases_at : lookup "cases" o ≡ some (int (pos cases))
    pub bounded : All (IsBounded o cases) plan_bounded
    pub found : ℕ
    pub found_at : lookup "path_found" o ≡ some (int (pos found))
    pub disconnected : ℕ
    pub disconnected_at : lookup "graph_disconnection_failures" o ≡ some (int (pos disconnected))
    pub unsupported : ℕ
    pub unsupported_at : lookup "no_supported_edge_failures" o ≡ some (int (pos unsupported))
    pub partition : found + disconnected + unsupported ≡ cases
    pub checksum : All (HasHex o 16) ("checksum" ∷ [])

  check_bounded-IsBounded :
      (o : Object N) (ks : List String) (cases : ℕ) (c : String)
      → All (HasNatural o) ks
      → check_bounded o ks (pos cases) c ≡ ok tt
      → All (IsBounded o cases) ks
  unfolding check_bounded
  check_bounded-IsBounded o [] cases c naturals h = tt
  check_bounded-IsBounded o (k ∷ ks) cases c ((n, e), rest) h =
      let (m, e1, h1) = >>=-eq-ok (int_at k o) _ h in
      let (_, e2, h2) =
        >>=-eq-ok (reject_if (ltb_ℤ (pos cases) m) (c <> "." <> k <> ": exceeds cases")) _ h1 in
      let same = ok_inj (sym e1 ∙ int_at-natural k o n e) in
      (
        (
          n,
          e,
          (reject_above n cases (c <> "." <> k <> ": exceeds cases")).0 (
              subst
                (λ x. reject_if (ltb_ℤ (pos cases) x) (c <> "." <> k <> ": exceeds cases") ≡ ok tt)
                same e2),
        ),
        check_bounded-IsBounded o ks cases c rest h2,
      )

  IsBounded-check_bounded :
      (o : Object N) (ks : List String) (cases : ℕ) (c : String)
      → All (IsBounded o cases) ks
      → check_bounded o ks (pos cases) c ≡ ok tt
  unfolding check_bounded
  IsBounded-check_bounded o [] cases c b = refl
  IsBounded-check_bounded o (k ∷ ks) cases c ((n, e, le), rest) =
      rw (int_at-natural k o n e, (reject_above n cases (c <> "." <> k <> ": exceeds cases")).1 le)
        (IsBounded-check_bounded o ks cases c rest)

  check_plan-IsPlan :
      (o : Object N) (c : String)
      → same_set (keys o) plan_keys ≡ true
      → All (HasNatural o) plan_counts
      → check_plan o c ≡ ok tt
      → All (HasHex o 16) ("checksum" ∷ [])
      → IsPlan o
  unfolding check_plan contains all_in
  check_plan-IsPlan o c declared naturals h hex =
      let (cases, at_cases) = at_name (HasNatural o) "cases" plan_counts refl naturals in
      let (found, at_found) = at_name (HasNatural o) "path_found" plan_counts refl naturals in
      let (disc, at_disc) =
        at_name (HasNatural o) "graph_disconnection_failures" plan_counts refl naturals in
      let (unsup, at_unsup) =
        at_name (HasNatural o) "no_supported_edge_failures" plan_counts refl naturals in
      let h' = rw (int_at-natural "cases" o cases at_cases) at h in
      let (_, e1, h1) = >>=-eq-ok (check_bounded o plan_bounded (pos cases) c) _ h' in
      let h2 =
        rw
          (
            int_at-natural "path_found" o found at_found,
            int_at-natural "graph_disconnection_failures" o disc at_disc,
            int_at-natural "no_supported_edge_failures" o unsup at_unsup,
          )
          at h1 in
      record {
        declared = declared;
        naturals = naturals;
        cases = cases;
        cases_at = at_cases;
        bounded =
            check_bounded-IsBounded o plan_bounded cases c
              (at_names (HasNatural o) plan_bounded plan_counts refl naturals) e1;
        found = found;
        found_at = at_found;
        disconnected = disc;
        disconnected_at = at_disc;
        unsupported = unsup;
        unsupported_at = at_unsup;
        partition = (sum_pos found disc unsup cases).0 ((reject_unequal _ _ _).0 h2);
        checksum = hex;
      }

  -- What `validate_plan` returns is the dictionary it was given, and an admissible planning record.
  pub validate_plan-IsPlan :
      (v : Json N) (c : String) (o : Object N)
      → validate_plan v c ≡ ok o
      → (fs : Fields N) × (v ≡ object fs) × (entries fs ≡ o) × IsPlan o
  unfolding validate_plan
  validate_plan-IsPlan v c o h =
      let (o', e1, h1) = >>=-eq-ok (require_object v c) _ h in
      let (_, e2, h2) = >>=-eq-ok (require_exact_keys o' plan_keys c) _ h1 in
      let (_, e3, h3) = >>=-eq-ok (require_naturals o' plan_counts c) _ h2 in
      let (_, e4, h4) = >>=-eq-ok (check_plan o' c) _ h3 in
      let (_, e5, h5) = >>=-eq-ok (require_hexes o' ("checksum" ∷ []) c 16) _ h4 in
      let (fs, shape, same) = require_object-ok v c o' e1 in
      (
        fs,
        shape,
        same ∙ ok_inj h5,
        subst IsPlan (ok_inj h5) (
            check_plan-IsPlan o' c ((require_exact_keys-ok o' plan_keys c).0 e2)
              (require_naturals-HasNatural o' plan_counts c e3) e4
              (require_hexes-HasHex o' ("checksum" ∷ []) c 16 e5)),
      )

  IsPlan-check_plan : (o : Object N) (c : String) → IsPlan o → check_plan o c ≡ ok tt
  unfolding check_plan
  IsPlan-check_plan o c p =
      rw
        (
          int_at-natural "cases" o p.cases p.cases_at,
          IsBounded-check_bounded o plan_bounded p.cases c p.bounded,
          int_at-natural "path_found" o p.found p.found_at,
          int_at-natural "graph_disconnection_failures" o p.disconnected p.disconnected_at,
          int_at-natural "no_supported_edge_failures" o p.unsupported p.unsupported_at,
        )
        ((reject_unequal (pos p.found +ℤ pos p.disconnected +ℤ pos p.unsupported) (pos p.cases)
            (c <> ": planning disposition contradiction")).1
          ((sum_pos p.found p.disconnected p.unsupported p.cases).1 p.partition))

  -- `validate_plan` passes exactly the admissible planning records, and returns them as they are.
  pub validate_plan_iff :
      (fs : Fields N) (c : String)
      → (validate_plan (object fs) c ≡ ok (entries fs)) ↔ IsPlan (entries fs)
  unfolding validate_plan require_object
  validate_plan_iff fs c = (
    (λ h. (validate_plan-IsPlan (object fs) c (entries fs) h).3),
    λ p.
        rw
          (
            (require_exact_keys-ok (entries fs) plan_keys c).1 p.declared,
            HasNatural-require_naturals (entries fs) plan_counts c p.naturals,
            IsPlan-check_plan (entries fs) c p,
            HasHex-require_hexes (entries fs) ("checksum" ∷ []) c 16 p.checksum,
          )
          refl,
  )
