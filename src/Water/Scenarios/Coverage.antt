-- ===== src/Water/Scenarios/Coverage.antt =====
-- Every declared scenario has a demand at every second of its duration.
use mncs_reference_studies.Common.{
  String, Bool, true, false, ◌&&◌, ◌≡◌, refl, sym, inl, inr, subst, List, [], ◌∷◌, ◌==◌, arith,
  Bool-cases,
}
use mncs_reference_studies.Common.Int.{ℤ, pos, ◌≤ℤ◌, ◌<ℤ◌, leb_ℤ, ltb_ℤ, int_eq}
use mncs_reference_studies.Common.Result.{ok}
use mncs_reference_studies.Common.Sorting.{All}
use mncs_reference_studies.Python.Floats.{Floats}
use mncs_reference_studies.Water.Model.{Scenario}
use mncs_reference_studies.Water.Simulation.{demand_from}
use mncs_reference_studies.Water.Scenarios.{declared_scenarios}

-- The windows of a profile follow on each other from one time to another.
covers : {N : Type 0} → ℤ → List (ℤ × ℤ × N) → ℤ → Bool
covers start [] end = leb_ℤ end start
covers start ((first, last, demand) ∷ rest) end = first == start && covers last rest end

demand-covers :
    {N : Type 0} (name : String) (t start end : ℤ) (profile : List (ℤ × ℤ × N))
    → covers start profile end ≡ true
    → start ≤ℤ t
    → t <ℤ end
    → (d : N) × (demand_from name t profile ≡ ok d)
unfolding covers demand_from
demand-covers name t start end [] h low high = absurd (ground arith)
demand-covers name t start end ((first, last, demand) ∷ rest) h low high =
    elim (Bool-cases (leb_ℤ first t && ltb_ℤ t last)) [
      | inl within ↦ (demand, rw within refl)
      | inr outside ↦
          let (d, found) = demand-covers name t last end rest parts.1 (after outside) high in
          (d, rw outside found)
    ]
  where
    parts : (first ≡ start) × (covers last rest end ≡ true)
    parts = ground (arith, int_eq.beq_iff first start)

    starts : first ≤ℤ t
    starts = subst (λ a. a ≤ℤ t) (sym parts.0) low

    after : (leb_ℤ first t && ltb_ℤ t last) ≡ false → last ≤ℤ t
    after outside = ground arith

module _ (F : Floats) where
  -- All seconds of a scenario.
  abbrev pub HasDemand : Scenario F → Type 0
  HasDemand scenario =
      (t : ℤ)
      → pos 0 ≤ℤ t
      → t <ℤ pos scenario.duration_s
      → (d : F.Float) × (demand_from scenario.scenario_id t scenario.demand_profile ≡ ok d)

  HasDemand-of_covers :
      (scenario : Scenario F)
      → covers (pos 0) scenario.demand_profile (pos scenario.duration_s) ≡ true
      → HasDemand scenario
  HasDemand-of_covers scenario h t low high =
      demand-covers scenario.scenario_id t (pos 0) (pos scenario.duration_s) scenario.demand_profile
        h low high

  all_cover : List (Scenario F) → Bool
  all_cover [] = true
  all_cover (scenario ∷ rest) =
      covers (pos 0) scenario.demand_profile (pos scenario.duration_s) && all_cover rest

  all_cover-HasDemand :
      (scenarios : List (Scenario F)) → all_cover scenarios ≡ true → All HasDemand scenarios
  unfolding all_cover
  all_cover-HasDemand [] h = tt
  all_cover-HasDemand (scenario ∷ rest) h =
      (HasDemand-of_covers scenario parts.0, all_cover-HasDemand rest parts.1)
    where
      parts :
          (covers (pos 0) scenario.demand_profile (pos scenario.duration_s) ≡ true)
          × (all_cover rest ≡ true)
      parts = ground arith

  -- In every declared scenario `_demand_at` finds a demand at each time from 0 up to the duration.
  pub declared_scenarios-HasDemand : All HasDemand (declared_scenarios F)
  unfolding covers all_cover
  declared_scenarios-HasDemand = all_cover-HasDemand (declared_scenarios F) refl
