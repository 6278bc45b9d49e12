-- ===== src/Water/Planner/Pairing.antt =====
-- Neither planner asks for the standby pump without the duty pump.
use mncs_reference_studies.Common.{ℕ, Bool, true, ◌≡◌, sym, subst, ◌∙◌, arith}
use mncs_reference_studies.Common.Result.{ok, ok_inj}
use mncs_reference_studies.Python.Floats.{Floats}
use mncs_reference_studies.Water.Model.{TelemetrySample, PlannerProposal, ControllerState}
use mncs_reference_studies.Water.Planner.{
  int_of, decision, readable_baseline, generated_table, level_index, demand_index, quality_index,
}
use mncs_reference_studies.Water.Planner.Table.{generated_table-decision}

abbrev pub IsPaired : Bool → Bool → Type 0
IsPaired duty standby = standby ≡ true → duty ≡ true

decision-IsPaired :
    (level demand quality : ℕ) (duty standby power : Bool)
    → IsPaired duty standby
    → IsPaired
        (decision level demand (int_of duty) (int_of standby) (int_of power) quality).0
        (decision level demand (int_of duty) (int_of standby) (int_of power) quality).1
unfolding decision
decision-IsPaired level demand quality duty standby power h k = ground arith

module _ {F : Floats} (x : TelemetrySample F) (s : ControllerState) where
  -- In a state whose standby pump is off or whose duty pump is on, the proposal of either planner
  -- has its standby pump off or its duty pump on.
  pub propose-IsPaired :
      IsPaired s.duty_on s.standby_on
      → IsPaired (readable_baseline x s).duty_on (readable_baseline x s).standby_on
        × ((p : PlannerProposal) → generated_table x s ≡ ok p → IsPaired p.duty_on p.standby_on)
  unfolding readable_baseline
  propose-IsPaired h = (
    (λ k. ground arith),
    λ p e.
        subst (λ (q : PlannerProposal). IsPaired q.duty_on q.standby_on)
          (ok_inj (sym (generated_table-decision x s) ∙ e))
          (decision-IsPaired (level_index x) (demand_index x) (quality_index x.quality) s.duty_on
            s.standby_on x.power_available h),
  )
