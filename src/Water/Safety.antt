-- ===== src/Water/Safety.antt =====
-- src/water_control/safety.py: the authority that accepts, changes or overrides a proposal.
pub mod Rules
use mncs_reference_studies.Common.{
  String, Bool, true, false, not, ◌&&◌, ◌||◌, Option, none, some, List, [], ◌∷◌, ◌++◌, ◌==◌,
  bool_eq, if◌then◌else◌,
}
use mncs_reference_studies.Common.Int.{ℤ, ◌-ℤ◌, ltb_ℤ}
use mncs_reference_studies.Common.Text.{◌<>◌, str_ℤ}
use mncs_reference_studies.Python.Floats.{Floats}
use mncs_reference_studies.Water.Model.{
  ControlMode, normal, degraded, hold, emergency, is_good, SystemConfig, TelemetrySample, age_s,
  PlannerProposal, Adjudication, ControllerState,
}

-- `_hold`
abbrev pub held : ControllerState → ControlMode → String → Adjudication
held state mode reason = record {
  duty_on = state.duty_on;
  standby_on = state.standby_on;
  mode = mode;
  reasons = reason ∷ [];
}

abbrev pub forced : Bool → String → Adjudication
forced on reason = record { duty_on = on; standby_on = on; mode = emergency; reasons = reason ∷ [] }

abbrev pub labelled : String → Option String → List String
labelled label none = []
labelled label (some reason) = (label <> reason) ∷ []

abbrev pub or_accepted : List String → List String
or_accepted [] = "proposal accepted" ∷ []
or_accepted (r ∷ rs) = r ∷ rs

module _ {F : Floats} (config : SystemConfig F) where
  abbrev pub minimum_dwell : Bool → ℤ
  minimum_dwell current = if current then config.min_on_s else config.min_off_s

  -- `_apply_dwell`
  unfoldable pub apply_dwell : Bool → Bool → ℤ → ℤ → Bool × Option String
  apply_dwell requested current last_changed_s now_s =
      let elapsed = now_s -ℤ last_changed_s in
      let minimum = minimum_dwell current in
      if requested == current
      then (current, none)
      else if ltb_ℤ elapsed minimum
      then (current, some ("minimum dwell retained for " <> str_ℤ (minimum -ℤ elapsed) <> "s"))
      else (requested, none)

  -- The first test of `authorize`.
  unfoldable pub invalid : TelemetrySample F → Bool
  invalid sample =
      not (F.is_finite sample.tank_level_pct && F.is_finite sample.demand_lps)
      || not (F.le (F.tenths 0) sample.tank_level_pct && F.le sample.tank_level_pct (F.tenths 1000))
      || F.lt sample.demand_lps (F.tenths 0)

  -- The part of `authorize` after the early returns.
  unfoldable pub adjudicate : PlannerProposal → ControllerState → ℤ → Adjudication
  adjudicate proposal state now_s =
      let unpaired = proposal.standby_on && not proposal.duty_on in
      let (duty_on, duty_reason) =
        apply_dwell (if unpaired then true else proposal.duty_on) state.duty_on
          state.duty_last_changed_s now_s in
      let (standby_on, standby_reason) =
        apply_dwell proposal.standby_on state.standby_on state.standby_last_changed_s now_s in
      let removed = standby_on && not duty_on in
      record {
        duty_on = duty_on;
        standby_on = if removed then false else standby_on;
        mode = normal;
        reasons = or_accepted (
            (if unpaired then "standby requires duty" ∷ [] else [])
            ++ labelled "duty " duty_reason
            ++ labelled "standby " standby_reason
            ++ (if removed then "standby removed after duty dwell adjudication" ∷ [] else []));
      }

  unfoldable pub authorize :
      PlannerProposal → TelemetrySample F → ControllerState → ℤ → Adjudication
  authorize proposal sample state now_s =
      if invalid sample
      then held state hold "invalid telemetry"
      else if not (is_good sample.quality)
      then held state degraded "telemetry quality is not GOOD"
      else if ltb_ℤ config.telemetry_max_age_s (age_s sample)
      then held state degraded "telemetry exceeds freshness limit"
      else if not sample.power_available
      then forced false "power unavailable"
      else if F.le config.high_high_pct sample.tank_level_pct
      then forced false "high-high tank level"
      else if F.le sample.tank_level_pct config.low_low_pct
      then forced true "low-low tank level"
      else adjudicate proposal state now_s
