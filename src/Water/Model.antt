-- ===== src/Water/Model.antt =====
-- src/water_control/model.py: the records of the study. Times are integers, `reasons` are texts.
use mncs_reference_studies.Common.{ℕ, String, Bool, false, true, List, Option, if◌then◌else◌}
use mncs_reference_studies.Common.Int.{ℤ, pos, negsuc, ◌-ℤ◌, ltb_ℤ}
use mncs_reference_studies.Python.Floats.{Floats}

pub data TelemetryQuality : Type 0 where
  good : TelemetryQuality
  stale : TelemetryQuality
  conflict : TelemetryQuality

pub data ControlMode : Type 0 where
  normal : ControlMode
  degraded : ControlMode
  hold : ControlMode
  emergency : ControlMode

abbrev pub quality_value : TelemetryQuality → String
quality_value good = "GOOD"
quality_value stale = "STALE"
quality_value conflict = "CONFLICT"

abbrev pub mode_value : ControlMode → String
mode_value normal = "NORMAL"
mode_value degraded = "DEGRADED"
mode_value hold = "HOLD"
mode_value emergency = "EMERGENCY"

abbrev pub is_good : TelemetryQuality → Bool
is_good good = true
is_good _ = false

abbrev pub is_emergency : ControlMode → Bool
is_emergency emergency = true
is_emergency _ = false

abbrev pub is_degraded : ControlMode → Bool
is_degraded degraded = true
is_degraded _ = false

-- `mode in {ControlMode.DEGRADED, ControlMode.HOLD}`
abbrev pub is_holding : ControlMode → Bool
is_holding degraded = true
is_holding hold = true
is_holding _ = false

-- The exceptions that the package raises.
pub data WaterError : Type 0 where
  sequence_error : WaterError
  planner_mismatch : WaterError
  sequence_mismatch : WaterError
  missing_key : String → WaterError
  unreadable : WaterError
  no_demand : String → ℤ → WaterError
  index_error : WaterError
  zero_division : WaterError

pub record SystemConfig (F : Floats) : Type 0 where
  pub tank_capacity_l : F.Float
  pub duty_flow_lps : F.Float
  pub standby_flow_lps : F.Float
  pub duty_power_kw : F.Float
  pub standby_power_kw : F.Float
  pub low_low_pct : F.Float
  pub high_high_pct : F.Float
  pub min_on_s : ℤ
  pub min_off_s : ℤ
  pub telemetry_max_age_s : ℤ
  pub intent_ttl_s : ℤ

abbrev pub default_config : (F : Floats) → SystemConfig F
default_config F = record {
  tank_capacity_l = F.tenths 1000000;
  duty_flow_lps = F.tenths 40;
  standby_flow_lps = F.tenths 30;
  duty_power_kw = F.tenths 75;
  standby_power_kw = F.tenths 55;
  low_low_pct = F.tenths 150;
  high_high_pct = F.tenths 900;
  min_on_s = pos 600;
  min_off_s = pos 300;
  telemetry_max_age_s = pos 180;
  intent_ttl_s = pos 120;
}

pub record TelemetrySample (F : Floats) : Type 0 where
  pub observed_at_s : ℤ
  pub received_at_s : ℤ
  pub tank_level_pct : F.Float
  pub demand_lps : F.Float
  pub power_available : Bool
  pub quality : TelemetryQuality

-- `age_s`, the built-in `max` of 0 and a difference.
unfoldable pub age_s : {F : Floats} → TelemetrySample F → ℤ
age_s x =
    let elapsed = x.received_at_s -ℤ x.observed_at_s in
    if ltb_ℤ (pos 0) elapsed then elapsed else pos 0

pub record PlannerProposal : Type 0 where
  pub duty_on : Bool
  pub standby_on : Bool
  pub reason : String
  pub planner_id : String

pub record Adjudication : Type 0 where
  pub duty_on : Bool
  pub standby_on : Bool
  pub mode : ControlMode
  pub reasons : List String

pub record AuthorizedIntent : Type 0 where
  pub sequence : ℤ
  pub issued_at_s : ℤ
  pub expires_at_s : ℤ
  pub duty_on : Bool
  pub standby_on : Bool
  pub mode : ControlMode
  pub planner_id : String
  pub proposal_reason : String
  pub safety_reasons : List String

pub record ControllerState : Type 0 where
  pub duty_on : Bool
  pub standby_on : Bool
  pub duty_last_changed_s : ℤ
  pub standby_last_changed_s : ℤ
  pub last_sequence : ℤ
  pub last_mode : ControlMode

abbrev pub default_state : ControllerState
default_state = record {
  duty_on = false;
  standby_on = false;
  duty_last_changed_s = negsuc 9999;
  standby_last_changed_s = negsuc 9999;
  last_sequence = pos 0;
  last_mode = normal;
}

pub record PlantState (F : Floats) : Type 0 where
  pub tank_volume_l : F.Float
  pub duty_running : Bool
  pub standby_running : Bool
  pub energy_kwh : F.Float
  pub duty_starts : ℕ
  pub standby_starts : ℕ
  pub unmet_demand_l : F.Float
  pub overflow_l : F.Float

pub record Scenario (F : Floats) : Type 0 where
  pub scenario_id : String
  pub duration_s : ℕ
  pub step_s : ℕ
  pub initial_level_pct : F.Float
  pub demand_profile : List (ℤ × ℤ × F.Float)
  pub power_outages : List (ℤ × ℤ)
  pub stale_windows : List (ℤ × ℤ)
  pub conflict_windows : List (ℤ × ℤ)
  pub restart_at_s : Option ℤ
  pub observed_demand_scale : F.Float
  pub randomized : Bool
  pub seed : Option ℤ
