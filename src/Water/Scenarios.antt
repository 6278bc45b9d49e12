-- ===== src/Water/Scenarios.antt =====
-- src/water_control/scenarios.py: the declared scenarios. The randomized ones, which are drawn from
-- `random.Random`, are a parameter of the suite.
pub mod Coverage
use mncs_reference_studies.Common.{
  ℕ, String, false, Option, none, some, List, [], ◌∷◌, ◌++◌, get_elem?,
}
use mncs_reference_studies.Common.Int.{ℤ, pos}
use mncs_reference_studies.Python.Floats.{Floats}
use mncs_reference_studies.Water.Model.{Scenario}

module _ (F : Floats) where
  -- The defaults of `Scenario`, and the step that all declared scenarios have.
  abbrev pub declared : String → ℕ → F.Float → List (ℤ × ℤ × F.Float) → Scenario F
  declared scenario_id duration_s initial_level_pct demand_profile = record {
    scenario_id = scenario_id;
    duration_s = duration_s;
    step_s = 60;
    initial_level_pct = initial_level_pct;
    demand_profile = demand_profile;
    power_outages = [];
    stale_windows = [];
    conflict_windows = [];
    restart_at_s = none;
    observed_demand_scale = F.tenths 10;
    randomized = false;
    seed = none;
  }

  abbrev pub normal_day : Scenario F
  normal_day = declared "normal-day" 43200 (F.tenths 600) (
      (pos 0, pos 10800, F.tenths 22)
      ∷ (pos 10800, pos 21600, F.tenths 42)
      ∷ (pos 21600, pos 32400, F.tenths 30)
      ∷ (pos 32400, pos 43200, F.tenths 48)
      ∷ [])

  abbrev pub peak_demand : Scenario F
  peak_demand = declared "peak-demand" 28800 (F.tenths 580) (
      (pos 0, pos 7200, F.tenths 35)
      ∷ (pos 7200, pos 24000, F.tenths 58)
      ∷ (pos 24000, pos 28800, F.tenths 30)
      ∷ [])

  abbrev pub power_outage : Scenario F
  power_outage =
      record (declared "power-outage" 28800 (F.tenths 700) ((pos 0, pos 28800, F.tenths 32) ∷ [])) {
        power_outages = (pos 7200, pos 10800) ∷ [];
      }

  abbrev pub stale_telemetry : Scenario F
  stale_telemetry =
      record (declared "stale-telemetry" 21600 (F.tenths 550)
        ((pos 0, pos 21600, F.tenths 34) ∷ [])) { stale_windows = (pos 7200, pos 9000) ∷ [] }

  abbrev pub conflicting_sensor : Scenario F
  conflicting_sensor =
      record (declared "conflicting-sensor" 21600 (F.tenths 550)
        ((pos 0, pos 21600, F.tenths 31) ∷ [])) { conflict_windows = (pos 5400, pos 7200) ∷ [] }

  abbrev pub checkpoint_restart : Scenario F
  checkpoint_restart =
      record (declared "checkpoint-restart" 28800 (F.tenths 620)
        ((pos 0, pos 14400, F.tenths 30) ∷ (pos 14400, pos 28800, F.tenths 46) ∷ [])) {
          restart_at_s = some (pos 14400);
        }

  abbrev pub outage_plus_stale : Scenario F
  outage_plus_stale =
      record (declared "outage-plus-stale-telemetry" 28800 (F.tenths 640)
        ((pos 0, pos 28800, F.tenths 38) ∷ [])) {
          power_outages = (pos 8400, pos 12000) ∷ [];
          stale_windows = (pos 7800, pos 12600) ∷ [];
        }

  abbrev pub restart_degraded : Scenario F
  restart_degraded =
      record (declared "restart-during-degraded-telemetry" 28800 (F.tenths 580)
        ((pos 0, pos 28800, F.tenths 36) ∷ [])) {
          stale_windows = (pos 12600, pos 16200) ∷ [];
          restart_at_s = some (pos 14400);
        }

  abbrev pub near_empty : Scenario F
  near_empty =
      declared "near-empty-initial-storage" 21600 (F.tenths 165)
        ((pos 0, pos 7200, F.tenths 28) ∷ (pos 7200, pos 21600, F.tenths 44) ∷ [])

  abbrev pub underestimate : Scenario F
  underestimate =
      record (declared "demand-model-underestimate" 28800 (F.tenths 520)
        ((pos 0, pos 28800, F.tenths 44) ∷ [])) { observed_demand_scale = F.hundredths 72 }

  abbrev pub overestimate : Scenario F
  overestimate =
      record (declared "demand-model-overestimate" 28800 (F.tenths 520)
        ((pos 0, pos 28800, F.tenths 32) ∷ [])) { observed_demand_scale = F.hundredths 130 }

  abbrev pub declared_scenarios : List (Scenario F)
  declared_scenarios =
      normal_day ∷ peak_demand ∷ power_outage ∷ stale_telemetry ∷ conflicting_sensor
      ∷ checkpoint_restart ∷ outage_plus_stale ∷ restart_degraded ∷ near_empty ∷ underestimate
      ∷ overestimate ∷ []

  -- `scenario_suite`
  unfoldable pub scenario_suite : List (Scenario F) → List (Scenario F)
  scenario_suite randomized_scenarios = declared_scenarios ++ randomized_scenarios
