-- ===== src/Water/Simulation.antt =====
-- `run_scenario` of src/water_control/simulator.py without its restart: the telemetry of one step, the
-- decision, the violations it records, the step of the plant, and the loop over the steps.
pub mod Loop
pub mod Violations
use mncs_reference_studies.Common.{
  ℕ, zero, suc, ltb, ◌+◌, String, Bool, true, false, ◌&&◌, ◌||◌, not, List, [], ◌∷◌, ◌++◌, ◌==◌,
  bool_eq, if◌then◌else◌,
}
use mncs_reference_studies.Common.Int.{ℤ, pos, ltb_ℤ, leb_ℤ}
use mncs_reference_studies.Common.Result.{Result, ok, raise, ◌>>=◌}
use mncs_reference_studies.Common.Text.{◌<>◌, str_ℤ}
use mncs_reference_studies.Python.Floats.{Floats, min_float}
use mncs_reference_studies.Python.Json.{Codec}
use mncs_reference_studies.Water.Model.{
  TelemetryQuality, good, stale, conflict, is_good, is_emergency, is_degraded, WaterError,
  no_demand, zero_division, SystemConfig, TelemetrySample, AuthorizedIntent, Scenario,
}
use mncs_reference_studies.Water.Controller.{Controller, decide}
use mncs_reference_studies.Water.Plant.{Plant, StepInput, step}

-- `Plant.level_pct`; Python raises on a division by zero.
unfoldable pub level_pct : {F : Floats} → Plant F → Result WaterError F.Float
level_pct {F} p =
    let capacity = p.config.tank_capacity_l in
    if F.le capacity (F.tenths 0) && F.le (F.tenths 0) capacity
    then raise zero_division
    else ok (F.mul (F.div p.state.tank_volume_l capacity) (F.tenths 1000))

-- `_inside`
unfoldable pub inside : ℤ → List (ℤ × ℤ) → Bool
inside now_s [] = false
inside now_s ((start, end) ∷ rest) = leb_ℤ start now_s && ltb_ℤ now_s end || inside now_s rest

-- `_demand_at`
unfoldable pub demand_from : {N : Type 0} → String → ℤ → List (ℤ × ℤ × N) → Result WaterError N
demand_from name now_s [] = raise (no_demand name now_s)
demand_from name now_s ((start, end, demand) ∷ rest) =
    let later = demand_from name now_s rest in
    if leb_ℤ start now_s && ltb_ℤ now_s end then ok demand else later

-- What the telemetry of a step says, and the last good reading after it.
pub record Reading (F : Floats) : Type 0 where
  pub quality : TelemetryQuality
  pub observed_level : F.Float
  pub observed_at_s : ℤ
  pub last_good_level : F.Float
  pub last_good_at_s : ℤ

-- The local variables of the loop.
pub record Run (F : Floats) : Type 0 where
  pub plant : Plant F
  pub controller : Controller F
  pub last_good_level : F.Float
  pub last_good_at_s : ℤ
  pub previous_duty : Bool
  pub previous_standby : Bool
  pub emergency_steps : ℕ
  pub degraded_steps : ℕ
  pub safety_violations : List String

unfoldable pub read_level : {F : Floats} → Scenario F → Run F → ℤ → F.Float → Reading F
read_level {F} scenario r now_s level =
    if inside now_s scenario.stale_windows
    then record {
      quality = stale;
      observed_level = r.last_good_level;
      observed_at_s = r.last_good_at_s;
      last_good_level = r.last_good_level;
      last_good_at_s = r.last_good_at_s;
    }
    else if inside now_s scenario.conflict_windows
    then record {
      quality = conflict;
      observed_level = min_float F (F.tenths 1000) (F.add level (F.tenths 120));
      observed_at_s = now_s;
      last_good_level = r.last_good_level;
      last_good_at_s = r.last_good_at_s;
    }
    else record {
      quality = good;
      observed_level = level;
      observed_at_s = now_s;
      last_good_level = level;
      last_good_at_s = now_s;
    }

abbrev pub noted : Bool → ℤ → String → List String
noted found now_s what = if found then (str_ℤ now_s <> what) ∷ [] else []

-- The four checks of the commands of a step.
unfoldable pub changed_degraded : {F : Floats} → TelemetrySample F → Run F → AuthorizedIntent → Bool
changed_degraded sample r i =
    not (is_good sample.quality)
    && (not (i.duty_on == r.previous_duty) || not (i.standby_on == r.previous_standby))

unfoldable pub on_at_high_high : {F : Floats} → TelemetrySample F → Run F → AuthorizedIntent → Bool
on_at_high_high {F} sample r i =
    F.le r.controller.config.high_high_pct sample.tank_level_pct && (i.duty_on || i.standby_on)

unfoldable pub unpaired : AuthorizedIntent → Bool
unpaired i = i.standby_on && not i.duty_on

unfoldable pub no_lifetime : AuthorizedIntent → Bool
no_lifetime i = leb_ℤ i.expires_at_s i.issued_at_s

unfoldable pub violations :
    {F : Floats} → TelemetrySample F → Run F → AuthorizedIntent → ℤ → List String
violations sample r i now_s =
    noted (changed_degraded sample r i) now_s ": command changed on degraded telemetry"
    ++ noted (on_at_high_high sample r i) now_s ": pumps enabled at high-high level"
    ++ noted (unpaired i) now_s ": standby enabled without duty"
    ++ noted (no_lifetime i) now_s ": non-positive intent lifetime"

abbrev pub sample_of : {F : Floats} → Scenario F → ℤ → F.Float → Reading F → TelemetrySample F
sample_of {F} scenario now_s demand_lps reading = record {
  observed_at_s = reading.observed_at_s;
  received_at_s = now_s;
  tank_level_pct = reading.observed_level;
  demand_lps = F.mul demand_lps scenario.observed_demand_scale;
  power_available = not (inside now_s scenario.power_outages);
  quality = reading.quality;
}

-- The loop variables after a decision.
abbrev pub moved :
    {F : Floats}
    → Scenario F
    → Run F
    → ℤ
    → F.Float
    → Reading F
    → AuthorizedIntent
    → Controller F
    → Run F
moved {F} scenario r now_s demand_lps reading i c = record {
  plant = step r.plant (record {
    duty_command = i.duty_on;
    standby_command = i.standby_on;
    demand_lps = demand_lps;
    power_available = not (inside now_s scenario.power_outages);
    duration_s = pos scenario.step_s;
  });
  controller = c;
  last_good_level = reading.last_good_level;
  last_good_at_s = reading.last_good_at_s;
  previous_duty = i.duty_on;
  previous_standby = i.standby_on;
  emergency_steps = if is_emergency i.mode then r.emergency_steps + 1 else r.emergency_steps;
  degraded_steps = if is_degraded i.mode then r.degraded_steps + 1 else r.degraded_steps;
  safety_violations =
      r.safety_violations ++ violations (sample_of scenario now_s demand_lps reading) r i now_s;
}

unfoldable pub scenario_step :
    {F : Floats} → Codec F.Float → Scenario F → Run F → ℤ → Result WaterError (Run F)
scenario_step codec scenario r now_s = do
  demand_lps ← demand_from scenario.scenario_id now_s scenario.demand_profile
  level ← level_pct r.plant
  let reading = read_level scenario r now_s level
  decision ← decide codec r.controller (sample_of scenario now_s demand_lps reading) now_s
  ok (moved scenario r now_s demand_lps reading decision.0 decision.1)

-- The loop over `range(0, duration_s, step_s)` from `now_s` on, in a scenario without a restart. A
-- step of at least one second makes the duration fuel enough.
unfoldable pub scenario_loop :
    {F : Floats} → Codec F.Float → Scenario F → ℕ → Run F → ℕ → Result WaterError (Run F)
scenario_loop codec scenario zero r now_s = ok r
scenario_loop codec scenario (suc fuel) r now_s =
    if ltb now_s scenario.duration_s
    then (scenario_step codec scenario r (pos now_s)
        >>= (λ r'. scenario_loop codec scenario fuel r' (now_s + scenario.step_s)))
    else ok r
