-- ===== src/Water/Plant.antt =====
-- `Plant` of src/water_control/simulator.py: the tank, its pumps and its demand.
pub mod Bounds
use mncs_reference_studies.Common.{ℕ, ◌+◌, Bool, true, false, ◌&&◌, not, if◌then◌else◌}
use mncs_reference_studies.Common.Int.{ℤ, pos}
use mncs_reference_studies.Python.Floats.{Floats, min_float, max_float}
use mncs_reference_studies.Water.Model.{SystemConfig, PlantState}
use mncs_reference_studies.Water.Planner.{int_of}

pub record Plant (F : Floats) : Type 0 where
  pub config : SystemConfig F
  pub state : PlantState F

-- What a step is told: the commands, the demand, the power and the duration.
pub record StepInput (F : Floats) : Type 0 where
  pub duty_command : Bool
  pub standby_command : Bool
  pub demand_lps : F.Float
  pub power_available : Bool
  pub duration_s : ℤ

-- `Plant.at_level`
unfoldable pub at_level : {F : Floats} → SystemConfig F → F.Float → Plant F
at_level {F} config level_pct = record {
  config = config;
  state = record {
    tank_volume_l = F.div (F.mul config.tank_capacity_l level_pct) (F.tenths 1000);
    duty_running = false;
    standby_running = false;
    energy_kwh = F.tenths 0;
    duty_starts = 0;
    standby_starts = 0;
    unmet_demand_l = F.tenths 0;
    overflow_l = F.tenths 0;
  };
}

abbrev pub count_start : Bool → Bool → ℕ → ℕ
count_start running was_running starts = if running && not was_running then starts + 1 else starts

-- `flow * int(running)` for the two pumps, added up.
abbrev pub both_pumps : (F : Floats) → F.Float → F.Float → Bool → Bool → F.Float
both_pumps F duty standby duty_running standby_running =
    F.add (F.mul duty (F.of_int (pos (int_of duty_running))))
      (F.mul standby (F.of_int (pos (int_of standby_running))))

module _ {F : Floats} (p : Plant F) (i : StepInput F) where
  abbrev pub duty_runs : Bool
  duty_runs = i.duty_command && i.power_available

  abbrev pub standby_runs : Bool
  standby_runs = i.standby_command && i.power_available

  unfoldable pub available_l : F.Float
  available_l = F.add p.state.tank_volume_l (
      F.mul (F.of_int i.duration_s)
        (both_pumps F p.config.duty_flow_lps p.config.standby_flow_lps duty_runs standby_runs))

  unfoldable pub demand_l : F.Float
  demand_l = F.mul (F.of_int i.duration_s) i.demand_lps

  abbrev pub delivered_l : F.Float
  delivered_l = min_float F available_l demand_l

  abbrev pub surplus_l : F.Float
  surplus_l = F.sub available_l delivered_l

  abbrev pub is_overfull : Bool
  is_overfull = F.lt p.config.tank_capacity_l surplus_l

  -- `Plant.step`
  unfoldable pub step : Plant F
  step = record p {
    state = record {
      tank_volume_l =
          max_float F (F.tenths 0) (if is_overfull then p.config.tank_capacity_l else surplus_l);
      duty_running = duty_runs;
      standby_running = standby_runs;
      energy_kwh = F.add p.state.energy_kwh (
          F.mul (F.div (F.of_int i.duration_s) (F.tenths 36000))
            (both_pumps F p.config.duty_power_kw p.config.standby_power_kw duty_runs standby_runs));
      duty_starts = count_start duty_runs p.state.duty_running p.state.duty_starts;
      standby_starts = count_start standby_runs p.state.standby_running p.state.standby_starts;
      unmet_demand_l = F.add p.state.unmet_demand_l (F.sub demand_l delivered_l);
      overflow_l =
          if is_overfull
          then F.add p.state.overflow_l (F.sub surplus_l p.config.tank_capacity_l)
          else p.state.overflow_l;
    };
  }
