-- ===== src/Water/Plant/Bounds.antt =====
-- What a step of the plant keeps.
use mncs_reference_studies.Common.{ℕ, ◌+◌, Bool, true, false, ◌≡◌, ◌⊎◌, refl, arith, if◌then◌else◌}
use mncs_reference_studies.Python.Floats.{Floats, max_float, IsAsymmetric}
use mncs_reference_studies.Water.Model.{SystemConfig}
use mncs_reference_studies.Water.Plant.{Plant, StepInput, step}

-- A pump that runs has power and was told to run, and a start counts once.
pub record IsPump (command power was_running runs : Bool) (before after : ℕ) : Type 0 where
  pub powered : runs ≡ true → (command ≡ true) × (power ≡ true)
  pub told : command ≡ true → power ≡ true → runs ≡ true
  pub started : was_running ≡ false → runs ≡ true → after ≡ before + 1
  pub unchanged : (was_running ≡ true) ⊎ (runs ≡ false) → after ≡ before

module _ {F : Floats} where
  abbrev pub IsWithin : SystemConfig F → F.Float → Type 0
  IsWithin config volume =
      (F.lt volume (F.tenths 0) ≡ false) × (F.lt config.tank_capacity_l volume ≡ false)

  clamp-IsWithin :
      (config : SystemConfig F) (volume : F.Float)
      → IsAsymmetric F
      → F.lt (F.tenths 0) config.tank_capacity_l ≡ true
      → IsWithin config (
          max_float F
            (F.tenths 0)
            (if F.lt config.tank_capacity_l volume then config.tank_capacity_l else volume))
  clamp-IsWithin config volume asym positive = ground (
    arith,
    asym (F.tenths 0) config.tank_capacity_l positive,
    asym (F.tenths 0) volume,
    asym (F.tenths 0) (F.tenths 0),
    asym config.tank_capacity_l config.tank_capacity_l,
  )

  pub record IsStepped (i : StepInput F) (p p' : Plant F) : Type 0 where
    pub within : IsWithin p'.config p'.state.tank_volume_l
    pub duty :
        IsPump i.duty_command i.power_available p.state.duty_running p'.state.duty_running
          p.state.duty_starts p'.state.duty_starts
    pub standby :
        IsPump i.standby_command i.power_available p.state.standby_running p'.state.standby_running
          p.state.standby_starts p'.state.standby_starts
    pub same_config : p'.config ≡ p.config

  -- Where the comparison of floats is asymmetric and the capacity is positive, a step from any state
  -- leaves the volume neither below 0 nor above the capacity, runs a pump exactly if it is commanded
  -- and there is power, and counts a start exactly when a pump that stood begins to run.
  pub step-IsStepped :
      (p : Plant F) (i : StepInput F)
      → IsAsymmetric F
      → F.lt (F.tenths 0) p.config.tank_capacity_l ≡ true
      → IsStepped i p (step p i)
  unfolding step
  step-IsStepped p i asym positive = record {
    within = clamp-IsWithin p.config _ asym positive;
    duty = record {
      powered = ground arith;
      told = ground arith;
      started = ground arith;
      unchanged = ground arith;
    };
    standby = record {
      powered = ground arith;
      told = ground arith;
      started = ground arith;
      unchanged = ground arith;
    };
    same_config = refl;
  }
