-- ===== src/Water/Simulation/Loop.antt =====
-- The whole loop of a scenario without a restart.
use mncs_reference_studies.Common.{
  ℕ, zero, suc, ◌+◌, ◌≤◌, ◌<◌, false, ◌&&◌, ◌≡◌, refl, ap, ◌∙◌, inl, inr, arith, ltb, ltb→lt,
  Bool-cases, if◌then◌else◌,
}
use mncs_reference_studies.Common.Int.{ℤ, pos, ◌<ℤ◌}
use mncs_reference_studies.Common.Result.{Result, ok, raise, ◌>>=◌}
use mncs_reference_studies.Python.Floats.{Floats}
use mncs_reference_studies.Python.Json.{Codec}
use mncs_reference_studies.Water.Model.{
  Scenario, SystemConfig, TelemetrySample, ControllerState, PlannerProposal,
}
use mncs_reference_studies.Water.Planner.{Planner}
use mncs_reference_studies.Water.Simulation.{
  Run, level_pct, demand_from, scenario_step, scenario_loop,
}
use mncs_reference_studies.Water.Simulation.Violations.{IsRunning, reading_of, scenario_step-IsStep}

bind_ext :
    {E A B : Type 0} (m : Result E A) (f g : A → Result E B)
    → ((a : A) → f a ≡ g a)
    → (m >>= f) ≡ (m >>= g)
bind_ext (ok a) f g h = h a
bind_ext (raise e) f g h = refl

module _ {F : Floats} (codec : Codec F.Float) (scenario : Scenario F) where
  -- A planner that never raises under a configuration.
  abbrev pub AlwaysProposes : Planner F → SystemConfig F → Type 0
  AlwaysProposes planner config =
      (x : TelemetrySample F) (s : ControllerState)
      → (p : PlannerProposal) × (planner.propose x s config ≡ ok p)

  -- What a run of the loop needs, and keeps.
  pub record IsSound (r : Run F) : Type 0 where
    pub running : IsRunning codec r
    pub lives : pos 0 <ℤ r.controller.config.intent_ttl_s
    pub proposes : AlwaysProposes r.controller.planner r.controller.config
    pub has_capacity :
        (F.le r.plant.config.tank_capacity_l (F.tenths 0)
          && F.le (F.tenths 0) r.plant.config.tank_capacity_l)
        ≡ false

  has_level : (r : Run F) → IsSound r → (l : F.Float) × (level_pct r.plant ≡ ok l)
  unfolding level_pct
  has_level r v = (
    F.mul (F.div r.plant.state.tank_volume_l r.plant.config.tank_capacity_l) (F.tenths 1000),
    rw v.has_capacity refl,
  )

  step-IsSound :
      (r : Run F) (now_s : ℤ) (d : F.Float)
      → IsSound r
      → demand_from scenario.scenario_id now_s scenario.demand_profile ≡ ok d
      → (r' : Run F) × (scenario_step codec scenario r now_s ≡ ok r') × IsSound r'
  step-IsSound r now_s d v found =
      let (l, level) = has_level r v in
      let (p, proposed) = v.proposes (reading_of codec scenario r now_s d l) r.controller.state in
      let (r', returned, s) =
        scenario_step-IsStep codec scenario r now_s d l p v.running v.lives found level proposed in
      (
        r',
        returned,
        record {
          running = s.running;
          lives = rw s.same_config v.lives;
          proposes = rw (s.same_config, s.same_planner) v.proposes;
          has_capacity = rw s.same_plant v.has_capacity;
        },
      )

  -- Further fuel changes nothing where the fuel reaches the duration in steps of a second or more.
  scenario_loop_fuel :
      (fuel : ℕ) (r : Run F) (now_s : ℕ)
      → 1 ≤ scenario.step_s
      → scenario.duration_s ≤ now_s + fuel
      → scenario_loop codec scenario (suc fuel) r now_s ≡ scenario_loop codec scenario fuel r now_s
  unfolding scenario_loop
  scenario_loop_fuel zero r now_s forward enough = rw (over_at now_s (omega arith)) refl
    where
      over_at : (n : ℕ) → scenario.duration_s ≤ n → ltb n scenario.duration_s ≡ false
      over_at n h = ground arith
  scenario_loop_fuel (suc fuel) r now_s forward enough =
      ap (λ m. if ltb now_s scenario.duration_s then m else ok r)
        (bind_ext (scenario_step codec scenario r (pos now_s)) _ _
          (λ r'. scenario_loop_fuel fuel r' (now_s + scenario.step_s) forward (omega arith)))

  more_fuel :
      (r : Run F) (extra : ℕ)
      → 1 ≤ scenario.step_s
      → scenario_loop codec scenario (scenario.duration_s + extra) r 0
        ≡ scenario_loop codec scenario scenario.duration_s r 0
  more_fuel r zero forward = ap (λ k. scenario_loop codec scenario k r 0) (omega arith)
  more_fuel r (suc extra) forward =
      ap (λ k. scenario_loop codec scenario k r 0) (one_more scenario.duration_s)
      ∙ scenario_loop_fuel (scenario.duration_s + extra) r 0 forward (omega arith)
      ∙ more_fuel r extra forward
    where
      one_more : (a : ℕ) → a + suc extra ≡ suc (a + extra)
      one_more a = omega arith

  scenario_loop-IsSound :
      (fuel : ℕ) (r : Run F) (now_s : ℕ)
      → ((t : ℕ)
          → t < scenario.duration_s
          → (d : F.Float) × (demand_from scenario.scenario_id (pos t) scenario.demand_profile
              ≡ ok d))
      → IsSound r
      → (r' : Run F) × (scenario_loop codec scenario fuel r now_s ≡ ok r') × IsSound r'
  unfolding scenario_loop
  scenario_loop-IsSound zero r now_s demands v = (r, refl, v)
  scenario_loop-IsSound (suc fuel) r now_s demands v =
      elim (Bool-cases (ltb now_s scenario.duration_s)) [
        | inr over ↦ (r, rw over refl, v)
        | inl more ↦
            let (d, found) = demands now_s (ltb→lt now_s scenario.duration_s more) in
            let (r', returned, v') = step-IsSound r (pos now_s) d v found in
            let (r'', rest, v'') =
              scenario_loop-IsSound fuel r' (now_s + scenario.step_s) demands v' in
            (r'', rw (more, returned) rest, v'')
      ]

  -- With a demand at every second, steps of at least a second, a planner that never raises, a
  -- positive intent lifetime and a tank of some capacity, the loop of a scenario without a restart
  -- never raises and is through within its duration, since more fuel gives the same end; there the
  -- controller is in step with a journal that verifies.
  pub scenario_loop-ends :
      (r : Run F)
      → 1 ≤ scenario.step_s
      → ((t : ℕ)
          → t < scenario.duration_s
          → (d : F.Float) × (demand_from scenario.scenario_id (pos t) scenario.demand_profile
              ≡ ok d))
      → IsSound r
      → (r' : Run F) × ((extra : ℕ)
          → scenario_loop codec scenario (scenario.duration_s + extra) r 0 ≡ ok r')
        × IsSound r'
  scenario_loop-ends r forward demands v =
      let (r', ends, v') = scenario_loop-IsSound scenario.duration_s r 0 demands v in
      (r', (λ extra. more_fuel r extra forward ∙ ends), v')
