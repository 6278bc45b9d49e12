-- ===== src/Water/Simulation/Violations.antt =====
-- Which violations a step of a scenario can record.
use mncs_reference_studies.Common.{
  String, false, ◌≡◌, ◌⊎◌, refl, sym, subst, ap, ◌∙◌, inl, inr, List, [], ◌∷◌, ◌++◌, bool_eq, arith,
  Bool-cases, beq_self, true_ne_false,
}
use mncs_reference_studies.Common.Int.{ℤ, pos, ◌+ℤ◌, ◌<ℤ◌, leb_ℤ, +ℤ_parts}
use mncs_reference_studies.Common.Result.{ok}
use mncs_reference_studies.Common.Text.{◌<>◌, str_ℤ}
use mncs_reference_studies.Python.Floats.{Floats}
use mncs_reference_studies.Python.Json.{Codec}
use mncs_reference_studies.Water.Model.{
  good, is_good, TelemetrySample, PlannerProposal, AuthorizedIntent, Scenario, TelemetryQuality,
}
use mncs_reference_studies.Water.Safety.Rules.{IsAdjudicated, IsTrusted}
use mncs_reference_studies.Water.Controller.{adjudication_of, intent_of}
use mncs_reference_studies.Water.Controller.Decisions.{IsController, decide-IsDecided}
use mncs_reference_studies.Water.Plant.{step}
use mncs_reference_studies.Water.Simulation.{
  Run, level_pct, demand_from, read_level, changed_degraded, on_at_high_high, unpaired, no_lifetime,
  violations, sample_of, moved, scenario_step,
}

not_good : (q : TelemetryQuality) → is_good q ≡ false → ¬ (q ≡ good)
not_good q h = λ e. ground arith

later-no_lifetime : (now_s ttl : ℤ) → pos 0 <ℤ ttl → leb_ℤ (now_s +ℤ ttl) now_s ≡ false
later-no_lifetime now_s ttl h = ground (arith, +ℤ_parts now_s ttl)

abbrev pub high_high_note : ℤ → List String
high_high_note now_s = (str_ℤ now_s <> ": pumps enabled at high-high level") ∷ []

append_nil : (xs : List String) → xs ++ [] ≡ xs
append_nil [] = refl
append_nil (x ∷ xs) = rw (append_nil xs) refl

notes_of :
    {T : Type 0} (before vs note : List String)
    → (vs ≡ []) ⊎ (T × (vs ≡ note))
    → (before ++ vs ≡ before) ⊎ (T × (before ++ vs ≡ before ++ note))
notes_of before vs note (inl e) = inl (ap (λ l. before ++ l) e ∙ append_nil before)
notes_of before vs note (inr (t, e)) = inr (t, ap (λ l. before ++ l) e)

module _ {F : Floats} (codec : Codec F.Float) where
  -- The loop variables between two steps.
  pub record IsRunning (r : Run F) : Type 0 where
    pub controlled : IsController codec r.controller
    pub same_duty : r.previous_duty ≡ r.controller.state.duty_on
    pub same_standby : r.previous_standby ≡ r.controller.state.standby_on

  module _ (r : Run F) (x : TelemetrySample F) (now_s : ℤ) (p : PlannerProposal)
      (running : IsRunning r) where
    abbrev IsSafe : Type 0
    IsSafe =
        IsAdjudicated r.controller.config p x r.controller.state now_s
          (adjudication_of r.controller x now_s p)

    abbrev issued : AuthorizedIntent
    issued = intent_of r.controller x now_s p

    never-changed_degraded : IsSafe → changed_degraded x r issued ≡ false
    unfolding changed_degraded
    never-changed_degraded safe = elim (Bool-cases (is_good x.quality)) [
      | inl found ↦ rw found refl
      | inr absent ↦
          let kept = safe.untrusted (λ t. not_good x.quality absent t.1) in
          rw
            (
              absent,
              kept.0,
              kept.1,
              running.same_duty,
              running.same_standby,
              beq_self bool_eq r.controller.state.duty_on,
              beq_self bool_eq r.controller.state.standby_on,
            )
            refl
    ]

    never-unpaired : IsSafe → unpaired issued ≡ false
    unfolding unpaired
    never-unpaired safe = ground (arith, safe.paired running.controlled.paired)

    never-no_lifetime : pos 0 <ℤ r.controller.config.intent_ttl_s → no_lifetime issued ≡ false
    unfolding no_lifetime
    never-no_lifetime h = later-no_lifetime now_s r.controller.config.intent_ttl_s h

    trusted-on_at_high_high :
        IsSafe → IsTrusted r.controller.config x → on_at_high_high x r issued ≡ false
    unfolding on_at_high_high
    trusted-on_at_high_high safe t = ground (arith, safe.full t)

    violations_cases :
        IsSafe
        → pos 0 <ℤ r.controller.config.intent_ttl_s
        → (violations x r issued now_s ≡ [])
          ⊎ ((¬ (IsTrusted r.controller.config x))
              × (violations x r issued now_s ≡ high_high_note now_s))
    unfolding violations
    violations_cases safe ttl = elim (Bool-cases (on_at_high_high x r issued)) [
      | inl found ↦ inr (
        (λ t. true_ne_false (sym found ∙ trusted-on_at_high_high safe t)),
        rw (never-changed_degraded safe, found, never-unpaired safe, never-no_lifetime ttl) refl,
      )
      | inr absent ↦ inl (
          rw (never-changed_degraded safe, absent, never-unpaired safe, never-no_lifetime ttl) refl)
    ]

  abbrev pub reading_of : Scenario F → Run F → ℤ → F.Float → F.Float → TelemetrySample F
  reading_of scenario r now_s demand level =
      sample_of scenario now_s demand (read_level scenario r now_s level)

  -- One step: the loop goes on, and notes nothing, or one thing.
  pub record IsStep (scenario : Scenario F) (r : Run F) (now_s : ℤ) (x : TelemetrySample F)
      (r' : Run F) : Type 0 where
    pub running : IsRunning r'
    pub same_plant : r'.plant.config ≡ r.plant.config
    pub same_config : r'.controller.config ≡ r.controller.config
    pub same_planner : r'.controller.planner ≡ r.controller.planner
    pub sequence : r'.controller.state.last_sequence ≡ r.controller.state.last_sequence +ℤ pos 1
    pub notes :
        (r'.safety_violations ≡ r.safety_violations)
        ⊎ ((¬ (IsTrusted r.controller.config x))
            × (r'.safety_violations ≡ r.safety_violations ++ high_high_note now_s))

  -- In a step that has a demand, with a tank of some capacity, a planner that proposes and a positive
  -- intent lifetime, the loop never raises. It keeps the controller's invariant and the commands
  -- that it remembers, advances the sequence once, and of the four violations it can only record
  -- pumps enabled at high-high, and that only on telemetry that the kernel does not trust.
  pub scenario_step-IsStep :
      (scenario : Scenario F) (r : Run F) (now_s : ℤ) (demand level : F.Float) (p : PlannerProposal)
      → IsRunning r
      → pos 0 <ℤ r.controller.config.intent_ttl_s
      → demand_from scenario.scenario_id now_s scenario.demand_profile ≡ ok demand
      → level_pct r.plant ≡ ok level
      → r.controller.planner.propose
          (reading_of scenario r now_s demand level)
          r.controller.state
          r.controller.config
        ≡ ok p
      → (r' : Run F) × (scenario_step codec scenario r now_s ≡ ok r')
        × IsStep scenario r now_s (reading_of scenario r now_s demand level) r'
  unfolding scenario_step step
  scenario_step-IsStep scenario r now_s demand level p running ttl has_demand has_level proposes =
      let x = reading_of scenario r now_s demand level in
      let (i, c, returned, d) =
        decide-IsDecided codec r.controller x now_s p running.controlled proposes in
      (
        moved scenario r now_s demand (read_level scenario r now_s level) i c,
        rw (has_demand, has_level, returned) refl,
        record {
          running = record {
            controlled = d.invariant;
            same_duty = sym d.commands.0;
            same_standby = sym d.commands.1;
          };
          same_plant = refl;
          same_config = d.same_config;
          same_planner = d.same_planner;
          sequence = d.sequence;
          notes = notes_of r.safety_violations _ _ (
              subst
                (λ j.
                  (violations x r j now_s ≡ [])
                  ⊎ ((¬ (IsTrusted r.controller.config x))
                      × (violations x r j now_s ≡ high_high_note now_s)))
                (sym d.authorized) (violations_cases r x now_s p running d.adjudicated ttl));
        },
      )
