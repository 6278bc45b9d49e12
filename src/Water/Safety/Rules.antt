-- ===== src/Water/Safety/Rules.antt =====
-- What `SafetyKernel.authorize` decides, whatever the planner proposes.
use mncs_reference_studies.Common.{◌↔◌, Bool, true, false, ◌||◌, ◌≡◌, ◌⊎◌, refl, arith, bool_eq}
use mncs_reference_studies.Common.Int.{ℤ, ◌-ℤ◌, ◌≤ℤ◌, ltb_ℤ}
use mncs_reference_studies.Python.Floats.{Floats}
use mncs_reference_studies.Water.Model.{
  normal, emergency, TelemetryQuality, good, is_good, is_holding, SystemConfig, TelemetrySample,
  age_s, PlannerProposal, Adjudication, ControllerState,
}
use mncs_reference_studies.Water.Safety.{minimum_dwell, apply_dwell, invalid, adjudicate, authorize}

module _ {F : Floats} (config : SystemConfig F) where
  -- A pump may change its command only after its dwell.
  abbrev pub IsDwelled : Bool → ℤ → ℤ → Type 0
  IsDwelled current last_changed_s now_s = minimum_dwell config current ≤ℤ now_s -ℤ last_changed_s

  apply_dwell-IsDwelled :
      (requested current : Bool) (last_changed_s now_s : ℤ)
      → ((apply_dwell config requested current last_changed_s now_s).0 ≡ current)
        ⊎ (((apply_dwell config requested current last_changed_s now_s).0 ≡ requested)
            × IsDwelled current last_changed_s now_s)
  unfolding apply_dwell
  apply_dwell-IsDwelled requested current last_changed_s now_s = ground arith

  -- The decision after the early returns.
  pub record IsNormal (p : PlannerProposal) (s : ControllerState) (now_s : ℤ) (a : Adjudication)
      : Type 0 where
    pub normal_mode : a.mode ≡ normal
    pub paired : a.standby_on ≡ true → a.duty_on ≡ true
    pub duty_cases :
        (a.duty_on ≡ s.duty_on)
        ⊎ ((a.duty_on ≡ (p.duty_on || p.standby_on))
            × IsDwelled s.duty_on s.duty_last_changed_s now_s)
    pub standby_cases :
        (a.standby_on ≡ s.standby_on)
        ⊎ (((a.standby_on ≡ p.standby_on) × IsDwelled s.standby_on s.standby_last_changed_s now_s)
            ⊎ ((a.standby_on ≡ false) × (a.duty_on ≡ false)))

  adjudicate-IsNormal :
      (p : PlannerProposal) (s : ControllerState) (now_s : ℤ)
      → IsNormal p s now_s (adjudicate config p s now_s)
  unfolding adjudicate
  adjudicate-IsNormal p s now_s = record {
    normal_mode = refl;
    paired = ground arith;
    duty_cases = ground (
      arith,
      apply_dwell-IsDwelled (p.duty_on || p.standby_on) s.duty_on s.duty_last_changed_s now_s,
    );
    standby_cases =
        ground
          (arith, apply_dwell-IsDwelled p.standby_on s.standby_on s.standby_last_changed_s now_s);
  }

  -- Telemetry that the kernel acts on: finite and in range, good, and fresh.
  abbrev pub IsTrusted : TelemetrySample F → Type 0
  IsTrusted x =
      (invalid config x ≡ false) × (x.quality ≡ good) × (age_s x ≤ℤ config.telemetry_max_age_s)

  abbrev pub IsHeld : ControllerState → Adjudication → Type 0
  IsHeld s a = (a.duty_on ≡ s.duty_on) × (a.standby_on ≡ s.standby_on) × (is_holding a.mode ≡ true)

  abbrev pub IsForced : Bool → Adjudication → Type 0
  IsForced on a = (a.duty_on ≡ on) × (a.standby_on ≡ on) × (a.mode ≡ emergency)

  -- The decision in the order in which the rules take precedence.
  pub record IsAdjudicated (p : PlannerProposal) (x : TelemetrySample F) (s : ControllerState)
      (now_s : ℤ) (a : Adjudication) : Type 0 where
    pub paired : (s.standby_on ≡ true → s.duty_on ≡ true) → a.standby_on ≡ true → a.duty_on ≡ true
    pub untrusted : ¬ (IsTrusted x) → IsHeld s a
    pub unpowered : IsTrusted x → x.power_available ≡ false → IsForced false a
    pub full : IsTrusted x → F.le config.high_high_pct x.tank_level_pct ≡ true → IsForced false a
    pub empty :
        IsTrusted x
        → x.power_available ≡ true
        → F.le config.high_high_pct x.tank_level_pct ≡ false
        → F.le x.tank_level_pct config.low_low_pct ≡ true
        → IsForced true a
    pub otherwise :
        IsTrusted x
        → x.power_available ≡ true
        → F.le config.high_high_pct x.tank_level_pct ≡ false
        → F.le x.tank_level_pct config.low_low_pct ≡ false
        → IsNormal p s now_s a

  is_good_iff : (q : TelemetryQuality) → (is_good q ≡ true) ↔ (q ≡ good)
  is_good_iff q = ground arith

  -- Whatever the planner proposes: untrusted telemetry keeps both commands as they are, under
  -- DEGRADED or HOLD; on trusted telemetry, no power or a level at high-high turns both pumps off
  -- and a level at low-low turns both on, under EMERGENCY; in all other cases a command differs from
  -- the present one only as proposed and after its dwell, except that the standby pump goes off
  -- with the duty pump. The standby pump is never on without the duty pump, if it was not before.
  pub authorize-IsAdjudicated :
      (p : PlannerProposal) (x : TelemetrySample F) (s : ControllerState) (now_s : ℤ)
      → IsAdjudicated p x s now_s (authorize config p x s now_s)
  unfolding authorize
  authorize-IsAdjudicated p x s now_s = record {
    paired = ground (arith, n.paired);
    untrusted = ground (arith, is_good_iff x.quality);
    unpowered = ground (arith, is_good_iff x.quality);
    full = ground (arith, is_good_iff x.quality);
    empty = ground (arith, is_good_iff x.quality);
    otherwise = λ t power high low. rw (t.0, trusted t, fresh t, power, high, low) n;
  }
    where
      n : IsNormal p s now_s (adjudicate config p s now_s)
      n = adjudicate-IsNormal p s now_s

      trusted : IsTrusted x → is_good x.quality ≡ true
      trusted t = rw t.1 refl

      fresh : IsTrusted x → ltb_ℤ config.telemetry_max_age_s (age_s x) ≡ false
      fresh t = ground arith
