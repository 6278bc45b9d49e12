-- ===== src/Water/Planner.antt =====
-- src/water_control/planner.py and machine/generated_planner.py: the two planners, a threshold policy
-- and a generated decision table.
pub mod Pairing
pub mod Table
use mncs_reference_studies.Common.{
  ℕ, zero, suc, ◌+◌, ◌*◌, ◌/◌, String, Bool, true, false, ◌&&◌, ◌||◌, not, Option, none, some, List,
  [], ◌∷◌, ◌++◌, leb, ltb, if◌then◌else◌, ◌==◌, nat_eq, length, get_elem?, get_or,
}
use mncs_reference_studies.Common.Result.{Result, ok, raise, ◌>>=◌}
use mncs_reference_studies.Common.Text.{◌<>◌, decimal}
use mncs_reference_studies.Python.Floats.{Floats}
use mncs_reference_studies.Water.Model.{
  TelemetryQuality, good, stale, conflict, TelemetrySample, PlannerProposal, ControllerState,
  WaterError, index_error, SystemConfig,
}

-- The commands of the threshold policy, duty and standby.
abbrev pub thresholds : {F : Floats} → TelemetrySample F → ControllerState → Bool × Bool
thresholds {F} sample state =
    if not sample.power_available
    then (false, false)
    else if F.lt sample.tank_level_pct (F.tenths 300)
    then (true, F.le (F.tenths 45) sample.demand_lps)
    else if F.lt sample.tank_level_pct (F.tenths 450)
    then (true, false)
    else if F.lt (F.tenths 550) sample.tank_level_pct
    then (false, false)
    else (state.duty_on, state.standby_on)

-- `ReadableBaselinePlanner.propose`
unfoldable pub readable_baseline :
    {F : Floats} → TelemetrySample F → ControllerState → PlannerProposal
readable_baseline sample state =
    let (duty_on, standby_on) = thresholds sample state in
    record {
      duty_on = duty_on;
      standby_on = standby_on;
      reason = "readable narrow-band threshold policy";
      planner_id = "mncs.remote-water.readable-baseline.v1";
    }

-- `int(b)`, `bool(n)` and the range test of the table.
abbrev pub int_of : Bool → ℕ
int_of true = 1
int_of false = 0

abbrev pub bool_of : ℕ → Bool
bool_of zero = false
bool_of (suc n) = true

-- `_decision`
unfoldable pub decision : ℕ → ℕ → ℕ → ℕ → ℕ → ℕ → Bool × Bool
decision level_index demand_index duty_on standby_on power_available quality_index =
    let high_demand = demand_index == 2 in
    if power_available == 0
    then (false, false)
    else if not (quality_index == 0)
    then (bool_of duty_on, bool_of standby_on)
    else if level_index == 0
    then (true, true)
    else if level_index == 1 || level_index == 2
    then (true, bool_of standby_on && high_demand)
    else if level_index == 3
    then (bool_of duty_on, bool_of standby_on && high_demand)
    else if level_index == 4
    then (bool_of duty_on && high_demand, bool_of standby_on && high_demand)
    else (false, false)

-- The entries of a comprehension `for i in range(start, start + count)`.
unfoldable pub for_range {ℓ} : {A : Type ℓ} → ℕ → ℕ → (ℕ → List A) → List A
for_range start zero f = []
for_range start (suc count) f = f start ++ for_range (suc start) count f

-- `DECISION_TABLE`, from the innermost loop out; `TABLE_SHAPE` is (7, 3, 2, 2, 2, 3).
abbrev pub quality_entries : ℕ → ℕ → ℕ → ℕ → ℕ → List (Bool × Bool)
quality_entries level demand duty standby power =
    for_range 0 3 (λ quality. decision level demand duty standby power quality ∷ [])

abbrev pub power_entries : ℕ → ℕ → ℕ → ℕ → List (Bool × Bool)
power_entries level demand duty standby =
    for_range 0 2 (λ power. quality_entries level demand duty standby power)

abbrev pub standby_entries : ℕ → ℕ → ℕ → List (Bool × Bool)
standby_entries level demand duty =
    for_range 0 2 (λ standby. power_entries level demand duty standby)

abbrev pub duty_entries : ℕ → ℕ → List (Bool × Bool)
duty_entries level demand = for_range 0 2 (λ duty. standby_entries level demand duty)

abbrev pub demand_entries : ℕ → List (Bool × Bool)
demand_entries level = for_range 0 3 (λ demand. duty_entries level demand)

unfoldable pub decision_table : List (Bool × Bool)
decision_table = for_range 0 7 (λ level. demand_entries level)

abbrev pub quality_index : TelemetryQuality → ℕ
quality_index good = 0
quality_index stale = 1
quality_index conflict = 2

-- The loop of `bisect.bisect_right`, from `low` to `high`.
unfoldable pub bisect_from : (F : Floats) → ℕ → List F.Float → F.Float → ℕ → ℕ → ℕ
bisect_from F zero bands x low high = low
bisect_from F (suc fuel) bands x low high =
    let mid = (low + high) / 2 in
    let (low', high') = if F.lt x (get_or bands mid x) then (low, mid) else (mid + 1, high) in
    let rest = bisect_from F fuel bands x low' high' in if ltb low high then rest else low

-- Every interval is shorter than the one before, so the length of the list is fuel enough.
unfoldable pub bisect_right : (F : Floats) → List F.Float → F.Float → ℕ
bisect_right F bands x = bisect_from F (length bands) bands x 0 (length bands)

abbrev pub level_bands_pct : (F : Floats) → List F.Float
level_bands_pct F =
    F.tenths 150 ∷ F.tenths 350 ∷ F.tenths 500 ∷ F.tenths 650 ∷ F.tenths 750 ∷ F.tenths 900 ∷ []

abbrev pub demand_bands_lps : (F : Floats) → List F.Float
demand_bands_lps F = F.tenths 25 ∷ F.tenths 45 ∷ []

abbrev pub level_index : {F : Floats} → TelemetrySample F → ℕ
level_index {F} sample = bisect_right F (level_bands_pct F) sample.tank_level_pct

abbrev pub demand_index : {F : Floats} → TelemetrySample F → ℕ
demand_index {F} sample = bisect_right F (demand_bands_lps F) sample.demand_lps

-- The place of an entry, digit by digit.
unfoldable pub table_index : ℕ → ℕ → ℕ → ℕ → ℕ → ℕ → ℕ
table_index level demand duty standby power quality =
    ((((level * 3 + demand) * 2 + duty) * 2 + standby) * 2 + power) * 3 + quality

abbrev pub table_proposal : ℕ → Bool × Bool → PlannerProposal
table_proposal index entry = record {
  duty_on = entry.0;
  standby_on = entry.1;
  reason = "generated decision table entry " <> decimal index;
  planner_id = "mncs.remote-water.generated-table.v1";
}

abbrev pub entry_proposal : ℕ → Option (Bool × Bool) → Result WaterError PlannerProposal
entry_proposal index none = raise index_error
entry_proposal index (some entry) = ok (table_proposal index entry)

abbrev pub observed_index : {F : Floats} → TelemetrySample F → ControllerState → ℕ
observed_index sample state =
    table_index (level_index sample) (demand_index sample) (int_of state.duty_on)
      (int_of state.standby_on) (int_of sample.power_available) (quality_index sample.quality)

-- `GeneratedTablePlanner.propose`
unfoldable pub generated_table :
    {F : Floats} → TelemetrySample F → ControllerState → Result WaterError PlannerProposal
generated_table sample state =
    let index = observed_index sample state in entry_proposal index (get_elem? decision_table index)

-- `Planner`, the protocol: any function of what it may look at, which may raise.
pub record Planner (F : Floats) : Type 0 where
  pub planner_id : String
  pub propose :
      TelemetrySample F → ControllerState → SystemConfig F → Result WaterError PlannerProposal

abbrev pub readable_baseline_planner : (F : Floats) → Planner F
readable_baseline_planner F = record {
  planner_id = "mncs.remote-water.readable-baseline.v1";
  propose = λ sample state config. ok (readable_baseline sample state);
}

abbrev pub generated_table_planner : (F : Floats) → Planner F
generated_table_planner F = record {
  planner_id = "mncs.remote-water.generated-table.v1";
  propose = λ sample state config. generated_table sample state;
}
