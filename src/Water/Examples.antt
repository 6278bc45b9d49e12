-- ===== src/Water/Examples.antt =====
-- Runs of the water control model on small inputs, with numbers in tenths for the floats and a plain
-- printer for the JSON library, and its theorems at these values.
use mncs_reference_studies.Common.{
  Bool, ℕ, ◌+◌, ◌<◌, String, none, false, true, false, ◌≡◌, refl, [], ◌∷◌, arith,
}
use mncs_reference_studies.Common.Int.{ℤ, pos, ◌+ℤ◌, ◌-ℤ◌, ◌*ℤ◌}
use mncs_reference_studies.Common.Result.{ok, raise}
use mncs_reference_studies.Common.Text.{◌<>◌, decimal, str_ℤ}
use mncs_reference_studies.Python.Tenths.{fixed, fixed-IsAsymmetric}
use mncs_reference_studies.Python.Json.{
  Json, Items, Fields, null, text, flag, int, number, array, object, no_items, item, no_fields,
  field, Codec, json_decode_error,
}
use mncs_reference_studies.Water.Model.{
  good, normal, default_config, Scenario, TelemetrySample, PlannerProposal, default_state,
  AuthorizedIntent, age_s,
}
use mncs_reference_studies.Water.Safety.{invalid, apply_dwell, adjudicate, authorize}
use mncs_reference_studies.Water.Safety.Rules.{IsAdjudicated, authorize-IsAdjudicated}
use mncs_reference_studies.Water.Journal.{
  IntentJournal, new_journal, genesis_hash, appended, append, verify, verify_from, intent_dict,
}
use mncs_reference_studies.Water.Journal.Chain.{append-verify, IsSameChain, verify-IsSameChain}
use mncs_reference_studies.Water.Planner.{
  readable_baseline, readable_baseline_planner, generated_table, table_proposal, observed_index,
  decision, level_index, demand_index, bisect_from, bisect_right, table_index,
}
use mncs_reference_studies.Water.Planner.Table.{generated_table-decision}
use mncs_reference_studies.Water.Controller.{
  Controller, accepted, modified, held, rejected, no_counts, new_controller, decide, apply_intent,
  intent_of, classify_intervention, count,
}
use mncs_reference_studies.Water.Controller.Decisions.{
  HasCounts, IsController, IsDecided, decide-IsDecided,
}
use mncs_reference_studies.Water.Planner.Pairing.{IsPaired, propose-IsPaired}
use mncs_reference_studies.Water.Simulation.{
  Run, level_pct, demand_from, scenario_step, scenario_loop,
}
use mncs_reference_studies.Water.Simulation.Violations.{
  IsRunning, IsStep, reading_of, scenario_step-IsStep,
}
use mncs_reference_studies.Common.Sorting.{All}
use mncs_reference_studies.Water.Scenarios.{declared_scenarios}
use mncs_reference_studies.Water.Scenarios.Coverage.{HasDemand, declared_scenarios-HasDemand}
use mncs_reference_studies.Water.Simulation.Loop.{IsSound, scenario_loop-ends}
use mncs_reference_studies.Water.Plant.{Plant, StepInput, at_level, step}
use mncs_reference_studies.Water.Plant.Bounds.{IsStepped, step-IsStepped}
use mncs_reference_studies.Common.{◌↔◌, Option, some, string_eq, ℕ}
use mncs_reference_studies.Dict.{lookup}
use mncs_reference_studies.Water.Checkpoint.{envelope, encode_checkpoint, decode_checkpoint}
use mncs_reference_studies.Python.Sorted.{le_points, put_key, sort_keys, sort_fields}
use mncs_reference_studies.Water.Checkpoint.Envelope.{
  IsWritten, decode_checkpoint-encode_checkpoint, IsEnvelope, decode_checkpoint_iff,
}
use mncs_reference_studies.Water.Controller.Restore.Payload.{restore-checkpoint_payload}
use mncs_reference_studies.Water.Controller.Restore.{
  Conversions, IsConversion, checkpoint_payload, restore, state_dict, snapshot,
}

mutual
  print : Json ℤ → String
  print null = "null"
  print (text s) = s
  print (flag true) = "true"
  print (flag false) = "false"
  print (int n) = str_ℤ n
  print (number n) = str_ℤ n
  print (array xs) = "[" <> print_items xs <> "]"
  print (object fs) = "{" <> print_fields fs <> "}"

  print_items : Items ℤ → String
  print_items no_items = ""
  print_items (item x xs) = print x <> "," <> print_items xs

  print_fields : Fields ℤ → String
  print_fields no_fields = ""
  print_fields (field k x fs) = k <> ":" <> print x <> "," <> print_fields fs

abbrev codec : Codec ℤ
codec = record {
  Bytes = String;
  canonical = print;
  loads = λ s. raise json_decode_error;
  sha256 = λ s. "#" <> s;
}

program : Unit {0}
unfolding ◌+ℤ◌ ◌-ℤ◌ ◌*ℤ◌ decimal print invalid apply_dwell adjudicate authorize append verify
    verify_from intent_dict readable_baseline bisect_from bisect_right table_index decide
    apply_intent classify_intervention count at_level step age_s
program = tt

abbrev low_sample : TelemetrySample fixed
low_sample = record {
  observed_at_s = pos 0;
  received_at_s = pos 0;
  tank_level_pct = pos 280;
  demand_lps = pos 50;
  power_available = true;
  quality = good;
}

abbrev both_on : PlannerProposal
both_on = record { duty_on = false; standby_on = true; reason = "low"; planner_id = "test" }

-- Standby alone is asked for; both pumps are allowed.
pairs_up : authorize (default_config fixed) both_on low_sample default_state (pos 0) ≡ record {
  duty_on = true;
  standby_on = true;
  mode = normal;
  reasons = "standby requires duty" ∷ [];
}
unfolding program
pairs_up = refl

authorize-IsAdjudicated_example :
    IsAdjudicated
      (default_config fixed)
      both_on
      low_sample
      default_state
      (pos 0)
      (authorize (default_config fixed) both_on low_sample default_state (pos 0))
authorize-IsAdjudicated_example =
    authorize-IsAdjudicated (default_config fixed) both_on low_sample default_state (pos 0)

abbrev controller : Controller fixed
controller = new_controller (readable_baseline_planner fixed) (default_config fixed)

all_counted : HasCounts controller.intervention_counts
unfolding lookup
all_counted accepted = (pos 0, refl)
all_counted modified = (pos 0, refl)
all_counted held = (pos 0, refl)
all_counted rejected = (pos 0, refl)

controller-IsController : IsController codec controller
unfolding program
controller-IsController = record {
  in_step = refl;
  chained = refl;
  paired = λ h. h;
  countable = all_counted;
}

abbrev proposed : PlannerProposal
proposed = readable_baseline low_sample default_state

decide-IsDecided_example :
    (i : AuthorizedIntent) × (c : Controller fixed) × (decide codec controller low_sample (pos 0)
      ≡ ok (i, c))
    × IsDecided codec controller low_sample (pos 0) proposed i c
decide-IsDecided_example =
    decide-IsDecided codec controller low_sample (pos 0) proposed controller-IsController refl

abbrev journal : IntentJournal ℤ
journal = new_journal ℤ (pos 0) genesis_hash

abbrev intent : AuthorizedIntent
intent = intent_of controller low_sample (pos 0) proposed

follows : intent.sequence ≡ journal.last_sequence +ℤ pos 1
follows = refl

append-verify_example :
    (append codec journal intent ≡ ok (appended codec journal intent))
    × (verify codec (appended codec journal intent) ≡ true)
append-verify_example = append-verify codec journal intent follows controller-IsController.chained

verify-IsSameChain_example :
    IsSameChain codec
      (appended codec journal intent).entries
      (appended codec journal intent).entries
verify-IsSameChain_example =
    verify-IsSameChain codec (appended codec journal intent) (appended codec journal intent)
      ((λ h. (refl, refl)), tt) refl refl append-verify_example.1 append-verify_example.1

generated_table-decision_example :
    generated_table low_sample default_state
    ≡ ok (
        table_proposal
          (observed_index low_sample default_state)
          (decision (level_index low_sample) (demand_index low_sample) 0 0 1 0))
generated_table-decision_example = generated_table-decision low_sample default_state

abbrev plant : Plant fixed
plant = at_level (default_config fixed) (pos 500)

abbrev running : StepInput fixed
running = record {
  duty_command = true;
  standby_command = false;
  demand_lps = pos 20;
  power_available = true;
  duration_s = pos 60;
}

step-IsStepped_example : IsStepped running plant (step plant running)
unfolding at_level
step-IsStepped_example = step-IsStepped plant running fixed-IsAsymmetric refl

propose-IsPaired_example :
    IsPaired
      (readable_baseline low_sample default_state).duty_on
      (readable_baseline low_sample default_state).standby_on
    × ((p : PlannerProposal)
        → generated_table low_sample default_state ≡ ok p
        → IsPaired p.duty_on p.standby_on)
propose-IsPaired_example = propose-IsPaired low_sample default_state (λ h. h)

-- The level is stale from 60 on.
abbrev scenario : Scenario fixed
scenario = record {
  scenario_id = "stale";
  duration_s = 120;
  step_s = 60;
  initial_level_pct = pos 500;
  demand_profile = (pos 0, pos 120, pos 20) ∷ [];
  power_outages = [];
  stale_windows = (pos 60, pos 120) ∷ [];
  conflict_windows = [];
  restart_at_s = none;
  observed_demand_scale = pos 10;
  randomized = false;
  seed = none;
}

abbrev started : Run fixed
started = record {
  plant = plant;
  controller = controller;
  last_good_level = pos 500;
  last_good_at_s = pos 0;
  previous_duty = false;
  previous_standby = false;
  emergency_steps = 0;
  degraded_steps = 0;
  safety_violations = [];
}

abbrev half_full : ℤ
half_full = pos 500

measured : level_pct started.plant ≡ ok half_full
unfolding program level_pct
measured = refl

demanded : demand_from scenario.scenario_id (pos 60) scenario.demand_profile ≡ ok (pos 20)
unfolding demand_from
demanded = refl

scenario_step-IsStep_example :
    (r : Run fixed) × (scenario_step codec scenario started (pos 60) ≡ ok r)
    × IsStep codec scenario started
        (pos 60)
        (reading_of codec scenario started (pos 60) (pos 20) half_full)
        r
scenario_step-IsStep_example =
    scenario_step-IsStep codec scenario started (pos 60) (pos 20) half_full _ idle (omega arith)
      demanded measured refl
  where
    idle : IsRunning codec started
    idle = record { controlled = controller-IsController; same_duty = refl; same_standby = refl }

declared_scenarios-HasDemand_example : All (HasDemand fixed) (declared_scenarios fixed)
declared_scenarios-HasDemand_example = declared_scenarios-HasDemand fixed

idle : IsSound codec scenario started
unfolding program
idle = record {
  running = record { controlled = controller-IsController; same_duty = refl; same_standby = refl };
  lives = omega arith;
  proposes = λ x s. (_, refl);
  has_capacity = refl;
}

always_demanded :
    (t : ℕ)
    → t < 120
    → (d : ℤ) × (demand_from scenario.scenario_id (pos t) scenario.demand_profile ≡ ok d)
unfolding demand_from
always_demanded t h = (pos 20, ground arith)

scenario_loop-ends_example :
    (r : Run fixed) × ((extra : ℕ) → scenario_loop codec scenario (120 + extra) started 0 ≡ ok r)
    × IsSound codec scenario r
scenario_loop-ends_example =
    scenario_loop-ends codec scenario started (omega arith) always_demanded idle

-- A codec that writes a value as the value with its keys in order.
abbrev sorting_codec : Codec ℤ
sorting_codec = record { Bytes = Json ℤ; canonical = sort_keys; loads = λ x. ok x; sha256 = print }

abbrev controller_payload : Fields ℤ
controller_payload = checkpoint_payload fixed controller

controller_payload-IsWritten : IsWritten sorting_codec (object controller_payload)
unfolding program checkpoint_payload state_dict snapshot sort_keys put_key le_points
controller_payload-IsWritten = record { reads = refl; sorts = refl }

envelope-IsWritten : IsWritten sorting_codec (envelope sorting_codec (object controller_payload))
unfolding program checkpoint_payload state_dict snapshot sort_keys put_key le_points
envelope-IsWritten = record { reads = refl; sorts = refl }

decode_checkpoint-encode_checkpoint_example :
    decode_checkpoint sorting_codec (encode_checkpoint sorting_codec (object controller_payload))
    ≡ ok (sort_fields controller_payload)
decode_checkpoint-encode_checkpoint_example =
    decode_checkpoint-encode_checkpoint sorting_codec controller_payload
      controller_payload-IsWritten envelope-IsWritten

decode_checkpoint_iff_example :
    (decode_checkpoint sorting_codec (encode_checkpoint sorting_codec (object controller_payload))
      ≡ ok (sort_fields controller_payload))
    ↔ IsEnvelope sorting_codec
        (encode_checkpoint sorting_codec (object controller_payload))
        (sort_fields controller_payload)
decode_checkpoint_iff_example =
    decode_checkpoint_iff sorting_codec
      (encode_checkpoint sorting_codec (object controller_payload)) (sort_fields controller_payload)

abbrev int_of_json : Json ℤ → Option ℤ
int_of_json (int n) = some n
int_of_json (flag true) = some (pos 1)
int_of_json (flag false) = some (pos 0)
int_of_json _ = none

abbrev bool_of_json : Json ℤ → Bool
bool_of_json (flag b) = b
bool_of_json _ = true

abbrev plain_conversions : Conversions ℤ
plain_conversions = record { as_bool = bool_of_json; as_int = int_of_json; as_str = print }

plain_conversions-IsConversion : IsConversion plain_conversions
unfolding print
plain_conversions-IsConversion = record {
  of_bool = λ b. refl;
  of_int = λ n. refl;
  of_str = λ t. refl;
}

restore-checkpoint_payload_example :
    restore fixed plain_conversions
      (readable_baseline_planner fixed)
      (checkpoint_payload fixed controller)
      none
    ≡ ok (record {
      planner = readable_baseline_planner fixed;
      config = default_config fixed;
      state = default_state;
      journal = new_journal ℤ (pos 0) genesis_hash;
      intervention_counts = no_counts;
    })
restore-checkpoint_payload_example =
    restore-checkpoint_payload fixed plain_conversions controller none
      plain_conversions-IsConversion refl
