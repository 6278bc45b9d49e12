-- ===== src/Water/Controller/Restore.antt =====
-- The checkpoint of a controller: `checkpoint_payload` and `restore` of controller.py, with `as_dict`
-- and `from_dict` of `ControllerState` and `snapshot` of the journal.
pub mod Payload
use mncs_reference_studies.Common.{
  ℕ, String, Bool, true, false, not, Option, none, some, List, [], ◌∷◌, ◌==◌, string_eq,
  if◌then◌else◌, ◌≡◌, refl, ap, arith, beq_self,
}
use mncs_reference_studies.Common.Int.{ℤ, pos, int_eq}
use mncs_reference_studies.Common.Result.{Result, ok, raise, ◌>>=◌, ◌>>◌, require}
use mncs_reference_studies.Dict.{lookup}
use mncs_reference_studies.Python.Floats.{Floats}
use mncs_reference_studies.Python.Json.{
  Json, Fields, text, flag, int, object, no_fields, field, fields_of, entries,
}
use mncs_reference_studies.Water.Model.{
  ControlMode, normal, degraded, hold, emergency, mode_value, WaterError, planner_mismatch,
  sequence_mismatch, missing_key, unreadable, ControllerState, SystemConfig, default_config,
}
use mncs_reference_studies.Water.Planner.{Planner}
use mncs_reference_studies.Water.Journal.{IntentJournal, new_journal}
use mncs_reference_studies.Water.Controller.{Controller, InterventionCounts, no_counts}

-- `bool(…)`, `int(…)` and `str(…)` on a JSON value.
pub record Conversions (N : Type 0) : Type 0 where
  pub as_bool : Json N → Bool
  pub as_int : Json N → Option ℤ
  pub as_str : Json N → String

-- They leave a value of their own type as it is.
pub record IsConversion {N : Type 0} (c : Conversions N) : Type 0 where
  pub of_bool : (b : Bool) → c.as_bool (flag b) ≡ b
  pub of_int : (n : ℤ) → c.as_int (int n) ≡ some n
  pub of_str : (s : String) → c.as_str (text s) ≡ s

-- `ControllerState.as_dict`
unfoldable pub state_dict : {N : Type 0} → ControllerState → Fields N
state_dict s = fields_of (
    ("duty_on", flag s.duty_on)
    ∷ ("standby_on", flag s.standby_on)
    ∷ ("duty_last_changed_s", int s.duty_last_changed_s)
    ∷ ("standby_last_changed_s", int s.standby_last_changed_s)
    ∷ ("last_sequence", int s.last_sequence)
    ∷ ("last_mode", text (mode_value s.last_mode))
    ∷ [])

-- `snapshot` of the journal, and `dict(self.intervention_counts)`
unfoldable pub snapshot : {N : Type 0} → IntentJournal N → Fields N
snapshot j =
    fields_of (("last_sequence", int j.last_sequence) ∷ ("tail_hash", text j.tail_hash) ∷ [])

abbrev pub int_fields : {N : Type 0} → List (String × ℤ) → Fields N
int_fields [] = no_fields
int_fields ((k, n) ∷ rest) = field k (int n) (int_fields rest)

module _ {N : Type 0} (c : Conversions N) where
  abbrev pub known_key : String → Option (Json N) → Result WaterError (Json N)
  known_key k none = raise (missing_key k)
  known_key k (some x) = ok x

  abbrev pub read_int : Option ℤ → Result WaterError ℤ
  read_int none = raise unreadable
  read_int (some n) = ok n

  -- `payload[key]`, and the conversions of it
  abbrev pub value_at : String → Fields N → Result WaterError (Json N)
  value_at k fs = known_key k (lookup k (entries fs))

  unfoldable pub bool_at : String → Fields N → Result WaterError Bool
  bool_at k fs = value_at k fs >>= λ x. ok (c.as_bool x)

  unfoldable pub int_at : String → Fields N → Result WaterError ℤ
  int_at k fs = value_at k fs >>= λ x. read_int (c.as_int x)

  abbrev pub dict_of : Json N → Result WaterError (Fields N)
  dict_of (object fs) = ok fs
  dict_of _ = raise unreadable

  -- `ControlMode(value)`
  abbrev pub mode_named : String → Result WaterError ControlMode
  mode_named s =
      if s == "NORMAL"
      then ok normal
      else if s == "DEGRADED"
      then ok degraded
      else if s == "HOLD"
      then ok hold
      else if s == "EMERGENCY"
      then ok emergency
      else raise unreadable

  abbrev pub mode_of : Json N → Result WaterError ControlMode
  mode_of (text s) = mode_named s
  mode_of _ = raise unreadable

  -- `ControllerState.from_dict`
  unfoldable pub state_from : Fields N → Result WaterError ControllerState
  state_from fs = do
    duty_on ← bool_at "duty_on" fs
    standby_on ← bool_at "standby_on" fs
    duty_last ← int_at "duty_last_changed_s" fs
    standby_last ← int_at "standby_last_changed_s" fs
    last_sequence ← int_at "last_sequence" fs
    mode ← value_at "last_mode" fs
    last_mode ← mode_of mode
    ok (record {
      duty_on = duty_on;
      standby_on = standby_on;
      duty_last_changed_s = duty_last;
      standby_last_changed_s = standby_last;
      last_sequence = last_sequence;
      last_mode = last_mode;
    })

  unfoldable pub journal_from : Fields N → Result WaterError (IntentJournal N)
  journal_from fs = do
    last_sequence ← int_at "last_sequence" fs
    tail_hash ← value_at "tail_hash" fs
    ok (new_journal N last_sequence (c.as_str tail_hash))

  -- `{key: int(value) for key, value in counts.items()}`
  unfoldable pub int_values : List (String × Json N) → Result WaterError (List (String × ℤ))
  int_values [] = ok []
  int_values ((k, x) ∷ rest) = do
    n ← read_int (c.as_int x)
    later ← int_values rest
    ok ((k, n) ∷ later)

  -- `payload.get("intervention_counts", {})`
  abbrev pub counts_at : Option (Json N) → Result WaterError (Fields N)
  counts_at none = ok no_fields
  counts_at (some x) = dict_of x

  -- `payload.get("planner_id") != planner.planner_id` raises.
  abbrev pub is_planner : Option (Json N) → String → Bool
  is_planner (some (text s)) planner_id = s == planner_id
  is_planner _ planner_id = false

-- `counts or None`, and the constructor's own counts in place of None.
abbrev pub counts_or_default : List (String × ℤ) → InterventionCounts
counts_or_default [] = no_counts
counts_or_default (x ∷ xs) = x ∷ xs

abbrev pub config_or_default : (F : Floats) → Option (SystemConfig F) → SystemConfig F
config_or_default F none = default_config F
config_or_default F (some config) = config

module _ (F : Floats) where
  unfoldable pub checkpoint_payload : Controller F → Fields F.Float
  checkpoint_payload controller = fields_of (
      ("schema_version", text "0.2")
      ∷ ("planner_id", text controller.planner.planner_id)
      ∷ ("controller_state", object (state_dict controller.state))
      ∷ ("journal", object (snapshot controller.journal))
      ∷ ("intervention_counts", object (int_fields controller.intervention_counts))
      ∷ [])

  unfoldable pub restore :
      Conversions F.Float
      → Planner F
      → Fields F.Float
      → Option (SystemConfig F)
      → Result WaterError (Controller F)
  restore c planner payload config = do
    require (is_planner c (lookup "planner_id" (entries payload)) planner.planner_id)
        planner_mismatch
    given ← value_at c "controller_state" payload
    fields ← dict_of c given
    state ← state_from c fields
    entry ← value_at c "journal" payload
    snapshot_fields ← dict_of c entry
    journal ← journal_from c snapshot_fields
    require (journal.last_sequence == state.last_sequence) sequence_mismatch
    listed ← counts_at c (lookup "intervention_counts" (entries payload))
    counts ← int_values c (entries listed)
    ok (record {
      planner = planner;
      config = config_or_default F config;
      state = state;
      journal = journal;
      intervention_counts = counts_or_default counts;
    })
