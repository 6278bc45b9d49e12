-- ===== src/Water/Controller/Restore/Payload.antt =====
-- What `restore` makes of the payload that `checkpoint_payload` gives.
use mncs_reference_studies.Common.{String, Option, List, [], ◌∷◌, string_eq, ◌≡◌, refl, beq_self}
use mncs_reference_studies.Common.Int.{ℤ, int_eq}
use mncs_reference_studies.Common.Result.{ok}
use mncs_reference_studies.Dict.{lookup}
use mncs_reference_studies.Python.Floats.{Floats}
use mncs_reference_studies.Python.Json.{text, entries}
use mncs_reference_studies.Water.Model.{
  ControlMode, normal, degraded, hold, emergency, mode_value, ControllerState, SystemConfig,
}
use mncs_reference_studies.Water.Journal.{IntentJournal, new_journal}
use mncs_reference_studies.Water.Controller.{Controller}
use mncs_reference_studies.Water.Controller.Restore.{
  Conversions, IsConversion, state_dict, snapshot, counts_or_default, int_fields, bool_at, int_at,
  mode_of, state_from, journal_from, int_values, config_or_default, checkpoint_payload, restore,
}

module _ (F : Floats) where
  mode_of-mode_value :
      (c : Conversions F.Float) (m : ControlMode) → mode_of c (text (mode_value m)) ≡ ok m
  mode_of-mode_value c normal = refl
  mode_of-mode_value c degraded = refl
  mode_of-mode_value c hold = refl
  mode_of-mode_value c emergency = refl

  state_from-state_dict :
      (c : Conversions F.Float) (s : ControllerState)
      → IsConversion c
      → state_from c (state_dict s) ≡ ok s
  unfolding state_from state_dict bool_at int_at lookup
  state_from-state_dict c s laws =
      rw
        (
          laws.of_bool s.duty_on,
          laws.of_bool s.standby_on,
          laws.of_int s.duty_last_changed_s,
          laws.of_int s.standby_last_changed_s,
          laws.of_int s.last_sequence,
          mode_of-mode_value c s.last_mode,
        )
        refl

  journal_from-snapshot :
      (c : Conversions F.Float) (j : IntentJournal F.Float)
      → IsConversion c
      → journal_from c (snapshot j) ≡ ok (new_journal F.Float j.last_sequence j.tail_hash)
  unfolding journal_from snapshot int_at lookup
  journal_from-snapshot c j laws = rw (laws.of_int j.last_sequence, laws.of_str j.tail_hash) refl

  int_values-int_fields :
      (c : Conversions F.Float) (ns : List (String × ℤ))
      → IsConversion c
      → int_values c (entries (int_fields ns)) ≡ ok ns
  unfolding int_values
  int_values-int_fields c [] laws = refl
  int_values-int_fields c ((k, n) ∷ rest) laws =
      rw (laws.of_int n, int_values-int_fields c rest laws) refl

  -- The payload of a controller in step with its journal restores, for its own planner, its state,
  -- a journal without entries that goes on from its sequence and tail hash, and its counts, or
  -- those of a new controller if it has none.
  pub restore-checkpoint_payload :
      (c : Conversions F.Float) (controller : Controller F) (config : Option (SystemConfig F))
      → IsConversion c
      → controller.journal.last_sequence ≡ controller.state.last_sequence
      → restore F c controller.planner (checkpoint_payload F controller) config
        ≡ ok (record {
          planner = controller.planner;
          config = config_or_default F config;
          state = controller.state;
          journal =
              new_journal F.Float controller.journal.last_sequence controller.journal.tail_hash;
          intervention_counts = counts_or_default controller.intervention_counts;
        })
  unfolding restore checkpoint_payload lookup
  restore-checkpoint_payload c controller config laws in_step =
      rw
        (
          beq_self string_eq controller.planner.planner_id,
          state_from-state_dict c controller.state laws,
          journal_from-snapshot c controller.journal laws,
          (int_eq.beq_iff controller.journal.last_sequence controller.state.last_sequence).1
              in_step,
          int_values-int_fields c controller.intervention_counts laws,
        )
        refl
