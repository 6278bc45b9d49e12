-- ===== src/Water/Controller.antt =====
-- src/water_control/controller.py: the decision loop, which asks the planner, lets the safety kernel
-- decide, enters the intent in the journal and applies it to its own state.
pub mod Decisions
pub mod Restore
use mncs_reference_studies.Common.{
  Option, none, some, string_eq, String, Bool, true, false, ◌&&◌, ◌||◌, not, List, [], ◌∷◌, ◌==◌,
  bool_eq, if◌then◌else◌,
}
use mncs_reference_studies.Common.Int.{ℤ, pos, ◌+ℤ◌}
use mncs_reference_studies.Common.Result.{Result, ok, raise, ◌>>=◌}
use mncs_reference_studies.Dict.{lookup, insert}
use mncs_reference_studies.Python.Floats.{Floats}
use mncs_reference_studies.Python.Json.{Codec}
use mncs_reference_studies.Water.Model.{
  is_holding, WaterError, missing_key, SystemConfig, TelemetrySample, PlannerProposal, Adjudication,
  AuthorizedIntent, ControllerState, default_state,
}
use mncs_reference_studies.Water.Planner.{Planner}
use mncs_reference_studies.Water.Safety.{authorize}
use mncs_reference_studies.Water.Journal.{IntentJournal, new_journal, genesis_hash, append}

-- The keys of `intervention_counts`.
pub data Outcome : Type 0 where
  accepted : Outcome
  modified : Outcome
  held : Outcome
  rejected : Outcome

abbrev pub outcome_key : Outcome → String
outcome_key accepted = "accepted"
outcome_key modified = "modified"
outcome_key held = "held"
outcome_key rejected = "rejected"

-- The counters by outcome: a dictionary, which may lack a key.
abbrev pub InterventionCounts : Type 0
InterventionCounts = List (String × ℤ)

abbrev pub no_counts : InterventionCounts
no_counts = ("accepted", pos 0) ∷ ("modified", pos 0) ∷ ("held", pos 0) ∷ ("rejected", pos 0) ∷ []

-- `self.intervention_counts[outcome] += 1`
abbrev pub counted_at :
    String → Option ℤ → InterventionCounts → Result WaterError InterventionCounts
counted_at key none counts = raise (missing_key key)
counted_at key (some n) counts = ok (insert key (n +ℤ pos 1) counts)

unfoldable pub count : Outcome → InterventionCounts → Result WaterError InterventionCounts
count outcome counts = counted_at (outcome_key outcome) (lookup (outcome_key outcome) counts) counts

pub record Controller (F : Floats) : Type 0 where
  pub planner : Planner F
  pub config : SystemConfig F
  pub state : ControllerState
  pub journal : IntentJournal F.Float
  pub intervention_counts : InterventionCounts

-- The constructor with its defaults for `state`, `journal` and the counts.
abbrev pub new_controller : {F : Floats} → Planner F → SystemConfig F → Controller F
new_controller {F} planner config = record {
  planner = planner;
  config = config;
  state = default_state;
  journal = new_journal F.Float (pos 0) genesis_hash;
  intervention_counts = no_counts;
}

-- `_classify_intervention`
unfoldable pub classify_intervention : ControllerState → PlannerProposal → Adjudication → Outcome
classify_intervention state proposal adjudication =
    if proposal.duty_on == adjudication.duty_on && proposal.standby_on == adjudication.standby_on
    then accepted
    else if is_holding adjudication.mode
    then held
    else if (proposal.duty_on || proposal.standby_on)
        && not (adjudication.duty_on || adjudication.standby_on)
    then rejected
    else if adjudication.duty_on == state.duty_on && adjudication.standby_on == state.standby_on
    then held
    else modified

-- `_apply_intent`
unfoldable pub apply_intent : AuthorizedIntent → ControllerState → ControllerState
apply_intent intent state = record {
  duty_on = intent.duty_on;
  standby_on = intent.standby_on;
  duty_last_changed_s =
      if intent.duty_on == state.duty_on then state.duty_last_changed_s else intent.issued_at_s;
  standby_last_changed_s =
      if intent.standby_on == state.standby_on
      then state.standby_last_changed_s
      else intent.issued_at_s;
  last_sequence = intent.sequence;
  last_mode = intent.mode;
}

module _ {F : Floats} where
  abbrev pub adjudication_of : Controller F → TelemetrySample F → ℤ → PlannerProposal → Adjudication
  adjudication_of c sample now_s proposal = authorize c.config proposal sample c.state now_s

  abbrev pub intent_of : Controller F → TelemetrySample F → ℤ → PlannerProposal → AuthorizedIntent
  intent_of c sample now_s proposal =
      let adjudication = adjudication_of c sample now_s proposal in
      record {
        sequence = c.state.last_sequence +ℤ pos 1;
        issued_at_s = now_s;
        expires_at_s = now_s +ℤ c.config.intent_ttl_s;
        duty_on = adjudication.duty_on;
        standby_on = adjudication.standby_on;
        mode = adjudication.mode;
        planner_id = proposal.planner_id;
        proposal_reason = proposal.reason;
        safety_reasons = adjudication.reasons;
      }

module _ {F : Floats} (codec : Codec F.Float) where
  unfoldable pub decide :
      Controller F → TelemetrySample F → ℤ → Result WaterError (AuthorizedIntent × Controller F)
  decide c sample now_s = do
    proposal ← c.planner.propose sample c.state c.config
    counts ←
        count (classify_intervention c.state proposal (adjudication_of c sample now_s proposal))
          c.intervention_counts
    let intent = intent_of c sample now_s proposal
    journal ← append codec c.journal intent
    ok (
      intent,
      record c {
        state = apply_intent intent c.state;
        journal = journal;
        intervention_counts = counts;
      },
    )
