-- ===== src/Water/Journal.antt =====
-- src/water_control/journal.py: the hash chain of authorized intents, with `AuthorizedIntent.as_dict`
-- of model.py, the form in which an intent is entered.
pub mod Chain
use mncs_reference_studies.Common.{
  ℕ, String, Bool, true, false, ◌&&◌, not, List, [], ◌∷◌, ◌++◌, ◌==◌, string_eq, length,
}
use mncs_reference_studies.Common.Int.{ℤ, pos, ◌+ℤ◌, ◌-ℤ◌, int_eq}
use mncs_reference_studies.Common.Result.{Result, ok, ◌>>=◌, ◌>>◌, require}
use mncs_reference_studies.Python.Json.{
  Json, Items, Fields, text, flag, int, array, object, no_items, item, no_fields, field, Codec,
}
use mncs_reference_studies.Water.Model.{
  mode_value, AuthorizedIntent, ControllerState, WaterError, sequence_error,
}

abbrev pub texts : {N : Type 0} → List String → Items N
texts [] = no_items
texts (s ∷ rest) = item (text s) (texts rest)

-- `AuthorizedIntent.as_dict`
unfoldable pub intent_dict : {N : Type 0} → AuthorizedIntent → Json N
intent_dict i = object (
    field "sequence" (int i.sequence) (
      field "issued_at_s" (int i.issued_at_s) (
        field "expires_at_s" (int i.expires_at_s) (
          field "duty_on" (flag i.duty_on) (
            field "standby_on" (flag i.standby_on) (
              field "mode" (text (mode_value i.mode)) (
                field "planner_id" (text i.planner_id) (
                  field "proposal_reason" (text i.proposal_reason)
                    (field "safety_reasons" (array (texts i.safety_reasons)) no_fields)))))))))

pub record JournalEntry (N : Type 0) : Type 0 where
  pub sequence : ℤ
  pub previous_hash : String
  pub intent : Json N
  pub entry_hash : String

pub record IntentJournal (N : Type 0) : Type 0 where
  pub last_sequence : ℤ
  pub tail_hash : String
  pub entries : List (JournalEntry N)

abbrev pub genesis_hash : String
genesis_hash = "0000000000000000000000000000000000000000000000000000000000000000"

-- The constructor: a journal starts without entries, also after a restart.
abbrev pub new_journal : (N : Type 0) → ℤ → String → IntentJournal N
new_journal N last_sequence tail_hash = record {
  last_sequence = last_sequence;
  tail_hash = tail_hash;
  entries = [];
}

abbrev pub first_hash : {N : Type 0} → List (JournalEntry N) → String → String
first_hash [] tail_hash = tail_hash
first_hash (entry ∷ rest) tail_hash = entry.previous_hash

abbrev pub first_sequence : {N : Type 0} → IntentJournal N → ℤ
first_sequence journal = journal.last_sequence -ℤ pos (length journal.entries) +ℤ pos 1

module _ {N : Type 0} (codec : Codec N) where
  abbrev pub entry_digest : String → Json N → String
  entry_digest previous_hash intent = codec.sha256 (
      codec.canonical
        (object (field "previous_hash" (text previous_hash) (field "intent" intent no_fields))))

  abbrev pub next_entry : IntentJournal N → AuthorizedIntent → JournalEntry N
  next_entry journal intent = record {
    sequence = intent.sequence;
    previous_hash = journal.tail_hash;
    intent = intent_dict intent;
    entry_hash = entry_digest journal.tail_hash (intent_dict intent);
  }

  abbrev pub appended : IntentJournal N → AuthorizedIntent → IntentJournal N
  appended journal intent = record {
    last_sequence = intent.sequence;
    tail_hash = (next_entry journal intent).entry_hash;
    entries = journal.entries ++ (next_entry journal intent ∷ []);
  }

  -- `append`, which changes the journal.
  unfoldable pub append : IntentJournal N → AuthorizedIntent → Result WaterError (IntentJournal N)
  append journal intent =
      require (intent.sequence == journal.last_sequence +ℤ pos 1) sequence_error
      >> ok (appended journal intent)

  abbrev pub is_linked : ℤ → String → JournalEntry N → Bool
  is_linked expected_sequence previous_hash entry =
      entry.sequence == expected_sequence
      && entry.previous_hash == previous_hash
      && entry_digest previous_hash entry.intent == entry.entry_hash

  -- The loop of `verify`, with the comparison after it.
  unfoldable pub verify_from : ℤ → String → List (JournalEntry N) → String → Bool
  verify_from expected_sequence previous_hash [] tail_hash = previous_hash == tail_hash
  verify_from expected_sequence previous_hash (entry ∷ rest) tail_hash =
      is_linked expected_sequence previous_hash entry
      && verify_from (expected_sequence +ℤ pos 1) entry.entry_hash rest tail_hash

  unfoldable pub verify : IntentJournal N → Bool
  verify journal =
      verify_from (first_sequence journal) (first_hash journal.entries journal.tail_hash)
        journal.entries journal.tail_hash
