-- ===== src/Ravel/Observations.antt =====
-- The raw observations of a trial: `validate_eval`, `validate_plan`, `_validate_replay`,
-- `_validate_topology` and `_validate_variant`.
pub mod Admitted
pub mod Planned
use mncs_reference_studies.Common.{
  ℕ, ◌+◌, String, Bool, ◌||◌, not, Option, none, some, List, [], ◌∷◌, length, ◌==◌, nat_eq,
}
use mncs_reference_studies.Common.Int.{ℤ, pos, ◌+ℤ◌, ltb_ℤ, int_eq}
use mncs_reference_studies.Common.Result.{ok, raise, ◌>>=◌, ◌>>◌, require}
use mncs_reference_studies.Common.Text.{◌<>◌, decimal}
use mncs_reference_studies.Python.Json.{Json}
use mncs_reference_studies.Ravel.Values.{
  Outcome, Object, evaluation_error, reject_if, get, require_object, require_exact_keys,
  require_int, require_natural, validate_hex, require_naturals, require_hexes, int_at, as_list,
}

-- `EVAL_KEYS`, the counts and the checksums apart.
abbrev pub eval_counts : List String
eval_counts =
    "samples" ∷ "rejected" ∷ "correct" ∷ "reconstruction_sse_q20" ∷ "prediction_sse_q20"
    ∷ "prediction_samples" ∷ "transition_correct" ∷ "transition_supported" ∷ "transition_unknown"
    ∷ "routing_certification_count" ∷ "routed_complete_mismatches" ∷ "expert_evaluations" ∷ []

abbrev pub eval_checksums : List String
eval_checksums =
    "classification_checksum" ∷ "reconstruction_checksum" ∷ "prediction_checksum"
    ∷ "transition_checksum" ∷ []

abbrev pub eval_keys : List String
eval_keys =
    "samples" ∷ "rejected" ∷ "correct" ∷ "reconstruction_sse_q20" ∷ "prediction_sse_q20"
    ∷ "prediction_samples" ∷ "transition_correct" ∷ "transition_supported" ∷ "transition_unknown"
    ∷ "routing_certification_count" ∷ "routed_complete_mismatches" ∷ "expert_evaluations"
    ∷ eval_checksums

-- The checks between the counts of an evaluation.
unfoldable pub check_eval : {N : Type 0} → Object N → String → Outcome (Unit {0})
check_eval fields context = do
  samples ← int_at "samples" fields
  prediction_samples ← int_at "prediction_samples" fields
  transition_supported ← int_at "transition_supported" fields
  correct ← int_at "correct" fields
  reject_if (ltb_ℤ samples correct || ltb_ℤ samples prediction_samples)
      (context <> ": count exceeds samples")
  transition_correct ← int_at "transition_correct" fields
  reject_if (ltb_ℤ samples transition_supported || ltb_ℤ transition_supported transition_correct)
      (context <> ": transition count contradiction")
  transition_unknown ← int_at "transition_unknown" fields
  reject_if (not (transition_supported +ℤ transition_unknown == samples))
      (context <> ": transition support partition contradiction")

unfoldable pub validate_eval : {N : Type 0} → Json N → String → Outcome (Object N)
validate_eval value context = do
  fields ← require_object value context
  require_exact_keys fields eval_keys context
  require_naturals fields eval_counts context
  check_eval fields context
  require_hexes fields eval_checksums context 16
  ok fields

-- `PLAN_KEYS`, the checksum apart.
abbrev pub plan_counts : List String
plan_counts =
    "cases" ∷ "path_found" ∷ "exact_world_state_target_reached" ∷ "goal_expert_reached"
    ∷ "belief_set_target_reached" ∷ "executed_path_length" ∷ "optimal_path_length"
    ∷ "path_length_regret" ∷ "graph_disconnection_failures" ∷ "no_supported_edge_failures"
    ∷ "transition_model_error_failures" ∷ "state_aliasing_failures" ∷ "expansions" ∷ []

abbrev pub plan_keys : List String
plan_keys = "checksum" ∷ plan_counts

-- The counts that cannot exceed the number of cases.
abbrev pub plan_bounded : List String
plan_bounded =
    "path_found" ∷ "exact_world_state_target_reached" ∷ "goal_expert_reached"
    ∷ "belief_set_target_reached" ∷ "graph_disconnection_failures" ∷ "no_supported_edge_failures"
    ∷ "transition_model_error_failures" ∷ "state_aliasing_failures" ∷ []

unfoldable pub check_bounded :
    {N : Type 0} → Object N → List String → ℤ → String → Outcome (Unit {0})
check_bounded fields [] cases context = ok tt
check_bounded fields (k ∷ ks) cases context = do
  n ← int_at k fields
  reject_if (ltb_ℤ cases n) (context <> "." <> k <> ": exceeds cases")
  check_bounded fields ks cases context

unfoldable pub check_plan : {N : Type 0} → Object N → String → Outcome (Unit {0})
check_plan fields context = do
  cases ← int_at "cases" fields
  check_bounded fields plan_bounded cases context
  path_found ← int_at "path_found" fields
  disconnections ← int_at "graph_disconnection_failures" fields
  unsupported ← int_at "no_supported_edge_failures" fields
  reject_if (not (path_found +ℤ disconnections +ℤ unsupported == cases))
      (context <> ": planning disposition contradiction")

unfoldable pub validate_plan : {N : Type 0} → Json N → String → Outcome (Object N)
validate_plan value context = do
  fields ← require_object value context
  require_exact_keys fields plan_keys context
  require_naturals fields plan_counts context
  check_plan fields context
  require_hexes fields ("checksum" ∷ []) context 16
  ok fields

abbrev pub replay_counts : List String
replay_counts =
    "selected" ∷ "unique" ∷ "labels_covered" ∷ "actions_covered" ∷ "states_covered"
    ∷ "assigned_experts_covered" ∷ "transition_pairs_covered" ∷ "rare_cases_selected"
    ∷ "high_loss_cases_selected" ∷ []

-- `_validate_replay`
unfoldable pub validate_replay : {N : Type 0} → Json N → String → Outcome (Object N)
validate_replay value context = do
  fields ← require_object value context
  require_exact_keys fields ("selection_checksum" ∷ replay_counts) context
  require_naturals fields replay_counts context
  unique ← int_at "unique" fields
  selected ← int_at "selected" fields
  reject_if (ltb_ℤ selected unique) (context <> ": unique exceeds selected")
  require_hexes fields ("selection_checksum" ∷ []) context 16
  ok fields

abbrev pub topology_counts : List String
topology_counts =
    "accepted_births" ∷ "rejected_births" ∷ "accepted_retirements" ∷ "rejected_retirements"
    ∷ "objective_before_q20" ∷ "objective_after_q20" ∷ []

abbrev pub topology_keys : List String
topology_keys = "births" ∷ "retired_lineages" ∷ "training_observations" ∷ topology_counts

abbrev pub indexed : String → ℕ → String
indexed context index = context <> "[" <> decimal index <> "]"

-- The body of the loop over the births, and the loop from an index on.
unfoldable pub validate_birth : {N : Type 0} → Json N → String → Outcome (Unit {0})
validate_birth value context = do
  birth ← require_object value context
  require_exact_keys birth ("event_index" ∷ "normalized_score_q20" ∷ "dominant_channel" ∷ [])
      context
  require_naturals birth ("event_index" ∷ "normalized_score_q20" ∷ []) context
  channel ← get "dominant_channel" birth
  n ← require_int channel (context <> ".dominant_channel") (pos 0) (some (pos 7))
  ok tt

unfoldable pub validate_births : {N : Type 0} → ℕ → List (Json N) → String → Outcome (Unit {0})
validate_births index [] context = ok tt
validate_births index (birth ∷ rest) context = do
  validate_birth birth (indexed context index)
  validate_births (index + 1) rest context

unfoldable pub validate_lineages : {N : Type 0} → ℕ → List (Json N) → String → Outcome (Unit {0})
validate_lineages index [] context = ok tt
validate_lineages index (lineage ∷ rest) context = do
  s ← validate_hex lineage (indexed context index) 16
  validate_lineages (index + 1) rest context

-- `not isinstance(value, list) or len(value) != count` raises.
abbrev pub counted_list :
    {N : Type 0} → Option (List (Json N)) → ℤ → String → Outcome (List (Json N))
counted_list none count message = raise (evaluation_error message)
counted_list (some xs) count message = do reject_if (not (pos (length xs) == count)) message; ok xs

abbrev pub training_keys : List String
training_keys =
    "expert_evaluations" ∷ "samples" ∷ "certified" ∷ "births" ∷ "retired" ∷ "rejected_births"
    ∷ "rejected_retirements" ∷ []

unfoldable pub check_training : {N : Type 0} → Object N → ℤ → ℤ → String → Outcome (Unit {0})
check_training fields births retirements context = do
  value ← get "training_observations" fields
  training ← require_object value (context <> ".training")
  require_exact_keys training training_keys (context <> ".training")
  require_naturals training training_keys (context <> ".training")
  trained ← int_at "births" training
  reject_if (not (trained == births)) (context <> ": accepted birth contradiction")
  retired ← int_at "retired" training
  reject_if (not (retired == retirements)) (context <> ": accepted retirement contradiction")

-- `_validate_topology`
unfoldable pub validate_topology : {N : Type 0} → Json N → String → Outcome (Object N)
validate_topology value context = do
  fields ← require_object value context
  require_exact_keys fields topology_keys context
  require_naturals fields topology_counts context
  births ← get "births" fields
  accepted_births ← int_at "accepted_births" fields
  birth_list ←
      counted_list (as_list births) accepted_births (context <> ": birth trace length mismatch")
  validate_births 0 birth_list (context <> ".births")
  retired ← get "retired_lineages" fields
  accepted_retirements ← int_at "accepted_retirements" fields
  retired_list ←
      counted_list (as_list retired) accepted_retirements
        (context <> ": retirement trace length mismatch")
  validate_lineages 0 retired_list (context <> ".retired_lineages")
  check_training fields accepted_births accepted_retirements context
  ok fields

-- `_validate_variant`
unfoldable pub validate_variant : {N : Type 0} → Json N → String → Outcome (Object N)
validate_variant value context = do
  fields ← require_object value context
  require_exact_keys fields
      ("expert_count" ∷ "training_evaluations" ∷ "checkpoint_size_bytes" ∷ "drift_holdout"
        ∷ "retention_holdout" ∷ "planning" ∷ [])
      context
  experts ← get "expert_count" fields
  n ← require_int experts (context <> ".expert_count") (pos 1) (some (pos 80))
  require_naturals fields ("training_evaluations" ∷ "checkpoint_size_bytes" ∷ []) context
  drift ← get "drift_holdout" fields
  d ← validate_eval drift (context <> ".drift_holdout")
  retention ← get "retention_holdout" fields
  r ← validate_eval retention (context <> ".retention_holdout")
  planning ← get "planning" fields
  p ← validate_plan planning (context <> ".planning")
  ok fields
