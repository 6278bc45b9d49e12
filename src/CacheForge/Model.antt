-- ===== src/CacheForge/Model.antt =====
-- cacheforge/model.py: the data types of the cache, with the checks that their constructors make.
use mncs_reference_studies.Common.{
  ℕ, suc, ◌+◌, String, Bool, true, false, not, Option, none, some, List, [], ◌∷◌, leb,
  if◌then◌else◌, ◌==◌, string_eq,
}
use mncs_reference_studies.Common.Int.{ℤ, pos, negsuc, int_eq}
use mncs_reference_studies.Common.Result.{Result, ok, raise, ◌>>=◌, ◌>>◌, require}

-- The exceptions of the package, one constructor for each `raise`, and the two that Python itself
-- raises: a missing key and a failed assertion.
pub data Error : Type 0 where
  unsupported_mode positive_window_required window_not_allowed : Error
  empty_request_id empty_prompt negative_generated negative_priority cancel_out_of_range : Error
  capacity_not_positive : Error
  capacity_exceeded index_cardinality block_id_mismatch duplicate_identity wrong_index : Error
  unsupported_kind invalid_timestamps negative_reuse invalid_next_id : Error
  no_valid_plan live_eviction no_groups : Error
  policy_mismatch state_missing : Error
  key_error assertion_error : Error

abbrev pub Outcome {ℓ} : Type ℓ → Type ℓ
Outcome A = Result Error A

pub record GroupSpec : Type 0 where
  pub name : String
  pub mode : String
  pub window_blocks : Option ℕ

-- The window of a sliding group: present and at least one.
abbrev sliding_window : Option ℤ → Outcome (Option ℕ)
sliding_window (some (pos (suc n))) = ok (some (suc n))
sliding_window _ = raise positive_window_required

abbrev full_window : Option ℤ → Outcome (Option ℕ)
full_window none = ok none
full_window (some w) = raise window_not_allowed

unfoldable pub group_spec : String → String → Option ℤ → Outcome GroupSpec
group_spec name mode window =
    if mode == "sliding"
    then sliding_window window
      >>= (λ w. ok (record { name = name; mode = mode; window_blocks = w }))
    else if mode == "full"
    then full_window window >>= (λ w. ok (record { name = name; mode = mode; window_blocks = w }))
    else raise unsupported_mode

pub record RequestTrace : Type 0 where
  pub request_id : String
  pub prompt_blocks : List String
  pub generated_blocks : ℕ
  pub priority : ℕ
  pub cancel_after_generated : Option ℕ

-- A number that the constructor refuses when it is negative.
abbrev natural : ℤ → Error → Outcome ℕ
natural (pos n) e = ok n
natural (negsuc n) e = raise e

abbrev cancel_point : Option ℤ → ℕ → Outcome (Option ℕ)
cancel_point none generated = ok none
cancel_point (some (pos n)) generated =
    if leb n generated then ok (some n) else raise cancel_out_of_range
cancel_point (some (negsuc n)) generated = raise cancel_out_of_range

abbrev pub is_empty {ℓ} : {A : Type ℓ} → List A → Bool
is_empty [] = true
is_empty (x ∷ xs) = false

unfoldable pub request_trace : String → List String → ℤ → ℤ → Option ℤ → Outcome RequestTrace
request_trace request_id prompts generated priority cancel = do
  require (not (request_id == "")) empty_request_id
  require (not (is_empty prompts)) empty_prompt
  generated_blocks ← natural generated negative_generated
  level ← natural priority negative_priority
  stop ← cancel_point cancel generated_blocks
  ok (record {
    request_id = request_id;
    prompt_blocks = prompts;
    generated_blocks = generated_blocks;
    priority = level;
    cancel_after_generated = stop;
  })

pub record CacheBlock : Type 0 where
  pub block_id : ℤ
  pub group : String
  pub key : String
  pub kind : String
  pub is_shared : Bool
  pub created_at : ℤ
  pub last_used : ℤ
  pub reuse_count : ℤ
  pub owners : List String

abbrev pub identity : CacheBlock → String × String
identity b = (b.group, b.key)

pub record StudyMetrics : Type 0 where
  pub requests : ℕ
  pub cancelled_requests : ℕ
  pub hits : ℕ
  pub misses : ℕ
  pub evictions : ℕ
  pub recomputed_blocks : ℕ
  pub planner_calls : ℕ
  pub planner_candidates_inspected : ℕ
  pub rejected_proposals : ℕ
  pub fallback_uses : ℕ
  pub peak_resident_blocks : ℕ

abbrev pub no_metrics : StudyMetrics
no_metrics = record {
  requests = 0;
  cancelled_requests = 0;
  hits = 0;
  misses = 0;
  evictions = 0;
  recomputed_blocks = 0;
  planner_calls = 0;
  planner_candidates_inspected = 0;
  rejected_proposals = 0;
  fallback_uses = 0;
  peak_resident_blocks = 0;
}

-- Field by field, the peak included.
unfoldable pub merge : StudyMetrics → StudyMetrics → StudyMetrics
merge m other = record {
  requests = m.requests + other.requests;
  cancelled_requests = m.cancelled_requests + other.cancelled_requests;
  hits = m.hits + other.hits;
  misses = m.misses + other.misses;
  evictions = m.evictions + other.evictions;
  recomputed_blocks = m.recomputed_blocks + other.recomputed_blocks;
  planner_calls = m.planner_calls + other.planner_calls;
  planner_candidates_inspected =
      m.planner_candidates_inspected + other.planner_candidates_inspected;
  rejected_proposals = m.rejected_proposals + other.rejected_proposals;
  fallback_uses = m.fallback_uses + other.fallback_uses;
  peak_resident_blocks = m.peak_resident_blocks + other.peak_resident_blocks;
}
