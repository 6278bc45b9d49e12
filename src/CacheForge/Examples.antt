-- ===== src/CacheForge/Examples.antt =====
-- Runs of the CacheForge model on small inputs, and its theorems at concrete caches.
use mncs_reference_studies.Common.{
  ◌≤◌, ◌<◌, inl, inr, true, ◌≡◌, ◌⊎◌, refl, true, none, some, List, [], ◌∷◌, arith, length, take,
}
use mncs_reference_studies.Common.Int.{ℤ, pos, negsuc, ◌+ℤ◌, ◌-ℤ◌}
use mncs_reference_studies.Common.Result.{ok, raise}
use mncs_reference_studies.Common.Sorting.{All, sort_by}
use mncs_reference_studies.Dict
use mncs_reference_studies.Common.Sets
use mncs_reference_studies.Common.Text.{decimal}
use mncs_reference_studies.CacheForge.Model.{
  CacheBlock, GroupSpec, Outcome, RequestTrace, no_metrics, StudyMetrics,
}
use mncs_reference_studies.CacheForge.State.{
  CacheState, cache_state, tick, is_kind, check_block, check_blocks, validate,
}
use mncs_reference_studies.CacheForge.Policies.{
  free_blocks, leb_key, propose_sorted, repeat_first, ids_from, invalid_duplicate_policy, evictable,
  used_key, segment_key, ids,
}
use mncs_reference_studies.Common.{◌↔◌, false}
use mncs_reference_studies.CacheForge.State.Checked.{IsChecked, validate_iff}
use mncs_reference_studies.CacheForge.Policies.Order.{IsPlan, propose_sorted-IsPlan}
use mncs_reference_studies.CacheForge.Authority.{
  default_authority, all_unowned, valid, fall_back, authorize_eviction,
}
use mncs_reference_studies.CacheForge.Authority.Laws.{
  IsAuthorized, authorize_eviction-IsAuthorized, authorize_eviction-total,
}
use mncs_reference_studies.CacheForge.Simulator.Blocks.{reuse, remove, store, disown}
use mncs_reference_studies.CacheForge.Simulator.Sliding.{
  Windows, with_window, windows_from, expire, advance_sliding, disown_all,
}
use mncs_reference_studies.CacheForge.Simulator.{
  Simulator, simulator, evict, evict_all, make_room, access, Access, touch, touch_groups,
  prompt_loop, generated_loop, process, process_all, run, prompt_access,
}
use mncs_reference_studies.CacheForge.Simulator.Steps.{IsAccessed, access-IsAccessed}
use mncs_reference_studies.CacheForge.Simulator.Raises.{Safe}
use mncs_reference_studies.CacheForge.Simulator.Totals.{access-total, access-Safe}
use mncs_reference_studies.CacheForge.Simulator.Expiry.{
  IsKept, IsReady, IsSlid, advance_sliding-IsSlid,
}
use mncs_reference_studies.CacheForge.Policies.Generated.{
  eviction_rank, feature_mask, rank_of, feature_mask-rank,
}
use mncs_reference_studies.CacheForge.Simulator.Runs.{
  IsGroup, IsServing, process-IsServing, run-IsServing,
}
use mncs_reference_studies.CacheForge.Scenarios.{default_groups}

program : Unit {0}
unfolding ◌+ℤ◌ Dict.lookup Dict.insert Dict.delete Dict.adjust Dict.values Sets.contains Sets.add
    Sets.discard Sets.to_set sort_by decimal cache_state tick is_kind check_block check_blocks
    validate free_blocks leb_key propose_sorted repeat_first ids_from all_unowned valid fall_back
    authorize_eviction reuse remove store disown with_window windows_from expire advance_sliding
    disown_all simulator evict evict_all make_room access touch touch_groups prompt_loop
    generated_loop process process_all run
program = tt

abbrev fresh_state : CacheState
fresh_state = record {
  capacity_blocks = 7;
  clock = pos 0;
  next_block_id = pos 0;
  blocks = [];
  key_index = [];
}

abbrev fresh : Simulator
fresh = record {
  groups = default_groups;
  policy = invalid_duplicate_policy;
  authority = default_authority;
  state = fresh_state;
  metrics = no_metrics;
}

made : simulator default_groups (pos 7) invalid_duplicate_policy ≡ ok fresh
unfolding program
made = refl

default_groups-IsGroup : All IsGroup default_groups
default_groups-IsGroup = ((λ h. cc), ((λ h. (2, refl, omega arith)), tt))

abbrev request : RequestTrace
request = record {
  request_id = "r1";
  prompt_blocks = "sys:a:0" ∷ "user:b:0" ∷ "user:b:1" ∷ [];
  generated_blocks = 1;
  priority = 1;
  cancel_after_generated = none;
}

abbrev value_of {ℓ} : {A : Type ℓ} → Outcome A → A → A
value_of (ok a) d = a
value_of (raise e) d = d

served : Simulator
served = value_of (run fresh (request ∷ [])) fresh

-- Eight accesses of new blocks at a capacity of seven: one eviction, by the fallback.
served_metrics :
    (served.metrics.misses ≡ 8)
    × (served.metrics.evictions ≡ 1)
    × (served.metrics.fallback_uses ≡ 1)
    × (served.metrics.peak_resident_blocks ≡ 7)
unfolding served program
served_metrics = (refl, refl, refl, refl)

value_of_Safe {ℓ} :
    {A : Type ℓ} (P : A → Type 0) (m : Outcome A) (d : A) → Safe P m → P d → P (value_of m d)
value_of_Safe P (ok a) d h hd = h
value_of_Safe P (raise e) d h hd = hd

run-IsServing_example : Safe (IsServing default_groups) (run fresh (request ∷ []))
run-IsServing_example =
    run-IsServing default_groups (pos 7) invalid_duplicate_policy fresh (request ∷ [])
      default_groups-IsGroup made

fresh-IsServing : IsServing default_groups fresh
unfolding program
fresh-IsServing =
    run-IsServing default_groups (pos 7) invalid_duplicate_policy fresh [] default_groups-IsGroup
      made

served-IsServing : IsServing default_groups served
unfolding served
served-IsServing =
    value_of_Safe (IsServing default_groups) (run fresh (request ∷ [])) fresh run-IsServing_example
      fresh-IsServing

process-IsServing_example : Safe (IsServing default_groups) (process fresh request)
process-IsServing_example =
    process-IsServing fresh request default_groups-IsGroup fresh-IsServing.rested

validate_iff_example : (validate served.state ≡ ok tt) ↔ IsChecked served.state
validate_iff_example = validate_iff served.state

-- A second request asks for the first prompt block again.
abbrev again : Access
again = record (prompt_access "r2" "sys:a:0") { group = "full" }

abbrev missing : Access
missing = record (prompt_access "r2" "new") { group = "full" }

accessed : Access → ℤ × Simulator
accessed a = value_of (access served a) (pos 0, served)

access-IsAccessed_example : IsAccessed served missing (accessed missing).0 (accessed missing).1
unfolding accessed served program
access-IsAccessed_example =
    access-IsAccessed served missing (accessed missing).0 (accessed missing).1
      served-IsServing.rested.valid refl refl

authorized : List ℤ × StudyMetrics
authorized =
    value_of
      (authorize_eviction default_authority served.state invalid_duplicate_policy 2 no_metrics)
      ([], no_metrics)

authorize_eviction-IsAuthorized_example : IsAuthorized served.state 2 authorized.0
unfolding authorized served program
authorize_eviction-IsAuthorized_example =
    authorize_eviction-IsAuthorized default_authority served.state invalid_duplicate_policy 2
      no_metrics authorized.0 authorized.1 refl

enough : 2 ≤ length (evictable served.state)
unfolding served program
enough = omega arith

authorize_eviction-total_example :
    (victims : List ℤ) × (m : StudyMetrics) × (authorize_eviction default_authority served.state
        invalid_duplicate_policy 2 no_metrics
      ≡ ok (victims, m))
    × (((valid served.state (invalid_duplicate_policy.propose served.state 2).0 2 ≡ true)
          × (victims ≡ take 2 (invalid_duplicate_policy.propose served.state 2).0))
        ⊎ ((valid served.state (invalid_duplicate_policy.propose served.state 2).0 2 ≡ false)
            × (plan : List CacheBlock) × IsPlan served.state used_key 2 plan
            × (victims ≡ ids plan)))
authorize_eviction-total_example =
    authorize_eviction-total served.state invalid_duplicate_policy 2 no_metrics
      served-IsServing.rested.valid (omega arith) enough

propose_sorted-IsPlan_example :
    (plan : List CacheBlock) × IsPlan served.state segment_key 3 plan
    × (propose_sorted segment_key served.state 3 ≡ (ids plan, length (evictable served.state)))
propose_sorted-IsPlan_example =
    propose_sorted-IsPlan served.state segment_key 3 served-IsServing.rested.valid

access-Safe_example :
    Safe (λ (r : ℤ × Simulator). IsAccessed served again r.0 r.1) (access served again)
unfolding served program
access-Safe_example = access-Safe served again served-IsServing.rested.valid refl

free_block : 1 ≤ length (evictable served.state)
unfolding served program
free_block = omega arith

access-total_example :
    (id : ℤ) × (sim : Simulator) × (access served missing ≡ ok (id, sim))
    × IsAccessed served missing id sim
unfolding served program
access-total_example =
    access-total served missing served-IsServing.rested.valid refl refl (inr free_block)

sliding_group : GroupSpec
sliding_group = record { name = "sliding"; mode = "sliding"; window_blocks = some 2 }

abbrev windows : Windows
windows = ("sliding", pos 1 ∷ pos 3 ∷ []) ∷ []

sliding-IsReady : IsReady windows sliding_group
unfolding sliding_group program
sliding-IsReady h = (2, refl, pos 1 ∷ pos 3 ∷ [], refl)

served-IsKept : IsKept "r2" served.state []
served-IsKept = record {
  valid = served-IsServing.rested.valid;
  held = λ id b found. inl (served-IsServing.rested.idle id b found);
}

advance_sliding-IsSlid_example :
    (r : CacheState × List ℤ × Windows) × (advance_sliding sliding_group
        (pos 5)
        "r2"
        served.state
        []
        windows
      ≡ ok r)
    × IsSlid "r2" (sliding_group ∷ []) sliding_group r
advance_sliding-IsSlid_example =
    advance_sliding-IsSlid "r2" (sliding_group ∷ []) sliding_group (pos 5) served.state [] windows
      served-IsKept (sliding-IsReady, tt) sliding-IsReady

sample_block : CacheBlock
sample_block = record {
  block_id = pos 4;
  group = "sliding";
  key = "sys:a:0";
  kind = "prompt";
  is_shared = true;
  created_at = pos 1;
  last_used = pos 8;
  reuse_count = pos 2;
  owners = [];
}

feature_mask-rank_example :
    (feature_mask sample_block (pos 9) < length eviction_rank)
    × (rank_of (feature_mask sample_block (pos 9)) ≡ negsuc 59)
unfolding sample_block ◌-ℤ◌ ◌+ℤ◌
feature_mask-rank_example = feature_mask-rank sample_block (pos 9)
