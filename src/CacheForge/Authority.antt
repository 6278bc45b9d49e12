-- ===== src/CacheForge/Authority.antt =====
-- cacheforge/authority.py: the check that every proposed eviction goes through, and the fallback.
pub mod Laws
use mncs_reference_studies.Common.{
  ℕ, ◌+◌, Bool, true, false, ◌&&◌, not, Option, none, some, List, [], ◌∷◌, leb, ltb, if◌then◌else◌,
  ◌==◌, nat_eq, length, take,
}
use mncs_reference_studies.Common.Int.{ℤ, int_eq}
use mncs_reference_studies.Common.Result.{ok, raise, ◌>>=◌, ◌>>◌, require}
use mncs_reference_studies.Common.Sets.{to_set}
use mncs_reference_studies.Dict.{lookup}
use mncs_reference_studies.CacheForge.Model.{
  Outcome, CacheBlock, StudyMetrics, no_valid_plan, is_empty,
}
use mncs_reference_studies.CacheForge.State.{CacheState}
use mncs_reference_studies.CacheForge.Policies.{EvictionPolicy, reference_lru}

pub record AllocationAuthority : Type 0 where
  pub fallback_policy : EvictionPolicy

abbrev pub default_authority : AllocationAuthority
default_authority = record { fallback_policy = reference_lru }

abbrev pub is_unowned : Option CacheBlock → Bool
is_unowned none = false
is_unowned (some b) = is_empty b.owners

unfoldable pub all_unowned : CacheState → List ℤ → Bool
all_unowned s [] = true
all_unowned s (id ∷ rest) = is_unowned (lookup id s.blocks) && all_unowned s rest

unfoldable pub valid : CacheState → List ℤ → ℕ → Bool
valid s proposal required =
    leb required (length proposal)
    && (length (to_set proposal) == length proposal)
    && all_unowned s (take required proposal)

-- The counters after a proposal, and after a rejected one with its fallback.
abbrev pub called : StudyMetrics → ℕ → StudyMetrics
called m inspected = record m {
  planner_calls = m.planner_calls + 1;
  planner_candidates_inspected = m.planner_candidates_inspected + inspected;
}

abbrev pub fell_back : StudyMetrics → ℕ → StudyMetrics
fell_back m inspected = record m {
  rejected_proposals = m.rejected_proposals + 1;
  fallback_uses = m.fallback_uses + 1;
  planner_candidates_inspected = m.planner_candidates_inspected + inspected;
}

unfoldable pub fall_back :
    AllocationAuthority → CacheState → ℕ → StudyMetrics → Outcome (List ℤ × StudyMetrics)
fall_back authority s required m =
    let (fallback, inspected) = authority.fallback_policy.propose s required in
    require (valid s fallback required) no_valid_plan
    >> ok (take required fallback, fell_back m inspected)

unfoldable pub authorize_eviction :
    AllocationAuthority
    → CacheState
    → EvictionPolicy
    → ℕ
    → StudyMetrics
    → Outcome (List ℤ × StudyMetrics)
authorize_eviction authority s policy required m =
    let (proposal, inspected) = policy.propose s required in
    if ltb required 1
    then ok ([], m)
    else if valid s proposal required
    then ok (take required proposal, called m inspected)
    else fall_back authority s required (called m inspected)
