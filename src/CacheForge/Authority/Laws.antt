-- ===== src/CacheForge/Authority/Laws.antt =====
-- What the authority lets through, whatever the policy proposes, and when it has a plan at all.
use mncs_reference_studies.Common.{
  ℕ, ◌≤◌, ◌<◌, ◌≡◌, refl, ◌∙◌, true, false, List, [], ◌∷◌, arith, inl, inr, ◌⊎◌, Bool-cases, length,
  take, some, length-map, length-take, Option-cases,
}
use mncs_reference_studies.Common.Int.{ℤ, int_eq}
use mncs_reference_studies.Common.Result.{ok, raise}
use mncs_reference_studies.Common.Sets.{NoRepeats, NoRepeats-of_length, length-to_set}
use mncs_reference_studies.Common.Sorting.{All}
use mncs_reference_studies.Common.Selection.{NoRepeats-take, take_of_length-le}
use mncs_reference_studies.Dict.{lookup}
use mncs_reference_studies.CacheForge.Model.{CacheBlock, StudyMetrics, Error, no_valid_plan}
use mncs_reference_studies.CacheForge.State.{CacheState}
use mncs_reference_studies.CacheForge.State.Valid.{IsValid}
use mncs_reference_studies.CacheForge.Policies.{EvictionPolicy, evictable, ids, used_key}
use mncs_reference_studies.CacheForge.Policies.Order.{
  nil_of_is_empty, IsFree, IsPlan, propose_sorted-IsPlan,
}
use mncs_reference_studies.CacheForge.Authority.{
  AllocationAuthority, default_authority, all_unowned, valid, called, fell_back, fall_back,
  authorize_eviction,
}

-- The id of a resident block that no request owns.
abbrev pub IsUnowned : CacheState → ℤ → Type 0
IsUnowned s id = (b : CacheBlock) × (lookup id s.blocks ≡ some b) × (b.owners ≡ [])

all_unowned_sound : (s : CacheState) (l : List ℤ) → all_unowned s l ≡ true → All (IsUnowned s) l
unfolding all_unowned
all_unowned_sound s [] h = tt
all_unowned_sound s (id ∷ l) h = elim (Option-cases (lookup id s.blocks)) [
  | inl e ↦ absurd (ground arith)
  | inr (b, e) ↦
      ((b, e, nil_of_is_empty b.owners (ground arith)), all_unowned_sound s l (ground arith))
]

all_unowned_of_IsFree :
    (s : CacheState) (l : List CacheBlock) → All (IsFree s) l → all_unowned s (ids l) ≡ true
unfolding all_unowned
all_unowned_of_IsFree s [] h = refl
all_unowned_of_IsFree s (b ∷ l) ((e, o), h) = rw (e, o) (all_unowned_of_IsFree s l h)

-- Exactly `required` resident blocks, none twice and none owned.
pub record IsAuthorized (s : CacheState) (required : ℕ) (victims : List ℤ) : Type 0 where
  pub counted : length victims ≡ required
  pub distinct : NoRepeats victims
  pub unowned : All (IsUnowned s) victims

valid-IsAuthorized :
    (s : CacheState) (proposal : List ℤ) (required : ℕ)
    → valid s proposal required ≡ true
    → IsAuthorized s required (take required proposal)
unfolding valid
valid-IsAuthorized s proposal required h = record {
  counted = ground (arith, length-take required proposal);
  distinct = NoRepeats-take required proposal (NoRepeats-of_length proposal (ground arith));
  unowned = all_unowned_sound s (take required proposal) (ground arith);
}

module _ (authority : AllocationAuthority) (s : CacheState) (policy : EvictionPolicy) (required : ℕ)
    (m : StudyMetrics) where
  abbrev proposed : List ℤ
  proposed = (policy.propose s required).0

  abbrev fallen_back : List ℤ
  fallen_back = (authority.fallback_policy.propose s required).0

  authorize_eviction_cases :
      (victims : List ℤ) (m' : StudyMetrics)
      → authorize_eviction authority s policy required m ≡ ok (victims, m')
      → ((required ≡ 0) × (victims ≡ []))
        ⊎ ((valid s proposed required ≡ true) × (victims ≡ take required proposed))
        ⊎ ((valid s fallen_back required ≡ true) × (victims ≡ take required fallen_back))
  unfolding authorize_eviction fall_back
  authorize_eviction_cases victims m' h = ground arith

-- Whatever the policy proposes and whatever the fallback is, what the authority returns is
-- exactly `required` distinct resident blocks that no request owns.
pub authorize_eviction-IsAuthorized :
    (authority : AllocationAuthority) (s : CacheState) (policy : EvictionPolicy) (required : ℕ)
    (m : StudyMetrics) (victims : List ℤ) (m' : StudyMetrics)
    → authorize_eviction authority s policy required m ≡ ok (victims, m')
    → IsAuthorized s required victims
authorize_eviction-IsAuthorized authority s policy required m victims m' h =
    elim (authorize_eviction_cases authority s policy required m victims m' h) [
      | inl (none_required, nothing) ↦
          rw (nothing, none_required) (record { counted = refl; distinct = tt; unowned = tt })
      | inr (inl (good, e)) ↦ rw e (valid-IsAuthorized s _ required good)
      | inr (inr (good, e)) ↦ rw e (valid-IsAuthorized s _ required good)
    ]

plan-valid :
    (s : CacheState) (key : CacheBlock → List ℤ) (required : ℕ) (plan : List CacheBlock)
    → IsPlan s key required plan
    → required ≤ length (evictable s)
    → (valid s (ids plan) required ≡ true) × (take required (ids plan) ≡ ids plan)
unfolding valid
plan-valid s key required plan p enough =
    let n : length (ids plan) ≡ required =
      length-map plan (λ b. b.block_id) ∙ omega (arith, p.counted) in
    let all = take_of_length-le required (ids plan) (omega (arith, n)) in
    (
      ground
          (arith, n, all, length-to_set (ids plan) p.distinct, all_unowned_of_IsFree s plan p.free),
      all,
    )

-- On a valid state with `required` free blocks or more, and `required` positive, the default
-- authority never raises, whatever the policy proposes: either the proposal passes its check and the
-- victims are its first `required` blocks, or it does not and they are the least recently used free
-- blocks.
pub authorize_eviction-total :
    (s : CacheState) (policy : EvictionPolicy) (required : ℕ) (m : StudyMetrics)
    → IsValid s
    → 0 < required
    → required ≤ length (evictable s)
    → (victims : List ℤ) × (m' : StudyMetrics) × (authorize_eviction default_authority s policy
          required m
        ≡ ok (victims, m'))
      × (((valid s (policy.propose s required).0 required ≡ true)
            × (victims ≡ take required (policy.propose s required).0))
          ⊎ ((valid s (policy.propose s required).0 required ≡ false)
              × (plan : List CacheBlock) × IsPlan s used_key required plan
              × (victims ≡ ids plan)))
unfolding authorize_eviction fall_back
authorize_eviction-total s policy required m v some_required enough =
    let (plan, p, e) = propose_sorted-IsPlan s used_key required v in
    let (good, whole) = plan-valid s used_key required plan p enough in
    elim (Bool-cases (valid s (policy.propose s required).0 required)) [
      | inl taken ↦ (
        take required (policy.propose s required).0,
        called m (policy.propose s required).1,
        ground arith,
        inl (taken, refl),
      )
      | inr refused ↦ (
        ids plan,
        fell_back (called m (policy.propose s required).1) (length (evictable s)),
        ground arith,
        inr (refused, plan, p, refl),
      )
    ]

-- The counters of accesses and requests are not the authority's.
pub authorize_eviction-counters :
    (authority : AllocationAuthority) (s : CacheState) (policy : EvictionPolicy) (required : ℕ)
    (m : StudyMetrics) (victims : List ℤ) (m' : StudyMetrics)
    → authorize_eviction authority s policy required m ≡ ok (victims, m')
    → (m'.hits ≡ m.hits) × (m'.misses ≡ m.misses) × (m'.requests ≡ m.requests)
unfolding authorize_eviction fall_back
authorize_eviction-counters authority s policy required m victims m' h = ground arith

-- The only exception of the authority is that no valid plan is available.
pub authorize_eviction-raises :
    (authority : AllocationAuthority) (s : CacheState) (policy : EvictionPolicy) (required : ℕ)
    (m : StudyMetrics) (e : Error)
    → authorize_eviction authority s policy required m ≡ raise e
    → e ≡ no_valid_plan
unfolding authorize_eviction fall_back
authorize_eviction-raises authority s policy required m e h = ground arith
