-- ===== src/CacheForge/Simulator/Raises.antt =====
-- Which exceptions the steps of the simulator can raise on a valid cache.
use mncs_reference_studies.Common.{
  ◌≡◌, refl, inl, inr, Bool-cases, pair_eq, string_eq, length, Option-cases, List, leb,
}
use mncs_reference_studies.Common.Int.{ℤ, int_eq}
use mncs_reference_studies.Common.Result.{ok, raise, ◌>>=◌}
use mncs_reference_studies.Dict.{lookup}
use mncs_reference_studies.CacheForge.Model.{StudyMetrics, Outcome, Error, no_valid_plan}
use mncs_reference_studies.CacheForge.State.{CacheState, tick}
use mncs_reference_studies.CacheForge.State.Valid.{IsValid}
use mncs_reference_studies.CacheForge.Policies.{EvictionPolicy}
use mncs_reference_studies.CacheForge.Authority.{AllocationAuthority, authorize_eviction}
use mncs_reference_studies.CacheForge.Authority.Laws.{
  IsAuthorized, authorize_eviction-IsAuthorized, authorize_eviction-raises,
}
use mncs_reference_studies.CacheForge.Simulator.Preserve.{tick-IsValid}
use mncs_reference_studies.CacheForge.Simulator.Accesses.{evict_all_one}
use mncs_reference_studies.CacheForge.Simulator.{
  Simulator, Progress, evict_all, make_room, Access, access, one_miss,
}

-- A computation that returns a value with the property, or raises that no plan is available.
abbrev pub Safe {ℓ} : {A : Type ℓ} → (A → Type 0) → Outcome A → Type 0
Safe P (ok a) = P a
Safe P (raise e) = e ≡ no_valid_plan

pub Safe-of {ℓ} :
    {A : Type ℓ} (P : A → Type 0) (m : Outcome A)
    → ((a : A) → m ≡ ok a → P a)
    → ((e : Error) → m ≡ raise e → e ≡ no_valid_plan)
    → Safe P m
Safe-of P (ok a) returns raises = returns a refl
Safe-of P (raise e) returns raises = raises e refl

pub Safe-bind {ℓ κ} :
    {A : Type ℓ} {B : Type κ} (P : A → Type 0) (Q : B → Type 0) (m : Outcome A) (f : A → Outcome B)
    → Safe P m
    → ((a : A) → P a → Safe Q (f a))
    → Safe Q (m >>= f)
Safe-bind P Q (ok a) f p k = k a p
Safe-bind P Q (raise e) f p k = p

evicts :
    (authority : AllocationAuthority) (policy : EvictionPolicy) (s : CacheState) (m : StudyMetrics)
    → IsValid s
    → Safe
        (λ (p : Progress). Unit {0})
        (authorize_eviction authority s policy 1 m >>= λ r. evict_all r.0 (s, r.1))
evicts authority policy s m v =
    Safe-bind (λ (r : List ℤ × StudyMetrics). IsAuthorized s 1 r.0) (λ (p : Progress). Unit {0})
      (authorize_eviction authority s policy 1 m) (λ r. evict_all r.0 (s, r.1))
      (Safe-of _ _ (λ r e. authorize_eviction-IsAuthorized authority s policy 1 m r.0 r.1 e)
        (authorize_eviction-raises authority s policy 1 m))
      (λ r a. let (s', gone, e) = evict_all_one authority policy s m v r.0 r.1 a in rw e tt)

make_room-Safe :
    (authority : AllocationAuthority) (policy : EvictionPolicy) (s : CacheState) (m : StudyMetrics)
    → IsValid s
    → Safe (λ (p : Progress). Unit {0}) (make_room authority policy (s, m))
unfolding make_room
make_room-Safe authority policy s m v =
    elim (Bool-cases (leb s.capacity_blocks (length s.blocks))) [
      | inr roomy ↦ rw roomy tt
      | inl full ↦ rw full (evicts authority policy s m v)
    ]

pub raises_of_Safe {ℓ} :
    {A : Type ℓ} (P : A → Type 0) (m : Outcome A) (e : Error)
    → Safe P m
    → m ≡ raise e
    → e ≡ no_valid_plan
raises_of_Safe P (ok a) e s h = cc
raises_of_Safe P (raise e') e s h = cc

-- On a valid cache the only exception of an access is that no valid plan is available.
pub access-raises :
    (sim : Simulator) (a : Access)
    → IsValid sim.state
    → Safe (λ (r : ℤ × Simulator). Unit {0}) (access sim a)
unfolding access tick
access-raises sim a v = elim (Option-cases (lookup (a.group, a.key) sim.state.key_index)) [
  | inl new ↦ rw new (
      Safe-bind (λ (p : Progress). Unit {0}) (λ (r : ℤ × Simulator). Unit {0})
        (make_room sim.authority sim.policy (tick sim.state, one_miss sim.metrics)) _
        (make_room-Safe sim.authority sim.policy (tick sim.state) (one_miss sim.metrics)
          (tick-IsValid sim.state v))
        (λ p t. tt))
  | inr (i, known) ↦ let (b, found, e) = v.located (a.group, a.key) i known in rw (known, found) tt
]
