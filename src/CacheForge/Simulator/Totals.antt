-- ===== src/CacheForge/Simulator/Totals.antt =====
-- When an access is sure to return.
use mncs_reference_studies.Common.{
  true, ap, ◌∙◌, ◌≤◌, ◌<◌, ◌≡◌, ◌⊎◌, refl, Bool-cases, inl, inr, some, none, arith, pair_eq,
  string_eq, length, Option-cases, leb,
}
use mncs_reference_studies.Common.Int.{ℤ, int_eq}
use mncs_reference_studies.Common.Result.{ok}
use mncs_reference_studies.Dict.{lookup}
use mncs_reference_studies.CacheForge.Model.{StudyMetrics}
use mncs_reference_studies.CacheForge.State.{CacheState, is_kind, tick}
use mncs_reference_studies.CacheForge.State.Valid.{IsValid}
use mncs_reference_studies.CacheForge.Policies.{EvictionPolicy, evictable}
use mncs_reference_studies.CacheForge.Authority.{default_authority}
use mncs_reference_studies.CacheForge.Authority.Laws.{
  authorize_eviction-IsAuthorized, authorize_eviction-total,
}
use mncs_reference_studies.CacheForge.Simulator.Preserve.{tick-IsValid}
use mncs_reference_studies.CacheForge.Simulator.Blocks.{reuse, store}
use mncs_reference_studies.CacheForge.Simulator.Accesses.{evict_all_one}
use mncs_reference_studies.CacheForge.Simulator.Steps.{IsAccessed, access-IsAccessed}
use mncs_reference_studies.CacheForge.Simulator.Raises.{
  Safe, Safe-of, access-raises, raises_of_Safe,
}
use mncs_reference_studies.CacheForge.Simulator.{
  Simulator, Progress, make_room, one_eviction, Access, access, one_miss, one_hit, raise_peak,
}

make_room-total :
    (policy : EvictionPolicy) (s : CacheState) (m : StudyMetrics)
    → IsValid s
    → (length s.blocks < s.capacity_blocks) ⊎ (1 ≤ length (evictable s))
    → (p : Progress) × (make_room default_authority policy (s, m) ≡ ok p)
unfolding make_room
make_room-total policy s m v room = elim (Bool-cases (leb s.capacity_blocks (length s.blocks))) [
  | inr roomy ↦ ((s, m), rw roomy refl)
  | inl full ↦ go full room
]
  where
    evicted :
        1 ≤ length (evictable s)
        → leb s.capacity_blocks (length s.blocks) ≡ true
        → (p : Progress) × (make_room default_authority policy (s, m) ≡ ok p)
    evicted free full =
        let (victims, m', e, _) = authorize_eviction-total s policy 1 m v (omega arith) free in
        let (s', gone, e') =
          evict_all_one default_authority policy s m v victims m'
            (authorize_eviction-IsAuthorized default_authority s policy 1 m victims m' e) in
        ((s', one_eviction m'), rw (full, e, e') refl)

    go :
        leb s.capacity_blocks (length s.blocks) ≡ true
        → (length s.blocks < s.capacity_blocks) ⊎ (1 ≤ length (evictable s))
        → (p : Progress) × (make_room default_authority policy (s, m) ≡ ok p)
    go full (inl roomy) = absurd (ground arith)
    go full (inr free) = evicted free full

module _ (sim : Simulator) (a : Access) (v : IsValid sim.state) where
  known-returns :
      (i : ℤ)
      → lookup (a.group, a.key) sim.state.key_index ≡ some i
      → (id : ℤ) × (sim' : Simulator) × (access sim a ≡ ok (id, sim'))
  unfolding access tick
  known-returns i known =
      let (b, found, e) = v.located (a.group, a.key) i known in
      (
        i,
        record sim { state = reuse (tick sim.state) i a.request_id; metrics = one_hit sim.metrics },
        rw (known, found) refl,
      )

  new-returns :
      sim.authority ≡ default_authority
      → (length sim.state.blocks < sim.state.capacity_blocks) ⊎ (1 ≤ length (evictable sim.state))
      → lookup (a.group, a.key) sim.state.key_index ≡ none
      → (id : ℤ) × (sim' : Simulator) × (access sim a ≡ ok (id, sim'))
  unfolding access tick
  new-returns same room new =
      let ((s, m), e) =
        make_room-total sim.policy (tick sim.state) (one_miss sim.metrics)
          (tick-IsValid sim.state v) room in
      let e' = ap (λ x. make_room x sim.policy (tick sim.state, one_miss sim.metrics)) same ∙ e in
      let t = store s a.request_id a.group a.key a.kind a.is_shared in
      (
        s.next_block_id,
        record sim { state = t; metrics = raise_peak m (length t.blocks) },
        rw (new, e') refl,
      )

-- With the default authority and under any policy, an access of a supported kind to a valid cache
-- that has room for a block, or a block that nobody owns, returns; what it returns is as
-- `IsAccessed` says.
pub access-total :
    (sim : Simulator) (a : Access)
    → IsValid sim.state
    → is_kind a.kind ≡ true
    → sim.authority ≡ default_authority
    → (length sim.state.blocks < sim.state.capacity_blocks) ⊎ (1 ≤ length (evictable sim.state))
    → (id : ℤ) × (sim' : Simulator) × (access sim a ≡ ok (id, sim')) × IsAccessed sim a id sim'
access-total sim a v kind same room =
    let (id, sim', e) = returned in (id, sim', e, access-IsAccessed sim a id sim' v kind e)
  where
    returned : (id : ℤ) × (sim' : Simulator) × (access sim a ≡ ok (id, sim'))
    returned = elim (Option-cases (lookup (a.group, a.key) sim.state.key_index)) [
      | inl new ↦ new-returns sim a v same room new
      | inr (i, known) ↦ known-returns sim a v i known
    ]

-- On a valid cache an access of a supported kind returns as `IsAccessed` says, or raises that no
-- valid plan is available: no other exception escapes it.
pub access-Safe :
    (sim : Simulator) (a : Access)
    → IsValid sim.state
    → is_kind a.kind ≡ true
    → Safe (λ (r : ℤ × Simulator). IsAccessed sim a r.0 r.1) (access sim a)
access-Safe sim a v kind =
    Safe-of _ (access sim a) (λ r e. access-IsAccessed sim a r.0 r.1 v kind e)
      (λ e raised.
        raises_of_Safe (λ (r : ℤ × Simulator). Unit {0}) (access sim a) e (access-raises sim a v)
          raised)
