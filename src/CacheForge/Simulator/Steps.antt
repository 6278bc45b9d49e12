-- ===== src/CacheForge/Simulator/Steps.antt =====
-- `_access` as a whole, over any policy.
use mncs_reference_studies.Common.{
  ◌+◌, ◌<◌, String, ◌≡◌, ◌⊎◌, refl, sym, ap, ◌∙◌, true, inl, inr, subst, Option, some, none, arith,
  pair_eq, string_eq, length, some_inj, Option-cases, List, beq_self,
}
use mncs_reference_studies.Common.Int.{ℤ, int_eq}
use mncs_reference_studies.Common.Result.{ok, >>=-eq-ok, ok_inj}
use mncs_reference_studies.Common.Sets.{contains, add, contains-add, contains_self}
use mncs_reference_studies.Dict.{
  lookup, length-delete, lookup-adjust_self, lookup-insert_self, lookup-delete-none, insert,
}
use mncs_reference_studies.CacheForge.Model.{CacheBlock, StudyMetrics, identity}
use mncs_reference_studies.CacheForge.State.{CacheState, is_kind, tick}
use mncs_reference_studies.CacheForge.State.Valid.{IsValid}
use mncs_reference_studies.CacheForge.Simulator.Blocks.{reuse, reused, remove, store, new_block}
use mncs_reference_studies.CacheForge.Simulator.Preserve.{
  tick-IsValid, reuse-IsValid, remove-IsValid,
}
use mncs_reference_studies.CacheForge.Simulator.Admit.{store-IsValid}
use mncs_reference_studies.CacheForge.Simulator.Accesses.{IsEvicted, make_room_cases}
use mncs_reference_studies.CacheForge.Simulator.Ownership.{
  HeldBy, reuse-HeldBy, remove-HeldBy, store-HeldBy,
}
use mncs_reference_studies.CacheForge.Simulator.{
  Simulator, make_room, Access, access, hit, miss, one_hit, one_miss, raise_peak,
}

-- An access that found its block.
pub record IsHit (sim : Simulator) (a : Access) (id : ℤ) (sim' : Simulator) : Type 0 where
  pub block : CacheBlock
  pub known : lookup (a.group, a.key) sim.state.key_index ≡ some id
  pub resident : lookup id sim.state.blocks ≡ some block
  pub after :
      sim'
      ≡ record sim { state = reuse (tick sim.state) id a.request_id; metrics = one_hit sim.metrics }

-- An access that made room, if it had to, and stored a new block.
pub record IsMiss (sim : Simulator) (a : Access) (id : ℤ) (sim' : Simulator) : Type 0 where
  pub roomy : CacheState
  pub counters : StudyMetrics
  pub new : lookup (a.group, a.key) sim.state.key_index ≡ none
  pub made :
      make_room sim.authority sim.policy (tick sim.state, one_miss sim.metrics)
      ≡ ok (roomy, counters)
  pub named : id ≡ roomy.next_block_id
  pub after : sim' ≡ (
      let s' = store roomy a.request_id a.group a.key a.kind a.is_shared in
      record sim { state = s'; metrics = raise_peak counters (length s'.blocks) })

hit_inv :
    (sim : Simulator) (a : Access) (i : ℤ) (o : Option CacheBlock) (id : ℤ) (sim' : Simulator)
    → hit sim a i o ≡ ok (id, sim')
    → (b : CacheBlock) × (o ≡ some b)
      × (i ≡ id)
      × (sim'
          ≡ record sim { state = reuse sim.state i a.request_id; metrics = one_hit sim.metrics })
hit_inv sim a i none id sim' h = absurd (cc)
hit_inv sim a i (some b) id sim' h =
    let same = ok_inj h in
    (b, refl, ap (λ (p : ℤ × Simulator). p.0) same, ap (λ (p : ℤ × Simulator). p.1) (sym same))

access_cases :
    (sim : Simulator) (a : Access) (id : ℤ) (sim' : Simulator)
    → access sim a ≡ ok (id, sim')
    → IsHit sim a id sim' ⊎ IsMiss sim a id sim'
unfolding access tick
access_cases sim a id sim' h = elim (Option-cases (lookup (a.group, a.key) sim.state.key_index)) [
  | inl new ↦
      let h' : miss (record sim { state = tick sim.state }) a ≡ ok (id, sim') =
        rw (new, access) at h in
      let ((s, m), e, e2) =
        >>=-eq-ok (make_room sim.authority sim.policy (tick sim.state, one_miss sim.metrics)) _
          h' in
      let same = ok_inj e2 in
      inr (record {
        roomy = s;
        counters = m;
        new = new;
        made = e;
        named = ap (λ (p : ℤ × Simulator). p.0) (sym same);
        after = ap (λ (p : ℤ × Simulator). p.1) (sym same);
      })
  | inr (i, known) ↦
      let h' : hit (record sim { state = tick sim.state }) a i (lookup i sim.state.blocks)
          ≡ ok (id, sim') =
        rw (known, access) at h in
      let ticked : Simulator = record sim { state = tick sim.state } in
      let (b, found, q, e) = hit_inv ticked a i (lookup i sim.state.blocks) id sim' h' in
      inl (record {
        block = b;
        known = known ∙ ap some q;
        resident = ap (λ j. lookup j sim.state.blocks) (sym q) ∙ found;
        after =
            e
            ∙ ap
                (λ j. record sim {
                  state = reuse (tick sim.state) j a.request_id;
                  metrics = one_hit sim.metrics;
                })
                q;
      })
]

-- What one access that returned leaves behind.
pub record IsAccessed (sim : Simulator) (a : Access) (id : ℤ) (sim' : Simulator) : Type 0 where
  pub valid : IsValid sim'.state
  pub block : CacheBlock
  pub resident : lookup id sim'.state.blocks ≡ some block
  pub asked : identity block ≡ (a.group, a.key)
  pub owner : contains a.request_id block.owners ≡ true
  pub counted : sim'.metrics.hits + sim'.metrics.misses ≡ sim.metrics.hits + sim.metrics.misses + 1
  pub same_policy : sim'.policy ≡ sim.policy
  pub same_groups : sim'.groups ≡ sim.groups
  pub same_capacity : sim'.state.capacity_blocks ≡ sim.state.capacity_blocks

hit-IsAccessed :
    (sim : Simulator) (a : Access) (id : ℤ) (sim' : Simulator)
    → IsValid sim.state
    → IsHit sim a id sim'
    → IsAccessed sim a id sim'
unfolding reuse tick
hit-IsAccessed sim a id sim' v h = subst (IsAccessed sim a id) (sym h.after) (record {
  valid = reuse-IsValid (tick sim.state) id a.request_id (tick-IsValid sim.state v);
  block = reused (tick sim.state).clock a.request_id h.block;
  resident =
      lookup-adjust_self id (reused (tick sim.state).clock a.request_id) sim.state.blocks h.block
        h.resident;
  asked =
      let (b, found, e) = v.located (a.group, a.key) id h.known in
      ap identity (some_inj (sym h.resident ∙ found)) ∙ e;
  owner =
      rw (contains-add a.request_id a.request_id h.block.owners, beq_self string_eq a.request_id)
        refl;
  counted = omega arith;
  same_policy = refl;
  same_groups = refl;
  same_capacity = refl;
})

-- The state with room for one more block under a new identity.
record IsRoomy (s : CacheState) (k : String × String) (roomy : CacheState) : Type 0 where
  valid : IsValid roomy
  room : length roomy.blocks < roomy.capacity_blocks
  new : lookup k roomy.key_index ≡ none
  same_capacity : roomy.capacity_blocks ≡ s.capacity_blocks

removed-IsRoomy :
    (s : CacheState) (k : String × String) (id : ℤ) (b : CacheBlock)
    → IsValid s
    → lookup k s.key_index ≡ none
    → lookup id s.blocks ≡ some b
    → IsRoomy s k (remove s id b)
unfolding remove
removed-IsRoomy s k id b v new resident = record {
  valid = remove-IsValid s id b v resident;
  room = omega (arith, length-delete id s.blocks b resident, v.bounded);
  new = lookup-delete-none (identity b) k s.key_index v.keys_distinct new;
  same_capacity = refl;
}

made-IsRoomy :
    (s : CacheState) (k : String × String) (s' : CacheState)
    → IsValid s
    → lookup k s.key_index ≡ none
    → ((s' ≡ s) × (length s.blocks < s.capacity_blocks)) ⊎ IsEvicted s s'
    → IsRoomy s k s'
made-IsRoomy s k s' v new (inl (e, room)) =
    subst (IsRoomy s k) (sym e) (record { valid = v; room = room; new = new; same_capacity = refl })
made-IsRoomy s k s' v new (inr gone) =
    subst (IsRoomy s k) (sym gone.removed)
      (removed-IsRoomy s k gone.id gone.block v new gone.resident)

module _ (sim : Simulator) (a : Access) (id : ℤ) (sim' : Simulator) (v : IsValid sim.state)
    (h : IsMiss sim a id sim') where
  miss-cases :
      let s = tick sim.state in
      (h.counters.hits ≡ sim.metrics.hits)
      × (h.counters.misses ≡ sim.metrics.misses + 1)
      × (((h.roomy ≡ s) × (length s.blocks < s.capacity_blocks)) ⊎ IsEvicted s h.roomy)
  miss-cases =
      let ((hits, misses, requests), how) =
        make_room_cases sim.authority sim.policy (tick sim.state) (one_miss sim.metrics)
          (tick-IsValid sim.state v) h.roomy h.counters h.made in
      (hits, misses, how)

  miss-IsRoomy : IsRoomy (tick sim.state) (a.group, a.key) h.roomy
  unfolding tick
  miss-IsRoomy =
      made-IsRoomy (tick sim.state) (a.group, a.key) h.roomy (tick-IsValid sim.state v) h.new
        miss-cases.2

  miss-IsAccessed : is_kind a.kind ≡ true → IsAccessed sim a id sim'
  unfolding store tick
  miss-IsAccessed kind = subst (IsAccessed sim a id) (sym h.after) (record {
    valid =
        store-IsValid h.roomy a.request_id a.group a.key a.kind a.is_shared miss-IsRoomy.valid
          miss-IsRoomy.room miss-IsRoomy.new kind;
    block = new_block h.roomy a.request_id a.group a.key a.kind a.is_shared;
    resident =
        ap (λ i. lookup i (insert h.roomy.next_block_id fresh h.roomy.blocks)) h.named
        ∙ lookup-insert_self h.roomy.next_block_id fresh h.roomy.blocks;
    asked = refl;
    owner = contains_self a.request_id;
    counted = omega (arith, miss-cases.0, miss-cases.1);
    same_policy = refl;
    same_groups = refl;
    same_capacity = miss-IsRoomy.same_capacity;
  })
    where
      fresh : CacheBlock
      fresh = new_block h.roomy a.request_id a.group a.key a.kind a.is_shared

-- An access that returns, under any policy, leaves the cache valid; the block it names is resident,
-- has the identity that was asked for, and is owned by the request; exactly one hit or one miss is
-- counted; the policy, the groups and the capacity are as before.
pub access-IsAccessed :
    (sim : Simulator) (a : Access) (id : ℤ) (sim' : Simulator)
    → IsValid sim.state
    → is_kind a.kind ≡ true
    → access sim a ≡ ok (id, sim')
    → IsAccessed sim a id sim'
access-IsAccessed sim a id sim' v kind h = elim (access_cases sim a id sim' h) [
  | inl hit ↦ hit-IsAccessed sim a id sim' v hit
  | inr miss ↦ miss-IsAccessed sim a id sim' v miss kind
]

-- Nobody but the request gains a block by it.
pub access-HeldBy :
    (sim : Simulator) (a : Access) (id : ℤ) (sim' : Simulator) (owned : List ℤ)
    → IsValid sim.state
    → HeldBy a.request_id owned sim.state
    → access sim a ≡ ok (id, sim')
    → HeldBy a.request_id (add id owned) sim'.state
unfolding tick
access-HeldBy sim a id sim' owned v held h = elim (access_cases sim a id sim' h) [
  | inl hit ↦
      subst (λ (t : Simulator). HeldBy a.request_id (add id owned) t.state) (sym hit.after)
        (reuse-HeldBy a.request_id owned (tick sim.state) id held)
  | inr miss ↦
      subst (λ (t : Simulator). HeldBy a.request_id (add id owned) t.state) (sym miss.after)
        (subst
          (λ i.
            HeldBy a.request_id (add i owned)
              (store miss.roomy a.request_id a.group a.key a.kind a.is_shared))
          (sym miss.named)
          (store-HeldBy a.request_id owned miss.roomy a.group a.key a.kind a.is_shared
            (roomy miss (miss-cases sim a id sim' v miss).2)))
]
  where
    roomy :
        (miss : IsMiss sim a id sim')
        → ((miss.roomy ≡ tick sim.state)
            × (length (tick sim.state).blocks < (tick sim.state).capacity_blocks))
          ⊎ IsEvicted (tick sim.state) miss.roomy
        → HeldBy a.request_id owned miss.roomy
    roomy miss (inl (e, _)) = subst (HeldBy a.request_id owned) (sym e) held
    roomy miss (inr gone) = subst (HeldBy a.request_id owned) (sym gone.removed) (
        remove-HeldBy a.request_id owned (tick sim.state) gone.id gone.block
          (tick-IsValid sim.state v).ids_distinct held)
