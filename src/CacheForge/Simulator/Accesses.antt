-- ===== src/CacheForge/Simulator/Accesses.antt =====
-- One access, on any policy: what it leaves valid, what it returns, and when it raises.
use mncs_reference_studies.Common.{
  ◌<◌, ◌≡◌, ◌⊎◌, refl, sym, ap, ◌∙◌, inl, inr, subst, Bool-cases, some, arith, pair_eq, string_eq,
  length, some_inj, List, [], ◌∷◌, leb,
}
use mncs_reference_studies.Common.Int.{ℤ, int_eq}
use mncs_reference_studies.Common.Result.{ok, ok_inj, ◌>>=◌, >>=-eq-ok}
use mncs_reference_studies.Dict.{lookup}
use mncs_reference_studies.CacheForge.Model.{Outcome, CacheBlock, StudyMetrics}
use mncs_reference_studies.CacheForge.State.{CacheState}
use mncs_reference_studies.CacheForge.State.Valid.{IsValid}
use mncs_reference_studies.CacheForge.Policies.{EvictionPolicy}
use mncs_reference_studies.CacheForge.Authority.{AllocationAuthority, authorize_eviction}
use mncs_reference_studies.CacheForge.Authority.Laws.{
  IsUnowned, IsAuthorized, authorize_eviction-IsAuthorized, authorize_eviction-counters,
}
use mncs_reference_studies.CacheForge.Simulator.Blocks.{remove}
use mncs_reference_studies.CacheForge.Simulator.{
  Progress, evict, evict_all, one_eviction, make_room,
}

-- An unowned resident block is evicted without an exception.
evict_lem :
    (s : CacheState) (m : StudyMetrics) (id : ℤ)
    → IsValid s
    → IsUnowned s id
    → (b : CacheBlock) × (lookup id s.blocks ≡ some b)
      × (evict id (s, m) ≡ ok (remove s id b, one_eviction m))
unfolding evict
evict_lem s m id v (b, found, free) =
    (b, found, ground (arith, (v.blocks_valid id b found).indexed))

-- How room was made: there was some, or one block that nobody owned was evicted.
pub record IsEvicted (s : CacheState) (s' : CacheState) : Type 0 where
  pub id : ℤ
  pub block : CacheBlock
  pub resident : lookup id s.blocks ≡ some block
  pub free : block.owners ≡ []
  pub removed : s' ≡ remove s id block

module _ (authority : AllocationAuthority) (policy : EvictionPolicy) (s : CacheState)
    (m : StudyMetrics) (v : IsValid s) where
  pub evict_all_one :
      (victims : List ℤ) (m1 : StudyMetrics)
      → IsAuthorized s 1 victims
      → (s' : CacheState) × IsEvicted s s' × (evict_all victims (s, m1) ≡ ok (s', one_eviction m1))
  unfolding evict_all
  evict_all_one [] m1 a = absurd (omega (arith, a.counted))
  evict_all_one (id ∷ []) m1 a =
      let (b, found, e) = evict_lem s m1 id v a.unowned.0 in
      let (c, found', free) = a.unowned.0 in
      (
        remove s id b,
        record {
          id = id;
          block = b;
          resident = found;
          free = ap (λ (x : CacheBlock). x.owners) (some_inj (sym found ∙ found')) ∙ free;
          removed = refl;
        },
        rw e refl,
      )
  evict_all_one (id ∷ j ∷ rest) m1 a = absurd (omega (arith, a.counted))

  -- Counters that making room leaves alone.
  abbrev pub SameAccesses : StudyMetrics → Type 0
  SameAccesses m' = (m'.hits ≡ m.hits) × (m'.misses ≡ m.misses) × (m'.requests ≡ m.requests)

  pub make_room_cases :
      (s' : CacheState) (m' : StudyMetrics)
      → make_room authority policy (s, m) ≡ ok (s', m')
      → SameAccesses m' × (((s' ≡ s) × (length s.blocks < s.capacity_blocks)) ⊎ IsEvicted s s')
  unfolding make_room
  make_room_cases s' m' h = elim (Bool-cases (leb s.capacity_blocks (length s.blocks))) [
    | inr roomy ↦
        let h' : ◌≡◌ {A = Outcome Progress} (ok (s, m)) (ok (s', m')) =
          rw (roomy, make_room) at h in
        (ground arith, inl (ground arith, ground arith))
    | inl full ↦
        let h' : (authorize_eviction authority s policy 1 m >>= λ r. evict_all r.0 (s, r.1))
            ≡ ok (s', m') =
          rw (full, make_room) at h in
        let ((victims, m1), e, e2) = >>=-eq-ok (authorize_eviction authority s policy 1 m) _ h' in
        evicted victims m1 e e2 (
          evict_all_one victims m1
            (authorize_eviction-IsAuthorized authority s policy 1 m victims m1 e))
  ]
    where
      evicted :
          (victims : List ℤ) (m1 : StudyMetrics)
          → authorize_eviction authority s policy 1 m ≡ ok (victims, m1)
          → evict_all victims (s, m1) ≡ ok (s', m')
          → (t : CacheState) × IsEvicted s t × (evict_all victims (s, m1) ≡ ok (t, one_eviction m1))
          → SameAccesses m' × (((s' ≡ s) × (length s.blocks < s.capacity_blocks)) ⊎ IsEvicted s s')
      evicted victims m1 e e2 (t, gone, e3) =
          let same = ok_inj (sym e3 ∙ e2) in
          let st : t ≡ s' = ap (λ (p : Progress). p.0) same in
          let sm : one_eviction m1 ≡ m' = ap (λ (p : Progress). p.1) same in
          (
            subst SameAccesses sm (authorize_eviction-counters authority s policy 1 m victims m1 e),
            inr (subst (IsEvicted s) st gone),
          )
