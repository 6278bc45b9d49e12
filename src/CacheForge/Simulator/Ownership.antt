-- ===== src/CacheForge/Simulator/Ownership.antt =====
-- Who owns blocks while a request runs: nobody but that request, and only blocks that its set
-- `owned` names.
use mncs_reference_studies.Common.{
  String, ◌≡◌, ◌≢◌, ◌⊎◌, refl, sym, ap, ◌∙◌, Bool, true, inl, inr, subst, some, arith, List, [],
  ◌∷◌, string_eq, beq_self, beq_false,
}
use mncs_reference_studies.Common.Int.{ℤ, int_eq}
use mncs_reference_studies.Common.Sets.{contains, add, discard, contains-add, contains-discard}
use mncs_reference_studies.Dict.{
  lookup, lookup-insert_cases, lookup-delete_cases, lookup-adjust_cases, Distinct,
}
use mncs_reference_studies.CacheForge.Model.{CacheBlock}
use mncs_reference_studies.CacheForge.State.{CacheState}
use mncs_reference_studies.CacheForge.Simulator.Blocks.{
  reuse, reused, remove, store, new_block, disown, disowned,
}

-- A block that nobody owns, or that the request alone owns and lists.
abbrev pub Held : String → List ℤ → ℤ → CacheBlock → Type 0
Held rid owned id b = (b.owners ≡ []) ⊎ ((b.owners ≡ rid ∷ []) × (contains id owned ≡ true))

abbrev pub HeldBy : String → List ℤ → CacheState → Type 0
HeldBy rid owned s = (id : ℤ) (b : CacheBlock) → lookup id s.blocks ≡ some b → Held rid owned id b

-- Nobody owns anything.
abbrev pub IsIdle : CacheState → Type 0
IsIdle s = (id : ℤ) (b : CacheBlock) → lookup id s.blocks ≡ some b → b.owners ≡ []

module _ (rid : String) (owned : List ℤ) where
  Held-add : (new id : ℤ) (b : CacheBlock) → Held rid owned id b → Held rid (add new owned) id b
  Held-add new id b (inl e) = inl e
  Held-add new id b (inr (e, c)) = inr (e, ground (arith, contains-add new id owned))

  contains-add_self : (id : ℤ) → contains id (add id owned) ≡ true
  contains-add_self id = ground (arith, contains-add id id owned, beq_self int_eq id)

  add-owner : (id : ℤ) (b : CacheBlock) → Held rid owned id b → add rid b.owners ≡ rid ∷ []
  unfolding add contains
  add-owner id b (inl e) = rw e refl
  add-owner id b (inr (e, c)) = rw (e, beq_self string_eq rid) refl

  pub reuse-HeldBy :
      (s : CacheState) (id : ℤ) → HeldBy rid owned s → HeldBy rid (add id owned) (reuse s id rid)
  unfolding reuse
  reuse-HeldBy s id h i b found =
      go (lookup-adjust_cases id i (reused s.clock rid) b s.blocks found)
    where
      go :
          ((id ≢ i) × (lookup i s.blocks ≡ some b))
            ⊎ ((c : CacheBlock) × (lookup i s.blocks ≡ some c)
                × (b ≡ reused s.clock rid c)
                × (id ≡ i))
          → Held rid (add id owned) i b
      go (inl (_, old)) = Held-add id i b (h i b old)
      go (inr (c, old, e, q)) = inr (
        ap (λ (x : CacheBlock). x.owners) e ∙ add-owner i c (h i c old),
        subst (λ j. contains j (add id owned) ≡ true) q (contains-add_self id),
      )

  pub remove-HeldBy :
      (s : CacheState) (id : ℤ) (b : CacheBlock)
      → Distinct s.blocks
      → HeldBy rid owned s
      → HeldBy rid owned (remove s id b)
  unfolding remove
  remove-HeldBy s id b d h i c found = h i c ((lookup-delete_cases id i c s.blocks d found).1)

  pub store-HeldBy :
      (s : CacheState) (group key kind : String) (is_shared : Bool)
      → HeldBy rid owned s
      → HeldBy rid (add s.next_block_id owned) (store s rid group key kind is_shared)
  unfolding store
  store-HeldBy s group key kind is_shared h i b found = go (
      lookup-insert_cases s.next_block_id i (new_block s rid group key kind is_shared) b s.blocks
        found)
    where
      go :
          ((s.next_block_id ≡ i) × (new_block s rid group key kind is_shared ≡ b))
            ⊎ (lookup i s.blocks ≡ some b)
          → Held rid (add s.next_block_id owned) i b
      go (inl (q, e)) = inr (
        ap (λ (x : CacheBlock). x.owners) (sym e),
        subst (λ j. contains j (add s.next_block_id owned) ≡ true) q
            (contains-add_self s.next_block_id),
      )
      go (inr old) = Held-add s.next_block_id i b (h i b old)

  discard-owner : (id : ℤ) (b : CacheBlock) → Held rid owned id b → discard rid b.owners ≡ []
  unfolding discard
  discard-owner id b (inl e) = rw e refl
  discard-owner id b (inr (e, c)) = rw (e, beq_self string_eq rid) refl

  pub disown-HeldBy :
      (s : CacheState) (id : ℤ)
      → HeldBy rid owned s
      → HeldBy rid (discard id owned) (disown rid id s)
  unfolding disown
  disown-HeldBy s id h i b found = go (lookup-adjust_cases id i (disowned rid) b s.blocks found)
    where
      still : (id ≢ i) → Held rid owned i b → Held rid (discard id owned) i b
      still n (inl e) = inl e
      still n (inr (e, c)) = inr (
        e,
        ground
            (arith, contains-discard id i owned, (int_eq.beq_iff id i).0, beq_false int_eq id i n),
      )

      go :
          ((id ≢ i) × (lookup i s.blocks ≡ some b))
            ⊎ ((c : CacheBlock) × (lookup i s.blocks ≡ some c) × (b ≡ disowned rid c) × (id ≡ i))
          → Held rid (discard id owned) i b
      go (inl (n, old)) = still n (h i b old)
      go (inr (c, old, e, q)) =
          inl (ap (λ (x : CacheBlock). x.owners) e ∙ discard-owner i c (h i c old))
