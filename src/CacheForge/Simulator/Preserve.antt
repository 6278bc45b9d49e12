-- ===== src/CacheForge/Simulator/Preserve.antt =====
-- The changes of Simulator/Blocks.antt keep the cache valid.
use mncs_reference_studies.Common.{
  String, ◌≡◌, ◌≢◌, refl, sym, ap, ◌∙◌, ◌⊎◌, true, false, inl, inr, subst, Bool-cases, some, arith,
  pair_eq, string_eq, some_inj,
}
use mncs_reference_studies.Common.Int.{ℤ, pos, ◌+ℤ◌, ◌≤ℤ◌, int_eq, +ℤ_parts}
use mncs_reference_studies.Dict.{
  lookup, delete, adjust, delete-Distinct, adjust-Distinct, length-delete, length-adjust,
  lookup-delete_cases, lookup-adjust_cases, lookup-delete_ne, lookup-adjust_self, lookup-adjust_ne,
}
use mncs_reference_studies.CacheForge.Model.{CacheBlock, identity}
use mncs_reference_studies.CacheForge.State.{CacheState, tick}
use mncs_reference_studies.CacheForge.State.Valid.{IsValid, IsBlock}
use mncs_reference_studies.CacheForge.Simulator.Blocks.{reuse, reused, remove, disown, disowned}

-- A block stays good when the clock and the next id do not fall and the index still points at it.
pub IsBlock-moved :
    (s t : CacheState) (id : ℤ) (b : CacheBlock)
    → IsBlock s id b
    → s.clock ≤ℤ t.clock
    → s.next_block_id ≤ℤ t.next_block_id
    → lookup (identity b) t.key_index ≡ some id
    → IsBlock t id b
IsBlock-moved s t id b i later further found = record {
  named = i.named;
  known_kind = i.known_kind;
  used_after = i.used_after;
  used_before = omega (arith, i.used_before);
  reused = i.reused;
  is_old = omega (arith, i.is_old);
  indexed = found;
}

pub tick-IsValid : (s : CacheState) → IsValid s → IsValid (tick s)
unfolding tick
tick-IsValid s v = record {
  positive = v.positive;
  bounded = v.bounded;
  in_step = v.in_step;
  ids_distinct = v.ids_distinct;
  keys_distinct = v.keys_distinct;
  next_natural = v.next_natural;
  blocks_valid = λ id b h.
      let i = v.blocks_valid id b h in
      IsBlock-moved s (record s { clock = s.clock +ℤ pos 1 }) id b i
        (omega (arith, +ℤ_parts s.clock (pos 1))) (omega arith) i.indexed;
  located = v.located;
}

-- A change of one block in place that keeps its identity.
adjust-IsValid :
    (s : CacheState) (id : ℤ) (f : CacheBlock → CacheBlock)
    → IsValid s
    → ((b : CacheBlock) → identity (f b) ≡ identity b)
    → ((b : CacheBlock) → IsBlock s id b → IsBlock s id (f b))
    → IsValid (record s { blocks = adjust id f s.blocks })
adjust-IsValid s id f v same keep = record {
  positive = v.positive;
  bounded = omega (arith, length-adjust id f s.blocks, v.bounded);
  in_step = v.in_step ∙ sym (length-adjust id f s.blocks);
  ids_distinct = adjust-Distinct id f s.blocks v.ids_distinct;
  keys_distinct = v.keys_distinct;
  next_natural = v.next_natural;
  blocks_valid = λ i b h. block i b (lookup-adjust_cases id i f b s.blocks h);
  located = λ k i h.
      let (b, found, e) = v.located k i h in place k i b found e (Bool-cases (int_eq.beq id i));
}
  where
    t : CacheState
    t = record s { blocks = adjust id f s.blocks }

    block :
        (i : ℤ) (b : CacheBlock)
        → ((id ≢ i) × (lookup i s.blocks ≡ some b))
          ⊎ ((c : CacheBlock) × (lookup i s.blocks ≡ some c) × (b ≡ f c) × (id ≡ i))
        → IsBlock t i b
    block i b (inl (_, h)) =
        let g = v.blocks_valid i b h in
        IsBlock-moved s t i b g (omega arith) (omega arith) g.indexed
    block i b (inr (c, h, e, k)) =
        let g = keep c (subst (λ j. IsBlock s j c) (sym k) (v.blocks_valid i c h)) in
        let g' : IsBlock t id (f c) =
          IsBlock-moved s t id (f c) g (omega arith) (omega arith) g.indexed in
        subst (λ x. IsBlock t i x) (sym e) (subst (λ j. IsBlock t j (f c)) k g')

    place :
        (k : String × String) (i : ℤ) (b : CacheBlock)
        → lookup i s.blocks ≡ some b
        → identity b ≡ k
        → (int_eq.beq id i ≡ true) ⊎ (int_eq.beq id i ≡ false)
        → (c : CacheBlock) × (lookup i (adjust id f s.blocks) ≡ some c) × (identity c ≡ k)
    place k i b found e (inl hit) =
        let q = (int_eq.beq_iff id i).0 hit in
        (
          f b,
          subst (λ j. lookup j (adjust id f s.blocks) ≡ some (f b)) q
              (lookup-adjust_self id f s.blocks b (ap (λ j. lookup j s.blocks) q ∙ found)),
          same b ∙ e,
        )
    place k i b found e (inr other) = (
      b,
      lookup-adjust_ne id i f s.blocks (λ q. ground (arith, (int_eq.beq_iff id i).1 q)) ∙ found,
      e,
    )

pub reuse-IsValid :
    (s : CacheState) (id : ℤ) (request_id : String) → IsValid s → IsValid (reuse s id request_id)
unfolding reuse
reuse-IsValid s id request_id v =
    adjust-IsValid s id (reused s.clock request_id) v (λ b. refl)
      λ b i. record {
        named = i.named;
        known_kind = i.known_kind;
        used_after = omega (arith, i.used_after, i.used_before);
        used_before = omega arith;
        reused = omega (arith, i.reused, +ℤ_parts b.reuse_count (pos 1));
        is_old = i.is_old;
        indexed = i.indexed;
      }

pub disown-IsValid :
    (request_id : String) (id : ℤ) (s : CacheState) → IsValid s → IsValid (disown request_id id s)
unfolding disown
disown-IsValid request_id id s v =
    adjust-IsValid s id (disowned request_id) v (λ b. refl)
      λ b i. record {
        named = i.named;
        known_kind = i.known_kind;
        used_after = i.used_after;
        used_before = i.used_before;
        reused = i.reused;
        is_old = i.is_old;
        indexed = i.indexed;
      }

pub remove-IsValid :
    (s : CacheState) (id : ℤ) (b : CacheBlock)
    → IsValid s
    → lookup id s.blocks ≡ some b
    → IsValid (remove s id b)
unfolding remove
remove-IsValid s id b v resident = record {
  positive = v.positive;
  bounded = omega (arith, length-delete id s.blocks b resident, v.bounded);
  in_step = omega (
    arith,
    length-delete id s.blocks b resident,
    length-delete (identity b) s.key_index id (v.blocks_valid id b resident).indexed,
    v.in_step,
  );
  ids_distinct = delete-Distinct id s.blocks v.ids_distinct;
  keys_distinct = delete-Distinct (identity b) s.key_index v.keys_distinct;
  next_natural = v.next_natural;
  blocks_valid = λ i c h.
      let (other, h') = lookup-delete_cases id i c s.blocks v.ids_distinct h in
      let g = v.blocks_valid i c h' in
      IsBlock-moved s t i c g (omega arith) (omega arith) (
        lookup-delete_ne (identity b) (identity c) s.key_index v.keys_distinct
          (λ e. other (some_inj (sym bi ∙ ap (λ k. lookup k s.key_index) e ∙ g.indexed)))
        ∙ g.indexed);
  located = λ k i h.
      let (other, h') = lookup-delete_cases (identity b) k i s.key_index v.keys_distinct h in
      let (c, found, e) = v.located k i h' in
      (
        c,
        lookup-delete_ne id i s.blocks v.ids_distinct (λ q.
              other
                (ap identity (some_inj (sym resident ∙ ap (λ j. lookup j s.blocks) q ∙ found)) ∙ e))
            ∙ found,
        e,
      );
}
  where
    t : CacheState
    t = record s { blocks = delete id s.blocks; key_index = delete (identity b) s.key_index }

    bi : lookup (identity b) s.key_index ≡ some id
    bi = (v.blocks_valid id b resident).indexed
