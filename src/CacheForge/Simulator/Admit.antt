-- ===== src/CacheForge/Simulator/Admit.antt =====
-- A new block keeps the cache valid, if there is room for it and its identity is new.
use mncs_reference_studies.Common.{
  ◌+◌, ◌<◌, String, ◌≡◌, ◌⊎◌, refl, sym, ap, ◌∙◌, Bool, true, inl, inr, subst, some, none, arith,
  pair_eq, string_eq, length, none_ne_some, Option-cases,
}
use mncs_reference_studies.Common.Int.{ℤ, pos, ◌+ℤ◌, int_eq, +ℤ_parts, lt-add-one, not-lt_self}
use mncs_reference_studies.Dict.{
  lookup, insert, insert-Distinct, length-insert_new, lookup-insert_cases, lookup-insert_self,
  lookup-insert_ne,
}
use mncs_reference_studies.CacheForge.Model.{CacheBlock, identity}
use mncs_reference_studies.CacheForge.State.{CacheState, is_kind}
use mncs_reference_studies.CacheForge.State.Valid.{IsValid, IsBlock}
use mncs_reference_studies.CacheForge.Simulator.Blocks.{store, new_block}
use mncs_reference_studies.CacheForge.Simulator.Preserve.{IsBlock-moved}

-- The next id names no block.
pub next-absent : (s : CacheState) → IsValid s → lookup s.next_block_id s.blocks ≡ none
next-absent s v = elim (Option-cases (lookup s.next_block_id s.blocks)) [
  | inl e ↦ e
  | inr (b, e) ↦ absurd (not-lt_self s.next_block_id (v.blocks_valid s.next_block_id b e).is_old)
]

pub store-IsValid :
    (s : CacheState) (request_id group key kind : String) (is_shared : Bool)
    → IsValid s
    → length s.blocks < s.capacity_blocks
    → lookup (group, key) s.key_index ≡ none
    → is_kind kind ≡ true
    → IsValid (store s request_id group key kind is_shared)
unfolding store
store-IsValid s request_id group key kind is_shared v room new known = record {
  positive = v.positive;
  bounded = omega (arith, grown);
  in_step = omega (arith, grown, length-insert_new (group, key) id s.key_index new, v.in_step);
  ids_distinct = insert-Distinct id fresh s.blocks v.ids_distinct;
  keys_distinct = insert-Distinct (group, key) id s.key_index v.keys_distinct;
  next_natural = omega (arith, v.next_natural, +ℤ_parts id (pos 1));
  blocks_valid = λ i b h. block i b (lookup-insert_cases id i fresh b s.blocks h);
  located = λ k i h. place k i (lookup-insert_cases (group, key) k id i s.key_index h);
}
  where
    id : ℤ
    id = s.next_block_id

    fresh : CacheBlock
    fresh = new_block s request_id group key kind is_shared

    t : CacheState
    t = record s {
      next_block_id = id +ℤ pos 1;
      blocks = insert id fresh s.blocks;
      key_index = insert (group, key) id s.key_index;
    }

    absent : lookup id s.blocks ≡ none
    absent = next-absent s v

    grown : length (insert id fresh s.blocks) ≡ length s.blocks + 1
    grown = length-insert_new id fresh s.blocks absent

    newest : IsBlock t id fresh
    newest = record {
      named = refl;
      known_kind = known;
      used_after = omega arith;
      used_before = omega arith;
      reused = omega arith;
      is_old = lt-add-one id;
      indexed = lookup-insert_self (group, key) id s.key_index;
    }

    block :
        (i : ℤ) (b : CacheBlock)
        → ((id ≡ i) × (fresh ≡ b)) ⊎ (lookup i s.blocks ≡ some b)
        → IsBlock t i b
    block i b (inl (q, e)) = subst (λ x. IsBlock t i x) e (subst (λ j. IsBlock t j fresh) q newest)
    block i b (inr h) =
        let g = v.blocks_valid i b h in
        IsBlock-moved s t i b g (omega arith) (omega (arith, +ℤ_parts id (pos 1))) (
          lookup-insert_ne (group, key) (identity b) id s.key_index
            (λ e. none_ne_some (sym new ∙ ap (λ k. lookup k s.key_index) e ∙ g.indexed))
          ∙ g.indexed)

    place :
        (k : String × String) (i : ℤ)
        → (((group, key) ≡ k) × (id ≡ i)) ⊎ (lookup k s.key_index ≡ some i)
        → (c : CacheBlock) × (lookup i (insert id fresh s.blocks) ≡ some c) × (identity c ≡ k)
    place k i (inl (e, q)) = (
      fresh,
      subst (λ j. lookup j (insert id fresh s.blocks) ≡ some fresh) q
          (lookup-insert_self id fresh s.blocks),
      e,
    )
    place k i (inr h) =
        let (b, found, e) = v.located k i h in
        (
          b,
          lookup-insert_ne id i fresh s.blocks
                (λ q. none_ne_some (sym absent ∙ ap (λ j. lookup j s.blocks) q ∙ found))
              ∙ found,
          e,
        )
