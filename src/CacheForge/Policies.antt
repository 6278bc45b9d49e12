-- ===== src/CacheForge/Policies.antt =====
-- cacheforge/policies.py: the policies that propose which blocks to evict. A policy is a pure
-- function of the state; Python's tuples of numbers, the sort keys, are lists of integers.
pub mod Generated
pub mod Order
use mncs_reference_studies.Common.{
  ℕ, zero, suc, ◌+◌, max, String, Bool, true, false, ◌&&◌, List, [], ◌∷◌, map, if◌then◌else◌, ◌==◌,
  string_eq, length, take, replicate,
}
use mncs_reference_studies.Common.Int.{ℤ, pos, ◌+ℤ◌, leb_ℤ, int_eq}
use mncs_reference_studies.Common.Sorting.{sort_by}
use mncs_reference_studies.Dict.{values}
use mncs_reference_studies.CacheForge.Model.{CacheBlock, is_empty}
use mncs_reference_studies.CacheForge.State.{CacheState}

pub record EvictionPolicy : Type 0 where
  pub policy_id : String
  pub propose : CacheState → ℕ → List ℤ × ℕ

unfoldable pub free_blocks : List CacheBlock → List CacheBlock
free_blocks [] = []
free_blocks (b ∷ bs) = let rest = free_blocks bs in if is_empty b.owners then b ∷ rest else rest

abbrev pub evictable : CacheState → List CacheBlock
evictable s = free_blocks (values s.blocks)

-- The order of tuples: the first components that differ decide.
unfoldable pub leb_key : List ℤ → List ℤ → Bool
leb_key [] bs = true
leb_key (a ∷ as') [] = false
leb_key (a ∷ as') (b ∷ bs) = let rest = leb_key as' bs in if a == b then rest else leb_ℤ a b

abbrev pub by_key : (CacheBlock → List ℤ) → CacheBlock → CacheBlock → Bool
by_key key b c = leb_key (key b) (key c)

abbrev pub ids : List CacheBlock → List ℤ
ids = map (λ b. b.block_id)

-- `sorted(candidates, key=…)[:required]`, and the number of candidates.
unfoldable pub propose_sorted : (CacheBlock → List ℤ) → CacheState → ℕ → List ℤ × ℕ
propose_sorted key s required =
    (ids (take required (sort_by (by_key key) (evictable s))), length (evictable s))

abbrev pub created_key : CacheBlock → List ℤ
created_key b = b.created_at ∷ b.block_id ∷ []

abbrev pub reference_fifo : EvictionPolicy
reference_fifo = record {
  policy_id = "cacheforge.reference.fifo.v1";
  propose = propose_sorted created_key;
}

abbrev pub used_key : CacheBlock → List ℤ
used_key b = b.last_used ∷ b.block_id ∷ []

abbrev pub reference_lru : EvictionPolicy
reference_lru = record {
  policy_id = "cacheforge.baseline.lru.v1";
  propose = propose_sorted used_key;
}

abbrev pub segment_key : CacheBlock → List ℤ
segment_key b = (if b.kind == "generated" then pos 0 else pos 1) ∷ b.last_used ∷ b.block_id ∷ []

abbrev pub segmented_lru : EvictionPolicy
segmented_lru = record {
  policy_id = "cacheforge.readable.segmented-lru.v1";
  propose = propose_sorted segment_key;
}

unfoldable pub repeat_first : List CacheBlock → ℕ → List ℤ × ℕ
repeat_first [] required = ([], 0)
repeat_first (b ∷ bs) required = (replicate (max required 2) b.block_id, length (b ∷ bs))

abbrev pub invalid_duplicate_policy : EvictionPolicy
invalid_duplicate_policy = record {
  policy_id = "cacheforge.mutation.duplicate-victim";
  propose = λ s required. repeat_first (evictable s) required;
}

-- `[first + index for index in range(count)]`
unfoldable pub ids_from : ℤ → ℕ → List ℤ
ids_from first zero = []
ids_from first (suc n) = first ∷ ids_from (first +ℤ pos 1) n

abbrev pub invalid_unknown_policy : EvictionPolicy
invalid_unknown_policy = record {
  policy_id = "cacheforge.mutation.unknown-victim";
  propose = λ s required. (ids_from (s.next_block_id +ℤ pos 1000) required, length s.blocks);
}
