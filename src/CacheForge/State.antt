-- ===== src/CacheForge/State.antt =====
-- `CacheState` of cacheforge/model.py: the resident blocks, the index from identity to block id,
-- the logical clock, and the checks of `validate`.
pub mod Valid
pub mod Checked
use mncs_reference_studies.Common.{
  ℕ, zero, suc, String, Bool, true, false, ◌&&◌, ◌||◌, not, Option, none, some, List, [], ◌∷◌, leb,
  if◌then◌else◌, ◌==◌, string_eq, nat_eq, pair_eq, length,
}
use mncs_reference_studies.Common.Int.{ℤ, pos, negsuc, ◌+ℤ◌, leb_ℤ, int_eq}
use mncs_reference_studies.Common.Result.{Result, ok, raise, ◌>>=◌, ◌>>◌, require}
use mncs_reference_studies.Common.Sets.{contains}
use mncs_reference_studies.Dict.{lookup}
use mncs_reference_studies.CacheForge.Model.{
  Outcome, CacheBlock, identity, capacity_not_positive, capacity_exceeded, index_cardinality,
  block_id_mismatch, duplicate_identity, wrong_index, unsupported_kind, invalid_timestamps,
  negative_reuse, invalid_next_id,
}

pub record CacheState : Type 0 where
  pub capacity_blocks : ℕ
  pub clock : ℤ
  pub next_block_id : ℤ
  pub blocks : List (ℤ × CacheBlock)
  pub key_index : List ((String × String) × ℤ)

-- The constructor with its check; a capacity below one is refused.
unfoldable pub cache_state : ℤ → ℤ → ℤ → Outcome CacheState
cache_state (pos (suc n)) clock next_id = ok (record {
  capacity_blocks = suc n;
  clock = clock;
  next_block_id = next_id;
  blocks = [];
  key_index = [];
})
cache_state _ clock next_id = raise capacity_not_positive

unfoldable pub tick : CacheState → CacheState
tick s = record s { clock = s.clock +ℤ pos 1 }

abbrev pub points_to : Option ℤ → ℤ → Bool
points_to none id = false
points_to (some found) id = found == id

unfoldable pub is_kind : String → Bool
is_kind kind = kind == "prompt" || kind == "generated"

-- The body of the loop of `validate`.
unfoldable pub check_block :
    CacheState → List (String × String) → ℤ → CacheBlock → Outcome (Unit {0})
unfolding is_kind
check_block s seen id b = do
  require (id == b.block_id) block_id_mismatch
  require (not (contains (identity b) seen)) duplicate_identity
  require (points_to (lookup (identity b) s.key_index) id) wrong_index
  require (is_kind b.kind) unsupported_kind
  require (leb_ℤ b.created_at b.last_used && leb_ℤ b.last_used s.clock) invalid_timestamps
  require (leb_ℤ (pos 0) b.reuse_count) negative_reuse

unfoldable pub check_blocks :
    CacheState → List (String × String) → List (ℤ × CacheBlock) → Outcome (Unit {0})
check_blocks s seen [] = ok tt
check_blocks s seen ((id, b) ∷ rest) = do
  check_block s seen id b
  check_blocks s (identity b ∷ seen) rest

unfoldable pub validate : CacheState → Outcome (Unit {0})
validate s = do
  require (leb (length s.blocks) s.capacity_blocks) capacity_exceeded
  require (length s.key_index == length s.blocks) index_cardinality
  check_blocks s [] s.blocks
  require (leb_ℤ (pos 0) s.next_block_id) invalid_next_id
