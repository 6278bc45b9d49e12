-- ===== src/CacheForge/Simulator/Blocks.antt =====
-- The changes that `_access`, `_evict` and the release of a block make to the state.
use mncs_reference_studies.Common.{String, Bool, [], ◌∷◌, pair_eq, string_eq}
use mncs_reference_studies.Common.Int.{ℤ, pos, ◌+ℤ◌, int_eq}
use mncs_reference_studies.Common.Sets.{add, discard}
use mncs_reference_studies.Dict.{insert, delete, adjust}
use mncs_reference_studies.CacheForge.Model.{CacheBlock, identity}
use mncs_reference_studies.CacheForge.State.{CacheState}

abbrev pub reused : ℤ → String → CacheBlock → CacheBlock
reused now request_id b = record b {
  last_used = now;
  reuse_count = b.reuse_count +ℤ pos 1;
  owners = add request_id b.owners;
}

-- A hit at the present time of the clock.
unfoldable pub reuse : CacheState → ℤ → String → CacheState
reuse s id request_id = record s { blocks = adjust id (reused s.clock request_id) s.blocks }

unfoldable pub remove : CacheState → ℤ → CacheBlock → CacheState
remove s id b = record s {
  blocks = delete id s.blocks;
  key_index = delete (identity b) s.key_index;
}

abbrev pub new_block : CacheState → String → String → String → String → Bool → CacheBlock
new_block s request_id group key kind is_shared = record {
  block_id = s.next_block_id;
  group = group;
  key = key;
  kind = kind;
  is_shared = is_shared;
  created_at = s.clock;
  last_used = s.clock;
  reuse_count = pos 0;
  owners = request_id ∷ [];
}

-- A new block at the present time of the clock, under the next id.
unfoldable pub store : CacheState → String → String → String → String → Bool → CacheState
store s request_id group key kind is_shared = record s {
  next_block_id = s.next_block_id +ℤ pos 1;
  blocks = insert s.next_block_id (new_block s request_id group key kind is_shared) s.blocks;
  key_index = insert (group, key) s.next_block_id s.key_index;
}

abbrev pub disowned : String → CacheBlock → CacheBlock
disowned request_id b = record b { owners = discard request_id b.owners }

-- `block.owners.discard(request_id)`, if the block is still there.
unfoldable pub disown : String → ℤ → CacheState → CacheState
disown request_id id s = record s { blocks = adjust id (disowned request_id) s.blocks }
