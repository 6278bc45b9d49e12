-- ===== src/CacheForge/State/Checked.antt =====
-- What `validate` of `CacheState` accepts, both ways.
use mncs_reference_studies.Common.{
  ◌≤◌, String, true, false, ◌≡◌, ◌↔◌, ◌⊎◌, refl, Option, none, some, List, [], ◌∷◌, map, arith,
  pair_eq, string_eq, nat_eq, length, ◌==◌, leb,
}
use mncs_reference_studies.Common.Int.{ℤ, pos, ◌≤ℤ◌, int_eq}
use mncs_reference_studies.Common.Result.{ok, require, >>=-eq-ok}
use mncs_reference_studies.Common.Sets.{contains, NoRepeats}
use mncs_reference_studies.Common.Sorting.{All}
use mncs_reference_studies.Dict.{lookup}
use mncs_reference_studies.CacheForge.Model.{
  CacheBlock, identity, capacity_exceeded, index_cardinality,
}
use mncs_reference_studies.CacheForge.State.{
  CacheState, is_kind, points_to, check_block, check_blocks, validate,
}

-- One entry of the dictionary of blocks: the block has the id it is filed under, a known kind, its
-- times in order, a natural number of reuses, and the index leads from its identity to it.
pub record IsEntry (s : CacheState) (id : ℤ) (b : CacheBlock) : Type 0 where
  pub named : id ≡ b.block_id
  pub indexed : lookup (identity b) s.key_index ≡ some id
  pub known_kind : (b.kind ≡ "prompt") ⊎ (b.kind ≡ "generated")
  pub used_after : b.created_at ≤ℤ b.last_used
  pub used_before : b.last_used ≤ℤ s.clock
  pub reused : pos 0 ≤ℤ b.reuse_count

abbrev pub key_of : ℤ × CacheBlock → String × String
key_of (id, b) = identity b

abbrev pub EntryOf : CacheState → ℤ × CacheBlock → Type 0
EntryOf s (id, b) = IsEntry s id b

-- The checks of `validate` as statements on the cache.
pub record IsChecked (s : CacheState) : Type 0 where
  pub bounded : length s.blocks ≤ s.capacity_blocks
  pub in_step : length s.key_index ≡ length s.blocks
  pub entries : All (EntryOf s) s.blocks
  pub identities : NoRepeats (map key_of s.blocks)
  pub next_natural : pos 0 ≤ℤ s.next_block_id

abbrev IsNew : List (String × String) → String × String → Type 0
IsNew seen k = contains k seen ≡ false

points_to_iff : (o : Option ℤ) (id : ℤ) → (points_to o id ≡ true) ↔ (o ≡ some id)
points_to_iff none id = ground arith
points_to_iff (some found) id = ground (arith, int_eq.beq_iff found id)

is_kind_iff : (kind : String) → (is_kind kind ≡ true) ↔ ((kind ≡ "prompt") ⊎ (kind ≡ "generated"))
unfolding is_kind
is_kind_iff kind =
    ground (arith, string_eq.beq_iff kind "prompt", string_eq.beq_iff kind "generated")

check_block_iff :
    (s : CacheState) (seen : List (String × String)) (id : ℤ) (b : CacheBlock)
    → (check_block s seen id b ≡ ok tt) ↔ (IsEntry s id b × IsNew seen (identity b))
unfolding check_block
check_block_iff s seen id b = (
  (λ h. (
    record {
      named = (int_eq.beq_iff id b.block_id).0 (ground arith);
      indexed = (points_to_iff (lookup (identity b) s.key_index) id).0 (ground arith);
      known_kind = (is_kind_iff b.kind).0 (ground arith);
      used_after = ground arith;
      used_before = ground arith;
      reused = ground arith;
    },
    ground arith,
  )),
  λ (e, new). ground (
    arith,
    (int_eq.beq_iff id b.block_id).1 e.named,
    (points_to_iff (lookup (identity b) s.key_index) id).1 e.indexed,
    (is_kind_iff b.kind).1 e.known_kind,
    e.used_after,
    e.used_before,
    e.reused,
    new,
  ),
)

-- Keys that are new after one more key: they are new, and do not hold that key.
new_cons_iff :
    (seen : List (String × String)) (x : String × String) (ks : List (String × String))
    → All (IsNew (x ∷ seen)) ks ↔ ((contains x ks ≡ false) × All (IsNew seen) ks)
unfolding contains
new_cons_iff seen x [] = (λ h. (refl, tt), λ h. tt)
new_cons_iff seen x (k ∷ ks) =
    let (there, back) = new_cons_iff seen x ks in
    let same_x = pair_eq.beq_iff x k in
    let same_k = pair_eq.beq_iff k x in
    (
      (λ (new, rest).
          let (apart, old) = there rest in
          (ground (arith, same_x, same_k, new, apart), (ground (arith, new), old))),
      λ (apart, (new, old)).
          (ground (arith, same_x, same_k, apart, new), back (ground (arith, apart), old)),
    )

check_blocks_iff :
    (s : CacheState) (seen : List (String × String)) (rest : List (ℤ × CacheBlock))
    → (check_blocks s seen rest ≡ ok tt)
      ↔ (All (EntryOf s) rest × All (IsNew seen) (map key_of rest) × NoRepeats (map key_of rest))
unfolding check_blocks
check_blocks_iff s seen [] = (λ h. (tt, tt, tt), λ h. refl)
check_blocks_iff s seen ((id, b) ∷ rest) = (
  (λ h.
      let (_, e, h') = >>=-eq-ok (check_block s seen id b) _ h in
      let (entry, new) = (check_block_iff s seen id b).0 e in
      let (entries, all_new, distinct) = (check_blocks_iff s (identity b ∷ seen) rest).0 h' in
      let (apart, old) = (new_cons_iff seen (identity b) (map key_of rest)).0 all_new in
      ((entry, entries), (new, old), (apart, distinct))),
  λ ((entry, entries), (new, old), (apart, distinct)).
      rw ((check_block_iff s seen id b).1 (entry, new)) (
        (check_blocks_iff s (identity b ∷ seen) rest).1
          (entries, (new_cons_iff seen (identity b) (map key_of rest)).1 (apart, old), distinct)),
)

nothing_seen : (ks : List (String × String)) → All (IsNew []) ks
unfolding contains
nothing_seen [] = tt
nothing_seen (k ∷ ks) = (refl, nothing_seen ks)

-- `validate` passes exactly the caches within their capacity, with an index of as many entries as
-- there are blocks, in which every entry is as it should be, no two blocks have one identity, and
-- the next block id is a natural number.
pub validate_iff : (s : CacheState) → (validate s ≡ ok tt) ↔ IsChecked s
unfolding validate
validate_iff s = (
  (λ h.
      let (_, _, h1) =
        >>=-eq-ok (require (leb (length s.blocks) s.capacity_blocks) capacity_exceeded) _ h in
      let (_, _, h2) =
        >>=-eq-ok (require (length s.key_index == length s.blocks) index_cardinality) _ h1 in
      let (_, e, h3) = >>=-eq-ok (check_blocks s [] s.blocks) _ h2 in
      let (entries, _, distinct) = (check_blocks_iff s [] s.blocks).0 e in
      record {
        bounded = ground (arith, h);
        in_step = ground (arith, h);
        entries = entries;
        identities = distinct;
        next_natural = ground (arith, h3);
      }),
  λ c.
      let passed =
        (check_blocks_iff s [] s.blocks).1
          (c.entries, nothing_seen (map key_of s.blocks), c.identities) in
      ground (arith, passed, c.bounded, c.in_step, c.next_natural),
)
