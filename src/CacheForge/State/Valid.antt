-- ===== src/CacheForge/State/Valid.antt =====
-- The invariant of the cache: within its capacity, both dictionaries in step, every block stamped
-- in order and with an id below the next one. A valid state passes `validate`.
use mncs_reference_studies.Common.{
  ◌≤◌, ◌<◌, String, ◌≡◌, refl, sym, ap, ◌∙◌, true, false, some, List, [], ◌∷◌, arith, pair_eq,
  string_eq, length, some_inj, none_ne_some, ◌≢◌,
}
use mncs_reference_studies.Common.Int.{ℤ, pos, ◌≤ℤ◌, ◌<ℤ◌, int_eq}
use mncs_reference_studies.Common.Result.{ok}
use mncs_reference_studies.Common.Sets.{contains, contains_nil, contains_cons_false}
use mncs_reference_studies.Dict.{lookup, Distinct, lookup_head, lookup_tail}
use mncs_reference_studies.CacheForge.Model.{CacheBlock, identity}
use mncs_reference_studies.CacheForge.State.{
  CacheState, is_kind, check_block, check_blocks, validate,
}

pub record IsBlock (s : CacheState) (id : ℤ) (b : CacheBlock) : Type 0 where
  pub named : b.block_id ≡ id
  pub known_kind : is_kind b.kind ≡ true
  pub used_after : b.created_at ≤ℤ b.last_used
  pub used_before : b.last_used ≤ℤ s.clock
  pub reused : pos 0 ≤ℤ b.reuse_count
  pub is_old : id <ℤ s.next_block_id
  pub indexed : lookup (identity b) s.key_index ≡ some id

pub record IsValid (s : CacheState) : Type 0 where
  pub positive : 0 < s.capacity_blocks
  pub bounded : length s.blocks ≤ s.capacity_blocks
  pub in_step : length s.key_index ≡ length s.blocks
  pub ids_distinct : Distinct s.blocks
  pub keys_distinct : Distinct s.key_index
  pub next_natural : pos 0 ≤ℤ s.next_block_id
  pub blocks_valid : (id : ℤ) (b : CacheBlock) → lookup id s.blocks ≡ some b → IsBlock s id b
  pub located :
      (k : String × String) (id : ℤ)
      → lookup k s.key_index ≡ some id
      → (b : CacheBlock) × (lookup id s.blocks ≡ some b) × (identity b ≡ k)

check_block-ok :
    (s : CacheState) (seen : List (String × String)) (id : ℤ) (b : CacheBlock)
    → IsBlock s id b
    → contains (identity b) seen ≡ false
    → check_block s seen id b ≡ ok tt
unfolding check_block
check_block-ok s seen id b v new =
    ground (arith, (int_eq.beq_iff id b.block_id).1 (sym v.named), (int_eq.beq_iff id id).1 refl)

-- Two blocks with one identity have one id.
same_id :
    (s : CacheState) (i j : ℤ) (b c : CacheBlock)
    → IsBlock s i b
    → IsBlock s j c
    → identity b ≡ identity c
    → i ≡ j
same_id s i j b c v w e = some_inj (sym v.indexed ∙ ap (λ k. lookup k s.key_index) e ∙ w.indexed)

check_blocks-ok :
    (s : CacheState) (seen : List (String × String)) (rest : List (ℤ × CacheBlock))
    → Distinct rest
    → ((id : ℤ) (b : CacheBlock) → lookup id rest ≡ some b → IsBlock s id b)
    → ((id : ℤ) (b : CacheBlock) → lookup id rest ≡ some b → contains (identity b) seen ≡ false)
    → check_blocks s seen rest ≡ ok tt
unfolding check_blocks
check_blocks-ok s seen [] d v new = refl
check_blocks-ok s seen ((id, b) ∷ rest) d v new =
    rw
      (check_block-ok s seen id b (v id b (lookup_head id b rest))
        (new id b (lookup_head id b rest)))
      (check_blocks-ok s (identity b ∷ seen) rest d.1
        (λ i c h. v i c (lookup_tail id i b c rest d.0 h))
        (λ i c h.
          contains_cons_false (identity c) (identity b) seen
            (other i c (lookup_tail id i b c rest d.0 h) h)
            (new i c (lookup_tail id i b c rest d.0 h))))
  where
    other :
        (i : ℤ) (c : CacheBlock)
        → lookup i ((id, b) ∷ rest) ≡ some c
        → lookup i rest ≡ some c
        → identity b ≢ identity c
    other i c h k e =
        let same = same_id s id i b c (v id b (lookup_head id b rest)) (v i c h) e in
        none_ne_some (sym d.0 ∙ ap (λ j. lookup j rest) same ∙ k)

-- A valid state passes its own check.
pub validate_of_IsValid : (s : CacheState) → IsValid s → validate s ≡ ok tt
unfolding validate
validate_of_IsValid s v = ground (
  arith,
  check_blocks-ok s [] s.blocks v.ids_distinct v.blocks_valid (λ i b h. contains_nil (identity b)),
)
