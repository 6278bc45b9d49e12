-- ===== src/CacheForge/Policies/Order.antt =====
-- The policies choose by key: what they propose is free, and no free block they leave comes first.
use mncs_reference_studies.Common.{
  ◌≡◌, refl, ap, ◌∙◌, true, false, List, [], ◌∷◌, arith, inl, inr, Bool-cases, length, take, some,
  none, String, ℕ, length-take, min,
}
use mncs_reference_studies.Common.Int.{ℤ, int_eq}
use mncs_reference_studies.Common.Sets.{contains, NoRepeats}
use mncs_reference_studies.Common.Sorting.{All, sort_by, sort_by-All, length-sort_by}
use mncs_reference_studies.Common.Selection.{
  All-take, map-take, NoRepeats-take, sort_by-NoRepeats, sort_by-IsSortedBy, sort_by-All_inv,
  IsTakenOrAfter, take-IsTakenOrAfter,
}
use mncs_reference_studies.Dict.{lookup, values, Distinct, lookup_head, lookup_tail}
use mncs_reference_studies.CacheForge.Model.{CacheBlock, is_empty}
use mncs_reference_studies.CacheForge.State.{CacheState}
use mncs_reference_studies.CacheForge.State.Valid.{IsValid}
use mncs_reference_studies.CacheForge.Policies.{
  free_blocks, evictable, leb_key, by_key, ids, propose_sorted,
}

leb_key-total : (a b : List ℤ) → leb_key a b ≡ false → leb_key b a ≡ true
unfolding leb_key
leb_key-total [] b h = cc
leb_key-total (x ∷ a) [] h = refl
leb_key-total (x ∷ a) (y ∷ b) h =
    ground (arith, int_eq.beq_iff x y, int_eq.beq_iff y x, leb_key-total a b)

leb_key_trans : (a b c : List ℤ) → leb_key a b ≡ true → leb_key b c ≡ true → leb_key a c ≡ true
unfolding leb_key
leb_key_trans [] b c h k = refl
leb_key_trans (x ∷ a) [] c h k = cc
leb_key_trans (x ∷ a) (y ∷ b) [] h k = cc
leb_key_trans (x ∷ a) (y ∷ b) (z ∷ c) h k =
    ground (arith, int_eq.beq_iff x y, int_eq.beq_iff y z, int_eq.beq_iff x z, leb_key_trans a b c)

-- A block of the state that no request owns.
abbrev pub IsFree : CacheState → CacheBlock → Type 0
IsFree s b = (lookup b.block_id s.blocks ≡ some b) × (b.owners ≡ [])

pub nil_of_is_empty : (xs : List String) → is_empty xs ≡ true → xs ≡ []
nil_of_is_empty [] h = refl
nil_of_is_empty (x ∷ xs) h = cc

free_blocks-IsFree :
    (P : CacheBlock → Type 0) (m : List (ℤ × CacheBlock))
    → Distinct m
    → ((id : ℤ) (b : CacheBlock) → lookup id m ≡ some b → P b)
    → All (λ b. P b × (b.owners ≡ [])) (free_blocks (values m))
unfolding free_blocks values
free_blocks-IsFree P [] d h = tt
free_blocks-IsFree P ((id, b) ∷ m) d h =
    let rest = free_blocks-IsFree P m d.1 (λ i c k. h i c (lookup_tail id i b c m d.0 k)) in
    let first = h id b (lookup_head id b m) in
    elim (Bool-cases (is_empty b.owners)) [
      | inl free ↦ rw free ((first, nil_of_is_empty b.owners free), rest)
      | inr owned ↦ rw owned rest
    ]

free-absent :
    (id : ℤ) (m : List (ℤ × CacheBlock))
    → Distinct m
    → ((i : ℤ) (b : CacheBlock) → lookup i m ≡ some b → b.block_id ≡ i)
    → lookup id m ≡ none
    → contains id (ids (free_blocks (values m))) ≡ false
unfolding free_blocks values contains lookup
free-absent id [] d named h = refl
free-absent id ((i, b) ∷ m) d named h = ground (
  arith,
  named i b (lookup_head i b m),
  int_eq.beq_iff i id,
  int_eq.beq_iff b.block_id id,
  free-absent id m d.1 (λ j c k. named j c (lookup_tail i j b c m d.0 k)),
)

free-NoRepeats :
    (m : List (ℤ × CacheBlock))
    → Distinct m
    → ((i : ℤ) (b : CacheBlock) → lookup i m ≡ some b → b.block_id ≡ i)
    → NoRepeats (ids (free_blocks (values m)))
unfolding free_blocks values
free-NoRepeats [] d named = tt
free-NoRepeats ((i, b) ∷ m) d named =
    let named' = λ (j : ℤ) (c : CacheBlock) (k : lookup j m ≡ some c).
      named j c (lookup_tail i j b c m d.0 k) in
    let rest = free-NoRepeats m d.1 named' in
    let new = free-absent i m d.1 named' d.0 in
    elim (Bool-cases (is_empty b.owners)) [
      | inl free ↦ rw (free, named i b (lookup_head i b m)) (new, rest)
      | inr owned ↦ rw owned rest
    ]

module _ (s : CacheState) (v : IsValid s) where
  evictable-IsFree : All (IsFree s) (evictable s)
  evictable-IsFree =
      free_blocks-IsFree (λ b. lookup b.block_id s.blocks ≡ some b) s.blocks v.ids_distinct
        (λ id b h. ap (λ i. lookup i s.blocks) (v.blocks_valid id b h).named ∙ h)

  evictable-NoRepeats : NoRepeats (ids (evictable s))
  evictable-NoRepeats =
      free-NoRepeats s.blocks v.ids_distinct (λ id b h. (v.blocks_valid id b h).named)

  module _ (key : CacheBlock → List ℤ) (required : ℕ) where
    abbrev chosen : List CacheBlock
    chosen = take required (sort_by (by_key key) (evictable s))

    chosen-IsFree : All (IsFree s) chosen
    chosen-IsFree =
        All-take (IsFree s) required _
          (sort_by-All (by_key key) (IsFree s) (evictable s) evictable-IsFree)

    chosen-NoRepeats : NoRepeats (ids chosen)
    chosen-NoRepeats = rw (map-take (λ (b : CacheBlock). b.block_id) required) (
        NoRepeats-take required _
          (sort_by-NoRepeats (by_key key) (λ b. b.block_id) (evictable s) evictable-NoRepeats))

    length-chosen : length chosen ≡ min required (length (evictable s))
    length-chosen =
        length-take required _ ∙ ap (min required) (length-sort_by (by_key key) (evictable s))

    chosen-IsLeast : All (IsTakenOrAfter (by_key key) (λ b. b.block_id) chosen) (evictable s)
    chosen-IsLeast = sort_by-All_inv (by_key key) _ (evictable s) (
        take-IsTakenOrAfter (by_key key) (λ b. b.block_id) required _
          (sort_by-IsSortedBy (by_key key) (λ b c. leb_key-total (key b) (key c))
            (λ a b c. leb_key_trans (key a) (key b) (key c)) (evictable s)))

-- `plan` names free blocks of the state, none twice, `required` of them or all that are free; no
-- free block that it leaves out comes before one that it names.
pub record IsPlan (s : CacheState) (key : CacheBlock → List ℤ) (required : ℕ)
    (plan : List CacheBlock) : Type 0 where
  pub free : All (IsFree s) plan
  pub distinct : NoRepeats (ids plan)
  pub counted : length plan ≡ min required (length (evictable s))
  pub least : All (IsTakenOrAfter (by_key key) (λ b. b.block_id) plan) (evictable s)

-- On a valid state, a policy that sorts by a key proposes the ids of the least free blocks under
-- that key, and reports how many free blocks it saw.
pub propose_sorted-IsPlan :
    (s : CacheState) (key : CacheBlock → List ℤ) (required : ℕ)
    → IsValid s
    → (plan : List CacheBlock) × IsPlan s key required plan
      × (propose_sorted key s required ≡ (ids plan, length (evictable s)))
unfolding propose_sorted
propose_sorted-IsPlan s key required v = (
  chosen s v key required,
  record {
    free = chosen-IsFree s v key required;
    distinct = chosen-NoRepeats s v key required;
    counted = length-chosen s v key required;
    least = chosen-IsLeast s v key required;
  },
  refl,
)
