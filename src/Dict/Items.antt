-- ===== src/Dict/Items.antt =====
-- A value that an operation on a dictionary leaves, traced back to where it came from.
use mncs_reference_studies.Common.{
  ◌≡◌, ◌≢◌, inl, inr, ◌⊎◌, Bool-cases, none, some, List, ◌∷◌, Eq, arith, beq_self,
}
use mncs_reference_studies.Dict.Defs.{lookup, insert, delete, adjust, Distinct}
use mncs_reference_studies.Dict.Laws.{lookup-insert, lookup-adjust, lookup-delete}

module _ {ℓ κ} {K : Type ℓ} {V : Type κ} ⦃e : Eq K⦄ where
  pub lookup_head : (k : K) (v : V) (m : List (K × V)) → lookup k ((k, v) ∷ m) ≡ some v
  unfolding lookup
  lookup_head k v m = rw (beq_self e k)

  -- Behind a head whose key the rest lacks, a lookup finds what the rest holds.
  pub lookup_tail :
      (k j : K) (v w : V) (m : List (K × V))
      → lookup k m ≡ none
      → lookup j m ≡ some w
      → lookup j ((k, v) ∷ m) ≡ some w
  unfolding lookup
  lookup_tail k j v w m absent h = ground (arith, e.beq_iff k j)

  pub lookup-insert_cases :
      (k j : K) (v w : V) (m : List (K × V))
      → lookup j (insert k v m) ≡ some w
      → ((k ≡ j) × (v ≡ w)) ⊎ (lookup j m ≡ some w)
  lookup-insert_cases k j v w m h = ground (arith, e.beq_iff k j, lookup-insert k j v m)

  pub lookup-delete_cases :
      (k j : K) (w : V) (m : List (K × V))
      → Distinct m
      → lookup j (delete k m) ≡ some w
      → ((k ≡ j) → ⊥) × (lookup j m ≡ some w)
  lookup-delete_cases k j w m d h = elim (Bool-cases (e.beq k j)) [
    | inl same ↦ absurd (ground (arith, lookup-delete k j m d))
    | inr other ↦ (λ p. ground (arith, e.beq_iff k j), ground (arith, lookup-delete k j m d))
  ]

  pub lookup-adjust_cases :
      (k j : K) (f : V → V) (w : V) (m : List (K × V))
      → lookup j (adjust k f m) ≡ some w
      → ((k ≢ j) × (lookup j m ≡ some w)) ⊎ ((v : V) × (lookup j m ≡ some v) × (w ≡ f v) × (k ≡ j))
  lookup-adjust_cases k j f w m h = elim (Bool-cases (e.beq k j)) [
    | inl same ↦ inr (ground (arith, e.beq_iff k j, lookup-adjust k j f m))
    | inr other ↦ inl ((λ p. ground (arith, e.beq_iff k j)), ground (arith, lookup-adjust k j f m))
  ]

  pub lookup-insert_self : (k : K) (v : V) (m : List (K × V)) → lookup k (insert k v m) ≡ some v
  lookup-insert_self k v m = rw (lookup-insert k k v m, beq_self e k)

  pub lookup-insert_ne :
      (k j : K) (v : V) (m : List (K × V)) → k ≢ j → lookup j (insert k v m) ≡ lookup j m
  lookup-insert_ne k j v m h = ground (arith, e.beq_iff k j, lookup-insert k j v m)

  pub lookup-delete_ne :
      (k j : K) (m : List (K × V)) → Distinct m → k ≢ j → lookup j (delete k m) ≡ lookup j m
  lookup-delete_ne k j m d h = ground (arith, e.beq_iff k j, lookup-delete k j m d)

  pub lookup-adjust_self :
      (k : K) (f : V → V) (m : List (K × V)) (v : V)
      → lookup k m ≡ some v
      → lookup k (adjust k f m) ≡ some (f v)
  lookup-adjust_self k f m v h = rw (lookup-adjust k k f m, beq_self e k, h)

  pub lookup-adjust_ne :
      (k j : K) (f : V → V) (m : List (K × V)) → k ≢ j → lookup j (adjust k f m) ≡ lookup j m
  lookup-adjust_ne k j f m h = ground (arith, e.beq_iff k j, lookup-adjust k j f m)

  pub lookup-delete-none :
      (k j : K) (m : List (K × V)) → Distinct m → lookup j m ≡ none → lookup j (delete k m) ≡ none
  lookup-delete-none k j m d h = ground (arith, lookup-delete k j m d)
