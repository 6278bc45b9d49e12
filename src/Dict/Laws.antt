-- ===== src/Dict/Laws.antt =====
-- What a lookup finds after each operation on a dictionary.
use mathlib.Core.Option
use mncs_reference_studies.Common.{
  ◌≡◌, refl, none, some, List, [], ◌∷◌, Eq, ◌==◌, arith, if◌then◌else◌,
}
use mncs_reference_studies.Dict.Defs.{lookup, insert, delete, adjust, Distinct}

module _ {ℓ κ} {K : Type ℓ} {V : Type κ} ⦃e : Eq K⦄ where
  pub lookup-insert :
      (key wanted : K) (v : V) (rest : List (K × V))
      → lookup wanted (insert key v rest) ≡ (if key == wanted then some v else lookup wanted rest)
  unfolding lookup insert
  lookup-insert key wanted v [] = refl
  lookup-insert key wanted v ((i, w) ∷ rest) = ground (
    arith,
    e.beq_iff key wanted,
    e.beq_iff i key,
    e.beq_iff i wanted,
    lookup-insert key wanted v rest,
  )

  pub lookup-adjust :
      (k j : K) (f : V → V) (m : List (K × V))
      → lookup j (adjust k f m) ≡ (if k == j then Option.map f (lookup j m) else lookup j m)
  unfolding lookup adjust
  lookup-adjust k j f [] = ground arith
  lookup-adjust k j f ((i, w) ∷ m) =
      ground (arith, e.beq_iff k j, e.beq_iff i k, e.beq_iff i j, lookup-adjust k j f m)

  pub lookup-delete :
      (k j : K) (m : List (K × V))
      → Distinct m
      → lookup j (delete k m) ≡ (if k == j then none else lookup j m)
  unfolding lookup delete
  lookup-delete k j [] d = ground arith
  lookup-delete k j ((i, w) ∷ m) d =
      ground (arith, e.beq_iff k j, e.beq_iff i k, e.beq_iff i j, lookup-delete k j m d.1)

  pub insert-Distinct : (k : K) (v : V) (m : List (K × V)) → Distinct m → Distinct (insert k v m)
  unfolding insert lookup
  insert-Distinct k v [] d = (refl, tt)
  insert-Distinct k v ((i, w) ∷ m) d =
      ground (arith, e.beq_iff i k, e.beq_iff k i, lookup-insert k i v m, insert-Distinct k v m d.1)

  pub delete-Distinct : (k : K) (m : List (K × V)) → Distinct m → Distinct (delete k m)
  unfolding delete lookup
  delete-Distinct k [] d = tt
  delete-Distinct k ((i, w) ∷ m) d =
      ground (arith, e.beq_iff i k, e.beq_iff k i, lookup-delete k i m d.1, delete-Distinct k m d.1)

  lookup-adjust-none :
      (k j : K) (f : V → V) (m : List (K × V)) → lookup j m ≡ none → lookup j (adjust k f m) ≡ none
  unfolding lookup adjust
  lookup-adjust-none k j f [] h = refl
  lookup-adjust-none k j f ((i, w) ∷ m) h = ground (arith, lookup-adjust-none k j f m)

  pub adjust-Distinct :
      (k : K) (f : V → V) (m : List (K × V)) → Distinct m → Distinct (adjust k f m)
  unfolding adjust
  adjust-Distinct k f [] d = tt
  adjust-Distinct k f ((i, w) ∷ m) d =
      ground (arith, lookup-adjust-none k i f m d.0, adjust-Distinct k f m d.1)
