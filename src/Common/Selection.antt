-- ===== src/Common/Selection.antt =====
-- What a sorted list, or its first elements, share with the list that was sorted.
use mncs_reference_studies.Common.Tests.{Bool-cases}
use mncs_reference_studies.Common.Equality.{Eq, ◌==◌}
use mncs_reference_studies.Common.Lists.{length, take}
use mncs_reference_studies.Common.Sets.{contains, NoRepeats}
use mncs_reference_studies.Common.Sorting.{All, place, place-All, sort_by, IsSortedBy}
use Prim.Native.Nat.{ℕ, zero, suc, ◌≤◌}
use mathlib.Core.Path.{◌≡◌, refl, ◌∙◌}
use mathlib.Core.Logic.{◌⊎◌, inl, inr}
use mathlib.Core.Bool.{Bool, true, false, ◌||◌}
use mathlib.Core.List.{List, [], ◌∷◌, map}
use native.Mathlib.Omega.{arith}

module _ {ℓ} {A : Type ℓ} where
  pub All-take {κ} : (P : A → Type κ) (n : ℕ) (xs : List A) → All P xs → All P (take n xs)
  All-take P zero xs h = tt
  All-take P (suc n) [] h = tt
  All-take P (suc n) (x ∷ xs) h = (h.0, All-take P n xs h.1)

  pub All-map {κ μ} :
      {P : A → Type κ} {Q : A → Type μ}
      → ((a : A) → P a → Q a)
      → (xs : List A) → All P xs
      → All Q xs
  All-map f [] h = tt
  All-map f (x ∷ xs) h = (f x h.0, All-map f xs h.1)

  pub map-take {κ} :
      {B : Type κ} (f : A → B) (n : ℕ) (xs : List A) → map f (take n xs) ≡ take n (map f xs)
  map-take f zero xs = refl
  map-take f (suc n) [] = refl
  map-take f (suc n) (x ∷ xs) = rw (map-take f n xs)

module _ {ℓ} {A : Type ℓ} ⦃e : Eq A⦄ where
  pub contains-take :
      (a : A) (n : ℕ) (xs : List A) → contains a xs ≡ false → contains a (take n xs) ≡ false
  unfolding contains
  contains-take a zero xs h = refl
  contains-take a (suc n) [] h = refl
  contains-take a (suc n) (x ∷ xs) h = ground (arith, contains-take a n xs)

  pub NoRepeats-take : (n : ℕ) (xs : List A) → NoRepeats xs → NoRepeats (take n xs)
  NoRepeats-take zero xs h = tt
  NoRepeats-take (suc n) [] h = tt
  NoRepeats-take (suc n) (x ∷ xs) h = (contains-take x n xs h.0, NoRepeats-take n xs h.1)

module _ {ℓ κ} {A : Type ℓ} {K : Type κ} ⦃e : Eq K⦄ (leq : A → A → Bool) (f : A → K) where
  contains-place :
      (k : K) (x : A) (ys : List A)
      → contains k (map f (place leq x ys)) ≡ (f x == k || contains k (map f ys))
  unfolding contains place
  contains-place k x [] = refl
  contains-place k x (y ∷ ys) = ground (arith, contains-place k x ys)

  pub contains-sort_by :
      (k : K) (xs : List A) → contains k (map f (sort_by leq xs)) ≡ contains k (map f xs)
  unfolding contains sort_by
  contains-sort_by k [] = refl
  contains-sort_by k (x ∷ xs) =
      ground (arith, contains-place k x (sort_by leq xs), contains-sort_by k xs)

  place-NoRepeats :
      (x : A) (ys : List A)
      → contains (f x) (map f ys) ≡ false
      → NoRepeats (map f ys)
      → NoRepeats (map f (place leq x ys))
  unfolding contains place
  place-NoRepeats x [] h d = (refl, tt)
  place-NoRepeats x (y ∷ ys) h d = ground (
    arith,
    contains-place (f y) x ys,
    place-NoRepeats x ys,
    e.beq_iff (f y) (f x),
    e.beq_iff (f x) (f y),
  )

  pub sort_by-NoRepeats : (xs : List A) → NoRepeats (map f xs) → NoRepeats (map f (sort_by leq xs))
  unfolding sort_by
  sort_by-NoRepeats [] d = tt
  sort_by-NoRepeats (x ∷ xs) d =
      place-NoRepeats x (sort_by leq xs) (contains-sort_by (f x) xs ∙ d.0)
        (sort_by-NoRepeats xs d.1)

module _ {ℓ} {A : Type ℓ} (leq : A → A → Bool)
    (total : (a b : A) → leq a b ≡ false → leq b a ≡ true)
    (trans : (a b c : A) → leq a b ≡ true → leq b c ≡ true → leq a c ≡ true) where
  place-IsSortedBy : (x : A) (ys : List A) → IsSortedBy leq ys → IsSortedBy leq (place leq x ys)
  unfolding place
  place-IsSortedBy x [] h = (tt, tt)
  place-IsSortedBy x (y ∷ ys) h = elim (Bool-cases (leq x y)) [
    | inl p ↦ rw p ((p, All-map (λ z q. trans x y z p q) ys h.0), h)
    | inr n ↦ rw n (place-All leq _ x ys (total x y n) h.0, place-IsSortedBy x ys h.1)
  ]

  pub sort_by-IsSortedBy : (xs : List A) → IsSortedBy leq (sort_by leq xs)
  unfolding sort_by
  sort_by-IsSortedBy [] = tt
  sort_by-IsSortedBy (x ∷ xs) = place-IsSortedBy x (sort_by leq xs) (sort_by-IsSortedBy xs)

module _ {ℓ} {A : Type ℓ} (leq : A → A → Bool) where
  place-All_inv {κ} :
      (P : A → Type κ) (x : A) (ys : List A) → All P (place leq x ys) → P x × All P ys
  unfolding place
  place-All_inv P x [] h = h
  place-All_inv P x (y ∷ ys) h = elim (Bool-cases (leq x y)) [
    | inl p ↦ rw (p, place) at h
    | inr n ↦
        let h' : P y × All P (place leq x ys) = rw (n, place) at h in
        let (px, rest) = place-All_inv P x ys h'.1 in (px, (h'.0, rest))
  ]

  pub sort_by-All_inv {κ} : (P : A → Type κ) (xs : List A) → All P (sort_by leq xs) → All P xs
  unfolding sort_by
  sort_by-All_inv P [] h = tt
  sort_by-All_inv P (x ∷ xs) h =
      let (px, rest) = place-All_inv P x (sort_by leq xs) h in (px, sort_by-All_inv P xs rest)

module _ {ℓ κ} {A : Type ℓ} {K : Type κ} ⦃e : Eq K⦄ (leq : A → A → Bool) (f : A → K) where
  -- Among the first, or not before any of them.
  abbrev pub IsTakenOrAfter : List A → A → Type 0
  IsTakenOrAfter firsts c =
      (contains (f c) (map f firsts) ≡ true) ⊎ All (λ v. leq v c ≡ true) firsts

  cons-IsTakenOrAfter :
      (x : A) (firsts : List A) (c : A)
      → leq x c ≡ true
      → IsTakenOrAfter firsts c
      → IsTakenOrAfter (x ∷ firsts) c
  unfolding contains
  cons-IsTakenOrAfter x firsts c p (inl h) = inl (ground arith)
  cons-IsTakenOrAfter x firsts c p (inr h) = inr (p, h)

  cons-All :
      (x : A) (firsts l : List A)
      → All (λ c. leq x c ≡ true) l
      → All (IsTakenOrAfter firsts) l
      → All (IsTakenOrAfter (x ∷ firsts)) l
  cons-All x firsts [] p h = tt
  cons-All x firsts (c ∷ l) p h =
      (cons-IsTakenOrAfter x firsts c p.0 h.0, cons-All x firsts l p.1 h.1)

  after_nothing : (l : List A) → All (IsTakenOrAfter []) l
  after_nothing [] = tt
  after_nothing (c ∷ l) = (inr tt, after_nothing l)

  -- The first `n` of an ascending list come before all the others.
  pub take-IsTakenOrAfter :
      (n : ℕ) (l : List A) → IsSortedBy leq l → All (IsTakenOrAfter (take n l)) l
  unfolding contains
  take-IsTakenOrAfter zero l h = after_nothing l
  take-IsTakenOrAfter (suc n) [] h = tt
  take-IsTakenOrAfter (suc n) (x ∷ l) h = (
    inl (ground (arith, (e.beq_iff (f x) (f x)).1 refl)),
    cons-All x (take n l) l h.0 (take-IsTakenOrAfter n l h.1),
  )

-- Nothing is dropped.
pub take_of_length-le {ℓ} : {A : Type ℓ} (n : ℕ) (l : List A) → length l ≤ n → take n l ≡ l
take_of_length-le zero [] h = refl
take_of_length-le (suc n) [] h = refl
take_of_length-le (suc n) (a ∷ l) h = rw (take_of_length-le n l (omega arith))
take_of_length-le zero (a ∷ l) h = absurd (omega arith)
