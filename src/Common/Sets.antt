-- ===== src/Common/Sets.antt =====
-- Python's `set` as a list without repetitions.
use mncs_reference_studies.Common.Tests.{if◌then◌else◌}
use mncs_reference_studies.Common.Equality.{Eq, ◌==◌, beq_self}
use mncs_reference_studies.Common.Lists.{length}
use Prim.Native.Nat.{◌≤◌}
use mathlib.Core.Path.{◌≡◌, refl}
use mathlib.Core.Logic.{◌≢◌}
use mathlib.Core.Bool.{Bool, true, false, ◌||◌}
use mathlib.Core.List.{List, [], ◌∷◌}
use native.Mathlib.Omega.{arith}

module _ {ℓ} {A : Type ℓ} ⦃e : Eq A⦄ where
  -- `a in s`
  unfoldable pub contains : A → List A → Bool
  contains a [] = false
  contains a (x ∷ xs) = x == a || contains a xs

  -- `s.add(a)`
  unfoldable pub add : A → List A → List A
  add a xs = if contains a xs then xs else a ∷ xs

  -- `s.discard(a)`
  unfoldable pub discard : A → List A → List A
  discard a [] = []
  discard a (x ∷ xs) = let rest = discard a xs in if x == a then rest else x ∷ rest

  -- `set(xs)`
  unfoldable pub to_set : List A → List A
  to_set [] = []
  to_set (x ∷ xs) = add x (to_set xs)

  -- No element stands twice.
  abbrev pub NoRepeats : List A → Type 0
  NoRepeats [] = Unit
  NoRepeats (x ∷ xs) = (contains x xs ≡ false) × NoRepeats xs

  pub contains-add : (a b : A) (xs : List A) → contains b (add a xs) ≡ (a == b || contains b xs)
  unfolding contains add
  contains-add a b xs = ground (arith, e.beq_iff a b)

  pub contains-discard :
      (a b : A) (xs : List A)
      → contains b (discard a xs) ≡ (if a == b then false else contains b xs)
  unfolding contains discard
  contains-discard a b [] = ground arith
  contains-discard a b (x ∷ xs) =
      ground (arith, e.beq_iff a b, e.beq_iff x a, e.beq_iff x b, contains-discard a b xs)

  pub contains-to_set : (a : A) (xs : List A) → contains a (to_set xs) ≡ contains a xs
  unfolding contains to_set
  contains-to_set a [] = refl
  contains-to_set a (x ∷ xs) = ground (arith, contains-add x a (to_set xs), contains-to_set a xs)

  pub length-to_set-le : (xs : List A) → length (to_set xs) ≤ length xs
  unfolding to_set add
  length-to_set-le [] = omega arith
  length-to_set-le (x ∷ xs) = ground (arith, length-to_set-le xs)

  -- `len(set(xs)) == len(xs)` says that nothing repeats.
  pub NoRepeats-of_length : (xs : List A) → length (to_set xs) ≡ length xs → NoRepeats xs
  unfolding to_set add
  NoRepeats-of_length [] h = tt
  NoRepeats-of_length (x ∷ xs) h =
      ground (arith, contains-to_set x xs, length-to_set-le xs, NoRepeats-of_length xs)

  pub length-to_set : (xs : List A) → NoRepeats xs → length (to_set xs) ≡ length xs
  unfolding to_set add
  length-to_set [] d = refl
  length-to_set (x ∷ xs) d = ground (arith, contains-to_set x xs, length-to_set xs d.1)

  pub contains_cons_false :
      (a x : A) (xs : List A) → x ≢ a → contains a xs ≡ false → contains a (x ∷ xs) ≡ false
  unfolding contains
  contains_cons_false a x xs n h = ground (arith, e.beq_iff x a)

  pub contains_nil : (a : A) → contains a [] ≡ false
  unfolding contains
  contains_nil a = refl

  pub contains_self : (a : A) → contains a (a ∷ []) ≡ true
  unfolding contains
  contains_self a = rw (beq_self e a) refl

  pub contains_of_discard :
      (a b : A) (xs : List A) → contains b (discard a (a ∷ xs)) ≡ true → contains b xs ≡ true
  unfolding contains
  contains_of_discard a b xs h = ground (arith, contains-discard a b (a ∷ xs))
