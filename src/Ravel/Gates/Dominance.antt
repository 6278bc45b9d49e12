-- ===== src/Ravel/Gates/Dominance.antt =====
-- What `_pareto_relation` decides.
use mncs_reference_studies.Common.{
  Bool, true, false, ◌≡◌, ◌↔◌, refl, inl, inr, List, [], ◌∷◌, arith, Bool-cases,
}
use mncs_reference_studies.Python.Floats.{Floats}
use mncs_reference_studies.Python.Equality.{Number}
use mncs_reference_studies.Ravel.Gates.{
  Quality, maximize, minimize, lt_number, any_below, is_better, Relation, candidate_dominates,
  variant_dominates, equivalent, mixed, relation_of, pareto_relation,
}

module _ (F : Floats) where
  -- Some position at which the first list is below the second.
  pub data SomeBelow : List (Number F.Float) → List (Number F.Float) → Type 0 where
    here :
        {a b : Number F.Float} {as' bs : List (Number F.Float)}
        → lt_number F a b ≡ true
        → SomeBelow (a ∷ as') (b ∷ bs)
    there :
        {a b : Number F.Float} {as' bs : List (Number F.Float)}
        → SomeBelow as' bs
        → SomeBelow (a ∷ as') (b ∷ bs)

  any_below-SomeBelow : (xs ys : List (Number F.Float)) → any_below F xs ys ≡ true → SomeBelow xs ys
  unfolding any_below
  any_below-SomeBelow [] ys h = absurd (cc)
  any_below-SomeBelow (x ∷ xs) [] h = absurd (cc)
  any_below-SomeBelow (x ∷ xs) (y ∷ ys) h = elim (Bool-cases (lt_number F x y)) [
    | inl below ↦ here below
    | inr other ↦ there (any_below-SomeBelow xs ys (rw other at h))
  ]

  SomeBelow-any_below : (xs ys : List (Number F.Float)) → SomeBelow xs ys → any_below F xs ys ≡ true
  unfolding any_below
  SomeBelow-any_below [] ys s = elim s [ ]
  SomeBelow-any_below (x ∷ xs) [] s = elim s [ ]
  SomeBelow-any_below (x ∷ xs) (y ∷ ys) (here below) = rw below refl
  SomeBelow-any_below (x ∷ xs) (y ∷ ys) (there rest) = elim (Bool-cases (lt_number F x y)) [
    | inl below ↦ rw below refl
    | inr other ↦ rw other (SomeBelow-any_below xs ys rest)
  ]

  -- One quality is better than another when it is greater in a metric to maximize, or less in one
  -- to minimize.
  pub data IsBetter (p q : Quality F) : Type 0 where
    more : SomeBelow (maximize F q) (maximize F p) → IsBetter p q
    less : SomeBelow (minimize F p) (minimize F q) → IsBetter p q

  pub is_better_iff : (p q : Quality F) → (is_better F p q ≡ true) ↔ IsBetter p q
  is_better_iff p q = (
    (λ h. elim (Bool-cases (any_below F (maximize F q) (maximize F p))) [
      | inl yes' ↦ more (any_below-SomeBelow _ _ yes')
      | inr no' ↦ less (any_below-SomeBelow _ _ (rw no' at h))
    ]),
    better,
  )
    where
      better : IsBetter p q → is_better F p q ≡ true
      better (more s) = rw (SomeBelow-any_below (maximize F q) (maximize F p) s) refl
      better (less s) = elim (Bool-cases (any_below F (maximize F q) (maximize F p))) [
        | inl yes' ↦ rw yes' refl
        | inr no' ↦ rw no' (SomeBelow-any_below (minimize F p) (minimize F q) s)
      ]

  -- The relation seen from the variant.
  abbrev pub flip : Relation F → Relation F
  flip candidate_dominates = variant_dominates
  flip variant_dominates = candidate_dominates
  flip equivalent = equivalent
  flip mixed = mixed

  relation_of-flip : (a b : Bool) → relation_of F b a ≡ flip (relation_of F a b)
  relation_of-flip true true = refl
  relation_of-flip true false = refl
  relation_of-flip false true = refl
  relation_of-flip false false = refl

  relation_of-dominates :
      (a b : Bool) → (relation_of F a b ≡ candidate_dominates) ↔ ((a ≡ true) × (b ≡ false))
  relation_of-dominates true true = ground arith
  relation_of-dominates true false = ground arith
  relation_of-dominates false true = ground arith
  relation_of-dominates false false = ground arith

  -- The candidate dominates just when it is better in some metric and the variant in none; and
  -- the relation with the two exchanged is the relation seen from the other side.
  pub pareto_relation-dominates :
      (c v : Quality F)
      → ((pareto_relation F c v ≡ candidate_dominates) ↔ (IsBetter c v × ¬ (IsBetter v c)))
        × (pareto_relation F v c ≡ flip (pareto_relation F c v))
  unfolding pareto_relation
  pareto_relation-dominates c v = (
    (
      (λ h.
          let (a, b) = (relation_of-dominates (is_better F c v) (is_better F v c)).0 h in
          ((is_better_iff c v).0 a, λ k. absurd (cc ((is_better_iff v c).1 k, b)))),
      λ h.
          (relation_of-dominates (is_better F c v) (is_better F v c)).1
            ((is_better_iff c v).1 h.0, not_better (is_better F v c) (is_better_iff v c).0 h.1),
    ),
    relation_of-flip (is_better F c v) (is_better F v c),
  )
    where
      not_better : (b : Bool) → ((b ≡ true) → IsBetter v c) → ¬ (IsBetter v c) → b ≡ false
      not_better false f n = refl
      not_better true f n = absurd (n (f refl))
