-- ===== src/Ravel/Arithmetic/Partial.antt =====
-- When the arithmetic raises nothing but an OverflowError.
use mncs_reference_studies.Common.{
  ℕ, true, false, ◌≡◌, refl, ◌==◌, inl, inr, Bool-cases, Option, none, some,
}
use mncs_reference_studies.Common.Int.{ℤ, pos, int_eq}
use mncs_reference_studies.Common.Result.{◌>>=◌}
use mncs_reference_studies.Python.Floats.{Floats, eq_float, max_float}
use mncs_reference_studies.Ravel.Values.{Outcome}
use mncs_reference_studies.Ravel.Values.Settles.{Settles}
use mncs_reference_studies.Ravel.Arithmetic.{
  zero_float, or_overflow, to_float, quotient, divide, square_root,
}

module _ (F : Floats) where
  -- What IEEE floats promise of positive numbers and of zero.
  pub record IsPositiveSafe : Type 0 where
    pub above : (a b : F.Float) → F.lt a b ≡ true → F.le b a ≡ false
    pub zero_below :
        (b t : F.Float)
        → eq_float F b (zero_float F) ≡ true
        → F.lt (zero_float F) t ≡ true
        → F.lt b t ≡ true
    pub tiny_positive : F.lt (zero_float F) F.tiny ≡ true
    pub one_positive : F.lt (zero_float F) (F.tenths 10) ≡ true
    pub float_positive :
        (n : ℕ) (x : F.Float)
        → ¬ (n ≡ 0)
        → F.float_of (pos n) ≡ some x
        → F.lt (zero_float F) x ≡ true
    pub ratio_not_below :
        (m n : ℕ) (x : F.Float)
        → ¬ (n ≡ 0)
        → F.ratio (pos m) (pos n) ≡ some x
        → F.lt x (zero_float F) ≡ false
    pub div_not_below :
        (x y : F.Float)
        → F.lt x (zero_float F) ≡ false
        → F.lt (zero_float F) y ≡ true
        → F.lt (F.div x y) (zero_float F) ≡ false

  pub positive-nonzero :
      (x : F.Float)
      → IsPositiveSafe
      → F.lt (zero_float F) x ≡ true
      → eq_float F x (zero_float F) ≡ false
  positive-nonzero x laws h = rw (laws.above (zero_float F) x h) refl

  pub max-nonzero :
      (b t : F.Float)
      → IsPositiveSafe
      → F.lt (zero_float F) t ≡ true
      → eq_float F (max_float F b t) (zero_float F) ≡ false
  max-nonzero b t laws h = elim (Bool-cases (F.lt b t)) [
    | inl less ↦ rw less (positive-nonzero t laws h)
    | inr more ↦ rw more (elim (Bool-cases (eq_float F b (zero_float F))) [
      | inl same ↦ absurd (cc (laws.zero_below b t same h, more))
      | inr other ↦ other
    ])
  ]

  or_overflow-Settles {ℓ} :
      {A : Type ℓ} (o : Option F.Float) (next : F.Float → Outcome A)
      → ((x : F.Float) → o ≡ some x → Settles (next x))
      → Settles (or_overflow F o >>= next)
  unfolding Settles
  or_overflow-Settles none next s = tt
  or_overflow-Settles (some x) next s = s x refl

  pub to_float-Settles {ℓ} :
      {A : Type ℓ} (n : ℤ) (next : F.Float → Outcome A)
      → ((x : F.Float) → F.float_of n ≡ some x → Settles (next x))
      → Settles (to_float F n >>= next)
  to_float-Settles n next s = or_overflow-Settles (F.float_of n) next s

  pub quotient-Settles {ℓ} :
      {A : Type ℓ} (a b : ℤ) (next : F.Float → Outcome A)
      → (b == pos 0) ≡ false
      → ((x : F.Float) → F.ratio a b ≡ some x → Settles (next x))
      → Settles (quotient F a b >>= next)
  quotient-Settles a b next h s = rw h (or_overflow-Settles (F.ratio a b) next s)

  pub divide-Settles {ℓ} :
      {A : Type ℓ} (x y : F.Float) (next : F.Float → Outcome A)
      → eq_float F y (zero_float F) ≡ false
      → ((z : F.Float) → z ≡ F.div x y → Settles (next z))
      → Settles (divide F x y >>= next)
  divide-Settles x y next h s = rw h (s (F.div x y) refl)

  pub square_root-Settles {ℓ} :
      {A : Type ℓ} (x : F.Float) (next : F.Float → Outcome A)
      → F.lt x (zero_float F) ≡ false
      → ((z : F.Float) → Settles (next z))
      → Settles (square_root F x >>= next)
  square_root-Settles x next h s = rw h (s (F.sqrt x))
