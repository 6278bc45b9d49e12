-- ===== src/Ravel/Trials/Rates.antt =====
-- The rates, errors and ratios that the metrics of a trial divide for, where the guards of the code hold.
use mncs_reference_studies.Common.{
  ℕ, Bool, if◌then◌else◌, some, ◌*◌, arith, false, sym, subst, inl, inr, Bool-cases, String, true,
  ◌≡◌, refl, ◌==◌, string_eq,
}
use mncs_reference_studies.Common.Int.{ℤ, pos, ◌*ℤ◌, int_eq}
use mncs_reference_studies.Common.Result.{ok, raise, ◌>>=◌}
use mncs_reference_studies.Python.Floats.{Floats, max_float}
use mncs_reference_studies.Ravel.Values.{
  Outcome, Object, evaluation_error, key_error, type_error, zero_division, overflow_error,
  value_error, int_at,
}
use mncs_reference_studies.Ravel.Arithmetic.{zero_float, quotient, divide, square_root}
use mncs_reference_studies.Ravel.Arithmetic.Partial.{
  IsPositiveSafe, positive-nonzero, max-nonzero, to_float-Settles, quotient-Settles, divide-Settles,
  square_root-Settles,
}
use mncs_reference_studies.Ravel.Values.Checked.{HasNatural}
use mncs_reference_studies.Ravel.Values.Settles.{
  Settles, returned-Settles, >>=-Settles, int_at-Settles,
}
use mncs_reference_studies.Ravel.Metrics.{
  q20_scale, dimensions, rmse, rmse_or_infinity, rate_or_zero, headroom_improvement, work_ratio,
}

-- A computation by itself, from what follows it.
alone {ℓ} : {A : Type ℓ} (r : Outcome A) → Settles (r >>= λ x. ok x) → Settles r
unfolding Settles
alone (ok a) s = tt
alone (raise (evaluation_error message)) s = tt
alone (raise (key_error k)) s = s
alone (raise type_error) s = s
alone (raise zero_division) s = s
alone (raise overflow_error) s = tt
alone (raise value_error) s = s

if-Settles {ℓ κ} :
    {A : Type ℓ} {B : Type κ} (b : Bool) (first second : Outcome A) (next : A → Outcome B)
    → (b ≡ true → Settles (first >>= next))
    → (b ≡ false → Settles (second >>= next))
    → Settles ((if b then first else second) >>= next)
if-Settles true first second next s t = s refl
if-Settles false first second next s t = t refl

terms-pos : (n : ℕ) → pos n *ℤ dimensions ≡ pos (n * 8)
unfolding ◌*ℤ◌
terms-pos n = ground arith

pub not_zero : (n : ℕ) → (pos n == pos 0) ≡ false → ¬ (n ≡ 0)
not_zero n h e = ground (arith, h, e)

module _ (F : Floats) (laws : IsPositiveSafe F) where
  pub rmse-Settles {ℓ} :
      {A : Type ℓ} (sse n : ℕ) (next : F.Float → Outcome A)
      → ¬ (n ≡ 0)
      → ((x : F.Float) → Settles (next x))
      → Settles (rmse F (pos sse) (pos n) >>= next)
  unfolding rmse
  rmse-Settles sse n next some_terms s =
      >>=-Settles (rmse F (pos sse) (pos n)) next
        (quotient-Settles F (pos sse) q20_scale _ refl λ total e.
          to_float-Settles F (pos n *ℤ dimensions) _ λ terms e'.
            let above =
              laws.float_positive (n * 8) terms (λ h. some_terms (omega (arith, h)))
                (subst (λ k. F.float_of k ≡ some terms) (terms-pos n) e') in
            divide-Settles F total terms _ (positive-nonzero F terms laws above) λ mean e''.
              alone (square_root F mean) (
                square_root-Settles F mean (λ x. ok x)
                  (subst (λ x. F.lt x (zero_float F) ≡ false) (sym e'')
                    (laws.div_not_below total terms
                      (laws.ratio_not_below sse 1048576 total (λ h. omega (arith, h)) e) above))
                  λ x. returned-Settles x))
        (λ x e. s x)

  pub rmse_or_infinity-Settles {ℓ} :
      {A : Type ℓ} (k : String) (o : Object F.Float) (n : ℕ) (next : F.Float → Outcome A)
      → HasNatural o k
      → ((x : F.Float) → Settles (next x))
      → Settles (rmse_or_infinity F k o (pos n) >>= next)
  unfolding rmse_or_infinity
  rmse_or_infinity-Settles k o n next has s =
      if-Settles (pos n == pos 0) (ok F.infinity) _ next (λ none'. s F.infinity)
        λ some'.
          >>=-Settles (int_at k o >>= λ sse. rmse F sse (pos n)) next
            (int_at-Settles k o (λ sse. rmse F sse (pos n)) has
              λ sse.
                alone (rmse F (pos sse) (pos n))
                  (rmse-Settles sse n (λ x. ok x) (not_zero n some') λ x. returned-Settles x))
            (λ x e. s x)

  pub rate_or_zero-Settles {ℓ} :
      {A : Type ℓ} (k : String) (o : Object F.Float) (n : ℕ) (next : F.Float → Outcome A)
      → HasNatural o k
      → ((x : F.Float) → Settles (next x))
      → Settles (rate_or_zero F k o (pos n) >>= next)
  unfolding rate_or_zero
  rate_or_zero-Settles k o n next has s =
      if-Settles (pos n == pos 0) (ok (F.tenths 0)) _ next (λ none'. s (F.tenths 0))
        λ some'.
          >>=-Settles (int_at k o >>= λ part. quotient F part (pos n)) next
            (int_at-Settles k o (λ part. quotient F part (pos n)) has
              λ part.
                alone (quotient F (pos part) (pos n)) (
                  quotient-Settles F (pos part) (pos n) (λ x. ok x) some'
                    λ x e. returned-Settles x))
            (λ x e. s x)

  pub headroom_improvement-Settles {ℓ} :
      {A : Type ℓ} (adapted static : F.Float) (next : F.Float → Outcome A)
      → ((x : F.Float) → Settles (next x))
      → Settles (headroom_improvement F adapted static >>= next)
  unfolding headroom_improvement
  headroom_improvement-Settles adapted static next s =
      elim (Bool-cases (F.le (F.sub (F.tenths 10) static) (F.tenths 0))) [
        | inl small ↦ rw small (s _)
        | inr large ↦ rw large (s _)
      ]

  pub work_ratio-Settles {ℓ} :
      {A : Type ℓ} (a b : ℤ) (next : F.Float → Outcome A)
      → ((x : F.Float) → Settles (next x))
      → Settles (work_ratio F a b >>= next)
  unfolding work_ratio
  work_ratio-Settles a b next s =
      >>=-Settles (work_ratio F a b) next
        (to_float-Settles F a _ λ work e. to_float-Settles F b _ λ base e'.
          alone (divide F work (max_float F base (F.tenths 10))) (
            divide-Settles F work (max_float F base (F.tenths 10)) (λ x. ok x)
              (max-nonzero F base (F.tenths 10) laws laws.one_positive)
              λ z e''. returned-Settles z))
        (λ x e. s x)
