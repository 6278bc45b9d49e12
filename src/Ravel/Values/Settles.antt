-- ===== src/Ravel/Values/Settles.antt =====
-- Computations that return, or end in an `EvaluationError` or an `OverflowError`, but in no other
-- exception.
use mncs_reference_studies.Common.{
  ℕ, String, Bool, true, false, ◌≡◌, refl, subst, sym, inl, inr, Bool-cases, some, List, [], ◌∷◌,
  ◌==◌, string_eq,
}
use mncs_reference_studies.Common.Int.{pos}
use mncs_reference_studies.Common.Result.{ok, raise, ◌>>=◌, ◌>>◌}
use mncs_reference_studies.Common.Sets.{contains}
use mncs_reference_studies.Dict.{lookup, keys}
use mncs_reference_studies.Ravel.Values.{
  Outcome, Object, evaluation_error, key_error, type_error, zero_division, overflow_error,
  value_error, reject_if, int_at,
}
use mncs_reference_studies.Ravel.Values.Checked.{HasNatural, int_at-natural}

unfoldable pub Settles {ℓ} : {A : Type ℓ} → Outcome A → Type 0
Settles (ok a) = Unit
Settles (raise (evaluation_error message)) = Unit
Settles (raise overflow_error) = Unit
Settles (raise _) = ⊥

pub >>=-Settles {ℓ κ} :
    {A : Type ℓ} {B : Type κ} (first : Outcome A) (next : A → Outcome B)
    → Settles first
    → ((a : A) → first ≡ ok a → Settles (next a))
    → Settles (first >>= next)
unfolding Settles
>>=-Settles (ok a) next s h = h a refl
>>=-Settles (raise (evaluation_error message)) next s h = tt
>>=-Settles (raise (key_error k)) next s h = elim s [ ]
>>=-Settles (raise type_error) next s h = elim s [ ]
>>=-Settles (raise zero_division) next s h = elim s [ ]
>>=-Settles (raise overflow_error) next s h = tt
>>=-Settles (raise value_error) next s h = elim s [ ]

pub returned-Settles {ℓ} : {A : Type ℓ} (a : A) → Settles {A = A} (ok a)
unfolding Settles
returned-Settles a = tt

-- A computation that is known to return.
pub ok-Settles {ℓ κ} :
    {A : Type ℓ} {B : Type κ} (first : Outcome A) (next : A → Outcome B) (a : A)
    → first ≡ ok a
    → Settles (next a)
    → Settles (first >>= next)
ok-Settles first next a e s = subst (λ r. Settles (r >>= next)) (sym e) s

-- A check, whose failure is an `EvaluationError`; what follows it may use that the check went well.
pub guard-Settles {ℓ} :
    {A : Type ℓ} (b : Bool) (message : String) (next : Outcome A)
    → (b ≡ false → Settles next)
    → Settles (reject_if b message >> next)
unfolding Settles
guard-Settles true message next s = tt
guard-Settles false message next s = s refl

pub reject_if-Settles {ℓ} :
    {A : Type ℓ} (b : Bool) (message : String) (next : Outcome A)
    → Settles next
    → Settles (reject_if b message >> next)
reject_if-Settles b message next s = guard-Settles b message next (λ h. s)

pub int_at-Settles {ℓ} :
    {N : Type 0} {A : Type ℓ} (k : String) (o : Object N) (next : _ → Outcome A)
    → HasNatural o k
    → ((n : ℕ) → Settles (next (pos n)))
    → Settles (int_at k o >>= next)
int_at-Settles k o next (n, e) s =
    ok-Settles (int_at k o) next (pos n) (int_at-natural k o n e) (s n)

pub lookup-known {κ} :
    {V : Type κ} (k : String) (m : List (String × V))
    → contains k (keys m) ≡ true
    → (v : V) × (lookup k m ≡ some v)
unfolding contains keys lookup
lookup-known k [] h = absurd (cc)
lookup-known k ((j, v) ∷ m) h = elim (Bool-cases (j == k)) [
  | inl same ↦ (v, rw same refl)
  | inr other ↦ let (w, e) = lookup-known k m (rw other at h) in (w, rw other e)
]
