-- ===== src/Python/Tenths.antt =====
-- Numbers in tenths in place of floats, for runs of the models.
use mncs_reference_studies.Common.{◌*◌, ◌/◌, true, some, arith}
use mncs_reference_studies.Common.Int.{ℤ, pos, ◌+ℤ◌, ◌-ℤ◌, ◌*ℤ◌, ltb_ℤ, leb_ℤ}
use mncs_reference_studies.Python.Floats.{Floats, IsAsymmetric}

abbrev pub mul_tenths : ℤ → ℤ → ℤ
mul_tenths (pos a) (pos b) = pos (a * b / 10)
mul_tenths a b = a *ℤ b

abbrev pub div_tenths : ℤ → ℤ → ℤ
div_tenths (pos a) (pos b) = pos (a * 10 / b)
div_tenths a b = a

abbrev pub fixed : Floats
fixed = record {
  Float = ℤ;
  lt = ltb_ℤ;
  le = leb_ℤ;
  add = ◌+ℤ◌;
  sub = ◌-ℤ◌;
  mul = mul_tenths;
  div = div_tenths;
  of_int = λ n. n *ℤ pos 10;
  tenths = pos;
  hundredths = λ n. pos (n / 10);
  sqrt = λ a. a;
  float_of = λ n. some (n *ℤ pos 10);
  ratio = λ a b. some (div_tenths (a *ℤ pos 10) (b *ℤ pos 10));
  int_le = λ n x. leb_ℤ (n *ℤ pos 10) x;
  le_int = λ x n. leb_ℤ x (n *ℤ pos 10);
  int_lt = λ n x. ltb_ℤ (n *ℤ pos 10) x;
  lt_int = λ x n. ltb_ℤ x (n *ℤ pos 10);
  tiny = pos 1;
  infinity = pos 1000000;
  is_finite = λ x. true;
}

pub fixed-IsAsymmetric : IsAsymmetric fixed
fixed-IsAsymmetric a b h = ground arith
