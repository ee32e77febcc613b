-- ===== src/Tests/Thousandths.antt =====
-- Numbers of three decimals in the place of floats.
use native.Mathlib.Nat.{div-le_of_le-mul}
use sovalune_core.Common.{ℕ, zero, suc, ◌+◌, ◌-◌, ◌*◌, ◌/◌, ◌≤◌, min, max, ltb, leb, arith}
use sovalune_core.Float.{Float, FloatLaws}

abbrev power : ℕ → ℕ → ℕ
power x zero = 1000
power x (suc n) = x * power x n / 1000

-- fixed point, in thousandths
abbrev pub thousandths : Float
thousandths = record {
  F = ℕ;
  of_ℕ = λ n. n * 1000;
  ratio = λ n d. n * 1000 / d;
  add = λ x y. x + y;
  sub = λ x y. x - y;
  mul = λ x y. x * y / 1000;
  div = λ x y. x * 1000 / y;
  minf = min;
  maxf = max;
  powi = power;
  to_u64 = λ x. x / 1000;
  lt = ltb;
  ge = λ x y. leb y x;
}

pub mul_le : (x y z : ℕ) → x ≤ y → x * z / 1000 ≤ y * z / 1000
mul_le x y z h = let k : x * z ≤ y * z = grind arith in omega (arith, k)

unfoldable pub thousandths_laws : FloatLaws thousandths
thousandths_laws = record {
  LeF = λ x y. x ≤ y;
  trans = λ h k. omega (arith, h, k);
  refl_le = λ x. omega arith;
  min_right = λ x y. omega arith;
  min_nonneg = λ h k. omega arith;
  max_mono = λ h. omega (arith, h);
  add_mono = λ h k. omega (arith, h, k);
  sub_mono = λ h. omega (arith, h);
  mul_mono = λ {x} {y} {z} _ h. mul_le x y z h;
  mul_nonneg = λ h k. omega arith;
  powi_nonneg = λ n h. omega arith;
  of_ℕ_nonneg = λ n. omega arith;
  div_le_one = λ n m h. div-le_of_le-mul (m * 1000) (omega (arith, h));
  centred = omega arith;
  one_mul = λ x. omega arith;
  to_u64_mono = λ h. omega (arith, h);
}
