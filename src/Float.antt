-- ===== src/Float.antt =====
-- IEEE floats: the type and the operations that the crates use, as a parameter of the functions that
-- compute with `f32` or `f64`, and the laws that rounding keeps.
use sovalune_core.Common.{ℕ, ◌≤◌, Bool}

pub record Float : Type 1 where
  pub F : Type 0
  -- `n as f64`
  pub of_ℕ : ℕ → F
  -- the literal `n / d`
  pub ratio : ℕ → ℕ → F
  pub add : F → F → F
  pub sub : F → F → F
  pub mul : F → F → F
  pub div : F → F → F
  pub minf : F → F → F
  pub maxf : F → F → F
  -- `x.powi(n as i32)`
  pub powi : F → ℕ → F
  -- `x as u64`, which saturates
  pub to_u64 : F → ℕ
  -- `x < y` and `x >= y`
  pub lt : F → F → Bool
  pub ge : F → F → Bool

-- What holds of finite values: the operations are monotone, since rounding is.
module _ (fl : Float) where
  open fl use {F, of_ℕ, add, sub, mul, div, minf, maxf, powi, to_u64}

  pub record FloatLaws : Type 1 where
    pub LeF : F → F → Type 0
    pub trans : {x y z : F} → LeF x y → LeF y z → LeF x z
    pub refl_le : (x : F) → LeF x x
    pub min_right : (x y : F) → LeF (minf x y) y
    pub min_nonneg : {x y : F} → LeF (of_ℕ 0) x → LeF (of_ℕ 0) y → LeF (of_ℕ 0) (minf x y)
    pub max_mono : {x y z : F} → LeF x y → LeF (maxf x z) (maxf y z)
    pub add_mono : {x y z w : F} → LeF x y → LeF z w → LeF (add x z) (add y w)
    pub sub_mono : {x y z : F} → LeF x y → LeF (sub x z) (sub y z)
    pub mul_mono : {x y z : F} → LeF (of_ℕ 0) z → LeF x y → LeF (mul x z) (mul y z)
    pub mul_nonneg : {x y : F} → LeF (of_ℕ 0) x → LeF (of_ℕ 0) y → LeF (of_ℕ 0) (mul x y)
    pub powi_nonneg : {x : F} (n : ℕ) → LeF (of_ℕ 0) x → LeF (of_ℕ 0) (powi x n)
    pub of_ℕ_nonneg : (n : ℕ) → LeF (of_ℕ 0) (of_ℕ n)
    pub div_le_one : (n m : ℕ) → n ≤ m → LeF (div (of_ℕ n) (of_ℕ m)) (of_ℕ 1)
    -- 1 * 2 - 1 is 1, exactly, and 1 * x is x
    pub centred : LeF (sub (mul (of_ℕ 1) (of_ℕ 2)) (of_ℕ 1)) (of_ℕ 1)
    pub one_mul : (x : F) → LeF (mul (of_ℕ 1) x) x
    pub to_u64_mono : {x y : F} → LeF x y → to_u64 x ≤ to_u64 y
