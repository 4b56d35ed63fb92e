-- ===== src/Double.antt =====
-- All that the code does with a `double`, as an interface: the constants, the IEEE comparisons and
-- the operations that occur in it. `x > y` of the code is `lt y x`.
pub mod Fixed
use ultra_mds.Base.{◌≡◌, Bool, true, false, not}
use ultra_mds.Base.Int.{ℤ}

pub record Double (W : Type 0) : Type 0 where
  pub nought : W
  pub one : W
  pub default_ratio : W
  pub epsilon : W
  pub dbl_max : W
  pub of_int : ℤ → W
  pub is_nan : W → Bool
  pub is_inf : W → Bool
  pub lt : W → W → Bool
  pub le : W → W → Bool
  pub eq : W → W → Bool
  pub add : W → W → W
  pub sub : W → W → W
  pub mul : W → W → W

-- What IEEE 754 says of the comparisons and the program's proofs rely on.
pub record IsDouble (W : Type 0) ⦃d : Double W⦄ : Type 0 where
  pub le_refl : (x : W) → d.is_nan x ≡ false → d.le x x ≡ true
  pub le_trans : (x y z : W) → d.le x y ≡ true → d.le y z ≡ true → d.le x z ≡ true
  pub le_of_not_lt :
      (x y : W) → d.is_nan x ≡ false → d.is_nan y ≡ false → d.lt y x ≡ false → d.le x y ≡ true
  pub one_pos : d.le d.one d.nought ≡ false
