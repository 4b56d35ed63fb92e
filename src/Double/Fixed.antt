-- ===== src/Double/Fixed.antt =====
-- An instance of the interface for the tests: NaN, or a multiple of 1e-8.
use ultra_mds.Base.{ℕ, ◌+◌, ◌*◌, ◌/◌, ◌^◌, Bool, true, false, not, arith}
use ultra_mds.Base.Int.{ℤ, pos, negsuc, pos_part, neg_part, sub_ℕ, ltb_ℤ, eq_ℤ}
use ultra_mds.Double.{Double, IsDouble}

pub data Fixed : Type 0 where
  not_a_number : Fixed
  units : ℤ → Fixed

abbrev unit : ℕ
unit = 10 ^ 8

abbrev pub whole : ℤ → Fixed
whole (pos n) = units (pos (n * unit))
whole (negsuc n) = units (negsuc (n * unit + 99_999_999))

abbrev scaled : ℤ → ℤ → ℤ
scaled a b =
    sub_ℕ ((pos_part a * pos_part b + neg_part a * neg_part b) / unit)
      ((pos_part a * neg_part b + neg_part a * pos_part b) / unit)

abbrev plus : ℤ → ℤ → ℤ
plus a b = sub_ℕ (pos_part a + pos_part b) (neg_part a + neg_part b)

abbrev minus : ℤ → ℤ → ℤ
minus a b = sub_ℕ (pos_part a + neg_part b) (neg_part a + pos_part b)

abbrev on_units : (ℤ → ℤ → ℤ) → Fixed → Fixed → Fixed
on_units f (units a) (units b) = units (f a b)
on_units f _ _ = not_a_number

abbrev compared : (ℤ → ℤ → Bool) → Fixed → Fixed → Bool
compared f (units a) (units b) = f a b
compared f _ _ = false

abbrev is_not_a_number : Fixed → Bool
is_not_a_number not_a_number = true
is_not_a_number (units _) = false

instance abbrev pub fixed_double : Double Fixed
fixed_double = record {
  nought = units (pos 0);
  one = whole (pos 1);
  default_ratio = units (pos 10_000);
  epsilon = units (pos 1);
  dbl_max = units (pos (10 ^ 40));
  of_int = whole;
  is_nan = is_not_a_number;
  is_inf = λ _. false;
  lt = compared ltb_ℤ;
  le = compared (λ a b. not (ltb_ℤ b a));
  eq = compared eq_ℤ;
  add = on_units plus;
  sub = on_units minus;
  mul = on_units scaled;
}

pub Fixed-IsDouble : IsDouble Fixed
Fixed-IsDouble = ground arith
