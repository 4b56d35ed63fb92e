-- ===== src/Base/Bytes.antt =====
-- Texts: a `std::string` and a `char` array are lists of bytes.
use Prim.Native.Char.{code}
use Prim.Native.String.{String}
use Prim.Native.Nat.{ℕ, zero, suc, ◌-◌, ◌≤◌}
use mathlib.Core.Path.{◌≡◌, refl}
use mathlib.Core.Logic.{◌↔◌, ◌≢◌}
use mathlib.Core.Bool.{Bool, true, false, ◌&&◌}
use mathlib.Core.List.{List, [], ◌∷◌}
use native.Mathlib.Omega.{arith}
use ultra_mds.Base.Tests.{ltb, leb, ◌==◌, if◌then◌else◌}
use ultra_mds.Base.Lists.{length, All}
use ultra_mds.Base.Int.{ℤ, pos, negsuc}

abbrev pub Bytes : Type 0
Bytes = List ℕ

-- The bytes of an ASCII literal.
abbrev pub bytes : String → Bytes
bytes String.[] = []
bytes (String.◌∷◌ c s) = code c ∷ bytes s

-- `==` of `std::string`.
unfoldable pub same : Bytes → Bytes → Bool
same [] [] = true
same (a ∷ xs) (b ∷ ys) = a == b && same xs ys
same _ _ = false

pub same_refl : (xs : Bytes) → same xs xs ≡ true
unfolding same
same_refl [] = refl
same_refl (x ∷ xs) = ground (arith, same_refl xs)

pub eq_of_same : (xs ys : Bytes) → same xs ys ≡ true → xs ≡ ys
unfolding same
eq_of_same [] [] h = refl
eq_of_same [] (y ∷ ys) h = cc
eq_of_same (x ∷ xs) [] h = cc
eq_of_same (x ∷ xs) (y ∷ ys) h = ground (arith, eq_of_same xs ys)

pub same_iff : (xs ys : Bytes) → (same xs ys ≡ true) ↔ (xs ≡ ys)
same_iff xs ys = (eq_of_same xs ys, λ e. rw e (same_refl ys))

-- `std::string(p, strnlen(p, n))`: at most n bytes, up to the first NUL.
unfoldable pub c_string : ℕ → Bytes → Bytes
c_string zero s = []
c_string (suc n) [] = []
c_string (suc n) (c ∷ s) = if c == 0 then [] else c ∷ c_string n s

pub length-c_string : (n : ℕ) (s : Bytes) → length (c_string n s) ≤ n
unfolding c_string
length-c_string zero s = omega arith
length-c_string (suc n) [] = omega arith
length-c_string (suc n) (c ∷ s) = ground (arith, length-c_string n s)

pub c_string_no_nul : (n : ℕ) (s : Bytes) → All (λ c. c ≢ 0) (c_string n s)
unfolding c_string
c_string_no_nul zero s = tt
c_string_no_nul (suc n) [] = tt
c_string_no_nul (suc n) (c ∷ s) = ground (arith, c_string_no_nul n s)

-- A `char` read as an `int`: signed, as on the x86 Linux target.
abbrev pub signed_char : ℕ → ℤ
signed_char b = if ltb b 128 then pos b else negsuc (256 - b - 1)

abbrev pub is_digit : ℕ → Bool
is_digit b = leb b'0' b && leb b b'9'
