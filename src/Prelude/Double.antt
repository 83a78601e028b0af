-- ===== src/Prelude/Double.antt =====
-- Python floats as the program compares them. Every finite double is a whole multiple of
-- 2^-1074, so `finite` holds that multiple and the order is exact; arithmetic is not modelled.
use Prim.Native.Nat.{ℕ, ◌^◌}
use mathlib.Core.Bool.{Bool, true, false}
use attendence_v.Prelude.Tests.{leb, ltb}

-- `negsuc n` is -(n + 1).
pub data ℤ : Type 0 where
  pos : ℕ → ℤ
  negsuc : ℕ → ℤ

pub data Double : Type 0 where
  nan neg_inf pos_inf : Double
  finite : ℤ → Double

abbrev leb_ℤ : ℤ → ℤ → Bool
leb_ℤ (pos a) (pos b) = leb a b
leb_ℤ (pos a) (negsuc b) = false
leb_ℤ (negsuc a) (pos b) = true
leb_ℤ (negsuc a) (negsuc b) = leb b a

-- `a <= b`: no comparison with a NaN holds.
abbrev pub leb_double : Double → Double → Bool
leb_double nan b = false
leb_double neg_inf nan = false
leb_double neg_inf b = true
leb_double pos_inf pos_inf = true
leb_double pos_inf b = false
leb_double (finite a) nan = false
leb_double (finite a) neg_inf = false
leb_double (finite a) pos_inf = true
leb_double (finite a) (finite b) = leb_ℤ a b

-- `a < b`
abbrev pub ltb_double : Double → Double → Bool
ltb_double nan b = false
ltb_double neg_inf nan = false
ltb_double neg_inf neg_inf = false
ltb_double neg_inf b = true
ltb_double pos_inf b = false
ltb_double (finite a) nan = false
ltb_double (finite a) neg_inf = false
ltb_double (finite a) pos_inf = true
ltb_double (finite (pos a)) (finite (pos b)) = ltb a b
ltb_double (finite (pos a)) (finite (negsuc b)) = false
ltb_double (finite (negsuc a)) (finite (pos b)) = true
ltb_double (finite (negsuc a)) (finite (negsuc b)) = ltb b a

-- `0.0`
abbrev pub zero_double : Double
zero_double = finite (pos 0)

-- `1.0`
abbrev pub one_double : Double
one_double = finite (pos (2 ^ 1074))

-- `0.5`
abbrev pub half_double : Double
half_double = finite (pos (2 ^ 1073))

-- `math.isfinite`
abbrev pub is_finite : Double → Bool
is_finite (finite _) = true
is_finite d = false
