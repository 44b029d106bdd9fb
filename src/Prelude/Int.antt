-- ===== src/Prelude/Int.antt =====
-- Signed integers over the native numbers, and the quotients of integers that the program computes
-- with as floats.
use Prim.Native.Nat.{ℕ, suc, ◌+◌, ◌-◌, ◌*◌, ◌/◌}
use mathlib.Core.Path.{◌≡◌}
use mathlib.Core.Bool.{Bool, true, false}
use native.Mathlib.Omega.{arith}
use disks.Prelude.Tests.{ltb, leb, eqb, if◌then◌else◌}

-- `negsuc n` is -(n + 1).
pub data ℤ : Type 0 where
  pos : ℕ → ℤ
  negsuc : ℕ → ℤ

abbrev pub pos_part : ℤ → ℕ
pos_part (pos n) = n
pos_part (negsuc n) = 0

abbrev pub neg_part : ℤ → ℕ
neg_part (pos n) = 0
neg_part (negsuc n) = suc n

-- a - b, as an integer
abbrev pub sub_ℕ : ℕ → ℕ → ℤ
sub_ℕ a b = if leb b a then pos (a - b) else negsuc (b - a - 1)

abbrev pub neg : ℤ → ℤ
neg a = sub_ℕ (neg_part a) (pos_part a)

infixl 65 ◌+ℤ◌ ◌-ℤ◌
unfoldable pub ◌+ℤ◌ : ℤ → ℤ → ℤ
a +ℤ b = sub_ℕ (pos_part a + pos_part b) (neg_part a + neg_part b)

unfoldable pub ◌-ℤ◌ : ℤ → ℤ → ℤ
a -ℤ b = sub_ℕ (pos_part a + neg_part b) (neg_part a + pos_part b)

abbrev pub is_zero : ℤ → Bool
is_zero (pos n) = eqb n 0
is_zero (negsuc n) = false

abbrev pub is_negative : ℤ → Bool
is_negative (pos n) = false
is_negative (negsuc n) = true

-- The quotient num / den, with den above 0.
pub record Frac : Type 0 where
  pub num : ℤ
  pub den : ℕ

abbrev pub whole : ℤ → Frac
whole a = record { num = a; den = 1 }

-- `int( x )` drops the fraction, towards 0.
abbrev pub truncate : ℤ → ℕ → ℤ
truncate (pos n) d = pos (n / d)
truncate (negsuc n) d = neg (pos (suc n / d))

unfoldable pub to_int : Frac → ℤ
to_int x = truncate x.num x.den

abbrev pub scale : ℤ → ℕ → ℤ
scale a k = sub_ℕ (pos_part a * k) (neg_part a * k)

-- x > y
unfoldable pub gt_frac : Frac → Frac → Bool
gt_frac x y =
    ltb (pos_part y.num * x.den + neg_part x.num * y.den)
      (pos_part x.num * y.den + neg_part y.num * x.den)

unfoldable pub sub_frac : Frac → Frac → Frac
unfolding ◌-ℤ◌
sub_frac x y = record { num = scale x.num y.den -ℤ scale y.num x.den; den = x.den * y.den }

unfoldable pub neg_frac : Frac → Frac
neg_frac x = record { num = neg x.num; den = x.den }

pub +ℤ_parts :
    (a b : ℤ)
    → pos_part (a +ℤ b) + neg_part a + neg_part b ≡ neg_part (a +ℤ b) + pos_part a + pos_part b
unfolding ◌+ℤ◌
+ℤ_parts a b = ground arith
