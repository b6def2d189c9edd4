-- ===== src/Base/Twos.antt =====
-- The bit operations of Python's integers, which are two's complement numbers of any length, and
-- the laws that reduce them to divisions and remainders.
use Prim.Native.Nat.{ℕ, suc, ◌-◌, ◌*◌, ◌/◌, ◌%◌, ◌^◌, ◌<◌, bit_and, bit_or, bit_xor}
use mathlib.Core.Path.{◌≡◌, ap, ◌∙◌}
use native.Mathlib.Omega.{arith}
use native.Mathlib.Nat.{mod-eq_of_lt}
use cle.Base.Splits.{bit_and_low, bit_and_complement}
use cle.Base.Bits.{bit_and_mask, pow-pos}
use cle.Base.Int.{ℤ, pos, negsuc}

infixl 45 ◌&ℤ◌
infixl 42 ◌^ℤ◌
infixl 40 ◌|ℤ◌
infixl 60 ◌>>ℤ◌ ◌<<ℤ◌
infixl 70 ◌%ℤ◌
unfoldable pub ◌&ℤ◌ : ℤ → ℤ → ℤ
pos a &ℤ pos b = pos (bit_and a b)
pos a &ℤ negsuc b = pos (a - bit_and a b)
negsuc a &ℤ pos b = pos (b - bit_and a b)
negsuc a &ℤ negsuc b = negsuc (bit_or a b)

unfoldable pub ◌|ℤ◌ : ℤ → ℤ → ℤ
pos a |ℤ pos b = pos (bit_or a b)
pos a |ℤ negsuc b = negsuc (b - bit_and b a)
negsuc a |ℤ pos b = negsuc (a - bit_and a b)
negsuc a |ℤ negsuc b = negsuc (bit_and a b)

unfoldable pub ◌^ℤ◌ : ℤ → ℤ → ℤ
pos a ^ℤ pos b = pos (bit_xor a b)
pos a ^ℤ negsuc b = negsuc (bit_xor a b)
negsuc a ^ℤ pos b = negsuc (bit_xor a b)
negsuc a ^ℤ negsuc b = pos (bit_xor a b)

unfoldable pub bit_not_ℤ : ℤ → ℤ
bit_not_ℤ (pos a) = negsuc a
bit_not_ℤ (negsuc a) = pos a

unfoldable pub ◌>>ℤ◌ : ℤ → ℕ → ℤ
pos a >>ℤ k = pos (a / 2 ^ k)
negsuc a >>ℤ k = negsuc (a / 2 ^ k)

unfoldable pub ◌<<ℤ◌ : ℤ → ℕ → ℤ
pos a <<ℤ k = pos (a * 2 ^ k)
negsuc a <<ℤ k = negsuc (suc a * 2 ^ k - 1)

-- The remainder by a positive number, which is never negative.
unfoldable pub ◌%ℤ◌ : ℤ → ℕ → ℕ
pos a %ℤ m = a % m
negsuc a %ℤ m = m - 1 - a % m

pub %ℤ-lt : (x : ℤ) (m : ℕ) → 0 < m → x %ℤ m < m
unfolding ◌%ℤ◌
%ℤ-lt (pos a) m h = grind arith
%ℤ-lt (negsuc a) m h = omega arith

-- A mask below `2 ^ k` sees the remainder only.
pub &ℤ_low : (k : ℕ) (x : ℤ) (m : ℕ) → m < 2 ^ k → x &ℤ pos m ≡ pos (bit_and (x %ℤ 2 ^ k) m)
unfolding ◌&ℤ◌ ◌%ℤ◌
&ℤ_low k (pos a) m h = ap pos (bit_and_low k a m h)
&ℤ_low k (negsuc a) m h =
    let small : a % 2 ^ k < 2 ^ k = %ℤ-lt (pos a) (2 ^ k) (pow-pos k) in
    let e : m - bit_and a m ≡ bit_and (2 ^ k - 1 - a % 2 ^ k) m =
      omega (arith, bit_and_complement k (a % 2 ^ k) m small h, bit_and_low k a m h) in
    ap pos e

-- A mask of `k` ones takes the remainder.
pub &ℤ_mask : (k : ℕ) (x : ℤ) → x &ℤ pos (2 ^ k - 1) ≡ pos (x %ℤ 2 ^ k)
&ℤ_mask k x =
    &ℤ_low k x (2 ^ k - 1) (omega (arith, pow-pos k))
    ∙ ap pos (bit_and_mask k (x %ℤ 2 ^ k) ∙ mod-eq_of_lt (%ℤ-lt x (2 ^ k) (pow-pos k)))
