-- ===== src/Base/Bits.antt =====
-- The bit operations of Python's non-negative integers at variables: the law of the lowest digit
-- for each, and masks.
use Prim.Native.Nat.{
  ℕ, zero, suc, ◌+◌, ◌-◌, ◌*◌, ◌/◌, ◌%◌, ◌^◌, ◌≤◌, ◌<◌, min, max, bit_and, bit_or, digits, bitwise,
  bit_and-bitwise, bit_or-bitwise,
}
use mathlib.Core.Path.{◌≡◌, refl, ap}
use native.Mathlib.Nat.{pow-suc, div-div-eq-div-mul, mod-eq-sub-mul-div, div-mul-le_self}
use native.Mathlib.Omega.{arith}

module _ (rest : ℕ → ℕ) (op : ℕ → ℕ → ℕ) where
  -- Fuel that covers the left operand can be exchanged.
  exchange_fuel : (x y : ℕ) (i j : ℕ) → x ≤ i → x ≤ j → digits rest op i x y ≡ digits rest op j x y
  exchange_fuel zero y zero zero hi hj = refl
  exchange_fuel zero y zero (suc j) hi hj = refl
  exchange_fuel zero y (suc i) zero hi hj = refl
  exchange_fuel zero y (suc i) (suc j) hi hj = refl
  exchange_fuel (suc x) y zero j hi hj = elim hi [ ]
  exchange_fuel (suc x) y (suc i) zero hi hj = elim hj [ ]
  exchange_fuel (suc x) y (suc i) (suc j) hi hj =
      ap (λ d. d * 2 + op (suc x % 2) (y % 2))
        (exchange_fuel (suc x / 2) (y / 2) i j (omega arith) (omega arith))

  lowest_digit :
      (x y : ℕ)
      → bitwise rest op (suc x) y ≡ bitwise rest op (suc x / 2) (y / 2) * 2 + op (suc x % 2) (y % 2)
  lowest_digit x y =
      ap (λ d. d * 2 + op (suc x % 2) (y % 2))
        (exchange_fuel (suc x / 2) (y / 2) x (suc x / 2) (omega arith) (omega arith))

pub bit_and_digit : (x y : ℕ) → bit_and x y ≡ bit_and (x / 2) (y / 2) * 2 + min (x % 2) (y % 2)
bit_and_digit zero y = simp bit_and-bitwise (omega arith)
bit_and_digit (suc x) y = simp bit_and-bitwise (lowest_digit (λ b. 0) min x y)

pub bit_or_digit : (x y : ℕ) → bit_or x y ≡ bit_or (x / 2) (y / 2) * 2 + max (x % 2) (y % 2)
bit_or_digit zero y = simp bit_or-bitwise (omega arith)
bit_or_digit (suc x) y = simp bit_or-bitwise (lowest_digit (λ b. b) max x y)

-- Division by two falls below any bound on a positive number.
by_halving :
    (P : ℕ → Type 0) → P 0 → ((n : ℕ) → P (suc n / 2) → P (suc n)) → (b n : ℕ) → n ≤ b → P n
by_halving P base step b zero h = base
by_halving P base step zero (suc n) h = elim h [ ]
by_halving P base step (suc b) (suc n) h =
    step n (by_halving P base step b (suc n / 2) (omega arith))

pub bit_and-zero : (x : ℕ) → bit_and x 0 ≡ 0
bit_and-zero x =
    by_halving (λ n. bit_and n 0 ≡ 0) refl (λ n ih. omega (arith, bit_and_digit (suc n) 0)) x x
      (omega arith)

pub bit_or-zero : (x : ℕ) → bit_or x 0 ≡ x
bit_or-zero x =
    by_halving (λ n. bit_or n 0 ≡ n) refl (λ n ih. omega (arith, bit_or_digit (suc n) 0)) x x
      (omega arith)

pub pow-pos : (k : ℕ) → 0 < 2 ^ k
pow-pos zero = omega arith
pow-pos (suc k) = omega (arith, pow-pos k, pow-suc 2 k)

pub mod_double : (a m : ℕ) → 0 < m → a / 2 % m * 2 + a % 2 ≡ a % (2 * m)
mod_double a m h = omega (
  arith,
  ap (λ (q : ℕ). m * q) (div-div-eq-div-mul a 2 m),
  mod-eq-sub-mul-div (a / 2) m,
  mod-eq-sub-mul-div a (2 * m),
  div-mul-le_self (a / 2) m,
)

-- A mask of `k` ones keeps the `k` lowest bits.
pub bit_and_mask : (k a : ℕ) → bit_and a (2 ^ k - 1) ≡ a % 2 ^ k
bit_and_mask zero a = omega (arith, bit_and-zero a)
bit_and_mask (suc k) a = omega (
  arith,
  bit_and_digit a (2 ^ suc k - 1),
  pow-suc 2 k,
  pow-pos k,
  bit_and_mask k (a / 2),
  ap (bit_and (a / 2)) (half_mask k),
  mod_double a (2 ^ k) (pow-pos k),
  ap (λ m. a % m) (double k),
)
  where
    half_mask : (k : ℕ) → (2 ^ suc k - 1) / 2 ≡ 2 ^ k - 1
    half_mask k = omega (arith, pow-suc 2 k, pow-pos k)

    double : (k : ℕ) → 2 ^ suc k ≡ 2 * 2 ^ k
    double k = omega (arith, pow-suc 2 k)
