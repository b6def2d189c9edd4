-- ===== src/Base/Splits.antt =====
-- Bit operations on numbers cut in two at a bit position, which reduce a mask with several ranges of
-- ones to divisions and remainders.
use cle.Base.Bits.{bit_and_digit, bit_or_digit, bit_and-zero, bit_or-zero, pow-pos, mod_double}
use Prim.Native.Nat.{
  ℕ, zero, suc, ◌+◌, ◌-◌, ◌*◌, ◌/◌, ◌%◌, ◌^◌, ◌<◌, min, max, bit_and, bit_or, bit_or-bitwise,
}
use mathlib.Core.Path.{◌≡◌, ap, sym, ◌∙◌}
use native.Mathlib.Nat.{pow-suc, div-div-eq-div-mul, mod-eq-sub-mul-div, div-mul-le_self}
use native.Mathlib.Omega.{arith}

double_sum : (k h b : ℕ) → h * 2 ^ suc k + b ≡ 2 * (h * 2 ^ k) + b
double_sum k h b = rw (pow-suc 2 k) (grind arith)

half_sum : (k h b : ℕ) → (h * 2 ^ suc k + b) / 2 ≡ h * 2 ^ k + b / 2
half_sum k h b = rw (double_sum k h b) (omega arith)

parity_sum : (k h b : ℕ) → (h * 2 ^ suc k + b) % 2 ≡ b % 2
parity_sum k h b = rw (double_sum k h b) (omega arith)

double : (k : ℕ) → 2 ^ suc k ≡ 2 * 2 ^ k
double k = omega (arith, pow-suc 2 k)

div_double : (k x : ℕ) → x / 2 / 2 ^ k ≡ x / 2 ^ suc k
div_double k x = div-div-eq-div-mul x 2 (2 ^ k) ∙ ap (λ m. x / m) (sym (double k))

-- The lower part of a number, and its last digit.
low_part : (k x : ℕ) → x / 2 % 2 ^ k * 2 + x % 2 ≡ x % 2 ^ suc k
low_part k x = mod_double x (2 ^ k) (pow-pos k) ∙ ap (λ m. x % m) (sym (double k))

low_half : (k x : ℕ) → x % 2 ^ suc k / 2 ≡ x / 2 % 2 ^ k
low_half k x = omega (arith, low_part k x)

low_parity : (k x : ℕ) → x % 2 ^ suc k % 2 ≡ x % 2
low_parity k x = omega (arith, low_part k x)

pub bit_and_split :
    (k x h b : ℕ)
    → b < 2 ^ k
    → bit_and x (h * 2 ^ k + b) ≡ bit_and (x / 2 ^ k) h * 2 ^ k + bit_and (x % 2 ^ k) b
bit_and_split zero x h b l =
    let whole : h * 2 ^ 0 + b ≡ h = omega arith in
    let a : b ≡ 0 = omega arith in
    let one : x / 2 ^ 0 ≡ x = omega arith in
    rw (whole, a, one) (omega (arith, bit_and-zero (x % 2 ^ 0)))
bit_and_split (suc k) x h b l =
    bit_and_digit x (h * 2 ^ suc k + b)
    ∙ rw
        (
          half_sum k h b,
          parity_sum k h b,
          bit_and_split k (x / 2) h (b / 2) (omega (arith, pow-suc 2 k)),
          div_double k x,
          bit_and_digit (x % 2 ^ suc k) b,
          low_half k x,
          low_parity k x,
          double_sum k (bit_and (x / 2 ^ suc k) h)
              (bit_and (x / 2 % 2 ^ k) (b / 2) * 2 + min (x % 2) (b % 2)),
        )
        (omega arith)

pub bit_or_split :
    (k h l g m : ℕ)
    → l < 2 ^ k
    → m < 2 ^ k
    → bit_or (h * 2 ^ k + l) (g * 2 ^ k + m) ≡ bit_or h g * 2 ^ k + bit_or l m
bit_or_split zero h l g m p q =
    let first : h * 2 ^ 0 + l ≡ h = omega arith in
    let second : g * 2 ^ 0 + m ≡ g = omega arith in
    let a : l ≡ 0 = omega arith in
    let b : m ≡ 0 = omega arith in rw (first, second, a, b) (omega (arith, bit_or-zero 0))
bit_or_split (suc k) h l g m p q =
    bit_or_digit (h * 2 ^ suc k + l) (g * 2 ^ suc k + m)
    ∙ rw
        (
          half_sum k h l,
          parity_sum k h l,
          half_sum k g m,
          parity_sum k g m,
          bit_or_split k h (l / 2) g (m / 2) (omega (arith, pow-suc 2 k))
              (omega (arith, pow-suc 2 k)),
          bit_or_digit l m,
          double_sum k (bit_or h g) (bit_or (l / 2) (m / 2) * 2 + max (l % 2) (m % 2)),
        )
        (omega arith)

zero_times : (k n : ℕ) → n ≡ 0 → n * 2 ^ k ≡ 0
zero_times k n e = rw e (omega arith)

-- A mask sees only the digits below its own length.
pub bit_and_low : (k x m : ℕ) → m < 2 ^ k → bit_and x m ≡ bit_and (x % 2 ^ k) m
bit_and_low k x m h =
    let whole : 0 * 2 ^ k + m ≡ m = omega arith in
    omega (
      arith,
      ap (bit_and x) whole,
      bit_and_split k x 0 m h,
      zero_times k (bit_and (x / 2 ^ k) 0) (bit_and-zero (x / 2 ^ k)),
    )

-- The digits that a number and its complement give under a mask make up the mask.
pub bit_and_complement :
    (k r m : ℕ) → r < 2 ^ k → m < 2 ^ k → bit_and (2 ^ k - 1 - r) m + bit_and r m ≡ m
bit_and_complement zero r m p q =
    let e : m ≡ 0 = omega arith in
    rw e (omega (arith, bit_and-zero (2 ^ 0 - 1 - r), bit_and-zero r))
bit_and_complement (suc k) r m p q =
    let half : (2 ^ suc k - 1 - r) / 2 ≡ 2 ^ k - 1 - r / 2 = omega (arith, double k) in
    let parity : (2 ^ suc k - 1 - r) % 2 ≡ 1 - r % 2 = omega (arith, double k) in
    let ih =
      bit_and_complement k (r / 2) (m / 2) (omega (arith, double k)) (omega (arith, double k)) in
    omega (
      arith,
      bit_and_digit (2 ^ suc k - 1 - r) m,
      bit_and_digit r m,
      ap (λ n. bit_and n (m / 2)) half,
      parity,
      ih,
    )

bit_or_first_zero : (l : ℕ) → bit_or 0 l ≡ l
bit_or_first_zero l = simp bit_or-bitwise

-- A mask of high digits only, and numbers with no digit in common.
pub bit_and_high : (k x h : ℕ) → bit_and x (h * 2 ^ k) ≡ bit_and (x / 2 ^ k) h * 2 ^ k
bit_and_high k x h =
    let whole : h * 2 ^ k + 0 ≡ h * 2 ^ k = omega arith in
    omega (arith, ap (bit_and x) whole, bit_and_split k x h 0 (pow-pos k), bit_and-zero (x % 2 ^ k))

pub bit_or_apart : (k h l : ℕ) → l < 2 ^ k → bit_or (h * 2 ^ k) l ≡ h * 2 ^ k + l
bit_or_apart k h l p =
    let whole : h * 2 ^ k + 0 ≡ h * 2 ^ k = omega arith in
    let none_left : 0 * 2 ^ k + l ≡ l = omega arith in
    omega (
      arith,
      ap (λ n. bit_or n (0 * 2 ^ k + l)) whole,
      ap (bit_or (h * 2 ^ k)) none_left,
      bit_or_split k h 0 0 l (pow-pos k) p,
      ap (λ n. n * 2 ^ k) (bit_or-zero h),
      bit_or_first_zero l,
    )

pub bit_or_apart_right : (k h l : ℕ) → l < 2 ^ k → bit_or l (h * 2 ^ k) ≡ h * 2 ^ k + l
bit_or_apart_right k h l p =
    let whole : h * 2 ^ k + 0 ≡ h * 2 ^ k = omega arith in
    let none_left : 0 * 2 ^ k + l ≡ l = omega arith in
    omega (
      arith,
      ap (bit_or (0 * 2 ^ k + l)) whole,
      ap (λ n. bit_or n (h * 2 ^ k)) none_left,
      bit_or_split k 0 l h 0 p (pow-pos k),
      ap (λ n. n * 2 ^ k) (bit_or_first_zero h),
      bit_or-zero l,
    )

-- Digits from `k` on, put into a number that has none between `k` and `n`.
pub bit_or_between :
    (n k a c m : ℕ)
    → c < 2 ^ k
    → m * 2 ^ k + c < 2 ^ n
    → bit_or (a * 2 ^ n + c) (m * 2 ^ k) ≡ a * 2 ^ n + (m * 2 ^ k + c)
bit_or_between n k a c m p q =
    let none_above : 0 * 2 ^ n + m * 2 ^ k ≡ m * 2 ^ k = omega arith in
    omega (
      arith,
      ap (bit_or (a * 2 ^ n + c)) none_above,
      bit_or_split n a c 0 (m * 2 ^ k) (omega arith) (omega arith),
      ap (λ d. d * 2 ^ n) (bit_or-zero a),
      bit_or_apart_right k m c p,
    )

-- A mask of `k` ones fills a number of `k` digits.
pub bit_or_full : (k l : ℕ) → l < 2 ^ k → bit_or l (2 ^ k - 1) ≡ 2 ^ k - 1
bit_or_full zero l p = let e : l ≡ 0 = omega arith in rw e (omega (arith, bit_or-zero 0))
bit_or_full (suc k) l p =
    let half : (2 ^ suc k - 1) / 2 ≡ 2 ^ k - 1 = omega (arith, double k, pow-pos k) in
    omega (
      arith,
      bit_or_digit l (2 ^ suc k - 1),
      ap (bit_or (l / 2)) half,
      bit_or_full k (l / 2) (omega (arith, double k)),
      double k,
      pow-pos k,
    )

mod-lt-pos : (a m : ℕ) → 0 < m → a % m < m
mod-lt-pos a m h = grind arith

mul_flip : (a b : ℕ) → a * b ≡ b * a
mul_flip a b = grind arith

pub bit_or_mask : (k a : ℕ) → bit_or a (2 ^ k - 1) ≡ a / 2 ^ k * 2 ^ k + (2 ^ k - 1)
bit_or_mask k a =
    let small : a % 2 ^ k < 2 ^ k = mod-lt-pos a (2 ^ k) (pow-pos k) in
    let whole : a / 2 ^ k * 2 ^ k + a % 2 ^ k ≡ a = omega (
      arith,
      mod-eq-sub-mul-div a (2 ^ k),
      div-mul-le_self a (2 ^ k),
      mul_flip (2 ^ k) (a / 2 ^ k),
    ) in
    let mask : 0 * 2 ^ k + (2 ^ k - 1) ≡ 2 ^ k - 1 = omega arith in
    omega (
      arith,
      ap (λ n. bit_or n (0 * 2 ^ k + (2 ^ k - 1))) whole,
      ap (bit_or a) mask,
      bit_or_split k (a / 2 ^ k) (a % 2 ^ k) 0 (2 ^ k - 1) small (omega (arith, pow-pos k)),
      ap (λ n. n * 2 ^ k) (bit_or-zero (a / 2 ^ k)),
      bit_or_full k (a % 2 ^ k) small,
    )
