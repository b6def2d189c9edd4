-- ===== src/Relocation/Truncation.antt =====
-- The overflow test of `RelocTruncate32Mixin` in cle/backends/elf/relocation/generic.py, on an
-- architecture of 64 bits.
use cle.Base.{
  ℕ, ◌+◌, ◌-◌, ◌/◌, ◌%◌, ◌^◌, ◌<◌, ◌≡◌, ◌⊎◌, arith, Bool, true, false, not, ◌||◌, ◌==◌, inl, inr,
  Bool-cases,
}
use cle.Base.Int.{pos}
use cle.Base.Twos.{◌&ℤ◌, ◌>>ℤ◌, ◌%ℤ◌, &ℤ_mask}
use cle.Relocation.Generic.{is_truncated}

bit_lem : (n : ℕ) → ((pos n >>ℤ 31) &ℤ pos 1) ≡ pos (n / 2 ^ 31 % 2)
unfolding ◌>>ℤ◌ ◌%ℤ◌
bit_lem n = &ℤ_mask 1 (pos n >>ℤ 31)

-- A value whose bit 31 is clear is never refused, whatever is above it.
pub is_truncated-clear :
    (check_zero_extend check_sign_extend : Bool) (n : ℕ)
    → n / 2 ^ 31 % 2 ≡ 0
    → is_truncated check_zero_extend check_sign_extend 64 (pos n) ≡ false
unfolding is_truncated
is_truncated-clear z s n h = rw (bit_lem n, h)

set_sign :
    (n : ℕ)
    → n / 2 ^ 31 % 2 ≡ 1
    → is_truncated false true 64 (pos n) ≡ false
    → n / 2 ^ 32 ≡ 2 ^ 32 - 1
unfolding is_truncated ◌>>ℤ◌
set_sign n b h =
    let test : not (n / 2 ^ 32 + 0 == 2 ^ 32 - 1 + 0) ≡ false = rw (bit_lem n, b) at h in
    ground arith

set_zero :
    (n : ℕ) → n / 2 ^ 31 % 2 ≡ 1 → is_truncated true false 64 (pos n) ≡ false → n / 2 ^ 32 ≡ 0
unfolding is_truncated ◌>>ℤ◌
set_zero n b h =
    let test : not (n / 2 ^ 32 + 0 == 0) || false ≡ false = rw (bit_lem n, b) at h in ground arith

-- A value that passes the test for signed fields either has bit 31 clear or is the sign extension
-- of its lower 32 bits; one that passes the test for unsigned fields has it clear or is itself
-- below `2 ^ 32`.
pub is_truncated-extended :
    (n : ℕ)
    → n < 2 ^ 64
    → (is_truncated false true 64 (pos n) ≡ false
        → (n / 2 ^ 31 % 2 ≡ 0) ⊎ (n ≡ n % 2 ^ 32 + (2 ^ 64 - 2 ^ 32)))
      × (is_truncated true false 64 (pos n) ≡ false → (n / 2 ^ 31 % 2 ≡ 0) ⊎ (n < 2 ^ 32))
is_truncated-extended n h = elim (Bool-cases (n / 2 ^ 31 % 2 == 0)) [
  | inl clear ↦ (λ e. inl (ground arith), λ e. inl (ground arith))
  | inr set ↦
      let b : n / 2 ^ 31 % 2 ≡ 1 = ground arith in
      (λ e. inr (omega (arith, set_sign n b e)), λ e. inr (omega (arith, set_zero n b e)))
]
