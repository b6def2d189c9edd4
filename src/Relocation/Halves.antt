-- ===== src/Relocation/Halves.antt =====
-- The halves of an address that cle/backends/elf/relocation/ppc.py puts into two instructions.
use cle.Base.{ℕ, ◌+◌, ◌-◌, ◌*◌, ◌/◌, ◌%◌, ◌^◌, ◌≤◌, ◌<◌, ◌≡◌, ap, ◌∙◌, ltb, if◌then◌else◌, arith}
use cle.Base.Int.{ℤ, pos, negsuc, ◌+ℤ◌, eqb_ℤ}
use cle.Base.Bits.{bit_and_mask}
use cle.Base.Splits.{bit_and_high}
use cle.Base.Twos.{◌&ℤ◌, ◌>>ℤ◌, ◌%ℤ◌, &ℤ_mask, &ℤ_low, %ℤ-lt}
use cle.Relocation.Ppc.{low_half, high_half, high_adjusted}

-- What an instruction adds for a half that it takes as a signed number, modulo `2 ^ 32`.
abbrev pub sign_extended : ℕ → ℕ
sign_extended l = if ltb l 0x8000 then l else l + (2 ^ 32 - 2 ^ 16)

shift_mod : (x : ℤ) → (x >>ℤ 16) %ℤ 2 ^ 16 ≡ x %ℤ 2 ^ 32 / 2 ^ 16
unfolding ◌>>ℤ◌ ◌%ℤ◌
shift_mod (pos a) = omega arith
shift_mod (negsuc a) = omega arith

low_mod : (x : ℤ) → x %ℤ 2 ^ 16 ≡ x %ℤ 2 ^ 32 % 2 ^ 16
unfolding ◌%ℤ◌
low_mod (pos a) = omega arith
low_mod (negsuc a) = omega arith

high_half_lem : (x : ℤ) → high_half x ≡ pos (x %ℤ 2 ^ 32 / 2 ^ 16)
unfolding high_half
high_half_lem x = &ℤ_mask 16 (x >>ℤ 16) ∙ ap pos (shift_mod x)

low_half_lem : (x : ℤ) → low_half x ≡ pos (x %ℤ 2 ^ 32 % 2 ^ 16)
unfolding low_half
low_half_lem x = &ℤ_mask 16 x ∙ ap pos (low_mod x)

add_mod : (x : ℤ) (c : ℕ) → c ≤ 1 → (x +ℤ pos c) %ℤ 2 ^ 16 ≡ (x %ℤ 2 ^ 16 + c) % 2 ^ 16
unfolding ◌+ℤ◌ ◌%ℤ◌
add_mod (pos a) c h = ground arith
add_mod (negsuc a) c h = ground arith

-- The carry into the high half: whether bit 15 is set.
abbrev carry : ℤ → ℕ
carry x = if ltb (x %ℤ 2 ^ 16) 0x8000 then 0 else 1

bit_fifteen : (x : ℤ) → x &ℤ pos 0x8000 ≡ pos (x %ℤ 2 ^ 16 / 2 ^ 15 % 2 * 2 ^ 15)
bit_fifteen x =
    &ℤ_low 16 x 0x8000 (omega arith)
    ∙ ap pos (
        bit_and_high 15 (x %ℤ 2 ^ 16) 1
        ∙ ap (λ d. d * 2 ^ 15) (bit_and_mask 1 (x %ℤ 2 ^ 16 / 2 ^ 15)))

carry_lem : (x : ℤ) → (if eqb_ℤ (x &ℤ pos 0x8000) (pos 0) then pos 0 else pos 1) ≡ pos (carry x)
carry_lem x = let small = %ℤ-lt x (2 ^ 16) (omega arith) in rw (bit_fifteen x) (ground arith)

high_adjusted_lem : (x : ℤ) → high_adjusted x ≡ pos ((x %ℤ 2 ^ 32 / 2 ^ 16 + carry x) % 2 ^ 16)
unfolding high_adjusted
high_adjusted_lem x = rw (carry_lem x) (
    &ℤ_mask 16 ((x >>ℤ 16) +ℤ pos (carry x))
    ∙ ap pos (
        add_mod (x >>ℤ 16) (carry x) (ground arith)
        ∙ ap (λ n. (n + carry x) % 2 ^ 16) (shift_mod x)))

-- Two instructions, one that takes the adjusted high half of a number and one that adds the low
-- half as a signed number, give the number modulo `2 ^ 32`; both halves fit 16 bits.
pub high_adjusted-low_half :
    (x : ℤ)
    → (h l : ℕ) × (high_adjusted x ≡ pos h)
      × (low_half x ≡ pos l)
      × (h < 2 ^ 16)
      × (l < 2 ^ 16)
      × ((h * 2 ^ 16 + sign_extended l) % 2 ^ 32 ≡ x %ℤ 2 ^ 32)
high_adjusted-low_half x =
    let small = %ℤ-lt x (2 ^ 32) (omega arith) in
    let low = low_mod x in
    (
      (x %ℤ 2 ^ 32 / 2 ^ 16 + carry x) % 2 ^ 16,
      x %ℤ 2 ^ 32 % 2 ^ 16,
      high_adjusted_lem x,
      low_half_lem x,
      omega arith,
      omega arith,
      ground arith,
    )
