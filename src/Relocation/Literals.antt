-- ===== src/Relocation/Literals.antt =====
-- The 16-bit literals of cle/backends/elf/relocation/arm.py: what is put into an instruction is
-- read back from it.
use cle.Base.{ℕ, ◌+◌, ◌*◌, ◌/◌, ◌%◌, ◌^◌, ◌<◌, ◌≡◌, ap, ◌∙◌, arith, Bool}
use cle.Base.Int.{ℤ, pos, ◌+ℤ◌}
use cle.Base.Bits.{bit_and_mask}
use cle.Base.Splits.{bit_and_high, bit_and_split}
use cle.Base.Twos.{◌&ℤ◌, ◌|ℤ◌, ◌>>ℤ◌, ◌<<ℤ◌, ◌%ℤ◌, &ℤ_mask, &ℤ_low, %ℤ-lt}
use cle.Relocation.Arm.{literal, put_literal, signed_half, movw_abs_nc, movt_abs, to_bit}
use cle.Relocation.Fields.{combined, filled}

kept_apart :
    (i : ℕ)
    → (pos i &ℤ pos 0xFFF0F000) ≡ pos (i / 2 ^ 20 % 2 ^ 12 * 2 ^ 20 + i / 2 ^ 12 % 2 ^ 4 * 2 ^ 12)
unfolding ◌&ℤ◌
kept_apart i = ap pos (
    bit_and_split 16 i 0xFFF0 0xF000 (omega arith)
    ∙ omega (
      arith,
      bit_and_high 4 (i / 2 ^ 16) 0xFFF,
      bit_and_mask 12 (i / 2 ^ 16 / 2 ^ 4),
      bit_and_high 12 (i % 2 ^ 16) 0xF,
      bit_and_mask 4 (i % 2 ^ 16 / 2 ^ 12),
    ))

four_digits : (n : ℕ) → (pos n &ℤ pos 0xF0000) ≡ pos (n / 2 ^ 16 % 2 ^ 4 * 2 ^ 16)
unfolding ◌&ℤ◌
four_digits n = ap pos (bit_and_high 16 n 0xF ∙ ap (λ d. d * 2 ^ 16) (bit_and_mask 4 (n / 2 ^ 16)))

twelve_digits : (n : ℕ) → (pos n &ℤ pos 0xFFF) ≡ pos (n % 2 ^ 12)
unfolding ◌%ℤ◌
twelve_digits n = &ℤ_mask 12 (pos n)

upper_part :
    (h : ℕ) → h < 2 ^ 16 → (((pos h >>ℤ 12) <<ℤ 16) &ℤ pos 0xF0000) ≡ pos (h / 2 ^ 12 * 2 ^ 16)
unfolding ◌>>ℤ◌ ◌<<ℤ◌
upper_part h p = four_digits (h / 2 ^ 12 * 2 ^ 16) ∙ ap pos (omega arith)

lower_part : (h : ℕ) → (pos h &ℤ pos 0xFFF &ℤ pos 0xFFF) ≡ pos (h % 2 ^ 12)
lower_part h = rw (twelve_digits h) (twelve_digits (h % 2 ^ 12) ∙ ap pos (omega arith))

moved : (n : ℕ) → ((pos n &ℤ pos 0xF0000) >>ℤ 4) ≡ pos (n / 2 ^ 16 % 2 ^ 4 * 2 ^ 12)
unfolding ◌>>ℤ◌
moved n = rw (four_digits n) (ap pos (omega arith))

literal_lem : (n : ℕ) → literal (pos n) ≡ pos (n / 2 ^ 16 % 2 ^ 4 * 2 ^ 12 + n % 2 ^ 12)
unfolding literal
literal_lem n =
    combined 12 (n / 2 ^ 16 % 2 ^ 4) (n % 2 ^ 12) ((pos n &ℤ pos 0xF0000) >>ℤ 4)
      (pos n &ℤ pos 0xFFF) (moved n) (twelve_digits n) (omega arith)

-- The literal of an instruction, and its other bits, after another literal is put into it.
abbrev pub HasLiteral : ℕ → ℕ → ℤ → Type 0
HasLiteral i h x =
    (n : ℕ) × (x ≡ pos n)
    × (literal (pos n) ≡ pos h)
    × (n / 2 ^ 20 ≡ i / 2 ^ 20)
    × (n / 2 ^ 12 % 2 ^ 4 ≡ i / 2 ^ 12 % 2 ^ 4)

put_literal-HasLiteral :
    (i h : ℕ) → i < 2 ^ 32 → h < 2 ^ 16 → HasLiteral i h (put_literal (pos i) (pos h))
unfolding put_literal
put_literal-HasLiteral i h p q =
    let upper = i / 2 ^ 20 % 2 ^ 12 in
    let middle = i / 2 ^ 12 % 2 ^ 4 in
    let with_upper =
      filled 20 16 upper (middle * 2 ^ 12) (h / 2 ^ 12) (pos i &ℤ pos 0xFFF0F000)
        (((pos h >>ℤ 12) <<ℤ 16) &ℤ pos 0xF0000) (kept_apart i) (upper_part h q) (omega arith)
        (omega arith) in
    let high = upper * 2 ^ 8 + (h / 2 ^ 12 * 2 ^ 4 + middle) in
    let regrouped : (pos i &ℤ pos 0xFFF0F000 |ℤ ((pos h >>ℤ 12) <<ℤ 16) &ℤ pos 0xF0000)
        ≡ pos (high * 2 ^ 12) =
      with_upper ∙ ap pos (omega arith) in
    let n = high * 2 ^ 12 + h % 2 ^ 12 in
    let read : n / 2 ^ 16 % 2 ^ 4 * 2 ^ 12 + n % 2 ^ 12 ≡ h = omega arith in
    (
      n,
      combined 12 high (h % 2 ^ 12)
          (pos i &ℤ pos 0xFFF0F000 |ℤ ((pos h >>ℤ 12) <<ℤ 16) &ℤ pos 0xF0000)
          (pos h &ℤ pos 0xFFF &ℤ pos 0xFFF) regrouped (lower_part h) (omega arith),
      literal_lem n ∙ ap pos read,
      omega arith,
      omega arith,
    )

-- The instruction that `R_ARM_MOVW_ABS_NC` gives has as its literal the lower half of the address,
-- with the literal that was there as the addend, and keeps its other bits.
pub movw_abs_nc-HasLiteral :
    (s : ℤ) (i : ℕ) (p : ℤ) (thumb : Bool)
    → i < 2 ^ 32
    → HasLiteral i
        (((s +ℤ signed_half (literal (pos i))) |ℤ to_bit thumb) %ℤ 2 ^ 16)
        (movw_abs_nc s (pos i) p thumb)
unfolding movw_abs_nc
movw_abs_nc-HasLiteral s i p thumb h =
    let x = (s +ℤ signed_half (literal (pos i))) |ℤ to_bit thumb in
    rw (&ℤ_mask 16 x) (put_literal-HasLiteral i (x %ℤ 2 ^ 16) h (%ℤ-lt x (2 ^ 16) (omega arith)))

upper_mask : (x : ℤ) → ((x &ℤ pos 0xFFFF0000) >>ℤ 16) ≡ pos (x %ℤ 2 ^ 32 / 2 ^ 16)
unfolding ◌>>ℤ◌
upper_mask x =
    let small = %ℤ-lt x (2 ^ 32) (omega arith) in
    rw (&ℤ_low 32 x 0xFFFF0000 (omega arith), bit_and_high 16 (x %ℤ 2 ^ 32) 0xFFFF)
      (ap pos (omega (arith, bit_and_mask 16 (x %ℤ 2 ^ 32 / 2 ^ 16))))

-- So does the one of `R_ARM_MOVT_ABS` with the upper half.
pub movt_abs-HasLiteral :
    (s : ℤ) (i : ℕ)
    → i < 2 ^ 32
    → HasLiteral i ((s +ℤ signed_half (literal (pos i))) %ℤ 2 ^ 32 / 2 ^ 16) (movt_abs s (pos i))
unfolding movt_abs
movt_abs-HasLiteral s i h =
    let x = s +ℤ signed_half (literal (pos i)) in
    let small = %ℤ-lt x (2 ^ 32) (omega arith) in
    rw (upper_mask x) (put_literal-HasLiteral i (x %ℤ 2 ^ 32 / 2 ^ 16) h (omega arith))
