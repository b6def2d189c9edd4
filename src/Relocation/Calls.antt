-- ===== src/Relocation/Calls.antt =====
-- `R_ARM_CALL` of cle/backends/elf/relocation/arm.py.
use cle.Base.{
  ℕ, zero, suc, ◌+◌, ◌-◌, ◌*◌, ◌/◌, ◌%◌, ◌^◌, ◌<◌, ◌≡◌, refl, ap, ◌∙◌, arith, true, false,
  if◌then◌else◌, Bool-cases, inl, inr,
}
use Prim.Native.Nat.{bit_or}
use cle.Base.Int.{ℤ, pos, negsuc, ◌+ℤ◌, ◌-ℤ◌}
use cle.Base.Bits.{bit_and_mask, bit_or-zero, bit_and-zero}
use cle.Base.Splits.{bit_and_high, bit_or_split}
use cle.Base.Twos.{◌&ℤ◌, ◌|ℤ◌, ◌>>ℤ◌, ◌<<ℤ◌, ◌%ℤ◌, bit_not_ℤ, &ℤ_mask, &ℤ_low, %ℤ-lt}
use cle.Relocation.Arm.{apply_reloc, call, has_bits}
use cle.Relocation.Fields.{combined}

-- What is above the lower 24 bits.
above : (i : ℕ) → (pos i &ℤ bit_not_ℤ (pos 0xFFFFFF)) ≡ pos (i / 2 ^ 24 * 2 ^ 24)
unfolding ◌&ℤ◌ bit_not_ℤ
above i = ap pos (omega (arith, bit_and_mask 24 i))

-- A value of 24 bits replaces the lower 24 of an instruction.
apply_reloc_low :
    (i r : ℕ)
    → r < 2 ^ 24
    → apply_reloc (pos i) (pos r) (pos 0xFFFFFF) ≡ pos (i / 2 ^ 24 * 2 ^ 24 + r)
unfolding apply_reloc ◌%ℤ◌
apply_reloc_low i r h =
    let nothing : r / 2 ^ 24 * 2 ^ 24 ≡ 0 = omega arith in
    rw (above r, nothing)
      (combined 24 (i / 2 ^ 24) r (pos i &ℤ bit_not_ℤ (pos 0xFFFFFF)) (pos r &ℤ pos 0xFFFFFF)
        (above i) (&ℤ_mask 24 (pos r) ∙ ap pos (omega arith)) h)

or_zero : (x : ℤ) → (x |ℤ pos 0) ≡ x
unfolding ◌|ℤ◌
or_zero (pos a) = ap pos (bit_or-zero a)
or_zero (negsuc a) = ap negsuc (omega (arith, bit_and-zero a))

-- Whether or not its upper bits are set, an instruction shifted by two is the same modulo `2 ^ 26`.
extended : (i : ℕ) → ((pos i |ℤ pos 0xFF000000) <<ℤ 2) %ℤ 2 ^ 26 ≡ 4 * i % 2 ^ 26
unfolding ◌|ℤ◌ ◌<<ℤ◌ ◌%ℤ◌
extended i =
    let whole : i / 2 ^ 24 * 2 ^ 24 + i % 2 ^ 24 ≡ i = omega arith in
    let split = bit_or_split 24 (i / 2 ^ 24) (i % 2 ^ 24) 0xFF 0 (omega arith) (omega arith) in
    omega (arith, ap (λ n. bit_or n 0xFF000000) whole, split, bit_or-zero (i % 2 ^ 24))

plain : (i : ℕ) → (pos i <<ℤ 2) %ℤ 2 ^ 26 ≡ 4 * i % 2 ^ 26
unfolding ◌<<ℤ◌ ◌%ℤ◌
plain i = omega arith

sum_mod : (x y : ℤ) → (x +ℤ y) %ℤ 2 ^ 26 ≡ (x %ℤ 2 ^ 26 + y %ℤ 2 ^ 26) % 2 ^ 26
unfolding ◌+ℤ◌ ◌%ℤ◌
sum_mod (pos a) (pos b) = ground arith
sum_mod (pos a) (negsuc b) = ground arith
sum_mod (negsuc a) (pos b) = ground arith
sum_mod (negsuc a) (negsuc b) = ground arith

sub_mod : (x y : ℤ) → (x -ℤ y) %ℤ 2 ^ 26 ≡ (x %ℤ 2 ^ 26 + (2 ^ 26 - y %ℤ 2 ^ 26)) % 2 ^ 26
unfolding ◌-ℤ◌ ◌%ℤ◌
sub_mod (pos a) (pos b) = ground arith
sub_mod (pos a) (negsuc b) = ground arith
sub_mod (negsuc a) (pos b) = ground arith
sub_mod (negsuc a) (negsuc b) = ground arith

imm24 : (x : ℤ) → ((x &ℤ pos 0x03FFFFFE) >>ℤ 2) ≡ pos (x %ℤ 2 ^ 26 / 4)
unfolding ◌>>ℤ◌
imm24 x =
    rw (&ℤ_low 26 x 0x03FFFFFE (omega arith), bit_and_high 1 (x %ℤ 2 ^ 26) 0x1FFFFFF)
      (ap pos (omega (arith, bit_and_mask 25 (x %ℤ 2 ^ 26 / 2), %ℤ-lt x (2 ^ 26) (omega arith))))

-- The new instruction, from the addend that has been extended.
abbrev IsCall : ℤ → ℕ → ℤ → ℤ → Type 0
IsCall s i p x =
    (n : ℕ) × (x ≡ pos n)
    × (n / 2 ^ 24 ≡ i / 2 ^ 24)
    × (n % 2 ^ 24 ≡ (s %ℤ 2 ^ 26 + 4 * i + (2 ^ 26 - p %ℤ 2 ^ 26)) % 2 ^ 26 / 4)

from_extended :
    (s : ℤ) (i : ℕ) (p a : ℤ)
    → i < 2 ^ 32
    → (a <<ℤ 2) %ℤ 2 ^ 26 ≡ 4 * i % 2 ^ 26
    → IsCall s i p (
        apply_reloc
          (pos i)
          ((((s +ℤ (a <<ℤ 2)) |ℤ pos 0) -ℤ p &ℤ pos 0x03FFFFFE) >>ℤ 2)
          (pos 0xFFFFFF))
from_extended s i p a h e =
    let x = (s +ℤ (a <<ℤ 2)) -ℤ p in
    let small : x %ℤ 2 ^ 26 < 2 ^ 26 = %ℤ-lt x (2 ^ 26) (omega arith) in
    let distance : x %ℤ 2 ^ 26 ≡ (s %ℤ 2 ^ 26 + 4 * i + (2 ^ 26 - p %ℤ 2 ^ 26)) % 2 ^ 26 =
      (let low = %ℤ-lt p (2 ^ 26) (omega arith) in
        omega (arith, sub_mod (s +ℤ (a <<ℤ 2)) p, sum_mod s (a <<ℤ 2))) in
    (
      i / 2 ^ 24 * 2 ^ 24 + x %ℤ 2 ^ 26 / 4,
      rw (or_zero (s +ℤ (a <<ℤ 2)), imm24 x) (apply_reloc_low i (x %ℤ 2 ^ 26 / 4) (omega arith)),
      omega arith,
      omega arith,
    )

-- A call in ARM code keeps its upper eight bits, and gets the distance from the place to the
-- address with the addend of the instruction, in words, modulo `2 ^ 26` bytes.
pub call-arm :
    (s : ℤ) (i : ℕ) (p : ℤ)
    → i < 2 ^ 32
    → (n : ℕ) × (call s (pos i) p false ≡ pos n)
      × (n / 2 ^ 24 ≡ i / 2 ^ 24)
      × (n % 2 ^ 24 ≡ (s %ℤ 2 ^ 26 + 4 * i + (2 ^ 26 - p %ℤ 2 ^ 26)) % 2 ^ 26 / 4)
unfolding call
call-arm s i p h = elim (Bool-cases (has_bits (pos i) (pos 0x00800000))) [
  | inl negative ↦ rw negative (from_extended s i p (pos i |ℤ pos 0xFF000000) h (extended i))
  | inr positive ↦ rw positive (from_extended s i p (pos i) h (plain i))
]

low_bit : (x : ℤ) → (b : ℕ) × (((x &ℤ pos 2) >>ℤ 1) ≡ pos b) × (b < 2)
unfolding ◌>>ℤ◌
low_bit x = (
  x %ℤ 2 ^ 2 / 2 % 2,
  rw (&ℤ_low 2 x 2 (omega arith), bit_and_high 1 (x %ℤ 2 ^ 2) 1)
      (ap pos (omega (arith, bit_and_mask 1 (x %ℤ 2 ^ 2 / 2)))),
  omega arith,
)

-- The value of a call of Thumb code is refused by its own mask, so the instruction becomes 0.
refused : (i : ℤ) (b : ℕ) → b < 2 → apply_reloc i (pos 0xFA |ℤ pos b) (pos 0xFF000000) ≡ pos 0
unfolding apply_reloc ◌&ℤ◌ ◌|ℤ◌ bit_not_ℤ
refused i zero h = refl
refused i (suc zero) h = refl
refused i (suc (suc b)) h = absurd (omega arith)

-- Where the target is Thumb code, the value is 0 whatever the instruction and the distance are.
pub call-thumb : (s inst p : ℤ) → call s inst p true ≡ pos 0
unfolding call
call-thumb s inst p =
    let a = if has_bits inst (pos 0x00800000) then inst |ℤ pos 0xFF000000 else inst in
    let (b, e, small) = low_bit (((s +ℤ (a <<ℤ 2)) |ℤ pos 1) -ℤ p) in rw e (refused inst b small)
