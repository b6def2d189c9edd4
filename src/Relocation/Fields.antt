-- ===== src/Relocation/Fields.antt =====
-- The instructions that cle/backends/elf/relocation/arm64.py and sparc.py write, field by field.
use cle.Base.{ℕ, ◌+◌, ◌*◌, ◌/◌, ◌%◌, ◌^◌, ◌<◌, ◌≡◌, ap, ◌∙◌, arith}
use cle.Base.Int.{ℤ, pos, negsuc}
use cle.Base.Bits.{bit_and_mask}
use cle.Base.Splits.{bit_and_high, bit_and_split, bit_or_apart, bit_or_between}
use cle.Base.Twos.{◌&ℤ◌, ◌|ℤ◌, ◌>>ℤ◌, ◌%ℤ◌, &ℤ_mask, %ℤ-lt}
use cle.Relocation.Sparc.{hi22}
use cle.Relocation.Arm64.{patch_imm26}

-- What a mask leaves of an instruction.
kept_six : (i : ℕ) → (pos i &ℤ pos 0xFC000000) ≡ pos (i / 2 ^ 26 % 2 ^ 6 * 2 ^ 26)
unfolding ◌&ℤ◌
kept_six i = ap pos (bit_and_high 26 i 63 ∙ ap (λ d. d * 2 ^ 26) (bit_and_mask 6 (i / 2 ^ 26)))

kept_ten : (i : ℕ) → (pos i &ℤ pos 0xFFC00000) ≡ pos (i / 2 ^ 22 % 2 ^ 10 * 2 ^ 22)
unfolding ◌&ℤ◌
kept_ten i = ap pos (bit_and_high 22 i 0x3FF ∙ ap (λ d. d * 2 ^ 22) (bit_and_mask 10 (i / 2 ^ 22)))

pub kept_around :
    (i : ℕ) → (pos i &ℤ pos 0xFFC003FF) ≡ pos (i / 2 ^ 22 % 2 ^ 10 * 2 ^ 22 + i % 2 ^ 10)
unfolding ◌&ℤ◌
kept_around i = ap pos (
    bit_and_split 22 i 0x3FF 0x3FF (omega arith)
    ∙ omega (arith, bit_and_mask 10 (i / 2 ^ 22), bit_and_mask 10 (i % 2 ^ 22)))

pub kept_page :
    (i : ℕ)
    → (pos i &ℤ pos 0x9F00001F)
      ≡ pos ((i / 2 ^ 31 % 2 * 2 ^ 7 + i / 2 ^ 24 % 2 ^ 5) * 2 ^ 24 + i % 2 ^ 5)
unfolding ◌&ℤ◌
kept_page i = ap pos (
    bit_and_split 24 i 0x9F 0x1F (omega arith)
    ∙ omega (
      arith,
      bit_and_split 5 (i / 2 ^ 24) 4 0x1F (omega arith),
      bit_and_high 2 (i / 2 ^ 24 / 2 ^ 5) 1,
      bit_and_mask 1 (i / 2 ^ 24 / 2 ^ 5 / 2 ^ 2),
      bit_and_mask 5 (i / 2 ^ 24 % 2 ^ 5),
      bit_and_mask 5 (i % 2 ^ 24),
    ))

-- Two operands of `|` that have no digit in common.
pub combined :
    (k h l : ℕ) (a b : ℤ)
    → a ≡ pos (h * 2 ^ k)
    → b ≡ pos l
    → l < 2 ^ k
    → (a |ℤ b) ≡ pos (h * 2 ^ k + l)
unfolding ◌|ℤ◌
combined k h l a b e f p = rw (e, f) (ap pos (bit_or_apart k h l p))

pub filled :
    (n k h c m : ℕ) (a b : ℤ)
    → a ≡ pos (h * 2 ^ n + c)
    → b ≡ pos (m * 2 ^ k)
    → c < 2 ^ k
    → m * 2 ^ k + c < 2 ^ n
    → (a |ℤ b) ≡ pos (h * 2 ^ n + (m * 2 ^ k + c))
unfolding ◌|ℤ◌
filled n k h c m a b e f p q = rw (e, f) (ap pos (bit_or_between n k h c m p q))

shift_two : (v : ℤ) → (v >>ℤ 2) %ℤ 2 ^ 26 * 4 + v %ℤ 4 ≡ v %ℤ 2 ^ 28
unfolding ◌>>ℤ◌ ◌%ℤ◌
shift_two (pos a) = omega arith
shift_two (negsuc a) = omega arith

-- A branch instruction keeps its upper six bits, and its lower 26 are the distance in words,
-- modulo `2 ^ 28` bytes, for a distance that is a multiple of four.
pub patch_imm26_lem :
    (i : ℕ) (v : ℤ)
    → i < 2 ^ 32
    → v %ℤ 4 ≡ 0
    → (n : ℕ) × (patch_imm26 (pos i) v ≡ pos n)
      × (n / 2 ^ 26 ≡ i / 2 ^ 26)
      × (n % 2 ^ 26 * 4 ≡ v %ℤ 2 ^ 28)
unfolding patch_imm26
patch_imm26_lem i v h m =
    let small = %ℤ-lt (v >>ℤ 2) (2 ^ 26) (omega arith) in
    (
      i / 2 ^ 26 % 2 ^ 6 * 2 ^ 26 + (v >>ℤ 2) %ℤ 2 ^ 26,
      combined 26 (i / 2 ^ 26 % 2 ^ 6) ((v >>ℤ 2) %ℤ 2 ^ 26) (pos i &ℤ pos 0xFC000000)
          ((v >>ℤ 2) &ℤ pos 0x03FFFFFF) (kept_six i) (&ℤ_mask 26 (v >>ℤ 2)) small,
      omega arith,
      omega (arith, shift_two v),
    )

-- `sethi` of SPARC gets the upper 22 bits of an address of 32 bits, and keeps its upper ten.
pub hi22_lem :
    (i : ℕ) (x : ℤ)
    → i < 2 ^ 32
    → (n : ℕ) × (hi22 (pos i) x ≡ pos n)
      × (n / 2 ^ 22 ≡ i / 2 ^ 22)
      × (n % 2 ^ 22 ≡ x %ℤ 2 ^ 32 / 2 ^ 10)
unfolding hi22
hi22_lem i x h =
    let small = %ℤ-lt (x >>ℤ 10) (2 ^ 22) (omega arith) in
    (
      i / 2 ^ 22 % 2 ^ 10 * 2 ^ 22 + (x >>ℤ 10) %ℤ 2 ^ 22,
      combined 22 (i / 2 ^ 22 % 2 ^ 10) ((x >>ℤ 10) %ℤ 2 ^ 22) (pos i &ℤ pos 0xFFC00000)
          ((x >>ℤ 10) &ℤ pos 0x3FFFFF) (kept_ten i) (&ℤ_mask 22 (x >>ℤ 10)) small,
      omega arith,
      omega (arith, shift_ten x),
    )
  where
    shift_ten : (x : ℤ) → (x >>ℤ 10) %ℤ 2 ^ 22 ≡ x %ℤ 2 ^ 32 / 2 ^ 10
    shift_ten (pos a) = unfold ◌>>ℤ◌ ◌%ℤ◌ in omega arith
    shift_ten (negsuc a) = unfold ◌>>ℤ◌ ◌%ℤ◌ in omega arith
