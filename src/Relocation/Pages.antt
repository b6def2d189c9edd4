-- ===== src/Relocation/Pages.antt =====
-- A page and an offset in it, as the two instructions that cle/backends/elf/relocation/arm64.py
-- writes: the distance to the page of an address, and the lower twelve bits.
use cle.Base.{ℕ, ◌+◌, ◌-◌, ◌*◌, ◌/◌, ◌%◌, ◌^◌, ◌<◌, ◌≡◌, refl, ap, ◌∙◌, arith}
use cle.Base.Int.{ℤ, pos, negsuc, ◌-ℤ◌}
use cle.Base.Bits.{bit_and_mask}
use cle.Base.Splits.{bit_or_mask}
use cle.Base.Twos.{◌&ℤ◌, ◌|ℤ◌, ◌>>ℤ◌, ◌<<ℤ◌, ◌%ℤ◌, bit_not_ℤ, &ℤ_mask, %ℤ-lt}
use cle.Relocation.Arm64.{patch_page, patch_lo12, page_distance}
use cle.Relocation.Fields.{filled, kept_page, kept_around}

-- The start of the page of an address.
page_mod : (x : ℤ) → (x &ℤ bit_not_ℤ (pos 0xFFF)) %ℤ 2 ^ 33 ≡ x %ℤ 2 ^ 33 / 2 ^ 12 * 2 ^ 12
unfolding ◌&ℤ◌ bit_not_ℤ ◌%ℤ◌
page_mod (pos a) = omega (arith, bit_and_mask 12 a)
page_mod (negsuc a) = omega (arith, bit_or_mask 12 a)

sub_mod : (x y : ℤ) → (x -ℤ y) %ℤ 2 ^ 33 ≡ (x %ℤ 2 ^ 33 + (2 ^ 33 - y %ℤ 2 ^ 33)) % 2 ^ 33
unfolding ◌-ℤ◌ ◌%ℤ◌
sub_mod (pos a) (pos b) = ground arith
sub_mod (pos a) (negsuc b) = ground arith
sub_mod (negsuc a) (pos b) = ground arith
sub_mod (negsuc a) (negsuc b) = ground arith

shift_page : (v : ℤ) → (v >>ℤ 12) %ℤ 2 ^ 21 ≡ v %ℤ 2 ^ 33 / 2 ^ 12
unfolding ◌>>ℤ◌ ◌%ℤ◌
shift_page (pos a) = omega arith
shift_page (negsuc a) = omega arith

-- The page number in an instruction, and the offset in one.
abbrev pub page_of : ℕ → ℕ
page_of n = n / 2 ^ 5 % 2 ^ 19 * 4 + n / 2 ^ 29 % 4

abbrev pub offset_of : ℕ → ℕ
offset_of n = n / 2 ^ 10 % 2 ^ 12

upper_field : (m : ℕ) → ((pos m >>ℤ 2) <<ℤ 5) ≡ pos (m / 2 ^ 2 * 2 ^ 5)
unfolding ◌>>ℤ◌ ◌<<ℤ◌
upper_field m = refl

lower_field : (m : ℕ) → ((pos m &ℤ pos 3) <<ℤ 29) ≡ pos (m % 2 ^ 2 * 2 ^ 29)
unfolding ◌<<ℤ◌ ◌%ℤ◌
lower_field m = rw (&ℤ_mask 2 (pos m))

patch_page_lem :
    (i : ℕ) (v : ℤ)
    → i < 2 ^ 32
    → (n : ℕ) × (patch_page (pos i) v ≡ pos n)
      × (page_of n ≡ v %ℤ 2 ^ 33 / 2 ^ 12)
      × (n / 2 ^ 31 ≡ i / 2 ^ 31)
      × (n / 2 ^ 24 % 2 ^ 5 ≡ i / 2 ^ 24 % 2 ^ 5)
      × (n % 2 ^ 5 ≡ i % 2 ^ 5)
unfolding patch_page
patch_page_lem i v h =
    let m = (v >>ℤ 12) %ℤ 2 ^ 21 in
    let small : m < 2 ^ 21 = %ℤ-lt (v >>ℤ 12) (2 ^ 21) (omega arith) in
    let page : m ≡ v %ℤ 2 ^ 33 / 2 ^ 12 = shift_page v in
    let a = i / 2 ^ 31 % 2 in
    let b = i / 2 ^ 24 % 2 ^ 5 in
    let c = i % 2 ^ 5 in
    let with_upper =
      filled 24 5 (a * 2 ^ 7 + b) c (m / 2 ^ 2) (pos i &ℤ pos 0x9F00001F) ((pos m >>ℤ 2) <<ℤ 5)
        (kept_page i) (upper_field m) (omega arith) (omega arith) in
    let regrouped : (pos i &ℤ pos 0x9F00001F |ℤ ((pos m >>ℤ 2) <<ℤ 5))
        ≡ pos (a * 2 ^ 31 + (b * 2 ^ 24 + (m / 2 ^ 2 * 2 ^ 5 + c))) =
      with_upper ∙ ap pos (omega arith) in
    (
      a * 2 ^ 31 + (m % 2 ^ 2 * 2 ^ 29 + (b * 2 ^ 24 + (m / 2 ^ 2 * 2 ^ 5 + c))),
      rw (&ℤ_mask 21 (v >>ℤ 12)) (
          filled 31 29 a (b * 2 ^ 24 + (m / 2 ^ 2 * 2 ^ 5 + c)) (m % 2 ^ 2)
            (pos i &ℤ pos 0x9F00001F |ℤ ((pos m >>ℤ 2) <<ℤ 5)) ((pos m &ℤ pos 3) <<ℤ 29) regrouped
            (lower_field m) (omega arith) (omega arith)),
      omega arith,
      omega arith,
      omega arith,
      omega arith,
    )

twelve_mod : (v : ℤ) → v %ℤ 2 ^ 12 ≡ v %ℤ 2 ^ 33 % 2 ^ 12
unfolding ◌%ℤ◌
twelve_mod (pos a) = omega arith
twelve_mod (negsuc a) = omega arith

offset_field : (v : ℤ) → (((v &ℤ pos 0xFFF) >>ℤ 0) <<ℤ 10) ≡ pos (v %ℤ 2 ^ 12 * 2 ^ 10)
unfolding ◌>>ℤ◌ ◌<<ℤ◌
offset_field v = rw (&ℤ_mask 12 v) (ap pos (omega arith))

patch_lo12_lem :
    (i : ℕ) (v : ℤ)
    → i < 2 ^ 32
    → (n : ℕ) × (patch_lo12 0 (pos i) v ≡ pos n)
      × (offset_of n ≡ v %ℤ 2 ^ 33 % 2 ^ 12)
      × (n / 2 ^ 22 ≡ i / 2 ^ 22)
      × (n % 2 ^ 10 ≡ i % 2 ^ 10)
unfolding patch_lo12
patch_lo12_lem i v h =
    let small : v %ℤ 2 ^ 12 < 2 ^ 12 = %ℤ-lt v (2 ^ 12) (omega arith) in
    (
      i / 2 ^ 22 % 2 ^ 10 * 2 ^ 22 + (v %ℤ 2 ^ 12 * 2 ^ 10 + i % 2 ^ 10),
      filled 22 10 (i / 2 ^ 22 % 2 ^ 10) (i % 2 ^ 10) (v %ℤ 2 ^ 12) (pos i &ℤ pos 0xFFC003FF)
          (((v &ℤ pos 0xFFF) >>ℤ 0) <<ℤ 10) (kept_around i) (offset_field v) (omega arith)
          (omega arith),
      omega (arith, twelve_mod v),
      omega arith,
      omega arith,
    )

-- Two instructions at `p`, relocated for the address `x`: the first one's page number, added to
-- the page of `p`, and the second one's offset make up the address modulo `2 ^ 33`, and both keep
-- the rest of their bits.
pub patch_page-patch_lo12 :
    (i j : ℕ) (x p : ℤ)
    → i < 2 ^ 32
    → j < 2 ^ 32
    → (n m : ℕ) × (patch_page (pos i) (page_distance x p) ≡ pos n)
      × (patch_lo12 0 (pos j) x ≡ pos m)
      × (((p %ℤ 2 ^ 33 / 2 ^ 12 + page_of n) * 2 ^ 12 + offset_of m) % 2 ^ 33 ≡ x %ℤ 2 ^ 33)
      × (n / 2 ^ 31 ≡ i / 2 ^ 31)
      × (n / 2 ^ 24 % 2 ^ 5 ≡ i / 2 ^ 24 % 2 ^ 5)
      × (n % 2 ^ 5 ≡ i % 2 ^ 5)
      × (m / 2 ^ 22 ≡ j / 2 ^ 22)
      × (m % 2 ^ 10 ≡ j % 2 ^ 10)
unfolding page_distance
patch_page-patch_lo12 i j x p h k =
    let (n, en, page, n1, n2, n3) = patch_page_lem i (page_distance x p) h in
    let (m, em, offset, m1, m2) = patch_lo12_lem j x k in
    let near : x %ℤ 2 ^ 33 < 2 ^ 33 = %ℤ-lt x (2 ^ 33) (omega arith) in
    let start : p %ℤ 2 ^ 33 < 2 ^ 33 = %ℤ-lt p (2 ^ 33) (omega arith) in
    let distance = sub_mod (x &ℤ bit_not_ℤ (pos 0xFFF)) (p &ℤ bit_not_ℤ (pos 0xFFF)) in
    (
      n,
      m,
      en,
      em,
      omega (arith, page_mod x, page_mod p, distance, page, offset),
      n1,
      n2,
      n3,
      m1,
      m2,
    )
