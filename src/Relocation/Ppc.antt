-- ===== src/Relocation/Ppc.antt =====
-- cle/backends/elf/relocation/ppc.py. In the functions of numbers `s`, `a`, `p` and `r` are the
-- address of the symbol, the addend, the place and the relative address, as in the source.
use cle.Base.{ℕ, not, Option, [], ◌∷◌, if◌then◌else◌, Result, ok, ◌>>=◌}
use cle.Base.Int.{ℤ, pos, ◌+ℤ◌, ◌-ℤ◌, eqb_ℤ}
use cle.Base.Twos.{◌&ℤ◌, ◌|ℤ◌, ◌>>ℤ◌, ◌<<ℤ◌, bit_not_ℤ}
use cle.Relocation.{Relocation, place_addr}
use cle.Relocation.Generic.{
  Class, Apply, put_word, target, plainly, class_of, relocate_word, relocate_half,
  absolute_addend_value, jumpslot_value, generic_tls_doffset, generic_tls_offset,
  generic_tls_mod_id, generic_absolute_addend, generic_jumpslot, generic_relative, generic_copy,
  entry,
}

unfoldable pub shifted : ℤ → ℤ → ℤ
shifted s a = (s +ℤ a) >>ℤ 2

unfoldable pub low_half : ℤ → ℤ
low_half x = x &ℤ pos 0xFFFF

unfoldable pub high_half : ℤ → ℤ
high_half x = (x >>ℤ 16) &ℤ pos 0xFFFF

-- The high half, one more where the low half counts as negative.
unfoldable pub high_adjusted : ℤ → ℤ
high_adjusted x =
    ((x >>ℤ 16) +ℤ (if eqb_ℤ (x &ℤ pos 0x8000) (pos 0) then pos 0 else pos 1)) &ℤ pos 0xFFFF

unfoldable pub rel24 : ℤ → ℤ → ℤ → ℤ
rel24 s a p =
    a &ℤ bit_not_ℤ (pos 0x03FFFFFC)
    |ℤ (((s +ℤ a -ℤ p) >>ℤ 2) <<ℤ 2) &ℤ pos 0x03FFFFFC
    |ℤ pos 0x48000001

unfoldable pub rel14 : ℤ → ℤ → ℤ → ℤ
rel14 s a p = a &ℤ bit_not_ℤ (pos 0x0020FFFC) |ℤ (((s +ℤ a -ℤ p) >>ℤ 2) <<ℤ 2) &ℤ pos 0x0020FFFC

unfoldable pub rel32 : ℤ → ℤ → ℤ → ℤ
rel32 s a p = (s +ℤ a -ℤ p) &ℤ pos 0xFFFFFFFF

unfoldable pub addr30 : ℤ → ℤ → ℤ → ℤ
addr30 s a p = (s +ℤ a -ℤ p) >>ℤ 2

-- A value of the address of the symbol, the addend and the place; of the sum of the first two;
-- and of the sum of the relative address and the addend.
abbrev of_all : (ℤ → ℤ → ℤ → ℤ) → Relocation → Result ℤ
of_all f r = target r >>= λ s. ok (f s r.addend (place_addr r))

abbrev of_sum : (ℤ → ℤ) → Relocation → Result ℤ
of_sum f r = target r >>= λ s. ok (f (s +ℤ r.addend))

abbrev of_section : (ℤ → ℤ) → Relocation → Result ℤ
of_section f r = ok (f (r.relative_addr +ℤ r.addend))

-- The classes `R_PPC_ADDR24`, the three of `R_PPC_ADDR14`, and those below.
unfoldable pub addr24_value : Relocation → Result ℤ
unfolding shifted target
addr24_value r = target r >>= λ s. ok (shifted s r.addend)

unfoldable pub addr16_lo_value : Relocation → Result ℤ
unfolding low_half target
addr16_lo_value = of_sum low_half

unfoldable pub addr16_hi_value : Relocation → Result ℤ
unfolding high_half target
addr16_hi_value = of_sum high_half

unfoldable pub addr16_ha_value : Relocation → Result ℤ
unfolding high_adjusted target
addr16_ha_value = of_sum high_adjusted

unfoldable pub rel24_value : Relocation → Result ℤ
unfolding rel24 target place_addr
rel24_value = of_all rel24

unfoldable pub rel14_value : Relocation → Result ℤ
unfolding rel14 target place_addr
rel14_value = of_all rel14

unfoldable pub rel32_value : Relocation → Result ℤ
unfolding rel32 target place_addr
rel32_value = of_all rel32

unfoldable pub addr30_value : Relocation → Result ℤ
unfolding addr30 target place_addr
addr30_value = of_all addr30

unfoldable pub sectoff_value : Relocation → Result ℤ
sectoff_value = of_section (λ x. x)

unfoldable pub sectoff_lo_value : Relocation → Result ℤ
unfolding low_half
sectoff_lo_value = of_section low_half

unfoldable pub sectoff_hi_value : Relocation → Result ℤ
unfolding high_half
sectoff_hi_value = of_section high_half

unfoldable pub sectoff_ha_value : Relocation → Result ℤ
unfolding high_adjusted
sectoff_ha_value = of_section high_adjusted

-- Without an entry for the table of offsets the slot gets a jump.
unfoldable pub relocate_jmp_slot : Apply
unfolding relocate_word place_addr
relocate_jmp_slot value s =
    if not s.has_got_entry
    then (value >>= λ v.
        put_word s s.reloc.relative_addr s.arch.word_size
          ((pos 0x12 <<ℤ 26) |ℤ (v -ℤ place_addr s.reloc) &ℤ pos 0x3FFFFFE))
    else relocate_word value s

abbrev word_class : (Relocation → Result ℤ) → Class
word_class value = class_of plainly value relocate_word

abbrev half_class : (Relocation → Result ℤ) → Class
half_class value = class_of plainly value relocate_half

abbrev pub relocation_table_ppc : ℕ → Option Class
relocation_table_ppc n = entry n (
    (1, generic_absolute_addend)
    ∷ (2, word_class addr24_value)
    ∷ (3, word_class absolute_addend_value)
    ∷ (4, half_class addr16_lo_value)
    ∷ (5, half_class addr16_hi_value)
    ∷ (6, half_class addr16_ha_value)
    ∷ (7, word_class addr24_value)
    ∷ (8, word_class addr24_value)
    ∷ (9, word_class addr24_value)
    ∷ (10, word_class rel24_value)
    ∷ (11, word_class rel14_value)
    ∷ (12, word_class rel14_value)
    ∷ (13, word_class rel14_value)
    ∷ (19, generic_copy)
    ∷ (20, generic_jumpslot)
    ∷ (21, class_of plainly jumpslot_value relocate_jmp_slot)
    ∷ (22, generic_relative)
    ∷ (24, word_class absolute_addend_value)
    ∷ (25, word_class absolute_addend_value)
    ∷ (26, word_class rel32_value)
    ∷ (33, word_class sectoff_value)
    ∷ (34, word_class sectoff_lo_value)
    ∷ (35, word_class sectoff_hi_value)
    ∷ (36, word_class sectoff_ha_value)
    ∷ (37, word_class addr30_value)
    ∷ (68, generic_tls_mod_id)
    ∷ (73, generic_tls_offset)
    ∷ (78, generic_tls_doffset)
    ∷ [])
