-- ===== src/Relocation/Arm64.antt =====
-- cle/backends/elf/relocation/arm64.py: the values, and how they are put into an instruction.
-- Values out of range are logged only.
use cle.Base.{ℕ, Option, [], ◌∷◌, Result, ok, ◌>>=◌}
use cle.Base.Int.{ℤ, pos, ◌+ℤ◌, ◌-ℤ◌}
use cle.Base.Twos.{◌&ℤ◌, ◌|ℤ◌, ◌>>ℤ◌, ◌<<ℤ◌, bit_not_ℤ}
use cle.Relocation.{Relocation, place_addr}
use cle.Relocation.Generic.{
  Class, target, plainly, class_of, relocate_instruction, absolute_addend_value,
  pc_relative_addend_value, generic_tls_doffset, generic_tls_offset, generic_tls_descriptor,
  generic_tls_mod_id, generic_irelative, generic_absolute_addend, generic_pc_relative_addend,
  generic_jumpslot, generic_relative, generic_copy, entry,
}

-- `R_AARCH64_JUMP26` and `R_AARCH64_CALL26`: bits 27 to 2 of the value.
unfoldable pub patch_imm26 : ℤ → ℤ → ℤ
patch_imm26 instr v = instr &ℤ pos 0xFC000000 |ℤ (v >>ℤ 2) &ℤ pos 0x03FFFFFF

-- The distance between the pages of two addresses.
unfoldable pub page_distance : ℤ → ℤ → ℤ
page_distance x p = (x &ℤ bit_not_ℤ (pos 0xFFF)) -ℤ (p &ℤ bit_not_ℤ (pos 0xFFF))

unfoldable pub page_value : Relocation → Result ℤ
unfolding page_distance target place_addr
page_value r = target r >>= λ s. ok (page_distance (s +ℤ r.addend) (place_addr r))

-- `R_AARCH64_ADR_PREL_PG_HI21`: the lowest two bits of the page number stand apart.
unfoldable pub patch_page : ℤ → ℤ → ℤ
patch_page instr v =
    let imm = (v >>ℤ 12) &ℤ pos 0x1FFFFF in
    instr &ℤ pos 0x9F00001F |ℤ ((imm >>ℤ 2) <<ℤ 5) |ℤ ((imm &ℤ pos 3) <<ℤ 29)

-- The classes of a 12-bit offset, which is counted in units of `2 ^ k` bytes.
unfoldable pub patch_lo12 : ℕ → ℤ → ℤ → ℤ
patch_lo12 k instr v = instr &ℤ pos 0xFFC003FF |ℤ (((v &ℤ pos 0xFFF) >>ℤ k) <<ℤ 10)

abbrev lo12_class : ℕ → Class
lo12_class k = class_of plainly absolute_addend_value (relocate_instruction (patch_lo12 k))

abbrev branch_class : Class
branch_class = class_of plainly pc_relative_addend_value (relocate_instruction patch_imm26)

abbrev page_class : Class
page_class = class_of plainly page_value (relocate_instruction patch_page)

abbrev pub relocation_table_arm64 : ℕ → Option Class
relocation_table_arm64 n = entry n (
    (257, generic_absolute_addend)
    ∷ (258, generic_copy)
    ∷ (261, generic_pc_relative_addend)
    ∷ (275, page_class)
    ∷ (277, lo12_class 0)
    ∷ (278, lo12_class 0)
    ∷ (282, branch_class)
    ∷ (283, branch_class)
    ∷ (284, lo12_class 1)
    ∷ (285, lo12_class 2)
    ∷ (286, lo12_class 3)
    ∷ (299, lo12_class 4)
    ∷ (1024, generic_copy)
    ∷ (1025, generic_jumpslot)
    ∷ (1026, generic_jumpslot)
    ∷ (1027, generic_relative)
    ∷ (1028, generic_tls_mod_id)
    ∷ (1029, generic_tls_doffset)
    ∷ (1030, generic_tls_offset)
    ∷ (1031, generic_tls_descriptor (pos 0xFFFFFFFFFFFFFE00))
    ∷ (1032, generic_irelative)
    ∷ [])
