-- ===== src/Relocation/Mips.antt =====
-- cle/backends/elf/relocation/mips.py
use cle.Base.{ℕ, not, Option, [], ◌∷◌, if◌then◌else◌, ok, ◌>>=◌}
use cle.Base.Int.{pos}
use cle.Base.Twos.{◌&ℤ◌, ◌>>ℤ◌}
use cle.Relocation.Generic.{
  Class, Apply, put_word, plainly, class_of, absolute_value, generic_absolute_addend,
  generic_relative, generic_absolute, generic_tls_mod_id, generic_tls_offset, generic_tls_doffset,
  generic_copy, entry,
}

unfoldable pub relocate_hi16 : Apply
relocate_hi16 value s =
    if not s.reloc.resolved
    then ok s
    else value >>= λ v. put_word s s.reloc.relative_addr 2 (v >>ℤ 16)

unfoldable pub relocate_lo16 : Apply
relocate_lo16 value s =
    if not s.reloc.resolved
    then ok s
    else value >>= λ v. put_word s s.reloc.relative_addr 2 (v &ℤ pos 0xFFFF)

abbrev pub mips_hi16 : Class
mips_hi16 = class_of plainly absolute_value relocate_hi16

abbrev pub mips_lo16 : Class
mips_lo16 = class_of plainly absolute_value relocate_lo16

abbrev pub relocation_table_mips : ℕ → Option Class
relocation_table_mips n = entry n (
    (2, generic_absolute_addend)
    ∷ (3, generic_relative)
    ∷ (5, mips_hi16)
    ∷ (6, mips_lo16)
    ∷ (18, generic_absolute_addend)
    ∷ (38, generic_tls_mod_id)
    ∷ (39, generic_tls_doffset)
    ∷ (40, generic_tls_mod_id)
    ∷ (41, generic_tls_doffset)
    ∷ (47, generic_tls_offset)
    ∷ (48, generic_tls_offset)
    ∷ (51, generic_absolute)
    ∷ (126, generic_copy)
    ∷ (127, generic_absolute)
    ∷ [])
