-- ===== src/Relocation/X86.antt =====
-- cle/backends/elf/relocation/i386.py, amd64.py and s390x.py: tables of generic classes.
use cle.Base.{ℕ, true, false, Option, [], ◌∷◌}
use cle.Relocation.Generic.{
  Class, plainly, getting_got, class_of, pc_relative_addend_value, absolute_addend_value,
  relocate_truncated, generic_absolute_addend, generic_pc_relative_addend, generic_copy,
  generic_jumpslot, generic_relative, generic_tls_offset, generic_tls_mod_id, generic_tls_doffset,
  generic_irelative, entry,
}

-- The base class comes before the mix-in, so its `resolve` is the one that is found.
abbrev pub i386_gotpc : Class
i386_gotpc = generic_pc_relative_addend

abbrev pub relocation_table_i386 : ℕ → Option Class
relocation_table_i386 n = entry n (
    (1, generic_absolute_addend)
    ∷ (2, generic_pc_relative_addend)
    ∷ (4, generic_pc_relative_addend)
    ∷ (5, generic_copy)
    ∷ (6, generic_jumpslot)
    ∷ (7, generic_jumpslot)
    ∷ (8, generic_relative)
    ∷ (10, i386_gotpc)
    ∷ (14, generic_tls_offset)
    ∷ (35, generic_tls_mod_id)
    ∷ (36, generic_tls_doffset)
    ∷ (42, generic_irelative)
    ∷ [])

abbrev pub amd64_pc32 : Class
amd64_pc32 = class_of plainly pc_relative_addend_value (relocate_truncated false true)

abbrev pub amd64_32 : Class
amd64_32 = class_of plainly absolute_addend_value (relocate_truncated true false)

abbrev pub amd64_32s : Class
amd64_32s = class_of plainly absolute_addend_value (relocate_truncated false true)

abbrev pub amd64_gotpcrel : Class
amd64_gotpcrel = class_of getting_got pc_relative_addend_value (relocate_truncated false true)

abbrev pub relocation_table_amd64 : ℕ → Option Class
relocation_table_amd64 n = entry n (
    (1, generic_absolute_addend)
    ∷ (2, amd64_pc32)
    ∷ (4, amd64_pc32)
    ∷ (5, generic_copy)
    ∷ (6, generic_jumpslot)
    ∷ (7, generic_jumpslot)
    ∷ (8, generic_relative)
    ∷ (9, amd64_gotpcrel)
    ∷ (10, amd64_32)
    ∷ (11, amd64_32s)
    ∷ (16, generic_tls_mod_id)
    ∷ (17, generic_tls_doffset)
    ∷ (18, generic_tls_offset)
    ∷ (37, generic_irelative)
    ∷ (41, amd64_gotpcrel)
    ∷ (42, amd64_gotpcrel)
    ∷ [])

abbrev pub relocation_table_s390x : ℕ → Option Class
relocation_table_s390x n = entry n (
    (9, generic_copy)
    ∷ (10, generic_jumpslot)
    ∷ (11, generic_jumpslot)
    ∷ (12, generic_relative)
    ∷ (22, generic_absolute_addend)
    ∷ (56, generic_tls_offset)
    ∷ (61, generic_irelative)
    ∷ [])
