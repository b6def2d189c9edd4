-- ===== src/Relocation/Ppc64.antt =====
-- cle/backends/elf/relocation/ppc64.py
use cle.Base.{ℕ, false, Option, none, some, [], ◌∷◌, if◌then◌else◌, Result, ok, ◌>>=◌}
use cle.Base.Int.{ℤ, pos, ◌+ℤ◌, ◌-ℤ◌}
use cle.Base.Twos.{◌&ℤ◌, ◌|ℤ◌, ◌<<ℤ◌}
use cle.Memory.Words.{unpack_word}
use cle.Relocation.Ppc.{low_half, high_half, high_adjusted, addr30_value}
use cle.Relocation.Generic.{
  Site, Class, Apply, put_word, target, attribute_of, plainly, class_of, relocate_word,
  relocate_half, relocate_instruction, class_without_value, generic_tls_doffset, generic_tls_offset,
  generic_tls_mod_id, generic_irelative, generic_absolute_addend, generic_jumpslot,
  generic_relative, entry,
}

-- Under the first version of the ABI a slot gets a whole function descriptor. All of it is read
-- first, from the object that resolves it.
unfoldable pub relocate_jmp_slot64 : Apply
unfolding target
relocate_jmp_slot64 value s =
    let get = λ (offset : ℕ). attribute_of s.reloc.resolvedby >>= λ by.
    unpack_word s.arch.endness s.provider_memory (by.relative_addr +ℤ pos offset) s.arch.word_size
      false in
    let put = λ (t : Site) (offset : ℕ) (v : ℤ).
      put_word t (s.reloc.relative_addr +ℤ pos offset) s.arch.word_size v in
    if s.is_ppc64_abiv1
    then (get 0 >>= λ addr. get 8 >>= λ toc.
        get 16 >>= λ aux. put s 0 addr >>= λ s1. put s1 8 toc >>= λ s2. put s2 16 aux)
    else target s.reloc >>= λ v. put_word s s.reloc.relative_addr s.arch.word_size v

unfoldable pub patch_rel24 : ℤ → ℤ → ℤ
patch_rel24 instr v = instr &ℤ pos 0xFC000003 |ℤ ((v &ℤ pos 0xFFFFFF) <<ℤ 2)

unfoldable pub from_toc : Site → Result ℤ
unfolding target
from_toc s = target s.reloc >>= λ a. elim s.ppc64_initial_rtoc [
  | none ↦ ok (a +ℤ s.reloc.addend)
  | some toc ↦ ok (a +ℤ s.reloc.addend -ℤ toc)
]

unfoldable pub toc16_lo_value : Site → Result ℤ
unfolding from_toc low_half
toc16_lo_value s = from_toc s >>= λ x. ok (low_half x)

unfoldable pub toc16_hi_value : Site → Result ℤ
unfolding from_toc high_half
toc16_hi_value s = from_toc s >>= λ x. ok (high_half x)

unfoldable pub toc16_ha_value : Site → Result ℤ
unfolding from_toc high_adjusted
toc16_ha_value s = from_toc s >>= λ x. ok (high_adjusted x)

unfoldable pub toc_value : Site → Result ℤ
toc_value s = elim s.ppc64_initial_rtoc [ none ↦ ok (pos 0) | some toc ↦ ok toc ]

abbrev site_class : (Site → Result ℤ) → Apply → Class
site_class value apply = record { resolving = plainly; value = value; relocate = apply }

abbrev pub relocation_table_ppc64 : ℕ → Option Class
relocation_table_ppc64 n = entry n (
    (10, class_of plainly addr30_value (relocate_instruction patch_rel24))
    ∷ (20, generic_jumpslot)
    ∷ (21, class_without_value plainly relocate_jmp_slot64)
    ∷ (22, generic_relative)
    ∷ (38, generic_absolute_addend)
    ∷ (48, site_class toc16_lo_value relocate_half)
    ∷ (49, site_class toc16_hi_value relocate_half)
    ∷ (50, site_class toc16_ha_value relocate_half)
    ∷ (51, site_class toc_value relocate_word)
    ∷ (68, generic_tls_mod_id)
    ∷ (73, generic_tls_offset)
    ∷ (78, generic_tls_doffset)
    ∷ (248, generic_irelative)
    ∷ [])
