-- ===== src/Relocation/Sparc.antt =====
-- cle/backends/elf/relocation/sparc.py: relocations that put a part of an address into an
-- instruction, which is read from the memory.
use cle.Base.{ℕ, Option, [], ◌∷◌, Result, ok, ◌>>=◌}
use cle.Base.Int.{ℤ, pos, ◌+ℤ◌, ◌-ℤ◌}
use cle.Base.Twos.{◌&ℤ◌, ◌|ℤ◌, ◌>>ℤ◌}
use cle.Memory.Access.{load}
use cle.Memory.Words.{from_little, flip}
use cle.Relocation.{place_addr}
use cle.Relocation.Generic.{Site, Class, target, relocate_word, plainly, entry}

abbrev big_endian_word : Site → Result ℤ
big_endian_word s =
    load s.memory s.reloc.relative_addr 4 >>= λ bytes. ok (pos (from_little (flip bytes)))

unfoldable pub hi22 : ℤ → ℤ → ℤ
hi22 instr address = instr &ℤ pos 0xFFC00000 |ℤ (address >>ℤ 10) &ℤ pos 0x3FFFFF

unfoldable pub wdisp30 : ℤ → ℤ → ℤ
wdisp30 instr distance = instr &ℤ pos 0xC0000000 |ℤ (distance >>ℤ 2) &ℤ pos 0x3FFFFFFF

unfoldable pub lo10 : ℤ → ℤ → ℤ
lo10 instr address = instr &ℤ pos 0xFFFFE000 |ℤ address &ℤ pos 0x3FF &ℤ pos 0x1FFF

unfoldable pub hi22_value : Site → Result ℤ
unfolding hi22 target
hi22_value s =
    target s.reloc >>= λ a. big_endian_word s >>= λ instr. ok (hi22 instr (a +ℤ s.reloc.addend))

unfoldable pub wdisp30_value : Site → Result ℤ
unfolding wdisp30 target place_addr
wdisp30_value s = target s.reloc >>= λ a.
    big_endian_word s >>= λ instr. ok (wdisp30 instr (a +ℤ s.reloc.addend -ℤ place_addr s.reloc))

unfoldable pub lo10_value : Site → Result ℤ
unfolding lo10 target
lo10_value s =
    target s.reloc >>= λ a. big_endian_word s >>= λ instr. ok (lo10 instr (a +ℤ s.reloc.addend))

abbrev class_with : (Site → Result ℤ) → Class
class_with value = record { resolving = plainly; value = value; relocate = relocate_word }

abbrev pub relocation_table_sparc : ℕ → Option Class
relocation_table_sparc n =
    entry n (
      (7, class_with wdisp30_value) ∷ (9, class_with hi22_value) ∷ (12, class_with lo10_value) ∷ [])
