-- ===== src/Relocation/Arm.antt =====
-- cle/backends/elf/relocation/arm.py. In the functions of numbers `s` and `p` are the address of the
-- symbol and the place, `inst` is the instruction, which is the addend, and `t` is 1 for a function
-- of Thumb code.
use cle.Base.{
  ℕ, Bool, true, false, not, ◌&&◌, Option, List, [], ◌∷◌, ◌==◌, get_or, if◌then◌else◌, Result, ok,
  err, ◌>>=◌, cle_operation_error,
}
use cle.Base.Int.{ℤ, pos, ◌+ℤ◌, ◌-ℤ◌, eqb_ℤ}
use cle.Base.Twos.{◌&ℤ◌, ◌|ℤ◌, ◌^ℤ◌, ◌>>ℤ◌, ◌<<ℤ◌, bit_not_ℤ, ◌%ℤ◌}
use cle.Memory.Access.{load}
use cle.Relocation.{Relocation, Symbol, Resolving, place_addr, for_thumb, is_function}
use cle.Relocation.Generic.{
  Site, Class, target, attribute_of, plainly, class_of, relocate_word, generic_tls_doffset,
  generic_tls_offset, generic_tls_mod_id, generic_absolute_addend, generic_pc_relative_addend,
  generic_jumpslot, generic_relative, generic_copy, entry,
}

unfoldable pub apply_reloc : ℤ → ℤ → ℤ → ℤ
apply_reloc inst result mask =
    if eqb_ℤ (result &ℤ bit_not_ℤ mask) (pos 0)
    then inst &ℤ bit_not_ℤ mask |ℤ result &ℤ mask
    else pos 0

-- `_isThumbFunc`; the attribute of the symbol is read for an odd address only.
unfoldable pub is_thumb_func : Option Symbol → ℤ → Result Bool
unfolding is_function
is_thumb_func symbol addr =
    if addr %ℤ 2 == 1 then (attribute_of symbol >>= λ s. ok (is_function s)) else ok false

abbrev pub to_bit : Bool → ℤ
to_bit true = pos 1
to_bit false = pos 0

abbrev pub has_bits : ℤ → ℤ → Bool
has_bits x mask = not (eqb_ℤ (x &ℤ mask) (pos 0))

-- `R_ARM_CALL`, where the addend is the instruction.
unfoldable pub call : ℤ → ℤ → ℤ → Bool → ℤ
unfolding apply_reloc
call s inst p thumb =
    let a = if has_bits inst (pos 0x00800000) then inst |ℤ pos 0xFF000000 else inst in
    let result = ((s +ℤ (a <<ℤ 2)) |ℤ to_bit thumb) -ℤ p in
    let imm24 = (result &ℤ pos 0x03FFFFFE) >>ℤ 2 in
    let bit_h = (result &ℤ pos 0x02) >>ℤ 1 in
    if thumb
    then apply_reloc inst (pos 0xFA |ℤ bit_h) (pos 0xFF000000)
    else apply_reloc inst imm24 (pos 0xFFFFFF)

unfoldable pub prel31 : ℤ → ℤ → ℤ → Bool → ℤ
unfolding apply_reloc
prel31 s inst p thumb =
    let a = if has_bits inst (pos 0x01000000) then inst |ℤ pos 0xF1000000 else inst in
    let result = ((s +ℤ a) |ℤ to_bit thumb) -ℤ p in
    apply_reloc a (result &ℤ pos 0x7FFFFFFF) (pos 0x7FFFFFFF)

unfoldable pub rel32 : ℤ → ℤ → ℤ → Bool → ℤ
rel32 s a p thumb = ((s +ℤ a) |ℤ to_bit thumb) -ℤ p

unfoldable pub abs32 : ℤ → ℤ → ℤ → Bool → ℤ
abs32 s a p thumb = (s +ℤ a) |ℤ to_bit thumb

-- A 16-bit number in two's complement, as the code reads it.
unfoldable pub signed_half : ℤ → ℤ
signed_half a = if has_bits a (pos 0x8000) then pos 0 -ℤ ((a ^ℤ pos 0xFFFF) +ℤ pos 1) else a

-- The literal of `movw` and `movt`, and its replacement.
unfoldable pub literal : ℤ → ℤ
literal inst = (inst &ℤ pos 0xF0000) >>ℤ 4 |ℤ inst &ℤ pos 0xFFF

unfoldable pub put_literal : ℤ → ℤ → ℤ
put_literal inst half =
    inst &ℤ pos 0xFFF0F000
    |ℤ ((half >>ℤ 12) <<ℤ 16) &ℤ pos 0xF0000
    |ℤ half &ℤ pos 0xFFF &ℤ pos 0xFFF

unfoldable pub movw_abs_nc : ℤ → ℤ → ℤ → Bool → ℤ
unfolding signed_half literal put_literal
movw_abs_nc s inst p thumb =
    put_literal inst (((s +ℤ signed_half (literal inst)) |ℤ to_bit thumb) &ℤ pos 0xFFFF)

unfoldable pub movt_abs : ℤ → ℤ → ℤ
unfolding signed_half literal put_literal
movt_abs s inst = put_literal inst (((s +ℤ signed_half (literal inst)) &ℤ pos 0xFFFF0000) >>ℤ 16)

-- Two little-endian halves of an instruction of Thumb code, and back to a little-endian number.
unfoldable pub thumb_word : List ℕ → ℤ
thumb_word bytes =
    (((pos (get_or bytes 1 0) <<ℤ 8) |ℤ pos (get_or bytes 0 0)) <<ℤ 16)
    |ℤ ((pos (get_or bytes 3 0) <<ℤ 8) |ℤ pos (get_or bytes 2 0))

unfoldable pub as_halves : ℤ → ℤ
as_halves inst =
    (((inst &ℤ pos 0xFF00) >>ℤ 8) <<ℤ 24)
    |ℤ ((inst &ℤ pos 0x00FF) <<ℤ 16)
    |ℤ (((inst &ℤ pos 0xFF000000) >>ℤ 24) <<ℤ 8)
    |ℤ ((inst &ℤ pos 0x00FF0000) >>ℤ 16)

-- The addend of `R_ARM_THM_CALL` in an instruction.
unfoldable pub thm_call_addend : ℤ → ℤ
thm_call_addend inst =
    let sign = has_bits inst (pos 0x04000000) in
    let j1 = to_bit (has_bits inst (pos 0x2000)) ^ℤ to_bit (not sign) in
    let j2 = to_bit (has_bits inst (pos 0x800)) ^ℤ to_bit (not sign) in
    let a =
      (((inst &ℤ pos 0x7FF) <<ℤ 1)
        |ℤ (((inst &ℤ pos 0x03FF0000) >>ℤ 16) <<ℤ 12)
        |ℤ (j1 <<ℤ 23)
        |ℤ (j2 <<ℤ 22))
      &ℤ pos 0x7FFFFF in
    if sign then a |ℤ pos 0xFF800000 else a

-- The instruction with another offset.
unfoldable pub thm_call_put : ℤ → ℤ → ℤ
thm_call_put inst x =
    let sign = has_bits x (pos 0x1000000) in
    let j1 = to_bit (has_bits x (pos 0x800000)) ^ℤ to_bit (not sign) in
    let j2 = to_bit (has_bits x (pos 0x400000)) ^ℤ to_bit (not sign) in
    inst &ℤ bit_not_ℤ (pos 0x07FF2FFF)
    |ℤ (to_bit sign <<ℤ 26)
    |ℤ (j1 <<ℤ 13)
    |ℤ (j2 <<ℤ 11)
    |ℤ ((x &ℤ pos 0xFFE) >>ℤ 1)
    |ℤ (((x &ℤ pos 0x3FF000) >>ℤ 12) <<ℤ 16)

-- Whether the distance is out of the range that is checked.
unfoldable pub out_of_range : ℤ → Bool
out_of_range x =
    not (eqb_ℤ (x &ℤ pos 0xFF800000) (pos 0)) && not (eqb_ℤ (x &ℤ pos 0xFF800000) (pos 0xFF800000))

unfoldable pub thm_call : ℤ → ℤ → ℤ → ℤ → Bool → Result ℤ
unfolding out_of_range thm_call_put as_halves
thm_call s a p inst thumb =
    let x = (((s +ℤ a) |ℤ to_bit thumb) -ℤ p) &ℤ pos 0xFFFFFFFF in
    if out_of_range x then err cle_operation_error else ok (as_halves (thm_call_put inst x))

-- The literal of `movw` and `movt` in Thumb code, and its replacement.
unfoldable pub thm_literal : ℤ → ℤ
thm_literal inst =
    (((inst &ℤ pos 0x04000000) >>ℤ 26) <<ℤ 15)
    |ℤ (((inst &ℤ pos 0x000F0000) >>ℤ 16) <<ℤ 11)
    |ℤ (((inst &ℤ pos 0x7000) >>ℤ 12) <<ℤ 8)
    |ℤ inst &ℤ pos 0xFF

unfoldable pub thm_put_literal : ℤ → ℤ → ℤ → ℤ → ℤ → ℤ
thm_put_literal inst part1 part2 part3 part4 =
    inst &ℤ pos 0xFBF08F00
    |ℤ (part1 <<ℤ 16) &ℤ pos 0x000F0000
    |ℤ (part2 <<ℤ 26) &ℤ pos 0x04000000
    |ℤ (part3 <<ℤ 12) &ℤ pos 0x7000
    |ℤ part4 &ℤ pos 0xFF

unfoldable pub thm_movw_abs_nc : ℤ → ℤ → Bool → ℤ
unfolding signed_half thm_literal thm_put_literal as_halves
thm_movw_abs_nc s inst thumb =
    let x = ((s +ℤ signed_half (thm_literal inst)) |ℤ to_bit thumb) &ℤ pos 0xFFFF in
    as_halves
      (thm_put_literal inst (x >>ℤ 12) ((x >>ℤ 11) &ℤ pos 1) ((x >>ℤ 8) &ℤ pos 7) (x &ℤ pos 0xFF))

unfoldable pub thm_movt_abs : ℤ → ℤ → ℤ
unfolding signed_half thm_literal thm_put_literal as_halves
thm_movt_abs s inst =
    let x = (s +ℤ signed_half (thm_literal inst)) &ℤ pos 0xFFFF0000 in
    as_halves (
      thm_put_literal inst (x >>ℤ 28) ((x >>ℤ 27) &ℤ pos 1) ((x >>ℤ 24) &ℤ pos 7)
        ((x >>ℤ 16) &ℤ pos 0xFF))

-- A value of the symbol's address, the addend, the place, and whether the target is Thumb code.
unfoldable pub of_target : (ℤ → ℤ → ℤ → Bool → ℤ) → Relocation → Result ℤ
unfolding target is_thumb_func place_addr
of_target f r =
    target r >>= λ s. is_thumb_func r.symbol s >>= λ t. ok (f s r.addend (place_addr r) t)

unfoldable pub movt_abs_value : Relocation → Result ℤ
unfolding movt_abs target
movt_abs_value r = target r >>= λ s. ok (movt_abs s r.addend)

abbrev instruction_at : Site → Result ℤ
instruction_at s = load s.memory s.reloc.relative_addr 4 >>= λ bytes. ok (thumb_word bytes)

-- The instruction is cached when the value is first read, which is before it is changed.
unfoldable pub thm_call_value : Site → Result ℤ
unfolding target is_thumb_func thumb_word thm_call_addend thm_call place_addr
thm_call_value s = target s.reloc >>= λ a. is_thumb_func s.reloc.symbol a >>= λ t.
    instruction_at s >>= λ inst.
    thm_call a (if s.reloc.is_rela then s.reloc.addend else thm_call_addend inst)
      (place_addr s.reloc) inst t

unfoldable pub thm_movw_value : Site → Result ℤ
unfolding target is_thumb_func thumb_word thm_movw_abs_nc
thm_movw_value s = instruction_at s >>= λ inst.
    target s.reloc >>= λ a. is_thumb_func s.reloc.symbol a >>= λ t. ok (thm_movw_abs_nc a inst t)

unfoldable pub thm_movt_value : Site → Result ℤ
unfolding target thumb_word thm_movt_abs
thm_movt_value s = instruction_at s >>= λ inst. target s.reloc >>= λ a. ok (thm_movt_abs a inst)

abbrev arm_class : (ℤ → ℤ → ℤ → Bool → ℤ) → Class
arm_class f = class_of plainly (of_target f) relocate_word

abbrev thumb_class : Resolving → (Site → Result ℤ) → Class
thumb_class resolving value = record {
  resolving = resolving;
  value = value;
  relocate = relocate_word;
}

abbrev thm_call_class : Class
thm_call_class = thumb_class (record plainly { rule = for_thumb }) thm_call_value

-- The generic class comes before the mix-ins, so theirs are not the methods that are found.
abbrev pub got_prel : Class
got_prel = generic_pc_relative_addend

abbrev pub relocation_table_arm : ℕ → Option Class
relocation_table_arm n = entry n (
    (1, arm_class call)
    ∷ (2, arm_class abs32)
    ∷ (3, arm_class rel32)
    ∷ (10, thm_call_class)
    ∷ (17, generic_tls_mod_id)
    ∷ (18, generic_tls_doffset)
    ∷ (19, generic_tls_offset)
    ∷ (20, generic_copy)
    ∷ (21, generic_jumpslot)
    ∷ (22, generic_jumpslot)
    ∷ (23, generic_relative)
    ∷ (28, arm_class call)
    ∷ (29, arm_class call)
    ∷ (30, thm_call_class)
    ∷ (42, arm_class prel31)
    ∷ (43, arm_class movw_abs_nc)
    ∷ (44, class_of plainly movt_abs_value relocate_word)
    ∷ (47, thumb_class plainly thm_movw_value)
    ∷ (48, thumb_class plainly thm_movt_value)
    ∷ (51, thm_call_class)
    ∷ (52, thm_call_class)
    ∷ (55, generic_absolute_addend)
    ∷ (56, generic_pc_relative_addend)
    ∷ (96, got_prel)
    ∷ [])
