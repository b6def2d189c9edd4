-- ===== src/Relocation/Generic.antt =====
-- cle/backends/elf/relocation/generic.py: the values of the generic relocations and how they are
-- applied. A class is a record: how it is resolved, its `value` and its `relocate`, which the
-- classes of the architectures fill. The flag that `relocate` returns is read by no caller.
use cle.Base.{
  ℕ, ◌-◌, ◌^◌, Bool, true, false, not, ◌&&◌, ◌||◌, Option, none, some, List, [], ◌∷◌, ◌++◌, ◌==◌,
  ltb, if◌then◌else◌, Result, ok, err, ◌>>=◌, attribute_error, assertion_error, cle_operation_error,
  cle_invalid_binary_error, key_error,
}
use cle.Base.Int.{ℤ, pos, ◌+ℤ◌, ◌-ℤ◌, eqb_ℤ}
use cle.Base.Twos.{◌&ℤ◌, ◌>>ℤ◌, ◌%ℤ◌}
use cle.AddressTranslator.{from_lva, to_mva}
use cle.Memory.Backers.{Clemory}
use cle.Memory.Access.{load, store}
use cle.Memory.Words.{Endness, pack_word, unpack_word}
use cle.Relocation.{
  Holder, Symbol, Relocation, Resolving, by_search, by_none, by_others, is_no_type, rebased_addr,
  place_addr,
}

-- What the code reads of the architecture.
pub record Arch : Type 0 where
  pub bits : ℕ
  pub word_size : ℕ
  pub endness : Endness
  pub tp_offset : ℤ

-- A relocation with the memory and the list `irelatives` of its owner, which it changes, what it
-- reads of the dynamic section, and the memory of the object that resolves it.
pub record Site : Type 0 where
  pub reloc : Relocation
  pub memory : Clemory
  pub irelatives : List (ℤ × ℤ)
  pub arch : Arch
  pub provider_memory : Clemory
  pub mips_base_address : Option ℤ
  pub has_got_entry : Bool
  pub is_ppc64_abiv1 : Bool
  pub ppc64_initial_rtoc : Option ℤ

-- `self.resolvedby`, `self.symbol` and `self.resolvedby.rebased_addr`, whose attributes `None` does
-- not have.
abbrev pub attribute_of : Option Symbol → Result Symbol
attribute_of none = err attribute_error
attribute_of (some s) = ok s

unfoldable pub target : Relocation → Result ℤ
unfolding rebased_addr
target r = attribute_of r.resolvedby >>= λ s. ok (rebased_addr s)

unfoldable pub tls_doffset_value : Relocation → Result ℤ
tls_doffset_value r = attribute_of r.symbol >>= λ s. ok (r.addend +ℤ s.relative_addr)

unfoldable pub absolute_addend_value : Relocation → Result ℤ
unfolding target
absolute_addend_value r = target r >>= λ s. ok (s +ℤ r.addend)

unfoldable pub pc_relative_addend_value : Relocation → Result ℤ
unfolding target place_addr
pc_relative_addend_value r = target r >>= λ s. ok (s +ℤ r.addend -ℤ place_addr r)

unfoldable pub jumpslot_value : Relocation → Result ℤ
unfolding target
jumpslot_value r = target r >>= λ s. ok (if r.is_rela then s +ℤ r.addend else s)

unfoldable pub relative_value : Relocation → Result ℤ
unfolding rebased_addr
relative_value r = elim r.resolvedby [
  | some s ↦ ok (rebased_addr s)
  | none ↦ ok (r.owner.space.mapped_base +ℤ r.addend)
]

unfoldable pub absolute_value : Relocation → Result ℤ
unfolding target
absolute_value r = target r

-- A write of one word at an address of the owner's memory.
abbrev pub put_word : Site → ℤ → ℕ → ℤ → Result Site
put_word s addr width value =
    pack_word s.arch.endness s.memory addr value width false >>= λ m. ok (record s { memory = m })

-- A class: how it is resolved, its value, and its `relocate`, which is given the value.
abbrev pub Apply : Type 0
Apply = Result ℤ → Site → Result Site

pub record Class : Type 0 where
  pub resolving : Resolving
  pub value : Site → Result ℤ
  pub relocate : Apply

-- `Relocation.relocate`
unfoldable pub relocate_word : Apply
relocate_word value s =
    if not s.reloc.resolved
    then ok s
    else value >>= λ v. put_word s s.reloc.relative_addr s.arch.word_size v

-- A `relocate` that writes half a word.
unfoldable pub relocate_half : Apply
relocate_half value s =
    if not s.reloc.resolved then ok s else value >>= λ v. put_word s s.reloc.relative_addr 2 v

-- A `relocate` that changes the four bytes of an instruction by the value.
unfoldable pub relocate_instruction : (ℤ → ℤ → ℤ) → Apply
relocate_instruction change value s =
    if not s.reloc.resolved
    then ok s
    else value >>= λ v.
        unpack_word s.arch.endness s.memory s.reloc.relative_addr 4 false >>= λ instr.
        put_word s s.reloc.relative_addr 4 (change instr v)

-- The object that a relocation of thread-local storage is about, and the offset in it.
abbrev pub tls_holder : Relocation → Holder
tls_holder r = elim r.resolvedby [ none ↦ r.owner | some s ↦ s.owner ]

abbrev pub tls_addr : Relocation → ℤ
tls_addr r = elim r.resolvedby [ none ↦ pos 0 | some s ↦ s.relative_addr ]

abbrev pub block_offset : Holder → Result ℤ
block_offset h = elim h.tls_block_offset [
  | none ↦ err cle_invalid_binary_error
  | some offset ↦ ok offset
]

unfoldable pub relocate_tls_offset : Apply
relocate_tls_offset value s = block_offset (tls_holder s.reloc) >>= λ offset.
    put_word s s.reloc.relative_addr s.arch.word_size
      (offset +ℤ s.reloc.addend +ℤ tls_addr s.reloc -ℤ s.arch.tp_offset)

unfoldable pub relocate_tls_descriptor : ℤ → Apply
relocate_tls_descriptor resolver value s = block_offset (tls_holder s.reloc) >>= λ offset.
    put_word s s.reloc.relative_addr s.arch.word_size resolver >>= λ s'.
    attribute_of s.reloc.symbol >>= λ symbol.
    put_word s' (s.reloc.relative_addr +ℤ pos s.arch.word_size) s.arch.word_size
      (offset +ℤ s.reloc.addend +ℤ symbol.relative_addr)

unfoldable pub relocate_tls_module_id : Apply
relocate_tls_module_id value s = attribute_of s.reloc.symbol >>= λ symbol.
    (if is_no_type symbol.kind
      then ok s.reloc.owner
      else (attribute_of s.reloc.resolvedby >>= λ by. ok by.owner))
    >>= λ h. put_word s s.reloc.relative_addr s.arch.word_size h.tls_module_id

unfoldable pub relocate_irelative : Apply
unfolding target from_lva to_mva
relocate_irelative value s = attribute_of s.reloc.symbol >>= λ symbol.
    (if is_no_type symbol.kind
      then ok (to_mva (from_lva s.reloc.addend s.reloc.owner.space))
      else target s.reloc)
    >>= λ resolver.
        ok (record s { irelatives = s.irelatives ++ (resolver, s.reloc.relative_addr) ∷ [] })

-- The bytes of the symbol that resolves it, unless the sizes differ, which is logged.
unfoldable pub relocate_copy : Apply
relocate_copy value s = attribute_of s.reloc.resolvedby >>= λ by.
    attribute_of s.reloc.symbol >>= λ symbol.
    if not (by.size == symbol.size) && (not (by.size == 0) || not by.is_extern)
    then ok s
    else load s.provider_memory by.relative_addr by.size >>= λ bytes.
        let (m, done) = store s.memory s.reloc.relative_addr bytes in
        done >>= λ _. ok (record s { memory = m })

unfoldable pub relocate_mips_local : Apply
relocate_mips_local value s =
    let base = s.reloc.owner.space.mapped_base in
    if eqb_ℤ base (pos 0) then ok s else elim s.mips_base_address [
      | none ↦ err key_error
      | some linked ↦
          if eqb_ℤ (base -ℤ linked) (pos 0)
          then ok s
          else unpack_word s.arch.endness s.memory s.reloc.relative_addr s.arch.word_size false
            >>= λ v. put_word s s.reloc.relative_addr s.arch.word_size (v +ℤ (base -ℤ linked))
    ]

-- The test of `RelocTruncate32Mixin`. The conditional expression takes in the whole condition, so
-- a value whose bit 31 is clear is never refused.
unfoldable pub is_truncated : Bool → Bool → ℕ → ℤ → Bool
is_truncated check_zero_extend check_sign_extend bits val =
    if eqb_ℤ (val >>ℤ 31 &ℤ pos 1) (pos 1)
    then check_zero_extend && not (eqb_ℤ (val >>ℤ 32) (pos 0))
      || check_sign_extend && not (eqb_ℤ (val >>ℤ 32) (pos (2 ^ (bits - 32) - 1)))
    else false

unfoldable pub relocate_truncated : Bool → Bool → Apply
unfolding is_truncated
relocate_truncated check_zero_extend check_sign_extend value s =
    if ltb s.arch.bits 32
    then err assertion_error
    else value >>= λ v.
        let val = pos (v %ℤ 2 ^ s.arch.bits) in
        if is_truncated check_zero_extend check_sign_extend s.arch.bits val
        then err cle_operation_error
        else put_word s s.reloc.relative_addr 4 val

abbrev pub plainly : Resolving
plainly = record { auto_handle_none = false; through_got = false; rule = by_search }

abbrev pub allowing_none : Resolving
allowing_none = record plainly { auto_handle_none = true }

abbrev pub getting_got : Resolving
getting_got = record plainly { through_got = true }

-- The property `value` of a class that does not override it.
abbrev pub no_value : Site → Result ℤ
no_value s = ok (pos 0)

abbrev pub class_of : Resolving → (Relocation → Result ℤ) → Apply → Class
class_of resolving value apply = record {
  resolving = resolving;
  value = λ s. value s.reloc;
  relocate = apply;
}

abbrev pub class_without_value : Resolving → Apply → Class
class_without_value resolving apply = record {
  resolving = resolving;
  value = no_value;
  relocate = apply;
}

-- The classes of the module.
abbrev pub generic_tls_doffset : Class
generic_tls_doffset = class_of (record plainly { rule = by_none }) tls_doffset_value relocate_word

abbrev pub generic_tls_offset : Class
generic_tls_offset = class_without_value allowing_none relocate_tls_offset

abbrev pub generic_tls_descriptor : ℤ → Class
generic_tls_descriptor resolver =
    class_without_value allowing_none (relocate_tls_descriptor resolver)

abbrev pub generic_tls_mod_id : Class
generic_tls_mod_id = class_without_value allowing_none relocate_tls_module_id

abbrev pub generic_irelative : Class
generic_irelative = class_without_value allowing_none relocate_irelative

abbrev pub generic_absolute_addend : Class
generic_absolute_addend = class_of plainly absolute_addend_value relocate_word

abbrev pub generic_pc_relative_addend : Class
generic_pc_relative_addend = class_of plainly pc_relative_addend_value relocate_word

abbrev pub generic_jumpslot : Class
generic_jumpslot = class_of plainly jumpslot_value relocate_word

abbrev pub generic_relative : Class
generic_relative = class_of allowing_none relative_value relocate_word

abbrev pub generic_absolute : Class
generic_absolute = class_of plainly absolute_value relocate_word

abbrev pub generic_copy : Class
generic_copy = class_without_value (record plainly { rule = by_others }) relocate_copy

abbrev pub mips_local : Class
mips_local = class_without_value (record allowing_none { rule = by_none }) relocate_mips_local

-- A dictionary from numbers.
abbrev pub entry {ℓ} : {A : Type ℓ} → ℕ → List (ℕ × A) → Option A
entry n [] = none
entry n ((k, c) ∷ rest) = if n == k then some c else entry n rest

-- `obj.relocate()`: only a relocation that has been resolved is applied.
unfoldable pub apply_class : Class → Site → Result Site
apply_class c s = if s.reloc.resolved then c.relocate (c.value s) s else ok s
