-- ===== src/Relocation/Pe.antt =====
-- cle/backends/pe/relocation/: the values of the relocations of PE files, and how they are applied.
-- A base relocation has no symbol. The addresses in the file are linked ones.
use cle.Base.{
  ℕ, ◌^◌, Bool, true, false, not, ◌||◌, Option, none, some, List, ◌==◌, length, if◌then◌else◌,
  Result, ok, err, out_of_fuel, ◌>>=◌, struct_error, type_error, attribute_error,
}
use cle.Base.Int.{ℤ, pos, ltb_ℤ, leb_ℤ}
use cle.Base.Twos.{◌%ℤ◌, ◌>>ℤ◌}
use cle.AddressTranslator.{from_lva, to_mva}
use cle.Memory.Backers.{Clemory}
use cle.Memory.Access.{load, store}
use cle.Memory.Words.{Endness, little_bytes, from_little, pack_word}
use cle.Relocation.{Relocation, rebased_addr}

pub record Site : Type 0 where
  pub reloc : Relocation
  pub memory : Clemory
  pub endness : Endness
  pub word_size : ℕ

-- What `value` returns: bytes, a number, or `None`.
pub data Value : Type 0 where
  nothing : Value
  bytes : List ℕ → Value
  number : ℤ → Value

-- `struct.unpack` of one little-endian number of so many bytes from what has been loaded.
abbrev pub unpack_little : ℕ → List ℕ → Result ℕ
unpack_little width xs = if length xs == width then ok (from_little xs) else err struct_error

abbrev pub word_at : Site → ℕ → Result ℕ
word_at s width = load s.memory s.reloc.relative_addr width >>= unpack_little width

-- `AT.from_lva(x, self.owner).to_mva()`
abbrev pub rebased : Site → ℕ → ℤ
rebased s x = to_mva (from_lva (pos x) s.reloc.owner.space)

-- `IMAGE_REL_BASED_HIGHLOW`, `IMAGE_REL_BASED_DIR64`, `IMAGE_REL_BASED_HIGH`, `IMAGE_REL_BASED_LOW`;
-- a mask of low bits is a remainder.
unfoldable pub highlow : Site → Result Value
unfolding load from_lva to_mva
highlow s = word_at s 4 >>= λ x. ok (bytes (little_bytes 4 (rebased s x %ℤ 2 ^ 32)))

unfoldable pub dir64 : Site → Result Value
unfolding load from_lva to_mva
dir64 s = word_at s 8 >>= λ x.
    if ltb_ℤ (rebased s x) (pos 0) || leb_ℤ (pos (2 ^ 64)) (rebased s x)
    then ok nothing
    else ok (bytes (little_bytes 8 (rebased s x %ℤ 2 ^ 64)))

unfoldable pub high : Site → Result Value
unfolding load from_lva to_mva
high s = word_at s 2 >>= λ x. ok (bytes (little_bytes 2 ((rebased s x >>ℤ 16) %ℤ 2 ^ 16)))

unfoldable pub low : Site → Result Value
unfolding load from_lva to_mva
low s = word_at s 2 >>= λ x. ok (bytes (little_bytes 2 (rebased s x %ℤ 2 ^ 16)))

-- `IMAGE_REL_BASED_HIGHADJ` unpacks four bytes from two; if that passed, it would mask an
-- `AddressTranslator` as if it were a number.
unfoldable pub highadj : Site → Result Value
unfolding load
highadj s =
    load s.memory s.reloc.relative_addr 2 >>= λ xs. unpack_little 4 xs >>= λ x. err type_error

-- `PEReloc.value`, which the classes without a value of their own have.
unfoldable pub symbol_value : Site → Result Value
unfolding rebased_addr
symbol_value s =
    let resolving : Result Value = elim s.reloc.resolvedby [
      | none ↦ err attribute_error
      | some symbol ↦ ok (number (rebased_addr symbol))
    ] in
    if s.reloc.resolved then resolving else ok nothing

-- `PEReloc.relocate`: `store` of a base relocation, whose value has to be bytes, and
-- `Relocation.relocate` where there is a symbol, whose value has to be a number.
abbrev pub stored : Site → Clemory × Result (Unit {0}) → Result Site
stored s (m, ok done) = ok (record s { memory = m })
stored s (m, err e) = err e
stored s (m, out_of_fuel) = out_of_fuel

abbrev pub write_base : Site → Value → Result Site
write_base s nothing = ok s
write_base s (bytes xs) = stored s (store s.memory s.reloc.relative_addr xs)
write_base s (number n) = err type_error

abbrev pub write_import : Site → Value → Result Site
write_import s nothing = err type_error
write_import s (bytes xs) = err type_error
write_import s (number n) =
    pack_word s.endness s.memory s.reloc.relative_addr n s.word_size false >>= λ m.
    ok (record s { memory = m })

unfoldable pub relocate : (Site → Result Value) → Site → Result Site
unfolding store pack_word
relocate value s =
    let written = value s >>= write_import s in
    elim s.reloc.symbol [
      | none ↦ value s >>= write_base s
      | some symbol ↦ if not s.reloc.resolved then ok s else written
    ]

-- `IMAGE_REL_BASED_ABSOLUTE`
abbrev pub relocate_nothing : Site → Result Site
relocate_nothing s = ok s

-- The tables: what a relocation of a type does.
unfoldable pub relocation_table_generic : ℕ → Option (Site → Result Site)
unfolding high low highlow highadj dir64 relocate
relocation_table_generic r_type =
    if r_type == 1
    then some (relocate high)
    else if r_type == 2
    then some (relocate low)
    else if r_type == 3
    then some (relocate highlow)
    else if r_type == 4
    then some (relocate highadj)
    else if r_type == 10
    then some (relocate dir64)
    else none

pub data PeArch : Type 0 where
  pe_amd64 pe_arm pe_x86 pe_mips pe_riscv other_arch : PeArch

-- The types that a table adds, which all have the value of `PEReloc`.
abbrev pub adds : PeArch → ℕ → Bool
adds pe_amd64 r_type = false
adds pe_arm r_type = r_type == 5 || r_type == 7
adds pe_x86 r_type = false
adds pe_mips r_type = r_type == 5 || r_type == 9
adds pe_riscv r_type = r_type == 5 || r_type == 7 || r_type == 8
adds other_arch r_type = false

abbrev pub in_table : PeArch → Bool
in_table other_arch = false
in_table pe_amd64 = true
in_table pe_arm = true
in_table pe_x86 = true
in_table pe_mips = true
in_table pe_riscv = true

unfoldable pub get_relocation : PeArch → ℕ → Option (Site → Result Site)
unfolding relocation_table_generic symbol_value relocate
get_relocation arch r_type =
    if r_type == 0 || not (in_table arch)
    then none
    else if adds arch r_type
    then some (relocate symbol_value)
    else relocation_table_generic r_type

-- `is_base_reloc` and `is_import`
abbrev pub is_base_reloc : Site → Bool
is_base_reloc s = elim s.reloc.symbol [ none ↦ true | some symbol ↦ false ]

abbrev pub is_import : Site → Bool
is_import s = not (is_base_reloc s)
