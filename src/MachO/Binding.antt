-- ===== src/MachO/Binding.antt =====
-- The interpreter of binding opcodes in cle/backends/macho/binding.py. The binary is a value `W`
-- that only the bind handler changes, beside its segments; a symbol's name is the list of its
-- characters' codes. A handler may raise, and what the state and the binary are then goes on where
-- the source catches a `KeyError`.
pub mod Loop
pub mod Progress
pub mod Ends
pub mod Addresses
use cle.Base.{
  ℕ, zero, suc, ◌+◌, ◌-◌, ◌*◌, ◌/◌, ◌%◌, ◌^◌, Bool, true, false, not, ◌&&◌, ◌||◌, Option, none,
  some, List, [], ◌∷◌, ◌++◌, length, get_elem?, ltb, leb, ◌==◌, if◌then◌else◌, Exception, Result,
  ok, err, out_of_fuel, key_error, index_error, cle_invalid_binary_error,
}
use cle.Base.Int.{ℤ, pos, ◌+ℤ◌, ◌-ℤ◌, leb_ℤ, ltb_ℤ, to_ℕ}
use cle.Region.{Region}
use cle.Regions.{Regions}
use cle.Regions
use cle.MachO.Leb.{read_uleb, read_sleb}

pub record BindingState : Type 0 where
  pub index : ℕ
  pub done : Bool
  pub lib_ord : ℤ
  pub sym_name : List ℕ
  pub sym_flags : ℕ
  pub binding_type : ℕ
  pub addend : ℤ
  pub segment_index : ℕ
  pub address : ℤ
  pub seg_end_address : ℤ
  pub sizeof_intptr_t : ℕ

-- `BindingState(is_64)`; `wraparound` is a constant.
unfoldable pub new : Bool → BindingState
new is_64 = record {
  index = 0;
  done = false;
  lib_ord = pos 0;
  sym_name = [];
  sym_flags = 0;
  binding_type = 0;
  addend = pos 0;
  segment_index = 0;
  address = pos 0;
  seg_end_address = pos 0;
  sizeof_intptr_t = if is_64 then 8 else 4;
}

abbrev pub wraparound : ℕ
wraparound = 2 ^ 64

unfoldable pub add_address_ov : ℤ → ℤ → BindingState → BindingState
add_address_ov address addend s =
    let tmp = address +ℤ addend in
    record s { address = if ltb_ℤ (pos wraparound) tmp then tmp -ℤ pos wraparound else tmp }

abbrev pub segment_end : Region → ℤ
segment_end seg = seg.vaddr +ℤ pos seg.memsize

-- A handler's outcome: the state, the binary, and whether it raised.
pub record Outcome {ℓ} (W : Type ℓ) : Type ℓ where
  pub state : BindingState
  pub binary : W
  pub ended : Result (Unit {0})

-- `i | 0xf0`, less 256, for an immediate of four bits.
abbrev pub special_ordinal : ℕ → ℤ
special_ordinal zero = pos 0
special_ordinal (suc i) = pos (suc i % 16 + 240) -ℤ pos 256

-- The loop over the characters of a name, from the index on: the name and the index of the zero
-- byte, or the exception at the end of the blob with what was read.
unfoldable pub name_loop : List ℕ → List ℕ → ℕ → List ℕ × (ℕ × Bool)
name_loop [] name index = (name, (index, false))
name_loop (zero ∷ bs) name index = (name, (index, true))
name_loop (suc b ∷ bs) name index = name_loop bs (name ++ suc b ∷ []) (suc index)

-- The opcodes, by their upper four bits.
pub data Opcode : Type 0 where
  op_done set_dylib_ordinal_imm set_dylib_ordinal_uleb set_dylib_special_imm : Opcode
  set_symbol_trailing_flags_imm set_type_imm set_addend_sleb : Opcode
  set_segment_and_offset_uleb add_addr_uleb do_bind do_bind_add_addr_uleb : Opcode
  do_bind_add_addr_imm_scaled do_bind_uleb_times_skipping_uleb : Opcode

-- The opcodes in the order of their numbers, and whether the dictionary of the lazy bindings has
-- one too.
abbrev pub opcodes : List Opcode
opcodes =
    op_done ∷ set_dylib_ordinal_imm ∷ set_dylib_ordinal_uleb ∷ set_dylib_special_imm
    ∷ set_symbol_trailing_flags_imm ∷ set_type_imm ∷ set_addend_sleb ∷ set_segment_and_offset_uleb
    ∷ add_addr_uleb ∷ do_bind ∷ do_bind_add_addr_uleb ∷ do_bind_add_addr_imm_scaled
    ∷ do_bind_uleb_times_skipping_uleb ∷ []

abbrev pub is_lazy_opcode : Opcode → Bool
is_lazy_opcode set_addend_sleb = false
is_lazy_opcode add_addr_uleb = false
is_lazy_opcode do_bind_add_addr_uleb = false
is_lazy_opcode do_bind_add_addr_imm_scaled = false
is_lazy_opcode do_bind_uleb_times_skipping_uleb = false
is_lazy_opcode _ = true

-- The lookup in one of the two dictionaries.
abbrev pub known_in : Bool → Option Opcode → Option Opcode
known_in is_lazy none = none
known_in is_lazy (some op) = if is_lazy && not (is_lazy_opcode op) then none else some op

abbrev pub opcode_of : Bool → ℕ → Option Opcode
opcode_of is_lazy n = known_in is_lazy (get_elem? opcodes n)
