-- ===== src/Tls.antt =====
-- cle/backends/tls/: the modules with thread-local data, and what both managers of threads share.
-- An object is copied into the list of modules when it is registered, after its attributes are set.
-- What archinfo says of an architecture is a record.
pub mod Elf
pub mod Pe
pub mod Blocks
pub mod Areas
use cle.Base.{
  ℕ, zero, suc, ◌+◌, ◌-◌, ◌*◌, ◌≡◌, Bool, true, false, not, Option, none, some, List, [], ◌∷◌, ◌++◌,
  ltb, leb, length, if◌then◌else◌, Result, ok, err, out_of_fuel, ◌>>=◌, cle_error,
}
use cle.Base.Int.{ℤ, pos, ◌+ℤ◌, ◌-ℤ◌, ltb_ℤ, leb_ℤ, to_ℕ}
use cle.Memory.Backers.{Clemory}
use cle.Memory.Access.{load}
use cle.Memory.Words.{Endness, pack_word}
use cle.Utils.Align.{ljust}

-- What is read and set of an object. `tls_index_address` is there in a PE file only.
pub record Module : Type 0 where
  pub ident : ℕ
  pub tls_used : Bool
  pub tls_block_size : ℕ
  pub tls_data_start : ℤ
  pub tls_data_size : ℤ
  pub tls_module_id : Option ℕ
  pub tls_block_offset : Option ℤ
  pub tls_index_address : Option ℤ
  pub linked_base : ℤ
  pub memory : Clemory

-- `TLSArchInfo`, the size of a word and the byte order.
pub record TlsArch : Type 0 where
  pub word : ℕ
  pub endness : Endness
  pub variant : ℕ
  pub tcbhead_size : ℕ
  pub head_offsets : List ℤ
  pub dtv_offsets : List ℤ
  pub pthread_offsets : List ℤ
  pub tp_offset : ℤ
  pub dtv_entry_offset : ℤ

-- `ThreadManager`; of the threads only their number counts.
pub record Manager : Type 0 where
  pub max_modules : ℕ
  pub modules : List Module
  pub threads : ℕ
  pub used_data : ℤ

abbrev pub new_manager : ℕ → Manager
new_manager max_modules = record {
  max_modules = max_modules;
  modules = [];
  threads = 0;
  used_data = pos 0;
}

-- `ThreadManager.register_object`, less the append: the object with its number, if it uses TLS.
abbrev pub assign_id : Module → Manager → Result (Option Module)
assign_id o t =
    if not o.tls_used
    then ok none
    else if leb t.max_modules (length t.modules)
    then err cle_error
    else ok (some (record o { tls_module_id = some (length t.modules) }))

abbrev pub enlist : Module → Manager → Manager
enlist o t = record t { modules = t.modules ++ o ∷ [] }

unfoldable pub initialization_image : Module → Result (Option (List ℕ))
unfolding load
initialization_image o =
    if ltb_ℤ o.tls_data_start (pos 0)
    then ok none
    else if leb_ℤ o.tls_data_size (pos 0)
    then ok none
    else (load o.memory o.tls_data_start (to_ℕ o.tls_data_size) >>= λ bytes.
        ok (some (ljust bytes o.tls_block_size)))

-- The memory of a thread, and its relocations: the values that move with the base, and where.
pub record Area : Type 0 where
  pub memory : Clemory
  pub relocs : List (ℤ × ℤ)

-- `InternalTLSRelocation.value`
abbrev pub reloc_value : ℤ → ℤ → ℤ
reloc_value mapped_base val = val +ℤ mapped_base

-- `_drop_int`
unfoldable pub drop_int : TlsArch → Area → ℤ → ℤ → Bool → Result Area
unfolding pack_word
drop_int arch a offset num needs_relocation =
    let relocs' = if needs_relocation then a.relocs ++ (num, offset) ∷ [] else a.relocs in
    pack_word arch.endness a.memory offset num arch.word false >>= λ m.
    ok (record { memory = m; relocs = relocs' })
