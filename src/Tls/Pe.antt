-- ===== src/Tls/Pe.antt =====
-- cle/backends/tls/pe_tls.py: the registration of PE files, and the memory of a thread.
use cle.Base.{
  ℕ, ◌+◌, ◌*◌, Bool, true, false, ◌&&◌, Option, none, some, List, [], ◌∷◌, ◌++◌, length, replicate,
  if◌then◌else◌, Result, ok, err, out_of_fuel, ◌>>=◌, type_error, index_error,
}
use cle.Base.Int.{ℤ, pos, ◌+ℤ◌, ◌-ℤ◌, leb_ℤ, ltb_ℤ, to_ℕ}
use cle.Memory.Backers.{Clemory}
use cle.Memory.Layout.{bytes_value}
use cle.Memory.Change.{add_backer}
use cle.Memory.Words.{pack_word, unpack_word}
use cle.Tls.{Module, TlsArch, Manager, assign_id, enlist, initialization_image, Area}

-- The index goes to the address that the header names. Where that raises, the object is listed
-- already.
abbrev pub write_index : TlsArch → Module → Result Module
write_index arch o = elim o.tls_index_address [
  | none ↦ ok o
  | some address ↦ elim o.tls_module_id [
    | none ↦ err type_error
    | some module_id ↦
        pack_word arch.endness o.memory (address -ℤ o.linked_base) (pos module_id) arch.word false
        >>= λ m. ok (record o { memory = m })
  ]
]

abbrev pub list_written : Manager → Module → Result Module → Manager × Result Bool
list_written t o (ok o') = (enlist o' t, ok true)
list_written t o (err e) = (enlist o t, err e)
list_written t o out_of_fuel = (enlist o t, out_of_fuel)

abbrev pub after_id : TlsArch → Manager → Result (Option Module) → Manager × Result Bool
after_id arch t (ok none) = (t, ok false)
after_id arch t (ok (some o)) = list_written t o (write_index arch o)
after_id arch t (err e) = (t, err e)
after_id arch t out_of_fuel = (t, out_of_fuel)

-- `PEThreadManager.register_object`
unfoldable pub register_object : TlsArch → Module → Manager → Manager × Result Bool
unfolding pack_word
register_object arch o t = after_id arch t (assign_id o t)

-- `PETLSObject`, without the number of modules.
pub record Tables : Type 0 where
  pub data_start : ℕ
  pub used_data : ℕ
  pub area : Area

-- One module: the address of its data in the array, and the data.
abbrev pub place_image : TlsArch → Tables → ℕ → Option (List ℕ) → Result Tables
place_image arch t module_id none = ok t
place_image arch t module_id (some image) =
    let image_offset = pos (t.data_start + t.used_data) in
    let index_offset = pos (module_id * arch.word) in
    pack_word arch.endness t.area.memory index_offset image_offset arch.word false >>= λ m.
    add_backer m image_offset (bytes_value image) false >>= λ m'. ok (record t {
      used_data = t.used_data + length image;
      area = record { memory = m'; relocs = t.area.relocs ++ (image_offset, index_offset) ∷ [] };
    })

abbrev pub set_up : TlsArch → Tables → Module → Result Tables
set_up arch t o = initialization_image o >>= λ image. elim o.tls_module_id [
  | none ↦ elim image [ none ↦ ok t | some bytes ↦ err type_error ]
  | some module_id ↦ place_image arch t module_id image
]

unfoldable pub set_up_all : TlsArch → Tables → List Module → Result Tables
unfolding initialization_image pack_word add_backer
set_up_all arch t [] = ok t
set_up_all arch t (o ∷ os) = set_up arch t o >>= λ t'. set_up_all arch t' os

unfoldable pub new_thread : TlsArch → Clemory → Manager → Result Tables
unfolding set_up_all add_backer
new_thread arch empty t =
    let data_start = arch.word * t.max_modules in
    add_backer empty (pos 0) (bytes_value (replicate data_start 0)) false >>= λ m.
    set_up_all arch
      (record { data_start = data_start; used_data = 0; area = record { memory = m; relocs = [] } })
      t.modules

-- The number of modules is the one when the thread was made.
unfoldable pub get_tls_data_addr : TlsArch → Tables → ℕ → ℤ → Result ℤ
unfolding unpack_word
get_tls_data_addr arch t used_modules tls_idx =
    if leb_ℤ (pos 0) tls_idx && ltb_ℤ tls_idx (pos used_modules)
    then unpack_word arch.endness t.area.memory (pos (to_ℕ tls_idx * arch.word)) arch.word false
    else err index_error

abbrev pub max_addr : ℤ → Tables → ℤ
max_addr mapped_base t = mapped_base +ℤ pos (t.data_start + t.used_data) -ℤ pos 1
