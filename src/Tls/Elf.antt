-- ===== src/Tls/Elf.antt =====
-- cle/backends/tls/elf_tls.py: the registration of ELF objects, and the memory of a thread.
use cle.Base.{
  ℕ, ◌+◌, ◌*◌, Bool, true, false, Option, none, some, List, [], ◌∷◌, ◌==◌, length, replicate,
  if◌then◌else◌, Result, ok, err, ◌>>=◌, type_error,
}
use cle.Base.Int.{ℤ, pos, ◌+ℤ◌, ◌-ℤ◌}
use cle.Base.Twos.{◌%ℤ◌}
use cle.Memory.Backers.{Clemory}
use cle.Memory.Layout.{bytes_value}
use cle.Memory.Change.{add_backer}
use cle.Memory.Words.{unpack_word}
use cle.Tls.{Module, TlsArch, Manager, assign_id, enlist, initialization_image, Area, drop_int}

unfoldable pub roundup : ℤ → ℕ → ℤ
roundup val to = val -ℤ pos 1 +ℤ (pos to -ℤ pos ((val -ℤ pos 1) %ℤ to))

abbrev pub block_align : ℕ
block_align = 0x10

abbrev pub total_head_size : ℕ
total_head_size = 0x4000

abbrev pub head_align : ℕ
head_align = 0x10000

-- The offset of the block, from the thread pointer, and the data used with it.
abbrev pub block_offset : TlsArch → Module → Manager → ℤ
block_offset arch o t =
    if arch.variant == 1
    then t.used_data
    else pos 0 -ℤ t.used_data -ℤ roundup (pos o.tls_block_size) block_align

abbrev pub place_block : TlsArch → Module → Manager → Manager
place_block arch o t =
    if t.threads == 0
    then enlist (record o { tls_block_offset = some (block_offset arch o t) })
        (record t { used_data = t.used_data +ℤ roundup (pos o.tls_block_size) block_align })
    else enlist o t

abbrev pub after_id : TlsArch → Manager → Option Module → Result (Bool × Manager)
after_id arch t none = ok (false, t)
after_id arch t (some o) = ok (true, place_block arch o t)

-- `ELFThreadManager.register_object`
unfoldable pub register_object : TlsArch → Module → Manager → Result (Bool × Manager)
unfolding roundup
register_object arch o t = assign_id o t >>= after_id arch t

pub record Pointers : Type 0 where
  pub tcb_offset : ℤ
  pub tp_offset : ℤ
  pub dtv_offset : ℤ
  pub head_offset : ℤ
  pub top : ℤ

-- `_calculate_pointers` of the two variants.
abbrev pub pointers_v1 : TlsArch → ℤ → ℕ → Pointers
pointers_v1 arch used_data max_modules =
    let dtv = pos total_head_size +ℤ used_data +ℤ pos (2 * arch.word) in
    record {
      tcb_offset = pos total_head_size -ℤ pos arch.tcbhead_size;
      tp_offset = pos total_head_size;
      dtv_offset = dtv;
      head_offset = pos 0;
      top = dtv +ℤ pos (2 * arch.word * max_modules) -ℤ pos 1;
    }

abbrev pub pointers_v2 : TlsArch → ℤ → ℕ → Pointers
pointers_v2 arch used_data max_modules =
    let tp = roundup used_data head_align in
    let dtv = tp +ℤ pos total_head_size +ℤ pos (2 * arch.word) in
    record {
      tcb_offset = tp;
      tp_offset = tp;
      dtv_offset = dtv;
      head_offset = tp;
      top = dtv +ℤ pos (2 * arch.word * max_modules) -ℤ pos 1;
    }

unfoldable pub calculate_pointers : TlsArch → ℤ → ℕ → Pointers
unfolding roundup
calculate_pointers arch used_data max_modules =
    if arch.variant == 1
    then pointers_v1 arch used_data max_modules
    else pointers_v2 arch used_data max_modules

-- The loops that set the pointers in the head.
abbrev pub drop_each : TlsArch → Area → ℤ → ℤ → List ℤ → Result Area
drop_each arch a base num [] = ok a
drop_each arch a base num (off ∷ offs) =
    drop_int arch a (off +ℤ base) num true >>= λ a'. drop_each arch a' base num offs

abbrev pub add_image : Area → ℤ → Option (List ℕ) → Result Area
add_image a start none = ok a
add_image a start (some image) =
    add_backer a.memory start (bytes_value image) false >>= λ m. ok (record a { memory = m })

-- One module: its entry in the vector, and its image. A module without an offset, as one that is
-- registered after the first thread has, raises `TypeError`.
abbrev pub set_up_at : TlsArch → Pointers → Area → Module → ℕ → ℤ → Result Area
set_up_at arch p a o module_id block =
    let entry = p.dtv_offset +ℤ pos (2 * arch.word * module_id) in
    drop_int arch a entry (p.tp_offset +ℤ block +ℤ arch.dtv_entry_offset) true >>= λ a1.
    drop_int arch a1 (entry +ℤ pos arch.word) (pos 1) false >>= λ a2.
    initialization_image o >>= λ image. add_image a2 (p.tp_offset +ℤ block) image

abbrev pub set_up : TlsArch → Pointers → Area → Module → Result Area
set_up arch p a o = elim o.tls_module_id [
  | none ↦ err type_error
  | some module_id ↦ elim o.tls_block_offset [
    | none ↦ err type_error
    | some block ↦ set_up_at arch p a o module_id block
  ]
]

unfoldable pub set_up_all : TlsArch → Pointers → Area → List Module → Result Area
unfolding drop_int initialization_image add_backer
set_up_all arch p a [] = ok a
set_up_all arch p a (o ∷ os) = set_up arch p a o >>= λ a'. set_up_all arch p a' os

-- `ELFTLSObject`: the pointers, and the memory with the head, the vector and the images.
unfoldable pub new_thread : TlsArch → Clemory → Manager → Result (Pointers × Area)
unfolding calculate_pointers set_up_all add_backer drop_int
new_thread arch empty t =
    let p = calculate_pointers arch t.used_data t.max_modules in
    let vector = 2 * arch.word * t.max_modules + 2 * arch.word in
    let below = p.dtv_offset -ℤ pos (2 * arch.word) in
    add_backer empty p.head_offset (bytes_value (replicate total_head_size 0)) false >>= λ m.
    add_backer m below (bytes_value (replicate vector 0)) false >>= λ m'.
    drop_each arch (record { memory = m'; relocs = [] }) p.tcb_offset p.tp_offset arch.head_offsets
    >>= λ a1. drop_each arch a1 p.tcb_offset p.dtv_offset arch.dtv_offsets >>= λ a2.
        drop_each arch a2 p.tcb_offset p.tp_offset arch.pthread_offsets >>= λ a3.
        drop_int arch a3 below (pos t.max_modules -ℤ pos 1) false >>= λ a4.
        drop_int arch a4 p.dtv_offset (pos (length t.modules)) false >>= λ a5.
        set_up_all arch p a5 t.modules >>= λ a6. ok (p, a6)

abbrev pub thread_pointer : ℤ → Pointers → ℤ
thread_pointer mapped_base p = mapped_base +ℤ p.tp_offset

abbrev pub user_thread_pointer : TlsArch → ℤ → Pointers → ℤ
user_thread_pointer arch mapped_base p = thread_pointer mapped_base p +ℤ arch.tp_offset

abbrev pub max_addr : ℤ → Pointers → ℤ
max_addr mapped_base p = mapped_base +ℤ p.top

unfoldable pub get_addr : TlsArch → Pointers → Area → ℕ → ℤ → Result ℤ
unfolding unpack_word
get_addr arch p a module_id offset =
    unpack_word arch.endness a.memory (p.dtv_offset +ℤ pos (module_id * arch.word)) arch.word false
    >>= λ entry. ok (entry +ℤ offset)
