-- ===== src/MachO/Binding/Loop.antt =====
-- The handlers of the opcodes and the loop over a blob.
use cle.Base.{
  ℕ, zero, suc, ◌+◌, ◌*◌, ◌%◌, ◌/◌, Bool, true, false, ◌&&◌, Option, none, some, List, [], length,
  get_elem?, drop, leb, ◌||◌, if◌then◌else◌, Exception, Result, ok, err, out_of_fuel, key_error,
  index_error, cle_invalid_binary_error,
}
use cle.Base.Int.{ℤ, pos, leb_ℤ}
use cle.Region.{Region}
use cle.Regions.{Regions}
use cle.MachO.Leb.{read_uleb, read_sleb}
use cle.MachO.Binding.{
  BindingState, new, add_address_ov, segment_end, Outcome, special_ordinal, name_loop, Opcode,
  op_done, set_dylib_ordinal_imm, set_dylib_ordinal_uleb, set_dylib_special_imm,
  set_symbol_trailing_flags_imm, set_type_imm, set_addend_sleb, set_segment_and_offset_uleb,
  add_addr_uleb, do_bind, do_bind_add_addr_uleb, do_bind_add_addr_imm_scaled,
  do_bind_uleb_times_skipping_uleb, opcode_of,
}

abbrev pub step_index : ℕ → BindingState → BindingState
step_index n s = record s { index = s.index + n }

abbrev pub is_key_error : Exception → Bool
is_key_error key_error = true
is_key_error _ = false

module _ {ℓ} {W : Type ℓ} where
  abbrev pub fine : BindingState → W → Outcome W
  fine s w = record { state = s; binary = w; ended = ok tt }

  abbrev pub fails : BindingState → W → Exception → Outcome W
  fails s w e = record { state = s; binary = w; ended = err e }

  -- The state moves on only if the bind handler has not raised.
  abbrev pub bound : BindingState → BindingState → W × Result (Unit {0}) → Outcome W
  bound s after (w, ok _) = fine after w
  bound s after (w, err e) = fails s w e
  bound s after (w, out_of_fuel) = record { state = s; binary = w; ended = out_of_fuel }

  -- What follows a handler that has not raised.
  abbrev pub go_by : Result (Unit {0}) → Outcome W → (BindingState → W → Outcome W) → Outcome W
  go_by (ok _) o next = next o.state o.binary
  go_by (err e) o next = o
  go_by out_of_fuel o next = o

  abbrev pub go_on : Outcome W → (BindingState → W → Outcome W) → Outcome W
  go_on o next = go_by o.ended o next

  -- `except KeyError`
  abbrev pub caught_by : Result (Unit {0}) → Outcome W → Outcome W
  caught_by (err e) o = if is_key_error e then fine o.state o.binary else o
  caught_by (ok _) o = o
  caught_by out_of_fuel o = o

  abbrev pub caught : Outcome W → Outcome W
  caught o = caught_by o.ended o

-- The segments of the binary, the handler, and the blob.
module _ {ℓ} {W : Type ℓ} (segments : Regions)
    (bind_handler : BindingState → W → W × Result (Unit {0})) (blob : List ℕ) where
  -- Binds at the address and moves on by `delta`; `checks` tells whether the address is checked.
  abbrev pub bind_at : Bool → ℤ → BindingState → W → Outcome W
  bind_at checks delta s w =
      let bind = bound s (add_address_ov s.address delta s) (bind_handler s w) in
      if checks && leb_ℤ s.seg_end_address s.address
      then fails s w cle_invalid_binary_error
      else bind

  -- The loop of `n_opcode_do_bind_uleb_times_skipping_uleb`.
  unfoldable pub bind_times : ℕ → ℤ → BindingState → W → Outcome W
  bind_times zero delta s w = fine s w
  bind_times (suc n) delta s w = go_on (bind_at true delta s w) (λ s' w'. bind_times n delta s' w')

  abbrev pub set_segment : Bool → ℕ → ℕ × ℕ → Option Region → BindingState → W → Outcome W
  set_segment false i (uleb, len) none s w =
      fails (record s { segment_index = i; index = s.index + len }) w index_error
  set_segment false i (uleb, len) (some seg) s w =
      fine
        (record (add_address_ov seg.vaddr (pos uleb) s) {
          segment_index = i;
          index = s.index + len;
          seg_end_address = segment_end seg;
        })
        w
  set_segment true i (uleb, len) none s w = fails s w index_error
  set_segment true i (uleb, len) (some seg) s w =
      fine (record (add_address_ov seg.vaddr (pos uleb) s) { index = s.index + len }) w

  abbrev pub set_name : ℕ → List ℕ × (ℕ × Bool) → BindingState → W → Outcome W
  set_name i (name, (index, closed)) s w =
      let s' = record s { sym_name = name; sym_flags = i; index = index } in
      if closed then fine (step_index 1 s') w else fails s' w index_error

  -- The handler of an opcode, with the immediate.
  unfoldable pub handle : Bool → Opcode → ℕ → BindingState → W → Outcome W
  unfolding bind_times
  handle is_lazy op_done i s w = fine (record s { done = true }) w
  handle is_lazy set_dylib_ordinal_imm i s w = fine (record s { lib_ord = pos i }) w
  handle is_lazy set_dylib_ordinal_uleb i s w =
      let (uleb, len) = read_uleb blob s.index in
      fine (record s { lib_ord = pos uleb; index = s.index + len }) w
  handle is_lazy set_dylib_special_imm i s w = fine (record s { lib_ord = special_ordinal i }) w
  handle is_lazy set_symbol_trailing_flags_imm i s w =
      set_name i (name_loop (drop s.index blob) [] s.index) s w
  handle is_lazy set_type_imm i s w = fine (record s { binding_type = i }) w
  handle is_lazy set_addend_sleb i s w =
      let (sleb, len) = read_sleb blob s.index in
      fine (record s { addend = sleb; index = s.index + len }) w
  handle is_lazy set_segment_and_offset_uleb i s w =
      set_segment is_lazy i (read_uleb blob s.index) (get_elem? segments.list i) s w
  handle is_lazy add_addr_uleb i s w =
      let (uleb, len) = read_uleb blob s.index in
      fine (step_index len (add_address_ov s.address (pos uleb) s)) w
  handle false do_bind i s w = bind_at true (pos s.sizeof_intptr_t) s w
  handle true do_bind i s w = bound s s (bind_handler s w)
  handle is_lazy do_bind_add_addr_uleb i s w =
      let (uleb, len) = read_uleb blob s.index in
      let s' = step_index len s in
      if leb_ℤ s.seg_end_address s.address
      then fails s w cle_invalid_binary_error
      else bind_at false (pos (uleb + s.sizeof_intptr_t)) s' w
  handle is_lazy do_bind_add_addr_imm_scaled i s w =
      bind_at true (pos (i * s.sizeof_intptr_t + s.sizeof_intptr_t)) s w
  handle is_lazy do_bind_uleb_times_skipping_uleb i s w =
      let (count, len) = read_uleb blob s.index in
      let (skip, len') = read_uleb blob (s.index + len) in
      bind_times count (pos (skip + s.sizeof_intptr_t)) (step_index (len + len') s) w

  abbrev pub run_opcode : Bool → Option Opcode → ℕ → BindingState → W → Outcome W
  run_opcode is_lazy none i s w = fine s w
  run_opcode is_lazy (some op) i s w = handle is_lazy op i s w

  -- One round: an opcode that the dictionary lacks is logged and passed over.
  abbrev pub dispatch : Bool → Option ℕ → BindingState → W → Outcome W
  dispatch is_lazy none s w = fails s w index_error
  dispatch is_lazy (some raw_opcode) s w =
      run_opcode is_lazy (opcode_of is_lazy (raw_opcode / 16)) (raw_opcode % 16) (step_index 1 s) w

  -- The loop in `_do_bind_generic`.
  unfoldable pub bind_loop : ℕ → Bool → BindingState → W → Outcome W
  unfolding handle
  bind_loop zero is_lazy s w =
      if s.done || leb (length blob) s.index
      then fine s w
      else record { state = s; binary = w; ended = out_of_fuel }
  bind_loop (suc fuel) is_lazy s w =
      let next =
        go_on (caught (dispatch is_lazy (get_elem? blob s.index) s w))
          (λ s' w'. bind_loop fuel is_lazy s' w') in
      if s.done || leb (length blob) s.index then fine s w else next

  abbrev pub start_at : Option Region → BindingState → W → (BindingState → Outcome W) → Outcome W
  start_at none s w next = fails s w index_error
  start_at (some seg) s w next = next (record s { seg_end_address = segment_end seg })

  -- `_do_bind_generic`, with a round for each byte of the blob.
  unfoldable pub do_bind_generic : Bool → BindingState → W → Outcome W
  unfolding bind_loop
  do_bind_generic is_lazy s w =
      start_at (get_elem? segments.list s.segment_index) s w
        (λ s'. bind_loop (length blob) is_lazy s' w)

  -- `do_normal_bind`
  unfoldable pub do_normal_bind : Bool → W → Outcome W
  unfolding do_bind_generic
  do_normal_bind is_64 w = do_bind_generic false (new is_64) w

  -- The loop in `do_lazy_bind`, which starts over behind each `BIND_OPCODE_DONE`.
  unfoldable pub lazy_loop : ℕ → BindingState → W → Outcome W
  unfolding do_bind_generic
  lazy_loop zero s w =
      if leb (length blob) s.index
      then fine s w
      else record { state = s; binary = w; ended = out_of_fuel }
  lazy_loop (suc fuel) s w =
      let s' = record s {
        binding_type = 1;
        address = pos 0;
        sym_name = [];
        sym_flags = 0;
        lib_ord = pos 0;
        done = false;
        addend = pos 0;
        segment_index = 0;
        seg_end_address = pos 0;
      } in
      let next = go_on (do_bind_generic true s' w) (λ t v. lazy_loop fuel t v) in
      if leb (length blob) s.index then fine s w else next

  unfoldable pub do_lazy_bind : Bool → W → Outcome W
  unfolding lazy_loop
  do_lazy_bind is_64 w = lazy_loop (length blob) (new is_64) w
