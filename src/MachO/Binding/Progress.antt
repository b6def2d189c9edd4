-- ===== src/MachO/Binding/Progress.antt =====
-- What a round of the interpreter does to the index: it moves on.
use cle.Base.{
  ℕ, zero, suc, ◌/◌, ◌%◌, ◌≤◌, ◌≡◌, ◌≢◌, refl, Bool, true, false, ◌&&◌, Option, none, some, List,
  [], ◌∷◌, get_elem?, drop, if◌then◌else◌, Exception, Result, ok, err, out_of_fuel, arith, inl, inr,
  Bool-cases, cle_invalid_binary_error,
}
use cle.Base.Int.{ℤ, pos, leb_ℤ}
use cle.Region.{Region}
use cle.Regions.{Regions}
use cle.MachO.Leb.{read_uleb}
use cle.MachO.Binding.{
  BindingState, add_address_ov, Outcome, name_loop, Opcode, op_done, set_dylib_ordinal_imm,
  set_dylib_ordinal_uleb, set_dylib_special_imm, set_symbol_trailing_flags_imm, set_type_imm,
  set_addend_sleb, set_segment_and_offset_uleb, add_addr_uleb, do_bind, do_bind_add_addr_uleb,
  do_bind_add_addr_imm_scaled, do_bind_uleb_times_skipping_uleb, opcode_of,
}
use cle.MachO.Binding.Loop.{
  step_index, fails, bound, is_key_error, go_by, go_on, caught_by, run_opcode, bind_at, bind_times,
  set_segment, set_name, handle, dispatch, caught,
}

-- The index has not gone back from `k`, and no loop is out of fuel.
abbrev pub IsAhead {ℓ} : {W : Type ℓ} → ℕ → Outcome W → Type 0
IsAhead k o = (k ≤ o.state.index) × (o.ended ≢ out_of_fuel)

pub ok-ne : {u : Unit {0}} → ok u ≢ out_of_fuel
ok-ne e = cc

pub err-ne : {x : Exception} → ◌≢◌ {A = Result (Unit {0})} (err x) out_of_fuel
err-ne e = cc

index-add_address_ov : (a d : ℤ) (s : BindingState) → (add_address_ov a d s).index ≡ s.index
unfolding add_address_ov
index-add_address_ov a d s = refl

name_loop_ahead : (bs name : List ℕ) (k : ℕ) → k ≤ (name_loop bs name k).1.0
unfolding name_loop
name_loop_ahead [] name k = omega arith
name_loop_ahead (zero ∷ bs) name k = omega arith
name_loop_ahead (suc b ∷ bs) name k = omega (arith, name_loop_ahead bs _ (suc k))

module _ {ℓ} {W : Type ℓ} where
  bound-IsAhead :
      (k : ℕ) (s after : BindingState) (p : W × Result (Unit {0}))
      → k ≤ s.index
      → k ≤ after.index
      → p.1 ≢ out_of_fuel
      → IsAhead k (bound s after p)
  bound-IsAhead k s after (w, ok u) h g n = (g, ok-ne)
  bound-IsAhead k s after (w, err e) h g n = (h, err-ne)
  bound-IsAhead k s after (w, out_of_fuel) h g n = absurd (n refl)

  go_by-IsAhead :
      (k : ℕ) (r : Result (Unit {0})) (o : Outcome W) (next : BindingState → W → Outcome W)
      → (k ≤ o.state.index) × (r ≢ out_of_fuel) × (o.ended ≡ r)
      → ((s : BindingState) (w : W) → k ≤ s.index → IsAhead k (next s w))
      → IsAhead k (go_by r o next)
  go_by-IsAhead k (ok u) o next (h, n, e) f = f o.state o.binary h
  go_by-IsAhead k (err x) o next (h, n, e) f = (h, λ g. cc)
  go_by-IsAhead k out_of_fuel o next (h, n, e) f = absurd (n refl)

  pub go_on-IsAhead :
      (k : ℕ) (o : Outcome W) (next : BindingState → W → Outcome W)
      → IsAhead k o
      → ((s : BindingState) (w : W) → k ≤ s.index → IsAhead k (next s w))
      → IsAhead k (go_on o next)
  go_on-IsAhead k o next (h, n) f = go_by-IsAhead k o.ended o next (h, n, refl) f

  pub go_by_ends :
      (k : ℕ) (r : Result (Unit {0})) (o : Outcome W) (next : BindingState → W → Outcome W)
      → (k ≤ o.state.index) × (r ≢ out_of_fuel) × (o.ended ≡ r)
      → ((s : BindingState) (w : W) → k ≤ s.index → (next s w).ended ≢ out_of_fuel)
      → (go_by r o next).ended ≢ out_of_fuel
  go_by_ends k (ok u) o next (h, n, e) f = f o.state o.binary h
  go_by_ends k (err x) o next (h, n, e) f = λ g. cc
  go_by_ends k out_of_fuel o next (h, n, e) f = absurd (n refl)

  pub caught_by-IsAhead :
      (k : ℕ) (r : Result (Unit {0})) (o : Outcome W)
      → (k ≤ o.state.index) × (r ≢ out_of_fuel) × (o.ended ≡ r)
      → IsAhead k (caught_by r o)
  caught_by-IsAhead k (ok u) o (h, n, e) = (h, λ g. cc)
  caught_by-IsAhead k (err x) o (h, n, e) = elim (Bool-cases (is_key_error x)) [
    | inl caught ↦ rw caught (h, ok-ne)
    | inr other ↦ rw other (h, λ g. cc)
  ]
  caught_by-IsAhead k out_of_fuel o (h, n, e) = absurd (n refl)

module _ {ℓ} {W : Type ℓ} (segments : Regions)
    (bind_handler : BindingState → W → W × Result (Unit {0})) (blob : List ℕ)
    (binds : (s : BindingState) (w : W) → (bind_handler s w).1 ≢ out_of_fuel) where
  bind_at-IsAhead :
      (checks : Bool) (k : ℕ) (delta : ℤ) (s : BindingState) (w : W)
      → k ≤ s.index
      → IsAhead k (bind_at segments bind_handler blob checks delta s w)
  bind_at-IsAhead checks k delta s w h =
      elim (Bool-cases (checks && leb_ℤ s.seg_end_address s.address)) [
        | inl outside ↦ rw outside (h, err-ne)
        | inr inside ↦ rw inside (
            bound-IsAhead k s (add_address_ov s.address delta s) (bind_handler s w) h
              (rw (index-add_address_ov s.address delta s) h) (binds s w))
      ]

  bind_times-IsAhead :
      (n k : ℕ) (delta : ℤ) (s : BindingState) (w : W)
      → k ≤ s.index
      → IsAhead k (bind_times segments bind_handler blob n delta s w)
  unfolding bind_times
  bind_times-IsAhead zero k delta s w h = (h, ok-ne)
  bind_times-IsAhead (suc n) k delta s w h =
      go_on-IsAhead k (bind_at segments bind_handler blob true delta s w)
        (λ s' w'. bind_times segments bind_handler blob n delta s' w')
        (bind_at-IsAhead true k delta s w h) (λ s' w' h'. bind_times-IsAhead n k delta s' w' h')

  set_segment-IsAhead :
      (is_lazy : Bool) (k i : ℕ) (u : ℕ × ℕ) (seg : Option Region) (s : BindingState) (w : W)
      → k ≤ s.index
      → IsAhead k (set_segment segments bind_handler blob is_lazy i u seg s w)
  unfolding add_address_ov
  set_segment-IsAhead false k i (uleb, len) none s w h = (omega arith, err-ne)
  set_segment-IsAhead false k i (uleb, len) (some seg) s w h = (omega arith, ok-ne)
  set_segment-IsAhead true k i (uleb, len) none s w h = (h, err-ne)
  set_segment-IsAhead true k i (uleb, len) (some seg) s w h = (omega arith, ok-ne)

  set_name-IsAhead :
      (k i : ℕ) (p : List ℕ × (ℕ × Bool)) (s : BindingState) (w : W)
      → k ≤ p.1.0
      → IsAhead k (set_name segments bind_handler blob i p s w)
  set_name-IsAhead k i (name, (index, true)) s w h = (omega arith, ok-ne)
  set_name-IsAhead k i (name, (index, false)) s w h = (h, err-ne)

  guarded_bind-IsAhead :
      (outside : Bool) (k : ℕ) (delta : ℤ) (s t : BindingState) (w : W)
      → k ≤ s.index
      → k ≤ t.index
      → IsAhead k (
          if outside
          then fails s w cle_invalid_binary_error
          else bind_at segments bind_handler blob false delta t w)
  guarded_bind-IsAhead true k delta s t w h g = (h, err-ne)
  guarded_bind-IsAhead false k delta s t w h g = bind_at-IsAhead false k delta t w g

  handle-IsAhead :
      (is_lazy : Bool) (op : Opcode) (k i : ℕ) (s : BindingState) (w : W)
      → k ≤ s.index
      → IsAhead k (handle segments bind_handler blob is_lazy op i s w)
  unfolding handle add_address_ov
  handle-IsAhead is_lazy op_done k i s w h = (h, ok-ne)
  handle-IsAhead is_lazy set_dylib_ordinal_imm k i s w h = (h, ok-ne)
  handle-IsAhead is_lazy set_dylib_ordinal_uleb k i s w h = (omega arith, ok-ne)
  handle-IsAhead is_lazy set_dylib_special_imm k i s w h = (h, ok-ne)
  handle-IsAhead is_lazy set_symbol_trailing_flags_imm k i s w h =
      set_name-IsAhead k i (name_loop (drop s.index blob) [] s.index) s w
        (omega (arith, name_loop_ahead (drop s.index blob) [] s.index))
  handle-IsAhead is_lazy set_type_imm k i s w h = (h, ok-ne)
  handle-IsAhead is_lazy set_addend_sleb k i s w h = (omega arith, ok-ne)
  handle-IsAhead is_lazy set_segment_and_offset_uleb k i s w h =
      set_segment-IsAhead is_lazy k i (read_uleb blob s.index) (get_elem? segments.list i) s w h
  handle-IsAhead is_lazy add_addr_uleb k i s w h = (omega arith, ok-ne)
  handle-IsAhead false do_bind k i s w h = bind_at-IsAhead true k (pos s.sizeof_intptr_t) s w h
  handle-IsAhead true do_bind k i s w h = bound-IsAhead k s s (bind_handler s w) h h (binds s w)
  handle-IsAhead is_lazy do_bind_add_addr_uleb k i s w h =
      guarded_bind-IsAhead _ k _ s (step_index (read_uleb blob s.index).1 s) w h (omega arith)
  handle-IsAhead is_lazy do_bind_add_addr_imm_scaled k i s w h = bind_at-IsAhead true k _ s w h
  handle-IsAhead is_lazy do_bind_uleb_times_skipping_uleb k i s w h =
      bind_times-IsAhead (read_uleb blob s.index).0 k _ _ w (omega arith)

  run_opcode-IsAhead :
      (is_lazy : Bool) (op : Option Opcode) (k i : ℕ) (s : BindingState) (w : W)
      → k ≤ s.index
      → IsAhead k (run_opcode segments bind_handler blob is_lazy op i s w)
  run_opcode-IsAhead is_lazy none k i s w h = (h, ok-ne)
  run_opcode-IsAhead is_lazy (some op) k i s w h = handle-IsAhead is_lazy op k i s w h

  -- Within the blob a round moves the index on.
  pub dispatch-IsAhead :
      (is_lazy : Bool) (b : Option ℕ) (s : BindingState) (w : W)
      → b ≢ none
      → IsAhead (suc s.index) (dispatch segments bind_handler blob is_lazy b s w)
  dispatch-IsAhead is_lazy none s w h = absurd (h refl)
  dispatch-IsAhead is_lazy (some b) s w h =
      run_opcode-IsAhead is_lazy (opcode_of is_lazy (b / 16)) (suc s.index) (b % 16)
        (step_index 1 s) w (omega arith)
