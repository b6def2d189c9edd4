-- ===== src/MachO/Binding/Ends.antt =====
-- The interpreter ends.
use cle.Base.{
  ℕ, zero, suc, ◌+◌, ◌≤◌, ◌≡◌, ◌≢◌, refl, Bool, true, false, ◌||◌, Option, none, some, List, length,
  get_elem?, leb, Exception, Result, out_of_fuel, arith, inl, inr, Bool-cases, get_elem?-some,
}
use cle.Region.{Region}
use cle.Regions.{Regions}
use cle.MachO.Binding.{BindingState, new, Outcome}
use cle.MachO.Binding.Loop.{
  fails, go_on, dispatch, caught, bind_loop, start_at, do_bind_generic, do_normal_bind, lazy_loop,
  do_lazy_bind,
}
use cle.MachO.Binding.Progress.{
  IsAhead, ok-ne, err-ne, go_on-IsAhead, go_by_ends, caught_by-IsAhead, dispatch-IsAhead,
}

module _ {ℓ} {W : Type ℓ} (segments : Regions)
    (bind_handler : BindingState → W → W × Result (Unit {0})) (blob : List ℕ)
    (binds : (s : BindingState) (w : W) → (bind_handler s w).1 ≢ out_of_fuel) where
  round-IsAhead :
      (fuel : ℕ) (is_lazy : Bool) (s : BindingState) (w : W)
      → (s.done || leb (length blob) s.index) ≡ false
      → ((t : BindingState) (v : W)
          → suc s.index ≤ t.index
          → IsAhead t.index (bind_loop segments bind_handler blob fuel is_lazy t v))
      → IsAhead (suc s.index) (bind_loop segments bind_handler blob (suc fuel) is_lazy s w)
  unfolding bind_loop
  round-IsAhead fuel is_lazy s w goes later =
      let (b, e) = get_elem?-some blob s.index (ground arith) in
      let inside : get_elem? blob s.index ≢ none = (λ n. cc) in
      let round = dispatch segments bind_handler blob is_lazy (get_elem? blob s.index) s w in
      let (ahead, live) =
        dispatch-IsAhead segments bind_handler blob binds is_lazy (get_elem? blob s.index) s w
          inside in
      let moved : IsAhead (suc s.index) (caught round) =
        caught_by-IsAhead (suc s.index) round.ended round (ahead, live, refl) in
      rw goes (
        go_on-IsAhead (suc s.index) (caught round)
          (λ t v. bind_loop segments bind_handler blob fuel is_lazy t v) moved
          (λ t v h. let (further, ends) = later t v h in (omega arith, ends)))

  bind_loop_ends :
      (fuel : ℕ) (is_lazy : Bool) (s : BindingState) (w : W)
      → length blob ≤ fuel + s.index
      → IsAhead s.index (bind_loop segments bind_handler blob fuel is_lazy s w)
  unfolding bind_loop
  bind_loop_ends zero is_lazy s w enough =
      let stops : (s.done || leb (length blob) s.index) ≡ true = ground arith in
      rw stops (omega arith, ok-ne)
  bind_loop_ends (suc fuel) is_lazy s w enough =
      elim (Bool-cases (s.done || leb (length blob) s.index)) [
        | inl stops ↦ rw stops (omega arith, ok-ne)
        | inr goes ↦
            let (far, ends) =
              round-IsAhead fuel is_lazy s w goes
                (λ t v h. bind_loop_ends fuel is_lazy t v (omega arith)) in
            (omega (arith, far), ends)
      ]

  bind_loop_moves :
      (fuel : ℕ) (is_lazy : Bool) (s : BindingState) (w : W)
      → (s.done || leb (length blob) s.index) ≡ false
      → length blob ≤ fuel + s.index
      → IsAhead (suc s.index) (bind_loop segments bind_handler blob fuel is_lazy s w)
  bind_loop_moves zero is_lazy s w goes enough = absurd (ground arith)
  bind_loop_moves (suc fuel) is_lazy s w goes enough =
      round-IsAhead fuel is_lazy s w goes (λ t v h. bind_loop_ends fuel is_lazy t v (omega arith))

  start_at-ends :
      (seg : Option Region) (s : BindingState) (w : W) (next : BindingState → Outcome W)
      → ((t : BindingState) → t.index ≡ s.index → (next t).ended ≢ out_of_fuel)
      → (start_at segments bind_handler blob seg s w next).ended ≢ out_of_fuel
  start_at-ends none s w next f = err-ne
  start_at-ends (some seg) s w next f = f _ refl

  do_bind_generic_ends :
      (is_lazy : Bool) (s : BindingState) (w : W)
      → (do_bind_generic segments bind_handler blob is_lazy s w).ended ≢ out_of_fuel
  unfolding do_bind_generic
  do_bind_generic_ends is_lazy s w =
      start_at-ends (get_elem? segments.list s.segment_index) s w _
        (λ t e. (bind_loop_ends (length blob) is_lazy t w (omega arith)).1)

  -- A lazy binding moves the index on, or raises.
  start_at-moves :
      (k : ℕ) (seg : Option Region) (s : BindingState) (w : W) (next : BindingState → Outcome W)
      (r : Outcome W → Outcome W)
      → ((t : BindingState) → t.index ≡ s.index → t.done ≡ s.done → IsAhead k (next t))
      → ((o : Outcome W) → IsAhead k o → (r o).ended ≢ out_of_fuel)
      → ((e : Exception) → (r (fails s w e)).ended ≢ out_of_fuel)
      → (r (start_at segments bind_handler blob seg s w next)).ended ≢ out_of_fuel
  start_at-moves k none s w next r f g h = h _
  start_at-moves k (some seg) s w next r f g h = g _ (f _ refl refl)

  lazy_loop_ends :
      (fuel : ℕ) (s : BindingState) (w : W)
      → length blob ≤ fuel + s.index
      → (lazy_loop segments bind_handler blob fuel s w).ended ≢ out_of_fuel
  unfolding lazy_loop do_bind_generic
  lazy_loop_ends zero s w enough =
      let stops : leb (length blob) s.index ≡ true = ground arith in rw stops ok-ne
  lazy_loop_ends (suc fuel) s w enough = elim (Bool-cases (leb (length blob) s.index)) [
    | inl stops ↦ rw stops ok-ne
    | inr goes ↦ rw goes (
        start_at-moves (suc s.index) (get_elem? segments.list 0) _ w _
          (λ o. go_on o (λ t v. lazy_loop segments bind_handler blob fuel t v))
          (λ t e d.
            let goes' : (t.done || leb (length blob) t.index) ≡ false = ground arith in
            let (far, ends) = bind_loop_moves (length blob) true t w goes' (omega arith) in
            (omega (arith, far, e), ends))
          (λ o a.
            go_by_ends (suc s.index) o.ended o _ (a.0, a.1, refl)
              (λ t v h. lazy_loop_ends fuel t v (omega arith)))
          (λ e. err-ne))
  ]

  -- The bindings of both kinds end on every blob, provided the bind handler ends: the lazy ones go
  -- through the blob at most once for each byte.
  pub binding_ends :
      (is_64 : Bool) (w : W)
      → ((do_normal_bind segments bind_handler blob is_64 w).ended ≢ out_of_fuel)
        × ((do_lazy_bind segments bind_handler blob is_64 w).ended ≢ out_of_fuel)
  unfolding do_normal_bind do_lazy_bind
  binding_ends is_64 w = (
    do_bind_generic_ends false (new is_64) w,
    lazy_loop_ends (length blob) (new is_64) w (omega arith),
  )
