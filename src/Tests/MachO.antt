-- ===== src/Tests/MachO.antt =====
-- Numbers and bindings of a Mach-O file at concrete inputs.
use cle.Base.{
  ℕ, ◌≡◌, ◌≢◌, refl, arith, true, none, List, [], ◌∷◌, ◌++◌, length, Result, ok, out_of_fuel,
}
use cle.Base.Int.{ℤ, pos, ◌+ℤ◌}
use cle.Region.{Region}
use cle.Regions.{Regions}
use cle.MachO.Leb.{read_uleb}
use cle.MachO.RoundTrip.{encode_uleb, read_uleb-encode_uleb}
use cle.MachO.Binding.{BindingState, new, add_address_ov, name_loop}
use cle.MachO.Binding.Loop.{do_normal_bind, do_lazy_bind}
use cle.MachO.Binding.Ends.{binding_ends}

read_uleb-encode_uleb_example :
    read_uleb (encode_uleb 2 624485 ++ 7 ∷ []) 0 ≡ (624485, length (encode_uleb 2 624485))
read_uleb-encode_uleb_example = read_uleb-encode_uleb 2 624485 (7 ∷ []) (omega arith)

abbrev data_segment : Region
data_segment = record {
  ident = 1;
  offset = pos 0;
  vaddr = pos 4096;
  filesize = 64;
  memsize = 64;
  occupies = none;
}

abbrev segments : Regions
segments = record { list = data_segment ∷ []; sorted_list = data_segment ∷ [] }

-- The handler lists the addresses that it is called at.
abbrev collect : BindingState → List ℤ → List ℤ × Result (Unit {0})
collect s addresses = (s.address ∷ addresses, ok tt)

collect_ends : (s : BindingState) (addresses : List ℤ) → (collect s addresses).1 ≢ out_of_fuel
collect_ends s addresses e = cc

-- Segment 0 at offset 8, type 1, the name "A", two bindings, done.
abbrev blob : List ℕ
blob = 112 ∷ 8 ∷ 81 ∷ 64 ∷ 65 ∷ 0 ∷ 144 ∷ 144 ∷ 0 ∷ []

blob_binds : (do_normal_bind segments collect blob true []).binary ≡ pos 4112 ∷ pos 4104 ∷ []
unfolding do_normal_bind new add_address_ov read_uleb name_loop ◌+ℤ◌
blob_binds = refl

binding_ends_example :
    ((do_normal_bind segments collect blob true []).ended ≢ out_of_fuel)
    × ((do_lazy_bind segments collect blob true []).ended ≢ out_of_fuel)
binding_ends_example = binding_ends segments collect blob collect_ends true []
