-- ===== src/AddressTranslator/RoundTrips.antt =====
-- What goes into a translator comes out of it, in the same address space and in any other.
use cle.Base.{◌≡◌, refl, some, ok}
use cle.Base.Int.{ℤ, ◌+ℤ◌, ◌-ℤ◌, int_laws}
use cle.AddressTranslator.{
  Owner, AddressTranslator, from_lva, from_mva, from_rva, from_raw, current_base, to_lva, to_mva,
  to_rva, to_raw,
}

-- A translator built from a linked, a mapped or a relative address gives the address back, and the
-- mapped address of a linked one differs from it by the distance of the two bases.
pub translation_round_trips :
    (a : ℤ) (o : Owner)
    → (to_lva (from_lva a o) ≡ a)
      × (to_mva (from_mva a o) ≡ a)
      × (to_rva (from_rva a o) ≡ a)
      × (to_mva (from_lva a o) ≡ a +ℤ (o.mapped_base -ℤ o.linked_base))
      × (to_lva (from_mva (to_mva (from_lva a o)) o) ≡ a)
unfolding from_lva from_mva from_rva to_lva to_mva to_rva
translation_round_trips a o = (omega int_laws, omega int_laws, refl, omega int_laws, omega int_laws)

-- A raw offset that the owner maps comes back as itself, where the owner's two methods are inverse
-- at it.
pub to_raw-from_raw :
    (raw addr : ℤ) (o : Owner)
    → o.offset_to_addr raw ≡ some addr
    → o.addr_to_offset addr ≡ some raw
    → (t : AddressTranslator) × (from_raw raw o ≡ ok t)
      × (to_raw t ≡ some raw)
      × (to_rva t ≡ addr -ℤ current_base o)
unfolding from_raw to_raw to_rva
to_raw-from_raw raw addr o h k =
    let e : addr -ℤ current_base o +ℤ current_base o ≡ addr = omega int_laws in
    (record { rva = addr -ℤ current_base o; owner = o }, rw (h, from_raw), rw e k, refl)
