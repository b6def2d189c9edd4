-- ===== src/Region/Addresses.antt =====
-- Translation between the addresses and the file offsets of one region.
use cle.Base.{◌≡◌, true, some, ◌↔◌}
use cle.Base.Int.{ℤ, ◌+ℤ◌, ◌-ℤ◌, ◌≤ℤ◌, int_laws}
use cle.Region.{
  Region, rebase, contains_addr, contains_offset, addr_to_offset, offset_to_addr, max_addr,
  min_addr,
}

-- A region contains exactly the addresses from its lowest to its highest.
pub contains_addr_iff :
    (r : Region) (addr : ℤ)
    → (contains_addr r addr ≡ true) ↔ ((min_addr r ≤ℤ addr) × (addr ≤ℤ max_addr r))
unfolding contains_addr min_addr max_addr
contains_addr_iff r addr = (λ h. grind int_laws, λ h. grind int_laws)

-- An address that has a file offset is the address of that offset, provided the region contains
-- it; and the other way round.
pub addr_to_offset-offset_to_addr :
    (r : Region) (addr offset : ℤ)
    → contains_addr r addr ≡ true
    → contains_offset r offset ≡ true
    → (addr_to_offset r addr ≡ some offset) ↔ (offset_to_addr r offset ≡ some addr)
unfolding addr_to_offset offset_to_addr
addr_to_offset-offset_to_addr r addr offset ha ho = (λ h. grind int_laws, λ h. grind int_laws)

-- Moving a region by `delta` moves the addresses that it contains, and no offset.
pub contains_addr-rebase :
    (r : Region) (delta addr : ℤ)
    → (contains_addr (rebase delta r) (addr +ℤ delta) ≡ contains_addr r addr)
      × (addr_to_offset (rebase delta r) (addr +ℤ delta) ≡ addr_to_offset r addr)
unfolding rebase contains_addr addr_to_offset
contains_addr-rebase r delta addr =
    let e : addr +ℤ delta -ℤ (r.vaddr +ℤ delta) ≡ addr -ℤ r.vaddr = omega int_laws in
    (grind int_laws, rw e)
