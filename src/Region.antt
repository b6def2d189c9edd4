-- ===== src/Region.antt =====
-- cle/backends/region.py: a region of an object's file that is mapped into memory. Addresses and
-- file offsets are integers; sizes are not negative. `ident` stands for the identity of the
-- object, by which Python's `list.remove` finds it, and `occupies` for the class: `none` for any
-- region that is no `ELFSection`, `some b` for one whose `occupies_memory` is `b`.
pub mod Addresses
use cle.Base.{ℕ, ◌-◌, Bool, Option, none, some, if◌then◌else◌, ◌&&◌}
use cle.Base.Int.{ℤ, pos, ◌+ℤ◌, ◌-ℤ◌, leb_ℤ, ltb_ℤ}

pub record Region : Type 0 where
  pub ident : ℕ
  pub offset : ℤ
  pub vaddr : ℤ
  pub filesize : ℕ
  pub memsize : ℕ
  pub occupies : Option Bool

-- `Region._rebase`
unfoldable pub rebase : ℤ → Region → Region
rebase delta r = record r { vaddr = r.vaddr +ℤ delta }

unfoldable pub contains_addr : Region → ℤ → Bool
contains_addr r addr = leb_ℤ r.vaddr addr && ltb_ℤ addr (r.vaddr +ℤ pos r.memsize)

unfoldable pub contains_offset : Region → ℤ → Bool
contains_offset r offset = leb_ℤ r.offset offset && ltb_ℤ offset (r.offset +ℤ pos r.filesize)

unfoldable pub addr_to_offset : Region → ℤ → Option ℤ
unfolding contains_offset
addr_to_offset r addr =
    let offset = addr -ℤ r.vaddr +ℤ r.offset in
    if contains_offset r offset then some offset else none

unfoldable pub offset_to_addr : Region → ℤ → Option ℤ
unfolding contains_addr
offset_to_addr r offset =
    let addr = offset -ℤ r.offset +ℤ r.vaddr in if contains_addr r addr then some addr else none

-- The properties `max_addr`, `min_addr`, `max_offset` and `min_offset`.
unfoldable pub max_addr : Region → ℤ
max_addr r = r.vaddr +ℤ pos r.memsize -ℤ pos 1

unfoldable pub min_addr : Region → ℤ
min_addr r = r.vaddr

unfoldable pub max_offset : Region → ℤ
max_offset r = r.offset +ℤ pos r.filesize -ℤ pos 1

unfoldable pub min_offset : Region → ℤ
min_offset r = r.offset
