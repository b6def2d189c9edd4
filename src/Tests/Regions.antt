-- ===== src/Tests/Regions.antt =====
-- Regions and collections of regions at concrete addresses.
use cle.Base.{◌≡◌, refl, arith, true, false, none, some, List, [], ◌∷◌, ◌++◌, inl, inr, ok}
use mathlib.Core.Option
use cle.Base.Int.{pos, ◌+ℤ◌}
use cle.Region.{
  Region, contains_addr, contains_offset, addr_to_offset, offset_to_addr, min_addr, max_addr,
}
use cle.Region
use cle.Regions.{
  region_end, Regions, is_region_mapped, place, new, append, rebase, find_region_containing,
}
use cle.Regions.Lookup.{IsOrdered, scan}
use cle.Regions.Updates.{AllApart, ApartFrom, append-IsOrdered}
use cle.Regions.Rebase.{rebase-find_region_containing}
use cle.Regions.Membership.{new-find_region_containing}

abbrev text : Region
text = record {
  ident = 1;
  offset = pos 0;
  vaddr = pos 4096;
  filesize = 200;
  memsize = 200;
  occupies = none;
}

abbrev bss : Region
bss = record {
  ident = 2;
  offset = pos 200;
  vaddr = pos 8192;
  filesize = 0;
  memsize = 64;
  occupies = some true;
}

abbrev debug : Region
debug = record {
  ident = 3;
  offset = pos 300;
  vaddr = pos 0;
  filesize = 50;
  memsize = 50;
  occupies = some false;
}

abbrev stack : Region
stack = record {
  ident = 4;
  offset = pos 0;
  vaddr = pos 12288;
  filesize = 0;
  memsize = 16;
  occupies = none;
}

abbrev three : List Region
three = bss ∷ debug ∷ text ∷ []

abbrev in_order : Regions
in_order = record { list = three; sorted_list = text ∷ bss ∷ [] }

in_order-IsOrdered : IsOrdered in_order.sorted_list
unfolding region_end ◌+ℤ◌
in_order-IsOrdered = (omega arith, (omega arith, tt), (omega arith, tt, tt))

three-AllApart : AllApart three
unfolding region_end ◌+ℤ◌
three-AllApart = ((inr (omega arith), (inr (omega arith), tt)), ((inl (omega arith), tt), (tt, tt)))

stack-ApartFrom : ApartFrom stack in_order.sorted_list
unfolding region_end ◌+ℤ◌
stack-ApartFrom = (inr (omega arith), (inr (omega arith), tt))

stack_is_mapped : is_region_mapped stack ≡ true
unfolding is_region_mapped
stack_is_mapped = refl

append-IsOrdered_example :
    (rs' : Regions) × (append in_order stack ≡ ok rs')
    × (rs'.list ≡ three ++ stack ∷ [])
    × (rs'.sorted_list ≡ place stack in_order.sorted_list)
    × IsOrdered rs'.sorted_list
append-IsOrdered_example =
    append-IsOrdered in_order stack in_order-IsOrdered stack_is_mapped stack-ApartFrom

rebase-find_region_containing_example :
    find_region_containing (rebase (pos 4096) in_order) (pos 8200 +ℤ pos 4096)
    ≡ ok (Option.map (Region.rebase (pos 4096)) (scan (pos 8200) in_order.sorted_list))
rebase-find_region_containing_example =
    rebase-find_region_containing (pos 4096) (pos 8200) in_order (refl, (refl, (refl, tt)))
      (refl, (refl, tt)) in_order-IsOrdered

new-find_region_containing_example :
    find_region_containing (new (some three)) (pos 8200) ≡ ok (some bss)
unfolding contains_addr ◌+ℤ◌ is_region_mapped
new-find_region_containing_example =
    new-find_region_containing three (pos 8200) bss three-AllApart (inl refl) refl refl
