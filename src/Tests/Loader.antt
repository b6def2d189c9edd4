-- ===== src/Tests/Loader.antt =====
-- Two objects in an address space of 32 bits, and a third to be mapped.
use cle.Base.{
  ℕ, ◌^◌, ◌≡◌, refl, arith, Bool, true, false, ◌==◌, Option, none, some, [], ◌∷◌, ok, inl, inr,
}
use cle.Base.Int.{ℤ, pos, ◌+ℤ◌, ◌-ℤ◌, ◌≤ℤ◌}
use cle.Utils.Align.{align_up, align_down, and_neg}
use cle.Utils.Bisect.{key_bisect_insort_right, bisect, bisect_loop}
use cle.Region.{Region}
use cle.Region
use cle.Regions
use cle.Regions.{Regions}
use cle.Regions.Lookup.{IsOrdered, scan}
use cle.Memory.Backers
use cle.Memory.Backers.{Clemory}
use cle.Backend
use cle.Backend.{
  Backend, min_addr, max_addr_by, reach, rebase, find_segment_containing, find_section_containing,
  addr_to_offset, found_offset, moved_to, rebase_regions, image_base_delta,
}
use cle.Backend.Lookup.{loadables, addr_to_offset-scan}
use cle.Backend.Rebase.{rebase-max_addr}
use cle.Loader.{
  Loader, first_gap, gap_among, find_safe_rebase_addr, is_range_free, clashes, clashes_any,
  default_base, choose_base, settle, mount, enter, integrate,
}
use cle.Loader.Space.{IsSpaced, find_safe_rebase_addr-is_range_free}
use cle.Loader.Mapping.{IsEntered, integrate-IsSpaced}
use cle.Loader.Search.{find_object_containing}
use cle.Loader.Found.{expected, first_around, find_object_containing-first_around}
use cle.Loader.Queries.{find_loadable_containing}
use cle.Loader.Querying.{scanned, find_loadable_containing-scanned}

abbrev text : Region
text = record {
  ident = 1;
  offset = pos 0;
  vaddr = pos 4096;
  filesize = 200;
  memsize = 200;
  occupies = none;
}

abbrev code : Regions
code = record { list = text ∷ []; sorted_list = text ∷ [] }

abbrev none_at_all : Regions
none_at_all = record { list = []; sorted_list = [] }

abbrev library : ℕ → ℤ → Option ℤ → Backend
library ident base cached = record {
  ident = ident;
  linked_base = base;
  mapped_base = base;
  is_mapped = false;
  custom_base_addr = none;
  pic = true;
  is_main_bin = false;
  has_memory = false;
  memory = Backers.new false;
  segments = code;
  sections = none_at_all;
  shared = false;
  exception_handlings = [];
  function_hints = [];
  cached_max_addr = cached;
  last_segment = none;
  last_section = none;
}

abbrev fresh : Backend
fresh = library 7 (pos 4096) none

code-IsOrdered : IsOrdered code.sorted_list
code-IsOrdered = (omega arith, tt, tt)

addr_to_offset-scan_example :
    addr_to_offset fresh (pos 4100)
    ≡ ok (found_offset (pos 4100) (scan (pos 4100) (loadables fresh).sorted_list))
addr_to_offset-scan_example = addr_to_offset-scan fresh (pos 4100) code-IsOrdered tt tt tt

rebase-max_addr_example :
    (b' : Backend) × (rebase (pos 65536) (Backend.max_addr fresh).1 ≡ ok b')
    × ((Backend.max_addr b').0 ≡ reach b' +ℤ b'.mapped_base)
    × ((Backend.max_addr b').0 ≡ (Backend.max_addr fresh).0 +ℤ (pos 65536 -ℤ pos 4096))
    × (fresh.shared ≡ true → b'.segments ≡ b'.sections)
rebase-max_addr_example =
    rebase-max_addr (pos 65536) fresh refl (λ e. absurd (cc)) refl refl ((refl, tt), (refl, tt))
      (tt, tt)

abbrev main : Backend
main = record (library 1 (pos 4194304) (some (pos 8191))) {
  is_main_bin = true;
  pic = false;
  is_mapped = true;
}

abbrev first_library : Backend
first_library = record (library 2 (pos 5242880) (some (pos 4095))) { is_mapped = true }

abbrev loader : Loader
loader = record {
  bits = 32;
  rebase_granularity = 1048576;
  main_object = main;
  all_objects = main ∷ first_library ∷ [];
  space = Backers.new true;
  last_object = some first_library;
}

loader-IsSpaced : IsSpaced loader.all_objects
unfolding min_addr Backend.max_addr max_addr_by ◌+ℤ◌
loader-IsSpaced = (omega arith, (omega arith, tt), (omega arith, tt, tt))

loader_has_room :
    gap_among 1048576 (pos 200) (first_gap loader) loader.all_objects +ℤ pos 200 ≤ℤ pos (2 ^ 32)
unfolding gap_among first_gap min_addr Backend.max_addr max_addr_by ◌+ℤ◌ align_up align_down and_neg
loader_has_room = omega arith

find_safe_rebase_addr-is_range_free_example :
    (va : ℤ) × (find_safe_rebase_addr loader (pos 200) ≡ ok va)
    × (is_range_free loader va (pos 200) ≡ true)
find_safe_rebase_addr-is_range_free_example =
    find_safe_rebase_addr-is_range_free loader (pos 200) 20 refl (omega arith) loader-IsSpaced
      loader_has_room

find_object_containing-first_around_example :
    (find_object_containing loader (pos 4194400) true).0
    ≡ ok (expected true (pos 4194400) (first_around (pos 4194400) loader.all_objects))
find_object_containing-first_around_example =
    find_object_containing-first_around loader (pos 4194400) true refl loader-IsSpaced
      (inr (inl refl)) ((λ e. absurd (cc)), ((λ e. absurd (cc)), tt))

abbrev is_extern : Backend → Bool
is_extern o = o.ident == 9

find_loadable_containing-scanned_example :
    (find_loadable_containing is_extern loader (pos 4194400) true).0
    ≡ ok (scanned is_extern true (pos 4194400) (first_around (pos 4194400) loader.all_objects))
find_loadable_containing-scanned_example =
    find_loadable_containing-scanned is_extern loader (pos 4194400) true refl loader-IsSpaced
      (inr (inl refl)) ((code-IsOrdered, tt), (tt, tt), ((code-IsOrdered, tt), (tt, tt), tt))

abbrev second_library : Backend
second_library = library 7 (pos 4096) (some (pos 199))

integrate-IsSpaced_example :
    IsSpaced (record second_library { is_mapped = true } ∷ loader.all_objects)
    × IsEntered second_library loader.all_objects
        (record second_library { is_mapped = true } ∷ loader.all_objects)
unfolding integrate settle choose_base default_base is_range_free clashes_any clashes rebase
    moved_to rebase_regions image_base_delta mount enter key_bisect_insort_right bisect bisect_loop
    min_addr Backend.max_addr max_addr_by ◌+ℤ◌ ◌-ℤ◌ Regions.rebase Regions.rebase_each
    Regions.rebase_object Region.rebase
integrate-IsSpaced_example =
    integrate-IsSpaced loader second_library 20 refl loader-IsSpaced refl (omega arith)
      ((λ e. absurd (cc)), loader_has_room) refl
