-- ===== src/Backend/Lookup.antt =====
-- The lookups of an object with their caches, against a scan of its regions.
use cle.Base.{◌≡◌, refl, sym, Option, none, some, ok, inl, inr, if◌then◌else◌, Bool-cases}
use cle.Base.Int.{ℤ}
use cle.Region.{Region}
use cle.Region
use cle.Regions.{Regions}
use cle.Regions.Lookup.{IsOrdered, scan, find_region_containing-scan}
use cle.Regions.Updates.{Listed}
use cle.Regions.Membership.{scan_sound, scan_complete}
use cle.Backend.{
  Backend, find_cached, find_segment_containing, find_section_containing, find_loadable_containing,
  addr_to_offset, found_offset, has_any, remember,
}

-- A cached region is one of the collection's.
abbrev pub IsCached : Regions → Option Region → Type 0
IsCached rs none = Unit
IsCached rs (some r) = Listed r rs.sorted_list

find_cached-scan :
    (rs : Regions) (cached : Option Region) (addr : ℤ)
    → IsOrdered rs.sorted_list
    → IsCached rs cached
    → (find_cached rs cached addr).0 ≡ ok (scan addr rs.sorted_list)
unfolding find_cached
find_cached-scan rs none addr o c = find_region_containing-scan rs addr o
find_cached-scan rs (some r) addr o c = elim (Bool-cases (Region.contains_addr r addr)) [
  | inl hit ↦ rw (hit, scan_complete addr r rs.sorted_list o c hit)
  | inr miss ↦ rw miss (find_region_containing-scan rs addr o)
]

remember-IsCached :
    (rs : Regions) (cached found : Option Region) (addr : ℤ)
    → IsCached rs cached
    → found ≡ scan addr rs.sorted_list
    → IsCached rs (remember cached (ok found))
remember-IsCached rs cached none addr c e = c
remember-IsCached rs cached (some r) addr c e = (scan_sound addr r rs.sorted_list (sym e)).0

find_cached-IsCached :
    (rs : Regions) (cached : Option Region) (addr : ℤ)
    → IsOrdered rs.sorted_list
    → IsCached rs cached
    → IsCached rs (find_cached rs cached addr).1
unfolding find_cached
find_cached-IsCached rs none addr o c =
    rw (find_region_containing-scan rs addr o)
      (remember-IsCached rs none (scan addr rs.sorted_list) addr c refl)
find_cached-IsCached rs (some r) addr o c = elim (Bool-cases (Region.contains_addr r addr)) [
  | inl hit ↦ rw hit c
  | inr miss ↦
      rw (miss, find_region_containing-scan rs addr o)
        (remember-IsCached rs (some r) (scan addr rs.sorted_list) addr c refl)
]

-- Where the segments are in order and the cache holds none but one of them, a lookup of a segment
-- by address gives what a scan of the segments gives, and keeps the cache so.
pub find_segment_containing-scan :
    (b : Backend) (addr : ℤ)
    → IsOrdered b.segments.sorted_list
    → IsCached b.segments b.last_segment
    → let (found, b') = find_segment_containing b addr in
      (found ≡ ok (scan addr b.segments.sorted_list))
      × (b'.segments ≡ b.segments)
      × IsCached b.segments b'.last_segment
unfolding find_segment_containing
find_segment_containing-scan b addr o c = (
  find_cached-scan b.segments b.last_segment addr o c,
  refl,
  find_cached-IsCached b.segments b.last_segment addr o c,
)

-- The same of the sections: in order, and with a cache that holds none but one of them, a lookup
-- gives what a scan gives, and keeps the cache so.
pub find_section_containing-scan :
    (b : Backend) (addr : ℤ)
    → IsOrdered b.sections.sorted_list
    → IsCached b.sections b.last_section
    → let (found, b') = find_section_containing b addr in
      (found ≡ ok (scan addr b.sections.sorted_list))
      × (b'.sections ≡ b.sections)
      × IsCached b.sections b'.last_section
unfolding find_section_containing
find_section_containing-scan b addr o c = (
  find_cached-scan b.sections b.last_section addr o c,
  refl,
  find_cached-IsCached b.sections b.last_section addr o c,
)

-- The regions that `find_loadable_containing` looks in.
abbrev pub loadables : Backend → Regions
loadables b = if has_any b.segments then b.segments else b.sections

-- Where both collections are in order and the caches hold none but their regions, the file offset
-- of an address is the one that the region around it gives, taken from the segments, or from the
-- sections of an object without segments; outside the regions there is none.
pub addr_to_offset-scan :
    (b : Backend) (addr : ℤ)
    → IsOrdered b.segments.sorted_list
    → IsOrdered b.sections.sorted_list
    → IsCached b.segments b.last_segment
    → IsCached b.sections b.last_section
    → addr_to_offset b addr ≡ ok (found_offset addr (scan addr (loadables b).sorted_list))
unfolding addr_to_offset find_loadable_containing
addr_to_offset-scan b addr o p c d = elim (Bool-cases (has_any b.segments)) [
  | inl segments ↦ rw (segments, (find_segment_containing-scan b addr o c).0)
  | inr sections ↦ rw (sections, (find_section_containing-scan b addr p d).0)
]
