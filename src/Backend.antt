-- ===== src/Backend.antt =====
-- cle/backends/backend.py: an object that is loaded, as far as addresses go. Of the class `Backend`
-- the record keeps the bases, the regions, the hints that are moved with the object and the three
-- caches. `ident` stands for the identity of the object; `shared` tells that the attributes
-- `segments` and `sections` are one collection, as they are for a PE file.
pub mod Lookup
pub mod Rebase
use cle.Base.{
  ℕ, ◌≡◌, Bool, true, false, not, ◌&&◌, Option, none, some, List, [], ◌∷◌, if◌then◌else◌, Result,
  ok, err, ◌>>=◌, cle_operation_error, out_of_fuel,
}
use cle.Base.Int.{ℤ, pos, ◌+ℤ◌, ◌-ℤ◌, leb_ℤ, ltb_ℤ, max_ℤ}
use cle.Region.{Region}
use cle.Region
use cle.Regions.{Regions}
use cle.Regions
use cle.Memory.Backers.{Clemory}

pub record ExceptionHandling : Type 0 where
  pub start_addr : ℤ
  pub handler_addr : Option ℤ
  pub func_addr : Option ℤ

pub record FunctionHint : Type 0 where
  pub hint_addr : ℤ
  pub hint_size : ℕ

pub record Backend : Type 0 where
  pub ident : ℕ
  pub linked_base : ℤ
  pub mapped_base : ℤ
  pub is_mapped : Bool
  pub custom_base_addr : Option ℤ
  pub pic : Bool
  pub is_main_bin : Bool
  pub has_memory : Bool
  pub memory : Clemory
  pub segments : Regions
  pub sections : Regions
  pub shared : Bool
  pub exception_handlings : List ExceptionHandling
  pub function_hints : List FunctionHint
  pub cached_max_addr : Option ℤ
  pub last_segment : Option Region
  pub last_section : Option Region

unfoldable pub image_base_delta : Backend → ℤ
image_base_delta b = b.mapped_base -ℤ b.linked_base

abbrev pub add_to : ℤ → Option ℤ → Option ℤ
add_to delta none = none
add_to delta (some a) = some (a +ℤ delta)

abbrev pub rebase_handlings : ℤ → List ExceptionHandling → List ExceptionHandling
rebase_handlings delta [] = []
rebase_handlings delta (h ∷ hs) =
    record {
      start_addr = h.start_addr +ℤ delta;
      handler_addr = add_to delta h.handler_addr;
      func_addr = add_to delta h.func_addr;
    }
    ∷ rebase_handlings delta hs

abbrev pub rebase_hints : ℤ → List FunctionHint → List FunctionHint
rebase_hints delta [] = []
rebase_hints delta (h ∷ hs) = record h { hint_addr = h.hint_addr +ℤ delta } ∷ rebase_hints delta hs

-- A cached region is an object of the collection, so a move of the collection moves it.
abbrev pub rebase_cached : ℤ → Regions → Option Region → Option Region
rebase_cached delta rs none = none
rebase_cached delta rs (some r) =
    elim (Regions.rebase_each delta rs.list
      (record { list = []; sorted_list = r ∷ [] })).sorted_list [ [] ↦ none | r' ∷ _ ↦ some r' ]

-- `self.sections._rebase`, which moves the segments too where both are one object.
abbrev pub move_sections : ℤ → Backend → Backend
move_sections delta b =
    let sections' = Regions.rebase delta b.sections in
    record b {
      sections = sections';
      last_section = rebase_cached delta b.sections b.last_section;
      segments = if b.shared then sections' else b.segments;
      last_segment =
          if b.shared then rebase_cached delta b.sections b.last_segment else b.last_segment;
    }

-- The moves of the two collections in `rebase`. An empty collection has nothing to move.
unfoldable pub rebase_regions : Backend → Backend
unfolding image_base_delta
rebase_regions b =
    let delta = image_base_delta b in
    let b' = move_sections delta b in
    record b' {
      segments = if b.shared then b'.segments else Regions.rebase delta b'.segments;
      last_segment =
          if b.shared then b'.last_segment else rebase_cached delta b'.segments b'.last_segment;
    }

-- The object after `rebase`, if that does not raise.
unfoldable pub moved_to : ℤ → Backend → Backend
unfolding rebase_regions image_base_delta
moved_to new_base b =
    let based = record b { mapped_base = new_base } in
    let delta = image_base_delta based in
    record (rebase_regions based) {
      exception_handlings = rebase_handlings delta b.exception_handlings;
      function_hints = rebase_hints delta b.function_hints;
    }

unfoldable pub rebase : ℤ → Backend → Result Backend
unfolding moved_to
rebase new_base b = if b.is_mapped then err cle_operation_error else ok (moved_to new_base b)

-- What a lookup by address returns, with the cache after it.
abbrev pub Lookup : Type 0
Lookup = Result (Option Region) × Option Region

-- A region that is found is cached.
abbrev pub remember : Option Region → Result (Option Region) → Option Region
remember cached (ok (some r)) = some r
remember cached (ok none) = cached
remember cached (err e) = cached
remember cached out_of_fuel = cached

-- The body of `find_segment_containing` and `find_section_containing`.
unfoldable pub find_cached : Regions → Option Region → ℤ → Lookup
find_cached rs cached addr =
    let hit : Bool = elim cached [ none ↦ false | some r ↦ Region.contains_addr r addr ] in
    let found = Regions.find_region_containing rs addr in
    if hit then (ok cached, cached) else (found, remember cached found)

unfoldable pub find_segment_containing : Backend → ℤ → Result (Option Region) × Backend
unfolding find_cached
find_segment_containing b addr =
    let (found, cache) = find_cached b.segments b.last_segment addr in
    (found, record b { last_segment = cache })

unfoldable pub find_section_containing : Backend → ℤ → Result (Option Region) × Backend
unfolding find_cached
find_section_containing b addr =
    let (found, cache) = find_cached b.sections b.last_section addr in
    (found, record b { last_section = cache })

-- The truth of a collection: whether it has an element.
abbrev pub has_region : List Region → Bool
has_region [] = false
has_region (r ∷ rs) = true

abbrev pub has_any : Regions → Bool
has_any rs = has_region rs.list

unfoldable pub find_loadable_containing : Backend → ℤ → Result (Option Region) × Backend
unfolding find_segment_containing find_section_containing
find_loadable_containing b addr =
    if has_any b.segments then find_segment_containing b addr else find_section_containing b addr

unfoldable pub contains_addr : Backend → ℤ → Result Bool
unfolding find_loadable_containing
contains_addr b addr = (find_loadable_containing b addr).0 >>= λ found. elim found [
  | none ↦ ok false
  | some r ↦ ok true
]

abbrev pub found_offset : ℤ → Option Region → Option ℤ
found_offset addr none = none
found_offset addr (some r) = Region.addr_to_offset r addr

unfoldable pub addr_to_offset : Backend → ℤ → Result (Option ℤ)
unfolding find_loadable_containing
addr_to_offset b addr =
    (find_loadable_containing b addr).0 >>= λ found. ok (found_offset addr found)

abbrev pub first_offset : ℤ → List Region → Option ℤ
first_offset offset [] = none
first_offset offset (r ∷ rs) =
    if Region.contains_offset r offset
    then Region.offset_to_addr r offset
    else first_offset offset rs

unfoldable pub offset_to_addr : Backend → ℤ → Option ℤ
offset_to_addr b offset =
    first_offset offset (if has_any b.segments then b.segments.list else b.sections.list)

unfoldable pub min_addr : Backend → ℤ
min_addr b = b.mapped_base

-- `max(x.max_addr for x in ...)`, where there is at least one.
abbrev pub max_from : ℤ → List Region → ℤ
max_from m [] = m
max_from m (r ∷ rs) = max_from (max_ℤ m (Region.max_addr r)) rs

abbrev pub highest : ℤ → List Region → ℤ
highest base [] = base
highest base (r ∷ rs) = max_from (Region.max_addr r) rs

-- The value that `max_addr` caches, relative to the base.
unfoldable pub reach : Backend → ℤ
reach b =
    highest b.mapped_base (if has_any b.segments then b.segments.list else b.sections.list)
    -ℤ b.mapped_base

unfoldable pub max_addr_by : Backend → Option ℤ → ℤ × Backend
max_addr_by b none = (reach b +ℤ b.mapped_base, record b { cached_max_addr = some (reach b) })
max_addr_by b (some m) = (m +ℤ b.mapped_base, b)

unfoldable pub max_addr : Backend → ℤ × Backend
unfolding max_addr_by
max_addr b = max_addr_by b b.cached_max_addr

-- `thing in self`, for an integer.
unfoldable pub contains : Backend → ℤ → Bool
unfolding min_addr max_addr
contains b thing = leb_ℤ (min_addr b) thing && ltb_ℤ thing (max_addr b).0
