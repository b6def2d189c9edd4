-- ===== src/Loader/Queries.antt =====
-- The queries of cle/loader.py that start with `find_object_containing`: the segment, the section
-- or either of them around an address, and the section behind it. The class of an object is not
-- kept in its record: `is_pseudo` stands for the test that an object is one that the loader adds
-- itself, an `ExternObject`, a `KernelObject` or a `TLSObject`.
use cle.Base.{
  Bool, false, ◌&&◌, Option, none, some, List, [], ◌∷◌, if◌then◌else◌, Result, ok, err, out_of_fuel,
  ◌==◌,
}
use cle.Base.Int.{ℤ}
use cle.Region.{Region}
use cle.Regions.{find_region_next_to}
use cle.Backend.{Backend}
use cle.Backend
use cle.Loader.{Loader}
use cle.Loader.Search.{Answer, find_object_containing}

-- What a query returns, with the loader after it.
abbrev pub Query : Type 0
Query = Result (Option Region) × Loader

-- An object is shared by the fields of the loader that hold it, so each of them sees its change.
abbrev see : Backend → Backend → Backend
see changed o = if o.ident == changed.ident then changed else o

abbrev see_each : Backend → List Backend → List Backend
see_each changed [] = []
see_each changed (o ∷ os) = see changed o ∷ see_each changed os

abbrev see_last : Backend → Option Backend → Option Backend
see_last changed none = none
see_last changed (some o) = some (see changed o)

unfoldable pub with_change : Loader → Backend → Loader
with_change l changed = record l {
  all_objects = see_each changed l.all_objects;
  main_object = see changed l.main_object;
  last_object = see_last changed l.last_object;
}

-- A lookup in an object, which may change its cache.
abbrev pub ObjectLookup : Type 0
ObjectLookup = Backend → ℤ → Result (Option Region) × Backend

abbrev finish : Loader → Result (Option Region) × Backend → Query
finish l (found, changed) = (found, with_change l changed)

-- The lines behind the search for the object.
unfoldable pub look_in : (Backend → Bool) → ObjectLookup → Bool → ℤ → Answer → Query
unfolding with_change
look_in is_pseudo lookup skip addr (ok none, l) = (ok none, l)
look_in is_pseudo lookup skip addr (ok (some o), l) =
    if skip && is_pseudo o then (ok none, l) else finish l (lookup o addr)
look_in is_pseudo lookup skip addr (err e, l) = (err e, l)
look_in is_pseudo lookup skip addr (out_of_fuel, l) = (Result.out_of_fuel, l)

-- `find_segment_containing`.
unfoldable pub find_segment_containing : (Backend → Bool) → Loader → ℤ → Bool → Query
unfolding look_in
find_segment_containing is_pseudo l addr skip =
    look_in is_pseudo Backend.find_segment_containing skip addr
      (find_object_containing l addr false)

-- `find_section_containing`.
unfoldable pub find_section_containing : (Backend → Bool) → Loader → ℤ → Bool → Query
unfolding look_in
find_section_containing is_pseudo l addr skip =
    look_in is_pseudo Backend.find_section_containing skip addr
      (find_object_containing l addr false)

-- `find_loadable_containing`.
unfoldable pub find_loadable_containing : (Backend → Bool) → Loader → ℤ → Bool → Query
unfolding look_in
find_loadable_containing is_pseudo l addr skip =
    look_in is_pseudo Backend.find_loadable_containing skip addr
      (find_object_containing l addr false)

abbrev next_section : ObjectLookup
next_section o addr = (find_region_next_to o.sections addr, o)

-- `find_section_next_to`.
unfoldable pub find_section_next_to : (Backend → Bool) → Loader → ℤ → Bool → Query
unfolding look_in
find_section_next_to is_pseudo l addr skip =
    look_in is_pseudo next_section skip addr (find_object_containing l addr false)
