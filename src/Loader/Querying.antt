-- ===== src/Loader/Querying.antt =====
-- The query of segments and sections of cle/loader.py against a scan of the object around an
-- address.
use cle.Base.{
  ◌≡◌, refl, ap, ◌∙◌, Bool, false, ◌&&◌, Option, none, some, List, [], ◌∷◌, if◌then◌else◌, Result,
  ok, err, out_of_fuel, inl, inr, Bool-cases,
}
use cle.Base.Int.{ℤ}
use cle.Region.{Region}
use cle.Regions.Lookup.{IsOrdered, scan}
use cle.Backend.{Backend, has_any}
use cle.Backend
use cle.Backend.Lookup.{
  IsCached, loadables, find_segment_containing-scan, find_section_containing-scan,
}
use cle.Loader.{Loader}
use cle.Loader.Space.{IsSpaced}
use cle.Loader.Search.{Answer, accepts, spans, find_object_containing}
use cle.Loader.Found.{first_around, answer_for, IsRemembered, find_object_containing-answer_for}
use cle.Loader.Queries.{ObjectLookup, look_in, find_loadable_containing}

-- Objects with regions in order and sound caches.
abbrev pub AreSound : List Backend → Type 0
AreSound [] = Unit
AreSound (o ∷ os) =
    (IsOrdered o.segments.sorted_list × IsCached o.segments o.last_segment)
    × (IsOrdered o.sections.sorted_list × IsCached o.sections o.last_section)
    × AreSound os

-- The region around the address that an object has for it.
abbrev pub scanned : (Backend → Bool) → Bool → ℤ → Option Backend → Option Region
scanned is_pseudo skip addr none = none
scanned is_pseudo skip addr (some o) =
    if skip && is_pseudo o then none else scan addr (loadables o).sorted_list

abbrev found_by :
    (Backend → Bool) → ObjectLookup → Bool → ℤ → Result (Option Backend) → Result (Option Region)
found_by is_pseudo lookup skip addr (ok none) = ok none
found_by is_pseudo lookup skip addr (ok (some o)) =
    if skip && is_pseudo o then ok none else (lookup o addr).0
found_by is_pseudo lookup skip addr (err e) = err e
found_by is_pseudo lookup skip addr out_of_fuel = out_of_fuel

look_in-found_by :
    (is_pseudo : Backend → Bool) (lookup : ObjectLookup) (skip : Bool) (addr : ℤ) (a : Answer)
    → (look_in is_pseudo lookup skip addr a).0 ≡ found_by is_pseudo lookup skip addr a.0
unfolding look_in
look_in-found_by is_pseudo lookup skip addr (ok none, l) = refl
look_in-found_by is_pseudo lookup skip addr (ok (some o), l) =
    elim (Bool-cases (skip && is_pseudo o)) [ inl pseudo ↦ rw pseudo | inr real ↦ rw real ]
look_in-found_by is_pseudo lookup skip addr (err e, l) = refl
look_in-found_by is_pseudo lookup skip addr (out_of_fuel, l) = refl

unchecked : (addr : ℤ) (r : Option Backend) → answer_for false addr r ≡ ok r
unfolding accepts
unchecked addr none = refl
unchecked addr (some o) = refl

loadable-scan :
    (b : Backend) (addr : ℤ)
    → IsOrdered b.segments.sorted_list × IsCached b.segments b.last_segment
    → IsOrdered b.sections.sorted_list × IsCached b.sections b.last_section
    → (Backend.find_loadable_containing b addr).0 ≡ ok (scan addr (loadables b).sorted_list)
unfolding Backend.find_loadable_containing
loadable-scan b addr s t = elim (Bool-cases (has_any b.segments)) [
  | inl segments ↦ rw segments (find_segment_containing-scan b addr s.0 s.1).0
  | inr sections ↦ rw sections (find_section_containing-scan b addr t.0 t.1).0
]

found_by-scanned :
    (is_pseudo : Backend → Bool) (skip : Bool) (addr : ℤ) (os : List Backend)
    → AreSound os
    → found_by is_pseudo Backend.find_loadable_containing skip addr (ok (first_around addr os))
      ≡ ok (scanned is_pseudo skip addr (first_around addr os))
unfolding first_around
found_by-scanned is_pseudo skip addr [] s = refl
found_by-scanned is_pseudo skip addr (o ∷ os) (s, t, rest) = elim (Bool-cases (spans o addr)) [
  | inl around ↦ rw around (elim (Bool-cases (skip && is_pseudo o)) [
    | inl pseudo ↦ rw pseudo
    | inr real ↦ rw real (loadable-scan o addr s t)
  ])
  | inr off ↦ rw off (found_by-scanned is_pseudo skip addr os rest)
]

-- Where the objects do not overlap and there is one, the object found last is one of them, and
-- each has its regions in order and sound caches, `find_loadable_containing` gives the region
-- around the address of the object around it, a segment, or a section where the object has no
-- segments; none where no object is around it, or a pseudo object that is to be skipped.
pub find_loadable_containing-scanned :
    (is_pseudo : Backend → Bool) (l : Loader) (addr : ℤ) (skip : Bool) {o : Backend}
    {os : List Backend}
    → l.all_objects ≡ o ∷ os
    → IsSpaced l.all_objects
    → IsRemembered l.last_object l.all_objects
    → AreSound l.all_objects
    → (find_loadable_containing is_pseudo l addr skip).0
      ≡ ok (scanned is_pseudo skip addr (first_around addr l.all_objects))
unfolding find_loadable_containing
find_loadable_containing-scanned is_pseudo l addr skip e s m sound =
    look_in-found_by is_pseudo Backend.find_loadable_containing skip addr
      (find_object_containing l addr false)
    ∙ ap (found_by is_pseudo Backend.find_loadable_containing skip addr) (
        find_object_containing-answer_for l addr false e s m
        ∙ unchecked addr (first_around addr l.all_objects))
    ∙ found_by-scanned is_pseudo skip addr l.all_objects sound
