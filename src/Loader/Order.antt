-- ===== src/Loader/Order.antt =====
-- Step 1.5 of `_internal_load` in cle/loader.py: the objects that have been loaded are put behind
-- the objects that they depend on. Names are lists of code points, and an object is what this
-- step reads of it. The recursion of `visit` takes fuel, one more than there are objects.
pub mod Walk
pub mod Visiting
pub mod Outcome
use cle.Base.{
  ℕ, zero, suc, ◌≡◌, Bool, true, false, not, ◌&&◌, ◌||◌, Option, none, some, List, [], ◌∷◌, ◌++◌,
  ◌==◌, leb, length, if◌then◌else◌, Result, ok, err, out_of_fuel, ◌>>=◌,
}

abbrev pub Name : Type 0
Name = List ℕ

pub record Loaded : Type 0 where
  pub ident : ℕ
  pub provides : Option Name
  pub deps : List Name

abbrev pub mem : ℕ → List ℕ → Bool
mem i [] = false
mem i (j ∷ js) = i == j || mem i js

-- The set `seen` and the list `ordered_objects`.
pub record Visits : Type 0 where
  pub seen : List ℕ
  pub ordered : List Loaded

-- The loop over objects to visit.
abbrev pub visit_each : (Loaded → Visits → Result Visits) → List Loaded → Visits → Result Visits
visit_each visit [] w = ok w
visit_each visit (o ∷ os) w = visit o w >>= λ w'. visit_each visit os w'

-- `visit`, where `dep_objs` gives the objects that an object depends on.
unfoldable pub visit : ℕ → (Loaded → List Loaded) → Loaded → Visits → Result Visits
visit zero dep_objs o w = out_of_fuel
visit (suc fuel) dep_objs o w =
    let rest =
      visit_each (visit fuel dep_objs) (dep_objs o) (record w { seen = o.ident ∷ w.seen }) >>= λ w'.
      ok (record w' { ordered = w'.ordered ++ o ∷ [] }) in
    if mem o.ident w.seen then ok w else rest

-- `name.rstrip(".0123456789")`
abbrev is_version_part : ℕ → Bool
is_version_part c = c == b'.' || (leb b'0' c && leb c b'9')

abbrev strip_last : ℕ → Name → Name
strip_last c [] = if is_version_part c then [] else c ∷ []
strip_last c (d ∷ ds) = c ∷ d ∷ ds

abbrev pub strip_version : Name → Name
strip_version [] = []
strip_version (c ∷ cs) = strip_last c (strip_version cs)

abbrev pub stripped : Bool → Name → Name
stripped ignore_versions name = if ignore_versions then strip_version name else name

abbrev pub same_name : Name → Name → Bool
same_name [] [] = true
same_name [] (d ∷ ds) = false
same_name (c ∷ cs) [] = false
same_name (c ∷ cs) (d ∷ ds) = c == d && same_name cs ds

-- `obj.provides`, if it is there and not empty.
abbrev pub soname : Bool → Loaded → Option Name
soname ignore_versions o = elim o.provides [
  | none ↦ none
  | some [] ↦ none
  | some (c ∷ cs) ↦ some (stripped ignore_versions (c ∷ cs))
]

-- The dictionary `soname_mapping`, where the last object of a name counts.
abbrev or_this : Option Loaded → Bool → Loaded → Option Loaded
or_this (some p) fits o = some p
or_this none fits o = if fits then some o else none

abbrev pub fits_name : Option Name → Name → Bool
fits_name none name = false
fits_name (some n) name = same_name n name

unfoldable pub by_soname : Bool → List Loaded → Name → Option Loaded
by_soname ignore_versions [] name = none
by_soname ignore_versions (o ∷ os) name =
    or_this (by_soname ignore_versions os name) (fits_name (soname ignore_versions o) name) o

abbrev pub prepend_found : Option Loaded → List Loaded → List Loaded
prepend_found none os = os
prepend_found (some o) os = o ∷ os

unfoldable pub found_deps : Bool → List Loaded → List Name → List Loaded
unfolding by_soname
found_deps ignore_versions objects [] = []
found_deps ignore_versions objects (name ∷ names) =
    prepend_found (by_soname ignore_versions objects (stripped ignore_versions name))
      (found_deps ignore_versions objects names)

abbrev pub deps_among : Bool → List Loaded → Loaded → List Loaded
deps_among ignore_versions objects o = found_deps ignore_versions objects o.deps

-- The whole step, over `preload_objects + objects`.
unfoldable pub order_objects : Bool → List Loaded → List Loaded → Result Visits
unfolding visit found_deps
order_objects ignore_versions preloaded objects =
    visit_each (visit (suc (length objects)) (deps_among ignore_versions objects))
      (preloaded ++ objects) (record { seen = []; ordered = [] })
