-- ===== src/Loader/Search.antt =====
-- `find_object_containing` of cle/loader.py. Of the memory of an object only the case of a `Clemory`
-- is modelled; a string stands there for the Java backends.
use cle.Base.{
  Bool, true, false, not, ◌&&◌, ◌||◌, Option, none, some, List, [], ◌∷◌, if◌then◌else◌, Result, ok,
  err, out_of_fuel, index_error,
}
use cle.Base.Int.{ℤ, pos, ◌-ℤ◌, leb_ℤ, ltb_ℤ}
use cle.Utils.Bisect.{key_bisect_floor_key}
use cle.Memory.Items.{contains}
use cle.Backend.{Backend, min_addr}
use cle.Loader.{Loader, end_of}

-- The objects that an address lies between, and the last of a list that is not empty.
abbrev pub spans : Backend → ℤ → Bool
spans o addr = leb_ℤ (min_addr o) addr && leb_ℤ addr (end_of o)

abbrev pub last_of : Backend → List Backend → Backend
last_of o [] = o
last_of o (p ∷ os) = last_of p os

-- `_check_object_memory`: whether the object's own memory has a byte at the address.
unfoldable pub has_byte_at : Backend → ℤ → Result Bool
has_byte_at o addr = contains o.memory (addr -ℤ o.mapped_base)

-- Whether an object around the address is the answer: always without a membership check, and for
-- an object without memory.
unfoldable pub accepts : Bool → ℤ → Backend → Result Bool
unfolding has_byte_at
accepts membership_check addr o =
    if not membership_check
    then ok true
    else if not o.has_memory
    then ok true
    else has_byte_at o addr

-- An answer with the loader after it, which remembers the object.
abbrev pub Answer : Type 0
Answer = Result (Option Backend) × Loader

abbrev pub answer : Loader → Backend → Result Bool → Answer
answer l o (ok true) = (ok (some o), record l { last_object = some o })
answer l o (ok false) = (ok none, l)
answer l o (err e) = (err e, l)
answer l o out_of_fuel = (Result.out_of_fuel, l)

-- The object that the search gives, if it is around the address.
abbrev pub checked : Bool → Loader → ℤ → Result (Option Backend) → Answer
checked membership_check l addr (ok none) = (ok none, l)
checked membership_check l addr (ok (some o)) =
    if spans o addr then answer l o (accepts membership_check addr o) else (ok none, l)
checked membership_check l addr (err e) = (err e, l)
checked membership_check l addr out_of_fuel = (Result.out_of_fuel, l)

-- The lines behind the cache. The bounds of a loader without objects raise `IndexError`.
unfoldable pub search_in : List Backend → Bool → Loader → ℤ → Answer
unfolding accepts
search_in [] membership_check l addr = (err index_error, l)
search_in (o ∷ os) membership_check l addr =
    if ltb_ℤ (end_of (last_of o os)) addr || ltb_ℤ addr (min_addr o)
    then (ok none, l)
    else checked membership_check l addr (key_bisect_floor_key min_addr (o ∷ os) addr (pos 0) none)

-- A cached object that does not hold the address is passed over.
abbrev pub from_cache : Loader → Backend → Result Bool → Answer → Answer
from_cache l o (ok true) rest = (ok (some o), l)
from_cache l o (ok false) rest = rest
from_cache l o (err e) rest = (err e, l)
from_cache l o out_of_fuel rest = (Result.out_of_fuel, l)

abbrev pub try_cache : Option Backend → Bool → Loader → ℤ → Answer → Answer
try_cache none membership_check l addr rest = rest
try_cache (some o) membership_check l addr rest =
    if spans o addr then from_cache l o (accepts membership_check addr o) rest else rest

unfoldable pub find_object_containing : Loader → ℤ → Bool → Answer
unfolding accepts search_in
find_object_containing l addr membership_check =
    try_cache l.last_object membership_check l addr
      (search_in l.all_objects membership_check l addr)
