-- ===== src/Loader/Found.antt =====
-- `find_object_containing` against a scan of the objects.
use cle.Base.{
  ◌≡◌, refl, ap, ◌∙◌, sym, subst, Bool, true, false, not, ◌||◌, Option, none, some, List, [], ◌∷◌,
  arith, if◌then◌else◌, Result, ok, err, out_of_fuel, inl, inr, ◌⊎◌, Bool-cases, Option-cases,
}
use cle.Base.Int.{ℤ, ◌-ℤ◌, ◌≤ℤ◌, ◌<ℤ◌, leb_ℤ, ltb_ℤ}
use cle.Utils.Bisect.Insert.{last_le, floor_key-last_le}
use cle.Backend.{Backend, min_addr}
use cle.Memory.Bytes.{segments, byte_at}
use cle.Memory.Extents.{IsKept}
use cle.Memory.Reading.{IsSound}
use cle.Memory.Membership.{has_byte, contains-byte_at}
use cle.Loader.{Loader, end_of}
use cle.Loader.Space.{AllBehind, AllBehind-weaken, IsSpaced, IsSpaced-IsSorted}
use cle.Loader.Search.{
  spans, last_of, has_byte_at, accepts, answer, checked, search_in, from_cache, try_cache,
  find_object_containing,
}

-- The first object around an address.
unfoldable pub first_around : ℤ → List Backend → Option Backend
first_around addr [] = none
first_around addr (o ∷ os) = if spans o addr then some o else first_around addr os

abbrev pub Stands : Backend → List Backend → Type 0
Stands o [] = ⊥
Stands o (p ∷ os) = (o ≡ p) ⊎ Stands o os

none_around :
    (addr k : ℤ) (os : List Backend) → addr ≤ℤ k → AllBehind k os → first_around addr os ≡ none
unfolding first_around
none_around addr k [] h b = refl
none_around addr k (o ∷ os) h b =
    let off : spans o addr ≡ false = ground arith in rw (off, none_around addr k os h b.1)

if_around : ℤ → Option Backend → Option Backend
if_around addr none = none
if_around addr (some o) = if spans o addr then some o else none

last_le-behind :
    (k addr : ℤ) (os : List Backend) (p : Backend)
    → AllBehind k os
    → last_le min_addr addr os ≡ some p
    → k <ℤ addr
unfolding last_le
last_le-behind k addr [] p b e = absurd (cc)
last_le-behind k addr (o ∷ os) p b e = elim (Option-cases (last_le min_addr addr os)) [
  | inl nothing ↦ elim (Bool-cases (leb_ℤ (min_addr o) addr)) [
    | inl low ↦ let first = b.0 in ground arith
    | inr high ↦ absurd (let e' : none ≡ some p = rw (nothing, high) at e in cc)
  ]
  | inr (q, found) ↦ last_le-behind k addr os q b.1 found
]

-- The last object that starts no higher than the address is the only one that can be around it.
last_le-first_around :
    (addr : ℤ) (os : List Backend)
    → IsSpaced os
    → if_around addr (last_le min_addr addr os) ≡ first_around addr os
unfolding first_around if_around last_le
last_le-first_around addr [] s = refl
last_le-first_around addr (o ∷ os) s = elim (Option-cases (last_le min_addr addr os)) [
  | inl nothing ↦
      let rest : none ≡ first_around addr os = rw nothing at (last_le-first_around addr os s.2) in
      rw (nothing, sym rest)
        (elim (Bool-cases (leb_ℤ (min_addr o) addr)) [
          | inl low ↦ rw low (ground arith)
          | inr high ↦ rw high (ground arith)
        ])
  | inr (p, found) ↦
      let behind = last_le-behind (end_of o) addr os p s.1 found in
      let off : spans o addr ≡ false = ground arith in
      rw (off, sym (last_le-first_around addr os s.2), found)
]

-- The answer for the object around the address: that object, if it is accepted.
abbrev pub decide : Backend → Result Bool → Result (Option Backend)
decide o (ok true) = ok (some o)
decide o (ok false) = ok none
decide o (err e) = err e
decide o out_of_fuel = out_of_fuel

abbrev pub answer_for : Bool → ℤ → Option Backend → Result (Option Backend)
answer_for membership_check addr none = ok none
answer_for membership_check addr (some o) = decide o (accepts membership_check addr o)

answer-decide : (l : Loader) (o : Backend) (r : Result Bool) → (answer l o r).0 ≡ decide o r
answer-decide l o (ok true) = refl
answer-decide l o (ok false) = refl
answer-decide l o (err e) = refl
answer-decide l o out_of_fuel = refl

checked-answer_for :
    (check : Bool) (l : Loader) (addr : ℤ) (r : Option Backend)
    → (checked check l addr (ok r)).0 ≡ answer_for check addr (if_around addr r)
unfolding if_around
checked-answer_for check l addr none = refl
checked-answer_for check l addr (some o) = elim (Bool-cases (spans o addr)) [
  | inl around ↦ rw around (answer-decide l o (accepts check addr o))
  | inr off ↦ rw off
]

last_behind :
    (k : ℤ) (o : Backend) (os : List Backend)
    → k <ℤ min_addr o
    → IsSpaced (o ∷ os)
    → k <ℤ end_of (last_of o os)
last_behind k o [] h s = omega (arith, h, s.0)
last_behind k o (p ∷ os) h s = last_behind k p os (omega (arith, h, s.0, s.1.0)) s.2

Stands-behind :
    (k : ℤ) (o : Backend) (os : List Backend) → AllBehind k os → Stands o os → k <ℤ min_addr o
Stands-behind k o [] b h = absurd h
Stands-behind k o (p ∷ os) b (inl e) = rw e b.0
Stands-behind k o (p ∷ os) b (inr h) = Stands-behind k o os b.1 h

last_below :
    (addr : ℤ) (o : Backend) (os : List Backend)
    → IsSpaced (o ∷ os)
    → end_of (last_of o os) <ℤ addr
    → first_around addr (o ∷ os) ≡ none
unfolding first_around
last_below addr o [] s h = let off : spans o addr ≡ false = ground arith in rw off
last_below addr o (p ∷ os) s h =
    let rest = last_below addr p os s.2 h in
    let off : spans o addr ≡ false =
      (let top = last_behind (end_of o) p os s.1.0 s.2 in ground arith) in
    rw (off, rest)

search_in-first_around :
    (check : Bool) (l : Loader) (addr : ℤ) (o : Backend) (os : List Backend)
    → IsSpaced (o ∷ os)
    → (search_in (o ∷ os) check l addr).0 ≡ answer_for check addr (first_around addr (o ∷ os))
unfolding search_in
search_in-first_around check l addr o os s =
    elim (Bool-cases (ltb_ℤ (end_of (last_of o os)) addr)) [
      | inl above ↦ let nothing = last_below addr o os s (ground arith) in rw (above, nothing)
      | inr reached ↦ elim (Bool-cases (ltb_ℤ addr (min_addr o))) [
        | inl below ↦
            let nothing : first_around addr (o ∷ os) ≡ none =
              none_around addr addr (o ∷ os) (omega arith) (
                ground arith,
                AllBehind-weaken addr (end_of o) os (let low = s.0 in ground arith) s.1,
              ) in
            rw (reached, below, nothing)
        | inr inside ↦
            rw
              (
                reached,
                inside,
                floor_key-last_le min_addr (o ∷ os) addr (IsSpaced-IsSorted (o ∷ os) s),
              )
              (checked-answer_for check l addr (last_le min_addr addr (o ∷ os))
                ∙ ap (answer_for check addr) (last_le-first_around addr (o ∷ os) s))
      ]
    ]

Stands-first_around :
    (addr : ℤ) (o : Backend) (os : List Backend)
    → IsSpaced os
    → Stands o os
    → spans o addr ≡ true
    → first_around addr os ≡ some o
unfolding first_around
Stands-first_around addr o [] s h a = absurd h
Stands-first_around addr o (p ∷ os) s (inl e) a =
    let a' : spans p addr ≡ true = rw e at a in rw (a', e)
Stands-first_around addr o (p ∷ os) s (inr h) a =
    let off : spans p addr ≡ false =
      (let top = Stands-behind (end_of p) o os s.1 h in ground arith) in
    rw (off, Stands-first_around addr o os s.2 h a)

-- The object that was found last is one of the loader's.
abbrev pub IsRemembered : Option Backend → List Backend → Type 0
IsRemembered none os = Unit
IsRemembered (some o) os = Stands o os

from_cache-decide :
    (l : Loader) (o : Backend) (r : Result Bool) (rest : Result (Option Backend) × Loader)
    → rest.0 ≡ decide o r
    → (from_cache l o r rest).0 ≡ decide o r
from_cache-decide l o (ok true) rest e = refl
from_cache-decide l o (ok false) rest e = e
from_cache-decide l o (err x) rest e = refl
from_cache-decide l o out_of_fuel rest e = refl

try_cache-answer_for :
    (check : Bool) (l : Loader) (addr : ℤ) (cached : Option Backend) (os : List Backend)
    (rest : Result (Option Backend) × Loader)
    → IsSpaced os
    → IsRemembered cached os
    → rest.0 ≡ answer_for check addr (first_around addr os)
    → (try_cache cached check l addr rest).0 ≡ answer_for check addr (first_around addr os)
try_cache-answer_for check l addr none os rest s m e = e
try_cache-answer_for check l addr (some o) os rest s m e = elim (Bool-cases (spans o addr)) [
  | inl around ↦
      let here = Stands-first_around addr o os s m around in
      let e' : rest.0 ≡ decide o (accepts check addr o) = rw here at e in
      rw (around, here) (from_cache-decide l o (accepts check addr o) rest e')
  | inr off ↦ rw off e
]

-- The same by the test that the code makes.
pub find_object_containing-answer_for :
    (l : Loader) (addr : ℤ) (check : Bool) {o : Backend} {os : List Backend}
    → l.all_objects ≡ o ∷ os
    → IsSpaced l.all_objects
    → IsRemembered l.last_object l.all_objects
    → (find_object_containing l addr check).0
      ≡ answer_for check addr (first_around addr l.all_objects)
unfolding find_object_containing
find_object_containing-answer_for l addr check {o} {os} e s m =
    let found : (search_in l.all_objects check l addr).0
        ≡ answer_for check addr (first_around addr l.all_objects) =
      subst (λ xs. (search_in xs check l addr).0 ≡ answer_for check addr (first_around addr xs))
        (sym e) (search_in-first_around check l addr o os (subst IsSpaced e s)) in
    try_cache-answer_for check l addr l.last_object l.all_objects
      (search_in l.all_objects check l addr) s m found

-- The attributes of the memory of an object tell the truth, where it has one.
abbrev pub IsTruthful : Backend → Type 0
IsTruthful o =
    o.has_memory ≡ true → IsKept o.memory.info o.memory.backers_list × IsSound o.memory.backers_list

abbrev pub AreTruthful : List Backend → Type 0
AreTruthful [] = Unit
AreTruthful (o ∷ os) = IsTruthful o × AreTruthful os

-- The object around the address, unless the check is asked for and its memory has no byte there; an
-- object without memory is not checked.
abbrev pub checked_byte : Bool → ℤ → Backend → Bool
checked_byte check addr o =
    not check
    || not o.has_memory
    || has_byte (byte_at (addr -ℤ o.mapped_base) (segments o.memory.backers_list))

abbrev pub expected : Bool → ℤ → Option Backend → Option Backend
expected check addr none = none
expected check addr (some o) = if checked_byte check addr o then some o else none

accepts-checked_byte :
    (check : Bool) (addr : ℤ) (o : Backend)
    → IsTruthful o
    → accepts check addr o ≡ ok (checked_byte check addr o)
unfolding accepts has_byte_at
accepts-checked_byte false addr o h = refl
accepts-checked_byte true addr o h = elim (Bool-cases o.has_memory) [
  | inl has ↦
      let (kept, sound) = h has in
      rw has (contains-byte_at o.memory (addr -ℤ o.mapped_base) kept sound)
  | inr without ↦ rw without
]

some-inj : {a b : Backend} → some a ≡ some b → a ≡ b
some-inj e = cc

AreTruthful-first_around :
    (addr : ℤ) (os : List Backend) (o : Backend)
    → AreTruthful os
    → first_around addr os ≡ some o
    → IsTruthful o
unfolding first_around
AreTruthful-first_around addr [] o h e = absurd (cc)
AreTruthful-first_around addr (p ∷ os) o (h, hs) e = elim (Bool-cases (spans p addr)) [
  | inl around ↦
      let same : some p ≡ some o = rw around at e in
      let same' : p ≡ o = some-inj same in subst IsTruthful same' h
  | inr off ↦
      let later : first_around addr os ≡ some o = rw off at e in
      AreTruthful-first_around addr os o hs later
]

answer_for-expected :
    (check : Bool) (addr : ℤ) (r : Option Backend)
    → ((o : Backend) → r ≡ some o → IsTruthful o)
    → answer_for check addr r ≡ ok (expected check addr r)
answer_for-expected check addr none h = refl
answer_for-expected check addr (some o) h =
    ap (decide o) (accepts-checked_byte check addr o (h o refl))
    ∙ decided o (checked_byte check addr o)
  where
    decided : (p : Backend) (b : Bool) → decide p (ok b) ≡ ok (if b then some p else none)
    decided p true = refl
    decided p false = refl

-- Where the objects do not overlap and there is one, the object found last, if any, is one of them,
-- and of each object that has a memory the recorded bounds, also those of the memories inside, enclose
-- what is in them, `consecutive` is set only if there is a byte at each address between the bounds,
-- and each buffer is a `bytearray` or a list, `find_object_containing` gives the object around the
-- address, whatever the cache holds. With the membership check it gives none where that object has a
-- memory and there is no byte at the address.
pub find_object_containing-first_around :
    (l : Loader) (addr : ℤ) (check : Bool) {o : Backend} {os : List Backend}
    → l.all_objects ≡ o ∷ os
    → IsSpaced l.all_objects
    → IsRemembered l.last_object l.all_objects
    → AreTruthful l.all_objects
    → (find_object_containing l addr check).0
      ≡ ok (expected check addr (first_around addr l.all_objects))
find_object_containing-first_around l addr check e s m truthful =
    find_object_containing-answer_for l addr check e s m
    ∙ answer_for-expected check addr (first_around addr l.all_objects)
        (λ o found. AreTruthful-first_around addr l.all_objects o truthful found)
