-- ===== src/Regions/Membership.antt =====
-- The searches by address, stated of the regions that were given to the collection.
use cle.Base.{
  ◌≡◌, refl, true, some, List, [], ◌∷◌, arith, ok, inl, inr, ◌⊎◌, Bool-cases, sym, ◌∙◌, ap,
}
use cle.Base.Int.{ℤ, ◌<ℤ◌, ltb_ℤ}
use cle.Region.{Region, contains_addr}
use cle.Regions.{
  Regions, region_end, is_region_mapped, mapped_only, place, sort_by_vaddr, make_sorted, new,
  find_region_containing, append,
}
use cle.Regions.Lookup.{AllFrom, IsOrdered, scan, find_region_containing-scan}
use cle.Regions.Updates.{AllApart, Listed, make_sorted-IsOrdered, ApartFrom, append-IsOrdered}

shift :
    (s r x : Region) (xs ys : List Region)
    → ((s ≡ r) ⊎ Listed s xs → Listed s ys)
    → (s ≡ r) ⊎ Listed s (x ∷ xs)
    → (s ≡ x) ⊎ Listed s ys
shift s r x xs ys f (inl e) = inr (f (inl e))
shift s r x xs ys f (inr (inl e)) = inl e
shift s r x xs ys f (inr (inr h)) = inr (f (inr h))

unshift :
    (s r x : Region) (xs ys : List Region)
    → (Listed s ys → (s ≡ r) ⊎ Listed s xs)
    → (s ≡ x) ⊎ Listed s ys
    → (s ≡ r) ⊎ Listed s (x ∷ xs)
unshift s r x xs ys f (inl e) = inr (inl e)
unshift s r x xs ys f (inr h) = elim (f h) [ inl e ↦ inl e | inr k ↦ inr (inr k) ]

Listed-place : (s r : Region) (xs : List Region) → (s ≡ r) ⊎ Listed s xs → Listed s (place r xs)
Listed-place s r [] h = h
Listed-place s r (x ∷ xs) h = elim (Bool-cases (ltb_ℤ x.vaddr r.vaddr)) [
  | inl before ↦ rw before (shift s r x xs (place r xs) (Listed-place s r xs) h)
  | inr after ↦ rw after h
]

place-Listed : (s r : Region) (xs : List Region) → Listed s (place r xs) → (s ≡ r) ⊎ Listed s xs
place-Listed s r [] h = h
place-Listed s r (x ∷ xs) h = elim (Bool-cases (ltb_ℤ x.vaddr r.vaddr)) [
  | inl before ↦ unshift s r x xs (place r xs) (place-Listed s r xs) (rw before at h)
  | inr after ↦ rw after at h
]

-- The sorted list holds exactly the mapped regions of the list.
Listed-make_sorted :
    (s : Region) (lst : List Region)
    → Listed s lst
    → is_region_mapped s ≡ true
    → Listed s (make_sorted lst)
unfolding make_sorted
Listed-make_sorted s [] h m = h
Listed-make_sorted s (x ∷ xs) (inl e) m =
    let m' : is_region_mapped x ≡ true = rw e at m in
    rw m' (Listed-place s x (sort_by_vaddr (mapped_only xs)) (inl e))
Listed-make_sorted s (x ∷ xs) (inr h) m = elim (Bool-cases (is_region_mapped x)) [
  | inl mapped ↦
      rw mapped
        (Listed-place s x (sort_by_vaddr (mapped_only xs)) (inr (Listed-make_sorted s xs h m)))
  | inr hidden ↦ rw hidden (Listed-make_sorted s xs h m)
]

make_sorted-Listed :
    (s : Region) (lst : List Region)
    → Listed s (make_sorted lst)
    → Listed s lst × (is_region_mapped s ≡ true)
unfolding make_sorted
make_sorted-Listed s [] h = absurd h
make_sorted-Listed s (x ∷ xs) h = elim (Bool-cases (is_region_mapped x)) [
  | inl mapped ↦ elim (place-Listed s x (sort_by_vaddr (mapped_only xs)) (rw mapped at h)) [
    | inl e ↦ (inl e, rw e mapped)
    | inr k ↦ let (l, m) = make_sorted-Listed s xs k in (inr l, m)
  ]
  | inr hidden ↦ let (l, m) = make_sorted-Listed s xs (rw hidden at h) in (inr l, m)
]

pub scan_sound :
    (addr : ℤ) (s : Region) (xs : List Region)
    → scan addr xs ≡ some s
    → Listed s xs × (contains_addr s addr ≡ true)
unfolding scan
scan_sound addr s [] e = absurd (cc)
scan_sound addr s (x ∷ xs) e = elim (Bool-cases (contains_addr x addr)) [
  | inl found ↦ ground arith
  | inr missed ↦ let (l, c) = scan_sound addr s xs (rw missed at e) in (inr l, c)
]

below_end : (r : Region) (addr : ℤ) → contains_addr r addr ≡ true → addr <ℤ region_end r
unfolding contains_addr region_end
below_end r addr h = ground arith

AllFrom-contains :
    (k addr : ℤ) (s : Region) (xs : List Region)
    → AllFrom k xs
    → Listed s xs
    → contains_addr s addr ≡ true
    → ¬ (addr <ℤ k)
unfolding contains_addr
AllFrom-contains k addr s [] a h c lt = h
AllFrom-contains k addr s (x ∷ xs) a (inl e) c lt =
    let c' : contains_addr x addr ≡ true = rw e at c in ground arith
AllFrom-contains k addr s (x ∷ xs) a (inr h) c lt = AllFrom-contains k addr s xs a.1 h c lt

pub scan_complete :
    (addr : ℤ) (s : Region) (xs : List Region)
    → IsOrdered xs
    → Listed s xs
    → contains_addr s addr ≡ true
    → scan addr xs ≡ some s
unfolding scan
scan_complete addr s [] o h c = absurd h
scan_complete addr s (x ∷ xs) o (inl e) c =
    let c' : contains_addr x addr ≡ true = rw e at c in rw (c', e)
scan_complete addr s (x ∷ xs) o (inr h) c = elim (Bool-cases (contains_addr x addr)) [
  | inl found ↦ absurd (AllFrom-contains (region_end x) addr s xs o.1 h c (below_end x addr found))
  | inr missed ↦ rw missed (scan_complete addr s xs o.2 h c)
]

-- A collection built from regions that are apart from one another finds, for an address that a
-- mapped region of the list contains, that region.
pub new-find_region_containing :
    (lst : List Region) (addr : ℤ) (r : Region)
    → AllApart lst
    → Listed r lst
    → is_region_mapped r ≡ true
    → contains_addr r addr ≡ true
    → find_region_containing (new (some lst)) addr ≡ ok (some r)
unfolding new
new-find_region_containing lst addr r a h m c = rw (
  find_region_containing-scan (new (some lst)) addr (make_sorted-IsOrdered lst a),
  scan_complete addr r (make_sorted lst) (make_sorted-IsOrdered lst a)
      (Listed-make_sorted r lst h m) c,
)

-- It finds nothing else: what a search returns is a mapped region of the list that contains the
-- address.
pub find_region_containing-Listed :
    (lst : List Region) (addr : ℤ) (r : Region)
    → AllApart lst
    → find_region_containing (new (some lst)) addr ≡ ok (some r)
    → Listed r lst × (is_region_mapped r ≡ true) × (contains_addr r addr ≡ true)
unfolding new
find_region_containing-Listed lst addr r a e =
    let e' : ok (scan addr (make_sorted lst)) ≡ ok (some r) =
      sym (find_region_containing-scan (new (some lst)) addr (make_sorted-IsOrdered lst a)) ∙ e in
    let (l, c) = scan_sound addr r (make_sorted lst) (cc) in
    let (l', m) = make_sorted-Listed r lst l in (l', m, c)

-- After an append of a mapped region that is apart from the mapped ones, the new region is found at
-- each of its addresses.
pub append-find_region_containing :
    (rs : Regions) (r : Region) (addr : ℤ) {rs' : Regions}
    → IsOrdered rs.sorted_list
    → is_region_mapped r ≡ true
    → ApartFrom r rs.sorted_list
    → append rs r ≡ ok rs'
    → contains_addr r addr ≡ true
    → find_region_containing rs' addr ≡ ok (some r)
append-find_region_containing rs r addr {rs'} h m a e c =
    let (t, p, _, q, o) = append-IsOrdered rs r h m a in
    let eq : rs' ≡ t = cc in
    rw eq (
      rw (find_region_containing-scan t addr o, q)
        (ap ok (
          scan_complete addr r (place r rs.sorted_list) (rw q at o)
            (Listed-place r r rs.sorted_list (inl refl)) c)))
