-- ===== src/Regions/Updates.antt =====
-- Building a collection, adding a region and moving all of them keep the mapped regions in order,
-- so the searches stay right.
use cle.Base.{
  ◌<◌, ◌≡◌, refl, ap, true, none, List, [], ◌∷◌, ◌++◌, arith, ok, inl, inr, ◌⊎◌, Bool-cases,
}
use cle.Base.Int.{ℤ, pos, ◌+ℤ◌, ◌≤ℤ◌, ltb_ℤ, int_laws, pos_part, neg_part}
use cle.Region.{Region}
use cle.Regions.{
  Regions, region_end, is_region_mapped, mapped_only, place, sort_by_vaddr, make_sorted, append,
}
use cle.Regions.Lookup.{AllFrom, IsOrdered}
use cle.Utils.Bisect.{insert_at, key_bisect_insort_left}
use cle.Utils.Bisect.Search.{prefix_len, bisect-prefix_len}
use cle.Utils.Bisect.Insert.{IsSorted, AllAbove, IsSorted-Splits_lt}

-- Neither of two regions reaches into the other.
abbrev pub Apart : Region → Region → Type 0
Apart r s = (region_end r ≤ℤ s.vaddr) ⊎ (region_end s ≤ℤ r.vaddr)

abbrev pub ApartFrom : Region → List Region → Type 0
ApartFrom r [] = Unit
ApartFrom r (s ∷ rs) = Apart r s × ApartFrom r rs

abbrev pub AllApart : List Region → Type 0
AllApart [] = Unit
AllApart (r ∷ rs) = ApartFrom r rs × AllApart rs

abbrev pub Listed : Region → List Region → Type 0
Listed r [] = ⊥
Listed r (s ∷ rs) = (r ≡ s) ⊎ Listed r rs

region_end_lem : (r : Region) → region_end r ≡ r.vaddr +ℤ pos r.memsize
unfolding region_end
region_end_lem r = refl

swap-Apart : (r s : Region) → Apart r s → Apart s r
swap-Apart r s (inl h) = inr h
swap-Apart r s (inr h) = inl h

AllFrom-trans : (j k : ℤ) (rs : List Region) → j ≤ℤ k → AllFrom k rs → AllFrom j rs
AllFrom-trans j k [] h a = tt
AllFrom-trans j k (r ∷ rs) h a = (omega arith, AllFrom-trans j k rs h a.1)

AllFrom-place :
    (k : ℤ) (r : Region) (xs : List Region) → k ≤ℤ r.vaddr → AllFrom k xs → AllFrom k (place r xs)
AllFrom-place k r [] h all = (h, tt)
AllFrom-place k r (x ∷ xs) h all = ground (arith, AllFrom-place k r xs h all.1)

apart_order :
    (r x : Region) → 0 < x.memsize → Apart r x → r.vaddr ≤ℤ x.vaddr → region_end r ≤ℤ x.vaddr
apart_order r x m (inl before) h = before
apart_order r x m (inr after) h =
    omega (int_laws, ap pos_part (region_end_lem x), ap neg_part (region_end_lem x))

vaddr-le-end : (r : Region) → r.vaddr ≤ℤ region_end r
unfolding region_end
vaddr-le-end r = omega int_laws

place-IsOrdered :
    (r : Region) (xs : List Region)
    → 0 < r.memsize
    → ApartFrom r xs
    → IsOrdered xs
    → IsOrdered (place r xs)
place-IsOrdered r [] m a h = (m, tt, tt)
place-IsOrdered r (x ∷ xs) m a h = elim (Bool-cases (ltb_ℤ x.vaddr r.vaddr)) [
  | inl before ↦ rw before (
    h.0,
    AllFrom-place (region_end x) r xs (apart_order x r m (swap-Apart r x a.0) (ground arith)) h.1,
    place-IsOrdered r xs m a.1 h.2,
  )
  | inr after ↦
      let le : region_end r ≤ℤ x.vaddr = apart_order r x h.0 a.0 (ground arith) in
      rw after (
        m,
        (le, AllFrom-trans (region_end r) (region_end x) xs (omega (arith, vaddr-le-end x)) h.1),
        h,
      )
]

ApartFrom-place :
    (s r : Region) (xs : List Region) → Apart s r → ApartFrom s xs → ApartFrom s (place r xs)
ApartFrom-place s r [] a h = (a, tt)
ApartFrom-place s r (x ∷ xs) a h = elim (Bool-cases (ltb_ℤ x.vaddr r.vaddr)) [
  | inl before ↦ rw before (h.0, ApartFrom-place s r xs a h.1)
  | inr after ↦ rw after (a, h)
]

is_region_mapped-memsize : (r : Region) → is_region_mapped r ≡ true → 0 < r.memsize
unfolding is_region_mapped
is_region_mapped-memsize r h = ground arith

ApartFrom-make_sorted :
    (r : Region) (lst : List Region)
    → ApartFrom r lst
    → ApartFrom r (sort_by_vaddr (mapped_only lst))
ApartFrom-make_sorted r [] a = tt
ApartFrom-make_sorted r (x ∷ xs) a = elim (Bool-cases (is_region_mapped x)) [
  | inl mapped ↦ rw mapped (ApartFrom-place r x _ a.0 (ApartFrom-make_sorted r xs a.1))
  | inr hidden ↦ rw hidden (ApartFrom-make_sorted r xs a.1)
]

-- Sorting regions that are apart from one another puts them in order.
pub make_sorted-IsOrdered : (lst : List Region) → AllApart lst → IsOrdered (make_sorted lst)
unfolding make_sorted
make_sorted-IsOrdered [] a = tt
make_sorted-IsOrdered (x ∷ xs) a = elim (Bool-cases (is_region_mapped x)) [
  | inl mapped ↦ rw mapped (
      place-IsOrdered x _ (is_region_mapped-memsize x mapped) (ApartFrom-make_sorted x xs a.0)
        (make_sorted-IsOrdered xs a.1))
  | inr hidden ↦ rw hidden (make_sorted-IsOrdered xs a.1)
]

IsOrdered-IsSorted_vaddr : (rs : List Region) → IsOrdered rs → IsSorted (λ r. r.vaddr) rs
IsOrdered-IsSorted_vaddr [] h = tt
IsOrdered-IsSorted_vaddr (r ∷ rs) h = (
  AllFrom-AllAbove r.vaddr rs (AllFrom-trans r.vaddr (region_end r) rs (vaddr-le-end r) h.1),
  IsOrdered-IsSorted_vaddr rs h.2,
)
  where
    AllFrom-AllAbove : (k : ℤ) (rs : List Region) → AllFrom k rs → AllAbove (λ r. r.vaddr) k rs
    AllFrom-AllAbove k [] h = tt
    AllFrom-AllAbove k (r ∷ rs) h = (h.0, AllFrom-AllAbove k rs h.1)

insert_at-place :
    (r : Region) (xs : List Region)
    → insert_at xs (prefix_len (λ x. ltb_ℤ x.vaddr r.vaddr) xs) r ≡ place r xs
insert_at-place r [] = refl
insert_at-place r (x ∷ xs) = elim (Bool-cases (ltb_ℤ x.vaddr r.vaddr)) [
  | inl before ↦ rw before (ap (λ ys. x ∷ ys) (insert_at-place r xs))
  | inr after ↦ rw after
]

insort-place :
    (r : Region) (xs : List Region)
    → IsOrdered xs
    → key_bisect_insort_left (λ x. x.vaddr) xs r (pos 0) none ≡ ok (place r xs)
unfolding key_bisect_insort_left
insort-place r xs h = rw (
  bisect-prefix_len _ xs
      (IsSorted-Splits_lt (λ x. x.vaddr) r.vaddr xs (IsOrdered-IsSorted_vaddr xs h)),
  insert_at-place r xs,
)

-- Appending a mapped region that is apart from the mapped ones succeeds, adds it to both lists and
-- keeps the sorted one in order.
pub append-IsOrdered :
    (rs : Regions) (r : Region)
    → IsOrdered rs.sorted_list
    → is_region_mapped r ≡ true
    → ApartFrom r rs.sorted_list
    → (rs' : Regions) × (append rs r ≡ ok rs')
      × (rs'.list ≡ rs.list ++ r ∷ [])
      × (rs'.sorted_list ≡ place r rs.sorted_list)
      × IsOrdered rs'.sorted_list
unfolding append
append-IsOrdered rs r h m a = (
  record { list = rs.list ++ r ∷ []; sorted_list = place r rs.sorted_list },
  rw (m, insort-place r rs.sorted_list h),
  refl,
  refl,
  place-IsOrdered r rs.sorted_list (is_region_mapped-memsize r m) a h,
)
