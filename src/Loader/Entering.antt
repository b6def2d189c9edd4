-- ===== src/Loader/Entering.antt =====
-- Entering an object into the sorted list of objects.
use mathlib.Core.List.{Perm}
use mathlib.Core.List.Perm
use cle.Base.{
  ◌≡◌, refl, ap, true, false, none, List, [], ◌∷◌, arith, if◌then◌else◌, ok, inl, inr, Bool-cases,
}
use cle.Base.Int.{ℤ, pos, ◌+ℤ◌, ◌-ℤ◌, ◌≤ℤ◌, ◌<ℤ◌, leb_ℤ, int_laws}
use cle.Utils.Bisect.{insert_at, key_bisect_insort_right}
use cle.Utils.Bisect.Search.{prefix_len, bisect-prefix_len}
use cle.Utils.Bisect.Insert.{IsSorted-Splits_le}
use cle.Backend.{Backend, min_addr}
use cle.Loader.{end_of, clashes, clashes_any}
use cle.Loader.Space.{AllBehind, AllBehind-weaken, IsSpaced, IsSpaced-IsSorted}

abbrev pub place : Backend → List Backend → List Backend
place a [] = a ∷ []
place a (x ∷ xs) = if leb_ℤ (min_addr x) (min_addr a) then x ∷ place a xs else a ∷ x ∷ xs

-- Nothing is lost: the list has the old objects and the new one.
pub place-Perm : (a : Backend) (xs : List Backend) → Perm (place a xs) (a ∷ xs)
place-Perm a [] = Perm.refl (a ∷ [])
place-Perm a (x ∷ xs) = elim (Bool-cases (leb_ℤ (min_addr x) (min_addr a))) [
  | inl before ↦ rw before (Perm.trans (Perm.cons x (place-Perm a xs)) (Perm.swap a x xs))
  | inr after ↦ rw after (Perm.refl (a ∷ x ∷ xs))
]

insert_at-place :
    (a : Backend) (xs : List Backend)
    → insert_at xs (prefix_len (λ x. leb_ℤ (min_addr x) (min_addr a)) xs) a ≡ place a xs
insert_at-place a [] = refl
insert_at-place a (x ∷ xs) = elim (Bool-cases (leb_ℤ (min_addr x) (min_addr a))) [
  | inl before ↦ rw before (ap (λ ys. x ∷ ys) (insert_at-place a xs))
  | inr after ↦ rw after
]

-- On objects that do not overlap, entering one puts it behind those that start no higher.
pub insort-place :
    (a : Backend) (os : List Backend)
    → IsSpaced os
    → key_bisect_insort_right min_addr os a (pos 0) none ≡ ok (place a os)
unfolding key_bisect_insort_right
insort-place a os s = rw (
  bisect-prefix_len _ os (IsSorted-Splits_le min_addr (min_addr a) os (IsSpaced-IsSorted os s)),
  insert_at-place a os,
)

AllBehind-place :
    (k : ℤ) (a : Backend) (os : List Backend)
    → k <ℤ min_addr a
    → AllBehind k os
    → AllBehind k (place a os)
AllBehind-place k a [] h b = (h, tt)
AllBehind-place k a (o ∷ os) h b = elim (Bool-cases (leb_ℤ (min_addr o) (min_addr a))) [
  | inl before ↦ rw before (b.0, AllBehind-place k a os h b.1)
  | inr after ↦ rw after (h, b)
]

-- The size of the range of an object.
abbrev pub extent_of : Backend → ℤ
extent_of a = end_of a -ℤ min_addr a +ℤ pos 1

apart :
    (a x : Backend)
    → min_addr x ≤ℤ end_of x
    → clashes (min_addr a) (extent_of a) x ≡ false
    → (leb_ℤ (min_addr x) (min_addr a) ≡ true → end_of x <ℤ min_addr a)
      × (leb_ℤ (min_addr x) (min_addr a) ≡ false → end_of a <ℤ min_addr x)
unfolding clashes
apart a x fits free = (λ h. grind int_laws, λ h. grind int_laws)

pub place-IsSpaced :
    (a : Backend) (os : List Backend)
    → min_addr a ≤ℤ end_of a
    → IsSpaced os
    → clashes_any (min_addr a) (extent_of a) os ≡ false
    → IsSpaced (place a os)
unfolding clashes_any
place-IsSpaced a [] fits s free = (fits, tt, tt)
place-IsSpaced a (x ∷ xs) fits s free =
    let here : clashes (min_addr a) (extent_of a) x ≡ false = ground arith in
    let there : clashes_any (min_addr a) (extent_of a) xs ≡ false = ground arith in
    let (ahead, behind) = apart a x s.0 here in
    elim (Bool-cases (leb_ℤ (min_addr x) (min_addr a))) [
      | inl before ↦ rw before (
        s.0,
        AllBehind-place (end_of x) a xs (ahead before) s.1,
        place-IsSpaced a xs fits s.2 there,
      )
      | inr after ↦ rw after (
        fits,
        (
          behind after,
          AllBehind-weaken (end_of a) (end_of x) xs (omega (arith, behind after, s.0)) s.1,
        ),
        s,
      )
    ]
