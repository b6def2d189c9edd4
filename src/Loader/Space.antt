-- ===== src/Loader/Space.antt =====
-- Where the loader places objects: the safe address is free, and a placed object overlaps no other.
use cle.Base.{
  ℕ, ◌^◌, ◌≡◌, refl, sym, subst, true, false, List, [], ◌∷◌, arith, ok, inl, inr, Bool-cases,
}
use cle.Base.Int.{ℤ, pos, ◌+ℤ◌, ◌≤ℤ◌, ◌<ℤ◌, leb_ℤ, ltb_ℤ, to_ℕ, int_laws}
use cle.Utils.Align.{align_up_bounds}
use cle.Utils.Bisect.Insert.{IsSorted, AllAbove}
use cle.Backend.{Backend, min_addr}
use cle.Loader.{
  Loader, end_of, align_from, first_gap, gap_among, find_safe_rebase_addr, clashes, clashes_any,
  is_range_free,
}

abbrev pub AllBehind : ℤ → List Backend → Type 0
AllBehind k [] = Unit
AllBehind k (o ∷ os) = (k <ℤ min_addr o) × AllBehind k os

-- Objects by increasing address, none of which overlaps another or is empty.
abbrev pub IsSpaced : List Backend → Type 0
IsSpaced [] = Unit
IsSpaced (o ∷ os) = (min_addr o ≤ℤ end_of o) × AllBehind (end_of o) os × IsSpaced os

align_from_above : (a : ℤ) (k : ℕ) → a ≤ℤ align_from a (2 ^ k)
align_from_above a k = let (h, _, _) = align_up_bounds (to_ℕ a) k in ground arith

-- An object that lies behind a range does not clash with it.
clashes_behind :
    (va size : ℤ) (o : Backend)
    → pos 0 <ℤ size
    → va +ℤ size ≤ℤ min_addr o
    → clashes va size o ≡ false
unfolding clashes
clashes_behind va size o positive h = grind int_laws

clashes_ahead :
    (va size : ℤ) (o : Backend)
    → min_addr o ≤ℤ end_of o
    → end_of o <ℤ va
    → clashes va size o ≡ false
unfolding clashes
clashes_ahead va size o fits h = grind int_laws

none_behind :
    (va size k : ℤ) (os : List Backend)
    → pos 0 <ℤ size
    → va +ℤ size ≤ℤ k
    → AllBehind k os
    → clashes_any va size os ≡ false
unfolding clashes_any
none_behind va size k [] positive h b = refl
none_behind va size k (o ∷ os) positive h b =
    rw (clashes_behind va size o positive (omega arith)) (none_behind va size k os positive h b.1)

gap_among_fits :
    (g : ℕ) (size gap_start : ℤ) (o : Backend) (os : List Backend)
    → leb_ℤ (gap_start +ℤ size) (min_addr o) ≡ true
    → gap_among g size gap_start (o ∷ os) ≡ gap_start
unfolding gap_among
gap_among_fits g size gap_start o os e = rw e

gap_among_full :
    (g : ℕ) (size gap_start : ℤ) (o : Backend) (os : List Backend)
    → leb_ℤ (gap_start +ℤ size) (min_addr o) ≡ false
    → gap_among g size gap_start (o ∷ os) ≡ gap_among g size (align_from (end_of o +ℤ pos 1) g) os
unfolding gap_among
gap_among_full g size gap_start o os e = rw e

-- The gap that the loop ends with lies behind every object that it has passed.
gap_among_above :
    (k : ℕ) (size e gap_start : ℤ) (os : List Backend)
    → e <ℤ gap_start
    → AllBehind e os
    → IsSpaced os
    → e <ℤ gap_among (2 ^ k) size gap_start os
unfolding gap_among
gap_among_above k size e gap_start [] h b s = h
gap_among_above k size e gap_start (o ∷ os) h b s =
    let next = align_from (end_of o +ℤ pos 1) (2 ^ k) in
    let above : end_of o +ℤ pos 1 ≤ℤ next = align_from_above (end_of o +ℤ pos 1) k in
    elim (Bool-cases (leb_ℤ (gap_start +ℤ size) (min_addr o))) [
      | inl fits ↦ rw (gap_among_fits (2 ^ k) size gap_start o os fits) h
      | inr full ↦
          rw (gap_among_full (2 ^ k) size gap_start o os full)
            (gap_among_above k size e next os (omega (int_laws, s.0, b.0, above)) b.1 s.2)
    ]

gap_among-clashes_any :
    (k : ℕ) (size gap_start : ℤ) (os : List Backend)
    → pos 0 <ℤ size
    → IsSpaced os
    → clashes_any (gap_among (2 ^ k) size gap_start os) size os ≡ false
unfolding clashes_any
gap_among-clashes_any k size gap_start [] positive s = refl
gap_among-clashes_any k size gap_start (o ∷ os) positive s =
    let next = align_from (end_of o +ℤ pos 1) (2 ^ k) in
    let above : end_of o +ℤ pos 1 ≤ℤ next = align_from_above (end_of o +ℤ pos 1) k in
    let ahead = gap_among_above k size (end_of o) next os (omega (int_laws, above)) s.1 s.2 in
    elim (Bool-cases (leb_ℤ (gap_start +ℤ size) (min_addr o))) [
      | inl fits ↦
          subst (λ v. clashes_any v size (o ∷ os) ≡ false)
            (sym (gap_among_fits (2 ^ k) size gap_start o os fits))
            (rw (clashes_behind gap_start size o positive (ground arith))
              (none_behind gap_start size (end_of o) os positive (ground arith) s.1))
      | inr full ↦
          subst (λ v. clashes_any v size (o ∷ os) ≡ false)
            (sym (gap_among_full (2 ^ k) size gap_start o os full))
            (rw (clashes_ahead (gap_among (2 ^ k) size next os) size o s.0 ahead)
              (gap_among-clashes_any k size next os positive s.2))
    ]

-- The gap is not negative.
gap_among_positive :
    (g : ℕ) (size gap_start : ℤ) (os : List Backend)
    → pos 0 ≤ℤ gap_start
    → pos 0 ≤ℤ gap_among g size gap_start os
unfolding gap_among
gap_among_positive g size gap_start [] h = h
gap_among_positive g size gap_start (o ∷ os) h =
    elim (Bool-cases (leb_ℤ (gap_start +ℤ size) (min_addr o))) [
      | inl fits ↦ rw fits h
      | inr full ↦
          rw full (gap_among_positive g size (align_from (end_of o +ℤ pos 1) g) os (omega arith))
    ]

first_gap_positive : (l : Loader) → pos 0 ≤ℤ first_gap l
unfolding first_gap
first_gap_positive l = ground arith

-- Where the mapped objects do not overlap and the granularity is a power of two, the address that
-- `_find_safe_rebase_addr` finds behind or between them leaves the whole range free, as long as it
-- does not have to look for holes in the main object.
pub find_safe_rebase_addr-is_range_free :
    (l : Loader) (size : ℤ) (k : ℕ)
    → l.rebase_granularity ≡ 2 ^ k
    → pos 0 <ℤ size
    → IsSpaced l.all_objects
    → gap_among l.rebase_granularity size (first_gap l) l.all_objects +ℤ size ≤ℤ pos (2 ^ l.bits)
    → (va : ℤ) × (find_safe_rebase_addr l size ≡ ok va) × (is_range_free l va size ≡ true)
unfolding find_safe_rebase_addr is_range_free
find_safe_rebase_addr-is_range_free l size k g positive s room =
    let va = gap_among l.rebase_granularity size (first_gap l) l.all_objects in
    let free : clashes_any va size l.all_objects ≡ false =
      subst
        (λ n. clashes_any (gap_among n size (first_gap l) l.all_objects) size l.all_objects ≡ false)
        (sym g) (gap_among-clashes_any k size (first_gap l) l.all_objects positive s) in
    let low : pos 0 ≤ℤ va =
      gap_among_positive l.rebase_granularity size (first_gap l) l.all_objects
        (first_gap_positive l) in
    let within : ltb_ℤ (pos (2 ^ l.bits)) (va +ℤ size) ≡ false = ground arith in
    let above : ltb_ℤ va (pos 0) ≡ false = ground arith in (va, rw within, rw (above, within, free))

AllBehind-AllAbove :
    (j k : ℤ) (os : List Backend) → j ≤ℤ k → AllBehind k os → AllAbove min_addr j os
AllBehind-AllAbove j k [] h b = tt
AllBehind-AllAbove j k (o ∷ os) h b = (omega arith, AllBehind-AllAbove j k os h b.1)

pub IsSpaced-IsSorted : (os : List Backend) → IsSpaced os → IsSorted min_addr os
IsSpaced-IsSorted [] s = tt
IsSpaced-IsSorted (o ∷ os) s =
    (AllBehind-AllAbove (min_addr o) (end_of o) os s.0 s.1, IsSpaced-IsSorted os s.2)

pub AllBehind-weaken : (j k : ℤ) (os : List Backend) → j ≤ℤ k → AllBehind k os → AllBehind j os
AllBehind-weaken j k [] h b = tt
AllBehind-weaken j k (o ∷ os) h b = (omega arith, AllBehind-weaken j k os h b.1)
