-- ===== src/Utils/Bisect/Insert.antt =====
-- `key_bisect_insort_left` and `key_bisect_insort_right` keep a list sorted by its keys, and
-- `key_bisect_floor_key` finds the last element whose key is not above the one asked for.
use mathlib.Core.List.{Perm}
use mathlib.Core.List.Perm
use cle.Base.{
  ℕ, zero, suc, ◌≤◌, ◌≡◌, refl, Option, none, some, List, [], ◌∷◌, arith, length, if◌then◌else◌,
  Result, ok, inl, inr, ltb, leb, ◌&&◌, Bool-cases, get_elem?-some,
}
use cle.Base.Int.{ℤ, pos, ◌≤ℤ◌, ◌<ℤ◌, ltb_ℤ, leb_ℤ}
use cle.Utils.Bisect.{
  insert_at, key_bisect_insort_left, key_bisect_insort_right, key_bisect_floor_key, before,
}
use cle.Utils.Bisect.Search.{prefix_len, AllHigh, Splits, bisect-prefix_len, prefix_len-le-length}

module _ {ℓ} {A : Type ℓ} where
  -- The second value, unless there is a first.
  abbrev pub later : Option A → Option A → Option A
  later none o = o
  later (some a) o = some a

  insert_at-perm : (xs : List A) (i : ℕ) (a : A) → Perm (insert_at xs i a) (a ∷ xs)
  insert_at-perm xs zero a = Perm.refl (a ∷ xs)
  insert_at-perm [] (suc i) a = Perm.refl (a ∷ [])
  insert_at-perm (x ∷ xs) (suc i) a =
      Perm.trans (Perm.cons x (insert_at-perm xs i a)) (Perm.swap a x xs)

module _ {ℓ} {A : Type ℓ} (keyfunc : A → ℤ) where
  abbrev pub AllAbove : ℤ → List A → Type 0
  AllAbove k [] = Unit
  AllAbove k (x ∷ xs) = (k ≤ℤ keyfunc x) × AllAbove k xs

  abbrev pub IsSorted : List A → Type 0
  IsSorted [] = Unit
  IsSorted (x ∷ xs) = AllAbove (keyfunc x) xs × IsSorted xs

  AllAbove-trans : (j k : ℤ) (xs : List A) → j ≤ℤ k → AllAbove k xs → AllAbove j xs
  AllAbove-trans j k [] h a = tt
  AllAbove-trans j k (x ∷ xs) h a = (omega arith, AllAbove-trans j k xs h a.1)

  AllAbove-insert_at :
      (k : ℤ) (xs : List A) (i : ℕ) (a : A)
      → k ≤ℤ keyfunc a
      → AllAbove k xs
      → AllAbove k (insert_at xs i a)
  AllAbove-insert_at k xs zero a h all = (h, all)
  AllAbove-insert_at k [] (suc i) a h all = (h, tt)
  AllAbove-insert_at k (x ∷ xs) (suc i) a h all = (all.0, AllAbove-insert_at k xs i a h all.1)

  AllHigh-le : (k : ℤ) (xs : List A) → AllAbove k xs → AllHigh (λ x. ltb_ℤ (keyfunc x) k) xs
  AllHigh-le k [] h = tt
  AllHigh-le k (x ∷ xs) h = (ground arith, AllHigh-le k xs h.1)

  AllHigh-lt :
      (j k : ℤ) (xs : List A) → k <ℤ j → AllAbove j xs → AllHigh (λ x. leb_ℤ (keyfunc x) k) xs
  AllHigh-lt j k [] p h = tt
  AllHigh-lt j k (x ∷ xs) p h = (ground arith, AllHigh-lt j k xs p h.1)

  pub IsSorted-Splits_lt :
      (k : ℤ) (xs : List A) → IsSorted xs → Splits (λ x. ltb_ℤ (keyfunc x) k) xs
  IsSorted-Splits_lt k [] s = tt
  IsSorted-Splits_lt k (x ∷ xs) s = (
    λ h. AllHigh-le k xs (AllAbove-trans k (keyfunc x) xs (ground arith) s.0),
    IsSorted-Splits_lt k xs s.1,
  )

  pub IsSorted-Splits_le :
      (k : ℤ) (xs : List A) → IsSorted xs → Splits (λ x. leb_ℤ (keyfunc x) k) xs
  IsSorted-Splits_le k [] s = tt
  IsSorted-Splits_le k (x ∷ xs) s =
      (λ h. AllHigh-lt (keyfunc x) k xs (ground arith) s.0, IsSorted-Splits_le k xs s.1)

  insert_left-IsSorted :
      (a : A) (xs : List A)
      → IsSorted xs
      → IsSorted (insert_at xs (prefix_len (λ x. ltb_ℤ (keyfunc x) (keyfunc a)) xs) a)
  insert_left-IsSorted a [] s = (tt, tt)
  insert_left-IsSorted a (x ∷ xs) s = elim (Bool-cases (ltb_ℤ (keyfunc x) (keyfunc a))) [
    | inl low ↦ rw low (
      AllAbove-insert_at (keyfunc x) xs (prefix_len (λ x. ltb_ℤ (keyfunc x) (keyfunc a)) xs) a
          (ground arith) s.0,
      insert_left-IsSorted a xs s.1,
    )
    | inr high ↦
        rw high ((ground arith, AllAbove-trans (keyfunc a) (keyfunc x) xs (ground arith) s.0), s)
  ]

  insert_right-IsSorted :
      (a : A) (xs : List A)
      → IsSorted xs
      → IsSorted (insert_at xs (prefix_len (λ x. leb_ℤ (keyfunc x) (keyfunc a)) xs) a)
  insert_right-IsSorted a [] s = (tt, tt)
  insert_right-IsSorted a (x ∷ xs) s = elim (Bool-cases (leb_ℤ (keyfunc x) (keyfunc a))) [
    | inl low ↦ rw low (
      AllAbove-insert_at (keyfunc x) xs (prefix_len (λ x. leb_ℤ (keyfunc x) (keyfunc a)) xs) a
          (ground arith) s.0,
      insert_right-IsSorted a xs s.1,
    )
    | inr high ↦
        rw high ((ground arith, AllAbove-trans (keyfunc a) (keyfunc x) xs (ground arith) s.0), s)
  ]

  -- On a sorted list, with the default bounds, `key_bisect_insort_left` succeeds, and its result is
  -- sorted and holds the old elements and the new one.
  pub insort_left-IsSorted :
      (xs : List A) (a : A)
      → IsSorted xs
      → (ys : List A) × (key_bisect_insort_left keyfunc xs a (pos 0) none ≡ ok ys)
        × IsSorted ys
        × Perm ys (a ∷ xs)
  unfolding key_bisect_insort_left
  insort_left-IsSorted xs a s = (
    insert_at xs (prefix_len (λ x. ltb_ℤ (keyfunc x) (keyfunc a)) xs) a,
    rw (bisect-prefix_len _ xs (IsSorted-Splits_lt (keyfunc a) xs s)),
    insert_left-IsSorted a xs s,
    insert_at-perm xs _ a,
  )

  -- On a sorted list, with the default bounds, `key_bisect_insort_right` succeeds, and its result is
  -- sorted and holds the old elements and the new one.
  pub insort_right-IsSorted :
      (xs : List A) (a : A)
      → IsSorted xs
      → (ys : List A) × (key_bisect_insort_right keyfunc xs a (pos 0) none ≡ ok ys)
        × IsSorted ys
        × Perm ys (a ∷ xs)
  unfolding key_bisect_insort_right
  insort_right-IsSorted xs a s = (
    insert_at xs (prefix_len (λ x. leb_ℤ (keyfunc x) (keyfunc a)) xs) a,
    rw (bisect-prefix_len _ xs (IsSorted-Splits_le (keyfunc a) xs s)),
    insert_right-IsSorted a xs s,
    insert_at-perm xs _ a,
  )

  -- The last element of a list whose key is not above `key`, by a scan of all of it.
  unfoldable pub last_le : ℤ → List A → Option A
  last_le key [] = none
  last_le key (x ∷ xs) = later (last_le key xs) (if leb_ℤ (keyfunc x) key then some x else none)

  last_le-AllHigh :
      (key : ℤ) (xs : List A) → AllHigh (λ x. leb_ℤ (keyfunc x) key) xs → last_le key xs ≡ none
  unfolding last_le
  last_le-AllHigh key [] h = refl
  last_le-AllHigh key (x ∷ xs) h = rw (last_le-AllHigh key xs h.1) (rw h.0)

  floor_at : ℤ → List A → ℕ → Result (Option A)
  floor_at key xs i = if leb i (length xs) && ltb 0 i then before xs i else ok none

  floor_at-cons :
      (key : ℤ) (x : A) (xs : List A) (p : ℕ) (found : Option A)
      → p ≤ length xs
      → floor_at key xs p ≡ ok found
      → floor_at key (x ∷ xs) (suc p) ≡ ok (later found (some x))
  unfolding floor_at before
  floor_at-cons key x xs zero found h e = ground arith
  floor_at-cons key x xs (suc q) found h e = let (a, eq) = get_elem?-some xs q h in ground arith

  floor_at-last_le :
      (key : ℤ) (xs : List A)
      → IsSorted xs
      → floor_at key xs (prefix_len (λ x. leb_ℤ (keyfunc x) key) xs) ≡ ok (last_le key xs)
  unfolding floor_at last_le before
  floor_at-last_le key [] s = refl
  floor_at-last_le key (x ∷ xs) s = elim (Bool-cases (leb_ℤ (keyfunc x) key)) [
    | inl low ↦
        rw (low, later)
          (floor_at-cons key x xs _ _ (prefix_len-le-length _ xs) (floor_at-last_le key xs s.1))
    | inr high ↦
        rw (high, last_le-AllHigh key xs (AllHigh-lt (keyfunc x) key xs (ground arith) s.0))
          (ground arith)
  ]

  -- The floor search finds what a scan of the whole sorted list finds.
  pub floor_key-last_le :
      (xs : List A) (key : ℤ)
      → IsSorted xs
      → key_bisect_floor_key keyfunc xs key (pos 0) none ≡ ok (last_le key xs)
  unfolding key_bisect_floor_key floor_at
  floor_key-last_le xs key s =
      rw (bisect-prefix_len _ xs (IsSorted-Splits_le key xs s)) (floor_at-last_le key xs s)
