-- ===== src/Utils/Bisect.antt =====
-- The four binary searches of cle/utils.py. `keyfunc(lst[mid]) <= key` and its strict form are one
-- Boolean test of an element; each loop runs on fuel, of which `hi - lo` is enough.
pub mod Search
pub mod Insert
use cle.Base.{
  ℕ, zero, suc, ◌+◌, ◌-◌, ◌/◌, Bool, true, false, Option, none, some, List, [], ◌∷◌, length,
  get_elem?, ltb, leb, if◌then◌else◌, ◌&&◌, Result, ok, err, out_of_fuel, ◌>>=◌, index_error,
  value_error,
}
use cle.Base.Int.{ℤ, pos, negsuc, ltb_ℤ, leb_ℤ}

module _ {ℓ} {A : Type ℓ} where
  -- `lst[i]`
  abbrev pub index : List A → ℕ → Result A
  index xs i = elim (get_elem? xs i) [ none ↦ err index_error | some a ↦ ok a ]

  -- `lst.insert(i, item)`
  abbrev pub insert_at : List A → ℕ → A → List A
  insert_at xs zero a = a ∷ xs
  insert_at [] (suc i) a = a ∷ []
  insert_at (x ∷ xs) (suc i) a = x ∷ insert_at xs i a

  -- `return lst[lo - 1]`, where `lo` is positive.
  unfoldable pub before : List A → ℕ → Result (Option A)
  before xs i = index xs (i - 1) >>= λ a. ok (some a)

  -- The `while lo < hi` loop: `low` tells that the element goes to the left part.
  unfoldable pub bisect_loop : ℕ → (A → Bool) → List A → ℕ → ℕ → Result ℕ
  bisect_loop zero low xs lo hi = if ltb lo hi then out_of_fuel else ok lo
  bisect_loop (suc fuel) low xs lo hi =
      let mid = (lo + hi) / 2 in
      let right = bisect_loop fuel low xs (mid + 1) hi in
      let left = bisect_loop fuel low xs lo mid in
      let step = index xs mid >>= λ a. if low a then right else left in
      if ltb lo hi then step else ok lo

  -- The checks in front of each loop: `lo < 0`, and `hi is None`.
  unfoldable pub bisect : (A → Bool) → List A → ℤ → Option ℕ → Result ℕ
  unfolding bisect_loop
  bisect low xs (negsuc n) hi = err value_error
  bisect low xs (pos lo) none = bisect_loop (length xs) low xs lo (length xs)
  bisect low xs (pos lo) (some hi) = bisect_loop hi low xs lo hi

module _ {ℓ} {A : Type ℓ} (keyfunc : A → ℤ) where
  unfoldable pub key_bisect_floor_key : List A → ℤ → ℤ → Option ℕ → Result (Option A)
  unfolding bisect before
  key_bisect_floor_key xs key lo hi = bisect (λ x. leb_ℤ (keyfunc x) key) xs lo hi >>= λ i.
      if leb i (length xs) && ltb 0 i then before xs i else ok none

  -- The source applies `keyfunc` to the item; `key` is its value.
  unfoldable pub key_bisect_find : List A → ℤ → ℤ → Option ℕ → Result ℕ
  unfolding bisect
  key_bisect_find xs key lo hi = bisect (λ x. leb_ℤ (keyfunc x) key) xs lo hi

  unfoldable pub key_bisect_insort_left : List A → A → ℤ → Option ℕ → Result (List A)
  unfolding bisect
  key_bisect_insort_left xs item lo hi =
      bisect (λ x. ltb_ℤ (keyfunc x) (keyfunc item)) xs lo hi >>= λ i. ok (insert_at xs i item)

  unfoldable pub key_bisect_insort_right : List A → A → ℤ → Option ℕ → Result (List A)
  unfolding bisect
  key_bisect_insort_right xs item lo hi =
      bisect (λ x. leb_ℤ (keyfunc x) (keyfunc item)) xs lo hi >>= λ i. ok (insert_at xs i item)
