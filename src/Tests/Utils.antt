-- ===== src/Tests/Utils.antt =====
-- The helpers of cle/utils.py at concrete inputs.
use cle.Base.{
  ℕ, ◌+◌, ◌%◌, ◌^◌, ◌≤◌, ◌<◌, ◌≡◌, refl, arith, none, some, List, [], ◌∷◌, length, get_elem?,
  get_or, Bool, ok,
}
use cle.Base.Int.{ℤ, pos, leb_ℤ}
use cle.Utils.Align.{get_mmaped_data, get_mmaped_data_pages}
use cle.Utils.Bisect.{key_bisect_floor_key}
use cle.Utils.Bisect.Insert.{IsSorted, last_le, floor_key-last_le}

abbrev stream : List ℕ
stream = 10 ∷ 11 ∷ 12 ∷ 13 ∷ 14 ∷ 15 ∷ []

get_mmaped_data_pages_example :
    (data' : List ℕ) × (get_mmaped_data stream 4 3 (2 ^ 2) ≡ ok data')
    × (3 ≤ length data')
    × (length data' < 3 + 2 ^ 2)
    × (length data' % 2 ^ 2 ≡ 0)
    × ((i : ℕ) → i < length data' → get_elem? data' i ≡ some (get_or stream (4 + i) 0))
get_mmaped_data_pages_example = get_mmaped_data_pages stream 4 3 2 refl

abbrev keys : List ℤ
keys = pos 2 ∷ pos 5 ∷ pos 5 ∷ pos 9 ∷ []

abbrev same : ℤ → ℤ
same k = k

abbrev at_most_five : ℤ → Bool
at_most_five k = leb_ℤ k (pos 5)

keys-IsSorted : IsSorted same keys
keys-IsSorted = (
  (omega arith, (omega arith, (omega arith, tt))),
  ((omega arith, (omega arith, tt)), ((omega arith, tt), (tt, tt))),
)

floor_key-last_le_example :
    key_bisect_floor_key same keys (pos 7) (pos 0) none ≡ ok (last_le same (pos 7) keys)
floor_key-last_le_example = floor_key-last_le same keys (pos 7) keys-IsSorted
