-- ===== src/Utils/Align.antt =====
-- `ALIGN_DOWN`, `ALIGN_UP` and `get_mmaped_data` of cle/utils.py. Addresses and sizes are
-- non-negative; for a positive size, `base & -size` clears in `base` the bits of `size - 1`.
use Prim.Native.Nat.{bit_and}
use native.Mathlib.Nat.{mod-eq-sub-mul-div, mod-lt, mul-mod_right, div-mul-le_self}
use cle.Base.{
  ℕ, zero, suc, ◌+◌, ◌-◌, ◌%◌, ◌^◌, ◌≤◌, ◌<◌, ◌≡◌, ◌≢◌, refl, ap, ◌∙◌, arith, List, [], ◌∷◌, ◌++◌,
  length, take, drop, replicate, get_elem?, get_or, some, if◌then◌else◌, ◌==◌, not, Result, ok, err,
  cle_error, zero_division_error, length-append, length-take, length-replicate, ◌/◌,
}
use cle.Base.Bits.{bit_and_mask, pow-pos}

-- `base & -size`; `-0` is 0.
unfoldable pub and_neg : ℕ → ℕ → ℕ
and_neg base zero = 0
and_neg base (suc n) = base - bit_and base n

unfoldable pub align_down : ℕ → ℕ → ℕ
unfolding and_neg
align_down base size = and_neg base size

unfoldable pub align_up : ℕ → ℕ → ℕ
unfolding align_down
align_up base size = align_down (base + size - 1) size

-- `data.ljust(n, b"\0")`
pub ljust : List ℕ → ℕ → List ℕ
ljust xs n = xs ++ replicate (n - length xs) 0

-- The stream is the list of its bytes; after the seek, `read` returns what is left, up to its size.
pub get_mmaped_data : List ℕ → ℕ → ℕ → ℕ → Result (List ℕ)
unfolding align_up ljust
get_mmaped_data stream offset size page_size =
    if page_size == 0
    then err zero_division_error
    else if not (offset % page_size == 0)
    then err cle_error
    else let read_length = align_up size page_size in
      ok (ljust (take read_length (drop offset stream)) read_length)

and_neg-mask : (base s : ℕ) → 0 < s → and_neg base s ≡ base - bit_and base (s - 1)
unfolding and_neg
and_neg-mask base zero h = elim h [ ]
and_neg-mask base (suc n) h = ap (λ m. base - bit_and base m) (omega arith)

align_down-sub : (base k : ℕ) → align_down base (2 ^ k) ≡ base - base % 2 ^ k
unfolding align_down
align_down-sub base k = omega (arith, and_neg-mask base (2 ^ k) (pow-pos k), bit_and_mask k base)

-- A multiple of `m` below any number is that number less its remainder.
sub-mod-mod : (x m : ℕ) → 0 < m → (x - x % m) % m ≡ 0
sub-mod-mod x m h = grind (arith, mod-eq-sub-mul-div x m, mul-mod_right m (x / m))

-- `ALIGN_DOWN` to a power of two is the largest multiple of it that is not above `base`.
pub align_down_bounds :
    (base k : ℕ)
    → (align_down base (2 ^ k) ≤ base)
      × (base < align_down base (2 ^ k) + 2 ^ k)
      × (align_down base (2 ^ k) % 2 ^ k ≡ 0)
align_down_bounds base k = rw (align_down-sub base k) (
  omega arith,
  omega (arith, mod-lt base (pow-pos k), div-mul-le_self base (2 ^ k)),
  sub-mod-mod base (2 ^ k) (pow-pos k),
)

-- `ALIGN_UP` to a power of two is the smallest multiple of it that is not below `base`.
pub align_up_bounds :
    (base k : ℕ)
    → (base ≤ align_up base (2 ^ k))
      × (align_up base (2 ^ k) < base + 2 ^ k)
      × (align_up base (2 ^ k) % 2 ^ k ≡ 0)
unfolding align_up
align_up_bounds base k =
    let (below, above, multiple) = align_down_bounds (base + 2 ^ k - 1) k in
    (omega (arith, pow-pos k), omega (arith, pow-pos k), multiple)

get_elem?-replicate : (n i : ℕ) → i < n → get_elem? {A = ℕ} (replicate n 0) i ≡ some 0
get_elem?-replicate zero i h = elim h [ ]
get_elem?-replicate (suc n) zero h = refl
get_elem?-replicate (suc n) (suc i) h = get_elem?-replicate n i (omega arith)

get_elem?-ljust_take :
    (n : ℕ) (xs : List ℕ) (i : ℕ)
    → i < n
    → get_elem? (take n xs ++ replicate (n - length (take n xs)) 0) i ≡ some (get_or xs i 0)
get_elem?-ljust_take zero xs i h = elim h [ ]
get_elem?-ljust_take (suc n) [] i h =
    let e : suc n - 0 ≡ suc n = omega arith in rw e (get_elem?-replicate (suc n) i h)
get_elem?-ljust_take (suc n) (x ∷ xs) zero h = refl
get_elem?-ljust_take (suc n) (x ∷ xs) (suc i) h =
    let e : suc n - suc (length (take n xs)) ≡ n - length (take n xs) = omega arith in
    rw e (get_elem?-ljust_take n xs i (omega arith))

get_or-drop : (n : ℕ) (xs : List ℕ) (i : ℕ) → get_or (drop n xs) i 0 ≡ get_or xs (n + i) 0
get_or-drop zero xs i = let e : 0 + i ≡ i = omega arith in rw e
get_or-drop (suc n) [] i = refl
get_or-drop (suc n) (x ∷ xs) i =
    let e : suc n + i ≡ suc (n + i) = omega arith in rw e (get_or-drop n xs i)

length-ljust-take : (n : ℕ) (xs : List ℕ) → length (ljust (take n xs) n) ≡ n
unfolding ljust
length-ljust-take n xs = omega (
  arith,
  length-append (take n xs) (replicate (n - length (take n xs)) 0),
  length-take n xs,
  length-replicate {A = ℕ} (n - length (take n xs)) 0,
)

-- A read at a multiple of the page size, a power of two, succeeds. It has the least number of whole
-- pages that hold the size asked for, and in them the bytes of the file from the offset on, then zeros.
pub get_mmaped_data_pages :
    (stream : List ℕ) (offset size k : ℕ)
    → offset % 2 ^ k ≡ 0
    → (data' : List ℕ) × (get_mmaped_data stream offset size (2 ^ k) ≡ ok data')
      × (size ≤ length data')
      × (length data' < size + 2 ^ k)
      × (length data' % 2 ^ k ≡ 0)
      × ((i : ℕ) → i < length data' → get_elem? data' i ≡ some (get_or stream (offset + i) 0))
unfolding get_mmaped_data ljust
get_mmaped_data_pages stream offset size k h =
    let n = align_up size (2 ^ k) in
    let len = length-ljust-take n (drop offset stream) in
    let (above, below, multiple) = align_up_bounds size k in
    (
      ljust (take n (drop offset stream)) n,
      ground (arith, pow-pos k),
      omega (arith, len),
      omega (arith, len),
      ap (λ l. l % 2 ^ k) len ∙ multiple,
      λ i lt.
          get_elem?-ljust_take n (drop offset stream) i (omega arith)
          ∙ ap some (get_or-drop offset stream i),
    )

-- A read at an offset inside a page is refused.
pub get_mmaped_data_unaligned :
    (stream : List ℕ) (offset size page_size : ℕ)
    → 0 < page_size
    → offset % page_size ≢ 0
    → get_mmaped_data stream offset size page_size ≡ err cle_error
unfolding get_mmaped_data
get_mmaped_data_unaligned stream offset size page_size p h = ground arith
