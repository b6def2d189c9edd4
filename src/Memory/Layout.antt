-- ===== src/Memory/Layout.antt =====
-- The methods that change which backers a `Clemory` has, and the bounds that they keep up to date.
use cle.Base.{
  ℕ, Bool, true, false, not, ◌&&◌, ◌||◌, Option, none, some, List, [], ◌∷◌, ltb, ◌==◌,
  if◌then◌else◌, Result, ok, err, ◌>>=◌, value_error, type_error,
}
use cle.Base.Int.{ℤ, pos, ◌+ℤ◌, ltb_ℤ, eqb_ℤ}
use cle.Memory.Backers.{
  Kind, byte_array, int_list, mmap, byte_constant, Meta, Backers, nil, raw, child, Clemory, size,
}

-- The variables of the loop in `_update_min_max`.
pub record Extent : Type 0 where
  pub is_consecutive : Bool
  pub next_start : Option ℤ
  pub lowest : Option ℤ
  pub highest : Option ℤ

abbrev pub or_first : Option ℤ → ℤ → Option ℤ
or_first none a = some a
or_first (some b) a = some b

-- `if max_addr is None or a > max_addr: max_addr = a`
abbrev pub raise_to : Option ℤ → ℤ → Option ℤ
raise_to none a = some a
raise_to (some b) a = if ltb_ℤ b a then some a else some b

-- `next_start is None or next_start == start`
abbrev pub as_predicted : Option ℤ → ℤ → Bool
as_predicted none start = true
as_predicted (some p) start = eqb_ℤ p start

abbrev pub see_raw : ℤ → List ℕ → Extent → Extent
see_raw start xs e = record {
  is_consecutive = e.is_consecutive && as_predicted e.next_start start;
  next_start = some (start +ℤ size xs);
  lowest = or_first e.lowest start;
  highest = raise_to e.highest (start +ℤ size xs);
}

-- A memory without bounds leaves the upper bound and the prediction alone.
abbrev pub see_bounds : ℤ → Option ℤ → Option ℤ → Extent → Extent
see_bounds start (some lo) (some hi) e = record e {
  is_consecutive = e.is_consecutive && not (ltb_ℤ (pos 0) lo);
  next_start = some (start +ℤ hi);
  highest = raise_to e.highest (start +ℤ hi);
}
see_bounds start none hi e = e
see_bounds start (some lo) none e = e

abbrev pub see_child : ℤ → Meta → Extent → Extent
see_child start info e =
    let first = record e {
      is_consecutive = e.is_consecutive && as_predicted e.next_start start;
      lowest = or_first e.lowest start;
    } in
    let seen = see_bounds start info.min_addr info.max_addr first in
    record seen { is_consecutive = seen.is_consecutive && info.consecutive }

unfoldable pub extent : Backers → Extent → Extent
extent nil e = e
extent (raw start kind xs rest) e = extent rest (see_raw start xs e)
extent (child start info bs rest) e = extent rest (see_child start info e)

abbrev pub no_extent : Extent
no_extent = record { is_consecutive = true; next_start = none; lowest = none; highest = none }

-- `_update_min_max`, after the backers have become `bs`.
unfoldable pub update_min_max : Clemory → Backers → Clemory
unfolding extent
update_min_max m bs =
    let e = extent bs no_extent in
    record m {
      info = record {
        root = m.info.root;
        uninitialized = m.info.uninitialized;
        consecutive = e.is_consecutive;
        min_addr = e.lowest;
        max_addr = e.highest;
      };
      backers_list = bs;
    }

-- The first backer that starts at `start` is taken out; `none` if there is none.
unfoldable pub take_out : ℤ → Backers → Option Backers
take_out start nil = none
take_out start (raw s kind xs rest) =
    let later = take_out start rest in
    if eqb_ℤ s start
    then some rest
    else elim later [ none ↦ none | some rest' ↦ some (raw s kind xs rest') ]
take_out start (child s info bs rest) =
    let later = take_out start rest in
    if eqb_ℤ s start
    then some rest
    else elim later [ none ↦ none | some rest' ↦ some (child s info bs rest') ]

-- `UninitializedClemory` refuses every change of its backers.
unfoldable pub remove_backer : Clemory → ℤ → Result Clemory
unfolding take_out update_min_max
remove_backer m start =
    if m.info.uninitialized then err value_error else elim (take_out start m.backers_list) [
      | none ↦ err value_error
      | some bs ↦ ok (update_min_max m bs)
    ]

-- What a caller passes as a backer.
pub data Source : Type 0 where
  bytes_value : List ℕ → Source
  buffer : Kind → List ℕ → Source
  memory : Clemory → Source

abbrev pub place_source : ℤ → Source → Backers → Backers
place_source start (bytes_value xs) rest = raw start byte_array xs rest
place_source start (buffer kind xs) rest = raw start kind xs rest
place_source start (memory m) rest = child start m.info m.backers_list rest

-- The first backer that starts at `start` is replaced.
unfoldable pub swap_in : ℤ → Source → Backers → Option Backers
swap_in start source nil = none
swap_in start source (raw s kind xs rest) =
    let later = swap_in start source rest in
    if eqb_ℤ s start
    then some (place_source start source rest)
    else elim later [ none ↦ none | some rest' ↦ some (raw s kind xs rest') ]
swap_in start source (child s info bs rest) =
    let later = swap_in start source rest in
    if eqb_ℤ s start
    then some (place_source start source rest)
    else elim later [ none ↦ none | some rest' ↦ some (child s info bs rest') ]

-- `isinstance(data, (bytes, list, Clemory))`
abbrev updatable : Source → Bool
updatable (bytes_value xs) = true
updatable (buffer int_list xs) = true
updatable (buffer byte_array xs) = false
updatable (buffer mmap xs) = false
updatable (buffer byte_constant xs) = true
updatable (memory m) = true

unfoldable pub update_backer : Clemory → ℤ → Source → Result Clemory
unfolding swap_in update_min_max
update_backer m start source =
    if m.info.uninitialized
    then err value_error
    else if not (updatable source)
    then err type_error
    else elim (swap_in start source m.backers_list) [
      | none ↦ err value_error
      | some bs ↦ ok (update_min_max m bs)
    ]

-- Python's order of two byte strings.
abbrev before_bytes : List ℕ → List ℕ → Bool
before_bytes xs [] = false
before_bytes [] (y ∷ ys) = true
before_bytes (x ∷ xs) (y ∷ ys) = ltb x y || (x == y && before_bytes xs ys)

-- `<` between the second parts of two backers with one start: Python orders two byte arrays or two
-- lists, and nothing else.
abbrev before_source : Source → Kind → List ℕ → Result Bool
before_source (bytes_value xs) byte_array ys = ok (before_bytes xs ys)
before_source (bytes_value xs) kind ys = err type_error
before_source (buffer byte_array xs) byte_array ys = ok (before_bytes xs ys)
before_source (buffer int_list xs) int_list ys = ok (before_bytes xs ys)
before_source (buffer kind xs) other ys = err type_error
before_source (memory m) kind ys = err type_error

-- `bisect.insort` of a backer into a list that is sorted by its starts.
unfoldable pub insort : ℤ → Source → Backers → Result Backers
insort start source nil = ok (place_source start source nil)
insort start source (raw s kind xs rest) =
    let later = insort start source rest >>= λ rest'. ok (raw s kind xs rest') in
    let here = ok (place_source start source (raw s kind xs rest)) in
    if ltb_ℤ s start
    then later
    else if ltb_ℤ start s
    then here
    else (before_source source kind xs >>= λ first. if first then here else later)
insort start source (child s info bs rest) =
    let later = insort start source rest >>= λ rest'. ok (child s info bs rest') in
    let here = ok (place_source start source (child s info bs rest)) in
    if ltb_ℤ s start then later else if ltb_ℤ start s then here else err type_error
