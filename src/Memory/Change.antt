-- ===== src/Memory/Change.antt =====
-- `Clemory.split_backer` and `Clemory.add_backer`. The memory after an uncaught exception is not
-- returned.
use cle.Base.{
  ℕ, Bool, false, none, some, List, length, take, drop, ◌==◌, if◌then◌else◌, Result, ok, err,
  out_of_fuel, ◌>>=◌, value_error, type_error,
}
use cle.Base.Int.{ℤ, pos, ◌+ℤ◌, ◌-ℤ◌, leb_ℤ, ltb_ℤ, to_ℕ}
use cle.Memory.Backers.{
  Kind, byte_array, int_list, mmap, byte_constant, Clemory, Segment, size, backers, next,
}
use cle.Memory.Layout.{Source, bytes_value, buffer, memory, insort, update_min_max, remove_backer}

abbrev is_empty : Source → Bool
is_empty (bytes_value xs) = length xs == 0
is_empty (buffer kind xs) = length xs == 0
is_empty (memory m) = false

abbrev is_root : Source → Bool
is_root (bytes_value xs) = false
is_root (buffer kind xs) = false
is_root (memory m) = m.info.root

-- The end of `add_backer`, shared by both modes.
unfoldable pub put : Clemory → ℤ → Source → Result Clemory
unfolding insort update_min_max
put m start source =
    if is_root source
    then err value_error
    else (insort start source m.backers_list >>= λ bs. ok (update_min_max m bs))

-- `add_backer(start, data)`, without `overwrite`.
unfoldable pub add_new : Clemory → ℤ → Source → Result Clemory
unfolding put backers next
add_new m start source =
    let check = next (backers m start) >>= λ existing. elim existing [
      | none ↦ put m start source
      | some s ↦ if leb_ℤ s.start start then err value_error else put m start source
    ] in
    if m.info.uninitialized
    then err value_error
    else if is_empty source
    then err value_error
    else check

-- A slice of a byte array or a list has its class; one of an `mmap` is a `bytes`.
abbrev pub part : Kind → List ℕ → Source
part byte_array xs = buffer byte_array xs
part int_list xs = buffer int_list xs
part mmap xs = bytes_value xs
part byte_constant xs = bytes_value xs

-- The end of `split_backer`: the backer `s` is replaced by its parts before and from `addr`.
unfoldable pub split_at : Clemory → ℤ → Segment → Result Clemory
unfolding remove_backer add_new
split_at m addr s = do
  let cut = to_ℕ (addr -ℤ s.start)
  gone ← remove_backer m s.start
  left ← add_new gone s.start (part s.kind (take cut s.content))
  add_new left addr (part s.kind (drop cut s.content))

-- The test for a backer that is a memory never passes, since `backers` yields buffers only.
unfoldable pub split_backer : Clemory → ℤ → Result Clemory
unfolding split_at backers next
split_backer m addr =
    let split = next (backers m addr) >>= λ existing. elim existing [
      | none ↦ ok m
      | some s ↦
          if leb_ℤ addr s.start
          then ok m
          else if leb_ℤ (s.start +ℤ size s.content) addr
          then ok m
          else split_at m addr s
    ] in
    if m.info.uninitialized then err value_error else split

-- `try: self.remove_backer(start) except ValueError: pass`
abbrev remove_if_present : Clemory → Result Clemory → Result Clemory
remove_if_present m (ok m') = ok m'
remove_if_present m (err value_error) = ok m
remove_if_present m (err e) = err e
remove_if_present m out_of_fuel = out_of_fuel

-- `add_backer(start, data, overwrite=True)` for a buffer of `len` bytes.
unfoldable pub make_room : Clemory → ℤ → ℕ → Result Clemory
unfolding split_backer remove_backer backers next
make_room m start len = do
  let stop = start +ℤ pos len
  first ← split_backer m start
  both ← split_backer first stop
  gone ← remove_if_present both (remove_backer both start)
  existing ← next (backers gone stop)
  elim existing [
    | none ↦ ok gone
    | some s ↦ if ltb_ℤ s.start stop then remove_backer gone s.start else ok gone
  ]

unfoldable pub add_over : Clemory → ℤ → Source → Result Clemory
unfolding make_room put
add_over m start (memory m') = err type_error
add_over m start (bytes_value xs) =
    make_room m start (length xs) >>= λ room. put room start (bytes_value xs)
add_over m start (buffer kind xs) =
    make_room m start (length xs) >>= λ room. put room start (buffer kind xs)

unfoldable pub add_backer : Clemory → ℤ → Source → Bool → Result Clemory
unfolding add_new add_over
add_backer m start source overwrite =
    if m.info.uninitialized
    then err value_error
    else if is_empty source
    then err value_error
    else if overwrite
    then add_over m start source
    else add_new m start source
