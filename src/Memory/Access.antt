-- ===== src/Memory/Access.antt =====
-- `Clemory.load`, `Clemory.store`, and the methods of `ClemoryBase` that read a memory as a stream
-- or as a C string.
use cle.Base.{
  ℕ, zero, suc, ◌+◌, ◌-◌, Bool, true, false, not, ◌&&◌, Option, none, some, List, [], ◌∷◌, ◌++◌,
  length, take, drop, replicate, splice, ◌==◌, if◌then◌else◌, Exception, Result, ok, err,
  out_of_fuel, ◌>>=◌, key_error, type_error, index_error, value_error,
}
use cle.Base.Int.{ℤ, pos, negsuc, ◌+ℤ◌, ◌-ℤ◌, leb_ℤ, ltb_ℤ, to_ℕ}
use cle.Memory.Backers.{
  Kind, byte_array, int_list, mmap, byte_constant, Backers, nil, raw, child, Clemory, Run, stop,
  raises, yields, size, backers,
}
use cle.Memory.Items.{get_item}

-- `memoryview(backer)`, which a list does not have.
abbrev pub viewable : Kind → Bool
viewable byte_array = true
viewable int_list = false
viewable mmap = true
viewable byte_constant = true

-- `xs[:n]` and `xs[n:]`, where a negative bound counts from the end.
abbrev pub upto : ℤ → List ℕ → List ℕ
upto (pos n) xs = take n xs
upto (negsuc n) xs = take (length xs - suc n) xs

abbrev pub onward : ℤ → List ℕ → List ℕ
onward (pos n) xs = drop n xs
onward (negsuc n) xs = drop (length xs - suc n) xs

abbrev pub join : Option (List ℕ) → List ℕ → List ℕ
join none ys = ys
join (some xs) ys = xs ++ ys

-- What follows the loop in `load`: without a view, `KeyError`.
abbrev pub joined : Option (List ℕ) → Result (List ℕ)
joined none = err key_error
joined (some xs) = ok xs

-- The loop in `load`: `views` is what has been collected, joined, or `none` if there is none. The
-- count of bytes left may fall below zero.
unfoldable pub load_from : Run → ℤ → ℤ → Option (List ℕ) → Result (List ℕ)
load_from stop addr n views = joined views
load_from (raises e) addr n views = err e
load_from (yields s rest) addr n views =
    let offset = to_ℕ (addr -ℤ s.start) in
    let room = size s.content -ℤ pos offset in
    let view = take (to_ℕ n) (drop offset s.content) in
    let more = load_from rest (addr +ℤ room) (n -ℤ room) (some (join views view)) in
    let first : Bool = elim views [
      | none ↦ ltb_ℤ (pos offset +ℤ n) (size s.content)
      | some _ ↦ false
    ] in
    if ltb_ℤ addr s.start
    then joined views
    else if not (viewable s.kind)
    then err type_error
    else if first
    then ok view
    else if leb_ℤ (n -ℤ room) (pos 0)
    then ok (join views view)
    else more

unfoldable pub load : Clemory → ℤ → ℕ → Result (List ℕ)
unfolding load_from backers
load m addr n =
    if m.info.uninitialized
    then ok (replicate n 0)
    else load_from (backers m addr) addr (pos n) none

-- `backer[from:to] = ys`: an `mmap` keeps its size, and a `bytes` cannot be changed.
abbrev assign_slice : Kind → List ℕ → ℕ → ℕ → List ℕ → Result (List ℕ)
assign_slice byte_array xs from to ys = ok (splice xs from to ys)
assign_slice int_list xs from to ys = ok (splice xs from to ys)
assign_slice mmap xs from to ys =
    let zs = splice xs from to ys in if length zs == length xs then ok zs else err index_error
assign_slice byte_constant xs from to ys = err type_error

-- How the loop in `store` stands: going on, left by `break`, or left by an exception.
pub data Status : Type 0 where
  going done : Status
  raised : Exception → Status

pub record Writing : Type 0 where
  pub addr : ℤ
  pub rest : List ℕ
  pub status : Status

-- One round of the loop in `store`, at a buffer that starts at `start`.
unfoldable pub write : ℤ → Kind → List ℕ → Writing → List ℕ × Writing
write start kind xs w =
    let offset = to_ℕ (w.addr -ℤ start) in
    let room = size xs -ℤ pos offset in
    let ys = if leb_ℤ (size w.rest) room then w.rest else upto room w.rest in
    let later = onward room w.rest in
    if ltb_ℤ w.addr start
    then (xs, record w { status = raised key_error })
    else elim (assign_slice kind xs offset (offset + length w.rest) ys) [
      | ok zs ↦ (
        zs,
        record {
          addr = w.addr +ℤ room;
          rest = later;
          status = if length later == 0 then done else going;
        },
      )
      | err e ↦ (xs, record w { status = raised e })
      | out_of_fuel ↦ (xs, w)
    ]

-- The rounds of the loop over `backers(addr)`, with the buffers written back into the memory.
-- `seek` is the address in the memory's own space, `base` what is added to it on the way out, and
-- the flag the one called `started` in `backers`.
unfoldable pub store_from : Backers → Bool → ℤ → ℤ → Writing → Backers × Writing
unfolding write
store_from nil started seek base w = (nil, w)
store_from (raw start kind xs rest) started seek base w =
    let skip : Backers × Writing =
      let (rest', w') = store_from rest false seek base w in (raw start kind xs rest', w') in
    let visit : Backers × Writing =
      let (ys, w') = write (base +ℤ start) kind xs w in
      let (rest', w'') = store_from rest true seek base w' in (raw start kind ys rest', w'') in
    elim w.status [
      | going ↦ if not started && leb_ℤ (start +ℤ size xs) seek then skip else visit
      | done ↦ (raw start kind xs rest, w)
      | raised e ↦ (raw start kind xs rest, w)
    ]
store_from (child start info bs rest) started seek base w =
    let skip : Backers × Writing =
      let (rest', w') = store_from rest false seek base w in (child start info bs rest', w') in
    let visit : Backers × Writing =
      let inside : Backers × Writing =
        if info.uninitialized
        then (bs, (write (base +ℤ start) byte_constant [] w).1)
        else store_from bs false (seek -ℤ start) (base +ℤ start) w in
      let (bs', w') = inside in
      let (rest', w'') = store_from rest true seek base w' in (child start info bs' rest', w'') in
    let enter : Backers × Writing = elim info.max_addr [
      | none ↦ (child start info bs rest, record w { status = raised type_error })
      | some top ↦ if leb_ℤ (start +ℤ top) seek then skip else visit
    ] in
    elim w.status [
      | going ↦ if started then visit else enter
      | done ↦ (child start info bs rest, w)
      | raised e ↦ (child start info bs rest, w)
    ]

-- After the loop, data that is left is an error; what has been written stays written.
abbrev pub finished : Writing → Result (Unit {0})
finished w = elim w.status [
  | going ↦ if length w.rest == 0 then ok tt else err key_error
  | done ↦ ok tt
  | raised e ↦ err e
]

unfoldable pub store : Clemory → ℤ → List ℕ → Clemory × Result (Unit {0})
unfolding store_from
store m addr bytes =
    let (bs, w) =
      store_from m.backers_list false addr (pos 0)
        (record { addr = addr; rest = bytes; status = going }) in
    if m.info.uninitialized
    then (m, err value_error)
    else (record m { backers_list = bs }, finished w)

-- `load_null_terminated_bytes`, with the rounds that are left as its fuel.
unfoldable pub load_string_from : Backers → ℤ → ℕ → Result (List ℕ)
unfolding get_item
load_string_from bs addr zero = ok []
load_string_from bs addr (suc rounds) =
    let more = load_string_from bs (addr +ℤ pos 1) rounds in
    elim (get_item bs addr) [
      | ok zero ↦ ok []
      | ok (suc b) ↦ more >>= λ xs. ok (suc b ∷ xs)
      | err key_error ↦ ok []
      | err e ↦ err e
      | out_of_fuel ↦ out_of_fuel
    ]

unfoldable pub load_null_terminated_bytes : Clemory → ℤ → ℕ → Result (List ℕ)
unfolding load_string_from
load_null_terminated_bytes m addr max_size = load_string_from m.backers_list addr max_size

-- `read`: the memory at the pointer, which moves past what was read; nothing if it is unmapped.
unfoldable pub read : Clemory → ℕ → Result (List ℕ) × Clemory
unfolding load
read m nbytes = elim (load m m.pointer nbytes) [
  | ok out ↦ (ok out, record m { pointer = m.pointer +ℤ size out })
  | err key_error ↦ (ok [], m)
  | err e ↦ (err e, m)
  | out_of_fuel ↦ (out_of_fuel, m)
]

unfoldable pub seek : Clemory → ℤ → Clemory
seek m value = record m { pointer = value }

unfoldable pub tell : Clemory → ℤ
tell m = m.pointer
