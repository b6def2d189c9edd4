-- ===== src/Memory/Words.antt =====
-- `pack`, `unpack`, `pack_word` and `unpack_word` of `ClemoryBase`, for the formats of one integer
-- of up to eight bytes that `struct_fmt` makes. `struct` itself is the language's: it reads and
-- writes a number as its bytes, and raises for one that the format does not hold.
use cle.Base.{
  ℕ, zero, suc, ◌+◌, ◌-◌, ◌*◌, ◌/◌, ◌%◌, ◌^◌, Bool, true, false, not, ◌&&◌, List, [], ◌∷◌, ◌++◌,
  length, take, drop, ltb, if◌then◌else◌, Result, ok, err, out_of_fuel, ◌>>=◌, ◌==◌, key_error,
  type_error, struct_error, value_error,
}
use cle.Base.Int.{ℤ, pos, negsuc, ◌+ℤ◌, ◌-ℤ◌, ltb_ℤ, to_ℕ}
use cle.Base.Twos.{◌&ℤ◌, ◌|ℤ◌, ◌<<ℤ◌, ◌%ℤ◌}
use cle.Memory.Backers.{
  Kind, byte_array, int_list, mmap, byte_constant, Clemory, Segment, Run, stop, raises, yields,
  backers,
}
use cle.Memory.Access.{store}

pub data Endness : Type 0 where
  little_endian big_endian : Endness

-- A number as that many bytes, from the lowest, and back.
abbrev pub little_bytes : ℕ → ℕ → List ℕ
little_bytes zero n = []
little_bytes (suc k) n = n % 256 ∷ little_bytes k (n / 256)

abbrev pub from_little : List ℕ → ℕ
from_little [] = 0
from_little (b ∷ bs) = b + 256 * from_little bs

abbrev pub flip : List ℕ → List ℕ
flip [] = []
flip (b ∷ bs) = flip bs ++ b ∷ []

abbrev pub arrange : Endness → List ℕ → List ℕ
arrange little_endian bs = bs
arrange big_endian bs = flip bs

-- The buffers that `pack_into` can write, and those that `unpack_from` can read.
abbrev pub writable : Kind → Bool
writable byte_array = true
writable int_list = false
writable mmap = true
writable byte_constant = false

abbrev pub readable : Kind → Bool
readable int_list = false
readable byte_array = true
readable mmap = true
readable byte_constant = true

-- The first buffer that `backers` yields, if it holds the address.
abbrev pub first_of : ℤ → Run → Result Segment
first_of addr stop = err key_error
first_of addr (raises e) = err e
first_of addr (yields s rest) = if ltb_ℤ addr s.start then err key_error else ok s

abbrev pub room_in : ℤ → Segment → ℕ
room_in addr s = length s.content - to_ℕ (addr -ℤ s.start)

-- Whether a signed format of that many bytes holds the number.
abbrev pub fits_signed : ℕ → ℤ → Bool
fits_signed width (pos n) = ltb n (2 ^ (8 * width - 1))
fits_signed width (negsuc n) = ltb n (2 ^ (8 * width - 1))

-- `pack` of one number of `width` bytes. A number that is too large for an unsigned format cannot
-- come from `pack_word`, which masks it.
unfoldable pub pack : Endness → Clemory → ℤ → ℕ → Bool → ℤ → Result Clemory
pack endness m addr width signed value = first_of addr (backers m addr) >>= λ s.
    if not (writable s.kind)
    then err type_error
    else if ltb (room_in addr s) width
    then err key_error
    else if signed && not (fits_signed width value)
    then err struct_error
    else let bytes = little_bytes width (value %ℤ 2 ^ (8 * width)) in
      let (m', done) = store m addr (arrange endness bytes) in done >>= λ _. ok m'

unfoldable pub pack_word : Endness → Clemory → ℤ → ℤ → ℕ → Bool → Result Clemory
unfolding pack
pack_word endness m addr value width signed =
    pack endness m addr width signed (if signed then value else value &ℤ pos (2 ^ (8 * width) - 1))

abbrev pub as_signed : ℕ → ℕ → ℤ
as_signed width n = if ltb n (2 ^ (8 * width - 1)) then pos n else pos n -ℤ pos (2 ^ (8 * width))

unfoldable pub unpack : Endness → Clemory → ℤ → ℕ → Bool → Result ℤ
unpack endness m addr width signed = first_of addr (backers m addr) >>= λ s.
    let bytes = take width (drop (to_ℕ (addr -ℤ s.start)) s.content) in
    let n = from_little (arrange endness bytes) in
    if not (readable s.kind)
    then err type_error
    else if ltb (room_in addr s) width
    then err key_error
    else ok (if signed then as_signed width n else pos n)

-- A width above eight bytes is read in two halves; the fuel is the width.
unfoldable pub unpack_halves : ℕ → Endness → Clemory → ℤ → ℕ → Bool → Result ℤ
unfolding unpack
unpack_halves zero endness m addr width signed = out_of_fuel
unpack_halves (suc f) endness m addr width signed =
    let half = width / 2 in
    let lo_off : ℕ = elim endness [ little_endian ↦ 0 | big_endian ↦ half ] in
    let hi_off : ℕ = elim endness [ little_endian ↦ half | big_endian ↦ 0 ] in
    let both = unpack_halves f endness m (addr +ℤ pos lo_off) half false >>= λ lo.
    unpack_halves f endness m (addr +ℤ pos hi_off) half signed >>= λ hi.
    ok ((hi <<ℤ (half * 8)) |ℤ lo) in
    if ltb 8 width
    then if not (width == half * 2) then err value_error else both
    else unpack endness m addr width signed

unfoldable pub unpack_word : Endness → Clemory → ℤ → ℕ → Bool → Result ℤ
unfolding unpack_halves
unpack_word endness m addr width signed = unpack_halves (suc width) endness m addr width signed
