-- ===== src/HexFormats.antt =====
-- What cle/backends/ihex.py and cle/backends/srec.py share: hexadecimal digits, the lines of a
-- file, and the joining of the pieces of memory. A piece is its address and its bytes.
pub mod IntelHex
pub mod Motorola
pub mod Digits
pub mod RoundTrip
pub mod Joining
pub mod Files
pub mod Extents
pub mod Records
use cle.Base.{
  ℕ, zero, suc, ◌+◌, ◌-◌, ◌*◌, ◌/◌, ◌%◌, ◌^◌, ◌≡◌, Bool, true, false, not, ◌&&◌, ◌||◌, Option, none,
  some, List, [], ◌∷◌, ◌++◌, ◌==◌, ltb, leb, length, take, drop, if◌then◌else◌, Result, ok, err,
  out_of_fuel, ◌>>=◌, value_error,
}
use cle.Base.Int.{ℤ, pos}
use cle.Memory.Backers.{Clemory}
use cle.Memory.Layout.{Source, bytes_value}
use cle.Memory.Change.{add_backer}

-- The value of a character as a hexadecimal digit.
unfoldable pub digit_of : ℕ → Option ℕ
digit_of c =
    if leb b'0' c && leb c b'9'
    then some (c - b'0')
    else if leb b'a' c && leb c b'f'
    then some (c - b'a' + 10)
    else if leb b'A' c && leb c b'F'
    then some (c - b'A' + 10)
    else none

abbrev consume : Option ℕ → List ℕ → List ℕ
consume none ds = []
consume (some d) ds = d ∷ ds

-- The values of the digits that a text starts with, as far as a pattern can match them.
unfoldable pub digit_run : List ℕ → List ℕ
unfolding digit_of
digit_run [] = []
digit_run (c ∷ cs) = consume (digit_of c) (digit_run cs)

-- `int(text, 16)`, for digits.
abbrev pub int_from : ℕ → List ℕ → ℕ
int_from n [] = n
int_from n (d ∷ ds) = int_from (n * 16 + d) ds

-- `binascii.unhexlify`, on digits and on characters.
unfoldable pub join_digits : List ℕ → Result (List ℕ)
join_digits [] = ok []
join_digits (d ∷ []) = err value_error
join_digits (d ∷ e ∷ ds) = join_digits ds >>= λ bs. ok ((d * 16 + e) ∷ bs)

unfoldable pub unhexlify : List ℕ → Result (List ℕ)
unfolding digit_run join_digits
unhexlify text =
    let ds = digit_run text in if length ds == length text then join_digits ds else err value_error

abbrev pub sum_bytes : List ℕ → ℕ
sum_bytes [] = 0
sum_bytes (b ∷ bs) = b + sum_bytes bs

-- `line[from:-2]`
abbrev pub without_last_two : ℕ → List ℕ → List ℕ
without_last_two from line = take (length line - from - 2) (drop from line)

-- `bytes.splitlines`: a line ends with a line feed, a carriage return, or both.
abbrev add_to_first : ℕ → List (List ℕ) → List (List ℕ)
add_to_first c [] = (c ∷ []) ∷ []
add_to_first c (l ∷ ls) = (c ∷ l) ∷ ls

unfoldable pub split_lines : Bool → List ℕ → List (List ℕ)
split_lines skip [] = []
split_lines skip (c ∷ cs) =
    let rest = split_lines (c == 13) cs in
    if skip && c == 10 then rest else if c == 10 || c == 13 then [] ∷ rest else add_to_first c rest

abbrev pub Piece : Type 0
Piece = ℕ × List ℕ

-- `sorted`: by address, then by bytes.
abbrev pub bytes_before : List ℕ → List ℕ → Bool
bytes_before [] [] = false
bytes_before [] (c ∷ cs) = true
bytes_before (b ∷ bs) [] = false
bytes_before (b ∷ bs) (c ∷ cs) = ltb b c || (b == c && bytes_before bs cs)

abbrev pub piece_before : Piece → Piece → Bool
piece_before (a, xs) (b, ys) = ltb a b || (a == b && bytes_before xs ys)

abbrev pub insert_piece : Piece → List Piece → List Piece
insert_piece p [] = p ∷ []
insert_piece p (q ∷ qs) =
    let later = insert_piece p qs in if piece_before q p then q ∷ later else p ∷ q ∷ qs

unfoldable pub sort_pieces : List Piece → List Piece
sort_pieces [] = []
sort_pieces (p ∷ ps) = insert_piece p (sort_pieces ps)

-- The loop in `coalesce_regions`, from the piece that is being built.
unfoldable pub join_from : Piece → List Piece → List Piece
join_from last [] = last ∷ []
join_from (last_addr, last_data) ((addr, region) ∷ rest) =
    let longer = join_from (last_addr, last_data ++ region) rest in
    let fresh = join_from (addr, region) rest in
    if last_addr + length last_data == addr then longer else (last_addr, last_data) ∷ fresh

abbrev pub join_sorted : List Piece → List Piece
join_sorted [] = []
join_sorted (p ∷ ps) = join_from p ps

unfoldable pub coalesce_regions : List Piece → List Piece
unfolding sort_pieces join_from
coalesce_regions regions = join_sorted (sort_pieces regions)

-- The loop that mounts the joined pieces.
unfoldable pub mount_pieces : Clemory → List Piece → Result Clemory
mount_pieces m [] = ok m
mount_pieces m ((addr, bytes) ∷ ps) =
    add_backer m (pos addr) (bytes_value bytes) false >>= λ m'. mount_pieces m' ps
