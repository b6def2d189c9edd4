-- ===== src/HexFormats/Motorola.antt =====
-- cle/backends/srec.py: the records of a Motorola S-record file, and the file. The joining of the
-- pieces is the one of the Intel HEX files, written out there a second time.
use cle.Base.{
  ℕ, ◌+◌, ◌-◌, ◌*◌, ◌/◌, ◌%◌, Bool, true, false, ◌||◌, Option, none, some, List, [], ◌∷◌, ◌++◌,
  ◌==◌, ltb, min, max, length, take, drop, if◌then◌else◌, Result, ok, err, ◌>>=◌, cle_error,
  type_error, index_error, key_error,
}
use cle.Memory.Backers.{Clemory}
use cle.HexFormats.{
  digit_run, int_from, join_digits, unhexlify, sum_bytes, without_last_two, Piece, coalesce_regions,
  mount_pieces, split_lines,
}

-- `SREC_ADDR_SIZE`
unfoldable pub addr_size : ℕ → Option ℕ
addr_size c =
    if c == b'0' || c == b'1' || c == b'5' || c == b'9'
    then some 16
    else if c == b'2' || c == b'6' || c == b'8'
    then some 24
    else if c == b'3' || c == b'7'
    then some 32
    else none

-- What the pattern of a record matches behind its type, as digits.
pub record Match : Type 0 where
  pub count : List ℕ
  pub addr : List ℕ
  pub payload : List ℕ
  pub cksum : List ℕ

-- The group for the data takes at most 64 digits, and leaves two for the checksum.
abbrev pub payload_len : ℕ → ℕ
payload_len left = min 64 (left - 2)

abbrev pub match_digits : ℕ → List ℕ → Option Match
match_digits width ds =
    let rest = drop (2 + width) ds in
    if ltb (length ds) (8 + width)
    then none
    else some (record {
      count = take 2 ds;
      addr = take width (drop 2 ds);
      payload = take (payload_len (length rest)) rest;
      cksum = take 2 (drop (payload_len (length rest)) rest);
    })

abbrev pub Fields : Type 0
Fields = ℕ × ℕ × List ℕ

-- The message of the last error adds bytes to a text, so a `TypeError` is raised.
abbrev pub read_payload : ℕ → ℕ → List ℕ → Result (List ℕ)
read_payload count size payload = join_digits payload >>= λ bytes.
    if count == size / 8 + 1 + length bytes then ok bytes else err type_error

unfoldable pub read_match : ℕ → ℕ → List ℕ → Match → Result Fields
unfolding unhexlify join_digits
read_match kind size line m = unhexlify (without_last_two 2 line) >>= λ bytes.
    if 0xFF - sum_bytes bytes % 256 == int_from 0 m.cksum
    then (read_payload (int_from 0 m.count) size m.payload >>= λ payload.
        ok (kind, int_from 0 m.addr, payload))
    else err cle_error

abbrev pub read_matched : ℕ → ℕ → List ℕ → Option Match → Result Fields
read_matched kind size line none = err cle_error
read_matched kind size line (some m) = read_match kind size line m

-- The record of a line, from its first two characters and the rest of it.
abbrev pub parse_sized : ℕ → ℕ → ℕ → List ℕ → Result Fields
parse_sized size c kind rest =
    read_matched (kind - b'0') size (c ∷ kind ∷ rest)
      (if c == b'S' then match_digits (size / 4) (digit_run rest) else none)

unfoldable pub parse_record : List ℕ → Result Fields
unfolding digit_run addr_size read_match
parse_record [] = err index_error
parse_record (c ∷ []) = err index_error
parse_record (c ∷ kind ∷ rest) = elim (addr_size kind) [
  | none ↦ err key_error
  | some size ↦ parse_sized size c kind rest
]

-- What the loop over the records keeps. No record sets the base address.
pub record SrecState : Type 0 where
  pub regions : List Piece
  pub max_addr : ℕ
  pub min_addr : ℕ
  pub base_address : ℕ
  pub entry : Option ℕ
  pub initial_ip : Option ℕ
  pub got_entry : Bool

abbrev pub fresh : SrecState
fresh = record {
  regions = [];
  max_addr = 0;
  min_addr = 0xFFFFFFFFFFFFFFFF;
  base_address = 0;
  entry = none;
  initial_ip = none;
  got_entry = false;
}

-- `int.from_bytes(data, "big")`
abbrev pub big_endian : ℕ → List ℕ → ℕ
big_endian n [] = n
big_endian n (b ∷ bs) = big_endian (n * 256 + b) bs

unfoldable pub see_record : SrecState → Fields → Result SrecState
see_record s (kind, addr, bytes) =
    let at = addr + s.base_address in
    if kind == 0
    then ok s
    else if kind == 1 || kind == 2 || kind == 3
    then ok (record s {
      regions = s.regions ++ (at, bytes) ∷ [];
      min_addr = min s.min_addr at;
      max_addr = max s.max_addr (at + length bytes - 1);
    })
    else if kind == 7 || kind == 8 || kind == 9
    then ok (record s {
      got_entry = true;
      entry = some (big_endian 0 bytes);
      initial_ip = some (big_endian 0 bytes);
    })
    else err cle_error

unfoldable pub see_lines : SrecState → List (List ℕ) → Result SrecState
unfolding parse_record see_record
see_lines s [] = ok s
see_lines s (line ∷ lines) =
    parse_record line >>= λ fields. see_record s fields >>= λ s'. see_lines s' lines

abbrev pub sizes : List Piece → List (ℕ × ℕ)
sizes [] = []
sizes ((addr, bytes) ∷ ps) = (addr, length bytes) ∷ sizes ps

-- The part of `SRec.__init__` behind the choice of the architecture: the state, the memory with
-- the joined regions, and their addresses and sizes.
unfoldable pub load_file : Clemory → List ℕ → Result (SrecState × Clemory × List (ℕ × ℕ))
unfolding see_lines split_lines coalesce_regions mount_pieces
load_file m text = see_lines fresh (split_lines false text) >>= λ s.
    let pieces = coalesce_regions s.regions in
    mount_pieces m pieces >>= λ m'. ok (s, m', sizes pieces)

-- `SRec.is_compatible`, of the first bytes of the stream.
abbrev pub is_compatible : List ℕ → Bool
is_compatible [] = false
is_compatible (c ∷ cs) = c == b'S'
