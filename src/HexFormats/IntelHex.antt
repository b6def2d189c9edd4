-- ===== src/HexFormats/IntelHex.antt =====
-- cle/backends/ihex.py: the records of an Intel HEX file, and the file. `struct` is the language's.
use cle.Base.{
  ℕ, ◌+◌, ◌-◌, ◌*◌, ◌%◌, ◌^◌, Bool, true, false, Option, none, some, List, [], ◌∷◌, ◌++◌, ◌==◌, ltb,
  max, length, take, drop, if◌then◌else◌, Result, ok, err, ◌>>=◌, cle_error, type_error,
  struct_error,
}
use cle.Memory.Backers.{Clemory}
use cle.HexFormats.{
  digit_run, int_from, join_digits, unhexlify, sum_bytes, without_last_two, Piece, coalesce_regions,
  mount_pieces, split_lines,
}

-- What the pattern of a record matches, as digits. Its group for the data takes as many digits as
-- leave two for the checksum, but at least two; where there are fewer than four it matches nothing.
pub record Match : Type 0 where
  pub count : List ℕ
  pub addr : List ℕ
  pub kind : List ℕ
  pub payload : Option (List ℕ)
  pub cksum : List ℕ

abbrev pub payload_of : List ℕ → Option (List ℕ)
payload_of rest = if ltb (length rest) 4 then none else some (take (length rest - 2) rest)

abbrev pub cksum_of : List ℕ → List ℕ
cksum_of rest = if ltb (length rest) 4 then take 2 rest else drop (length rest - 2) rest

abbrev pub match_digits : List ℕ → Option Match
match_digits ds =
    if ltb (length ds) 10
    then none
    else some (record {
      count = take 2 ds;
      addr = take 4 (drop 2 ds);
      kind = take 2 (drop 6 ds);
      payload = payload_of (drop 8 ds);
      cksum = cksum_of (drop 8 ds);
    })

unfoldable pub match_line : List ℕ → Option Match
unfolding digit_run
match_line [] = none
match_line (c ∷ cs) = if c == b':' then match_digits (digit_run cs) else none

abbrev pub Fields : Type 0
Fields = ℕ × ℕ × Option (List ℕ)

-- The data of a record, which is `None` where the group has not matched. The message of the last
-- error adds bytes to a text, so a `TypeError` is raised.
abbrev pub read_payload : ℕ → Option (List ℕ) → Result (Option (List ℕ))
read_payload count none = ok none
read_payload count (some ds) =
    join_digits ds >>= λ bytes. if count == length bytes then ok (some bytes) else err type_error

unfoldable pub read_match : List ℕ → Match → Result Fields
unfolding unhexlify join_digits
read_match line m = unhexlify (without_last_two 1 line) >>= λ bytes.
    if (256 - sum_bytes bytes % 256) % 256 == int_from 0 m.cksum
    then (read_payload (int_from 0 m.count) m.payload >>= λ payload.
        ok (int_from 0 m.kind, int_from 0 m.addr, payload))
    else err cle_error

unfoldable pub parse_record : List ℕ → Result Fields
unfolding match_line read_match
parse_record line = elim (match_line line) [ none ↦ err cle_error | some m ↦ read_match line m ]

-- What the loop over the records keeps. `done` is set by the record for the end of the file.
pub record HexState : Type 0 where
  pub regions : List Piece
  pub max_addr : ℕ
  pub min_addr : ℕ
  pub base_address : ℕ
  pub entry : Option ℕ
  pub initial_cs_ip : Option (ℕ × ℕ)
  pub initial_eip : Option ℕ
  pub got_base : Bool
  pub got_entry : Bool
  pub done : Bool

abbrev pub fresh : HexState
fresh = record {
  regions = [];
  max_addr = 0;
  min_addr = 0xFFFFFFFFFFFFFFFF;
  base_address = 0;
  entry = none;
  initial_cs_ip = none;
  initial_eip = none;
  got_base = false;
  got_entry = false;
  done = false;
}

-- The bytes that `struct.unpack` reads as big-endian numbers of `width` bytes in all.
abbrev pub exactly : ℕ → Option (List ℕ) → Result (List ℕ)
exactly width none = err type_error
exactly width (some bytes) = if length bytes == width then ok bytes else err struct_error

abbrev pub big_endian : ℕ → List ℕ → ℕ
big_endian n [] = n
big_endian n (b ∷ bs) = big_endian (n * 256 + b) bs

-- A record of data goes to its address, from the base on. `len` of no data raises.
unfoldable pub see_data : HexState → ℕ → Option (List ℕ) → Result HexState
see_data s addr none = err type_error
see_data s addr (some bytes) =
    let at = addr + s.base_address in
    ok (record s {
      regions = s.regions ++ (at, bytes) ∷ [];
      min_addr = if ltb at s.min_addr then at else s.min_addr;
      max_addr = max s.max_addr (at + length bytes - 1);
    })

unfoldable pub see_record : HexState → Fields → Result HexState
unfolding see_data
see_record s (kind, addr, payload) =
    if kind == 0
    then see_data s addr payload
    else if kind == 1
    then ok (record s { done = true })
    else if kind == 2
    then (exactly 2 payload >>= λ bytes.
        ok (record s { base_address = big_endian 0 bytes * 16; got_base = true }))
    else if kind == 3
    then (exactly 4 payload >>= λ bytes. ok (record s {
      got_base = true;
      got_entry = true;
      initial_cs_ip = some (big_endian 0 (take 2 bytes), big_endian 0 (drop 2 bytes));
      entry = some (big_endian 0 bytes);
    }))
    else if kind == 4
    then (exactly 2 payload >>= λ bytes.
        ok (record s { got_base = true; base_address = big_endian 0 bytes * 2 ^ 16 }))
    else if kind == 5
    then (exactly 4 payload >>= λ bytes. ok (record s {
      got_entry = true;
      entry = some (big_endian 0 bytes);
      initial_eip = some (big_endian 0 bytes);
    }))
    else err cle_error

-- The loop over the lines, which the record for the end of the file leaves.
unfoldable pub see_lines : HexState → List (List ℕ) → Result HexState
unfolding parse_record see_record
see_lines s [] = ok s
see_lines s (line ∷ lines) =
    let rest = parse_record line >>= λ fields. see_record s fields >>= λ s'. see_lines s' lines in
    if s.done then ok s else rest

-- The part of `Hex.__init__` behind the choice of the architecture: the state, the memory with the
-- joined regions, and their addresses and sizes.
abbrev pub sizes : List Piece → List (ℕ × ℕ)
sizes [] = []
sizes ((addr, bytes) ∷ ps) = (addr, length bytes) ∷ sizes ps

unfoldable pub load_file : Clemory → List ℕ → Result (HexState × Clemory × List (ℕ × ℕ))
unfolding see_lines split_lines coalesce_regions mount_pieces
load_file m text = see_lines fresh (split_lines false text) >>= λ s.
    let pieces = coalesce_regions s.regions in
    mount_pieces m pieces >>= λ m'. ok (s, m', sizes pieces)

-- `Hex.is_compatible`, of the first bytes of the stream.
abbrev pub is_compatible : List ℕ → Bool
is_compatible [] = false
is_compatible (c ∷ cs) = c == b':'
