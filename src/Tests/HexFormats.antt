-- ===== src/Tests/HexFormats.antt =====
-- Small hex files, and the records of the examples.
use cle.Base.{ℕ, ◌≡◌, refl, none, some, List, [], ◌∷◌, false, true, err, ok, cle_error, arith}
use mathlib.Core.List.{Perm}
use cle.Memory.Backers.{Clemory, new, nil, raw, byte_array}
use cle.Memory.Change.{add_backer}
use cle.Base.Int.{pos, ◌+ℤ◌}
use cle.HexFormats.{Piece, coalesce_regions}
use cle.HexFormats.Joining.{spread, IsApart, coalesce_regions-IsJoined}
use cle.HexFormats.IntelHex
use cle.HexFormats.Motorola
use cle.HexFormats.RoundTrip.{print_record, parse_record-print_record}
use cle.HexFormats.Files.{print_file, mounted, load_file-print_file}
use cle.HexFormats.Extents.{least, greatest, load_file-IsExact}
use cle.HexFormats.Records
use cle.HexFormats.Records.{parse_record-print_srec, parse_record-short}

abbrev pieces : List Piece
pieces = (2, 30 ∷ 40 ∷ []) ∷ (0, 10 ∷ 20 ∷ []) ∷ (9, 50 ∷ []) ∷ []

joined : coalesce_regions pieces ≡ (0, 10 ∷ 20 ∷ 30 ∷ 40 ∷ []) ∷ (9, 50 ∷ []) ∷ []
unfolding coalesce_regions
joined = refl

coalesce_regions-IsJoined_example :
    Perm (spread (coalesce_regions pieces)) (spread pieces) × IsApart (coalesce_regions pieces)
coalesce_regions-IsJoined_example = coalesce_regions-IsJoined pieces

parse_record-print_record_example :
    IntelHex.parse_record (print_record 4 0 (8 ∷ 0 ∷ [])) ≡ ok (4, 0, some (8 ∷ 0 ∷ []))
parse_record-print_record_example =
    parse_record-print_record 4 0 (8 ∷ 0 ∷ []) (omega arith) (omega arith) (omega arith)
      (omega arith, (omega arith, tt))

-- `:020000040800F2`
extended_address :
    print_record 4 0 (8 ∷ 0 ∷ [])
    ≡ 58 ∷ 48 ∷ 50 ∷ 48 ∷ 48 ∷ 48 ∷ 48 ∷ 48 ∷ 52 ∷ 48 ∷ 56 ∷ 48 ∷ 48 ∷ 70 ∷ 50 ∷ []
extended_address = refl

load_file-print_file_example :
    (s : IntelHex.HexState) × (s.regions ≡ pieces)
    × (IntelHex.load_file (new true) (print_file pieces) ≡ mounted (new true) pieces s)
load_file-print_file_example = load_file-print_file (new true) pieces (
  (omega arith, omega arith, omega arith, (omega arith, (omega arith, tt))),
  (
    (omega arith, omega arith, omega arith, (omega arith, (omega arith, tt))),
    ((omega arith, omega arith, omega arith, (omega arith, tt)), tt),
  ),
)

sized : Motorola.addr_size b'2' ≡ some 24
unfolding Motorola.addr_size
sized = refl

parse_record-print_srec_example :
    Motorola.parse_record (Records.print_record b'2' 3 0x012345 (7 ∷ 8 ∷ []))
    ≡ ok (2, 0x012345, 7 ∷ 8 ∷ [])
parse_record-print_srec_example =
    parse_record-print_srec b'2' 3 0x012345 (7 ∷ 8 ∷ []) sized (omega arith) (omega arith)
      (omega arith) (omega arith) (omega arith, (omega arith, tt))

terminator_sized : Motorola.addr_size b'9' ≡ some 16
unfolding Motorola.addr_size
terminator_sized = refl

parse_record-short_example :
    Motorola.parse_record (Records.print_record b'9' 2 0 []) ≡ err cle_error
parse_record-short_example =
    parse_record-short b'9' 2 0 [] terminator_sized (omega arith) (omega arith) tt

-- A file of one byte at the address 256.
abbrev small_file : List ℕ
small_file = print_file ((256, 7 ∷ []) ∷ [])

abbrev small_state : IntelHex.HexState
small_state = record {
  regions = (256, 7 ∷ []) ∷ [];
  max_addr = 256;
  min_addr = 256;
  base_address = 0;
  entry = none;
  initial_cs_ip = none;
  initial_eip = none;
  got_base = false;
  got_entry = false;
  done = true;
}

abbrev loaded : Clemory
loaded = record {
  info = record {
    root = true;
    uninitialized = false;
    consecutive = true;
    min_addr = some (pos 256);
    max_addr = some (pos 257);
  };
  backers_list = raw (pos 256) byte_array (7 ∷ []) nil;
  pointer = pos 0;
}

small_file_loads :
    IntelHex.load_file (new true) small_file ≡ ok (small_state, loaded, (256, 1) ∷ [])
unfolding IntelHex.load_file new add_backer ◌+ℤ◌
small_file_loads = refl

load_file-IsExact_example :
    (256 ≡ least ((256, 7 ∷ []) ∷ [])) × (256 ≡ greatest ((256, 7 ∷ []) ∷ []))
load_file-IsExact_example =
    load_file-IsExact (new true) loaded small_file small_state ((256, 1) ∷ []) small_file_loads
