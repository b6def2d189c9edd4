-- ===== src/HexFormats/RoundTrip.antt =====
-- Intel HEX records that are written the way the format says, and read by `parse_record`.
use cle.Base.{
  ℕ, suc, ◌+◌, ◌-◌, ◌*◌, ◌/◌, ◌%◌, ◌<◌, ◌≡◌, refl, ap, ◌∙◌, Option, none, some, true, false, List,
  [], ◌∷◌, ◌++◌, ◌==◌, ltb, length, length-append, take, ok, arith,
}
use cle.HexFormats.{int_from, sum_bytes, without_last_two}
use cle.HexFormats.Digits.{
  AllBelow, AllBelow-append, digits_of, print_bytes, digit_run-print_digits, digits_of-AllBelow,
  length-digits_of, length-print_bytes, join_digits-digits_of, unhexlify-print_bytes, int_from-two,
  int_from-four, take-digits_of, drop-digits_of, take-print_bytes,
}
use cle.HexFormats.IntelHex
use cle.HexFormats.IntelHex.{match_line, match_digits, read_match, parse_record}

-- The two's complement of the sum of the bytes, in a byte.
abbrev pub check_byte : List ℕ → ℕ
check_byte bytes = (256 - sum_bytes bytes % 256) % 256

abbrev pub record_bytes : ℕ → ℕ → List ℕ → List ℕ
record_bytes kind addr bytes = length bytes ∷ addr / 256 ∷ addr % 256 ∷ kind ∷ bytes

abbrev pub print_record : ℕ → ℕ → List ℕ → List ℕ
print_record kind addr bytes =
    let body = record_bytes kind addr bytes in b':' ∷ print_bytes (body ++ check_byte body ∷ [])

-- A record without data has none, not an empty one.
abbrev pub present : List ℕ → Option (List ℕ)
present [] = none
present (b ∷ bs) = some (b ∷ bs)

abbrev pub map_digits : Option (List ℕ) → Option (List ℕ)
map_digits none = none
map_digits (some bs) = some (digits_of bs)

check_byte-lt : (bytes : List ℕ) → check_byte bytes < 256
check_byte-lt bytes = omega arith

record_bytes-AllBelow :
    (kind addr : ℕ) (bytes : List ℕ)
    → kind < 256
    → addr < 65536
    → length bytes < 256
    → AllBelow 256 bytes
    → AllBelow 256 (record_bytes kind addr bytes)
record_bytes-AllBelow kind addr bytes k a n h = (n, (omega arith, (omega arith, (k, h))))

payload_of-present :
    (bytes : List ℕ) (ck : ℕ)
    → IntelHex.payload_of (digits_of (bytes ++ ck ∷ [])) ≡ map_digits (present bytes)
payload_of-present [] ck = refl
payload_of-present (b ∷ bs) ck =
    let len = length-digits_of (b ∷ bs ++ ck ∷ []) in
    let total = length-append (b ∷ bs) (ck ∷ []) in
    let long : ltb (length (digits_of (b ∷ bs ++ ck ∷ []))) 4 ≡ false = ground arith in
    let e : length (digits_of (b ∷ bs ++ ck ∷ [])) - 2 ≡ 2 * length (b ∷ bs) = omega arith in
    rw (long, e) (ap some (take-digits_of (b ∷ bs) (ck ∷ [])))

cksum_of-digits_of :
    (bytes : List ℕ) (ck : ℕ)
    → IntelHex.cksum_of (digits_of (bytes ++ ck ∷ [])) ≡ digits_of (ck ∷ [])
cksum_of-digits_of [] ck = refl
cksum_of-digits_of (b ∷ bs) ck =
    let len = length-digits_of (b ∷ bs ++ ck ∷ []) in
    let total = length-append (b ∷ bs) (ck ∷ []) in
    let long : ltb (length (digits_of (b ∷ bs ++ ck ∷ []))) 4 ≡ false = ground arith in
    let e : length (digits_of (b ∷ bs ++ ck ∷ [])) - 2 ≡ 2 * length (b ∷ bs) = omega arith in
    rw (long, e) (drop-digits_of (b ∷ bs) (ck ∷ []))

abbrev matched : ℕ → ℕ → List ℕ → ℕ → IntelHex.Match
matched kind addr bytes ck = record {
  count = digits_of (length bytes ∷ []);
  addr = digits_of (addr / 256 ∷ addr % 256 ∷ []);
  kind = digits_of (kind ∷ []);
  payload = map_digits (present bytes);
  cksum = digits_of (ck ∷ []);
}

enough_digits :
    (n m : ℕ) → m ≡ 2 * (n + 1) → ltb (suc (suc (suc (suc (suc (suc (suc (suc m)))))))) 10 ≡ false
enough_digits n m e = ground arith

match_line-print_bytes :
    (kind addr : ℕ) (bytes : List ℕ) (ck : ℕ)
    → AllBelow 256 (record_bytes kind addr bytes)
    → ck < 256
    → match_line (b':' ∷ print_bytes (record_bytes kind addr bytes ++ ck ∷ []))
      ≡ some (matched kind addr bytes ck)
unfolding match_line
match_line-print_bytes kind addr bytes ck h small =
    let body = record_bytes kind addr bytes in
    let below = AllBelow-append 256 body (ck ∷ []) h (small, tt) in
    let run =
      digit_run-print_digits (digits_of (body ++ ck ∷ []))
        (digits_of-AllBelow (body ++ ck ∷ []) below) in
    let long =
      enough_digits (length bytes) (length (digits_of (bytes ++ ck ∷ [])))
        (length-digits_of (bytes ++ ck ∷ []) ∙ ap (λ n. 2 * n) (length-append bytes (ck ∷ []))) in
    rw (run, long, payload_of-present bytes ck, cksum_of-digits_of bytes ck) refl

read_payload-present :
    (bytes : List ℕ)
    → IntelHex.read_payload (length bytes) (map_digits (present bytes)) ≡ ok (present bytes)
read_payload-present [] = refl
read_payload-present (b ∷ bs) =
    let same : (length (b ∷ bs) == length (b ∷ bs)) ≡ true = ground arith in
    rw (join_digits-digits_of (b ∷ bs), same) refl

without_last_two-print_bytes :
    (c : ℕ) (body : List ℕ) (ck : ℕ)
    → without_last_two 1 (c ∷ print_bytes (body ++ ck ∷ [])) ≡ print_bytes body
without_last_two-print_bytes c body ck =
    let len = length-print_bytes (body ++ ck ∷ []) in
    let total = length-append body (ck ∷ []) in
    let e : suc (length (print_bytes (body ++ ck ∷ []))) - 1 - 2 ≡ 2 * length body = omega arith in
    ap (λ n. take n (print_bytes (body ++ ck ∷ []))) e ∙ take-print_bytes body (ck ∷ [])

read_match-matched :
    (kind addr : ℕ) (bytes : List ℕ)
    → AllBelow 256 (record_bytes kind addr bytes)
    → read_match
        (print_record kind addr bytes)
        (matched kind addr bytes (check_byte (record_bytes kind addr bytes)))
      ≡ ok (kind, addr, present bytes)
unfolding read_match
read_match-matched kind addr bytes h =
    let body = record_bytes kind addr bytes in
    let ck = check_byte body in
    let cut = without_last_two-print_bytes b':' body ck in
    let right : ((256 - sum_bytes body % 256) % 256 == int_from 0 (digits_of (ck ∷ []))) ≡ true =
      ground (arith, int_from-two ck) in
    rw
      (
        cut,
        unhexlify-print_bytes body h,
        right,
        int_from-two (length bytes),
        read_payload-present bytes,
        int_from-two kind,
        int_from-four addr,
      )
      refl

parse_record-matched :
    (line : List ℕ) (m : IntelHex.Match)
    → match_line line ≡ some m
    → parse_record line ≡ read_match line m
unfolding parse_record
parse_record-matched line m e = rw (e, parse_record) refl

-- An Intel HEX record that is written out from a type, an address of 16 bits and at most 255
-- bytes, with its checksum, is read as these, where no data is `None`.
pub parse_record-print_record :
    (kind addr : ℕ) (bytes : List ℕ)
    → kind < 256
    → addr < 65536
    → length bytes < 256
    → AllBelow 256 bytes
    → parse_record (print_record kind addr bytes) ≡ ok (kind, addr, present bytes)
parse_record-print_record kind addr bytes k a n h =
    let below = record_bytes-AllBelow kind addr bytes k a n h in
    let ck = check_byte (record_bytes kind addr bytes) in
    let matches =
      match_line-print_bytes kind addr bytes ck below
        (check_byte-lt (record_bytes kind addr bytes)) in
    parse_record-matched (print_record kind addr bytes) (matched kind addr bytes ck) matches
    ∙ read_match-matched kind addr bytes below
