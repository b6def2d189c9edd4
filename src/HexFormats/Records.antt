-- ===== src/HexFormats/Records.antt =====
-- Motorola S-records that are written the way the format says, and read by `parse_record`.
use mathlib.Core.List.{append_assoc}
use cle.Base.{
  ℕ, zero, suc, ◌+◌, ◌-◌, ◌*◌, ◌/◌, ◌%◌, ◌^◌, ◌<◌, ◌≤◌, ◌≡◌, refl, ap, ◌∙◌, sym, none, some, true,
  false, List, [], ◌∷◌, ◌++◌, ◌==◌, ltb, length, length-append, take, drop, ok, err, cle_error,
  arith,
}
use cle.HexFormats.{digit_run, int_from, sum_bytes, without_last_two}
use cle.HexFormats.Digits.{
  AllBelow, AllBelow-append, digits_of, print_bytes, digit_run-print_digits, digits_of-AllBelow,
  digits_of-append, length-digits_of, length-print_bytes, join_digits-digits_of,
  unhexlify-print_bytes, int_from-two, take-digits_of, drop-digits_of, take-print_bytes,
}
use cle.HexFormats.Motorola.{
  Match, addr_size, payload_len, match_digits, read_payload, read_match, read_matched, parse_sized,
  parse_record,
}

-- A number as so many bytes, the most significant first.
abbrev pub to_bytes : ℕ → ℕ → List ℕ
to_bytes zero a = []
to_bytes (suc k) a = to_bytes k (a / 256) ++ a % 256 ∷ []

-- The complement of the sum of the bytes.
abbrev pub check_byte : List ℕ → ℕ
check_byte bytes = 0xFF - sum_bytes bytes % 256

-- A record with an address of `k` bytes: its count is of all that stands behind it.
abbrev pub record_bytes : ℕ → ℕ → List ℕ → List ℕ
record_bytes k addr bytes = (k + 1 + length bytes) ∷ to_bytes k addr ++ bytes

abbrev pub print_record : ℕ → ℕ → ℕ → List ℕ → List ℕ
print_record c k addr bytes =
    let body = record_bytes k addr bytes in b'S' ∷ c ∷ print_bytes (body ++ check_byte body ∷ [])

length-to_bytes : (k a : ℕ) → length (to_bytes k a) ≡ k
length-to_bytes zero a = refl
length-to_bytes (suc k) a =
    omega (arith, length-append (to_bytes k (a / 256)) (a % 256 ∷ []), length-to_bytes k (a / 256))

to_bytes-AllBelow : (k a : ℕ) → AllBelow 256 (to_bytes k a)
to_bytes-AllBelow zero a = tt
to_bytes-AllBelow (suc k) a =
    AllBelow-append 256 (to_bytes k (a / 256)) (a % 256 ∷ []) (to_bytes-AllBelow k (a / 256))
      (omega arith, tt)

int_from-append : (n : ℕ) (xs ys : List ℕ) → int_from n (xs ++ ys) ≡ int_from (int_from n xs) ys
int_from-append n [] ys = refl
int_from-append n (x ∷ xs) ys = int_from-append (n * 16 + x) xs ys

int_from-to_bytes : (k a : ℕ) → a < 256 ^ k → int_from 0 (digits_of (to_bytes k a)) ≡ a
int_from-to_bytes zero a h = omega arith
int_from-to_bytes (suc k) a h =
    let less : a / 256 < 256 ^ k = omega arith in
    let low = a % 256 / 16 ∷ a % 256 % 16 ∷ [] in
    let last : int_from (a / 256) low ≡ a = omega arith in
    ap (int_from 0) (digits_of-append (to_bytes k (a / 256)) (a % 256 ∷ []))
    ∙ int_from-append 0 (digits_of (to_bytes k (a / 256))) low
    ∙ ap (λ n. int_from n low) (int_from-to_bytes k (a / 256) less)
    ∙ last

abbrev matched : ℕ → ℕ → List ℕ → ℕ → Match
matched k addr bytes ck = record {
  count = digits_of ((k + 1 + length bytes) ∷ []);
  addr = digits_of (to_bytes k addr);
  payload = digits_of bytes;
  cksum = digits_of (ck ∷ []);
}

drop-to_bytes :
    (k addr : ℕ) (bytes : List ℕ)
    → drop (2 * k) (digits_of (to_bytes k addr ++ bytes)) ≡ digits_of bytes
drop-to_bytes k addr bytes =
    ap (λ n. drop (2 * n) (digits_of (to_bytes k addr ++ bytes))) (sym (length-to_bytes k addr))
    ∙ drop-digits_of (to_bytes k addr) bytes

take-to_bytes :
    (k addr : ℕ) (bytes : List ℕ)
    → take (2 * k) (digits_of (to_bytes k addr ++ bytes)) ≡ digits_of (to_bytes k addr)
take-to_bytes k addr bytes =
    ap (λ n. take (2 * n) (digits_of (to_bytes k addr ++ bytes))) (sym (length-to_bytes k addr))
    ∙ take-digits_of (to_bytes k addr) bytes

payload_len-digits_of :
    (bytes : List ℕ) (ck : ℕ)
    → length bytes ≤ 32
    → payload_len (length (digits_of (bytes ++ ck ∷ []))) ≡ 2 * length bytes
payload_len-digits_of bytes ck h =
    omega (arith, length-digits_of (bytes ++ ck ∷ []), length-append bytes (ck ∷ []))

-- A match, from the parts of the digits.
match_digits-parts :
    {us ps cs : List ℕ} (width d e : ℕ) (tail rest : List ℕ) (n : ℕ)
    → take width tail ≡ us
    → drop width tail ≡ rest
    → payload_len (length rest) ≡ n
    → take n rest ≡ ps
    → drop n rest ≡ cs
    → ltb (suc (suc (length tail))) (8 + width) ≡ false
    → match_digits width (d ∷ e ∷ tail)
      ≡ some (record { count = d ∷ e ∷ []; addr = us; payload = ps; cksum = take 2 cs })
match_digits-parts width d e tail rest n us_eq rest_eq n_eq ps_eq cs_eq long =
    let two : 2 + width ≡ suc (suc width) = omega arith in
    rw (long, two, rest_eq, n_eq, us_eq, ps_eq, cs_eq) refl

match_digits-digits_of :
    (k addr : ℕ) (bytes : List ℕ) (ck : ℕ)
    → 2 ≤ length bytes
    → length bytes ≤ 32
    → match_digits
        (2 * k)
        (digits_of ((k + 1 + length bytes) ∷ to_bytes k addr ++ (bytes ++ ck ∷ [])))
      ≡ some (matched k addr bytes ck)
match_digits-digits_of k addr bytes ck low high =
    let tail = digits_of (to_bytes k addr ++ (bytes ++ ck ∷ [])) in
    let len = length-digits_of (to_bytes k addr ++ (bytes ++ ck ∷ [])) in
    let parts = length-append (to_bytes k addr) (bytes ++ ck ∷ []) in
    let width = length-to_bytes k addr in
    let ends = length-append bytes (ck ∷ []) in
    let long : ltb (suc (suc (length tail))) (8 + 2 * k) ≡ false = ground arith in
    match_digits-parts (2 * k) ((k + 1 + length bytes) / 16) ((k + 1 + length bytes) % 16) tail
      (digits_of (bytes ++ ck ∷ [])) (2 * length bytes) (take-to_bytes k addr (bytes ++ ck ∷ []))
      (drop-to_bytes k addr (bytes ++ ck ∷ [])) (payload_len-digits_of bytes ck high)
      (take-digits_of bytes (ck ∷ [])) (drop-digits_of bytes (ck ∷ [])) long

without_last_two-print_bytes :
    (c d : ℕ) (body : List ℕ) (ck : ℕ)
    → without_last_two 2 (c ∷ d ∷ print_bytes (body ++ ck ∷ [])) ≡ print_bytes body
without_last_two-print_bytes c d body ck =
    let len = length-print_bytes (body ++ ck ∷ []) in
    let total = length-append body (ck ∷ []) in
    let e : suc (suc (length (print_bytes (body ++ ck ∷ [])))) - 2 - 2 ≡ 2 * length body =
      omega arith in
    ap (λ n. take n (print_bytes (body ++ ck ∷ []))) e ∙ take-print_bytes body (ck ∷ [])

read_payload-digits_of :
    (k : ℕ) (bytes : List ℕ)
    → read_payload (k + 1 + length bytes) (8 * k) (digits_of bytes) ≡ ok bytes
read_payload-digits_of k bytes =
    let same : (k + 1 + length bytes == 8 * k / 8 + 1 + length bytes) ≡ true = ground arith in
    rw (join_digits-digits_of bytes, same) refl

read_match-matched :
    (c k addr : ℕ) (bytes : List ℕ)
    → AllBelow 256 (record_bytes k addr bytes)
    → addr < 256 ^ k
    → read_match
        (c - b'0')
        (8 * k)
        (print_record c k addr bytes)
        (matched k addr bytes (check_byte (record_bytes k addr bytes)))
      ≡ ok (c - b'0', addr, bytes)
unfolding read_match
read_match-matched c k addr bytes h fits =
    let body = record_bytes k addr bytes in
    let ck = check_byte body in
    let cut = without_last_two-print_bytes b'S' c body ck in
    let right : (0xFF - sum_bytes body % 256 == int_from 0 (digits_of (ck ∷ []))) ≡ true =
      ground (arith, int_from-two ck) in
    rw
      (
        cut,
        unhexlify-print_bytes body h,
        right,
        int_from-two (k + 1 + length bytes),
        read_payload-digits_of k bytes,
        int_from-to_bytes k addr fits,
      )
      refl

parse_sized-matched :
    (size width c : ℕ) (ds text : List ℕ) (m : Match)
    → size / 4 ≡ width
    → digit_run text ≡ ds
    → match_digits width ds ≡ some m
    → parse_sized size b'S' c text ≡ read_match (c - b'0') size (b'S' ∷ c ∷ text) m
parse_sized-matched size width c ds text m e run matches =
    ap (read_matched (c - b'0') size (b'S' ∷ c ∷ text))
      (ap (λ w. match_digits w (digit_run text)) e ∙ ap (match_digits width) run ∙ matches)

parse_record-sized :
    (c size d : ℕ) (text : List ℕ)
    → addr_size c ≡ some size
    → parse_record (d ∷ c ∷ text) ≡ parse_sized size d c text
unfolding parse_record
parse_record-sized c size d text e = rw (e, parse_record) refl

body-AllBelow :
    (k addr : ℕ) (bytes : List ℕ)
    → k + 1 + length bytes < 256
    → AllBelow 256 bytes
    → AllBelow 256 (record_bytes k addr bytes)
body-AllBelow k addr bytes few h =
    (few, AllBelow-append 256 (to_bytes k addr) bytes (to_bytes-AllBelow k addr) h)

-- The digits that the pattern is tried on.
run-print_record :
    (k addr : ℕ) (bytes : List ℕ)
    → AllBelow 256 (record_bytes k addr bytes)
    → digit_run
        (print_bytes (record_bytes k addr bytes ++ check_byte (record_bytes k addr bytes) ∷ []))
      ≡ digits_of (record_bytes k addr bytes ++ check_byte (record_bytes k addr bytes) ∷ [])
run-print_record k addr bytes h =
    let body = record_bytes k addr bytes in
    let all = body ++ check_byte body ∷ [] in
    digit_run-print_digits (digits_of all)
      (digits_of-AllBelow all (AllBelow-append 256 body (check_byte body ∷ []) h (omega arith, tt)))

-- An S-record that is written out with a type, an address of that type's width and 2 to 32 bytes,
-- with its checksum, is read as these.
pub parse_record-print_srec :
    (c k addr : ℕ) (bytes : List ℕ)
    → addr_size c ≡ some (8 * k)
    → addr < 256 ^ k
    → 2 ≤ length bytes
    → length bytes ≤ 32
    → k < 8
    → AllBelow 256 bytes
    → parse_record (print_record c k addr bytes) ≡ ok (c - b'0', addr, bytes)
parse_record-print_srec c k addr bytes typed fits low high small h =
    let below = body-AllBelow k addr bytes (omega arith) h in
    let ck = check_byte (record_bytes k addr bytes) in
    let whole = append_assoc ((k + 1 + length bytes) ∷ to_bytes k addr) bytes (ck ∷ []) in
    parse_record-sized c (8 * k) b'S' (print_bytes (record_bytes k addr bytes ++ ck ∷ [])) typed
    ∙ parse_sized-matched (8 * k) (2 * k) c (digits_of (record_bytes k addr bytes ++ ck ∷ []))
        (print_bytes (record_bytes k addr bytes ++ ck ∷ [])) (matched k addr bytes ck) (omega arith)
        (run-print_record k addr bytes below)
        (ap (λ xs. match_digits (2 * k) (digits_of xs)) whole
          ∙ match_digits-digits_of k addr bytes ck low high)
    ∙ read_match-matched c k addr bytes below fits

match_digits-short :
    (width : ℕ) (ds : List ℕ) → length ds < 8 + width → match_digits width ds ≡ none
match_digits-short width ds h =
    let short : ltb (length ds) (8 + width) ≡ true = ground arith in rw short refl

parse_sized-short :
    (size width c : ℕ) (ds text : List ℕ)
    → size / 4 ≡ width
    → digit_run text ≡ ds
    → match_digits width ds ≡ none
    → parse_sized size b'S' c text ≡ err cle_error
parse_sized-short size width c ds text e run misses =
    ap (read_matched (c - b'0') size (b'S' ∷ c ∷ text))
      (ap (λ w. match_digits w (digit_run text)) e ∙ ap (match_digits width) run ∙ misses)

-- An S-record that is written out with fewer than two bytes is refused, whatever its type, as the
-- records that end an S-record file are, which hold an address and no bytes.
pub parse_record-short :
    (c k addr : ℕ) (bytes : List ℕ)
    → addr_size c ≡ some (8 * k)
    → length bytes < 2
    → k < 8
    → AllBelow 256 bytes
    → parse_record (print_record c k addr bytes) ≡ err cle_error
parse_record-short c k addr bytes typed short small h =
    let below = body-AllBelow k addr bytes (omega arith) h in
    let ck = check_byte (record_bytes k addr bytes) in
    let all = record_bytes k addr bytes ++ ck ∷ [] in
    let len = length-digits_of all in
    let parts = length-append (record_bytes k addr bytes) (ck ∷ []) in
    let inner = length-append (to_bytes k addr) bytes in
    let width = length-to_bytes k addr in
    parse_record-sized c (8 * k) b'S' (print_bytes all) typed
    ∙ parse_sized-short (8 * k) (2 * k) c (digits_of all) (print_bytes all) (omega arith)
        (run-print_record k addr bytes below)
        (match_digits-short (2 * k) (digits_of all) (omega arith))
