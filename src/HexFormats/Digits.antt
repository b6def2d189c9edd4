-- ===== src/HexFormats/Digits.antt =====
-- Bytes written as hexadecimal digits, and read again.
use cle.Base.{
  ℕ, suc, ◌+◌, ◌*◌, ◌/◌, ◌%◌, ◌<◌, ◌≡◌, refl, ap, ◌∙◌, some, true, List, [], ◌∷◌, ◌++◌, ◌==◌, ltb,
  length, take, drop, if◌then◌else◌, ok, arith,
}
use cle.HexFormats.{digit_of, digit_run, int_from, join_digits, unhexlify}

abbrev pub AllBelow : ℕ → List ℕ → Type 0
AllBelow n [] = Unit
AllBelow n (x ∷ xs) = (x < n) × AllBelow n xs

-- The upper-case digit of a value, the digits of bytes, and bytes as text.
abbrev pub digit_char : ℕ → ℕ
digit_char d = if ltb d 10 then d + b'0' else d + 55

abbrev pub digits_of : List ℕ → List ℕ
digits_of [] = []
digits_of (b ∷ bs) = b / 16 ∷ b % 16 ∷ digits_of bs

abbrev pub print_digits : List ℕ → List ℕ
print_digits [] = []
print_digits (d ∷ ds) = digit_char d ∷ print_digits ds

abbrev pub print_bytes : List ℕ → List ℕ
print_bytes bs = print_digits (digits_of bs)

digit_of-digit_char : (d : ℕ) → d < 16 → digit_of (digit_char d) ≡ some d
unfolding digit_of
digit_of-digit_char d h = ground arith

pub digit_run-print_digits : (ds : List ℕ) → AllBelow 16 ds → digit_run (print_digits ds) ≡ ds
unfolding digit_run
digit_run-print_digits [] h = refl
digit_run-print_digits (d ∷ ds) (h, hs) =
    rw (digit_of-digit_char d h, digit_run-print_digits ds hs) refl

pub digits_of-AllBelow : (bs : List ℕ) → AllBelow 256 bs → AllBelow 16 (digits_of bs)
digits_of-AllBelow [] h = tt
digits_of-AllBelow (b ∷ bs) (h, hs) = (omega arith, (omega arith, digits_of-AllBelow bs hs))

pub AllBelow-append :
    (n : ℕ) (xs ys : List ℕ) → AllBelow n xs → AllBelow n ys → AllBelow n (xs ++ ys)
AllBelow-append n [] ys h k = k
AllBelow-append n (x ∷ xs) ys (h, hs) k = (h, AllBelow-append n xs ys hs k)

pub digits_of-append : (xs ys : List ℕ) → digits_of (xs ++ ys) ≡ digits_of xs ++ digits_of ys
digits_of-append [] ys = refl
digits_of-append (x ∷ xs) ys = ap (λ zs. x / 16 ∷ x % 16 ∷ zs) (digits_of-append xs ys)

pub print_digits-append :
    (xs ys : List ℕ) → print_digits (xs ++ ys) ≡ print_digits xs ++ print_digits ys
print_digits-append [] ys = refl
print_digits-append (x ∷ xs) ys = ap (λ zs. digit_char x ∷ zs) (print_digits-append xs ys)

pub length-digits_of : (bs : List ℕ) → length (digits_of bs) ≡ 2 * length bs
length-digits_of [] = omega arith
length-digits_of (b ∷ bs) = omega (arith, length-digits_of bs)

pub length-print_digits : (ds : List ℕ) → length (print_digits ds) ≡ length ds
length-print_digits [] = refl
length-print_digits (d ∷ ds) = ap suc (length-print_digits ds)

pub length-print_bytes : (bs : List ℕ) → length (print_bytes bs) ≡ 2 * length bs
length-print_bytes bs = length-print_digits (digits_of bs) ∙ length-digits_of bs

pub join_digits-digits_of : (bs : List ℕ) → join_digits (digits_of bs) ≡ ok bs
unfolding join_digits
join_digits-digits_of [] = refl
join_digits-digits_of (b ∷ bs) =
    let e : b / 16 * 16 + b % 16 ≡ b = omega arith in rw (join_digits-digits_of bs, e) refl

pub unhexlify-print_bytes : (bs : List ℕ) → AllBelow 256 bs → unhexlify (print_bytes bs) ≡ ok bs
unfolding unhexlify
unhexlify-print_bytes bs h =
    let run = digit_run-print_digits (digits_of bs) (digits_of-AllBelow bs h) in
    let same : (length (digits_of bs) == length (print_bytes bs)) ≡ true =
      ground (arith, length-print_digits (digits_of bs)) in
    rw (run, same, join_digits-digits_of bs) refl

pub int_from-two : (b : ℕ) → int_from 0 (b / 16 ∷ b % 16 ∷ []) ≡ b
int_from-two b = omega arith

pub int_from-four :
    (a : ℕ) → int_from 0 (a / 256 / 16 ∷ a / 256 % 16 ∷ a % 256 / 16 ∷ a % 256 % 16 ∷ []) ≡ a
int_from-four a = omega arith

-- The first digits are those of the first bytes.
pub take-digits_of : (xs ys : List ℕ) → take (2 * length xs) (digits_of (xs ++ ys)) ≡ digits_of xs
take-digits_of [] ys = refl
take-digits_of (x ∷ xs) ys =
    let e : 2 * suc (length xs) ≡ suc (suc (2 * length xs)) = omega arith in
    ap (λ n. take n (digits_of (x ∷ xs ++ ys))) e
    ∙ ap (λ zs. x / 16 ∷ x % 16 ∷ zs) (take-digits_of xs ys)

pub drop-digits_of : (xs ys : List ℕ) → drop (2 * length xs) (digits_of (xs ++ ys)) ≡ digits_of ys
drop-digits_of [] ys = refl
drop-digits_of (x ∷ xs) ys =
    let e : 2 * suc (length xs) ≡ suc (suc (2 * length xs)) = omega arith in
    ap (λ n. drop n (digits_of (x ∷ xs ++ ys))) e ∙ drop-digits_of xs ys

-- The same for the text.
pub take-print_bytes :
    (xs ys : List ℕ) → take (2 * length xs) (print_bytes (xs ++ ys)) ≡ print_bytes xs
take-print_bytes [] ys = refl
take-print_bytes (x ∷ xs) ys =
    let e : 2 * suc (length xs) ≡ suc (suc (2 * length xs)) = omega arith in
    ap (λ n. take n (print_bytes (x ∷ xs ++ ys))) e
    ∙ ap (λ zs. digit_char (x / 16) ∷ digit_char (x % 16) ∷ zs) (take-print_bytes xs ys)
