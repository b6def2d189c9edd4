-- ===== src/MachO/RoundTrip.antt =====
-- The reader of unsigned numbers against their encoding.
use cle.Base.{
  ℕ, zero, suc, ◌+◌, ◌*◌, ◌/◌, ◌%◌, ◌^◌, ◌<◌, ◌≡◌, ap, ◌∙◌, sym, true, false, List, [], ◌∷◌, ◌++◌,
  length, ltb, if◌then◌else◌, arith, inl, inr, Bool-cases,
}
use native.Mathlib.Omega.{pow_step}
use native.Mathlib.Nat.{add-mul, mul_assoc, mod-add-div'}
use cle.MachO.Leb.{is_last, uleb_loop, read_uleb}

-- The number in groups of seven bits, lowest first, in at most `suc rounds` bytes.
unfoldable pub encode_uleb : ℕ → ℕ → List ℕ
encode_uleb zero n = (n % 128) ∷ []
encode_uleb (suc rounds) n =
    let more = encode_uleb rounds (n / 128) in if ltb n 128 then n ∷ [] else (n % 128 + 128) ∷ more

shift_seven : (s : ℕ) → 2 ^ (s + 7) ≡ 128 * 2 ^ s
shift_seven s =
    let e : s + 7 ≡ suc (suc (suc (suc (suc (suc (suc s)))))) = omega arith in
    ap (λ k. 2 ^ k) e
    ∙ omega (
      arith,
      pow_step 2 s,
      pow_step 2 (suc s),
      pow_step 2 (suc (suc s)),
      pow_step 2 (suc (suc (suc s))),
      pow_step 2 (suc (suc (suc (suc s)))),
      pow_step 2 (suc (suc (suc (suc (suc s))))),
      pow_step 2 (suc (suc (suc (suc (suc (suc s)))))),
    )

low_byte : (b : ℕ) → b < 128 → (is_last b ≡ true) × (b % 128 ≡ b)
low_byte b h = (ground arith, omega arith)

high_byte : (r : ℕ) → r < 128 → (is_last (r + 128) ≡ false) × ((r + 128) % 128 ≡ r)
high_byte r h = (ground arith, omega arith)

group : (n p : ℕ) → n % 128 * p + n / 128 * (128 * p) ≡ n * p
group n p =
    ap (λ k. n % 128 * p + k) (sym (mul_assoc (n / 128) 128 p))
    ∙ sym (add-mul (n % 128) (n / 128 * 128) p)
    ∙ ap (λ k. k * p) (mod-add-div' n 128)

both_eq : {a a' b b' : ℕ} → a ≡ a' → b ≡ b' → ◌≡◌ {A = ℕ × ℕ} (a, b) (a', b')
both_eq {a} {a'} {b} {b'} e f = ap (λ x. (x, b)) e ∙ ap (λ y. (a', y)) f

uleb_loop-encode_uleb :
    (rounds n shift result count : ℕ) (rest : List ℕ)
    → n < 128 ^ suc rounds
    → uleb_loop (encode_uleb rounds n ++ rest) shift result count
      ≡ (result + n * 2 ^ shift, count + length (encode_uleb rounds n))
unfolding uleb_loop encode_uleb
uleb_loop-encode_uleb zero n shift result count rest h =
    let (last, whole) = low_byte (n % 128) (omega arith) in
    let small : n % 128 ≡ n = omega arith in
    rw (last, whole, small) (ap (λ k. (result + n * 2 ^ shift, k)) (omega arith))
uleb_loop-encode_uleb (suc rounds) n shift result count rest h = elim (Bool-cases (ltb n 128)) [
  | inl small ↦
      let (last, whole) = low_byte n (ground arith) in
      rw (small, last, whole) (ap (λ k. (result + n * 2 ^ shift, k)) (omega arith))
  | inr large ↦
      let (more, whole) = high_byte (n % 128) (omega arith) in
      let rec =
        uleb_loop-encode_uleb rounds (n / 128) (shift + 7) (result + n % 128 * 2 ^ shift)
          (suc count) rest (omega (arith, pow_step 128 (suc rounds))) in
      rw (large, more, whole, rec)
        (both_eq (omega (arith, ap (λ k. n / 128 * k) (shift_seven shift), group n (2 ^ shift)))
          (omega arith))
]

-- A number below 2 ^ (7 * (rounds + 1)), encoded and put in front of any bytes, is read back, with
-- the length of its encoding.
pub read_uleb-encode_uleb :
    (rounds n : ℕ) (rest : List ℕ)
    → n < 128 ^ suc rounds
    → read_uleb (encode_uleb rounds n ++ rest) 0 ≡ (n, length (encode_uleb rounds n))
unfolding read_uleb
read_uleb-encode_uleb rounds n rest h =
    uleb_loop-encode_uleb rounds n 0 0 0 rest h ∙ both_eq (omega arith) (omega arith)
