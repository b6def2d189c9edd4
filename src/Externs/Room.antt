-- ===== src/Externs/Room.antt =====
-- One call of `_allocate`.
use Prim.Native.Nat.{bit_or}
use cle.Base.{
  ℕ, zero, suc, ◌+◌, ◌-◌, ◌*◌, ◌/◌, ◌%◌, ◌^◌, ◌≤◌, ◌<◌, ◌≡◌, refl, ap, ◌∙◌, sym, Bool, true, false,
  not, Option, none, some, leb, max, if◌then◌else◌, arith,
}
use cle.Base.Splits.{bit_or_split, bit_or_apart}
use cle.Utils.Align.{align_up, align_up_bounds}
use cle.Externs.{Extern, start_of, limit_of, grow, advance, or_thumb, try_allocate}

bit_or_zero : (a : ℕ) → bit_or a 0 ≡ a
bit_or_zero a =
    let whole : a * 2 ^ 0 ≡ a = omega arith in
    ap (λ n. bit_or n 0) (sym whole) ∙ bit_or_apart 0 a 0 (omega arith) ∙ omega arith

last_bit : (r : ℕ) → r < 2 → bit_or r 1 ≡ 1
last_bit zero h = refl
last_bit (suc zero) h = refl
last_bit (suc (suc r)) h = absurd (omega arith)

bit_or_one : (a : ℕ) → bit_or a 1 ≡ a / 2 * 2 + 1
bit_or_one a =
    let parts : a ≡ a / 2 * 2 ^ 1 + a % 2 = omega arith in
    let one : 1 ≡ 0 * 2 ^ 1 + 1 = omega arith in
    ap (λ n. bit_or n 1) parts
    ∙ ap (bit_or (a / 2 * 2 ^ 1 + a % 2)) one
    ∙ bit_or_split 1 (a / 2) (a % 2) 0 1 (omega arith) (omega arith)
    ∙ ap (λ n. n * 2 ^ 1 + bit_or (a % 2) 1) (bit_or_zero (a / 2))
    ∙ ap (λ n. a / 2 * 2 ^ 1 + n) (last_bit (a % 2) (omega arith))
    ∙ omega arith

pub or_thumb-bounds : (thumb : Bool) (a : ℕ) → (a ≤ or_thumb thumb a) × (or_thumb thumb a ≤ a + 1)
or_thumb-bounds true a = (omega (arith, bit_or_one a), omega (arith, bit_or_one a))
or_thumb-bounds false a = (omega (arith, bit_or_zero a), omega (arith, bit_or_zero a))

or_thumb-false : (a : ℕ) → or_thumb false a ≡ a
or_thumb-false a = bit_or_zero a

-- What `_allocate` does, by its result.
abbrev pub IsGiven : ℕ → ℕ → Bool → Bool → Extern → Option ℕ × Extern → Type 0
IsGiven size alignment thumb tls e (none, e') =
    (e.is_mapped ≡ true) × (e' ≡ e) × (limit_of tls e ≤ start_of tls e + alignment + size)
IsGiven size alignment thumb tls e (some addr, e') =
    (start_of tls e ≤ addr)
    × (thumb ≡ false → addr % alignment ≡ 0)
    × (start_of tls e' ≡ addr + size)
    × (addr + size ≤ limit_of tls e')
    × (limit_of tls e ≤ limit_of tls e')
    × (e.is_mapped ≡ true → addr + size < limit_of tls e)
    × (limit_of tls e' ≡ max (limit_of tls e) (addr + size))
    × (e.is_mapped ≡ true → limit_of tls e' ≡ limit_of tls e)
    × (start_of (not tls) e' ≡ start_of (not tls) e)
    × (limit_of (not tls) e' ≡ limit_of (not tls) e)

start_of-advance : (tls : Bool) (n : ℕ) (e : Extern) → start_of tls (advance tls n e) ≡ n
start_of-advance true n e = refl
start_of-advance false n e = refl

limit_of-advance :
    (tls : Bool) (n : ℕ) (e : Extern) → limit_of tls (advance tls n e) ≡ limit_of tls e
limit_of-advance true n e = refl
limit_of-advance false n e = refl

limit_of-grow : (tls : Bool) (n : ℕ) (e : Extern) → limit_of tls (grow tls n e) ≡ limit_of tls e + n
limit_of-grow true n e = refl
limit_of-grow false n e = refl

others-kept :
    (tls : Bool) (n m : ℕ) (e : Extern)
    → (start_of (not tls) (advance tls n (grow tls m e)) ≡ start_of (not tls) e)
      × (limit_of (not tls) (advance tls n (grow tls m e)) ≡ limit_of (not tls) e)
      × (start_of (not tls) (advance tls n e) ≡ start_of (not tls) e)
      × (limit_of (not tls) (advance tls n e) ≡ limit_of (not tls) e)
others-kept true n m e = (refl, refl, refl, refl)
others-kept false n m e = (refl, refl, refl, refl)

multiple : (thumb : Bool) (a m : ℕ) → a % m ≡ 0 → thumb ≡ false → or_thumb thumb a % m ≡ 0
multiple true a m h e = absurd (cc)
multiple false a m h e = ap (λ n. n % m) (bit_or_zero a) ∙ h

by_cases {ℓ} :
    {A : Type ℓ} (P : A → Type 0) (full mapped : Bool) (x y z : A)
    → (full ≡ true → mapped ≡ true → P x)
    → (full ≡ true → mapped ≡ false → P y)
    → (full ≡ false → P z)
    → P (if full then if mapped then x else y else z)
by_cases P true true x y z f g h = f refl refl
by_cases P true false x y z f g h = g refl refl
by_cases P false mapped x y z f g h = h refl

leb-le : (a b : ℕ) → leb a b ≡ true → a ≤ b
leb-le a b h = ground arith

leb-lt : (a b : ℕ) → leb a b ≡ false → b < a
leb-lt a b h = ground arith

-- A call of `_allocate`, to a multiple of a power of two, gives an address that is such a multiple,
-- but for a Thumb symbol, and not below what was given out before; what is given out then ends with
-- the new range. The room holds the range then: it grows to the end of the range if it was less, and
-- not at all once the object is mapped, when the range has to end before the room does. Otherwise the
-- call gives nothing, which it does of mapped objects only, and changes nothing, and then the range
-- and one alignment more reach the end of the room. The room of the other kind stays as it is.
pub try_allocate-IsGiven :
    (size k : ℕ) (thumb tls : Bool) (e : Extern)
    → IsGiven size (2 ^ k) thumb tls e (try_allocate size (2 ^ k) thumb tls e)
unfolding try_allocate
try_allocate-IsGiven size k thumb tls e =
    let start = start_of tls e in
    let limit = limit_of tls e in
    let (above, below, aligned) = align_up_bounds start k in
    let addr = or_thumb thumb (align_up start (2 ^ k)) in
    let (not_less, at_most) = or_thumb-bounds thumb (align_up start (2 ^ k)) in
    let next = addr + size in
    let wider = grow tls (next - limit) e in
    let (s1, l1, s2, l2) = others-kept tls next (next - limit) e in
    let grown = limit_of-advance tls next wider ∙ limit_of-grow tls (next - limit) e in
    let kept = limit_of-advance tls next e in
    by_cases (IsGiven size (2 ^ k) thumb tls e) (leb limit next) e.is_mapped (none, e)
      (some addr, advance tls next wider) (some addr, advance tls next e)
      (λ full mapped. (mapped, refl, omega (arith, leb-le limit next full)))
      (λ full free. (
        omega arith,
        multiple thumb (align_up start (2 ^ k)) (2 ^ k) aligned,
        start_of-advance tls next wider,
        omega (arith, grown, leb-le limit next full),
        omega (arith, grown),
        λ mapped. absurd (cc),
        omega (arith, grown, leb-le limit next full),
        λ mapped. absurd (cc),
        s1,
        l1,
      ))
      (λ fits. (
        omega arith,
        multiple thumb (align_up start (2 ^ k)) (2 ^ k) aligned,
        start_of-advance tls next e,
        omega (arith, kept, leb-lt limit next fits),
        omega (arith, kept),
        λ mapped. leb-lt limit next fits,
        omega (arith, kept, leb-lt limit next fits),
        λ mapped. kept,
        s2,
        l2,
      ))
