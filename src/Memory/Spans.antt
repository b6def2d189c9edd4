-- ===== src/Memory/Spans.antt =====
-- The bytes of a memory over a span of addresses, as far as they are mapped.
use cle.Base.{
  ℕ, zero, suc, ◌-◌, ◌≤◌, ◌<◌, ◌≡◌, refl, ap, ◌∙◌, true, Option, none, some, List, [], ◌∷◌, ◌++◌,
  length, take, drop, ltb, get_elem?, get_elem?-some, arith, inl, inr, Bool-cases,
}
use cle.Base.Int.{ℤ, pos, ◌+ℤ◌, ◌-ℤ◌, ◌≤ℤ◌, ◌<ℤ◌, int_laws}
use cle.Memory.Backers.{Segment}
use cle.Memory.Items.{in_buffer}
use cle.Memory.Bytes.{byte_in_outside, byte_in, byte_at, finish}
use cle.Memory.Runs.{Ordered}

abbrev pub unless_none : Option ℕ → List ℕ → List ℕ
unless_none none xs = []
unless_none (some b) xs = b ∷ xs

-- The bytes from an address on, up to a count, until the first address that has none.
unfoldable pub run_bytes : ℕ → ℤ → List Segment → List ℕ
run_bytes zero addr ss = []
run_bytes (suc n) addr ss = unless_none (byte_at addr ss) (run_bytes n (addr +ℤ pos 1) ss)

pub byte_at_before :
    (addr k : ℤ) (ss : List Segment) → addr <ℤ k → Ordered k ss → byte_at addr ss ≡ none
unfolding byte_at byte_in
byte_at_before addr k [] lt o = refl
byte_at_before addr k (s ∷ ss) lt o =
    let rest = byte_at_before addr (finish s) ss (omega int_laws) o.2 in
    rw
      (byte_in_outside s.start (finish s) addr s (omega arith) (omega arith) (grind int_laws), rest)

pub byte_at_past :
    (addr : ℤ) (s : Segment) (ss : List Segment)
    → finish s ≤ℤ addr
    → byte_at addr (s ∷ ss) ≡ byte_at addr ss
unfolding byte_at byte_in
byte_at_past addr s ss h =
    rw (byte_in_outside s.start (finish s) addr s (omega arith) (omega arith) (grind int_laws))

pub run_bytes_before :
    (n : ℕ) (addr k : ℤ) (ss : List Segment) → addr <ℤ k → Ordered k ss → run_bytes n addr ss ≡ []
unfolding run_bytes
run_bytes_before zero addr k ss lt o = refl
run_bytes_before (suc n) addr k ss lt o = rw (byte_at_before addr k ss lt o)

pub run_bytes_past :
    (n : ℕ) (addr : ℤ) (s : Segment) (ss : List Segment)
    → finish s ≤ℤ addr
    → run_bytes n addr (s ∷ ss) ≡ run_bytes n addr ss
unfolding run_bytes
run_bytes_past zero addr s ss h = refl
run_bytes_past (suc n) addr s ss h =
    rw (byte_at_past addr s ss h, run_bytes_past n (addr +ℤ pos 1) s ss (omega int_laws))

drop-get_elem : (xs : List ℕ) (i x : ℕ) → get_elem? xs i ≡ some x → drop i xs ≡ x ∷ drop (suc i) xs
drop-get_elem [] i x e = ground arith
drop-get_elem (y ∷ xs) zero x e = ground arith
drop-get_elem (y ∷ xs) (suc i) x e = drop-get_elem xs i x e

pub byte_at_here :
    (o x : ℕ) (s : Segment) (ss : List Segment)
    → get_elem? s.content o ≡ some x
    → o < length s.content
    → byte_at (s.start +ℤ pos o) (s ∷ ss) ≡ some x
unfolding byte_at byte_in
byte_at_here o x s ss e lt =
    let d : s.start +ℤ pos o -ℤ s.start ≡ pos o = omega int_laws in
    let b : in_buffer (pos o) s.content ≡ true = ground arith in rw (d, b, e)

drop_all : (xs : List ℕ) (i : ℕ) → length xs ≤ i → drop i xs ≡ []
drop_all [] zero h = refl
drop_all [] (suc i) h = refl
drop_all (x ∷ xs) zero h = absurd (omega arith)
drop_all (x ∷ xs) (suc i) h = drop_all xs i (omega arith)

-- A run that starts in a buffer is the rest of the buffer, and then the run from its end on.
pub run_bytes_inside :
    (n o : ℕ) (s : Segment) (ss : List Segment)
    → o ≤ length s.content
    → run_bytes n (s.start +ℤ pos o) (s ∷ ss)
      ≡ take n (drop o s.content) ++ run_bytes (n - (length s.content - o)) (finish s) ss
unfolding run_bytes
run_bytes_inside zero o s ss le = let e : 0 - (length s.content - o) ≡ 0 = omega arith in rw e
run_bytes_inside (suc n) o s ss le = elim (Bool-cases (ltb o (length s.content))) [
  | inl inside ↦
      let (x, e) = get_elem?-some s.content o (ground arith) in
      let step : s.start +ℤ pos o +ℤ pos 1 ≡ s.start +ℤ pos (suc o) = omega int_laws in
      let left : suc n - (length s.content - o) ≡ n - (length s.content - suc o) = ground arith in
      rw (byte_at_here o x s ss e (ground arith), step, drop-get_elem s.content o x e, left)
        (ap (λ xs. x ∷ xs) (run_bytes_inside n (suc o) s ss (ground arith)))
  | inr ended ↦
      let ended_le : length s.content ≤ o = ground arith in
      let close : suc n - (length s.content - o) ≡ suc n = ground arith in
      let at : s.start +ℤ pos o ≡ finish s = ap (λ i. s.start +ℤ pos i) (ground arith) in
      run_bytes_past (suc n) (s.start +ℤ pos o) s ss (omega (arith, ended_le, int_laws))
      ∙ rw (drop_all s.content o (ground arith), close, at)
]
