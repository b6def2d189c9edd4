-- ===== src/Memory/Loading.antt =====
-- `load` against the bytes of a memory: it returns the longest run of mapped bytes.
use mathlib.Core.List.{append-nil, append_assoc}
use cle.Base.{
  ℕ, zero, suc, ◌-◌, ◌≤◌, ◌<◌, ◌≡◌, refl, ap, ◌∙◌, sym, subst, true, false, Option, none, some,
  List, [], ◌∷◌, ◌++◌, length, take, drop, leb, get_elem?-some, length-drop, arith, if◌then◌else◌,
  inl, inr, Bool-cases, ok, err, key_error,
}
use cle.Base.Int.{ℤ, pos, ◌+ℤ◌, ◌-ℤ◌, leb_ℤ, ltb_ℤ, to_ℕ, int_laws}
use cle.Memory.Backers.{Clemory, Segment, size, backers}
use cle.Memory.Bytes.{segments, byte_at, finish}
use cle.Memory.Membership.{has_byte}
use cle.Memory.Access.{join, viewable, load_from, load}
use cle.Memory.Runs.{Ordered, IsLaid, run_of, skip, IsLaid-Ordered}
use cle.Memory.Yields.{backers_from-run_of}
use cle.Memory.Spans.{
  run_bytes, byte_at_before, byte_at_past, run_bytes_before, run_bytes_past, byte_at_here,
  run_bytes_inside,
}

abbrev pub AllViewable : List Segment → Type 0
AllViewable [] = Unit
AllViewable (s ∷ ss) = (viewable s.kind ≡ true) × AllViewable ss

take_all : (xs : List ℕ) (n : ℕ) → length xs ≤ n → take n xs ≡ xs
take_all [] zero h = refl
take_all [] (suc n) h = refl
take_all (x ∷ xs) zero h = absurd (omega arith)
take_all (x ∷ xs) (suc n) h = ap (λ ys. x ∷ ys) (take_all xs n (omega arith))

join-append :
    (views : Option (List ℕ)) (xs ys : List ℕ) → join views (xs ++ ys) ≡ join views xs ++ ys
join-append none xs ys = refl
join-append (some zs) xs ys = sym (append_assoc zs xs ys)

-- A round of the loop at a buffer that holds all that is left.
load_from_last :
    (n o : ℕ) (s : Segment) (ss : List Segment) (views : Option (List ℕ))
    → o < length s.content
    → viewable s.kind ≡ true
    → n ≤ length s.content - o
    → load_from (run_of (s ∷ ss)) (s.start +ℤ pos o) (pos n) views
      ≡ ok (join views (run_bytes n (s.start +ℤ pos o) (s ∷ ss)))
unfolding load_from run_bytes
load_from_last n o s ss views lt seen fits =
    let d : s.start +ℤ pos o -ℤ s.start ≡ pos o = omega int_laws in
    let r : size s.content -ℤ pos o ≡ pos (length s.content - o) = omega int_laws in
    let past : ltb_ℤ (s.start +ℤ pos o) s.start ≡ false = grind int_laws in
    let enough : leb_ℤ (pos n -ℤ pos (length s.content - o)) (pos 0) ≡ true = grind int_laws in
    let none_left : n - (length s.content - o) ≡ 0 = omega arith in
    let e : run_bytes n (s.start +ℤ pos o) (s ∷ ss) ≡ take n (drop o s.content) =
      run_bytes_inside n o s ss (omega arith)
      ∙ rw none_left (append-nil (take n (drop o s.content))) in
    elim views
      as (λ v.
        load_from (run_of (s ∷ ss)) (s.start +ℤ pos o) (pos n) v
        ≡ ok (join v (run_bytes n (s.start +ℤ pos o) (s ∷ ss)))) [
          | none ↦ rw (past, seen, d, r, enough, e) (ground arith)
          | some xs ↦ rw (past, seen, d, r, enough, e)
        ]

-- A round of the loop at a buffer that holds less.
load_from_step :
    (n o : ℕ) (s : Segment) (ss : List Segment) (views : Option (List ℕ))
    → o < length s.content
    → viewable s.kind ≡ true
    → length s.content - o < n
    → load_from (run_of (s ∷ ss)) (s.start +ℤ pos o) (pos n) views
      ≡ load_from
          (run_of ss)
          (finish s)
          (pos (n - (length s.content - o)))
          (some (join views (drop o s.content)))
unfolding load_from
load_from_step n o s ss views lt seen over =
    let d : s.start +ℤ pos o -ℤ s.start ≡ pos o = omega int_laws in
    let r : size s.content -ℤ pos o ≡ pos (length s.content - o) = omega int_laws in
    let past : ltb_ℤ (s.start +ℤ pos o) s.start ≡ false = grind int_laws in
    let left : pos n -ℤ pos (length s.content - o) ≡ pos (n - (length s.content - o)) =
      omega int_laws in
    let on : leb_ℤ (pos (n - (length s.content - o))) (pos 0) ≡ false = ground arith in
    let at : s.start +ℤ pos o +ℤ pos (length s.content - o) ≡ finish s = omega int_laws in
    let all : take n (drop o s.content) ≡ drop o s.content =
      take_all (drop o s.content) n (omega (arith, length-drop o s.content)) in
    elim views
      as (λ v.
        load_from (run_of (s ∷ ss)) (s.start +ℤ pos o) (pos n) v
        ≡ load_from (run_of ss) (finish s) (pos (n - (length s.content - o)))
            (some (join v (drop o s.content)))) [
              | none ↦
                  let short : ltb_ℤ (pos o +ℤ pos n) (size s.content) ≡ false = grind int_laws in
                  rw (past, seen, d, r, all, short, left, on, at)
              | some xs ↦ rw (past, seen, d, r, all, left, on, at)
            ]

-- The loop at a buffer that has the address, where what follows is known.
load_from_inside :
    (n o : ℕ) (s : Segment) (ss : List Segment) (views : Option (List ℕ))
    → o < length s.content
    → viewable s.kind ≡ true
    → ((k : ℕ) (xs : List ℕ)
        → 0 < k
        → load_from (run_of ss) (finish s) (pos k) (some xs) ≡ ok (xs ++ run_bytes k (finish s) ss))
    → load_from (run_of (s ∷ ss)) (s.start +ℤ pos o) (pos n) views
      ≡ ok (join views (run_bytes n (s.start +ℤ pos o) (s ∷ ss)))
load_from_inside n o s ss views lt seen later = elim (Bool-cases (leb n (length s.content - o))) [
  | inl fits ↦ load_from_last n o s ss views lt seen (ground arith)
  | inr over ↦
      let left = n - (length s.content - o) in
      let all : take n (drop o s.content) ≡ drop o s.content =
        take_all (drop o s.content) n (ground (arith, length-drop o s.content)) in
      let run : run_bytes n (s.start +ℤ pos o) (s ∷ ss)
          ≡ drop o s.content ++ run_bytes left (finish s) ss =
        run_bytes_inside n o s ss (omega arith)
        ∙ ap (λ xs. xs ++ run_bytes left (finish s) ss) all in
      load_from_step n o s ss views lt seen (ground arith)
      ∙ later left (join views (drop o s.content)) (ground arith)
      ∙ ap ok (
          sym (
            ap (join views) run
            ∙ join-append views (drop o s.content) (run_bytes left (finish s) ss)))
]

-- The loop, once it has bytes in hand and has come to an address that no buffer lies across.
load_from_going :
    (addr : ℤ) (ss : List Segment) (n : ℕ) (xs : List ℕ)
    → 0 < n
    → Ordered addr ss
    → AllViewable ss
    → load_from (run_of ss) addr (pos n) (some xs) ≡ ok (xs ++ run_bytes n addr ss)
unfolding load_from
load_from_going addr [] n xs more o v =
    rw (run_bytes_before n addr (addr +ℤ pos 1) [] (omega int_laws) tt)
      (ap ok (sym (append-nil xs)))
load_from_going addr (s ∷ ss) n xs more o v = elim (Bool-cases (ltb_ℤ addr s.start)) [
  | inl gap ↦
      let nothing : run_bytes n addr (s ∷ ss) ≡ [] =
        run_bytes_before n addr s.start (s ∷ ss) (ground arith) (omega arith, o.1, o.2) in
      rw (gap, nothing) (ap ok (sym (append-nil xs)))
  | inr meets ↦
      let there : s.start +ℤ pos 0 ≡ addr = grind int_laws in
      subst
        (λ k. load_from (run_of (s ∷ ss)) k (pos n) (some xs) ≡ ok (xs ++ run_bytes n k (s ∷ ss)))
        there
        (load_from_inside n 0 s ss (some xs) o.1 v.0
          (λ k ys h. load_from_going (finish s) ss k ys h o.2 v.1))
]

load_from-run_bytes :
    (k addr : ℤ) (n : ℕ) (ss : List Segment)
    → Ordered k ss
    → AllViewable ss
    → load_from (run_of (skip addr ss)) addr (pos n) none
      ≡ (if has_byte (byte_at addr ss) then ok (run_bytes n addr ss) else err key_error)
unfolding load_from skip
load_from-run_bytes k addr n [] o v =
    let nothing : byte_at addr [] ≡ none =
      byte_at_before addr (addr +ℤ pos 1) [] (omega int_laws) tt in
    rw nothing
load_from-run_bytes k addr n (s ∷ ss) o v = elim (Bool-cases (leb_ℤ (finish s) addr)) [
  | inl ended ↦
      rw (ended, byte_at_past addr s ss (ground arith), run_bytes_past n addr s ss (ground arith))
        (load_from-run_bytes (finish s) addr n ss o.2 v.1)
  | inr kept ↦ elim (Bool-cases (ltb_ℤ addr s.start)) [
    | inl gap ↦
        rw (kept, gap, byte_at_before addr s.start (s ∷ ss) (ground arith) (omega arith, o.1, o.2))
    | inr inside ↦
        let off = to_ℕ (addr -ℤ s.start) in
        let at : s.start +ℤ pos off ≡ addr = grind int_laws in
        let lt : off < length s.content = grind int_laws in
        let (x, e) = get_elem?-some s.content off lt in
        let there : byte_at addr (s ∷ ss) ≡ some x =
          subst (λ j. byte_at j (s ∷ ss) ≡ some x) at (byte_at_here off x s ss e lt) in
        rw (kept, there)
          (subst (λ j. load_from (run_of (s ∷ ss)) j (pos n) none ≡ ok (run_bytes n j (s ∷ ss))) at
            (load_from_inside n off s ss none lt v.0
              (λ j ys h. load_from_going (finish s) ss j ys h o.2 v.1)))
  ]
]

-- Where no memory is marked as uninitialized, no buffer is empty or a list, and the backers lie one
-- behind another, those of a memory inside too, from 0 on and up to its recorded end, behind which the
-- next backer lies, `load` fails with `KeyError` if the address is not mapped, and else returns the
-- bytes from the address on, up to the count or to the first address that is not mapped.
pub load-run_bytes :
    (m : Clemory) (k addr : ℤ) (n : ℕ)
    → m.info.uninitialized ≡ false
    → IsLaid k m.backers_list
    → AllViewable (segments m.backers_list)
    → load m addr n ≡ (
        if has_byte (byte_at addr (segments m.backers_list))
        then ok (run_bytes n addr (segments m.backers_list))
        else err key_error)
unfolding load backers
load-run_bytes m k addr n known laid seen =
    simp (known, backers_from-run_of addr k m.backers_list laid)
      (load_from-run_bytes k addr n (segments m.backers_list) (IsLaid-Ordered k m.backers_list laid)
        seen)
