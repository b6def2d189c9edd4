-- ===== src/Memory/Extents.antt =====
-- `_update_min_max`: the bounds enclose all buffers, and `consecutive` means that there is no gap
-- between them, so the fast path of `__contains__` is right.
use cle.Base.{
  ℕ, ◌≡◌, ◌≢◌, refl, ap, subst, sym, Bool, true, not, ◌&&◌, Option, none, some, List, [], ◌∷◌, ◌++◌,
  arith, if◌then◌else◌, inl, inr, Bool-cases, get_elem?-some,
}
use mathlib.Core.List.{append-nil, append_assoc}
use cle.Base.Int.{ℤ, pos, ◌+ℤ◌, ◌-ℤ◌, ◌≤ℤ◌, ◌<ℤ◌, ltb_ℤ, to_ℕ, int_laws}
use cle.Memory.Backers.{Kind, Meta, Backers, nil, raw, child, Clemory, Segment, size}
use cle.Memory.Layout.{
  Extent, see_raw, see_child, extent, no_extent, update_min_max, raise_to, as_predicted,
}
use cle.Memory.Items.{in_buffer}
use cle.Memory.Bytes.{
  or_else, segments, byte_in, byte_at, AllWithin, byte_at-append, byte_at-shift, shift_segments,
}

-- There is a byte at each address from `lo` up to `hi`.
abbrev pub IsFull : ℤ → ℤ → List Segment → Type 0
IsFull lo hi ss = (k : ℤ) → lo ≤ℤ k → k <ℤ hi → (b : ℕ) × (byte_at k ss ≡ some b)

-- The attributes of a memory tell the truth about its buffers.
abbrev pub IsKept : Meta → Backers → Type 0
IsKept info bs =
    (lo : ℤ) × (hi : ℤ) × (info.min_addr ≡ some lo)
    × (info.max_addr ≡ some hi)
    × (pos 0 ≤ℤ lo)
    × (lo ≤ℤ hi)
    × AllWithin lo hi (segments bs)
    × (info.consecutive ≡ true → IsFull lo hi (segments bs))

abbrev pub AllKept : Backers → Type 0
AllKept nil = Unit
AllKept (raw start kind xs rest) = AllKept rest
AllKept (child start info bs rest) = IsKept info bs × AllKept rest

-- The backers are listed by increasing start, from `k` on.
abbrev pub StartsFrom : ℤ → Backers → Type 0
StartsFrom k nil = Unit
StartsFrom k (raw start kind xs rest) = (k ≤ℤ start) × StartsFrom start rest
StartsFrom k (child start info bs rest) = (k ≤ℤ start) × StartsFrom start rest

AllWithin-weaken :
    (lo hi lo' hi' : ℤ) (ss : List Segment)
    → lo' ≤ℤ lo
    → hi ≤ℤ hi'
    → AllWithin lo hi ss
    → AllWithin lo' hi' ss
AllWithin-weaken lo hi lo' hi' [] p q w = tt
AllWithin-weaken lo hi lo' hi' (s ∷ ss) p q w =
    (omega arith, omega arith, AllWithin-weaken lo hi lo' hi' ss p q w.2)

AllWithin-append :
    (lo hi : ℤ) (ss ts : List Segment)
    → AllWithin lo hi ss
    → AllWithin lo hi ts
    → AllWithin lo hi (ss ++ ts)
AllWithin-append lo hi [] ts v w = w
AllWithin-append lo hi (s ∷ ss) ts v w = (v.0, v.1, AllWithin-append lo hi ss ts v.2 w)

AllWithin-shift :
    (lo hi d : ℤ) (ss : List Segment)
    → AllWithin lo hi ss
    → AllWithin (lo +ℤ d) (hi +ℤ d) (shift_segments d ss)
AllWithin-shift lo hi d [] w = tt
AllWithin-shift lo hi d (s ∷ ss) w =
    (omega int_laws, omega int_laws, AllWithin-shift lo hi d ss w.2)

-- What the loop in `_update_min_max` knows, with the buffers that it has seen.
abbrev Knows : ℤ → ℤ → Option ℤ → Bool → List Segment → Type 0
Knows lo hi next_start c ss =
    (lo ≤ℤ hi) × AllWithin lo hi ss × (c ≡ true → (next_start ≡ some hi) × IsFull lo hi ss)

top : ℤ → ℤ → ℤ
top a b = if ltb_ℤ a b then b else a

raise_to-top : (a b : ℤ) → raise_to (some a) b ≡ some (top a b)
unfolding top
raise_to-top a b = ground arith

or_else_left : (o p : Option ℕ) → (b : ℕ) × (o ≡ some b) → (b : ℕ) × (or_else o p ≡ some b)
or_else_left none p (b, e) = absurd (ground arith)
or_else_left (some a) p h = (a, refl)

or_else_right : (o p : Option ℕ) → (b : ℕ) × (p ≡ some b) → (b : ℕ) × (or_else o p ≡ some b)
or_else_right none p h = h
or_else_right (some a) p h = (a, refl)

IsFull-append :
    (lo s f : ℤ) (ss ts : List Segment) → IsFull lo s ss → IsFull s f ts → IsFull lo f (ss ++ ts)
IsFull-append lo s f ss ts v w k above below =
    rw (byte_at-append k ss ts) (elim (Bool-cases (ltb_ℤ k s)) [
      | inl first ↦ or_else_left _ (byte_at k ts) (v k above (ground arith))
      | inr second ↦ or_else_right (byte_at k ss) _ (w k (ground arith) below)
    ])

top_le : (a b : ℤ) → a ≤ℤ b → top a b ≡ b
unfolding top
top_le a b h = ground arith

top_bounds : (a b : ℤ) → (a ≤ℤ top a b) × (b ≤ℤ top a b)
unfolding top
top_bounds a b = ground arith

predicted : (hi s : ℤ) → as_predicted (some hi) s ≡ true → hi ≡ s
predicted hi s h = ground arith

-- Seeing a block of buffers from `s` up to `f`, with no gap before it or in it where the flag
-- stays set.
block :
    (lo hi s f : ℤ) (next_start : Option ℤ) (c d : Bool) (ss ts : List Segment)
    → lo ≤ℤ s
    → s ≤ℤ f
    → AllWithin s f ts
    → (d ≡ true → (c ≡ true) × (as_predicted next_start s ≡ true) × IsFull s f ts)
    → Knows lo hi next_start c ss
    → Knows lo (top hi f) (some f) d (ss ++ ts)
block lo hi s f next_start c d ss ts p q w gain known = (
  omega (arith, top_bounds hi f),
  AllWithin-append lo (top hi f) ss ts
      (AllWithin-weaken lo hi lo (top hi f) ss (omega arith) (top_bounds hi f).0 known.1)
      (AllWithin-weaken s f lo (top hi f) ts p (top_bounds hi f).1 w),
  λ set_flag.
      let (was, fits, full) = gain set_flag in
      let (n, filled) = known.2 was in
      let e : hi ≡ s = predicted hi s (rw n at fits) in
      let t : top hi f ≡ f = top_le hi f (rw e q) in
      (ap some (sym t), rw t (IsFull-append lo s f ss ts (rw e at filled) full)),
)

IsFull-buffer :
    (start : ℤ) (kind : Kind) (xs : List ℕ)
    → IsFull start (start +ℤ size xs) (record { start = start; kind = kind; content = xs } ∷ [])
unfolding byte_at byte_in
IsFull-buffer start kind xs k above below =
    let here : in_buffer (k -ℤ start) xs ≡ true = grind int_laws in
    let (b, e) = get_elem?-some xs (to_ℕ (k -ℤ start)) (ground arith) in rw here (rw e (b, refl))

IsFull-shift :
    (lo hi d : ℤ) (ss : List Segment)
    → IsFull lo hi ss
    → IsFull (lo +ℤ d) (hi +ℤ d) (shift_segments d ss)
IsFull-shift lo hi d ss full k above below =
    rw (byte_at-shift d k ss) (full (k -ℤ d) (omega int_laws) (omega int_laws))

-- The buffers of a memory at `start`, seen from outside.
module _ (start lo hi : ℤ) (ss : List Segment) (low : pos 0 ≤ℤ lo) (w : AllWithin lo hi ss) where
  child_within : AllWithin start (start +ℤ hi) (shift_segments start ss)
  child_within =
      AllWithin-weaken (lo +ℤ start) (hi +ℤ start) start (start +ℤ hi) (shift_segments start ss)
        (omega int_laws) (omega int_laws) (AllWithin-shift lo hi start ss w)

  child-IsFull :
      not (ltb_ℤ (pos 0) lo) ≡ true
      → IsFull lo hi ss
      → IsFull start (start +ℤ hi) (shift_segments start ss)
  child-IsFull zero_low full k above below =
      IsFull-shift lo hi start ss full k (grind int_laws) (omega int_laws)

raw_flag : (c p : Bool) → (c && p) ≡ true → (c ≡ true) × (p ≡ true)
raw_flag c p h = ground arith

child_flag :
    (c p z i : Bool)
    → (((c && p) && z) && i) ≡ true
    → (c ≡ true) × (p ≡ true) × (z ≡ true) × (i ≡ true)
child_flag c p z i h = ground arith

-- The conclusion about the loop: what it knows in the end, of all buffers.
abbrev Seen : ℤ → Extent → List Segment → Type 0
Seen lo e ss =
    (e.lowest ≡ some lo)
    × ((hi : ℤ) × (e.highest ≡ some hi) × Knows lo hi e.next_start e.is_consecutive ss)

see_raw-Seen :
    (lo start : ℤ) (kind : Kind) (xs : List ℕ) (e : Extent) (ss : List Segment)
    → lo ≤ℤ start
    → Seen lo e ss
    → Seen lo (see_raw start xs e) (ss ++ record { start = start; kind = kind; content = xs } ∷ [])
see_raw-Seen lo start kind xs e ss p (low, (hi, high, known)) = (
  rw low,
  (
    top hi (start +ℤ size xs),
    rw high (raise_to-top hi (start +ℤ size xs)),
    block lo hi start (start +ℤ size xs) e.next_start e.is_consecutive _ ss _ p (omega int_laws)
        (omega int_laws, omega int_laws, tt)
        (λ f.
          let (c, q) = raw_flag e.is_consecutive (as_predicted e.next_start start) f in
          (c, q, IsFull-buffer start kind xs))
        known,
  ),
)

see_child-Seen :
    (lo start : ℤ) (info : Meta) (bs : Backers) (e : Extent) (ss : List Segment)
    → lo ≤ℤ start
    → IsKept info bs
    → Seen lo e ss
    → Seen lo (see_child start info e) (ss ++ shift_segments start (segments bs))
see_child-Seen lo start info bs e ss p (a, b, ea, eb, low_a, le, w, full) (low, (hi, high, known)) =
    rw (ea, eb)
      (
        rw low,
        (
          top hi (start +ℤ b),
          rw high (raise_to-top hi (start +ℤ b)),
          block lo hi start (start +ℤ b) e.next_start e.is_consecutive _ ss _ p (omega int_laws)
              (child_within start a b (segments bs) low_a w)
              (λ f.
                let (c, q, z, i) =
                  child_flag e.is_consecutive (as_predicted e.next_start start)
                    (not (ltb_ℤ (pos 0) a)) info.consecutive f in
                (c, q, child-IsFull start a b (segments bs) low_a w z (full i)))
              known,
        ),
      )

extent-Seen :
    (bs : Backers) (lo from : ℤ) (e : Extent) (ss : List Segment)
    → lo ≤ℤ from
    → StartsFrom from bs
    → AllKept bs
    → Seen lo e ss
    → Seen lo (extent bs e) (ss ++ segments bs)
unfolding extent segments
extent-Seen nil lo from e ss p sorted kept seen = rw (append-nil ss) seen
extent-Seen (raw start kind xs rest) lo from e ss p sorted kept seen =
    subst (Seen lo (extent rest (see_raw start xs e)))
      (append_assoc ss (record { start = start; kind = kind; content = xs } ∷ []) (segments rest))
      (extent-Seen rest lo start (see_raw start xs e) (ss ++ _) (omega arith) sorted.1 kept
        (see_raw-Seen lo start kind xs e ss (omega arith) seen))
extent-Seen (child start info bs rest) lo from e ss p sorted kept seen =
    subst (Seen lo (extent rest (see_child start info e)))
      (append_assoc ss (shift_segments start (segments bs)) (segments rest))
      (extent-Seen rest lo start (see_child start info e) (ss ++ _) (omega arith) sorted.1 kept.1
        (see_child-Seen lo start info bs e ss (omega arith) kept.0 seen))

first_raw :
    (start : ℤ) (kind : Kind) (xs : List ℕ)
    → Seen start
        (see_raw start xs no_extent)
        (record { start = start; kind = kind; content = xs } ∷ [])
first_raw start kind xs = (
  refl,
  (
    start +ℤ size xs,
    refl,
    (
      omega int_laws,
      (omega int_laws, omega int_laws, tt),
      λ f. (refl, IsFull-buffer start kind xs),
    ),
  ),
)

first_child :
    (start : ℤ) (info : Meta) (bs : Backers)
    → IsKept info bs
    → Seen start (see_child start info no_extent) (shift_segments start (segments bs))
first_child start info bs (a, b, ea, eb, low_a, le, w, full) =
    rw (ea, eb)
      (
        refl,
        (
          start +ℤ b,
          refl,
          (
            omega int_laws,
            child_within start a b (segments bs) low_a w,
            λ f.
                let (c, q, z, i) =
                  child_flag true true (not (ltb_ℤ (pos 0) a)) info.consecutive f in
                (refl, child-IsFull start a b (segments bs) low_a w z (full i)),
          ),
        ),
      )

Seen-IsKept :
    (m : Clemory) (bs : Backers) (lo : ℤ)
    → pos 0 ≤ℤ lo
    → Seen lo (extent bs no_extent) (segments bs)
    → IsKept (update_min_max m bs).info bs
unfolding update_min_max
Seen-IsKept m bs lo p (low, (hi, high, known)) =
    (lo, hi, low, high, p, known.0, known.1, λ f. (known.2 f).1)

-- Of a memory with at least one backer, whose backers start at 0 or above and are listed by increasing
-- start, `_update_min_max` sets bounds that enclose all buffers, not below 0 and in order, and sets
-- `consecutive` only if there is a byte at each address between them, provided that all of this holds
-- of the attributes of each memory among the backers.
pub update_min_max-IsKept :
    (m : Clemory) (bs : Backers)
    → bs ≢ nil
    → StartsFrom (pos 0) bs
    → AllKept bs
    → IsKept (update_min_max m bs).info bs
unfolding extent segments
update_min_max-IsKept m nil some_backer sorted kept = absurd (some_backer refl)
update_min_max-IsKept m (raw start kind xs rest) some_backer sorted kept =
    Seen-IsKept m (raw start kind xs rest) start sorted.0
      (extent-Seen rest start start _ _ (omega arith) sorted.1 kept (first_raw start kind xs))
update_min_max-IsKept m (child start info bs rest) some_backer sorted kept =
    Seen-IsKept m (child start info bs rest) start sorted.0 (
      extent-Seen rest start start _ _ (omega arith) sorted.1 kept.1
        (first_child start info bs kept.0))
