-- ===== src/Memory/Runs.antt =====
-- What the generator `backers` yields, where the backers lie one behind another.
use cle.Base.{
  ◌<◌, ◌≡◌, refl, sym, true, false, some, List, [], ◌∷◌, ◌++◌, length, arith, if◌then◌else◌, inl,
  inr, Bool-cases,
}
use cle.Base.Int.{ℤ, pos, ◌+ℤ◌, ◌-ℤ◌, ◌≤ℤ◌, ◌<ℤ◌, leb_ℤ, int_laws}
use cle.Memory.Backers.{
  Meta, Backers, nil, raw, child, Segment, Run, stop, yields, then_run, shift_run, size,
}
use cle.Memory.Bytes.{segments, finish, AllWithin, shift_segments}

-- Buffers that are not empty, each behind the one before it, from `k` on.
abbrev pub Ordered : ℤ → List Segment → Type 0
Ordered k [] = Unit
Ordered k (s ∷ ss) = (k ≤ℤ s.start) × (0 < length s.content) × Ordered (finish s) ss

-- The upper bound of a memory encloses its buffers.
abbrev pub HasTop : ℤ → Meta → Backers → Type 0
HasTop hi info bs = (info.max_addr ≡ some hi) × (pos 0 ≤ℤ hi) × AllWithin (pos 0) hi (segments bs)

-- The backers lie one behind another, from `k` on, and so do those of the memories among them.
abbrev pub IsLaid : ℤ → Backers → Type 0
IsLaid k nil = Unit
IsLaid k (raw start kind xs rest) = (k ≤ℤ start) × (0 < length xs) × IsLaid (start +ℤ size xs) rest
IsLaid k (child start info bs rest) =
    (k ≤ℤ start)
    × (info.uninitialized ≡ false)
    × IsLaid (pos 0) bs
    × ((hi : ℤ) × HasTop hi info bs × IsLaid (start +ℤ hi) rest)

abbrev pub run_of : List Segment → Run
run_of [] = stop
run_of (s ∷ ss) = yields s (run_of ss)

-- The buffers from the first that ends above an address on.
unfoldable pub skip : ℤ → List Segment → List Segment
skip addr [] = []
skip addr (s ∷ ss) = if leb_ℤ (finish s) addr then skip addr ss else s ∷ ss

Ordered-weaken : (j k : ℤ) (ss : List Segment) → j ≤ℤ k → Ordered k ss → Ordered j ss
Ordered-weaken j k [] h o = tt
Ordered-weaken j k (s ∷ ss) h o = (omega arith, o.1, o.2)

Ordered-shift :
    (k d : ℤ) (ss : List Segment) → Ordered k ss → Ordered (k +ℤ d) (shift_segments d ss)
Ordered-shift k d [] o = tt
Ordered-shift k d (s ∷ ss) o =
    let e : s.start +ℤ size s.content +ℤ d ≡ s.start +ℤ d +ℤ size s.content = omega int_laws in
    (omega int_laws, o.1, rw e at (Ordered-shift (finish s) d ss o.2))

Ordered-append :
    (k hi : ℤ) (ss ts : List Segment)
    → k ≤ℤ hi
    → Ordered k ss
    → AllWithin k hi ss
    → Ordered hi ts
    → Ordered k (ss ++ ts)
Ordered-append k hi [] ts h o w p = Ordered-weaken k hi ts h p
Ordered-append k hi (s ∷ ss) ts h o w p = (
  o.0,
  o.1,
  Ordered-append (finish s) hi ss ts w.1 o.2 (AllWithin-from (finish s) k hi ss o.2 w.2) p,
)
  where
    AllWithin-from :
        (j k hi : ℤ) (ss : List Segment) → Ordered j ss → AllWithin k hi ss → AllWithin j hi ss
    AllWithin-from j k hi [] o w = tt
    AllWithin-from j k hi (s ∷ ss) o w = (
      o.0,
      w.1,
      AllWithin-from j k hi ss (Ordered-weaken j (finish s) ss (omega int_laws) o.2) w.2,
    )

pub AllWithin-shift_top :
    (hi d : ℤ) (ss : List Segment)
    → AllWithin (pos 0) hi ss
    → AllWithin d (d +ℤ hi) (shift_segments d ss)
AllWithin-shift_top hi d [] w = tt
AllWithin-shift_top hi d (s ∷ ss) w =
    (omega int_laws, omega int_laws, AllWithin-shift_top hi d ss w.2)

-- The buffers of backers that are laid out are in order.
pub IsLaid-Ordered : (k : ℤ) (bs : Backers) → IsLaid k bs → Ordered k (segments bs)
unfolding segments
IsLaid-Ordered k nil h = tt
IsLaid-Ordered k (raw start kind xs rest) h = (h.0, h.1, IsLaid-Ordered (start +ℤ size xs) rest h.2)
IsLaid-Ordered k (child start info bs rest) (le, _, inner, (hi, (_, low, w), outer)) =
    let o : Ordered start (shift_segments start (segments bs)) =
      Ordered-weaken start (pos 0 +ℤ start) _ (omega int_laws)
        (Ordered-shift (pos 0) start (segments bs) (IsLaid-Ordered (pos 0) bs inner)) in
    Ordered-weaken k start _ le (
      Ordered-append start (start +ℤ hi) (shift_segments start (segments bs)) (segments rest)
        (omega int_laws) o (AllWithin-shift_top hi start (segments bs) w)
        (IsLaid-Ordered (start +ℤ hi) rest outer))

pub then_run-append : (ss ts : List Segment) → then_run (run_of ss) (run_of ts) ≡ run_of (ss ++ ts)
unfolding then_run
then_run-append [] ts = refl
then_run-append (s ∷ ss) ts = rw (then_run-append ss ts)

pub shift_run-run_of :
    (d : ℤ) (ss : List Segment) → shift_run d (run_of ss) ≡ run_of (shift_segments d ss)
unfolding shift_run
shift_run-run_of d [] = refl
shift_run-run_of d (s ∷ ss) = rw (shift_run-run_of d ss)

pub skip-shift :
    (addr d : ℤ) (ss : List Segment)
    → shift_segments d (skip (addr -ℤ d) ss) ≡ skip addr (shift_segments d ss)
unfolding skip
skip-shift addr d [] = refl
skip-shift addr d (s ∷ ss) =
    let e : leb_ℤ (s.start +ℤ d +ℤ size s.content) addr ≡ leb_ℤ (finish s) (addr -ℤ d) =
      grind int_laws in
    rw e (ground (arith, skip-shift addr d ss))

pub skip_none : (addr k : ℤ) (ss : List Segment) → addr <ℤ k → Ordered k ss → skip addr ss ≡ ss
unfolding skip
skip_none addr k [] h o = refl
skip_none addr k (s ∷ ss) h o = let e : leb_ℤ (finish s) addr ≡ false = grind int_laws in rw e

pub skip_all :
    (addr lo hi : ℤ) (ss ts : List Segment)
    → hi ≤ℤ addr
    → AllWithin lo hi ss
    → skip addr (ss ++ ts) ≡ skip addr ts
unfolding skip
skip_all addr lo hi [] ts h w = refl
skip_all addr lo hi (s ∷ ss) ts h w =
    let e : leb_ℤ (finish s) addr ≡ true = ground arith in rw (e, skip_all addr lo hi ss ts h w.2)

pub skip-append :
    (addr hi : ℤ) (ss ts : List Segment)
    → addr <ℤ hi
    → Ordered hi ts
    → skip addr ss ++ ts ≡ skip addr (ss ++ ts)
unfolding skip
skip-append addr hi [] ts h o = sym (skip_none addr hi ts h o)
skip-append addr hi (s ∷ ss) ts h o = elim (Bool-cases (leb_ℤ (finish s) addr)) [
  | inl ended ↦ rw ended (skip-append addr hi ss ts h o)
  | inr kept ↦ rw kept
]
