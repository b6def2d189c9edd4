-- ===== src/Memory/Bytes.antt =====
-- The abstract view of a memory: the bytes at its addresses, through the list of its buffers with
-- the starts that they have in its own space.
use cle.Base.{
  ℕ, ◌≡◌, refl, false, ◌&&◌, Option, none, some, List, [], ◌∷◌, ◌++◌, get_elem?, arith,
  if◌then◌else◌, Result, ok, err, key_error,
}
use cle.Base.Int.{ℤ, ◌+ℤ◌, ◌-ℤ◌, ◌≤ℤ◌, leb_ℤ, ltb_ℤ, to_ℕ, int_laws}
use cle.Memory.Backers.{Backers, nil, raw, child, Segment, shift_segment, size}
use cle.Memory.Items.{in_buffer}

abbrev pub or_else : Option ℕ → Option ℕ → Option ℕ
or_else none o = o
or_else (some a) o = some a

abbrev pub shift_segments : ℤ → List Segment → List Segment
shift_segments d [] = []
shift_segments d (s ∷ ss) = shift_segment d s ∷ shift_segments d ss

-- All buffers, in the order in which they are listed.
unfoldable pub segments : Backers → List Segment
segments nil = []
segments (raw start kind xs rest) =
    record { start = start; kind = kind; content = xs } ∷ segments rest
segments (child start info bs rest) = shift_segments start (segments bs) ++ segments rest

unfoldable pub byte_in : Segment → ℤ → Option ℕ
byte_in s k =
    if in_buffer (k -ℤ s.start) s.content then get_elem? s.content (to_ℕ (k -ℤ s.start)) else none

-- The byte of the first buffer that has the address.
unfoldable pub byte_at : ℤ → List Segment → Option ℕ
byte_at k [] = none
byte_at k (s ∷ ss) = or_else (byte_in s k) (byte_at k ss)

abbrev pub finish : Segment → ℤ
finish s = s.start +ℤ size s.content

-- All buffers lie between two addresses.
abbrev pub AllWithin : ℤ → ℤ → List Segment → Type 0
AllWithin lo hi [] = Unit
AllWithin lo hi (s ∷ ss) = (lo ≤ℤ s.start) × (finish s ≤ℤ hi) × AllWithin lo hi ss

pub byte_at-append :
    (k : ℤ) (ss ts : List Segment) → byte_at k (ss ++ ts) ≡ or_else (byte_at k ss) (byte_at k ts)
unfolding byte_at
byte_at-append k [] ts = refl
byte_at-append k (s ∷ ss) ts = ground (arith, byte_at-append k ss ts)

byte_in-shift : (d k : ℤ) (s : Segment) → byte_in (shift_segment d s) k ≡ byte_in s (k -ℤ d)
unfolding byte_in
byte_in-shift d k s = let e : k -ℤ (s.start +ℤ d) ≡ k -ℤ d -ℤ s.start = omega int_laws in rw e

pub byte_at-shift :
    (d k : ℤ) (ss : List Segment) → byte_at k (shift_segments d ss) ≡ byte_at (k -ℤ d) ss
unfolding byte_at
byte_at-shift d k [] = refl
byte_at-shift d k (s ∷ ss) = rw (byte_in-shift d k s, byte_at-shift d k ss)

pub byte_in_outside :
    (lo hi k : ℤ) (s : Segment)
    → lo ≤ℤ s.start
    → finish s ≤ℤ hi
    → (leb_ℤ lo k && ltb_ℤ k hi) ≡ false
    → byte_in s k ≡ none
unfolding byte_in
byte_in_outside lo hi k s below above out =
    let b : in_buffer (k -ℤ s.start) s.content ≡ false = grind int_laws in rw b

pub byte_at_outside :
    (lo hi k : ℤ) (ss : List Segment)
    → AllWithin lo hi ss
    → (leb_ℤ lo k && ltb_ℤ k hi) ≡ false
    → byte_at k ss ≡ none
unfolding byte_at
byte_at_outside lo hi k [] w out = refl
byte_at_outside lo hi k (s ∷ ss) w out =
    rw (byte_in_outside lo hi k s w.0 w.1 out) (byte_at_outside lo hi k ss w.2 out)

-- A lookup that raises `KeyError` where there is no byte.
abbrev pub byte_or_key_error : Option ℕ → Result ℕ
byte_or_key_error none = err key_error
byte_or_key_error (some b) = ok b
