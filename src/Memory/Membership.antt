-- ===== src/Memory/Membership.antt =====
-- `__contains__` tells whether there is a byte, on its fast path and on its slow one.
use cle.Base.{
  ℕ, ◌≡◌, refl, ap, Bool, true, false, ◌&&◌, ◌||◌, Option, none, some, List, arith, if◌then◌else◌,
  inl, inr, Bool-cases, Result, ok,
}
use cle.Base.Int.{ℤ, leb_ℤ, ltb_ℤ}
use cle.Memory.Backers.{Backers, nil, raw, child, Clemory, Segment}
use cle.Memory.Items.{is_nil, found, get_item, contains}
use cle.Memory.Bytes.{segments, byte_at, AllWithin, byte_at_outside, byte_or_key_error}
use cle.Memory.Reading.{IsSound, get_item-byte_at}
use cle.Memory.Extents.{IsFull, IsKept}

abbrev pub has_byte : Option ℕ → Bool
has_byte none = false
has_byte (some b) = true

found-has_byte : (o : Option ℕ) → found (byte_or_key_error o) ≡ ok (has_byte o)
found-has_byte none = refl
found-has_byte (some b) = refl

fast_path :
    (lo hi k : ℤ) (ss : List Segment)
    → AllWithin lo hi ss
    → IsFull lo hi ss
    → (leb_ℤ lo k && ltb_ℤ k hi) ≡ has_byte (byte_at k ss)
fast_path lo hi k ss w full = elim (Bool-cases (leb_ℤ lo k && ltb_ℤ k hi)) [
  | inl within ↦ let (b, e) = full k (ground arith) (ground arith) in rw (within, e)
  | inr out ↦ rw (out, byte_at_outside lo hi k ss w out)
]

slow_path :
    (lo hi k : ℤ) (bs : Backers)
    → AllWithin lo hi (segments bs)
    → IsSound bs
    → (if ltb_ℤ k lo || leb_ℤ hi k then ok false else found (get_item bs k))
      ≡ ok (has_byte (byte_at k (segments bs)))
slow_path lo hi k bs w sound = elim (Bool-cases (ltb_ℤ k lo || leb_ℤ hi k)) [
  | inl out ↦ rw (out, byte_at_outside lo hi k (segments bs) w (ground arith))
  | inr within ↦ rw (within, get_item-byte_at bs k sound) (found-has_byte (byte_at k (segments bs)))
]

empty_path :
    (bs : Backers) (k : ℤ) (r : Result Bool)
    → r ≡ ok (has_byte (byte_at k (segments bs)))
    → (if is_nil bs then ok false else r) ≡ ok (has_byte (byte_at k (segments bs)))
unfolding segments byte_at
empty_path nil k r e = refl
empty_path (raw start kind xs rest) k r e = e
empty_path (child start info bs rest) k r e = e

-- `k in self` is true exactly if there is a byte at `k`, by the fast path and by the slow one, where
-- the recorded bounds of the memory, not below 0 and in order, and those of the memories inside it
-- enclose what is in them, `consecutive` is set only if there is a byte at each address between the
-- bounds, and each buffer is a `bytearray` or a list.
pub contains-byte_at :
    (m : Clemory) (k : ℤ)
    → IsKept m.info m.backers_list
    → IsSound m.backers_list
    → contains m k ≡ ok (has_byte (byte_at k (segments m.backers_list)))
unfolding contains
contains-byte_at m k (lo, hi, e, f, _, _, w, full) sound = elim (Bool-cases m.info.consecutive) [
  | inl joined ↦
      rw (joined, e, f) (ap ok (fast_path lo hi k (segments m.backers_list) w (full joined)))
  | inr gaps ↦
      rw (gaps, e, f) (empty_path m.backers_list k _ (slow_path lo hi k m.backers_list w sound))
]
