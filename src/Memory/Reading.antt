-- ===== src/Memory/Reading.antt =====
-- `__getitem__`, `__contains__` and `__setitem__` against the abstract view.
use cle.Base.{
  ℕ, ◌≡◌, refl, true, ◌&&◌, Option, none, some, List, get_elem?, arith, if◌then◌else◌, inl, inr,
  Bool-cases, Option-cases, none→le,
}
use cle.Base.Int.{ℤ, ◌-ℤ◌, leb_ℤ, ltb_ℤ, to_ℕ}
use cle.Utils.Bisect.{index}
use cle.Memory.Backers.{Meta, Backers, nil, raw, child, Segment}
use cle.Memory.Items.{indexable, or_key_error, in_buffer, get_item}
use cle.Memory.Bytes.{
  or_else, segments, byte_in, byte_at, AllWithin, byte_at-append, byte_at-shift, byte_at_outside,
  byte_or_key_error, shift_segments,
}

-- The recorded bounds of a memory enclose its buffers.
abbrev pub HasBounds : Meta → Backers → Type 0
HasBounds info bs =
    (lo : ℤ) × (hi : ℤ) × (info.min_addr ≡ some lo)
    × (info.max_addr ≡ some hi)
    × AllWithin lo hi (segments bs)

-- Every buffer can be indexed, and every memory inside has its bounds.
abbrev pub IsSound : Backers → Type 0
IsSound nil = Unit
IsSound (raw start kind xs rest) = (indexable kind ≡ true) × IsSound rest
IsSound (child start info bs rest) = HasBounds info bs × IsSound bs × IsSound rest

index-in_buffer :
    (xs : List ℕ) (offset : ℤ)
    → in_buffer offset xs ≡ true
    → index xs (to_ℕ offset) ≡ byte_or_key_error (get_elem? xs (to_ℕ offset))
index-in_buffer xs offset h = elim (Option-cases (get_elem? xs (to_ℕ offset))) [
  | inl e ↦ absurd (ground (arith, none→le xs (to_ℕ offset) e))
  | inr (b, e) ↦ ground arith
]

fall_back :
    (o p : Option ℕ)
    → or_key_error (byte_or_key_error o) (byte_or_key_error p) ≡ byte_or_key_error (or_else o p)
fall_back none p = refl
fall_back (some b) p = refl

get_item_child :
    (lo hi x : ℤ) (ss : List Segment) (p : Option ℕ)
    → AllWithin lo hi ss
    → (if leb_ℤ lo x && ltb_ℤ x hi
        then or_key_error (byte_or_key_error (byte_at x ss)) (byte_or_key_error p)
        else byte_or_key_error p)
      ≡ byte_or_key_error (or_else (byte_at x ss) p)
get_item_child lo hi x ss p w = elim (Bool-cases (leb_ℤ lo x && ltb_ℤ x hi)) [
  | inl within ↦ rw within (fall_back (byte_at x ss) p)
  | inr out ↦ rw (out, byte_at_outside lo hi x ss w out)
]

-- Where each buffer is a `bytearray` or a list, and the recorded bounds of the memories inside enclose
-- what is in them, `self[k]` is the byte that the abstract view has there, or `KeyError` where it has
-- none.
pub get_item-byte_at :
    (bs : Backers) (k : ℤ)
    → IsSound bs
    → get_item bs k ≡ byte_or_key_error (byte_at k (segments bs))
unfolding get_item segments byte_at byte_in
get_item-byte_at nil k h = refl
get_item-byte_at (raw start kind xs rest) k h =
    ground (arith, index-in_buffer xs (k -ℤ start), get_item-byte_at rest k h.1)
get_item-byte_at (child start info bs rest) k h =
    let (lo, hi, e, f, w) = h.0 in
    rw
      (
        e,
        f,
        get_item-byte_at bs (k -ℤ start) h.1,
        get_item-byte_at rest k h.2,
        byte_at-append k (shift_segments start (segments bs)) (segments rest),
        byte_at-shift start k (segments bs),
      )
      (get_item_child lo hi (k -ℤ start) (segments bs) (byte_at k (segments rest)) w)
