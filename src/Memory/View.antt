-- ===== src/Memory/View.antt =====
-- `ClemoryView`, a window onto a memory with addresses of its own, and `ClemoryTranslator`, which
-- sends each address through a function. Both stand here over a `Clemory`.
use cle.Base.{
  ℕ, ◌≡◌, Bool, not, ◌&&◌, ◌||◌, List, [], length, drop, ◌==◌, if◌then◌else◌, Result, ok, err,
  ◌>>=◌, key_error, type_error, inl, inr, Bool-cases,
}
use cle.Base.Int.{ℤ, pos, ◌+ℤ◌, ◌-ℤ◌, leb_ℤ, ltb_ℤ, to_ℕ}
use cle.Memory.Backers.{Clemory, Segment, Run, stop, raises, yields, size, backers}
use cle.Memory.Items
use cle.Memory.Access
use cle.Memory.Access.{viewable, upto}
use cle.Memory.Bytes.{segments, byte_at, byte_or_key_error}
use cle.Memory.Reading.{IsSound, get_item-byte_at}

pub record View : Type 0 where
  pub backer : Clemory
  pub start : ℤ
  pub end : ℤ
  pub offset : ℤ
  pub endoffset : ℤ
  pub shift : ℤ

-- `ClemoryView(backer, start, end, offset)`
unfoldable pub view_of : Clemory → ℤ → ℤ → ℤ → View
view_of backer start end offset = record {
  backer = backer;
  start = start;
  end = end;
  offset = offset;
  endoffset = offset +ℤ (end -ℤ start);
  shift = start -ℤ offset;
}

abbrev pub inside : View → ℤ → Bool
inside v k = leb_ℤ v.offset k && ltb_ℤ k v.endoffset

unfoldable pub view_get_item : View → ℤ → Result ℕ
view_get_item v k =
    if not (inside v k) then err key_error else Items.get_item v.backer.backers_list (k +ℤ v.shift)

-- `__setitem__` reads the byte, and changes nothing.
unfoldable pub view_set_item : View → ℤ → ℕ → Result View
unfolding view_get_item
view_set_item v k value = view_get_item v k >>= λ b. ok v

unfoldable pub view_contains : View → ℤ → Result Bool
view_contains v k =
    if not (inside v k) then err key_error else Items.contains v.backer (k +ℤ v.shift)

-- `view[from:to]`, for a lower bound that is not negative.
abbrev pub cut : ℤ → ℤ → List ℕ → List ℕ
cut from to xs = drop (to_ℕ from) (upto to xs)

-- What `backers` yields for a buffer that reaches over an end of the view.
abbrev pub clamp : View → Segment → Segment
clamp v s =
    let low : ℤ = if ltb_ℤ s.start v.offset then v.offset -ℤ s.start else pos 0 in
    let high : ℤ =
      if leb_ℤ v.endoffset (s.start +ℤ size s.content -ℤ pos 1)
      then size s.content -ℤ v.endoffset +ℤ s.start
      else size s.content in
    record s { content = cut low high s.content }

-- The body of the loop in `backers`, at a buffer whose start is one of the view's addresses.
abbrev pub offer : View → Segment → Run → Run
offer v s rest =
    let last = s.start +ℤ size s.content -ℤ pos 1 in
    if inside v s.start && inside v last
    then yields s rest
    else if leb_ℤ v.endoffset s.start || ltb_ℤ last v.offset
    then rest
    else if viewable s.kind
    then yields (clamp v s) rest
    else raises type_error

unfoldable pub view_run : View → Run → Run
view_run v stop = stop
view_run v (raises e) = raises e
view_run v (yields s rest) = offer v (record s { start = s.start -ℤ v.shift }) (view_run v rest)

unfoldable pub view_backers : View → ℤ → Run
unfolding view_run
view_backers v addr = view_run v (backers v.backer (addr +ℤ v.shift))

-- A range of `n` bytes, of which the first or the last may lie outside.
unfoldable pub view_load : View → ℤ → ℕ → Result (List ℕ)
view_load v addr n =
    if n == 0
    then ok []
    else if not (inside v addr)
    then err key_error
    else if not (inside v (addr +ℤ pos n -ℤ pos 1))
    then err key_error
    else Access.load v.backer (addr +ℤ v.shift) n

unfoldable pub view_store : View → ℤ → List ℕ → View × Result (Unit {0})
view_store v addr bytes =
    let stored : View × Result (Unit {0}) =
      let (m, r) = Access.store v.backer (addr +ℤ v.shift) bytes in (record v { backer = m }, r) in
    if length bytes == 0
    then (v, ok tt)
    else if not (inside v addr)
    then (v, err key_error)
    else if not (inside v (addr +ℤ pos (length bytes) -ℤ pos 1))
    then (v, err key_error)
    else stored

pub record Translator : Type 0 where
  pub backer : Clemory
  pub func : ℤ → ℤ

unfoldable pub translated_get_item : Translator → ℤ → Result ℕ
translated_get_item t k = Items.get_item t.backer.backers_list (t.func k)

unfoldable pub translated_contains : Translator → ℤ → Result Bool
translated_contains t k = Items.contains t.backer (t.func k)

unfoldable pub translated_load : Translator → ℤ → ℕ → Result (List ℕ)
translated_load t addr n = Access.load t.backer (t.func addr) n

unfoldable pub translated_store : Translator → ℤ → List ℕ → Translator × Result (Unit {0})
translated_store t addr bytes =
    let (m, r) = Access.store t.backer (t.func addr) bytes in (record t { backer = m }, r)

unfoldable pub translated_set_item : Translator → ℤ → ℕ → Result Translator
translated_set_item t k value = Items.set_item t.backer.backers_list (t.func k) value >>= λ bs.
    ok (record t { backer = record t.backer { backers_list = bs } })

-- Where each buffer of the parent is a `bytearray` or a list, and the bounds of the memories in it enclose what is
-- in them, a view reads, from `offset` up to but not including `offset + end - start`, the byte that
-- its parent has at the address moved by `start - offset`, or raises `KeyError` where that has none;
-- outside of this window a read raises `KeyError`, also where the parent has a byte.
pub view_get_item-byte_at :
    (m : Clemory) (start end offset k : ℤ)
    → IsSound m.backers_list
    → view_get_item (view_of m start end offset) k ≡ (
        if leb_ℤ offset k && ltb_ℤ k (offset +ℤ (end -ℤ start))
        then byte_or_key_error (byte_at (k +ℤ (start -ℤ offset)) (segments m.backers_list))
        else err key_error)
unfolding view_get_item view_of
view_get_item-byte_at m start end offset k sound =
    elim (Bool-cases (leb_ℤ offset k && ltb_ℤ k (offset +ℤ (end -ℤ start)))) [
      | inl within ↦ rw within (get_item-byte_at m.backers_list (k +ℤ (start -ℤ offset)) sound)
      | inr out ↦ rw out
    ]
