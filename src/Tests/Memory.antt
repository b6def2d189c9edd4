-- ===== src/Tests/Memory.antt =====
-- A memory with a gap, with a memory inside it, at concrete addresses.
use cle.Base.{
  ◌&&◌, ◌≡◌, ◌≢◌, refl, arith, true, false, some, [], ◌∷◌, if◌then◌else◌, ok, err, key_error,
}
use cle.Base.Int.{pos, leb_ℤ, ltb_ℤ, ◌+ℤ◌, ◌-ℤ◌}
use cle.Memory.Backers.{byte_array, Meta, Backers, nil, raw, child, Clemory}
use cle.Memory.Items.{get_item, set_item, contains}
use cle.Memory.Bytes.{segments, byte_at, byte_or_key_error}
use cle.Memory.Reading.{IsSound, get_item-byte_at}
use cle.Memory.Layout.{update_min_max}
use cle.Memory.Extents.{AllKept, IsKept, update_min_max-IsKept}
use cle.Memory.Membership.{has_byte, contains-byte_at}
use cle.Memory.Writing.{Assigned, set_item-Assigned}
use cle.Memory.Runs.{IsLaid}
use cle.Memory.Spans.{run_bytes}
use cle.Memory.Access.{load}
use cle.Memory.View.{view_of, view_get_item, view_get_item-byte_at}
use cle.Memory.Loading.{AllViewable, load-run_bytes}

abbrev inner : Backers
inner = raw (pos 0) byte_array (10 ∷ 11 ∷ []) nil

abbrev inner_info : Meta
inner_info = record {
  root = false;
  uninitialized = false;
  consecutive = true;
  min_addr = some (pos 0);
  max_addr = some (pos 2);
}

abbrev outer : Backers
outer = raw (pos 4) byte_array (1 ∷ 2 ∷ 3 ∷ []) (child (pos 7) inner_info inner nil)

abbrev memory : Clemory
memory = record {
  info = record {
    root = true;
    uninitialized = false;
    consecutive = true;
    min_addr = some (pos 4);
    max_addr = some (pos 9);
  };
  backers_list = outer;
  pointer = pos 0;
}

inner-nil : inner ≢ nil
inner-nil e = cc

outer-nil : outer ≢ nil
outer-nil e = cc

inner-IsKept : IsKept inner_info inner
unfolding update_min_max ◌+ℤ◌
inner-IsKept =
    update_min_max-IsKept (record memory { info = inner_info }) inner inner-nil (omega arith, tt) tt

outer-AllKept : AllKept outer
outer-AllKept = (inner-IsKept, tt)

outer-IsKept : IsKept memory.info outer
unfolding update_min_max ◌+ℤ◌
outer-IsKept =
    update_min_max-IsKept memory outer outer-nil (omega arith, (omega arith, tt)) outer-AllKept

update_min_max-IsKept_example : IsKept (update_min_max memory outer).info outer
update_min_max-IsKept_example =
    update_min_max-IsKept memory outer outer-nil (omega arith, (omega arith, tt)) outer-AllKept

outer-IsSound : IsSound outer
unfolding segments ◌+ℤ◌
outer-IsSound = (refl, ((pos 0, pos 2, refl, refl, (omega arith, omega arith, tt)), (refl, tt), tt))

get_item-byte_at_example :
    get_item outer (pos 7) ≡ byte_or_key_error (byte_at (pos 7) (segments outer))
get_item-byte_at_example = get_item-byte_at outer (pos 7) outer-IsSound

contains-byte_at_example :
    contains memory (pos 8) ≡ ok (has_byte (byte_at (pos 8) (segments outer)))
contains-byte_at_example = contains-byte_at memory (pos 8) outer-IsKept outer-IsSound

set_item-Assigned_example : Assigned (pos 8) 200 outer (set_item outer (pos 8) 200)
set_item-Assigned_example = set_item-Assigned outer (pos 8) 200 (omega arith) outer-IsSound

outer-IsLaid : IsLaid (pos 0) outer
unfolding segments ◌+ℤ◌
outer-IsLaid = (
  omega arith,
  omega arith,
  (
    omega arith,
    refl,
    (omega arith, omega arith, tt),
    (pos 2, (refl, omega arith, (omega arith, omega arith, tt)), tt),
  ),
)

outer-AllViewable : AllViewable (segments outer)
unfolding segments
outer-AllViewable = (refl, (refl, tt))

load-run_bytes_example : load memory (pos 5) 3 ≡ (
    if has_byte (byte_at (pos 5) (segments outer))
    then ok (run_bytes 3 (pos 5) (segments outer))
    else err key_error)
load-run_bytes_example = load-run_bytes memory (pos 0) (pos 5) 3 refl outer-IsLaid outer-AllViewable

view_get_item-byte_at_example :
    view_get_item (view_of memory (pos 4) (pos 8) (pos 100)) (pos 103) ≡ (
      if leb_ℤ (pos 100) (pos 103) && ltb_ℤ (pos 103) (pos 100 +ℤ (pos 8 -ℤ pos 4))
      then byte_or_key_error (byte_at (pos 103 +ℤ (pos 4 -ℤ pos 100)) (segments outer))
      else err key_error)
view_get_item-byte_at_example =
    view_get_item-byte_at memory (pos 4) (pos 8) (pos 100) (pos 103) outer-IsSound
