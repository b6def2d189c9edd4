-- ===== src/Loader.antt =====
-- The address space of cle/loader.py: where an object is placed, its mapping, the search of the
-- object around an address, and the queries that start with it. The loader's list of objects is
-- sorted by their lowest addresses. What is aligned is the address behind an object, which is not
-- negative, as the assertion on `mapped_base` says. The main object stands in a field of its own,
-- and its other copy, if it is mapped, in the list.
pub mod Space
pub mod Entering
pub mod Choosing
pub mod Mapping
pub mod Search
pub mod Queries
pub mod Querying
pub mod Order
pub mod Found
use cle.Base.{
  ℕ, zero, suc, ◌+◌, ◌-◌, ◌*◌, ◌^◌, Bool, true, false, not, ◌&&◌, ◌||◌, Option, none, some, List,
  [], ◌∷◌, ltb, ◌==◌, if◌then◌else◌, Exception, Result, ok, err, out_of_fuel, ◌>>=◌, cle_error,
  cle_operation_error, assertion_error, name_error, index_error,
}
use cle.Base.Int.{ℤ, pos, ◌+ℤ◌, ◌-ℤ◌, leb_ℤ, ltb_ℤ, eqb_ℤ, to_ℕ}
use cle.Utils.Align.{align_up}
use cle.Utils.Bisect.{key_bisect_insort_right, key_bisect_floor_key}
use cle.Region.{Region}
use cle.Memory.Backers.{Clemory}
use cle.Memory.Items
use cle.Memory.Layout.{memory}
use cle.Memory.Change.{add_backer}
use cle.Backend.{Backend, rebase, min_addr, max_addr}

pub record Loader : Type 0 where
  pub bits : ℕ
  pub rebase_granularity : ℕ
  pub main_object : Backend
  pub all_objects : List Backend
  pub space : Clemory
  pub last_object : Option Backend

-- `obj.max_addr`, whose cache matters only to `_map_object`.
abbrev pub end_of : Backend → ℤ
end_of o = (max_addr o).0

-- `ALIGN_UP` of the address `a`.
abbrev pub align_from : ℤ → ℕ → ℤ
align_from a granularity = pos (align_up (to_ℕ a) granularity)

unfoldable pub first_gap : Loader → ℤ
first_gap l =
    if ltb l.bits 32 || leb_ℤ (pos (2 ^ (l.bits - 1))) (end_of l.main_object)
    then pos 0
    else align_from (end_of l.main_object +ℤ pos 1) l.rebase_granularity

-- The loop over the objects.
unfoldable pub gap_among : ℕ → ℤ → ℤ → List Backend → ℤ
gap_among granularity size gap_start [] = gap_start
gap_among granularity size gap_start (o ∷ os) =
    let later = gap_among granularity size (align_from (end_of o +ℤ pos 1) granularity) os in
    if leb_ℤ (gap_start +ℤ size) (min_addr o) then gap_start else later

-- The loop over the segments and their successors, which looks for a hole between them.
unfoldable pub hole_among : ℕ → ℤ → List Region → Result ℤ
hole_among granularity size [] = err cle_operation_error
hole_among granularity size (s ∷ []) = err cle_operation_error
hole_among granularity size (s ∷ t ∷ rest) =
    let gap_start = align_from (s.vaddr +ℤ pos s.memsize) granularity in
    let later = hole_among granularity size (t ∷ rest) in
    if leb_ℤ size (t.vaddr -ℤ gap_start) then ok gap_start else later

unfoldable pub find_safe_rebase_addr : Loader → ℤ → Result ℤ
unfolding first_gap gap_among hole_among
find_safe_rebase_addr l size =
    let gap_start = gap_among l.rebase_granularity size (first_gap l) l.all_objects in
    if ltb_ℤ (pos (2 ^ l.bits)) (gap_start +ℤ size)
    then hole_among l.rebase_granularity size l.main_object.segments.list
    else ok gap_start

unfoldable pub clashes : ℤ → ℤ → Backend → Bool
clashes va size o =
    (leb_ℤ (min_addr o) va && leb_ℤ va (end_of o))
    || (leb_ℤ va (min_addr o) && ltb_ℤ (min_addr o) (va +ℤ size))

unfoldable pub clashes_any : ℤ → ℤ → List Backend → Bool
unfolding clashes
clashes_any va size [] = false
clashes_any va size (o ∷ os) = clashes va size o || clashes_any va size os

unfoldable pub is_range_free : Loader → ℤ → ℤ → Bool
unfolding clashes_any
is_range_free l va size =
    if ltb_ℤ va (pos 0) || ltb_ℤ (pos (2 ^ l.bits)) (va +ℤ size)
    then false
    else not (clashes_any va size l.all_objects)

abbrev pub custom_is_free : Loader → Option ℤ → ℤ → Option ℤ
custom_is_free l none size = none
custom_is_free l (some base) size = if is_range_free l base size then some base else none

-- The base where no other is asked for: the one it was linked at, a safe one, or, for the main
-- object, 0x400000.
unfoldable pub default_base : Loader → Backend → ℤ → Result ℤ
unfolding is_range_free find_safe_rebase_addr
default_base l obj size =
    if not (eqb_ℤ obj.linked_base (pos 0)) && is_range_free l obj.linked_base size
    then ok obj.linked_base
    else if not obj.is_main_bin
    then find_safe_rebase_addr l size
    else ok (pos 4194304)

abbrev pub or_chosen : Option ℤ → Result ℤ → Result ℤ
or_chosen none r = r
or_chosen (some base) r = ok base

-- The base of an object that may be moved.
unfoldable pub choose_base : Loader → Backend → ℤ → Result ℤ
unfolding default_base
choose_base l obj size =
    or_chosen (custom_is_free l obj.custom_base_addr size) (default_base l obj size)

-- An object and the base that it is mapped at.
pub record Placed : Type 0 where
  pub base : ℤ
  pub object : Backend

abbrev pub put_at : ℤ → Backend → Result Placed
put_at base obj = ok (record { base = base; object = obj })

-- The branch on `obj.pic`.
unfoldable pub settle : Loader → Backend → ℤ → Result Placed
unfolding choose_base is_range_free
settle l obj size =
    if obj.pic
    then (choose_base l obj size >>= λ base. rebase base obj >>= put_at base)
    else if is_range_free l obj.linked_base size
    then put_at obj.linked_base obj
    else err cle_error

-- Mounts the memory of the object, if it has one.
unfoldable pub mount : Loader → ℤ → Backend → Result Clemory
mount l base obj =
    if not obj.has_memory
    then ok l.space
    else if leb_ℤ (min_addr obj) (end_of obj)
    then add_backer l.space base (memory obj.memory) false
    else err assertion_error

-- Enters the object into the list of objects.
unfoldable pub enter : Loader → Clemory → Backend → Result Loader
enter l space obj =
    let mapped = record obj { is_mapped = true } in
    key_bisect_insort_right min_addr l.all_objects mapped (pos 0) none >>= λ objects. ok (record l {
      space = space;
      all_objects = objects;
      main_object = if obj.ident == l.main_object.ident then mapped else l.main_object;
    })

-- `_map_object` up to the lines that log the imports.
unfoldable pub integrate : Loader → Backend → Result Loader
unfolding settle mount enter
integrate l obj =
    let (top, known) = max_addr obj in
    settle l known (top -ℤ min_addr obj +ℤ pos 1) >>= λ placed.
    if ltb_ℤ placed.object.mapped_base (pos 0)
    then err assertion_error
    else (mount l placed.base placed.object >>= λ space. enter l space placed.object)

-- `_map_object`. `parses` tells whether `pefile.PE` accepts the file of an object; where it does
-- not, the name `pe` stays unbound, and is read for the main object, which is mapped by then. An
-- exception before that abandons the load, so no state is returned with it.
unfoldable pub map_object :
    (Backend → Bool) → Loader → Backend → Result (Loader × Result (Unit {0}))
unfolding integrate
map_object parses l obj = integrate l obj >>= λ l'.
    ok (l', if obj.is_main_bin && not (parses obj) then err name_error else ok tt)
