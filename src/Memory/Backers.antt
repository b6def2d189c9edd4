-- ===== src/Memory/Backers.antt =====
-- The state of a `Clemory`, and the generator `backers`.
-- A backer is a buffer or another memory, at its start address. The buffer's kind is its Python
-- class: `bytearray`, `list` of integers, `mmap`, or the constant `bytes` that an
-- `UninitializedClemory` yields. A memory that two others share is a copy in each.
use cle.Base.{
  ℕ, Bool, true, false, not, ◌&&◌, Option, none, some, List, [], length, if◌then◌else◌, Exception,
  Result, ok, err, type_error,
}
use cle.Base.Int.{ℤ, pos, ◌+ℤ◌, ◌-ℤ◌, leb_ℤ}

pub data Kind : Type 0 where
  byte_array int_list mmap byte_constant : Kind

-- The attributes of a memory beside its backers. `uninitialized` tells the subclass
-- `UninitializedClemory`; the bounds are `None` once the last backer is gone.
pub record Meta : Type 0 where
  pub root : Bool
  pub uninitialized : Bool
  pub consecutive : Bool
  pub min_addr : Option ℤ
  pub max_addr : Option ℤ

-- `_backers`: a list of starts with a buffer, or with the attributes and backers of a memory.
pub data Backers : Type 0 where
  nil : Backers
  raw : ℤ → Kind → List ℕ → Backers → Backers
  child : ℤ → Meta → Backers → Backers → Backers

pub record Clemory : Type 0 where
  pub info : Meta
  pub backers_list : Backers
  pub pointer : ℤ

-- `Clemory(arch, root)`
unfoldable pub new : Bool → Clemory
new root = record {
  info = record {
    root = root;
    uninitialized = false;
    consecutive = true;
    min_addr = some (pos 0);
    max_addr = some (pos 0);
  };
  backers_list = nil;
  pointer = pos 0;
}

-- What `backers` yields: a buffer at its address.
pub record Segment : Type 0 where
  pub start : ℤ
  pub kind : Kind
  pub content : List ℕ

-- The run of a generator: it yields segments, and ends or raises.
pub data Run : Type 0 where
  stop : Run
  raises : Exception → Run
  yields : Segment → Run → Run

unfoldable pub then_run : Run → Run → Run
then_run stop r = r
then_run (raises e) r = raises e
then_run (yields s q) r = yields s (then_run q r)

abbrev pub shift_segment : ℤ → Segment → Segment
shift_segment d s = record s { start = s.start +ℤ d }

unfoldable pub shift_run : ℤ → Run → Run
shift_run d stop = stop
shift_run d (raises e) = raises e
shift_run d (yields s q) = yields (shift_segment d s) (shift_run d q)

abbrev pub size : List ℕ → ℤ
size xs = pos (length xs)

-- The one segment that an `UninitializedClemory` yields.
abbrev pub empty_run : Run
empty_run = yields (record { start = pos 0; kind = Kind.byte_constant; content = [] }) stop

-- What a memory with these attributes yields, where `inner` is what its backers yield.
abbrev pub child_run : ℤ → Meta → Run → Run
child_run start info inner = shift_run start (if info.uninitialized then empty_run else inner)

-- The loop in `backers`. Once started, no later backer is skipped; to skip a memory, its upper
-- bound is read, which raises on `None`.
unfoldable pub backers_from : Backers → Bool → ℤ → Run
unfolding then_run shift_run
backers_from nil started addr = stop
backers_from (raw start kind xs rest) started addr =
    let skip = backers_from rest false addr in
    let take =
      yields (record { start = start; kind = kind; content = xs }) (backers_from rest true addr) in
    if not started && leb_ℤ (start +ℤ size xs) addr then skip else take
backers_from (child start info bs rest) started addr =
    let skip = backers_from rest false addr in
    let take =
      then_run (child_run start info (backers_from bs false (addr -ℤ start)))
        (backers_from rest true addr) in
    if started then take else elim info.max_addr [
      | none ↦ raises type_error
      | some top ↦ if leb_ℤ (start +ℤ top) addr then skip else take
    ]

unfoldable pub backers : Clemory → ℤ → Run
unfolding backers_from
backers m addr = if m.info.uninitialized then empty_run else backers_from m.backers_list false addr

-- `next(self.backers(addr))`, where `none` is `StopIteration`.
unfoldable pub next : Run → Result (Option Segment)
next stop = ok none
next (raises e) = err e
next (yields s q) = ok (some s)
