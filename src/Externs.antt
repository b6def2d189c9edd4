-- ===== src/Externs.antt =====
-- cle/backends/externs/__init__.py: how an `ExternObject` gives out addresses. Once it is mapped it
-- cannot grow, and what does not fit goes to another such object, which the loader registers
-- with its thread manager and maps at a base of its choice, `base_for`, if it finds one.
-- A list has an object and those behind it in `_next_object`.
pub mod Room
pub mod Growing
use Prim.Native.Nat.{bit_or}
use cle.Base.{
  ℕ, zero, suc, ◌+◌, ◌-◌, ◌*◌, ◌≡◌, Bool, true, false, not, ◌||◌, Option, none, some, List, [], ◌∷◌,
  ◌==◌, leb, max, length, take, drop, ◌++◌, replicate, splice, if◌then◌else◌, Result, ok, err,
  out_of_fuel, ◌>>=◌, cle_error, cle_operation_error, plain_exception,
}
use cle.Base.Int.{ℤ, pos, ◌+ℤ◌}
use cle.Utils.Align.{align_up}

pub record Extern : Type 0 where
  pub next_addr : ℕ
  pub map_size : ℕ
  pub tls_used : Bool
  pub tls_data_start : Option ℕ
  pub tls_data_size : ℕ
  pub tls_block_size : ℕ
  pub tls_next_addr : ℕ
  pub tls_mapped : Bool
  pub is_mapped : Bool
  pub mapped_base : ℤ

-- `ExternObject(loader, map_size, tls_size)`
abbrev pub new : ℕ → ℕ → Extern
new map_size tls_size = record {
  next_addr = 0;
  map_size = map_size;
  tls_used = false;
  tls_data_start = none;
  tls_data_size = tls_size;
  tls_block_size = 0;
  tls_next_addr = 0;
  tls_mapped = false;
  is_mapped = false;
  mapped_base = pos 0;
}

abbrev pub start_of : Bool → Extern → ℕ
start_of tls e = if tls then e.tls_next_addr else e.next_addr

abbrev pub limit_of : Bool → Extern → ℕ
limit_of tls e = if tls then e.tls_data_size else e.map_size

abbrev pub grow : Bool → ℕ → Extern → Extern
grow true n e = record e { tls_data_size = e.tls_data_size + n }
grow false n e = record e { map_size = e.map_size + n }

abbrev pub advance : Bool → ℕ → Extern → Extern
advance true n e = record e { tls_next_addr = n }
advance false n e = record e { next_addr = n }

abbrev pub or_thumb : Bool → ℕ → ℕ
or_thumb thumb addr = bit_or addr (if thumb then 1 else 0)

-- `_allocate`
unfoldable pub try_allocate : ℕ → ℕ → Bool → Bool → Extern → Option ℕ × Extern
unfolding align_up
try_allocate size alignment thumb tls e =
    let addr = or_thumb thumb (align_up (start_of tls e) alignment) in
    let next_start = addr + size in
    let wider = grow tls (next_start - limit_of tls e) e in
    if leb (limit_of tls e) next_start
    then if e.is_mapped then (none, e) else (some addr, advance tls next_start wider)
    else (some addr, advance tls next_start e)

unfoldable pub finalize_tls : Extern → Result Extern
unfolding try_allocate
finalize_tls e =
    let (start, e') = try_allocate e.tls_data_size 0x10 false false e in
    if e.is_mapped || e.tls_mapped
    then err plain_exception
    else if e.tls_data_size == 0
    then ok e
    else ok (record e' {
      tls_used = true;
      tls_data_start = start;
      tls_block_size = e.tls_data_size;
      tls_mapped = true;
    })

-- `rebase`, less the memory, which `build_backer` gives.
unfoldable pub rebase : ℤ → Extern → Result Extern
unfolding finalize_tls
rebase new_base e =
    let ready = if not e.tls_mapped then finalize_tls e else ok e in
    if e.is_mapped
    then ok e
    else (ready >>= λ e'. ok (record e' { is_mapped = true; mapped_base = new_base }))

-- The modules that the thread manager of the loader has, of so many at most.
pub record Registry : Type 0 where
  pub max_modules : ℕ
  pub modules : ℕ

-- `register_object` of the thread manager, as far as it can fail.
abbrev pub register : Extern → Registry → Result Registry
register e r =
    if not e.tls_used
    then ok r
    else if leb r.max_modules r.modules
    then err cle_error
    else ok (record r { modules = suc r.modules })

-- The base that the loader has for the object, if it finds one.
abbrev pub chosen_base : Option ℤ → Result ℤ
chosen_base none = err cle_operation_error
chosen_base (some base) = ok base

-- What `_internal_load` does with a new extern object, which has no relocations and no dependencies:
-- it registers it with the thread manager, and maps it at the base that it finds.
unfoldable pub load_extern : (Extern → Option ℤ) → Registry → Extern → Result (Extern × Registry)
unfolding rebase
load_extern base_for r e =
    register e r >>= λ r'. chosen_base (base_for e) >>= λ base. rebase base e >>= λ e'. ok (e', r')

-- `_make_new_externs`
unfoldable pub make_new_externs :
    (Extern → Option ℤ) → ℕ → ℕ → Bool → Registry → Result (Extern × Registry)
unfolding finalize_tls load_extern
make_new_externs base_for size alignment tls r =
    let map_size = if tls then 0x8000 else max (size + alignment) 0x8000 in
    let tls_size = if tls then max (size + alignment) 0x1000 else 0x1000 in
    finalize_tls (new map_size tls_size) >>= load_extern base_for r

-- The address, the objects and the thread manager after a call of `allocate`.
abbrev pub Allocated : Type 0
Allocated = ℤ × List Extern × Registry

-- `allocate` goes on to the next object, and makes one at the end of the list. It takes fuel, since
-- a new object may have no room either.
abbrev pub give :
    Bool → Extern → Option ℕ × Extern → List Extern → Registry → Result Allocated → Result Allocated
give tls e (some addr, e') es r later =
    ok (pos addr +ℤ (if tls then pos 0 else e.mapped_base), e' ∷ es, r)
give tls e (none, e') es r later =
    later >>= λ (addr, es', r'). ok (addr +ℤ (if tls then pos 0 else e.mapped_base), e' ∷ es', r')

unfoldable pub allocate :
    ℕ → (Extern → Option ℤ) → ℕ → ℕ → Bool → Bool → Registry → List Extern → Result Allocated
unfolding make_new_externs
allocate zero base_for size alignment thumb tls r es = out_of_fuel
allocate (suc fuel) base_for size alignment thumb tls r [] =
    make_new_externs base_for size alignment tls r >>= λ (e, r').
    allocate fuel base_for size alignment thumb tls r' (e ∷ [])
allocate (suc fuel) base_for size alignment thumb tls r (e ∷ es) =
    let later = allocate fuel base_for size alignment thumb tls r es in
    if not e.is_mapped
    then err cle_error
    else give tls e (try_allocate size alignment thumb tls e) es r later

-- What `rebase` fills the map with: zeros, and over them the values of the symbols, each a place,
-- whether it is thread-local, and its bytes.
abbrev pub write_at : List ℕ → ℕ → List ℕ → List ℕ
write_at backer start value = splice backer start (start + length value) value

unfoldable pub write_delayed : ℕ → List ℕ → List (ℕ × Bool × List ℕ) → List ℕ
write_delayed tls_data_size backer [] = backer
write_delayed tls_data_size backer ((at, tls, value) ∷ rest) =
    write_delayed tls_data_size (write_at backer (if tls then at + tls_data_size else at) value)
      rest

abbrev pub build_backer : Extern → List (ℕ × Bool × List ℕ) → List ℕ
build_backer e delayed = write_delayed e.tls_data_size (replicate e.map_size 0) delayed
