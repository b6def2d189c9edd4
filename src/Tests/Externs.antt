-- ===== src/Tests/Externs.antt =====
-- An extern object that is full, and a new one behind it.
use cle.Base.{Exception, err, Option, ◌^◌, ◌≡◌, refl, true, false, some, [], ◌∷◌, ok, arith}
use cle.Base.Int.{ℤ, pos}
use cle.Externs.{Extern, new, try_allocate, Registry, Allocated, allocate}
use cle.Externs.Room.{IsGiven, try_allocate-IsGiven}
use cle.Externs.Growing.{allocate-refused, allocate-ends}

abbrev full : Extern
full = record (new 0x8000 0x1000) {
  next_addr = 0x7FF0;
  tls_used = true;
  tls_data_start = some 0;
  tls_block_size = 0x1000;
  tls_mapped = true;
  is_mapped = true;
  mapped_base = pos 0x500000;
}

abbrev base_for : Extern → Option ℤ
base_for e = some (pos 0x600000)

-- A thread manager with room for two modules more.
abbrev registry : Registry
registry = record { max_modules = 256; modules = 254 }

try_allocate-IsGiven_example :
    IsGiven 0x10
      (2 ^ 3)
      true
      false
      (new 0x8000 0x1000)
      (try_allocate 0x10 (2 ^ 3) true false (new 0x8000 0x1000))
try_allocate-IsGiven_example = try_allocate-IsGiven 0x10 3 true false (new 0x8000 0x1000)

allocate-refused_example :
    (x : Exception) × (allocate 6 base_for 0x7000 (2 ^ 4) false false registry (full ∷ []) ≡ err x)
allocate-refused_example =
    allocate-refused base_for 0x7000 4 false 6 registry (full ∷ []) (omega arith) (omega arith)
      (refl, tt) (omega arith, tt) (omega arith)

allocate-ends_example :
    (found : Allocated) × (allocate 3 base_for 0x40 (2 ^ 3) false false registry (full ∷ [])
      ≡ ok found)
allocate-ends_example =
    allocate-ends base_for 0x40 3 false 3 registry (full ∷ []) (omega arith) (refl, tt)
      (omega arith) (λ e h. absurd (cc)) (omega arith)
