-- ===== src/Tests/Tls.antt =====
-- A manager with one module of 20 bytes, on an architecture whose blocks lie below the thread
-- pointer.
use cle.Base.{◌≡◌, refl, true, false, none, some, [], ◌∷◌, ◌++◌, ok, arith}
use cle.Base.Int.{pos, negsuc, ◌+ℤ◌, ◌-ℤ◌}
use cle.Base.Twos.{◌%ℤ◌}
use cle.Memory.Backers.{Clemory, raw, nil, byte_array}
use cle.Memory.Words.{little_endian}
use cle.Tls.{Module, TlsArch, Manager, new_manager}
use cle.Tls.Elf.{register_object, roundup, calculate_pointers}
use cle.Tls.Blocks.{IsLaidOut, placed, register_object-IsLaidOut}
use cle.Tls.Areas.{AreClear, EndsWell, calculate_pointers-AreClear}

abbrev arch : TlsArch
arch = record {
  word = 4;
  endness = little_endian;
  variant = 2;
  tcbhead_size = 64;
  head_offsets = pos 16 ∷ [];
  dtv_offsets = pos 8 ∷ [];
  pthread_offsets = [];
  tp_offset = pos 0;
  dtv_entry_offset = pos 0;
}

abbrev memory : Clemory
memory = record {
  info = record {
    root = false;
    uninitialized = false;
    consecutive = true;
    min_addr = some (pos 0);
    max_addr = some (pos 4);
  };
  backers_list = raw (pos 0) byte_array (1 ∷ 2 ∷ 3 ∷ 4 ∷ []) nil;
  pointer = pos 0;
}

abbrev lib : Module
lib = record {
  ident = 1;
  tls_used = true;
  tls_block_size = 20;
  tls_data_start = pos 1;
  tls_data_size = pos 2;
  tls_module_id = none;
  tls_block_offset = none;
  tls_index_address = none;
  linked_base = pos 0;
  memory = memory;
}

abbrev start : Manager
start = new_manager 2

start-IsLaidOut : IsLaidOut arch start
start-IsLaidOut = record {
  used = 0;
  is_used = refl;
  aligned = omega arith;
  numbered = tt;
  inside = tt;
  apart = tt;
}

register_object-IsLaidOut_example :
    (t' : Manager) × (register_object arch lib start ≡ ok (true, t'))
    × IsLaidOut arch t'
    × (t'.modules ≡ start.modules ++ placed arch lib start ∷ [])
register_object-IsLaidOut_example =
    register_object-IsLaidOut arch lib start start-IsLaidOut refl refl (omega arith)

abbrev one_module : Manager
one_module = record start {
  modules = record lib { tls_module_id = some 0; tls_block_offset = some (negsuc 31) } ∷ [];
  used_data = pos 32;
}

registered : register_object arch lib start ≡ ok (true, one_module)
unfolding register_object roundup ◌+ℤ◌ ◌-ℤ◌ ◌%ℤ◌
registered = refl

one_module-IsLaidOut : IsLaidOut arch one_module
unfolding ◌+ℤ◌ ◌-ℤ◌
one_module-IsLaidOut = record {
  used = 32;
  is_used = refl;
  aligned = omega arith;
  numbered = (refl, tt);
  inside = ((negsuc 31, refl, omega arith, omega arith), tt);
  apart = (tt, tt);
}

calculate_pointers-AreClear_example :
    AreClear arch (calculate_pointers arch (pos 32) 2) one_module.modules
    × EndsWell arch (calculate_pointers arch (pos 32) 2) 2
calculate_pointers-AreClear_example =
    calculate_pointers-AreClear arch one_module one_module-IsLaidOut
