-- ===== src/Tests/Streams.antt =====
-- Address translators and patched streams at concrete inputs.
use cle.Base.{ℕ, ◌+◌, ◌<◌, ◌≡◌, true, some, List, [], ◌∷◌, length, get_elem?}
use cle.Base.Int.{pos, ◌+ℤ◌, ◌-ℤ◌}
use cle.AddressTranslator.{Owner}
use cle.PatchedStream.{File, Patch, PatchedStream, file_read, read}
use cle.PatchedStream.Overlay.{overlay, read-overlay}

abbrev program : Owner
program = record {
  linked_base = pos 4096;
  mapped_base = pos 65536;
  is_mapped = true;
  addr_to_offset = λ a. some (a -ℤ pos 65536);
  offset_to_addr = λ a. some (a +ℤ pos 65536);
}

abbrev file : File
file = record { bytes = 0 ∷ 1 ∷ 2 ∷ 3 ∷ 4 ∷ 5 ∷ 6 ∷ 7 ∷ []; position = 2 }

abbrev stream : PatchedStream
stream = record { stream = file; patches = record { addr = 3; patch = 90 ∷ 91 ∷ [] } ∷ []; pos = 2 }

abbrev later : List Patch
later = record { addr = 4; patch = 80 ∷ [] } ∷ []

read-overlay_example :
    (length (read stream (some 4)).0 ≡ length (file_read file (some 4)).0)
    × ((read stream (some 4)).1.pos ≡ 2 + length (file_read file (some 4)).0)
    × ((i : ℕ)
        → i < length (file_read file (some 4)).0
        → get_elem? (read stream (some 4)).0 i
          ≡ overlay stream.patches (2 + i) (get_elem? (file_read file (some 4)).0 i))
read-overlay_example = read-overlay stream (some 4)
