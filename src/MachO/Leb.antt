-- ===== src/MachO/Leb.antt =====
-- `read_uleb` and `read_sleb` of cle/backends/macho/binding.py. A byte is below 256: its low seven
-- bits are its remainder by 128, and as they are put above the bits read before, the bitwise or of
-- the source is a sum. The blob is given from the offset on; the second result is the length.
use cle.Base.{ℕ, suc, ◌+◌, ◌*◌, ◌%◌, ◌/◌, ◌^◌, Bool, List, [], ◌∷◌, drop, if◌then◌else◌, ◌==◌}
use cle.Base.Int.{ℤ, pos, ◌-ℤ◌}

-- `b & 0x80 == 0` and `b & 0x40`
abbrev pub is_last : ℕ → Bool
is_last b = (b / 128) % 2 == 0

abbrev pub is_negative : ℕ → Bool
is_negative b = (b / 64) % 2 == 1

-- The loop: the bytes that are left, and `shift`, `result` and the number of bytes read.
unfoldable pub uleb_loop : List ℕ → ℕ → ℕ → ℕ → ℕ × ℕ
uleb_loop [] shift result count = (result, count)
uleb_loop (b ∷ bs) shift result count =
    let result' = result + (b % 128) * 2 ^ shift in
    let more = uleb_loop bs (shift + 7) result' (suc count) in
    if is_last b then (result', suc count) else more

unfoldable pub read_uleb : List ℕ → ℕ → ℕ × ℕ
unfolding uleb_loop
read_uleb blob offset = uleb_loop (drop offset blob) 0 0 0

unfoldable pub sleb_loop : List ℕ → ℕ → ℕ → ℕ → ℤ × ℕ
sleb_loop [] shift result count = (pos result, count)
sleb_loop (b ∷ bs) shift result count =
    let result' = result + (b % 128) * 2 ^ shift in
    let more = sleb_loop bs (shift + 7) result' (suc count) in
    let value : ℤ = if is_negative b then pos result' -ℤ pos (2 ^ (shift + 7)) else pos result' in
    if is_last b then (value, suc count) else more

unfoldable pub read_sleb : List ℕ → ℕ → ℤ × ℕ
unfolding sleb_loop
read_sleb blob offset = sleb_loop (drop offset blob) 0 0 0
