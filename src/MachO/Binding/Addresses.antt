-- ===== src/MachO/Binding/Addresses.antt =====
-- The addresses of the interpreter wrap around at 2 ^ 64.
use cle.Base.{ℕ, ◌+◌, ◌%◌, ◌^◌, ◌<◌, ◌≡◌, ◌≢◌, arith}
use cle.Base.Int.{pos, ◌+ℤ◌, ◌-ℤ◌}
use cle.MachO.Binding.{BindingState, add_address_ov}

-- The sum of two numbers below 2 ^ 64 is taken modulo 2 ^ 64, except that a sum of exactly 2 ^ 64
-- is left as it is.
pub add_address_ov_mod :
    (a d : ℕ) (s : BindingState)
    → a < 2 ^ 64
    → d < 2 ^ 64
    → a + d ≢ 2 ^ 64
    → (add_address_ov (pos a) (pos d) s).address ≡ pos ((a + d) % 2 ^ 64)
unfolding add_address_ov ◌+ℤ◌ ◌-ℤ◌
add_address_ov_mod a d s h g n = ground arith
