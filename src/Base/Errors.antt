-- ===== src/Base/Errors.antt =====
-- Python's exceptions: a call returns a value or raises one of these, without its message.
-- `out_of_fuel` is no outcome of the program: it marks a loop whose fuel was too small.
use mathlib.Core.Path.{◌≡◌, refl}
use mathlib.Core.Bool.{Bool, true, false}
use cle.Base.Tests.{if◌then◌else◌}

pub data Exception : Type 0 where
  key_error value_error type_error index_error struct_error zero_division_error : Exception
  cle_error cle_operation_error cle_invalid_binary_error : Exception
  assertion_error name_error attribute_error plain_exception : Exception

pub data Result {ℓ} (A : Type ℓ) : Type ℓ where
  ok : A → Result A
  err : Exception → Result A
  out_of_fuel : Result A

infixl 5 ◌>>=◌
abbrev pub ◌>>=◌ {ℓ κ} : {A : Type ℓ} {B : Type κ} → Result A → (A → Result B) → Result B
ok a >>= f = f a
err e >>= f = err e
out_of_fuel >>= f = out_of_fuel

-- A chain that ends well has begun well.
pub bind-ok {ℓ κ} :
    {A : Type ℓ} {B : Type κ} (r : Result A) (f : A → Result B) {b : B}
    → (r >>= f) ≡ ok b
    → (a : A) × (r ≡ ok a) × (f a ≡ ok b)
bind-ok (ok a) f e = (a, refl, e)
bind-ok (err x) f e = absurd (cc)
bind-ok out_of_fuel f e = absurd (cc)

-- So has a test whose other branch raises.
pub guard-ok {ℓ} :
    {A : Type ℓ} (c : Bool) (x : Exception) (r : Result A) {a : A}
    → (if c then err x else r) ≡ ok a
    → (c ≡ false) × (r ≡ ok a)
guard-ok true x r e = absurd (cc)
guard-ok false x r e = (refl, e)
