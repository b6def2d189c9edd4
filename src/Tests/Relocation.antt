-- ===== src/Tests/Relocation.antt =====
-- A relocation with objects that define its symbol, and instructions that are relocated.
use cle.Base.{
  ℕ, ◌+◌, ◌-◌, ◌*◌, ◌/◌, ◌%◌, ◌^◌, ◌<◌, ◌≡◌, ◌⊎◌, refl, Bool, true, false, Option, none, some, List,
  [], ◌∷◌, arith,
}
use cle.Base.Int.{ℤ, pos, ◌+ℤ◌}
use cle.Base.Twos.{◌|ℤ◌, ◌%ℤ◌}
use cle.AddressTranslator.{Owner}
use cle.Relocation.{
  Name, Holder, Symbol, function, Provider, Linking, MakeExtern, search_and_resolve,
}
use cle.Relocation.Resolution.{resolve_by, preferred, usable, search_and_resolve-preferred}
use cle.Relocation.Generic.{plainly, is_truncated}
use cle.Relocation.Truncation.{is_truncated-extended}
use cle.Relocation.Ppc.{high_adjusted, low_half}
use cle.Relocation.Halves.{sign_extended, high_adjusted-low_half}
use cle.Relocation.Arm64.{patch_page, patch_lo12, page_distance}
use cle.Relocation.Pages.{page_of, offset_of, patch_page-patch_lo12}
use cle.Relocation.Arm.{call, literal, signed_half, movw_abs_nc, to_bit}
use cle.Relocation.Calls.{call-arm, call-thumb}
use cle.Relocation.Literals.{HasLiteral, movw_abs_nc-HasLiteral}

abbrev space_at : ℤ → Owner
space_at base = record {
  linked_base = pos 0;
  mapped_base = base;
  is_mapped = true;
  addr_to_offset = λ a. some a;
  offset_to_addr = λ a. some a;
}

abbrev holder : ℕ → ℤ → Holder
holder ident base = record {
  ident = ident;
  space = space_at base;
  tls_block_offset = none;
  tls_module_id = pos 0;
}

abbrev puts : Name
puts = b'p' ∷ b'u' ∷ b't' ∷ b's' ∷ []

abbrev wanted : Symbol
wanted = record {
  name = puts;
  owner = holder 1 (pos 0x400000);
  relative_addr = pos 0;
  size = 0;
  kind = function;
  is_static = false;
  is_local = false;
  is_weak = false;
  is_import = true;
  is_export = false;
  is_extern = false;
}

abbrev defined : Bool → ℕ → Symbol
defined weak ident = record wanted {
  owner = holder ident (pos 0x500000);
  is_weak = weak;
  is_import = false;
  is_export = true;
}

abbrev provider : ℕ → Option Symbol → Provider
provider ident s = record { id = ident; get_symbol = λ name. s }

-- The program itself, a library with a weak definition, and one with a strong definition.
abbrev in_order : List Provider
in_order =
    provider 1 (some wanted)
    ∷ provider 2 (some (defined true 2))
    ∷ provider 3 (some (defined false 3))
    ∷ []

abbrev unresolved : Linking ℕ
unresolved = record {
  reloc = record {
    owner = holder 1 (pos 0x400000);
    symbol = some wanted;
    relative_addr = pos 0x1000;
    addend = pos 0;
    is_rela = true;
    resolvedby = none;
    resolved = false;
  };
  imports = [];
  externs = 0;
}

abbrev counting : MakeExtern ℕ
counting n name kind thumb point_to = (wanted, n + 1)

strong_is_found : preferred (usable puts 1 in_order) ≡ some (defined false 3)
unfolding usable
strong_is_found = refl

search_and_resolve-preferred_example :
    search_and_resolve counting plainly false in_order unresolved
    ≡ resolve_by counting plainly false wanted unresolved (preferred (usable puts 1 in_order))
search_and_resolve-preferred_example =
    search_and_resolve-preferred counting plainly false in_order unresolved wanted refl refl refl
      refl refl

high_adjusted-low_half_example :
    (h l : ℕ) × (high_adjusted (pos 0x1234ABCD) ≡ pos h)
    × (low_half (pos 0x1234ABCD) ≡ pos l)
    × (h < 2 ^ 16)
    × (l < 2 ^ 16)
    × ((h * 2 ^ 16 + sign_extended l) % 2 ^ 32 ≡ pos 0x1234ABCD %ℤ 2 ^ 32)
high_adjusted-low_half_example = high_adjusted-low_half (pos 0x1234ABCD)

patch_page-patch_lo12_example :
    (n m : ℕ) × (patch_page (pos 0x90000000) (page_distance (pos 0x412345) (pos 0x400010)) ≡ pos n)
    × (patch_lo12 0 (pos 0x91000000) (pos 0x412345) ≡ pos m)
    × (((pos 0x400010 %ℤ 2 ^ 33 / 2 ^ 12 + page_of n) * 2 ^ 12 + offset_of m) % 2 ^ 33
        ≡ pos 0x412345 %ℤ 2 ^ 33)
    × (n / 2 ^ 31 ≡ 0x90000000 / 2 ^ 31)
    × (n / 2 ^ 24 % 2 ^ 5 ≡ 0x90000000 / 2 ^ 24 % 2 ^ 5)
    × (n % 2 ^ 5 ≡ 0x90000000 % 2 ^ 5)
    × (m / 2 ^ 22 ≡ 0x91000000 / 2 ^ 22)
    × (m % 2 ^ 10 ≡ 0x91000000 % 2 ^ 10)
patch_page-patch_lo12_example =
    patch_page-patch_lo12 0x90000000 0x91000000 (pos 0x412345) (pos 0x400010) (omega arith)
      (omega arith)

movw_abs_nc-HasLiteral_example :
    HasLiteral 0xE3000000
      (((pos 0x12345678 +ℤ signed_half (literal (pos 0xE3000000))) |ℤ to_bit false) %ℤ 2 ^ 16)
      (movw_abs_nc (pos 0x12345678) (pos 0xE3000000) (pos 0x1000) false)
movw_abs_nc-HasLiteral_example =
    movw_abs_nc-HasLiteral (pos 0x12345678) 0xE3000000 (pos 0x1000) false (omega arith)

call-arm_example :
    (n : ℕ) × (call (pos 0x8000) (pos 0xEBFFFFFE) (pos 0x9000) false ≡ pos n)
    × (n / 2 ^ 24 ≡ 0xEBFFFFFE / 2 ^ 24)
    × (n % 2 ^ 24
        ≡ (pos 0x8000 %ℤ 2 ^ 26 + 4 * 0xEBFFFFFE + (2 ^ 26 - pos 0x9000 %ℤ 2 ^ 26)) % 2 ^ 26 / 4)
call-arm_example = call-arm (pos 0x8000) 0xEBFFFFFE (pos 0x9000) (omega arith)

call-thumb_example : call (pos 0x8001) (pos 0xEBFFFFFE) (pos 0x9000) true ≡ pos 0
call-thumb_example = call-thumb (pos 0x8001) (pos 0xEBFFFFFE) (pos 0x9000)

is_truncated-extended_example :
    (is_truncated false true 64 (pos 0xFFFFFFFF80000000) ≡ false
      → (0xFFFFFFFF80000000 / 2 ^ 31 % 2 ≡ 0)
        ⊎ (◌≡◌ {A = ℕ} 0xFFFFFFFF80000000 (0xFFFFFFFF80000000 % 2 ^ 32 + (2 ^ 64 - 2 ^ 32))))
    × (is_truncated true false 64 (pos 0xFFFFFFFF80000000) ≡ false
        → (0xFFFFFFFF80000000 / 2 ^ 31 % 2 ≡ 0) ⊎ (0xFFFFFFFF80000000 < 2 ^ 32))
is_truncated-extended_example = is_truncated-extended 0xFFFFFFFF80000000 (omega arith)
