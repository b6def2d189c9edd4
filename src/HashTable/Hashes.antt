-- ===== src/HashTable/Hashes.antt =====
-- The two hash functions against those of the formats, which keep to 32 bits in every step.
use Prim.Native.Nat.{bit_and, bit_xor}
use cle.Base.{
  ℕ, ◌-◌, ◌/◌, ◌<◌, ◌==◌, if◌then◌else◌, ◌+◌, ◌*◌, ◌%◌, ◌^◌, ◌≡◌, refl, ap, sym, ◌∙◌, [], ◌∷◌,
  arith,
}
use cle.Base.Bits.{bit_and_mask}
use cle.Loader.Order.{Name}
use cle.HashTable.{gnu_hash, gnu_hash_from, elf_hash, elf_hash_from}

unfoldable pub wrapped_from : ℕ → Name → ℕ
wrapped_from h [] = h
wrapped_from h (c ∷ cs) = wrapped_from ((h * 33 + c) % 2 ^ 32) cs

gnu_hash_from-wrapped :
    (h g : ℕ) (cs : Name) → h % 2 ^ 32 ≡ g → gnu_hash_from h cs % 2 ^ 32 ≡ wrapped_from g cs
unfolding gnu_hash_from wrapped_from
gnu_hash_from-wrapped h g [] e = e
gnu_hash_from-wrapped h g (c ∷ cs) e =
    gnu_hash_from-wrapped (h * 33 + c) ((g * 33 + c) % 2 ^ 32) cs (omega arith)

-- The hash that is cut down to 32 bits at its end is the one that wraps around in every step.
pub gnu_hash-wrapped : (key : Name) → gnu_hash key ≡ wrapped_from 5381 key
unfolding gnu_hash
gnu_hash-wrapped key =
    bit_and_mask 32 (gnu_hash_from 5381 key) ∙ gnu_hash_from-wrapped 5381 5381 key refl

-- `elf_hash` as the System V ABI has it, on unsigned numbers of 32 bits:
-- `h = (h << 4) + c; if (g = h & 0xf0000000) h ^= g >> 24; h &= ~g`.
abbrev abi_fold : ℕ → ℕ → ℕ
abi_fold h g = let mixed = if g == 0 then h else bit_xor h (g / 2 ^ 24) in mixed - bit_and mixed g

abbrev abi_step : ℕ → ℕ
abi_step h = abi_fold h (bit_and h 0xF0000000)

unfoldable pub abi_hash_from : ℕ → Name → ℕ
abi_hash_from h [] = h
abi_hash_from h (c ∷ cs) = abi_hash_from (abi_step ((h * 2 ^ 4 + c) % 2 ^ 32)) cs

pub abi_hash : Name → ℕ
abi_hash key = abi_hash_from 0 key

-- No sum of the hash of a name passes 32 bits.
unfoldable pub FitsFrom : ℕ → Name → Type 0
FitsFrom h [] = Unit
FitsFrom h (c ∷ cs) = (h * 2 ^ 4 + c < 2 ^ 32) × FitsFrom (abi_step ((h * 2 ^ 4 + c) % 2 ^ 32)) cs

elf_hash_from-abi_hash_from :
    (h : ℕ) (cs : Name) → FitsFrom h cs → elf_hash_from h cs ≡ abi_hash_from h cs
unfolding elf_hash_from abi_hash_from FitsFrom
elf_hash_from-abi_hash_from h [] fits = refl
elf_hash_from-abi_hash_from h (c ∷ cs) (small, fits) =
    let e : (h * 2 ^ 4 + c) % 2 ^ 32 ≡ h * 2 ^ 4 + c = omega arith in
    ap (λ n. elf_hash_from (abi_step n) cs) (sym e)
    ∙ elf_hash_from-abi_hash_from (abi_step ((h * 2 ^ 4 + c) % 2 ^ 32)) cs fits

-- Where no sum passes 32 bits, `elf_hash` is the hash of the ABI.
pub elf_hash-abi_hash : (key : Name) → FitsFrom 0 key → elf_hash key ≡ abi_hash key
unfolding elf_hash abi_hash
elf_hash-abi_hash key fits = elf_hash_from-abi_hash_from 0 key fits
