-- ===== src/HashTable.antt =====
-- cle/backends/elf/hashtable.py: lookups of symbols by name in the two hash tables of an ELF file.
-- The symbol table is pyelftools', which is not modelled: `name_of` is what it says the name of the
-- symbol with an index is. The stream is a list of bytes. A name is a list of code points.
pub mod Hashes
pub mod Chains
use Prim.Native.Nat.{bit_and, bit_or, bit_xor}
use cle.Base.{
  ℕ, zero, suc, ◌+◌, ◌-◌, ◌*◌, ◌/◌, ◌%◌, ◌^◌, ◌≡◌, Bool, true, false, not, ◌&&◌, Option, none, some,
  List, [], ◌∷◌, ◌==◌, ltb, length, get_elem?, take, drop, if◌then◌else◌, Result, ok, err,
  out_of_fuel, ◌>>=◌, index_error, struct_error, value_error, zero_division_error,
}
use cle.Memory.Words.{Endness, from_little, arrange}
use cle.Loader.Order.{Name, same_name}

-- `struct.unpack` of that many words of `width` bytes: the bytes have to be there.
abbrev pub words : Endness → ℕ → ℕ → List ℕ → List ℕ
words endness width zero bytes = []
words endness width (suc n) bytes =
    from_little (arrange endness (take width bytes)) ∷ words endness width n (drop width bytes)

abbrev pub unpack_words : Endness → ℕ → ℕ → List ℕ → Result (List ℕ)
unpack_words endness width n bytes =
    if ltb (length bytes) (width * n) then err struct_error else ok (words endness width n bytes)

abbrev pub item : List ℕ → ℕ → Result ℕ
item xs i = elim (get_elem? xs i) [ none ↦ err index_error | some x ↦ ok x ]

pub record ElfHashTable : Type 0 where
  pub nbuckets : ℕ
  pub nchains : ℕ
  pub buckets : List ℕ
  pub chains : List ℕ

-- `ELFHashTable(symtab, stream, offset, arch)`
unfoldable pub new : Endness → List ℕ → ℕ → Result ElfHashTable
new endness stream offset =
    let at = drop offset stream in
    unpack_words endness 4 2 at >>= λ header.
    let nbuckets = from_little (arrange endness (take 4 at)) in
    let nchains = from_little (arrange endness (take 4 (drop 4 at))) in
    unpack_words endness 4 nbuckets (drop 8 at) >>= λ buckets.
    unpack_words endness 4 nchains (drop (4 * nbuckets) (drop 8 at)) >>= λ chains.
    ok (record { nbuckets = nbuckets; nchains = nchains; buckets = buckets; chains = chains })

-- One character of `elf_hash`, and all of it.
abbrev pub elf_hash_step : ℕ → ℕ → ℕ
elf_hash_step h c =
    let h' = h * 2 ^ 4 + c in
    let x = bit_and h' 0xF0000000 in
    let h'' = if x == 0 then h' else bit_xor h' (x / 2 ^ 24) in h'' - bit_and h'' x

unfoldable pub elf_hash_from : ℕ → Name → ℕ
elf_hash_from h [] = h
elf_hash_from h (c ∷ cs) = elf_hash_from (elf_hash_step h c) cs

unfoldable pub elf_hash : Name → ℕ
unfolding elf_hash_from
elf_hash key = elf_hash_from 0 key

-- The loop in `ELFHashTable.get`, which takes fuel, one more than there are chain words.
unfoldable pub follow : ℕ → (ℕ → Name) → List ℕ → Name → ℕ → Result (Option ℕ)
follow zero name_of chains k symndx = out_of_fuel
follow (suc fuel) name_of chains k symndx =
    let rest = item chains symndx >>= λ next. follow fuel name_of chains k next in
    if symndx == 0 then ok none else if same_name (name_of symndx) k then ok (some symndx) else rest

unfoldable pub get : (ℕ → Name) → ElfHashTable → Name → Result (Option ℕ)
unfolding elf_hash follow
get name_of t k =
    if t.nbuckets == 0
    then ok none
    else (item t.buckets (elf_hash k % t.nbuckets) >>= λ symndx.
        follow (suc t.nchains) name_of t.chains k symndx)

pub record GnuHashTable : Type 0 where
  pub bits : ℕ
  pub nbuckets : ℕ
  pub symndx : ℕ
  pub maskwords : ℕ
  pub shift2 : ℕ
  pub bloom : List ℕ
  pub buckets : List ℕ
  pub stream : List ℕ
  pub hash_ptr : ℕ

-- `GNUHashTable(symtab, stream, offset, arch)`, on an architecture of 32 or 64 bits.
unfoldable pub new_gnu : Endness → ℕ → List ℕ → ℕ → Result GnuHashTable
new_gnu endness bits stream offset =
    let at = drop offset stream in
    let word = λ (i : ℕ). from_little (arrange endness (take 4 (drop (4 * i) at))) in
    let width : ℕ = if bits == 32 then 4 else 8 in
    let filter_size = bits * word 2 / 8 in
    unpack_words endness 4 4 at >>= λ header.
    unpack_words endness width (word 2) (take filter_size (drop 16 at)) >>= λ bloom.
    unpack_words endness 4 (word 0) (drop filter_size (drop 16 at)) >>= λ buckets. ok (record {
      bits = bits;
      nbuckets = word 0;
      symndx = word 1;
      maskwords = word 2;
      shift2 = word 3;
      bloom = bloom;
      buckets = buckets;
      stream = stream;
      hash_ptr = offset + 16 + filter_size + 4 * word 0;
    })

unfoldable pub gnu_hash_from : ℕ → Name → ℕ
gnu_hash_from h [] = h
gnu_hash_from h (c ∷ cs) = gnu_hash_from (h * 33 + c) cs

unfoldable pub gnu_hash : Name → ℕ
unfolding gnu_hash_from
gnu_hash key = bit_and (gnu_hash_from 5381 key) 0xFFFFFFFF

-- `_matches_bloom`. Without words in the filter the index is out of range, with this mask too.
unfoldable pub matches_bloom : GnuHashTable → ℕ → Result Bool
matches_bloom t h1 =
    let h2 = h1 / 2 ^ t.shift2 in
    let n = bit_and (h1 / t.bits) (t.maskwords - 1) in
    let mask = bit_or (2 ^ (h1 % t.bits)) (2 ^ (h2 % t.bits)) in
    item t.bloom n >>= λ word. ok (bit_and word mask == mask)

-- `struct.unpack("I", ...)` of the hash of the symbol `n`, in the byte order of the host.
abbrev pub hash_word : Endness → GnuHashTable → ℕ → Result ℕ
hash_word host t n =
    if ltb (t.hash_ptr + 4 * n) (4 * t.symndx)
    then err value_error
    else let bytes = drop (t.hash_ptr + 4 * n - 4 * t.symndx) t.stream in
      if ltb (length bytes) 4
      then err struct_error
      else ok (from_little (arrange host (take 4 bytes)))

-- The loop in `GNUHashTable.get`; each round reads a later word of the stream.
unfoldable pub follow_gnu : ℕ → Endness → (ℕ → Name) → GnuHashTable → Name → ℕ → Result (Option ℕ)
follow_gnu zero host name_of t k n = out_of_fuel
follow_gnu (suc fuel) host name_of t k n =
    let rest = follow_gnu fuel host name_of t k (n + 1) in
    if same_name (name_of n) k
    then ok (some n)
    else (hash_word host t n >>= λ word. if bit_and word 1 == 1 then ok none else rest)

unfoldable pub get_gnu : Endness → (ℕ → Name) → GnuHashTable → Name → Result (Option ℕ)
unfolding gnu_hash matches_bloom follow_gnu
get_gnu host name_of t k =
    let h = gnu_hash k in
    matches_bloom t h >>= λ may_hold.
    if not may_hold
    then ok none
    else if t.nbuckets == 0
    then err zero_division_error
    else (item t.buckets (h % t.nbuckets) >>= λ n.
        if n == 0 then ok none else follow_gnu (suc (length t.stream)) host name_of t k n)
