-- ===== src/HashTable/Chains.antt =====
-- A lookup in the ELF hash table, over tables whose chains end.
use cle.Base.{
  ℕ, zero, suc, ◌%◌, ◌≤◌, ◌<◌, ◌≡◌, ◌≢◌, refl, ap, ◌∙◌, sym, subst, ◌⊎◌, inl, inr, true, false,
  Option, none, some, List, [], ◌∷◌, ◌==◌, length, get_elem?, if◌then◌else◌, ok, Bool-cases, arith,
}
use cle.Loader.Order.{Name, same_name}
use cle.HashTable.Hashes.{abi_hash, FitsFrom, elf_hash-abi_hash}
use cle.HashTable.{ElfHashTable, item, elf_hash, follow, get}

-- The indices of a chain: each one's word is the next one, and the last one's is 0.
abbrev pub IsChain : List ℕ → ℕ → List ℕ → Type 0
IsChain chains start [] = start ≡ 0
IsChain chains start (n ∷ ns) =
    (start ≡ n) × (0 < n) × ((next : ℕ) × (get_elem? chains n ≡ some next) × IsChain chains next ns)

abbrev pub first_named : (ℕ → Name) → Name → List ℕ → Option ℕ
first_named name_of k [] = none
first_named name_of k (n ∷ ns) =
    if same_name (name_of n) k then some n else first_named name_of k ns

item-some : (xs : List ℕ) (i x : ℕ) → get_elem? xs i ≡ some x → item xs i ≡ ok x
item-some xs i x e = rw (e, item) refl

follow-first_named :
    (fuel : ℕ) (name_of : ℕ → Name) (chains : List ℕ) (k : Name) (start : ℕ) (ns : List ℕ)
    → IsChain chains start ns
    → length ns < fuel
    → follow fuel name_of chains k start ≡ ok (first_named name_of k ns)
unfolding follow
follow-first_named zero name_of chains k start ns c h = elim h [ ]
follow-first_named (suc fuel) name_of chains k start [] c h = rw c refl
follow-first_named (suc fuel) name_of chains k start (n ∷ ns) (e, positive, (next, word, rest)) h =
    let ih = follow-first_named fuel name_of chains k next ns rest (omega arith) in
    let nonzero : (n == 0) ≡ false = ground arith in
    rw (e, nonzero, item-some chains n next word, ih)
      (elim (Bool-cases (same_name (name_of n) k)) [ inl same ↦ rw same | inr other ↦ rw other ])

same_name→eq : (a b : Name) → same_name a b ≡ true → a ≡ b
same_name→eq [] [] h = refl
same_name→eq [] (d ∷ ds) h = absurd (cc)
same_name→eq (c ∷ cs) [] h = absurd (cc)
same_name→eq (c ∷ cs) (d ∷ ds) h = ground (arith, same_name→eq cs ds)

same_name_refl : (a : Name) → same_name a a ≡ true
same_name_refl [] = refl
same_name_refl (c ∷ cs) = ground (arith, same_name_refl cs)

abbrev pub Holds : ℕ → List ℕ → Type 0
Holds n [] = ⊥
Holds n (m ∷ ms) = (n ≡ m) ⊎ Holds n ms

-- A table as the System V ABI has it: each bucket starts a chain that ends, no longer than the table,
-- and every symbol from 1 on stands in the chain of its hash, the one of the ABI.
abbrev pub IsIndexed : (ℕ → Name) → ElfHashTable → Type 0
IsIndexed name_of t =
    (h : ℕ)
    → h < t.nbuckets
    → (start : ℕ) × (ns : List ℕ) × (get_elem? t.buckets h ≡ some start)
      × IsChain t.chains start ns
      × (length ns ≤ t.nchains)
      × ((n : ℕ) → 0 < n → n < t.nchains → abi_hash (name_of n) % t.nbuckets ≡ h → Holds n ns)

-- What the answer says of the symbols: the one found has the name, or none has it.
abbrev pub IsAnswer : (ℕ → Name) → ℕ → Name → Option ℕ → Type 0
IsAnswer name_of count k (some n) = name_of n ≡ k
IsAnswer name_of count k none = (n : ℕ) → 0 < n → n < count → name_of n ≢ k

abbrev FindsIn : (ℕ → Name) → List ℕ → Name → Option ℕ → Type 0
FindsIn name_of ns k (some n) = name_of n ≡ k
FindsIn name_of ns k none = (n : ℕ) → Holds n ns → name_of n ≢ k

first_named-FindsIn :
    (name_of : ℕ → Name) (k : Name) (ns : List ℕ) → FindsIn name_of ns k (first_named name_of k ns)
first_named-FindsIn name_of k [] = λ n h. absurd h
first_named-FindsIn name_of k (m ∷ ms) = elim (Bool-cases (same_name (name_of m) k)) [
  | inl same ↦ rw same (same_name→eq (name_of m) k same)
  | inr other ↦ rw other (later (first_named name_of k ms) other (first_named-FindsIn name_of k ms))
]
  where
    later :
        (o : Option ℕ)
        → same_name (name_of m) k ≡ false
        → FindsIn name_of ms k o
        → FindsIn name_of (m ∷ ms) k o
    later (some n) other f = f
    later none other f = λ n h q. elim h [
      | inl e ↦
          let named : name_of m ≡ k = ap name_of (sym e) ∙ q in
          let same : same_name (name_of m) k ≡ true =
            subst (λ z. same_name z k ≡ true) (sym named) (same_name_refl k) in
          cc
      | inr held ↦ f n held q
    ]

-- In a table of at least one bucket, where each bucket starts a chain that ends and is no longer than
-- the table, and each symbol from 1 on stands in the chain of the hash that the System V ABI gives its
-- name, a lookup of a name for which no sum of that hash passes 32 bits ends. It finds a symbol that
-- has the name, or none, and then no symbol from 1 on has it.
pub get-IsAnswer :
    (name_of : ℕ → Name) (t : ElfHashTable) (k : Name)
    → 0 < t.nbuckets
    → IsIndexed name_of t
    → FitsFrom 0 k
    → (r : Option ℕ) × (get name_of t k ≡ ok r) × IsAnswer name_of t.nchains k r
unfolding get
get-IsAnswer name_of t k positive indexed fits =
    let same : elf_hash k % t.nbuckets ≡ abi_hash k % t.nbuckets =
      ap (λ n. n % t.nbuckets) (elf_hash-abi_hash k fits) in
    let h = abi_hash k % t.nbuckets in
    let (start, ns, bucket, chain, short, complete) =
      indexed h (mod-lt-any (abi_hash k) t.nbuckets positive) in
    let nonzero : (t.nbuckets == 0) ≡ false = ground arith in
    (
      first_named name_of k ns,
      rw (nonzero, same, item-some t.buckets h start bucket)
          (follow-first_named (suc t.nchains) name_of t.chains k start ns chain (omega arith)),
      answer ns (first_named name_of k ns) complete (first_named-FindsIn name_of k ns),
    )
  where
    mod-lt-any : (a m : ℕ) → 0 < m → a % m < m
    mod-lt-any a m h = grind arith

    answer :
        (ns : List ℕ) (o : Option ℕ)
        → ((n : ℕ)
            → 0 < n
            → n < t.nchains
            → abi_hash (name_of n) % t.nbuckets ≡ abi_hash k % t.nbuckets
            → Holds n ns)
        → FindsIn name_of ns k o
        → IsAnswer name_of t.nchains k o
    answer ns (some n) complete f = f
    answer ns none complete f =
        λ n low high q. f n (complete n low high (ap (λ z. abi_hash z % t.nbuckets) q)) q
