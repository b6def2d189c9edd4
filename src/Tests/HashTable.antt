-- ===== src/Tests/HashTable.antt =====
-- A table with one bucket and two symbols.
use cle.Base.{ℕ, zero, suc, ◌<◌, ◌≡◌, refl, Option, some, [], ◌∷◌, inl, inr, ok, arith}
use cle.Loader.Order.{Name}
use cle.HashTable.{ElfHashTable, get}
use cle.HashTable.Hashes.{FitsFrom}
use cle.HashTable.Chains.{Holds, IsIndexed, IsAnswer, get-IsAnswer}

abbrev table : ElfHashTable
table = record { nbuckets = 1; nchains = 3; buckets = 2 ∷ []; chains = 0 ∷ 0 ∷ 1 ∷ [] }

abbrev name_of : ℕ → Name
name_of n = n ∷ []

both_held : (n : ℕ) → 0 < n → n < 3 → Holds n (2 ∷ 1 ∷ [])
both_held zero low high = elim low [ ]
both_held (suc zero) low high = inr (inl refl)
both_held (suc (suc zero)) low high = inl refl
both_held (suc (suc (suc n))) low high = absurd (omega arith)

table-IsIndexed : IsIndexed name_of table
table-IsIndexed zero small = (
  2,
  2 ∷ 1 ∷ [],
  refl,
  (refl, omega arith, (1, refl, (refl, omega arith, (0, refl, refl)))),
  omega arith,
  λ n low high e. both_held n low high,
)
table-IsIndexed (suc h) small = absurd (omega arith)

one-FitsFrom : FitsFrom 0 (1 ∷ [])
unfolding FitsFrom
one-FitsFrom = (omega arith, tt)

get-IsAnswer_example :
    (r : Option ℕ) × (get name_of table (1 ∷ []) ≡ ok r) × IsAnswer name_of 3 (1 ∷ []) r
get-IsAnswer_example =
    get-IsAnswer name_of table (1 ∷ []) (omega arith) table-IsIndexed one-FitsFrom

second_is_found : get name_of table (1 ∷ []) ≡ ok (some 1)
unfolding get
second_is_found = refl
