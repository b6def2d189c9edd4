-- ===== src/Regions/Lookup.antt =====
-- The searches by address find what a scan of all mapped regions finds.
use cle.Base.{
  ℕ, ◌<◌, ◌≡◌, refl, Option, none, some, List, [], ◌∷◌, arith, length, get_elem?, leb,
  if◌then◌else◌, ok, inl, inr, ◌>>=◌, Option-cases, none→le, some→lt,
}
use cle.Base.Int.{ℤ, pos, ◌+ℤ◌, ◌≤ℤ◌, ◌<ℤ◌, leb_ℤ, int_laws}
use cle.Region.{Region, contains_addr}
use cle.Regions.{Regions, region_end, find_region_containing, find_region_next_to}
use cle.Utils.Bisect.{index, key_bisect_find}
use cle.Utils.Bisect.Search.{prefix_len, bisect-prefix_len}
use cle.Utils.Bisect.Insert.{AllAbove, IsSorted, IsSorted-Splits_le}

-- No region starts below `k`.
abbrev pub AllFrom : ℤ → List Region → Type 0
AllFrom k [] = Unit
AllFrom k (r ∷ rs) = (k ≤ℤ r.vaddr) × AllFrom k rs

-- Regions by increasing address, none of which overlaps another or is empty.
abbrev pub IsOrdered : List Region → Type 0
IsOrdered [] = Unit
IsOrdered (r ∷ rs) = (0 < r.memsize) × AllFrom (region_end r) rs × IsOrdered rs

-- The first region that contains an address, by a scan of all of them.
unfoldable pub scan : ℤ → List Region → Option Region
scan addr [] = none
scan addr (r ∷ rs) = if contains_addr r addr then some r else scan addr rs

-- The first region that ends above an address.
unfoldable pub first_above : ℤ → List Region → Option Region
first_above addr [] = none
first_above addr (r ∷ rs) = if leb_ℤ (region_end r) addr then first_above addr rs else some r

region_end_lem : (r : Region) → region_end r ≡ r.vaddr +ℤ pos r.memsize
unfolding region_end
region_end_lem r = refl

AllFrom-AllAbove : (k : ℤ) (rs : List Region) → AllFrom k rs → AllAbove region_end k rs
unfolding region_end
AllFrom-AllAbove k [] h = tt
AllFrom-AllAbove k (r ∷ rs) h = (omega int_laws, AllFrom-AllAbove k rs h.1)

IsOrdered-IsSorted : (rs : List Region) → IsOrdered rs → IsSorted region_end rs
IsOrdered-IsSorted [] h = tt
IsOrdered-IsSorted (r ∷ rs) h = (AllFrom-AllAbove (region_end r) rs h.1, IsOrdered-IsSorted rs h.2)

get_elem?-first_above :
    (addr : ℤ) (rs : List Region)
    → get_elem? rs (prefix_len (λ x. leb_ℤ (region_end x) addr) rs) ≡ first_above addr rs
unfolding first_above
get_elem?-first_above addr [] = refl
get_elem?-first_above addr (r ∷ rs) = ground (arith, get_elem?-first_above addr rs)

scan-AllFrom : (addr k : ℤ) (rs : List Region) → addr <ℤ k → AllFrom k rs → scan addr rs ≡ none
unfolding scan contains_addr
scan-AllFrom addr k [] h all = refl
scan-AllFrom addr k (r ∷ rs) h all = ground (arith, scan-AllFrom addr k rs h all.1)

-- What `find_region_containing` does with the region that the search gives.
checked : ℤ → Option Region → Option Region
checked addr none = none
checked addr (some r) = if contains_addr r addr then some r else none

checked-scan :
    (addr : ℤ) (rs : List Region) → IsOrdered rs → checked addr (first_above addr rs) ≡ scan addr rs
unfolding checked first_above scan contains_addr
checked-scan addr [] h = refl
checked-scan addr (r ∷ rs) h =
    grind (arith, checked-scan addr rs h.2, scan-AllFrom addr (region_end r) rs, region_end_lem r)

found-next :
    (xs : List Region) (p : ℕ)
    → (if leb (length xs) p then ok none else index xs p >>= λ r. ok (some r)) ≡ ok (get_elem? xs p)
found-next xs p = elim (Option-cases (get_elem? xs p)) [
  | inl e ↦ ground (arith, none→le xs p e)
  | inr (r, e) ↦ ground (arith, some→lt xs p r e)
]

found-containing :
    (xs : List Region) (p : ℕ) (addr : ℤ)
    → (if leb (length xs) p
        then ok none
        else index xs p >>= λ r. if contains_addr r addr then ok (some r) else ok none)
      ≡ ok (checked addr (get_elem? xs p))
unfolding checked
found-containing xs p addr = elim (Option-cases (get_elem? xs p)) [
  | inl e ↦ ground (arith, none→le xs p e)
  | inr (r, e) ↦ ground (arith, some→lt xs p r e)
]

module _ (rs : Regions) (addr : ℤ) (ordered : IsOrdered rs.sorted_list) where
  position :
      key_bisect_find region_end rs.sorted_list addr (pos 0) none
      ≡ ok (prefix_len (λ x. leb_ℤ (region_end x) addr) rs.sorted_list)
  unfolding key_bisect_find
  position = bisect-prefix_len _ rs.sorted_list (
      IsSorted-Splits_le region_end addr rs.sorted_list (IsOrdered-IsSorted rs.sorted_list ordered))

  -- On regions in order, `find_region_next_to` gives the first region that ends above the address.
  pub find_region_next_to-first_above :
      find_region_next_to rs addr ≡ ok (first_above addr rs.sorted_list)
  unfolding find_region_next_to
  find_region_next_to-first_above =
      rw (position, found-next rs.sorted_list _, get_elem?-first_above addr rs.sorted_list)

  -- On regions in order, `find_region_containing` gives what a scan of the mapped regions gives.
  pub find_region_containing-scan : find_region_containing rs addr ≡ ok (scan addr rs.sorted_list)
  unfolding find_region_containing
  find_region_containing-scan = rw (
    position,
    found-containing rs.sorted_list _ addr,
    get_elem?-first_above addr rs.sorted_list,
    checked-scan addr rs.sorted_list ordered,
  )
