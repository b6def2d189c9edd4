-- ===== src/Regions/Rebase.antt =====
-- Moving a collection moves each region once, in both lists.
use cle.Base.{
  ℕ, ◌≡◌, refl, Bool, true, false, ◌||◌, List, [], ◌∷◌, map, arith, ◌==◌, if◌then◌else◌, ok,
}
use cle.Base.Int.{ℤ, ◌+ℤ◌, int_laws}
use mathlib.Core.Option
use cle.Region
use cle.Region.{Region, contains_addr}
use cle.Region.Addresses.{contains_addr-rebase}
use cle.Regions.{Regions, region_end, rebase_object, rebase_each, rebase, find_region_containing}
use cle.Regions.Lookup.{AllFrom, IsOrdered, scan, find_region_containing-scan}

abbrev pub has_ident : ℕ → List Region → Bool
has_ident i [] = false
has_ident i (r ∷ rs) = (r.ident == i) || has_ident i rs

-- No object is listed twice.
abbrev pub NoRepeats : List Region → Type 0
NoRepeats [] = Unit
NoRepeats (r ∷ rs) = (has_ident r.ident rs ≡ false) × NoRepeats rs

-- Every object of the second list stands in the first.
abbrev pub AllIn : List Region → List Region → Type 0
AllIn lst [] = Unit
AllIn lst (r ∷ rs) = (has_ident r.ident lst ≡ true) × AllIn lst rs

abbrev moved : ℤ → List Region → Region → Region
moved delta xs r = if has_ident r.ident xs then Region.rebase delta r else r

moved_all : ℤ → List Region → List Region → List Region
moved_all delta xs rs = map (moved delta xs) rs

moved_all-rebase_object :
    (delta : ℤ) (x : Region) (xs rs : List Region)
    → has_ident x.ident xs ≡ false
    → moved_all delta xs (rebase_object delta x.ident rs) ≡ moved_all delta (x ∷ xs) rs
unfolding moved_all rebase_object Region.rebase
moved_all-rebase_object delta x xs [] h = refl
moved_all-rebase_object delta x xs (r ∷ rs) h =
    ground (arith, moved_all-rebase_object delta x xs rs h)

moved_none : (delta : ℤ) (rs : List Region) → moved_all delta [] rs ≡ rs
unfolding moved_all
moved_none delta [] = refl
moved_none delta (r ∷ rs) = rw (moved_none delta rs)

rebase_each-moved_all :
    (delta : ℤ) (xs : List Region) (rs : Regions)
    → NoRepeats xs
    → rebase_each delta xs rs ≡ record {
      list = moved_all delta xs rs.list;
      sorted_list = moved_all delta xs rs.sorted_list;
    }
unfolding rebase_each
rebase_each-moved_all delta [] rs n = rw (moved_none delta rs.list, moved_none delta rs.sorted_list)
rebase_each-moved_all delta (x ∷ xs) rs n = rw (
  rebase_each-moved_all delta xs
      (record {
        list = rebase_object delta x.ident rs.list;
        sorted_list = rebase_object delta x.ident rs.sorted_list;
      })
      n.1,
  moved_all-rebase_object delta x xs rs.list n.0,
  moved_all-rebase_object delta x xs rs.sorted_list n.0,
)

moved_all-map :
    (delta : ℤ) (xs rs : List Region)
    → AllIn xs rs
    → moved_all delta xs rs ≡ map (Region.rebase delta) rs
unfolding moved_all
moved_all-map delta xs [] h = refl
moved_all-map delta xs (r ∷ rs) h = rw (h.0, moved_all-map delta xs rs h.1)

AllIn-more : (x : Region) (xs rs : List Region) → AllIn xs rs → AllIn (x ∷ xs) rs
AllIn-more x xs [] h = tt
AllIn-more x xs (r ∷ rs) h = (ground (arith, h.0), AllIn-more x xs rs h.1)

AllIn-self : (xs : List Region) → AllIn xs xs
AllIn-self [] = tt
AllIn-self (x ∷ xs) = (ground arith, AllIn-more x xs xs (AllIn-self xs))

-- Where no object is listed twice and the sorted list holds only listed ones, `_rebase` moves each
-- region of both lists exactly once.
pub rebase-map :
    (delta : ℤ) (rs : Regions)
    → NoRepeats rs.list
    → AllIn rs.list rs.sorted_list
    → rebase delta rs ≡ record {
      list = map (Region.rebase delta) rs.list;
      sorted_list = map (Region.rebase delta) rs.sorted_list;
    }
unfolding rebase
rebase-map delta rs n a = rw (
  rebase_each-moved_all delta rs.list rs n,
  moved_all-map delta rs.list rs.list (AllIn-self rs.list),
  moved_all-map delta rs.list rs.sorted_list a,
)

AllFrom-rebase :
    (delta k : ℤ) (rs : List Region)
    → AllFrom k rs
    → AllFrom (k +ℤ delta) (map (Region.rebase delta) rs)
unfolding Region.rebase
AllFrom-rebase delta k [] h = tt
AllFrom-rebase delta k (r ∷ rs) h = (omega int_laws, AllFrom-rebase delta k rs h.1)

region_end-rebase :
    (delta : ℤ) (r : Region) → region_end (Region.rebase delta r) ≡ region_end r +ℤ delta
unfolding region_end Region.rebase
region_end-rebase delta r = omega int_laws

memsize-rebase : (delta : ℤ) (r : Region) → (Region.rebase delta r).memsize ≡ r.memsize
unfolding Region.rebase
memsize-rebase delta r = refl

IsOrdered-rebase :
    (delta : ℤ) (rs : List Region) → IsOrdered rs → IsOrdered (map (Region.rebase delta) rs)
IsOrdered-rebase delta [] h = tt
IsOrdered-rebase delta (r ∷ rs) h = (
  rw (memsize-rebase delta r) h.0,
  rw (region_end-rebase delta r) (AllFrom-rebase delta (region_end r) rs h.1),
  IsOrdered-rebase delta rs h.2,
)

scan-rebase :
    (delta addr : ℤ) (rs : List Region)
    → scan (addr +ℤ delta) (map (Region.rebase delta) rs)
      ≡ Option.map (Region.rebase delta) (scan addr rs)
unfolding scan
scan-rebase delta addr [] = refl
scan-rebase delta addr (r ∷ rs) =
    rw ((contains_addr-rebase r delta addr).0, scan-rebase delta addr rs) (ground arith)

-- Where no region is listed twice, and the sorted list is in order and holds only regions of the
-- list, then after a move by `delta` the search at a moved address finds the region, moved, that a
-- scan of the sorted list finds at the address before the move, or none if that finds none.
pub rebase-find_region_containing :
    (delta addr : ℤ) (rs : Regions)
    → NoRepeats rs.list
    → AllIn rs.list rs.sorted_list
    → IsOrdered rs.sorted_list
    → find_region_containing (rebase delta rs) (addr +ℤ delta)
      ≡ ok (Option.map (Region.rebase delta) (scan addr rs.sorted_list))
rebase-find_region_containing delta addr rs n a h = rw (rebase-map delta rs n a) (
    rw (
      find_region_containing-scan
          (record {
            list = map (Region.rebase delta) rs.list;
            sorted_list = map (Region.rebase delta) rs.sorted_list;
          })
          (addr +ℤ delta) (IsOrdered-rebase delta rs.sorted_list h),
      scan-rebase delta addr rs.sorted_list,
    ))
