-- ===== src/Regions.antt =====
-- cle/backends/regions.py: a list of regions with a second list, sorted by address, of those that
-- are mapped into memory.
pub mod Lookup
pub mod Updates
pub mod Rebase
pub mod Membership
use cle.Base.{
  ℕ, zero, suc, ◌+◌, ◌-◌, ◌≡◌, Bool, true, false, Option, none, some, List, [], ◌∷◌, ◌++◌, map,
  length, get_elem?, set, ltb, leb, ◌==◌, if◌then◌else◌, Result, ok, err, ◌>>=◌, index_error,
  value_error, out_of_fuel,
}
use cle.Base.Int.{ℤ, pos, negsuc, ◌+ℤ◌, ltb_ℤ}
use cle.Region.{Region}
use cle.Region
use cle.Utils.Bisect.{index, key_bisect_find, key_bisect_insort_left}

pub record Regions : Type 0 where
  pub list : List Region
  pub sorted_list : List Region

unfoldable pub is_region_mapped : Region → Bool
is_region_mapped r =
    if r.memsize == 0 then false else elim r.occupies [ some false ↦ false | _ ↦ true ]

abbrev pub mapped_only : List Region → List Region
mapped_only [] = []
mapped_only (r ∷ rs) = if is_region_mapped r then r ∷ mapped_only rs else mapped_only rs

-- Python's `sorted` is stable: an element goes in front of the later ones with its key.
abbrev pub place : Region → List Region → List Region
place r [] = r ∷ []
place r (x ∷ xs) = if ltb_ℤ x.vaddr r.vaddr then x ∷ place r xs else r ∷ x ∷ xs

abbrev pub sort_by_vaddr : List Region → List Region
sort_by_vaddr [] = []
sort_by_vaddr (r ∷ rs) = place r (sort_by_vaddr rs)

pub make_sorted : List Region → List Region
make_sorted lst = sort_by_vaddr (mapped_only lst)

-- `Regions(lst)`; without a list, or with an empty one, both lists are empty.
pub new : Option (List Region) → Regions
unfolding make_sorted
new none = record { list = []; sorted_list = [] }
new (some lst) = record { list = lst; sorted_list = make_sorted lst }

last? : List Region → Option Region
last? [] = none
last? (x ∷ []) = some x
last? (x ∷ y ∷ xs) = last? (y ∷ xs)

pub max_addr : Regions → Option ℤ
unfolding last? Region.max_addr
max_addr rs = elim (last? rs.sorted_list) [ none ↦ none | some r ↦ some (Region.max_addr r) ]

-- A negative index counts from the end, as in Python.
abbrev list_index : ℕ → ℤ → Result ℕ
list_index len (pos i) = if ltb i len then ok i else err index_error
list_index len (negsuc i) = if ltb i len then ok (len - i - 1) else err index_error

pub get_item : Regions → ℤ → Result Region
get_item rs idx = list_index (length rs.list) idx >>= λ i. index rs.list i

pub set_item : Regions → ℤ → Region → Result Regions
unfolding make_sorted
set_item rs idx item = list_index (length rs.list) idx >>= λ i.
    let lst = set rs.list i item in ok (record { list = lst; sorted_list = make_sorted lst })

pub len : Regions → ℕ
len rs = length rs.list

-- An object is moved wherever it is listed.
unfoldable pub rebase_object : ℤ → ℕ → List Region → List Region
rebase_object delta ident [] = []
rebase_object delta ident (r ∷ rs) =
    (if r.ident == ident then Region.rebase delta r else r) ∷ rebase_object delta ident rs

-- `for x in self._list: x._rebase(delta)`: the first argument lists the objects still to move.
unfoldable pub rebase_each : ℤ → List Region → Regions → Regions
unfolding rebase_object
rebase_each delta [] rs = rs
rebase_each delta (x ∷ xs) rs = rebase_each delta xs (record {
  list = rebase_object delta x.ident rs.list;
  sorted_list = rebase_object delta x.ident rs.sorted_list;
})

unfoldable pub rebase : ℤ → Regions → Regions
unfolding rebase_each
rebase delta rs = rebase_each delta rs.list rs

unfoldable pub append : Regions → Region → Result Regions
unfolding is_region_mapped key_bisect_insort_left
append rs region =
    let lst = rs.list ++ region ∷ [] in
    if is_region_mapped region
    then (key_bisect_insort_left (λ x. x.vaddr) rs.sorted_list region (pos 0) none >>= λ sorted.
        ok (record { list = lst; sorted_list = sorted }))
    else ok (record rs { list = lst })

-- `list.remove`, by identity.
pub list_remove : ℕ → List Region → Result (List Region)
list_remove ident [] = err value_error
list_remove ident (r ∷ rs) =
    let rest = list_remove ident rs in
    if r.ident == ident then ok rs else rest >>= λ ys. ok (r ∷ ys)

-- The second half of `remove`: `self._list.remove(region)`.
remove_listed : Regions → Region → Regions × Result (Unit {0})
remove_listed rs region = elim (list_remove region.ident rs.list) [
  | ok lst ↦ (record rs { list = lst }, ok tt)
  | err e ↦ (rs, err e)
  | out_of_fuel ↦ (rs, Result.out_of_fuel)
]

-- The state is returned after an exception too: what was removed stays removed.
pub remove : Regions → Region → Regions × Result (Unit {0})
unfolding is_region_mapped list_remove remove_listed
remove rs region =
    if is_region_mapped region
    then elim (list_remove region.ident rs.sorted_list) [
      | ok sorted ↦ remove_listed (record rs { sorted_list = sorted }) region
      | err e ↦ (rs, err e)
      | out_of_fuel ↦ (rs, Result.out_of_fuel)
    ]
    else remove_listed rs region

unfoldable pub region_end : Region → ℤ
region_end x = x.vaddr +ℤ pos x.memsize

-- The region at the position that the search gives, if it is inside the list.
pub find_region_next_to : Regions → ℤ → Result (Option Region)
unfolding key_bisect_find region_end
find_region_next_to rs addr = key_bisect_find region_end rs.sorted_list addr (pos 0) none >>= λ p.
    if leb (length rs.sorted_list) p then ok none else index rs.sorted_list p >>= λ r. ok (some r)

pub find_region_containing : Regions → ℤ → Result (Option Region)
unfolding key_bisect_find region_end Region.contains_addr
find_region_containing rs addr =
    key_bisect_find region_end rs.sorted_list addr (pos 0) none >>= λ p.
    if leb (length rs.sorted_list) p
    then ok none
    else index rs.sorted_list p >>= λ region.
        if Region.contains_addr region addr then ok (some region) else ok none
