-- ===== src/Backend/Rebase.antt =====
-- `rebase` against the highest address, whose cached form is relative to the base, and against the
-- lookups by address.
use cle.Base.{
  ◌≡◌, refl, ap, ◌∙◌, sym, true, false, if◌then◌else◌, Option, none, some, List, [], ◌∷◌, map, ok,
  inl, inr, Bool-cases,
}
use cle.Base.Int.{ℤ, ◌+ℤ◌, ◌-ℤ◌, max_ℤ, int_laws}
use cle.Region.{Region}
use cle.Region
use cle.Regions
use cle.Regions.{Regions}
use cle.Regions.Rebase.{NoRepeats, AllIn, rebase-map}
use cle.Backend.{
  Backend, image_base_delta, has_region, moved_to, max_from, highest, reach, max_addr_by, max_addr,
  rebase, rebase_regions,
}

max_addr-rebase_region :
    (delta : ℤ) (r : Region) → Region.max_addr (Region.rebase delta r) ≡ Region.max_addr r +ℤ delta
unfolding Region.max_addr Region.rebase
max_addr-rebase_region delta r = omega int_laws

max_from-map :
    (delta m : ℤ) (rs : List Region)
    → max_from (m +ℤ delta) (map (Region.rebase delta) rs) ≡ max_from m rs +ℤ delta
max_from-map delta m [] = refl
max_from-map delta m (r ∷ rs) =
    let e : max_ℤ (m +ℤ delta) (Region.max_addr r +ℤ delta) ≡ max_ℤ m (Region.max_addr r) +ℤ delta =
      grind int_laws in
    ap (λ k. max_from k (map (Region.rebase delta) rs))
      (ap (max_ℤ (m +ℤ delta)) (max_addr-rebase_region delta r) ∙ e)
    ∙ max_from-map delta (max_ℤ m (Region.max_addr r)) rs

highest-map :
    (delta base : ℤ) (rs : List Region)
    → highest (base +ℤ delta) (map (Region.rebase delta) rs) ≡ highest base rs +ℤ delta
highest-map delta base [] = refl
highest-map delta base (r ∷ rs) =
    ap (λ k. max_from k (map (Region.rebase delta) rs)) (max_addr-rebase_region delta r)
    ∙ max_from-map delta (Region.max_addr r) rs

has_region-map :
    (delta : ℤ) (rs : List Region) → has_region (map (Region.rebase delta) rs) ≡ has_region rs
has_region-map delta [] = refl
has_region-map delta (r ∷ rs) = refl

-- The lists of a collection agree: no object is listed twice, and the sorted list holds listed ones.
abbrev pub IsListed : Regions → Type 0
IsListed rs = NoRepeats rs.list × AllIn rs.list rs.sorted_list

reach-moved_to_apart :
    (new_base : ℤ) (b : Backend)
    → b.shared ≡ false
    → b.mapped_base ≡ b.linked_base
    → IsListed b.segments
    → IsListed b.sections
    → reach (moved_to new_base b) ≡ reach b
unfolding reach moved_to rebase_regions image_base_delta
reach-moved_to_apart new_base b separate at_home segs secs =
    let delta = new_base -ℤ b.linked_base in
    let base : b.mapped_base +ℤ delta ≡ new_base = simp at_home (omega int_laws) in
    let moved_highest : (rs : List Region)
        → highest new_base (map (Region.rebase delta) rs) -ℤ new_base
          ≡ highest b.mapped_base rs -ℤ b.mapped_base =
      λ rs.
        ap (λ k. highest k (map (Region.rebase delta) rs) -ℤ k) (sym base)
        ∙ ap (λ k. k -ℤ (b.mapped_base +ℤ delta)) (highest-map delta b.mapped_base rs)
        ∙ omega int_laws in
    simp
      (
        separate,
        rebase-map delta b.segments segs.0 segs.1,
        rebase-map delta b.sections secs.0 secs.1,
        has_region-map delta b.segments.list,
      )
      (elim (Bool-cases (has_region b.segments.list)) [
        | inl segments ↦ rw segments (moved_highest b.segments.list)
        | inr sections ↦ rw sections (moved_highest b.sections.list)
      ])

reach-moved_to_shared :
    (new_base : ℤ) (b : Backend)
    → b.shared ≡ true
    → b.segments ≡ b.sections
    → b.mapped_base ≡ b.linked_base
    → IsListed b.segments
    → IsListed b.sections
    → reach (moved_to new_base b) ≡ reach b
unfolding reach moved_to rebase_regions image_base_delta
reach-moved_to_shared new_base b shared same at_home segs secs =
    let apart = record b { shared = false } in
    let move = Regions.rebase (new_base -ℤ b.linked_base) in
    let first = if b.shared then move b.sections else b.segments in
    let moved : (if b.shared then first else move first) ≡ move b.segments =
      rw shared (ap move (sym same)) in
    rw moved (reach-moved_to_apart new_base apart refl at_home segs secs)

reach-moved_to :
    (new_base : ℤ) (b : Backend)
    → (b.shared ≡ true → b.segments ≡ b.sections)
    → b.mapped_base ≡ b.linked_base
    → IsListed b.segments
    → IsListed b.sections
    → reach (moved_to new_base b) ≡ reach b
reach-moved_to new_base b same at_home segs secs = elim (Bool-cases b.shared) [
  | inl shared ↦ reach-moved_to_shared new_base b shared (same shared) at_home segs secs
  | inr separate ↦ reach-moved_to_apart new_base b separate at_home segs secs
]

-- Segments that are the sections stay so, and are moved once.
segments-moved_to :
    (new_base : ℤ) (b : Backend)
    → b.shared ≡ true
    → ((moved_to new_base b).segments ≡ (moved_to new_base b).sections)
unfolding moved_to rebase_regions image_base_delta
segments-moved_to new_base b shared = rw shared refl

reach-cache : (b : Backend) (m : Option ℤ) → reach (record b { cached_max_addr = m }) ≡ reach b
unfolding reach
reach-cache b m = refl

pub max_addr_uncached :
    (b : Backend)
    → b.cached_max_addr ≡ none
    → max_addr b ≡ (reach b +ℤ b.mapped_base, record b { cached_max_addr = some (reach b) })
unfolding max_addr max_addr_by
max_addr_uncached b e = ap (max_addr_by b) e

pub rebase_fresh :
    (new_base : ℤ) (b : Backend)
    → b.is_mapped ≡ false
    → rebase new_base b ≡ ok (moved_to new_base b)
unfolding rebase
rebase_fresh new_base b e = simp e

pub max_addr-moved_to :
    (new_base m : ℤ) (b : Backend)
    → b.cached_max_addr ≡ some m
    → (max_addr (moved_to new_base b)).0 ≡ m +ℤ new_base
unfolding max_addr max_addr_by moved_to rebase_regions
max_addr-moved_to new_base m b e = simp e

pub mapped_base-moved_to :
    (new_base : ℤ) (b : Backend) → (moved_to new_base b).mapped_base ≡ new_base
unfolding moved_to rebase_regions
mapped_base-moved_to new_base b = refl

-- Where an object is not mapped, lies at its linked base and has no cached highest address, its two
-- collections each list no region twice and sort only what they list, and they are equal if the
-- segments are the sections, a rebase behind a call of `max_addr` succeeds. Then the highest address,
-- which is cached by then, is the one that the moved regions have, and it has moved with the base;
-- and segments that are the sections still are.
pub rebase-max_addr :
    (new_base : ℤ) (b : Backend)
    → b.is_mapped ≡ false
    → (b.shared ≡ true → b.segments ≡ b.sections)
    → b.mapped_base ≡ b.linked_base
    → b.cached_max_addr ≡ none
    → IsListed b.segments
    → IsListed b.sections
    → (b' : Backend) × (rebase new_base (max_addr b).1 ≡ ok b')
      × ((max_addr b').0 ≡ reach b' +ℤ b'.mapped_base)
      × ((max_addr b').0 ≡ (max_addr b).0 +ℤ (new_base -ℤ b.linked_base))
      × (b.shared ≡ true → b'.segments ≡ b'.sections)
rebase-max_addr new_base b fresh separate at_home uncached segs secs =
    let c = record b { cached_max_addr = some (reach b) } in
    let kept : reach (moved_to new_base c) ≡ reach b =
      reach-moved_to new_base c separate at_home segs secs ∙ reach-cache b (some (reach b)) in
    let known = max_addr-moved_to new_base (reach b) c refl in
    rw (max_addr_uncached b uncached) (
      moved_to new_base c,
      rebase_fresh new_base c fresh,
      rw (known, kept, mapped_base-moved_to new_base c),
      known ∙ (simp at_home (omega int_laws)),
      λ shared. segments-moved_to new_base c shared,
    )
