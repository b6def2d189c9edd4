-- ===== src/Loader/Mapping.antt =====
-- Mapping an object keeps the objects of the address space apart.
use mathlib.Core.List.{Perm}
use cle.Base.{
  ℕ, ◌^◌, ◌≡◌, refl, ap, ◌∙◌, sym, subst, Bool, true, false, Option, none, some, List, ◌∷◌, arith,
  if◌then◌else◌, Result, ok, err, out_of_fuel, ◌>>=◌, [], bind-ok, guard-ok, cle_operation_error,
  cle_error, assertion_error,
}
use cle.Base.Int.{ℤ, pos, ◌+ℤ◌, ◌-ℤ◌, ◌≤ℤ◌, ◌<ℤ◌, ltb_ℤ, int_laws}
use cle.Utils.Bisect.{key_bisect_insort_right}
use cle.Memory.Backers.{Clemory}
use cle.Backend.{Backend, min_addr, max_addr, max_addr_by, moved_to, rebase, rebase_regions, reach}
use cle.Backend.Rebase.{max_addr-moved_to, mapped_base-moved_to}
use cle.Loader.{
  Loader, end_of, clashes_any, is_range_free, choose_base, Placed, put_at, settle, mount, enter,
  integrate,
}
use cle.Loader.Space.{IsSpaced}
use cle.Loader.Entering.{extent_of, place, place-IsSpaced, place-Perm, insort-place}
use cle.Loader.Choosing.{HasRoom, choose_base-is_range_free}

max_addr_by-known :
    (b : Backend) (c : Option ℤ)
    → b.cached_max_addr ≡ c
    → let (top, known) = max_addr_by b c in
      ((r : ℤ) × (known.cached_max_addr ≡ some r) × (top ≡ r +ℤ b.mapped_base))
      × (known.mapped_base ≡ b.mapped_base)
      × (known.linked_base ≡ b.linked_base)
      × (known.is_main_bin ≡ b.is_main_bin)
unfolding max_addr_by
max_addr_by-known b none e = ((_, refl, refl), refl, refl, refl)
max_addr_by-known b (some r) e = ((r, e, refl), refl, refl, refl)

end_by-mapped :
    (b : Backend) (c : Option ℤ)
    → (max_addr_by (record b { is_mapped = true }) c).0 ≡ (max_addr_by b c).0
unfolding max_addr_by reach
end_by-mapped b none = refl
end_by-mapped b (some r) = refl

end_of-mapped : (b : Backend) → end_of (record b { is_mapped = true }) ≡ end_of b
unfolding max_addr
end_of-mapped b = end_by-mapped b b.cached_max_addr

end_of-known : (b : Backend) (r : ℤ) → b.cached_max_addr ≡ some r → end_of b ≡ r +ℤ b.mapped_base
unfolding max_addr max_addr_by
end_of-known b r e = ap (λ c. (max_addr_by b c).0) e

-- What `settle` has to give: a free range, on which the object lies.
abbrev pub IsSettled : Loader → ℤ → ℤ → Placed → Type 0
IsSettled l size r p =
    (is_range_free l p.base size ≡ true)
    × (min_addr p.object ≡ p.base)
    × (end_of p.object ≡ r +ℤ p.base)

module _ (l : Loader) (obj : Backend) (size r : ℤ) (k : ℕ) (g : l.rebase_granularity ≡ 2 ^ k)
    (positive : pos 0 <ℤ size) (s : IsSpaced l.all_objects) (room : HasRoom l obj.is_main_bin size)
    (known : obj.cached_max_addr ≡ some r) where
  settle_moved :
      (base : ℤ) (obj' : Backend)
      → rebase base obj ≡ ok obj'
      → (min_addr obj' ≡ base) × (end_of obj' ≡ r +ℤ base)
  unfolding rebase min_addr
  settle_moved base obj' e =
      let (_, e') = guard-ok obj.is_mapped cle_operation_error (ok (moved_to base obj)) e in
      let same : moved_to base obj ≡ obj' = cc in
      let low : (moved_to base obj).mapped_base ≡ base = mapped_base-moved_to base obj in
      let high : end_of (moved_to base obj) ≡ r +ℤ base = max_addr-moved_to base r obj known in
      let both : (min_addr (moved_to base obj) ≡ base) × (end_of (moved_to base obj) ≡ r +ℤ base) =
        (low, high) in
      subst (λ o. (min_addr o ≡ base) × (end_of o ≡ r +ℤ base)) same both

  moved-IsSettled :
      (p : Placed)
      → (choose_base l obj size >>= λ b. rebase b obj >>= put_at b) ≡ ok p
      → IsSettled l size r p
  moved-IsSettled p e =
      let (b, chosen, e') = bind-ok (choose_base l obj size) _ e in
      let (o, moved, e'') = bind-ok (rebase b obj) (put_at b) e' in
      let both : record { base = b; object = o } ≡ p = cc in
      let free : is_range_free l b size ≡ true =
        choose_base-is_range_free l obj size b k g positive s room chosen in
      let (low, high) = settle_moved b o moved in
      let here : IsSettled l size r (record { base = b; object = o }) = (free, low, high) in
      subst (IsSettled l size r) both here

  fixed-IsSettled :
      (free : Bool) (p : Placed)
      → (free ≡ true → is_range_free l obj.linked_base size ≡ true)
      → obj.mapped_base ≡ obj.linked_base
      → (if free then put_at obj.linked_base obj else err cle_error) ≡ ok p
      → IsSettled l size r p
  unfolding min_addr
  fixed-IsSettled true p free home e =
      let both : record { base = obj.linked_base; object = obj } ≡ p = cc in
      let here : IsSettled l size r (record { base = obj.linked_base; object = obj }) =
        (free refl, home, end_of-known obj r known ∙ ap (λ b. r +ℤ b) home) in
      subst (IsSettled l size r) both here
  fixed-IsSettled false p free home e = absurd (cc)

  branch-IsSettled :
      (pic : Bool) (p : Placed)
      → obj.mapped_base ≡ obj.linked_base
      → (if pic
          then (choose_base l obj size >>= λ b. rebase b obj >>= put_at b)
          else if is_range_free l obj.linked_base size
          then put_at obj.linked_base obj
          else err cle_error)
        ≡ ok p
      → IsSettled l size r p
  branch-IsSettled true p home e = moved-IsSettled p e
  branch-IsSettled false p home e =
      fixed-IsSettled (is_range_free l obj.linked_base size) p (λ h. h) home e

  settle-IsSettled :
      (p : Placed)
      → obj.mapped_base ≡ obj.linked_base
      → settle l obj size ≡ ok p
      → IsSettled l size r p
  unfolding settle
  settle-IsSettled p home e = branch-IsSettled obj.pic p home e

is_range_free-clashes_any :
    (l : Loader) (va size : ℤ)
    → is_range_free l va size ≡ true
    → clashes_any va size l.all_objects ≡ false
unfolding is_range_free
is_range_free-clashes_any l va size h = ground arith

min_addr-mapped : (b : Backend) → min_addr (record b { is_mapped = true }) ≡ min_addr b
unfolding min_addr
min_addr-mapped b = refl

abbrev objects_in : Result Loader → List Backend
objects_in (ok l) = l.all_objects
objects_in (err e) = []
objects_in out_of_fuel = []

enter-IsSpaced :
    (l : Loader) (space : Clemory) (obj : Backend) {l' : Loader}
    → IsSpaced l.all_objects
    → min_addr obj ≤ℤ end_of obj
    → clashes_any (min_addr obj) (extent_of obj) l.all_objects ≡ false
    → enter l space obj ≡ ok l'
    → IsSpaced l'.all_objects
unfolding enter
enter-IsSpaced l space obj {l'} s fits free e =
    let mapped : Backend = record obj { is_mapped = true } in
    let (objects, entered, e') =
      bind-ok (key_bisect_insort_right min_addr l.all_objects mapped (pos 0) none) _ e in
    let low = min_addr-mapped obj in
    let high = end_of-mapped obj in
    let fits' : min_addr mapped ≤ℤ end_of mapped = rw (low, high) fits in
    let free' : clashes_any (min_addr mapped) (extent_of mapped) l.all_objects ≡ false =
      rw (low, high) free in
    let placed : IsSpaced (place mapped l.all_objects) =
      place-IsSpaced mapped l.all_objects fits' s free' in
    let q : key_bisect_insort_right min_addr l.all_objects mapped (pos 0) none
        ≡ ok (place mapped l.all_objects) =
      insort-place mapped l.all_objects s in
    let same : place mapped l.all_objects ≡ objects = cc in
    let entered_all : objects ≡ l'.all_objects = ap objects_in e' in
    subst IsSpaced (same ∙ entered_all) placed

-- What `max_addr` leaves in its cache, and what it leaves alone.
max_addr-known :
    (b : Backend)
    → let (top, known) = max_addr b in
      ((r : ℤ) × (known.cached_max_addr ≡ some r) × (top ≡ r +ℤ min_addr b))
      × (known.mapped_base ≡ b.mapped_base)
      × (known.linked_base ≡ b.linked_base)
      × (known.is_main_bin ≡ b.is_main_bin)
unfolding max_addr min_addr
max_addr-known b = max_addr_by-known b b.cached_max_addr refl

-- An object on a free range of the old one's size enters without an overlap.
settled-IsSpaced :
    (l : Loader) (space : Clemory) (obj : Backend) (p : Placed) (r : ℤ) {l' : Loader}
    → IsSpaced l.all_objects
    → min_addr obj ≤ℤ end_of obj
    → end_of obj ≡ r +ℤ min_addr obj
    → IsSettled l (extent_of obj) r p
    → enter l space p.object ≡ ok l'
    → IsSpaced l'.all_objects
settled-IsSpaced l space obj p r s fits top (free, low, high) entered =
    let fits0 : min_addr obj ≤ℤ r +ℤ min_addr obj = rw top at fits in
    let fits' : min_addr p.object ≤ℤ end_of p.object = rw (low, high) (omega (int_laws, fits0)) in
    let same : extent_of obj ≡ extent_of p.object = rw (top, low, high) (omega int_laws) in
    let free' : clashes_any (min_addr p.object) (extent_of p.object) l.all_objects ≡ false =
      subst (λ n. clashes_any (min_addr p.object) n l.all_objects ≡ false) same
        (subst (λ a. clashes_any a (extent_of obj) l.all_objects ≡ false) (sym low)
          (is_range_free-clashes_any l p.base (extent_of obj) free)) in
    enter-IsSpaced l space p.object s fits' free' entered

-- The new object is in the list, with the old ones.
enter-Perm :
    (l : Loader) (space : Clemory) (obj : Backend) {l' : Loader}
    → IsSpaced l.all_objects
    → enter l space obj ≡ ok l'
    → Perm l'.all_objects (record obj { is_mapped = true } ∷ l.all_objects)
unfolding enter
enter-Perm l space obj {l'} s e =
    let mapped : Backend = record obj { is_mapped = true } in
    let (objects, entered, e') =
      bind-ok (key_bisect_insort_right min_addr l.all_objects mapped (pos 0) none) _ e in
    let inserted = insort-place mapped l.all_objects s in
    let same : place mapped l.all_objects ≡ objects = cc in
    let entered_all : objects ≡ l'.all_objects = ap objects_in e' in
    subst (λ os. Perm os (mapped ∷ l.all_objects)) (same ∙ entered_all)
      (place-Perm mapped l.all_objects)

ident-moved_to : (base : ℤ) (b : Backend) → (moved_to base b).ident ≡ b.ident
unfolding moved_to rebase_regions
ident-moved_to base b = refl

rebase-ident : (base : ℤ) (b b' : Backend) → rebase base b ≡ ok b' → b'.ident ≡ b.ident
unfolding rebase
rebase-ident base b b' e =
    let (_, e') = guard-ok b.is_mapped cle_operation_error (ok (moved_to base b)) e in
    let same : moved_to base b ≡ b' = cc in
    ap (λ (o : Backend). o.ident) (sym same) ∙ ident-moved_to base b

branch-ident :
    (pic free : Bool) (l : Loader) (obj : Backend) (size : ℤ) (p : Placed)
    → (if pic
        then (choose_base l obj size >>= λ b. rebase b obj >>= put_at b)
        else if free
        then put_at obj.linked_base obj
        else err cle_error)
      ≡ ok p
    → p.object.ident ≡ obj.ident
branch-ident true free l obj size p e =
    let (b, chosen, e') = bind-ok (choose_base l obj size) _ e in
    let (o, moved, e'') = bind-ok (rebase b obj) (put_at b) e' in
    let both : record { base = b; object = o } ≡ p = cc in
    ap (λ (q : Placed). q.object.ident) (sym both) ∙ rebase-ident b obj o moved
branch-ident false true l obj size p e =
    let both : record { base = obj.linked_base; object = obj } ≡ p = cc in
    ap (λ (q : Placed). q.object.ident) (sym both)
branch-ident false false l obj size p e = absurd (cc)

settle-ident :
    (l : Loader) (obj : Backend) (size : ℤ) (p : Placed)
    → settle l obj size ≡ ok p
    → p.object.ident ≡ obj.ident
unfolding settle
settle-ident l obj size p e =
    branch-ident obj.pic (is_range_free l obj.linked_base size) l obj size p e

max_addr_by-ident : (b : Backend) (c : Option ℤ) → (max_addr_by b c).1.ident ≡ b.ident
unfolding max_addr_by
max_addr_by-ident b none = refl
max_addr_by-ident b (some r) = refl

max_addr-ident : (b : Backend) → (max_addr b).1.ident ≡ b.ident
unfolding max_addr
max_addr-ident b = max_addr_by-ident b b.cached_max_addr

settled-extent :
    (l : Loader) (obj : Backend) (p : Placed) (r : ℤ)
    → end_of obj ≡ r +ℤ min_addr obj
    → IsSettled l (extent_of obj) r p
    → extent_of (record p.object { is_mapped = true }) ≡ extent_of obj
settled-extent l obj p r top (free, low, high) =
    let same : extent_of p.object ≡ extent_of obj = rw (top, low, high) (omega int_laws) in
    ap (λ e. e -ℤ min_addr (record p.object { is_mapped = true }) +ℤ pos 1) (end_of-mapped p.object)
    ∙ ap (λ e. end_of p.object -ℤ e +ℤ pos 1) (min_addr-mapped p.object)
    ∙ same

-- The list after the new object has been mapped: the old objects, and one that is mapped, has the
-- identity of the new one and takes as much room.
abbrev pub IsEntered : Backend → List Backend → List Backend → Type 0
IsEntered obj os os' =
    (o : Backend) × Perm os' (o ∷ os)
    × (o.ident ≡ obj.ident)
    × (o.is_mapped ≡ true)
    × (extent_of o ≡ extent_of obj)

-- Where the mapped objects do not overlap, the granularity is a power of two, the new object lies at
-- its linked base and is not empty, and there is room for it behind or between the others, and at
-- 0x400000 if it is the main object, then, if `_map_object` succeeds, the objects still do not
-- overlap, and they are the old ones and the new one, which is mapped then and takes as much room as
-- before.
pub integrate-IsSpaced :
    (l : Loader) (obj : Backend) (k : ℕ) {l' : Loader}
    → l.rebase_granularity ≡ 2 ^ k
    → IsSpaced l.all_objects
    → obj.mapped_base ≡ obj.linked_base
    → min_addr obj ≤ℤ end_of obj
    → HasRoom l obj.is_main_bin (extent_of obj)
    → integrate l obj ≡ ok l'
    → IsSpaced l'.all_objects × IsEntered obj l.all_objects l'.all_objects
unfolding integrate
integrate-IsSpaced l obj k {l'} g s home fits room e =
    let ((r, cached, top), mapped, linked, main) = max_addr-known obj in
    let known = (max_addr obj).1 in
    let size = extent_of obj in
    let positive : pos 0 <ℤ size = omega (int_laws, fits) in
    let (p, settled, e1) = bind-ok (settle l (max_addr obj).1 size) _ e in
    let (_, e2) = guard-ok (ltb_ℤ p.object.mapped_base (pos 0)) assertion_error _ e1 in
    let (space, mounted, entered) = bind-ok (mount l p.base p.object) _ e2 in
    let room' : HasRoom l known.is_main_bin size = subst (λ b. HasRoom l b size) (sym main) room in
    let placed =
      settle-IsSettled l known size r k g positive s room' cached p (mapped ∙ home ∙ sym linked)
        settled in
    (
      settled-IsSpaced l space obj p r s fits top placed entered,
      (
        record p.object { is_mapped = true },
        enter-Perm l space p.object s entered,
        settle-ident l known size p settled ∙ max_addr-ident obj,
        refl,
        settled-extent l obj p r top placed,
      ),
    )
