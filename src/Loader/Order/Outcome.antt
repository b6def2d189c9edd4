-- ===== src/Loader/Order/Outcome.antt =====
-- The whole of step 1.5: the order of the objects that are loaded.
use cle.Base.{
  ℕ, suc, ◌≡◌, refl, ◌∙◌, ◌↔◌, inl, inr, Bool, true, false, List, [], ◌∷◌, ◌++◌, none, some, length,
  ok, arith, Option-cases, if◌then◌else◌,
}
use cle.Loader.Order.{
  Name, Loaded, Visits, by_soname, fits_name, soname, stripped, found_deps, deps_among,
  order_objects,
}
use cle.Loader.Order.Walk.{Among, Once, Stands, AllStand, IsSound, unseen-le-length}
use cle.Loader.Order.Visiting.{Sorted, AllBelow, VisitedAll, visit-VisitsWell, all_visited}

by_soname-Stands :
    (v : Bool) (os : List Loaded) (name : Name) (o : Loaded)
    → by_soname v os name ≡ some o
    → Stands o os
unfolding by_soname
by_soname-Stands v [] name o e = absurd (cc)
by_soname-Stands v (p ∷ os) name o e = elim (Option-cases (by_soname v os name)) [
  | inl nothing ↦ inl (this_one (fits_name (soname v p) name) p o (rw nothing at e))
  | inr (q, found) ↦
      let same : some q ≡ some o = rw found at e in
      inr (by_soname-Stands v os name o (found ∙ same))
]
  where
    this_one : (b : Bool) (p o : Loaded) → (if b then some p else none) ≡ some o → o ≡ p
    this_one true p o e = cc
    this_one false p o e = absurd (cc)

found_deps-AllStand :
    (v : Bool) (os : List Loaded) (names : List Name) → AllStand (found_deps v os names) os
unfolding found_deps
found_deps-AllStand v os [] = tt
found_deps-AllStand v os (name ∷ names) = elim (Option-cases (by_soname v os (stripped v name))) [
  | inl nothing ↦ rw nothing (found_deps-AllStand v os names)
  | inr (o, found) ↦
      rw found (by_soname-Stands v os (stripped v name) o found, found_deps-AllStand v os names)
]

AllStand-refl : (os : List Loaded) → AllStand os os
AllStand-refl os = each os os (λ o a. a)
  where
    each : (ps os : List Loaded) → ((o : Loaded) → Stands o ps → Stands o os) → AllStand ps os
    each [] os h = tt
    each (p ∷ ps) os h = (h p (inl refl), each ps os (λ o a. h o (inr a)))

AllStand-append :
    (os ps us : List Loaded) → AllStand os us → AllStand ps us → AllStand (os ++ ps) us
AllStand-append [] ps us a b = b
AllStand-append (o ∷ os) ps us (here, rest) b = (here, AllStand-append os ps us rest b)

Among-append_right : (i : ℕ) (os ps : List Loaded) → Among i ps → Among i (os ++ ps)
Among-append_right i [] ps a = a
Among-append_right i (o ∷ os) ps a = inr (Among-append_right i os ps a)

abbrev start : Visits
start = record { seen = []; ordered = [] }

start-IsSound : IsSound start
start-IsSound = record { once = tt; seen_too = λ i a. absurd a }

module _ (ignore_versions : Bool) (preloaded objects : List Loaded) (rank : ℕ → ℕ)
    (loaded : AllStand preloaded objects) where
  walked :
      VisitedAll
        (deps_among ignore_versions objects)
        objects
        rank
        (λ o. found_deps-AllStand ignore_versions objects o.deps)
        start
        (preloaded ++ objects)
        (order_objects ignore_versions preloaded objects)
  unfolding order_objects
  walked =
      all_visited (deps_among ignore_versions objects) objects rank
        (λ o. found_deps-AllStand ignore_versions objects o.deps) (suc (length objects))
        (visit-VisitsWell (deps_among ignore_versions objects) objects rank
          (λ o. found_deps-AllStand ignore_versions objects o.deps) (suc (length objects)))
        (preloaded ++ objects) start
        (AllStand-append preloaded objects objects loaded (AllStand-refl objects)) start-IsSound
        (omega (arith, unseen-le-length objects []))

-- The walk over the objects that have been loaded, those to be preloaded first, ends with the fuel
-- of one round more than there are objects, and lists exactly the objects, each of them once,
-- whether or not their dependencies have a cycle.
pub order_objects-Once :
    (ignore_versions : Bool) (preloaded objects : List Loaded)
    → AllStand preloaded objects
    → (w : Visits) × (order_objects ignore_versions preloaded objects ≡ ok w)
      × Once w.ordered
      × ((i : ℕ) → Among i w.ordered ↔ Among i objects)
order_objects-Once v pre objects loaded =
    let all = walked v pre objects (λ i. 0) loaded in
    (
      all.after,
      all.ends,
      all.sound.once,
      λ i. (
        all.stays (λ j a. absurd a) i,
        λ a. elim (all.grows.lists_seen i (all.sees i (Among-append_right i pre objects a))) [
          | inl m ↦ absurd (cc)
          | inr listed ↦ listed
        ],
      ),
    )

-- Where the dependencies have no cycle, each object is listed behind all that it depends on.
pub order_objects-Sorted :
    (ignore_versions : Bool) (preloaded objects : List Loaded) (rank : ℕ → ℕ) (bound : ℕ)
    → AllStand preloaded objects
    → ((o : Loaded)
        → Stands o objects
        → AllBelow rank (rank o.ident) (deps_among ignore_versions objects o))
    → AllBelow rank bound (preloaded ++ objects)
    → (w : Visits) × (order_objects ignore_versions preloaded objects ≡ ok w)
      × Sorted (deps_among ignore_versions objects) [] w.ordered
order_objects-Sorted v pre objects rank bound loaded acyclic below =
    let all = walked v pre objects rank loaded in
    (all.after, all.ends, (all.sorts acyclic bound below (λ i m. absurd (cc)) tt).0)
