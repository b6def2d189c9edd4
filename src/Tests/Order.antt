-- ===== src/Tests/Order.antt =====
-- A program, a library that it names, and one that this library names.
use cle.Base.{
  ℕ, ◌≡◌, refl, sym, subst, ◌↔◌, true, none, some, List, [], ◌∷◌, ◌==◌, ok, inl, inr, if◌then◌else◌,
  arith,
}
use cle.Loader.Order.{Loaded, Visits, deps_among, order_objects, found_deps}
use cle.Loader.Order.Walk.{Among, Once, Stands}
use cle.Loader.Order.Visiting.{Sorted, AllBelow}
use cle.Loader.Order.Outcome.{order_objects-Once, order_objects-Sorted}

abbrev program : Loaded
program = record { ident = 1; provides = none; deps = (b'b' ∷ b'.' ∷ b'1' ∷ []) ∷ [] }

abbrev library_b : Loaded
library_b = record { ident = 2; provides = some (b'b' ∷ b'.' ∷ b'2' ∷ []); deps = (b'a' ∷ []) ∷ [] }

abbrev library_a : Loaded
library_a = record { ident = 3; provides = some (b'a' ∷ []); deps = [] }

abbrev all_loaded : List Loaded
all_loaded = program ∷ library_b ∷ library_a ∷ []

ordered_test :
    order_objects true [] all_loaded
    ≡ ok (record { seen = 3 ∷ 2 ∷ 1 ∷ []; ordered = library_a ∷ library_b ∷ program ∷ [] })
unfolding order_objects
ordered_test = refl

order_objects-Once_example :
    (w : Visits) × (order_objects true (library_a ∷ []) all_loaded ≡ ok w)
    × Once w.ordered
    × ((i : ℕ) → Among i w.ordered ↔ Among i all_loaded)
order_objects-Once_example =
    order_objects-Once true (library_a ∷ []) all_loaded (inr (inr (inl refl)), tt)

abbrev depth : ℕ → ℕ
depth i = if i == 1 then 2 else if i == 2 then 1 else 0

no_cycle :
    (o : Loaded)
    → Stands o all_loaded
    → AllBelow depth (depth o.ident) (deps_among true all_loaded o)
unfolding found_deps
no_cycle o (inl e) =
    subst (λ p. AllBelow depth (depth p.ident) (deps_among true all_loaded p)) (sym e)
      (omega arith, tt)
no_cycle o (inr (inl e)) =
    subst (λ p. AllBelow depth (depth p.ident) (deps_among true all_loaded p)) (sym e)
      (omega arith, tt)
no_cycle o (inr (inr (inl e))) =
    subst (λ p. AllBelow depth (depth p.ident) (deps_among true all_loaded p)) (sym e) tt
no_cycle o (inr (inr (inr h))) = absurd h

order_objects-Sorted_example :
    (w : Visits) × (order_objects true [] all_loaded ≡ ok w)
    × Sorted (deps_among true all_loaded) [] w.ordered
order_objects-Sorted_example =
    order_objects-Sorted true [] all_loaded depth 3 tt no_cycle (omega arith)
