-- ===== src/Base/Slices.antt =====
-- Python's slices of a sequence, and the replacement of a slice by another sequence.
use Prim.Native.Nat.{ℕ, ◌+◌, ◌-◌, ◌≤◌, ◌<◌}
use mathlib.Core.Path.{◌≡◌, ◌∙◌}
use mathlib.Core.List.{List, ◌++◌}
use native.Mathlib.Omega.{arith}
use cle.Base.Lists.{
  length, get_elem?, take, drop, length-append, length-take, length-drop, get_elem?-append_left,
  get_elem?-append_right, get_elem?-take, get_elem?-drop,
}

module _ {ℓ} {A : Type ℓ} where
  -- `xs[from:to]`, for bounds that are not negative.
  abbrev pub slice : List A → ℕ → ℕ → List A
  slice xs from to = take (to - from) (drop from xs)

  -- `xs[:from] + ys + xs[to:]`, to which `xs[from:to] = ys` sets `xs` where `from ≤ to`.
  pub splice : List A → ℕ → ℕ → List A → List A
  splice xs from to ys = (take from xs ++ ys) ++ drop to xs

  pub length-slice :
      (xs : List A) (from to : ℕ)
      → from ≤ to
      → to ≤ length xs
      → length (slice xs from to) ≡ to - from
  length-slice xs from to h k =
      omega (arith, length-take (to - from) (drop from xs), length-drop from xs)

  pub get_elem?-slice :
      (xs : List A) (from to i : ℕ)
      → i < to - from
      → get_elem? (slice xs from to) i ≡ get_elem? xs (from + i)
  get_elem?-slice xs from to i h =
      get_elem?-take (to - from) (drop from xs) i h ∙ get_elem?-drop from xs i

  module _ (xs : List A) (from to : ℕ) (ys : List A) (fits : length ys ≡ to - from)
      (ordered : from ≤ to) (inside : to ≤ length xs) where
    pub length-splice : length (splice xs from to ys) ≡ length xs
    unfolding splice
    length-splice = omega (
      arith,
      length-append (take from xs ++ ys) (drop to xs),
      length-append (take from xs) ys,
      length-take from xs,
      length-drop to xs,
    )

    length-head : length (take from xs ++ ys) ≡ to
    length-head = omega (arith, length-append (take from xs) ys, length-take from xs)

    pub get_elem?-splice_before :
        (i : ℕ) → i < from → get_elem? (splice xs from to ys) i ≡ get_elem? xs i
    unfolding splice
    get_elem?-splice_before i h =
        get_elem?-append_left (take from xs ++ ys) (drop to xs) i (omega (arith, length-head))
        ∙ get_elem?-append_left (take from xs) ys i (omega (arith, length-take from xs))
        ∙ get_elem?-take from xs i h

    pub get_elem?-splice_inside :
        (i : ℕ) → from ≤ i → i < to → get_elem? (splice xs from to ys) i ≡ get_elem? ys (i - from)
    unfolding splice
    get_elem?-splice_inside i h k =
        get_elem?-append_left (take from xs ++ ys) (drop to xs) i (omega (arith, length-head))
        ∙ get_elem?-append_right (take from xs) ys i (omega (arith, length-take from xs))
        ∙ (let e : length (take from xs) ≡ from = omega (arith, length-take from xs) in rw e)

    pub get_elem?-splice_after :
        (i : ℕ) → to ≤ i → get_elem? (splice xs from to ys) i ≡ get_elem? xs i
    unfolding splice
    get_elem?-splice_after i h =
        get_elem?-append_right (take from xs ++ ys) (drop to xs) i (omega (arith, length-head))
        ∙ get_elem?-drop to xs (i - length (take from xs ++ ys))
        ∙ (let e : to + (i - length (take from xs ++ ys)) ≡ i = omega (arith, length-head) in rw e)
