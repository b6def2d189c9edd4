-- ===== src/Utils/Bisect/Search.antt =====
-- The binary search returns what a linear scan returns, on a list that its test splits.
use cle.Base.{
  ℕ, zero, suc, ◌+◌, ◌/◌, ◌≤◌, ◌<◌, ◌≡◌, Bool, true, false, none, some, List, [], ◌∷◌, arith,
  length, get_elem?, if◌then◌else◌, ok, inl, inr, Bool-cases, ltb, get_elem?-some,
}
use cle.Base.Int.{pos}
use cle.Utils.Bisect.{bisect_loop, bisect}

module _ {ℓ} {A : Type ℓ} (low : A → Bool) where
  -- The length of the longest prefix whose elements pass the test.
  abbrev pub prefix_len : List A → ℕ
  prefix_len [] = 0
  prefix_len (x ∷ xs) = if low x then suc (prefix_len xs) else 0

  abbrev pub AllHigh : List A → Type 0
  AllHigh [] = Unit
  AllHigh (x ∷ xs) = (low x ≡ false) × AllHigh xs

  -- Once an element fails the test, all later ones do.
  abbrev pub Splits : List A → Type 0
  Splits [] = Unit
  Splits (x ∷ xs) = (low x ≡ false → AllHigh xs) × Splits xs

  pub prefix_len-le-length : (xs : List A) → prefix_len xs ≤ length xs
  prefix_len-le-length [] = omega arith
  prefix_len-le-length (x ∷ xs) = ground (arith, prefix_len-le-length xs)

  AllHigh-get_elem? :
      (xs : List A) (i : ℕ) (a : A) → AllHigh xs → get_elem? xs i ≡ some a → low a ≡ false
  AllHigh-get_elem? [] i a h e = ground arith
  AllHigh-get_elem? (x ∷ xs) zero a h e = ground arith
  AllHigh-get_elem? (x ∷ xs) (suc i) a h e = AllHigh-get_elem? xs i a h.1 e

  pub low→prefix :
      (xs : List A) (i : ℕ) (a : A)
      → Splits xs
      → get_elem? xs i ≡ some a
      → low a ≡ true
      → i < prefix_len xs
  low→prefix [] i a s e h = ground arith
  low→prefix (x ∷ xs) zero a s e h = ground arith
  low→prefix (x ∷ xs) (suc i) a s e h =
      ground (arith, low→prefix xs i a s.1 e h, AllHigh-get_elem? xs i a)

  pub high→prefix :
      (xs : List A) (i : ℕ) (a : A) → get_elem? xs i ≡ some a → low a ≡ false → prefix_len xs ≤ i
  high→prefix [] i a e h = omega arith
  high→prefix (x ∷ xs) zero a e h = ground arith
  high→prefix (x ∷ xs) (suc i) a e h = ground (arith, high→prefix xs i a e h)

  bisect_loop-prefix_len :
      (fuel : ℕ) (xs : List A) (lo hi : ℕ)
      → Splits xs
      → hi ≤ lo + fuel
      → hi ≤ length xs
      → lo ≤ prefix_len xs
      → prefix_len xs ≤ hi
      → bisect_loop fuel low xs lo hi ≡ ok (prefix_len xs)
  unfolding bisect_loop
  bisect_loop-prefix_len zero xs lo hi s enough inside below above = ground arith
  bisect_loop-prefix_len (suc fuel) xs lo hi s enough inside below above =
      elim (Bool-cases (ltb lo hi)) [
        | inr empty ↦ ground arith
        | inl open_range ↦
            let (a, e) = get_elem?-some xs ((lo + hi) / 2) (ground arith) in
            ground (
              arith,
              low→prefix xs ((lo + hi) / 2) a s e,
              high→prefix xs ((lo + hi) / 2) a e,
              bisect_loop-prefix_len fuel xs ((lo + hi) / 2 + 1) hi s,
              bisect_loop-prefix_len fuel xs lo ((lo + hi) / 2) s,
            )
      ]

  -- With the default bounds the search ends and equals the linear scan.
  pub bisect-prefix_len :
      (xs : List A) → Splits xs → bisect low xs (pos 0) none ≡ ok (prefix_len xs)
  unfolding bisect
  bisect-prefix_len xs s =
      bisect_loop-prefix_len (length xs) xs 0 (length xs) s (omega arith) (omega arith)
        (omega arith) (prefix_len-le-length xs)
