-- ===== src/Loader/Order/Walk.antt =====
-- The walk ends, and gives each object once.
use cle.Base.{
  ℕ, suc, ◌≤◌, ◌<◌, ◌≡◌, refl, ap, sym, ◌⊎◌, inl, inr, Bool, true, false, List, [], ◌∷◌, ◌++◌,
  length, Bool-cases, arith,
}
use cle.Loader.Order.{Loaded, Visits, mem}

abbrev pub Among : ℕ → List Loaded → Type 0
Among i [] = ⊥
Among i (o ∷ os) = (i ≡ o.ident) ⊎ Among i os

abbrev pub Once : List Loaded → Type 0
Once [] = Unit
Once (o ∷ os) = (¬ Among o.ident os) × Once os

abbrev pub AllAmong : List Loaded → List Loaded → Type 0
AllAmong [] us = Unit
AllAmong (o ∷ os) us = Among o.ident us × AllAmong os us

-- The objects themselves, not only their identities.
abbrev pub Stands : Loaded → List Loaded → Type 0
Stands o [] = ⊥
Stands o (p ∷ os) = (o ≡ p) ⊎ Stands o os

abbrev pub AllStand : List Loaded → List Loaded → Type 0
AllStand [] us = Unit
AllStand (o ∷ os) us = Stands o us × AllStand os us

pub Stands-Among : (o : Loaded) (os : List Loaded) → Stands o os → Among o.ident os
Stands-Among o [] h = absurd h
Stands-Among o (p ∷ os) (inl e) = inl (ap (λ x. x.ident) e)
Stands-Among o (p ∷ os) (inr h) = inr (Stands-Among o os h)

-- What a visit changes: what has been seen and listed stays so, what it sees is listed when it
-- ends, and it lists only what had not been seen.
pub record Grows (w w' : Visits) : Type 0 where
  pub keeps_seen : (i : ℕ) → mem i w.seen ≡ true → mem i w'.seen ≡ true
  pub keeps_listed : (i : ℕ) → Among i w.ordered → Among i w'.ordered
  pub lists_seen : (i : ℕ) → mem i w'.seen ≡ true → (mem i w.seen ≡ true) ⊎ Among i w'.ordered
  pub lists_new : (i : ℕ) → Among i w'.ordered → Among i w.ordered ⊎ (mem i w.seen ≡ false)

-- The listed objects have been seen, and each is listed once.
pub record IsSound (w : Visits) : Type 0 where
  pub once : Once w.ordered
  pub seen_too : (i : ℕ) → Among i w.ordered → mem i w.seen ≡ true

pub Grows-refl : (w : Visits) → Grows w w
Grows-refl w = record {
  keeps_seen = λ i h. h;
  keeps_listed = λ i h. h;
  lists_seen = λ i h. inl h;
  lists_new = λ i h. inl h;
}

either_seen :
    (i : ℕ) (u v w : Visits)
    → Grows u v
    → Grows v w
    → (mem i v.seen ≡ true) ⊎ Among i w.ordered
    → (mem i u.seen ≡ true) ⊎ Among i w.ordered
either_seen i u v w g h (inr listed) = inr listed
either_seen i u v w g h (inl m) = elim (g.lists_seen i m) [
  | inl old ↦ inl old
  | inr listed ↦ inr (h.keeps_listed i listed)
]

either_new :
    (i : ℕ) (u v : Visits)
    → Grows u v
    → Among i v.ordered ⊎ (mem i v.seen ≡ false)
    → Among i u.ordered ⊎ (mem i u.seen ≡ false)
either_new i u v g (inl listed) = g.lists_new i listed
either_new i u v g (inr unseen) = elim (Bool-cases (mem i u.seen)) [
  | inl m ↦ let seen = g.keeps_seen i m in absurd (cc)
  | inr fresh ↦ inr fresh
]

pub Grows-trans : {u v w : Visits} → Grows u v → Grows v w → Grows u w
Grows-trans {u} {v} {w} g h = record {
  keeps_seen = λ i m. h.keeps_seen i (g.keeps_seen i m);
  keeps_listed = λ i a. h.keeps_listed i (g.keeps_listed i a);
  lists_seen = λ i m. either_seen i u v w g h (h.lists_seen i m);
  lists_new = λ i a. either_new i u v g (h.lists_new i a);
}

pub Among-append_left : (i : ℕ) (os ps : List Loaded) → Among i os → Among i (os ++ ps)
Among-append_left i [] ps h = absurd h
Among-append_left i (o ∷ os) ps (inl e) = inl e
Among-append_left i (o ∷ os) ps (inr h) = inr (Among-append_left i os ps h)

pub Among-append_last : (os : List Loaded) (o : Loaded) → Among o.ident (os ++ o ∷ [])
Among-append_last [] o = inl refl
Among-append_last (p ∷ os) o = inr (Among-append_last os o)

pub Among-append_iff :
    (i : ℕ) (os : List Loaded) (o : Loaded) → Among i (os ++ o ∷ []) → Among i os ⊎ (i ≡ o.ident)
Among-append_iff i [] o (inl e) = inr e
Among-append_iff i [] o (inr h) = absurd h
Among-append_iff i (p ∷ os) o (inl e) = inl (inl e)
Among-append_iff i (p ∷ os) o (inr h) = elim (Among-append_iff i os o h) [
  | inl a ↦ inl (inr a)
  | inr e ↦ inr e
]

pub Once-append :
    (os : List Loaded) (o : Loaded) → Once os → ¬ Among o.ident os → Once (os ++ o ∷ [])
Once-append [] o h n = ((λ a. a), tt)
Once-append (p ∷ os) o (here, rest) n = (
  λ a. elim (Among-append_iff p.ident os o a) [ inl b ↦ here b | inr e ↦ n (inl (sym e)) ],
  Once-append os o rest (λ a. n (inr a)),
)

-- How many of the objects have not been seen.
abbrev count_unseen : Bool → ℕ → ℕ
count_unseen true n = n
count_unseen false n = suc n

abbrev pub unseen : List Loaded → List ℕ → ℕ
unseen [] seen = 0
unseen (o ∷ os) seen = count_unseen (mem o.ident seen) (unseen os seen)

pub unseen-le :
    (os : List Loaded) (s t : List ℕ)
    → ((i : ℕ) → mem i s ≡ true → mem i t ≡ true)
    → unseen os t ≤ unseen os s
unseen-le [] s t h = omega arith
unseen-le (o ∷ os) s t h = elim (Bool-cases (mem o.ident s)) [
  | inl m ↦ let m' = h o.ident m in rw (m, m') (unseen-le os s t h)
  | inr n ↦ rw n (ground (arith, unseen-le os s t h))
]

pub mem-cons : (i j : ℕ) (s : List ℕ) → mem i s ≡ true → mem i (j ∷ s) ≡ true
mem-cons i j s h = ground arith

pub unseen-mark :
    (os : List Loaded) (i : ℕ) (s : List ℕ)
    → Among i os
    → mem i s ≡ false
    → unseen os (i ∷ s) < unseen os s
unseen-mark [] i s a n = absurd a
unseen-mark (o ∷ os) i s (inl e) n =
    let rest = unseen-le os s (i ∷ s) (λ j. mem-cons j i s) in ground arith
unseen-mark (o ∷ os) i s (inr a) n = ground (arith, unseen-mark os i s a n)

pub unseen-le-length : (os : List Loaded) (s : List ℕ) → unseen os s ≤ length os
unseen-le-length [] s = omega arith
unseen-le-length (o ∷ os) s = ground (arith, unseen-le-length os s)
