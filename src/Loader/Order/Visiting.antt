-- ===== src/Loader/Order/Visiting.antt =====
-- One visit, by induction on the fuel: it ends, lists each object once, and, where the dependencies
-- have no cycle, lists an object behind those that it depends on.
use cle.Base.{
  ℕ, zero, suc, ◌≤◌, ◌<◌, ◌≡◌, refl, sym, subst, ◌⊎◌, inl, inr, true, false, List, [], ◌∷◌, ◌++◌,
  ◌==◌, ==_iff, Result, ok, Bool-cases, arith,
}
use mathlib.Core.List.{append_assoc, append-nil}
use cle.Loader.Order.{Loaded, Visits, mem, visit, visit_each}
use cle.Loader.Order.Walk.{
  Among, AllAmong, Stands, AllStand, Stands-Among, Grows, IsSound, Grows-refl, Grows-trans,
  Among-append_left, Among-append_last, Among-append_iff, Once-append, unseen, unseen-le,
  unseen-mark, mem-cons,
}

-- Each object of a list stands behind those that it depends on, which may be in `before` too.
abbrev pub Sorted : (Loaded → List Loaded) → List Loaded → List Loaded → Type 0
Sorted dep_objs before [] = Unit
Sorted dep_objs before (o ∷ os) =
    AllAmong (dep_objs o) before × Sorted dep_objs (before ++ o ∷ []) os

-- A rank of the objects that falls along each dependency: there is no cycle.
abbrev pub AllBelow : (ℕ → ℕ) → ℕ → List Loaded → Type 0
AllBelow rank r [] = Unit
AllBelow rank r (o ∷ os) = (rank o.ident < r) × AllBelow rank r os

Sorted-append :
    (dep_objs : Loaded → List Loaded) (before os : List Loaded) (o : Loaded)
    → Sorted dep_objs before os
    → AllAmong (dep_objs o) (before ++ os)
    → Sorted dep_objs before (os ++ o ∷ [])
Sorted-append dep_objs before [] o s a = (subst (AllAmong (dep_objs o)) (append-nil before) a, tt)
Sorted-append dep_objs before (p ∷ os) o (here, rest) a = (
  here,
  Sorted-append dep_objs (before ++ p ∷ []) os o rest
      (subst (AllAmong (dep_objs o)) (sym (append_assoc before (p ∷ []) os)) a),
)

AllAmong-weaken :
    (os us vs : List Loaded) → ((i : ℕ) → Among i us → Among i vs) → AllAmong os us → AllAmong os vs
AllAmong-weaken [] us vs h a = tt
AllAmong-weaken (o ∷ os) us vs h (here, rest) = (h o.ident here, AllAmong-weaken os us vs h rest)

module _ (dep_objs : Loaded → List Loaded) (objects : List Loaded) (rank : ℕ → ℕ)
    (closed : (o : Loaded) → AllStand (dep_objs o) objects) where
  -- What has been seen and is not listed has a rank from `r` on.
  abbrev pub IsPending : ℕ → Visits → Type 0
  IsPending r w = (i : ℕ) → mem i w.seen ≡ true → Among i w.ordered ⊎ (r ≤ rank i)

  abbrev pub IsAcyclic : Type 0
  IsAcyclic = (o : Loaded) → Stands o objects → AllBelow rank (rank o.ident) (dep_objs o)

  -- The outcome of a visit of one object, and of several.
  pub record Visited (w : Visits) (o : Loaded) (r : Result Visits) : Type 0 where
    pub after : Visits
    pub ends : r ≡ ok after
    pub grows : Grows w after
    pub sound : IsSound after
    pub sees : mem o.ident after.seen ≡ true
    pub stays :
        ((i : ℕ) → Among i w.ordered → Among i objects)
        → (i : ℕ) → Among i after.ordered
        → Among i objects
    pub sorts :
        IsAcyclic
        → (bound : ℕ) → rank o.ident < bound
        → IsPending bound w
        → Sorted dep_objs [] w.ordered
        → Sorted dep_objs [] after.ordered × Among o.ident after.ordered

  pub record VisitedAll (w : Visits) (os : List Loaded) (r : Result Visits) : Type 0 where
    pub after : Visits
    pub ends : r ≡ ok after
    pub grows : Grows w after
    pub sound : IsSound after
    pub sees : (i : ℕ) → Among i os → mem i after.seen ≡ true
    pub stays :
        ((i : ℕ) → Among i w.ordered → Among i objects)
        → (i : ℕ) → Among i after.ordered
        → Among i objects
    pub sorts :
        IsAcyclic
        → (bound : ℕ) → AllBelow rank bound os
        → IsPending bound w
        → Sorted dep_objs [] w.ordered
        → Sorted dep_objs [] after.ordered × AllAmong os after.ordered

  abbrev pub VisitsWell : ℕ → Type 0
  VisitsWell f =
      (o : Loaded) (w : Visits)
      → Stands o objects
      → IsSound w
      → unseen objects w.seen < f
      → Visited w o (visit f dep_objs o w)

  IsPending-grow : (r : ℕ) (w v : Visits) → Grows w v → IsPending r w → IsPending r v
  IsPending-grow r w v g p i m = elim (g.lists_seen i m) [
    | inl old ↦ elim (p i old) [ inl listed ↦ inl (g.keeps_listed i listed) | inr high ↦ inr high ]
    | inr listed ↦ inl listed
  ]

  sees_either :
      (o : Loaded) (os : List Loaded) (v w : Visits) (i : ℕ)
      → Among i (o ∷ os)
      → mem o.ident v.seen ≡ true
      → Grows v w
      → ((j : ℕ) → Among j os → mem j w.seen ≡ true)
      → mem i w.seen ≡ true
  sees_either o os v w i (inl e) m g h = rw e (g.keeps_seen o.ident m)
  sees_either o os v w i (inr a) m g h = h i a

  pub all_visited :
      (f : ℕ)
      → VisitsWell f
      → (os : List Loaded) (w : Visits) → AllStand os objects
      → IsSound w
      → unseen objects w.seen < f
      → VisitedAll w os (visit_each (visit f dep_objs) os w)
  all_visited f well [] w a s h = record {
    after = w;
    ends = refl;
    grows = Grows-refl w;
    sound = s;
    sees = λ i n. absurd n;
    stays = λ t. t;
    sorts = λ ac b below p st. (st, tt);
  }
  all_visited f well (o ∷ os) w (here, there) s h =
      let first = well o w here s h in
      let fewer = unseen-le objects w.seen first.after.seen first.grows.keeps_seen in
      let rest = all_visited f well os first.after there first.sound (omega arith) in
      record {
        after = rest.after;
        ends = rw first.ends rest.ends;
        grows = Grows-trans first.grows rest.grows;
        sound = rest.sound;
        sees = λ i n. sees_either o os first.after rest.after i n first.sees rest.grows rest.sees;
        stays = λ t. rest.stays (first.stays t);
        sorts = λ ac b below p st.
            let (st', listed) = first.sorts ac b below.0 p st in
            let (st'', all_listed) =
              rest.sorts ac b below.1 (IsPending-grow b w first.after first.grows p) st' in
            (st'', (rest.grows.keeps_listed o.ident listed, all_listed));
      }

  abbrev marked : Loaded → Visits → Visits
  marked o w = record w { seen = o.ident ∷ w.seen }

  abbrev listed_last : Loaded → Visits → Visits
  listed_last o w = record w { ordered = w.ordered ++ o ∷ [] }

  mem_self : (i : ℕ) (s : List ℕ) → mem i (i ∷ s) ≡ true
  mem_self i s = ground arith

  mem_split : (i j : ℕ) (s : List ℕ) → mem i (j ∷ s) ≡ true → (i ≡ j) ⊎ (mem i s ≡ true)
  mem_split i j s h = elim (Bool-cases (i == j)) [
    | inl e ↦ inl ((==_iff i j).0 e)
    | inr n ↦ inr (rw n at h)
  ]

  unmarked : (i j : ℕ) (s : List ℕ) → mem i (j ∷ s) ≡ false → mem i s ≡ false
  unmarked i j s h = elim (Bool-cases (mem i s)) [
    | inl m ↦ let m' = mem-cons i j s m in absurd (cc)
    | inr n ↦ n
  ]

  marked-IsSound : (o : Loaded) (w : Visits) → IsSound w → IsSound (marked o w)
  marked-IsSound o w s = record {
    once = s.once;
    seen_too = λ i a. mem-cons i o.ident w.seen (s.seen_too i a);
  }

  -- An object that is being visited is not listed by the visits of its dependencies.
  not_yet_listed :
      (o : Loaded) (w v : Visits)
      → IsSound w
      → mem o.ident w.seen ≡ false
      → Grows (marked o w) v
      → ¬ Among o.ident v.ordered
  not_yet_listed o w v s n g a = elim (g.lists_new o.ident a) [
    | inl old ↦ let m = s.seen_too o.ident old in cc
    | inr fresh ↦ let m = mem_self o.ident w.seen in cc
  ]

  listed_last-IsSound :
      (o : Loaded) (v : Visits)
      → IsSound v
      → mem o.ident v.seen ≡ true
      → ¬ Among o.ident v.ordered
      → IsSound (listed_last o v)
  listed_last-IsSound o v s m n = record {
    once = Once-append v.ordered o s.once n;
    seen_too =
        λ i a. elim (Among-append_iff i v.ordered o a) [ inl b ↦ s.seen_too i b | inr e ↦ rw e m ];
  }

  listed_last-Grows :
      (o : Loaded) (w v : Visits)
      → mem o.ident w.seen ≡ false
      → Grows (marked o w) v
      → Grows w (listed_last o v)
  listed_last-Grows o w v n g = record {
    keeps_seen = λ i m. g.keeps_seen i (mem-cons i o.ident w.seen m);
    keeps_listed = λ i a. Among-append_left i v.ordered (o ∷ []) (g.keeps_listed i a);
    lists_seen = λ i m. elim (g.lists_seen i m) [
      | inl before ↦ elim (mem_split i o.ident w.seen before) [
        | inl e ↦ inr (rw e (Among-append_last v.ordered o))
        | inr old ↦ inl old
      ]
      | inr listed ↦ inr (Among-append_left i v.ordered (o ∷ []) listed)
    ];
    lists_new = λ i a. elim (Among-append_iff i v.ordered o a) [
      | inl b ↦ elim (g.lists_new i b) [
        | inl listed ↦ inl listed
        | inr fresh ↦ inr (unmarked i o.ident w.seen fresh)
      ]
      | inr e ↦ inr (rw e n)
    ];
  }

  marked-IsPending :
      (o : Loaded) (w : Visits) (bound : ℕ)
      → rank o.ident < bound
      → IsPending bound w
      → IsPending (rank o.ident) (marked o w)
  marked-IsPending o w b h p i m = elim (mem_split i o.ident w.seen m) [
    | inl e ↦ inr (rw e (omega arith))
    | inr old ↦ elim (p i old) [ inl listed ↦ inl listed | inr high ↦ inr (omega arith) ]
  ]

  pub visit-VisitsWell : (f : ℕ) → VisitsWell f
  unfolding visit
  visit-VisitsWell zero o w a s h = elim h [ ]
  visit-VisitsWell (suc f) o w a s h = elim (Bool-cases (mem o.ident w.seen)) [
    | inl m ↦ record {
      after = w;
      ends = rw m;
      grows = Grows-refl w;
      sound = s;
      sees = m;
      stays = λ t. t;
      sorts = λ ac b low p st. elim (p o.ident m) [
        | inl listed ↦ (st, listed)
        | inr high ↦ absurd (omega arith)
      ];
    }
    | inr n ↦
        let fewer = unseen-mark objects o.ident w.seen (Stands-Among o objects a) n in
        let inner =
          all_visited f (visit-VisitsWell f) (dep_objs o) (marked o w) (closed o)
            (marked-IsSound o w s) (omega arith) in
        let seen = inner.grows.keeps_seen o.ident (mem_self o.ident w.seen) in
        record {
          after = listed_last o inner.after;
          ends = rw (n, inner.ends);
          grows = listed_last-Grows o w inner.after n inner.grows;
          sound =
              listed_last-IsSound o inner.after inner.sound seen
                (not_yet_listed o w inner.after s n inner.grows);
          sees = seen;
          stays = λ t i b. elim (Among-append_iff i inner.after.ordered o b) [
            | inl listed ↦ inner.stays t i listed
            | inr e ↦ rw e (Stands-Among o objects a)
          ];
          sorts = λ ac b low p st.
              let (st', all_listed) =
                inner.sorts ac (rank o.ident) (ac o a) (marked-IsPending o w b low p) st in
              (
                Sorted-append dep_objs [] inner.after.ordered o st' all_listed,
                Among-append_last inner.after.ordered o,
              );
        }
  ]
