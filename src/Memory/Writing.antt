-- ===== src/Memory/Writing.antt =====
-- `__setitem__` writes one byte of the abstract view and nothing else, or raises `KeyError`.
use cle.Base.{
  ℕ, ◌<◌, ◌≡◌, refl, ap, ◌∙◌, Bool, true, false, ◌&&◌, Option, none, some, List, [], ◌∷◌, ◌++◌,
  length, set, arith, if◌then◌else◌, inl, inr, Bool-cases, Result, ok, err, out_of_fuel, ◌>>=◌,
  key_error, length-set, get_elem?-set_self, get_elem?-set_ne, get_elem?-some, lt→ltb, value_error,
}
use cle.Base.Int.{ℤ, ◌-ℤ◌, leb_ℤ, ltb_ℤ, eqb_ℤ, to_ℕ, int_laws}
use cle.Memory.Backers.{
  Kind, byte_array, int_list, mmap, byte_constant, Meta, Backers, nil, raw, child, Segment,
}
use cle.Memory.Items.{indexable, or_key_error, in_buffer, assign, set_item}
use cle.Memory.Bytes.{
  or_else, segments, byte_in, byte_at, byte_at-append, byte_at-shift, byte_at_outside,
  shift_segments,
}
use cle.Memory.Reading.{IsSound}

-- `bs'` has the bytes of `bs`, but `v` at `k`.
abbrev pub Updates : ℤ → ℕ → List Segment → List Segment → Type 0
Updates k v ss ts = (j : ℤ) → byte_at j ts ≡ (if eqb_ℤ j k then some v else byte_at j ss)

-- What an assignment of `v` at `k` has done, by how it ended.
abbrev pub Assigned : ℤ → ℕ → Backers → Result Backers → Type 0
Assigned k v bs (ok bs') =
    ((b : ℕ) × (byte_at k (segments bs) ≡ some b)) × Updates k v (segments bs) (segments bs')
Assigned k v bs (err key_error) = byte_at k (segments bs) ≡ none
Assigned k v bs (err e) = ⊥
Assigned k v bs out_of_fuel = ⊥

byte_in-set :
    (start k j : ℤ) (kind : Kind) (xs : List ℕ) (v : ℕ)
    → in_buffer (k -ℤ start) xs ≡ true
    → byte_in (record { start = start; kind = kind; content = set xs (to_ℕ (k -ℤ start)) v }) j ≡ (
        if eqb_ℤ j k
        then some v
        else byte_in (record { start = start; kind = kind; content = xs }) j)
unfolding byte_in
byte_in-set start k j kind xs v h = elim (Bool-cases (eqb_ℤ j k)) [
  | inl same ↦
      let e : j ≡ k = ground arith in
      let lt : to_ℕ (k -ℤ start) < length xs = ground arith in
      rw (same, e, length-set xs (to_ℕ (k -ℤ start)) v, h)
        (get_elem?-set_self xs (to_ℕ (k -ℤ start)) v lt)
  | inr other ↦
      rw (other, length-set xs (to_ℕ (k -ℤ start)) v)
        (elim (Bool-cases (in_buffer (j -ℤ start) xs)) [
          | inl inside ↦
              rw inside (
                get_elem?-set_ne xs (to_ℕ (k -ℤ start)) (to_ℕ (j -ℤ start)) v (λ e. grind int_laws))
          | inr outside ↦ rw outside
        ])
]

or_else-if :
    (c : Bool) (v : ℕ) (o p q : Option ℕ)
    → o ≡ (if c then some v else p)
    → or_else o q ≡ (if c then some v else or_else p q)
or_else-if true v o p q e = rw e
or_else-if false v o p q e = rw e

miss-if :
    (j k : ℤ) (v : ℕ) (ss : List Segment) (o p : Option ℕ)
    → byte_at k ss ≡ none
    → o ≡ (if eqb_ℤ j k then some v else p)
    → or_else (byte_at j ss) o ≡ (if eqb_ℤ j k then some v else or_else (byte_at j ss) p)
miss-if j k v ss o p m e = elim (Bool-cases (eqb_ℤ j k)) [
  | inl same ↦ let e' : j ≡ k = ground arith in rw same (rw (e', m) (e ∙ rw same))
  | inr other ↦ rw other (ap (or_else (byte_at j ss)) (e ∙ rw other))
]

Updates-hit :
    (k : ℤ) (v : ℕ) (ss ss' ts : List Segment)
    → Updates k v ss ss'
    → Updates k v (ss ++ ts) (ss' ++ ts)
Updates-hit k v ss ss' ts u j =
    rw (byte_at-append j ss ts, byte_at-append j ss' ts)
      (or_else-if (eqb_ℤ j k) v (byte_at j ss') (byte_at j ss) (byte_at j ts) (u j))

Updates-miss :
    (k : ℤ) (v : ℕ) (ss ts ts' : List Segment)
    → byte_at k ss ≡ none
    → Updates k v ts ts'
    → Updates k v (ss ++ ts) (ss ++ ts')
Updates-miss k v ss ts ts' m u j =
    rw (byte_at-append j ss ts, byte_at-append j ss ts')
      (miss-if j k v ss (byte_at j ts') (byte_at j ts) m (u j))

Updates-shift :
    (k d : ℤ) (v : ℕ) (ss ss' : List Segment)
    → Updates (k -ℤ d) v ss ss'
    → Updates k v (shift_segments d ss) (shift_segments d ss')
Updates-shift k d v ss ss' u j =
    let e : eqb_ℤ (j -ℤ d) (k -ℤ d) ≡ eqb_ℤ j k = grind int_laws in
    rw (byte_at-shift d j ss, byte_at-shift d j ss') (rw e at (u (j -ℤ d)))

-- The rest of the backers behind a part that has no byte at `k`.
Assigned-miss :
    (k : ℤ) (v : ℕ) (ss : List Segment) (bs : Backers) (make : Backers → Backers)
    (r : Result Backers)
    → ((cs : Backers) → segments (make cs) ≡ ss ++ segments cs)
    → byte_at k ss ≡ none
    → Assigned k v bs r
    → Assigned k v (make bs) (r >>= λ bs'. ok (make bs'))
Assigned-miss k v ss bs make (ok bs') shape m (b, u) = (
  rw (shape bs, byte_at-append k ss (segments bs), m) b,
  rw (shape bs, shape bs') (Updates-miss k v ss (segments bs) (segments bs') m u),
)
Assigned-miss k v ss bs make (err key_error) shape m h =
    rw (shape bs, byte_at-append k ss (segments bs), m) h
Assigned-miss k v ss bs make (err value_error) shape m h = absurd h
Assigned-miss k v ss bs make (err e) shape m h = absurd h
Assigned-miss k v ss bs make out_of_fuel shape m h = absurd h

-- A memory among the backers, once its bounds have let the address through.
Assigned-enter :
    (k start : ℤ) (v : ℕ) (info : Meta) (bs rest : Backers) (r later : Result Backers)
    → Assigned (k -ℤ start) v bs r
    → (byte_at (k -ℤ start) (segments bs) ≡ none → Assigned k v (child start info bs rest) later)
    → Assigned k v
        (child start info bs rest)
        (or_key_error (r >>= λ bs'. ok (child start info bs' rest)) later)
unfolding segments
Assigned-enter k start v info bs rest (ok bs') later ((b, e), u) miss = (
  (
    b,
    rw (
      byte_at-append k (shift_segments start (segments bs)) (segments rest),
      byte_at-shift start k (segments bs),
      e,
    ),
  ),
  Updates-hit k v (shift_segments start (segments bs)) (shift_segments start (segments bs'))
      (segments rest) (Updates-shift k start v (segments bs) (segments bs') u),
)
Assigned-enter k start v info bs rest (err key_error) later h miss = miss h
Assigned-enter k start v info bs rest (err value_error) later h miss = absurd h
Assigned-enter k start v info bs rest (err e) later h miss = absurd h
Assigned-enter k start v info bs rest out_of_fuel later h miss = absurd h

byte_here :
    (start k : ℤ) (kind : Kind) (xs : List ℕ)
    → in_buffer (k -ℤ start) xs ≡ true
    → (b : ℕ) × (byte_in (record { start = start; kind = kind; content = xs }) k ≡ some b)
unfolding byte_in
byte_here start k kind xs h =
    let (b, e) = get_elem?-some xs (to_ℕ (k -ℤ start)) (ground arith) in (b, rw h e)

no_byte_here :
    (start k : ℤ) (kind : Kind) (xs : List ℕ)
    → in_buffer (k -ℤ start) xs ≡ false
    → byte_in (record { start = start; kind = kind; content = xs }) k ≡ none
unfolding byte_in
no_byte_here start k kind xs h = rw h

or_else-none : (o : Option ℕ) → or_else o none ≡ o
or_else-none none = refl
or_else-none (some b) = refl

Updates-set :
    (start k : ℤ) (kind : Kind) (xs : List ℕ) (v : ℕ) (ts : List Segment)
    → in_buffer (k -ℤ start) xs ≡ true
    → Updates k v
        (record { start = start; kind = kind; content = xs } ∷ ts)
        (record { start = start; kind = kind; content = set xs (to_ℕ (k -ℤ start)) v } ∷ ts)
unfolding byte_at
Updates-set start k kind xs v ts h j =
    or_else-if (eqb_ℤ j k) v _ _ (byte_at j ts) (byte_in-set start k j kind xs v h)

Assigned-buffer :
    (start k : ℤ) (kind : Kind) (xs : List ℕ) (v : ℕ) (rest : Backers)
    → v < 256
    → indexable kind ≡ true
    → in_buffer (k -ℤ start) xs ≡ true
    → Assigned k v
        (raw start kind xs rest)
        (assign kind xs (to_ℕ (k -ℤ start)) v >>= λ ys. ok (raw start kind ys rest))
unfolding segments byte_at
Assigned-buffer start k byte_array xs v rest small i h =
    let (b, e) = byte_here start k byte_array xs h in
    rw (lt→ltb v 256 small) ((b, rw e), Updates-set start k byte_array xs v (segments rest) h)
Assigned-buffer start k int_list xs v rest small i h =
    let (b, e) = byte_here start k int_list xs h in
    ((b, rw e), Updates-set start k int_list xs v (segments rest) h)
Assigned-buffer start k mmap xs v rest small i h = absurd (ground arith)
Assigned-buffer start k byte_constant xs v rest small i h = absurd (ground arith)

-- Where each buffer is a `bytearray` or a list, and the recorded bounds of the memories inside enclose
-- what is in them, an assignment of a number below 256 succeeds exactly where the memory has a byte;
-- then it changes that byte and no other, and otherwise it raises `KeyError`.
pub set_item-Assigned :
    (bs : Backers) (k : ℤ) (v : ℕ) → v < 256 → IsSound bs → Assigned k v bs (set_item bs k v)
unfolding set_item segments byte_at
set_item-Assigned nil k v small sound = refl
set_item-Assigned (raw start kind xs rest) k v small sound =
    rw sound.0 (elim (Bool-cases (in_buffer (k -ℤ start) xs)) [
      | inl here ↦ rw here (Assigned-buffer start k kind xs v rest small sound.0 here)
      | inr elsewhere ↦ rw elsewhere (
          Assigned-miss k v (record { start = start; kind = kind; content = xs } ∷ []) rest
            (λ cs. raw start kind xs cs) (set_item rest k v) (λ cs. refl)
            (rw (no_byte_here start k kind xs elsewhere))
            (set_item-Assigned rest k v small sound.1))
    ])
set_item-Assigned (child start info bs rest) k v small sound =
    let (lo, hi, e, f, w) = sound.0 in
    let miss : (byte_at (k -ℤ start) (segments bs) ≡ none)
        → Assigned k v (child start info bs rest)
            (set_item rest k v >>= λ rest'. ok (child start info bs rest')) =
      λ m.
        Assigned-miss k v (shift_segments start (segments bs)) rest (λ cs. child start info bs cs)
          (set_item rest k v) (λ cs. refl) (byte_at-shift start k (segments bs) ∙ m)
          (set_item-Assigned rest k v small sound.2) in
    simp (e, f)
      (elim (Bool-cases (leb_ℤ lo (k -ℤ start) && ltb_ℤ (k -ℤ start) hi)) [
        | inl within ↦ rw within (
            Assigned-enter k start v info bs rest (set_item bs (k -ℤ start) v) _
              (set_item-Assigned bs (k -ℤ start) v small sound.1) miss)
        | inr out ↦ rw out (miss (byte_at_outside lo hi (k -ℤ start) (segments bs) w out))
      ])
