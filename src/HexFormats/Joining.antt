-- ===== src/HexFormats/Joining.antt =====
-- `coalesce_regions`: what the joined pieces hold, and how they lie.
use mathlib.Core.List.{Perm, append_assoc, perm_append_comm}
use mathlib.Core.List.Perm
use cle.Base.{
  ℕ, suc, ◌+◌, ◌≡◌, ◌≢◌, refl, ap, ◌∙◌, sym, subst, List, [], ◌∷◌, ◌++◌, ◌==◌, length, inl, inr,
  Bool-cases, arith,
}
use cle.HexFormats.{
  Piece, piece_before, insert_piece, sort_pieces, join_from, join_sorted, coalesce_regions,
}

-- The bytes with their addresses.
abbrev pub spread_from : ℕ → List ℕ → List (ℕ × ℕ)
spread_from addr [] = []
spread_from addr (b ∷ bs) = (addr, b) ∷ spread_from (addr + 1) bs

abbrev pub spread : List Piece → List (ℕ × ℕ)
spread [] = []
spread ((addr, bytes) ∷ ps) = spread_from addr bytes ++ spread ps

-- No piece ends where the next one starts.
abbrev pub StandsApart : Piece → List Piece → Type 0
StandsApart p [] = Unit
StandsApart (a, xs) ((b, ys) ∷ ps) = a + length xs ≢ b

abbrev pub IsApart : List Piece → Type 0
IsApart [] = Unit
IsApart (p ∷ ps) = StandsApart p ps × IsApart ps

spread_from-append :
    (addr : ℕ) (xs ys : List ℕ)
    → spread_from addr (xs ++ ys) ≡ spread_from addr xs ++ spread_from (addr + length xs) ys
spread_from-append addr [] ys = let e : addr + 0 ≡ addr = omega arith in rw e
spread_from-append addr (x ∷ xs) ys =
    let e : addr + 1 + length xs ≡ addr + suc (length xs) = omega arith in
    ap (λ zs. (addr, x) ∷ zs)
      (spread_from-append (addr + 1) xs ys
        ∙ ap (λ n. spread_from (addr + 1) xs ++ spread_from n ys) e)

spread-join_from :
    (a : ℕ) (xs : List ℕ) (ps : List Piece) → spread (join_from (a, xs) ps) ≡ spread ((a, xs) ∷ ps)
unfolding join_from
spread-join_from a xs [] = refl
spread-join_from a xs ((b, ys) ∷ ps) = elim (Bool-cases (a + length xs == b)) [
  | inl joined ↦ rw joined (
      let e : a + length xs ≡ b = ground arith in
      spread-join_from a (xs ++ ys) ps
      ∙ ap (λ zs. zs ++ spread ps) (spread_from-append a xs ys)
      ∙ ap (λ n. spread_from a xs ++ spread_from n ys ++ spread ps) e
      ∙ append_assoc (spread_from a xs) (spread_from b ys) (spread ps))
  | inr fresh ↦ rw fresh (ap (λ zs. spread_from a xs ++ zs) (spread-join_from b ys ps))
]

spread-join_sorted : (ps : List Piece) → spread (join_sorted ps) ≡ spread ps
spread-join_sorted [] = refl
spread-join_sorted ((a, xs) ∷ ps) = spread-join_from a xs ps

StandsApart-join_from :
    (p : Piece) (b : ℕ) (ys : List ℕ) (ps : List Piece)
    → StandsApart p ((b, ys) ∷ [])
    → StandsApart p (join_from (b, ys) ps)
unfolding join_from
StandsApart-join_from p b ys [] h = h
StandsApart-join_from p b ys ((c, zs) ∷ ps) h = elim (Bool-cases (b + length ys == c)) [
  | inl joined ↦ rw joined (StandsApart-join_from p b (ys ++ zs) ps h)
  | inr fresh ↦ rw fresh h
]

join_from-IsApart : (a : ℕ) (xs : List ℕ) (ps : List Piece) → IsApart (join_from (a, xs) ps)
unfolding join_from
join_from-IsApart a xs [] = (tt, tt)
join_from-IsApart a xs ((b, ys) ∷ ps) = elim (Bool-cases (a + length xs == b)) [
  | inl joined ↦ rw joined (join_from-IsApart a (xs ++ ys) ps)
  | inr fresh ↦
      rw fresh ((StandsApart-join_from (a, xs) b ys ps (ground arith), join_from-IsApart b ys ps))
]

join_sorted-IsApart : (ps : List Piece) → IsApart (join_sorted ps)
join_sorted-IsApart [] = tt
join_sorted-IsApart ((a, xs) ∷ ps) = join_from-IsApart a xs ps

spread-insert_piece :
    (p : Piece) (ps : List Piece) → Perm (spread (insert_piece p ps)) (spread (p ∷ ps))
spread-insert_piece p [] = Perm.refl (spread (p ∷ []))
spread-insert_piece (a, xs) ((b, ys) ∷ ps) = elim (Bool-cases (piece_before (b, ys) (a, xs))) [
  | inl later ↦ rw later (
      Perm.trans (Perm.append_left (spread_from b ys) (spread-insert_piece (a, xs) ps)) (
        subst (λ zs. Perm zs (spread ((a, xs) ∷ (b, ys) ∷ ps)))
          (append_assoc (spread_from b ys) (spread_from a xs) (spread ps))
          (subst (λ zs. Perm (spread_from b ys ++ spread_from a xs ++ spread ps) zs)
            (append_assoc (spread_from a xs) (spread_from b ys) (spread ps))
            (Perm.append_right (spread ps)
              (perm_append_comm (spread_from b ys) (spread_from a xs))))))
  | inr here ↦ rw here (Perm.refl (spread ((a, xs) ∷ (b, ys) ∷ ps)))
]

spread-sort_pieces : (ps : List Piece) → Perm (spread (sort_pieces ps)) (spread ps)
unfolding sort_pieces
spread-sort_pieces [] = Perm.refl []
spread-sort_pieces ((a, xs) ∷ ps) =
    Perm.trans (spread-insert_piece (a, xs) (sort_pieces ps))
      (Perm.append_left (spread_from a xs) (spread-sort_pieces ps))

-- The joined pieces hold each byte of the records at its address, as often as the records do, and
-- no more; and none of them ends where the next one starts.
pub coalesce_regions-IsJoined :
    (regions : List Piece)
    → Perm (spread (coalesce_regions regions)) (spread regions) × IsApart (coalesce_regions regions)
unfolding coalesce_regions
coalesce_regions-IsJoined regions = (
  subst (λ zs. Perm zs (spread regions)) (sym (spread-join_sorted (sort_pieces regions)))
      (spread-sort_pieces regions),
  join_sorted-IsApart (sort_pieces regions),
)
