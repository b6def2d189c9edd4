-- ===== src/PatchedStream/Overlay.antt =====
-- A read gives, at each position, the byte of the last patch that covers it, or that of the file.
use cle.Base.{
  ℕ, ◌+◌, ◌-◌, ◌≤◌, ◌<◌, ◌≡◌, refl, ap, ◌∙◌, min, Bool, true, false, ◌&&◌, ◌||◌, Option, List, [],
  ◌∷◌, ◌++◌, length, get_elem?, arith, ltb, leb, if◌then◌else◌, slice, inl, inr, Bool-cases,
  length-slice, length-splice, get_elem?-slice, get_elem?-splice_before, get_elem?-splice_inside,
  get_elem?-splice_after,
}
use cle.PatchedStream.{
  Patch, PatchedStream, patched, new, file_read, overwrite, inject, inject_all, read,
}

abbrev pub covers : Patch → ℕ → Bool
covers p a = leb p.addr a && ltb a (p.addr + length p.patch)

-- The byte at a position once the patches have been laid over what was there.
unfoldable pub overlay : List Patch → ℕ → Option ℕ → Option ℕ
overlay [] a b = b
overlay (p ∷ ps) a b = overlay ps a (if covers p a then get_elem? p.patch (a - p.addr) else b)

abbrev touches : ℕ → ℕ → Patch → Bool
touches pos newpos p =
    (leb pos p.addr && ltb p.addr newpos) || (leb p.addr pos && ltb pos (p.addr + length p.patch))

module _ (pos : ℕ) (bytes : List ℕ) (p : Patch) where
  abbrev from : ℕ
  from = p.addr - pos

  abbrev to : ℕ
  to = min (p.addr + length p.patch - pos) (length bytes)

  abbrev piece : List ℕ
  piece = slice p.patch (pos - p.addr) (min (pos + length bytes - p.addr) (length p.patch))

  module _ (touched : touches pos (pos + length bytes) p ≡ true) where
    meets : (p.addr ≤ pos + length bytes) × (pos ≤ p.addr + length p.patch)
    meets = ground arith

    fits : length piece ≡ to - from
    fits = omega (
      arith,
      meets,
      length-slice p.patch (pos - p.addr) (min (pos + length bytes - p.addr) (length p.patch)),
    )

    ordered : from ≤ to
    ordered = omega (arith, meets)

    inside : to ≤ length bytes
    inside = omega arith

    get_elem?-overwrite :
        (i : ℕ)
        → i < length bytes
        → get_elem? (overwrite pos (pos + length bytes) bytes p) i
          ≡ (if covers p (pos + i) then get_elem? p.patch (pos + i - p.addr) else get_elem? bytes i)
    unfolding overwrite
    get_elem?-overwrite i h = elim (Bool-cases (ltb i from)) [
      | inl low ↦
          get_elem?-splice_before bytes from to piece fits ordered inside i (ground arith)
          ∙ (let c : covers p (pos + i) ≡ false = ground arith in rw c)
      | inr high ↦ elim (Bool-cases (ltb i to)) [
        | inl within ↦
            get_elem?-splice_inside bytes from to piece fits ordered inside i (ground arith)
              (ground arith)
            ∙ get_elem?-slice p.patch (pos - p.addr)
                (min (pos + length bytes - p.addr) (length p.patch)) (i - from) (ground arith)
            ∙ (let c : covers p (pos + i) ≡ true = ground arith in
                let e : pos - p.addr + (i - from) ≡ pos + i - p.addr = ground arith in rw (c, e))
        | inr beyond ↦
            get_elem?-splice_after bytes from to piece fits ordered inside i (ground arith)
            ∙ (let c : covers p (pos + i) ≡ false = ground arith in rw c)
      ]
    ]

    length-overwrite : length (overwrite pos (pos + length bytes) bytes p) ≡ length bytes
    unfolding overwrite
    length-overwrite = length-splice bytes from to piece fits ordered inside

  length-inject : length (inject pos (pos + length bytes) bytes p) ≡ length bytes
  unfolding inject
  length-inject = elim (Bool-cases (touches pos (pos + length bytes) p)) [
    | inl touched ↦ rw touched (length-overwrite touched)
    | inr missed ↦ rw missed
  ]

  get_elem?-inject :
      (i : ℕ)
      → i < length bytes
      → get_elem? (inject pos (pos + length bytes) bytes p) i
        ≡ (if covers p (pos + i) then get_elem? p.patch (pos + i - p.addr) else get_elem? bytes i)
  unfolding inject
  get_elem?-inject i h = elim (Bool-cases (touches pos (pos + length bytes) p)) [
    | inl touched ↦ rw touched (get_elem?-overwrite touched i h)
    | inr missed ↦ let c : covers p (pos + i) ≡ false = ground arith in rw (missed, c)
  ]

-- With the end of the read as a variable, for the induction over the patches.
module _ (pos newpos : ℕ) where
  length-inject_to :
      (bytes : List ℕ) (p : Patch)
      → newpos ≡ pos + length bytes
      → length (inject pos newpos bytes p) ≡ length bytes
  length-inject_to bytes p e = rw e (length-inject pos bytes p)

  get_elem?-inject_to :
      (bytes : List ℕ) (p : Patch) (i : ℕ)
      → newpos ≡ pos + length bytes
      → i < length bytes
      → get_elem? (inject pos newpos bytes p) i
        ≡ (if covers p (pos + i) then get_elem? p.patch (pos + i - p.addr) else get_elem? bytes i)
  get_elem?-inject_to bytes p i e h = rw e (get_elem?-inject pos bytes p i h)

  length-inject_all :
      (bytes : List ℕ) (ps : List Patch)
      → newpos ≡ pos + length bytes
      → length (inject_all pos newpos bytes ps) ≡ length bytes
  unfolding inject_all
  length-inject_all bytes [] e = refl
  length-inject_all bytes (p ∷ ps) e =
      let n = length-inject_to bytes p e in
      length-inject_all (inject pos newpos bytes p) ps (omega (arith, n)) ∙ n

  get_elem?-inject_all :
      (bytes : List ℕ) (ps : List Patch) (i : ℕ)
      → newpos ≡ pos + length bytes
      → i < length bytes
      → get_elem? (inject_all pos newpos bytes ps) i ≡ overlay ps (pos + i) (get_elem? bytes i)
  unfolding inject_all overlay
  get_elem?-inject_all bytes [] i e h = refl
  get_elem?-inject_all bytes (p ∷ ps) i e h =
      let n = length-inject_to bytes p e in
      get_elem?-inject_all (inject pos newpos bytes p) ps i (omega (arith, n)) (omega (arith, n))
      ∙ ap (overlay ps (pos + i)) (get_elem?-inject_to bytes p i e h)

-- A read returns as many bytes as the file gives, each the byte that the patches lay over the
-- file's, and moves both positions past them.
pub read-overlay :
    (s : PatchedStream) (n : Option ℕ)
    → let (out, s') = read s n in
      let bytes = (file_read s.stream n).0 in
      (length out ≡ length bytes)
      × (s'.pos ≡ s.pos + length bytes)
      × ((i : ℕ)
          → i < length bytes
          → get_elem? out i ≡ overlay s.patches (s.pos + i) (get_elem? bytes i))
unfolding read
read-overlay s n =
    let bytes = (file_read s.stream n).0 in
    (
      length-inject_all s.pos (s.pos + length bytes) bytes s.patches refl,
      refl,
      λ i h. get_elem?-inject_all s.pos (s.pos + length bytes) bytes s.patches i refl h,
    )

overlay-append :
    (ps qs : List Patch) (a : ℕ) (b : Option ℕ)
    → overlay (ps ++ qs) a b ≡ overlay qs a (overlay ps a b)
unfolding overlay
overlay-append [] qs a b = refl
overlay-append (p ∷ ps) qs a b = overlay-append ps qs a _

-- A stream patched twice reads as the second set of patches laid over the first, from the position
-- of the file underneath.
pub new-read_patched :
    (s : PatchedStream) (ps : List Patch) (n : Option ℕ) (i : ℕ)
    → let bytes = (file_read s.stream n).0 in
      i < length bytes
      → get_elem? (read (new (patched s) ps) n).0 i
        ≡ overlay ps
            (s.stream.position + i)
            (overlay s.patches (s.stream.position + i) (get_elem? bytes i))
unfolding new
new-read_patched s ps n i h =
    (read-overlay (new (patched s) ps) n).2 i h
    ∙ overlay-append s.patches ps (s.stream.position + i) _
