-- ===== src/HexFormats/Extents.antt =====
-- The least and the greatest address that the loop over the records of an Intel HEX
-- file keeps.
use cle.Base.{
  ℕ, ◌+◌, ◌-◌, ◌≡◌, refl, ap, ◌∙◌, sym, subst, Option, none, some, Bool, true, false, List, [], ◌∷◌,
  ◌++◌, ◌==◌, ltb, min, max, length, if◌then◌else◌, Result, ok, err, out_of_fuel, ◌>>=◌, arith,
}
use cle.Memory.Backers.{Clemory}
use cle.HexFormats.{Piece, split_lines, coalesce_regions, mount_pieces}
use cle.HexFormats.IntelHex
use cle.HexFormats.IntelHex.{HexState}

-- Of a call that returns, what it returns has the property.
abbrev pub AllOk {ℓ} : {A : Type ℓ} → (A → Type 0) → Result A → Type 0
AllOk P (ok a) = P a
AllOk P (err x) = Unit
AllOk P out_of_fuel = Unit

abbrev Anything {ℓ} : {A : Type ℓ} → A → Type 0
Anything a = Unit

AllOk-Anything {ℓ} : {A : Type ℓ} (r : Result A) → AllOk Anything r
AllOk-Anything (ok a) = tt
AllOk-Anything (err x) = tt
AllOk-Anything out_of_fuel = tt

AllOk-if {ℓ} :
    {A : Type ℓ} (P : A → Type 0) (b : Bool) (x y : Result A)
    → AllOk P x
    → AllOk P y
    → AllOk P (if b then x else y)
AllOk-if P true x y h k = h
AllOk-if P false x y h k = k

AllOk-bind {ℓ κ} :
    {A : Type ℓ} {B : Type κ} (P : A → Type 0) (Q : B → Type 0) (r : Result A) (f : A → Result B)
    → AllOk P r
    → ((a : A) → P a → AllOk Q (f a))
    → AllOk Q (r >>= f)
AllOk-bind P Q (ok a) f h k = k a h
AllOk-bind P Q (err x) f h k = tt
AllOk-bind P Q out_of_fuel f h k = tt

-- The least start of the pieces, and the greatest of their last addresses; without pieces, what the
-- loader starts with.
abbrev pub least : List Piece → ℕ
least [] = 0xFFFFFFFFFFFFFFFF
least ((addr, bytes) ∷ ps) = min addr (least ps)

abbrev pub greatest : List Piece → ℕ
greatest [] = 0
greatest ((addr, bytes) ∷ ps) = max (addr + length bytes - 1) (greatest ps)

least-append :
    (ps : List Piece) (addr : ℕ) (bytes : List ℕ)
    → least (ps ++ (addr, bytes) ∷ []) ≡ min (least ps) addr
least-append [] addr bytes = omega arith
least-append ((b, ys) ∷ ps) addr bytes = omega (arith, least-append ps addr bytes)

greatest-append :
    (ps : List Piece) (addr : ℕ) (bytes : List ℕ)
    → greatest (ps ++ (addr, bytes) ∷ []) ≡ max (greatest ps) (addr + length bytes - 1)
greatest-append [] addr bytes = omega arith
greatest-append ((b, ys) ∷ ps) addr bytes = omega (arith, greatest-append ps addr bytes)

-- The addresses that are kept are those of the regions.
abbrev pub IsExact : HexState → Type 0
IsExact s = (s.min_addr ≡ least s.regions) × (s.max_addr ≡ greatest s.regions)

lower : (at low : ℕ) → (if ltb at low then at else low) ≡ min low at
lower at low = ground arith

see_data-IsExact :
    (s : HexState) (addr : ℕ) (payload : Option (List ℕ))
    → IsExact s
    → AllOk IsExact (IntelHex.see_data s addr payload)
unfolding IntelHex.see_data
see_data-IsExact s addr none w = tt
see_data-IsExact s addr (some bytes) (low, high) =
    let at = addr + s.base_address in
    (
      lower at s.min_addr ∙ ap (λ n. min n at) low ∙ sym (least-append s.regions at bytes),
      ap (λ n. max n (at + length bytes - 1)) high ∙ sym (greatest-append s.regions at bytes),
    )

-- A record that needs so many bytes of data.
exactly-IsExact :
    (width : ℕ) (payload : Option (List ℕ)) (f : List ℕ → Result HexState)
    → ((bytes : List ℕ) → AllOk IsExact (f bytes))
    → AllOk IsExact (IntelHex.exactly width payload >>= f)
exactly-IsExact width payload f h =
    AllOk-bind Anything IsExact (IntelHex.exactly width payload) f
      (AllOk-Anything (IntelHex.exactly width payload)) (λ bytes any. h bytes)

see_record-IsExact :
    (s : HexState) (fields : IntelHex.Fields)
    → IsExact s
    → AllOk IsExact (IntelHex.see_record s fields)
unfolding IntelHex.see_record
see_record-IsExact s (kind, addr, payload) w =
    AllOk-if IsExact (kind == 0) _ _ (see_data-IsExact s addr payload w) (
      AllOk-if IsExact (kind == 1) _ _ w (
        AllOk-if IsExact (kind == 2) _ _ (exactly-IsExact 2 payload _ (λ bytes. w)) (
          AllOk-if IsExact (kind == 3) _ _ (exactly-IsExact 4 payload _ (λ bytes. w)) (
            AllOk-if IsExact (kind == 4) _ _ (exactly-IsExact 2 payload _ (λ bytes. w))
              (AllOk-if IsExact (kind == 5) _ _ (exactly-IsExact 4 payload _ (λ bytes. w)) tt)))))

see_lines-IsExact :
    (s : HexState) (lines : List (List ℕ)) → IsExact s → AllOk IsExact (IntelHex.see_lines s lines)
unfolding IntelHex.see_lines
see_lines-IsExact s [] w = w
see_lines-IsExact s (line ∷ lines) w = AllOk-if IsExact s.done (ok s) _ w (
    AllOk-bind Anything IsExact (IntelHex.parse_record line) _
      (AllOk-Anything (IntelHex.parse_record line))
      (λ fields any.
        AllOk-bind IsExact IsExact (IntelHex.see_record s fields) _ (see_record-IsExact s fields w)
          (λ s' w'. see_lines-IsExact s' lines w')))

abbrev Described : HexState × Clemory × List (ℕ × ℕ) → Type 0
Described (s, m, sizes) = IsExact s

load_file-Described : (m : Clemory) (text : List ℕ) → AllOk Described (IntelHex.load_file m text)
unfolding IntelHex.load_file
load_file-Described m text =
    AllOk-bind IsExact Described (IntelHex.see_lines IntelHex.fresh (split_lines false text)) _
      (see_lines-IsExact IntelHex.fresh (split_lines false text) (refl, refl))
      (λ s w.
        AllOk-bind Anything Described (mount_pieces m (coalesce_regions s.regions)) _
          (AllOk-Anything (mount_pieces m (coalesce_regions s.regions))) (λ m' any. w))

-- Of any Intel HEX file that loads, the least address that is kept is the least start of a region,
-- or 2 ^ 64 - 1 if none starts lower, and the greatest one is the greatest last address of a region,
-- or 0 if there is no region; the last address of a region is its start and size, less one.
pub load_file-IsExact :
    (m m' : Clemory) (text : List ℕ) (s : HexState) (sizes : List (ℕ × ℕ))
    → IntelHex.load_file m text ≡ ok (s, m', sizes)
    → (s.min_addr ≡ least s.regions) × (s.max_addr ≡ greatest s.regions)
load_file-IsExact m m' text s sizes e = subst (AllOk Described) e (load_file-Described m text)
