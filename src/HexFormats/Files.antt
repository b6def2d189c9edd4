-- ===== src/HexFormats/Files.antt =====
-- An Intel HEX file of data records and the record for its end, read by `Hex.__init__`.
use mathlib.Core.List.{append_assoc, append-nil}
use cle.Base.{
  ℕ, ◌+◌, ◌-◌, ◌<◌, ◌≤◌, ◌≡◌, ◌≢◌, refl, ap, ◌∙◌, sym, none, some, Bool, true, false, List, [], ◌∷◌,
  ◌++◌, ◌==◌, ltb, max, length, if◌then◌else◌, Result, ok, ◌>>=◌, arith,
}
use cle.Memory.Backers.{Clemory}
use cle.HexFormats.{Piece, split_lines, coalesce_regions, mount_pieces}
use cle.HexFormats.Digits.{AllBelow, digit_char, print_digits, digits_of}
use cle.HexFormats.RoundTrip.{check_byte, record_bytes, print_record, parse_record-print_record}
use cle.HexFormats.IntelHex
use cle.HexFormats.IntelHex.{HexState, fresh, parse_record, see_record, see_lines, sizes, load_file}

abbrev pub print_lines : List Piece → List (List ℕ)
print_lines [] = print_record 1 0 [] ∷ []
print_lines ((addr, bytes) ∷ ps) = print_record 0 addr bytes ∷ print_lines ps

-- The lines, each with a line feed.
abbrev pub end_lines : List (List ℕ) → List ℕ
end_lines [] = []
end_lines (l ∷ ls) = l ++ 10 ∷ end_lines ls

abbrev pub print_file : List Piece → List ℕ
print_file ps = end_lines (print_lines ps)

-- What loading ends with, after the records: the joined regions go into the memory.
abbrev pub mounted : Clemory → List Piece → HexState → Result (HexState × Clemory × List (ℕ × ℕ))
mounted m regions s =
    mount_pieces m (coalesce_regions regions) >>= λ m'. ok (s, m', sizes (coalesce_regions regions))

-- Pieces that a record can hold: an address of 16 bits, and 1 to 255 bytes.
abbrev pub IsPrintable : Piece → Type 0
IsPrintable (addr, bytes) =
    (addr < 65536) × (0 < length bytes) × (length bytes < 256) × AllBelow 256 bytes

abbrev pub ArePrintable : List Piece → Type 0
ArePrintable [] = Unit
ArePrintable (p ∷ ps) = IsPrintable p × ArePrintable ps

abbrev HasNoBreak : List ℕ → Type 0
HasNoBreak [] = Unit
HasNoBreak (c ∷ cs) = (c ≢ 10) × (c ≢ 13) × HasNoBreak cs

abbrev HaveNoBreak : List (List ℕ) → Type 0
HaveNoBreak [] = Unit
HaveNoBreak (l ∷ ls) = HasNoBreak l × HaveNoBreak ls

digit_char-le : (d : ℕ) → 48 ≤ digit_char d
digit_char-le d = ground arith

print_digits-HasNoBreak : (ds : List ℕ) → HasNoBreak (print_digits ds)
print_digits-HasNoBreak [] = tt
print_digits-HasNoBreak (d ∷ ds) =
    let low = digit_char-le d in (omega arith, omega arith, print_digits-HasNoBreak ds)

print_lines-HaveNoBreak : (ps : List Piece) → HaveNoBreak (print_lines ps)
print_lines-HaveNoBreak [] =
    ((omega arith, omega arith, print_digits-HasNoBreak (digits_of (0 ∷ 0 ∷ 0 ∷ 1 ∷ 255 ∷ []))), tt)
print_lines-HaveNoBreak ((addr, bytes) ∷ ps) =
    let body = record_bytes 0 addr bytes ++ check_byte (record_bytes 0 addr bytes) ∷ [] in
    (
      (omega arith, omega arith, print_digits-HasNoBreak (digits_of body)),
      print_lines-HaveNoBreak ps,
    )

split_lines-line :
    (l text : List ℕ)
    → HasNoBreak l
    → split_lines false (l ++ 10 ∷ text) ≡ l ∷ split_lines false text
unfolding split_lines
split_lines-line [] text h = refl
split_lines-line (c ∷ cs) text (feed, return, h) =
    let no_feed : (c == 10) ≡ false = ground arith in
    let no_return : (c == 13) ≡ false = ground arith in
    rw (no_feed, no_return, split_lines-line cs text h) refl

split_lines-end_lines :
    (ls : List (List ℕ)) → HaveNoBreak ls → split_lines false (end_lines ls) ≡ ls
unfolding split_lines
split_lines-end_lines [] h = refl
split_lines-end_lines (l ∷ ls) (h, hs) =
    split_lines-line l (end_lines ls) h ∙ ap (λ rest. l ∷ rest) (split_lines-end_lines ls hs)

chain :
    (s : HexState) {t : HexState} {fields : IntelHex.Fields} (done : Bool)
    (r : Result IntelHex.Fields) (f : IntelHex.Fields → Result HexState)
    (g : HexState → Result HexState)
    → done ≡ false
    → r ≡ ok fields
    → f fields ≡ ok t
    → (if done then ok s else (r >>= λ x. f x >>= g)) ≡ g t
chain s done r f g going read seen = rw (going, read, seen) refl

-- One step of the loop.
see_lines-step :
    (s t : HexState) (line : List ℕ) (lines : List (List ℕ)) (fields : IntelHex.Fields)
    → s.done ≡ false
    → parse_record line ≡ ok fields
    → see_record s fields ≡ ok t
    → see_lines s (line ∷ lines) ≡ see_lines t lines
unfolding see_lines
see_lines-step s t line lines fields going read seen =
    chain s s.done (parse_record line) (see_record s) (λ s'. see_lines s' lines) going read seen

abbrev after_data : HexState → ℕ → List ℕ → HexState
after_data s addr bytes = record s {
  regions = s.regions ++ (addr + s.base_address, bytes) ∷ [];
  min_addr = if ltb (addr + s.base_address) s.min_addr then addr + s.base_address else s.min_addr;
  max_addr = max s.max_addr (addr + s.base_address + length bytes - 1);
}

see_record-data :
    (s : HexState) (addr b : ℕ) (bs : List ℕ)
    → see_record s (0, addr, some (b ∷ bs)) ≡ ok (after_data s addr (b ∷ bs))
unfolding see_record
see_record-data s addr b bs = refl

see_record-end : (s : HexState) → see_record s (1, 0, none) ≡ ok (record s { done = true })
unfolding see_record
see_record-end s = refl

see_lines-nil : (s : HexState) → see_lines s [] ≡ ok s
unfolding see_lines
see_lines-nil s = refl

load_file-lines :
    (m : Clemory) (text : List ℕ) (s : HexState) (ps : List Piece)
    → see_lines fresh (split_lines false text) ≡ ok s
    → s.regions ≡ ps
    → load_file m text ≡ mounted m ps s
unfolding load_file
load_file-lines m text s ps seen e =
    ap (λ (r : Result HexState). r >>= λ t. mounted m t.regions t) seen
    ∙ ap (λ rs. mounted m rs s) e

-- The regions of the records follow those before them, and the record for the end stops the loop.
see_lines-print_lines :
    (ps : List Piece) (s : HexState)
    → ArePrintable ps
    → s.done ≡ false
    → s.base_address ≡ 0
    → (t : HexState) × (see_lines s (print_lines ps) ≡ ok t) × (t.regions ≡ s.regions ++ ps)
see_lines-print_lines [] s h going base = (
  record s { done = true },
  see_lines-step s (record s { done = true }) (print_record 1 0 []) [] (1, 0, none) going
        (parse_record-print_record 1 0 [] (omega arith) (omega arith) (omega arith) tt)
        (see_record-end s)
      ∙ see_lines-nil (record s { done = true }),
  sym (append-nil s.regions),
)
see_lines-print_lines ((addr, []) ∷ ps) s (h, hs) going base = absurd (omega (arith, h.1))
see_lines-print_lines ((addr, b ∷ bs) ∷ ps) s (h, hs) going base =
    let (t, seen, e) = see_lines-print_lines ps (after_data s addr (b ∷ bs)) hs going base in
    let at : addr + s.base_address ≡ addr = omega arith in
    (
      t,
      see_lines-step s (after_data s addr (b ∷ bs)) (print_record 0 addr (b ∷ bs)) (print_lines ps)
            (0, addr, some (b ∷ bs)) going
            (parse_record-print_record 0 addr (b ∷ bs) (omega arith) h.0 h.2 h.3)
            (see_record-data s addr b bs)
          ∙ seen,
      e
          ∙ append_assoc s.regions ((addr + s.base_address, b ∷ bs) ∷ []) ps
          ∙ ap (λ n. s.regions ++ (n, b ∷ bs) ∷ ps) at,
    )

-- A file of data records, one for each of the pieces, and the record for its end, each on a line of
-- its own, loads: the regions are the pieces, and the outcome is that of mounting the joined ones.
pub load_file-print_file :
    (m : Clemory) (ps : List Piece)
    → ArePrintable ps
    → (s : HexState) × (s.regions ≡ ps) × (load_file m (print_file ps) ≡ mounted m ps s)
load_file-print_file m ps h =
    let (s, seen, e) = see_lines-print_lines ps fresh h refl refl in
    (
      s,
      e,
      load_file-lines m (print_file ps) s ps
          (ap (λ ls. see_lines fresh ls)
              (split_lines-end_lines (print_lines ps) (print_lines-HaveNoBreak ps))
            ∙ seen)
          e,
    )
