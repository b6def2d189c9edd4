-- ===== src/Memory/Yields.antt =====
-- The generator `backers` against the list of the buffers, for a memory that is laid out in order.
use cle.Base.{◌≡◌, refl, ap, ◌∙◌, sym, Bool, true, false, List, ◌++◌, arith, inl, inr, Bool-cases}
use cle.Base.Int.{ℤ, pos, ◌+ℤ◌, ◌-ℤ◌, ◌<ℤ◌, leb_ℤ, int_laws}
use cle.Memory.Backers.{
  Meta, Backers, nil, raw, child, Segment, then_run, size, child_run, backers_from,
}
use cle.Memory.Bytes.{segments, shift_segments}
use cle.Memory.Runs.{
  IsLaid, run_of, skip, IsLaid-Ordered, then_run-append, shift_run-run_of, AllWithin-shift_top,
  skip-shift, skip_all, skip-append,
}

-- What a memory yields and then its successors, joined.
child_run-run_of :
    (start : ℤ) (info : Meta) (ss ts : List Segment)
    → info.uninitialized ≡ false
    → then_run (child_run start info (run_of ss)) (run_of ts)
      ≡ run_of (shift_segments start ss ++ ts)
child_run-run_of start info ss ts known =
    simp (known, shift_run-run_of start ss, then_run-append (shift_segments start ss) ts)

-- Once a backer has ended above the address, all that follow are yielded.
backers_from_above :
    (addr k : ℤ) (bs : Backers) (started : Bool)
    → addr <ℤ k
    → IsLaid k bs
    → backers_from bs started addr ≡ run_of (segments bs)
unfolding backers_from segments
backers_from_above addr k nil started lt h = refl
backers_from_above addr k (raw start kind xs rest) started lt h =
    let above : leb_ℤ (start +ℤ size xs) addr ≡ false = grind int_laws in
    let later = backers_from_above addr (start +ℤ size xs) rest true (omega int_laws) h.2 in
    elim (Bool-cases started) [
      | inl going ↦ rw (going, later)
      | inr first ↦ rw (first, above, later)
    ]
backers_from_above addr k (child start info bs rest) started lt
      (le, known, inner, (hi, (top, low, w), outer)) =
    let above : leb_ℤ (start +ℤ hi) addr ≡ false = grind int_laws in
    let later = backers_from_above addr (start +ℤ hi) rest true (omega int_laws) outer in
    let within = backers_from_above (addr -ℤ start) (pos 0) bs false (omega int_laws) inner in
    let both =
      ap (λ q. then_run (child_run start info q) (backers_from rest true addr)) within
      ∙ ap (then_run (child_run start info (run_of (segments bs)))) later
      ∙ child_run-run_of start info (segments bs) (segments rest) known in
    elim (Bool-cases started) [
      | inl going ↦ rw going both
      | inr first ↦ rw first (simp (top, above, both))
    ]

pub backers_from-run_of :
    (addr k : ℤ) (bs : Backers)
    → IsLaid k bs
    → backers_from bs false addr ≡ run_of (skip addr (segments bs))
unfolding backers_from segments skip
backers_from-run_of addr k nil h = refl
backers_from-run_of addr k (raw start kind xs rest) h =
    elim (Bool-cases (leb_ℤ (start +ℤ size xs) addr)) [
      | inl ended ↦ rw ended (backers_from-run_of addr (start +ℤ size xs) rest h.2)
      | inr kept ↦
          rw (kept, backers_from_above addr (start +ℤ size xs) rest true (grind int_laws) h.2)
    ]
backers_from-run_of addr k (child start info bs rest)
      (le, known, inner, (hi, (top, low, w), outer)) =
    elim (Bool-cases (leb_ℤ (start +ℤ hi) addr)) [
      | inl ended ↦
          let skipped =
            skip_all addr start (start +ℤ hi) (shift_segments start (segments bs)) (segments rest)
              (ground arith) (AllWithin-shift_top hi start (segments bs) w) in
          simp (top, ended)
            (backers_from-run_of addr (start +ℤ hi) rest outer ∙ ap run_of (sym skipped))
      | inr kept ↦
          let later = backers_from_above addr (start +ℤ hi) rest true (grind int_laws) outer in
          let within = backers_from-run_of (addr -ℤ start) (pos 0) bs inner in
          let joined =
            ap (λ ss. ss ++ segments rest) (skip-shift addr start (segments bs))
            ∙ skip-append addr (start +ℤ hi) (shift_segments start (segments bs)) (segments rest)
                (grind int_laws) (IsLaid-Ordered (start +ℤ hi) rest outer) in
          let both =
            ap (λ q. then_run (child_run start info q) (backers_from rest true addr)) within
            ∙ ap (then_run (child_run start info (run_of (skip (addr -ℤ start) (segments bs)))))
                later
            ∙ child_run-run_of start info (skip (addr -ℤ start) (segments bs)) (segments rest) known
            ∙ ap run_of joined in
          simp (top, kept, both)
    ]
