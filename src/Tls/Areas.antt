-- ===== src/Tls/Areas.antt =====
-- Where the parts of the memory of an ELF thread lie: its head, the vector and the blocks.
use cle.Base.{
  ℕ, ◌*◌, ◌≤◌, ◌≡◌, refl, ap, ◌∙◌, sym, subst, ◌⊎◌, inl, inr, Bool, true, false, some, List, [],
  ◌∷◌, ◌==◌, if◌then◌else◌, arith,
}
use cle.Base.Int.{ℤ, pos, ◌+ℤ◌, ◌-ℤ◌, ◌≤ℤ◌, int_laws}
use cle.Tls.{Module, TlsArch, Manager}
use cle.Tls.Elf.{
  roundup, Pointers, pointers_v1, pointers_v2, calculate_pointers, total_head_size, head_align,
}
use cle.Tls.Blocks.{up, up-head, roundup-up, low_at, high_at, AreInside, IsLaidOut}

-- A part of the memory, from its start to behind its end, is apart from the head and lies before
-- the vector, which starts two words below the place that its pointer names.
abbrev pub IsClear : TlsArch → Pointers → ℤ → ℤ → Type 0
IsClear arch p start end =
    (pos 0 ≤ℤ start)
    × ((end ≤ℤ p.head_offset) ⊎ (p.head_offset +ℤ pos total_head_size ≤ℤ start))
    × (end ≤ℤ p.dtv_offset -ℤ pos (2 * arch.word))

abbrev pub AreClear : TlsArch → Pointers → List Module → Type 0
AreClear arch p [] = Unit
AreClear arch p (m ∷ ms) =
    ((x : ℤ) × (m.tls_block_offset ≡ some x)
      × IsClear arch p (p.tp_offset +ℤ x) (p.tp_offset +ℤ x +ℤ pos m.tls_block_size))
    × AreClear arch p ms

-- The head does not reach into the vector, and the last address is the last one of the vector.
abbrev pub EndsWell : TlsArch → Pointers → ℕ → Type 0
EndsWell arch p max_modules =
    (pos 0 ≤ℤ p.head_offset)
    × (p.head_offset +ℤ pos total_head_size ≤ℤ p.dtv_offset -ℤ pos (2 * arch.word))
    × (p.top ≡ p.dtv_offset +ℤ pos (2 * arch.word * max_modules) -ℤ pos 1)

-- The pointers, where the data used is a number.
abbrev pointers_at : TlsArch → Bool → ℕ → ℕ → Pointers
pointers_at arch true used max_modules = pointers_v1 arch (pos used) max_modules
pointers_at arch false used max_modules = pointers_v2 arch (pos used) max_modules

pointers-Bool :
    (arch : TlsArch) (b : Bool) (used max_modules : ℕ)
    → (if b
        then pointers_v1 arch (pos used) max_modules
        else pointers_v2 arch (pos used) max_modules)
      ≡ pointers_at arch b used max_modules
pointers-Bool arch true used max_modules = refl
pointers-Bool arch false used max_modules = refl

below_head :
    (tp : ℤ) (u used size words : ℕ) (x : ℤ)
    → tp ≡ pos u
    → used ≤ u
    → pos 0 -ℤ pos used ≤ℤ x
    → x +ℤ pos size ≤ℤ pos 0
    → (pos 0 ≤ℤ tp +ℤ x)
      × (tp +ℤ x +ℤ pos size ≤ℤ tp)
      × (tp +ℤ x +ℤ pos size ≤ℤ tp +ℤ pos total_head_size +ℤ pos words -ℤ pos words)
below_head tp u used size words x e h from to =
    let low : pos u ≤ℤ tp = subst (λ z. pos u ≤ℤ z) (sym e) (omega arith) in
    let high : tp ≤ℤ pos u = subst (λ z. z ≤ℤ pos u) (sym e) (omega arith) in
    (omega int_laws, omega int_laws, omega int_laws)

head_before :
    (tp : ℤ) (u words : ℕ)
    → tp ≡ pos u
    → (pos 0 ≤ℤ tp)
      × (tp +ℤ pos total_head_size ≤ℤ tp +ℤ pos total_head_size +ℤ pos words -ℤ pos words)
head_before tp u words e = (subst (λ z. pos 0 ≤ℤ z) (sym e) (omega arith), omega int_laws)

IsClear-at :
    (arch : TlsArch) (b : Bool) (used max_modules size : ℕ) (x : ℤ)
    → low_at b used ≤ℤ x
    → x +ℤ pos size ≤ℤ high_at b used
    → IsClear arch
        (pointers_at arch b used max_modules)
        ((pointers_at arch b used max_modules).tp_offset +ℤ x)
        ((pointers_at arch b used max_modules).tp_offset +ℤ x +ℤ pos size)
IsClear-at arch true used max_modules size x from to =
    (omega int_laws, inr (omega int_laws), omega int_laws)
IsClear-at arch false used max_modules size x from to =
    let (low, below, before) =
      below_head (roundup (pos used) head_align) (up used 65536) used size (2 * arch.word) x
        (roundup-up used 65536 (omega arith)) (up-head used) from to in
    (low, inl below, before)

EndsWell-at :
    (arch : TlsArch) (b : Bool) (used max_modules : ℕ)
    → EndsWell arch (pointers_at arch b used max_modules) max_modules
EndsWell-at arch true used max_modules = (omega arith, omega int_laws, refl)
EndsWell-at arch false used max_modules =
    let (low, before) =
      head_before (roundup (pos used) head_align) (up used 65536) (2 * arch.word)
        (roundup-up used 65536 (omega arith)) in
    (low, before, refl)

calculate_pointers-at :
    (arch : TlsArch) (u : ℤ) (used max_modules : ℕ)
    → u ≡ pos used
    → calculate_pointers arch u max_modules ≡ pointers_at arch (arch.variant == 1) used max_modules
unfolding calculate_pointers
calculate_pointers-at arch u used max_modules e =
    ap (λ v. calculate_pointers arch v max_modules) e
    ∙ pointers-Bool arch (arch.variant == 1) used max_modules

AreClear-at :
    (arch : TlsArch) (used max_modules : ℕ) (ms : List Module)
    → AreInside arch used ms
    → AreClear arch (pointers_at arch (arch.variant == 1) used max_modules) ms
AreClear-at arch used max_modules [] h = tt
AreClear-at arch used max_modules (m ∷ ms) ((x, e, from, to), hs) = (
  (x, e, IsClear-at arch (arch.variant == 1) used max_modules m.tls_block_size x from to),
  AreClear-at arch used max_modules ms hs,
)

-- With the modules laid out, no part of the memory of a thread lies below 0, the blocks are apart
-- from the head and lie before the vector, the head lies before the vector, and the vector ends
-- with the last address.
pub calculate_pointers-AreClear :
    (arch : TlsArch) (t : Manager)
    → IsLaidOut arch t
    → AreClear arch (calculate_pointers arch t.used_data t.max_modules) t.modules
      × EndsWell arch (calculate_pointers arch t.used_data t.max_modules) t.max_modules
calculate_pointers-AreClear arch t laid =
    let e = calculate_pointers-at arch t.used_data laid.used t.max_modules laid.is_used in
    (
      subst (λ p. AreClear arch p t.modules) (sym e)
          (AreClear-at arch laid.used t.max_modules t.modules laid.inside),
      subst (λ p. EndsWell arch p t.max_modules) (sym e)
          (EndsWell-at arch (arch.variant == 1) laid.used t.max_modules),
    )
