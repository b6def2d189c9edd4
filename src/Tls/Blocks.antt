-- ===== src/Tls/Blocks.antt =====
-- The blocks that the ELF objects get when they are registered, before the first thread.
use native.Mathlib.Nat.{mod-le}
use cle.Base.{
  ℕ, zero, suc, ◌+◌, ◌-◌, ◌%◌, ◌≤◌, ◌<◌, ◌≡◌, refl, ap, ◌∙◌, sym, subst, ◌⊎◌, inl, inr, Bool, true,
  false, not, Option, some, List, [], ◌∷◌, ◌++◌, ◌==◌, leb, length, if◌then◌else◌, Result, ok,
  ◌>>=◌, arith,
}
use cle.Base.Int.{ℤ, pos, negsuc, ◌+ℤ◌, ◌-ℤ◌, ◌≤ℤ◌, int_laws}
use cle.Base.Twos.{◌%ℤ◌}
use cle.Tls.{Module, TlsArch, Manager, assign_id, enlist}
use cle.Tls.Elf.{roundup, block_align, block_offset, after_id, register_object}

-- The least multiple that is not below the number.
abbrev pub up : ℕ → ℕ → ℕ
up zero to = 0
up (suc n) to = n - n % to + to

round_suc : (n r to : ℕ) → r ≤ n → r < to → pos n +ℤ (pos to -ℤ pos r) ≡ pos (n - r + to)
round_suc n r to h k = omega int_laws

round_zero : (to : ℕ) → 0 < to → negsuc 0 +ℤ (pos to -ℤ pos (to - 1 - 0 % to)) ≡ pos 0
round_zero to h = let e : 0 % to ≡ 0 = grind arith in rw e (omega int_laws)

pub roundup-up : (v to : ℕ) → 0 < to → roundup (pos v) to ≡ pos (up v to)
unfolding roundup ◌%ℤ◌
roundup-up zero to h = let e : pos 0 -ℤ pos 1 ≡ negsuc 0 = omega int_laws in rw e (round_zero to h)
roundup-up (suc n) to h =
    let e : pos (suc n) -ℤ pos 1 ≡ pos n = omega int_laws in
    rw e (round_suc n (n % to) to (mod-le n to) (grind arith))

pub up-bounds : (v : ℕ) → (v ≤ up v 16) × (up v 16 % 16 ≡ 0)
up-bounds zero = (omega arith, omega arith)
up-bounds (suc n) = (omega arith, omega arith)

pub up-head : (v : ℕ) → v ≤ up v 65536
up-head zero = omega arith
up-head (suc n) = omega arith

abbrev pub low_at : Bool → ℕ → ℤ
low_at true used = pos 0
low_at false used = pos 0 -ℤ pos used

abbrev pub high_at : Bool → ℕ → ℤ
high_at true used = pos used
high_at false used = pos 0

low_at-le : (b : Bool) (used used' : ℕ) → used ≤ used' → low_at b used' ≤ℤ low_at b used
low_at-le true used used' h = omega arith
low_at-le false used used' h = omega int_laws

high_at-le : (b : Bool) (used used' : ℕ) → used ≤ used' → high_at b used ≤ℤ high_at b used'
high_at-le true used used' h = omega arith
high_at-le false used used' h = omega arith

module _ (arch : TlsArch) where
  -- Where the blocks lie: above the thread pointer in the first variant, below it in the second.
  abbrev pub low : ℕ → ℤ
  low used = low_at (arch.variant == 1) used

  abbrev pub high : ℕ → ℤ
  high used = high_at (arch.variant == 1) used

  abbrev pub IsInside : ℕ → Module → Type 0
  IsInside used m =
      (x : ℤ) × (m.tls_block_offset ≡ some x)
      × (low used ≤ℤ x)
      × (x +ℤ pos m.tls_block_size ≤ℤ high used)

  abbrev pub AreInside : ℕ → List Module → Type 0
  AreInside used [] = Unit
  AreInside used (m ∷ ms) = IsInside used m × AreInside used ms

-- The blocks of two modules do not overlap.
abbrev pub AreApart : Module → Module → Type 0
AreApart m n =
    (x y : ℤ)
    → m.tls_block_offset ≡ some x
    → n.tls_block_offset ≡ some y
    → (x +ℤ pos m.tls_block_size ≤ℤ y) ⊎ (y +ℤ pos n.tls_block_size ≤ℤ x)

abbrev pub ApartFromAll : Module → List Module → Type 0
ApartFromAll m [] = Unit
ApartFromAll m (n ∷ ns) = AreApart m n × ApartFromAll m ns

abbrev pub AllApart : List Module → Type 0
AllApart [] = Unit
AllApart (m ∷ ms) = ApartFromAll m ms × AllApart ms

-- Each module has its position as its number.
abbrev pub AreNumbered : ℕ → List Module → Type 0
AreNumbered n [] = Unit
AreNumbered n (m ∷ ms) = (m.tls_module_id ≡ some n) × AreNumbered (suc n) ms

pub record IsLaidOut (arch : TlsArch) (t : Manager) : Type 0 where
  pub used : ℕ
  pub is_used : t.used_data ≡ pos used
  pub aligned : used % 16 ≡ 0
  pub numbered : AreNumbered 0 t.modules
  pub inside : AreInside arch used t.modules
  pub apart : AllApart t.modules

AreNumbered-append :
    (n : ℕ) (ms : List Module) (m : Module)
    → AreNumbered n ms
    → m.tls_module_id ≡ some (n + length ms)
    → AreNumbered n (ms ++ m ∷ [])
AreNumbered-append n [] m h e = (e ∙ ap some (omega arith), tt)
AreNumbered-append n (l ∷ ls) m (h, hs) e =
    (h, AreNumbered-append (suc n) ls m hs (e ∙ ap some (omega arith)))

ApartFromAll-append :
    (l : Module) (ms : List Module) (m : Module)
    → ApartFromAll l ms
    → AreApart l m
    → ApartFromAll l (ms ++ m ∷ [])
ApartFromAll-append l [] m h k = (k, tt)
ApartFromAll-append l (n ∷ ns) m (h, hs) k = (h, ApartFromAll-append l ns m hs k)

module _ (arch : TlsArch) where
  -- A block at the new end of the used data is apart from those before it.
  pub AllApart-append :
      (used : ℕ) (ms : List Module) (m : Module)
      → AreInside arch used ms
      → ((l : Module) → IsInside arch used l → AreApart l m)
      → AllApart ms
      → AllApart (ms ++ m ∷ [])
  AllApart-append used [] m inside clear h = (tt, tt)
  AllApart-append used (l ∷ ls) m (i, is) clear (h, hs) =
      (ApartFromAll-append l ls m h (clear l i), AllApart-append used ls m is clear hs)

  AreInside-append :
      (used used' : ℕ) (ms : List Module) (m : Module)
      → used ≤ used'
      → AreInside arch used ms
      → IsInside arch used' m
      → AreInside arch used' (ms ++ m ∷ [])
  AreInside-append used used' [] m h inside new = (new, tt)
  AreInside-append used used' (l ∷ ls) m h ((x, e, from, to), is) new =
      let lower : low arch used' ≤ℤ low arch used = low_at-le (arch.variant == 1) used used' h in
      let higher : high arch used ≤ℤ high arch used' =
        high_at-le (arch.variant == 1) used used' h in
      ((x, e, omega int_laws, omega int_laws), AreInside-append used used' ls m h is new)

-- The new block: it lies at the new end, and everything inside the old bounds is apart from it.
new_block :
    (b : Bool) (used size : ℕ)
    → (low_at b (used + up size 16)
        ≤ℤ (if b then pos used else pos 0 -ℤ pos used -ℤ pos (up size 16)))
      × ((if b then pos used else pos 0 -ℤ pos used -ℤ pos (up size 16)) +ℤ pos size
          ≤ℤ high_at b (used + up size 16))
new_block true used size = let (least, whole) = up-bounds size in (omega int_laws, omega int_laws)
new_block false used size = let (least, whole) = up-bounds size in (omega int_laws, omega int_laws)

beside_block :
    (b : Bool) (used size len : ℕ) (x : ℤ)
    → low_at b used ≤ℤ x
    → x +ℤ pos len ≤ℤ high_at b used
    → (x +ℤ pos len ≤ℤ (if b then pos used else pos 0 -ℤ pos used -ℤ pos (up size 16)))
      ⊎ ((if b then pos used else pos 0 -ℤ pos used -ℤ pos (up size 16)) +ℤ pos size ≤ℤ x)
beside_block true used size len x from to = inl to
beside_block false used size len x from to =
    let (least, whole) = up-bounds size in inr (omega int_laws)

-- The offset of the new block, in numbers.
abbrev new_offset : Bool → ℕ → ℕ → ℤ
new_offset b used size = if b then pos used else pos 0 -ℤ pos used -ℤ pos (up size 16)

block_offset-new_offset :
    (arch : TlsArch) (o : Module) (t : Manager) (used : ℕ)
    → t.used_data ≡ pos used
    → block_offset arch o t ≡ new_offset (arch.variant == 1) used o.tls_block_size
block_offset-new_offset arch o t used e =
    ap (λ x. if arch.variant == 1 then x else pos 0 -ℤ x -ℤ roundup (pos o.tls_block_size) 16) e
    ∙ ap (λ y. if arch.variant == 1 then pos used else pos 0 -ℤ pos used -ℤ y)
        (roundup-up o.tls_block_size 16 (omega arith))

used_data-new :
    (u : ℤ) (used size : ℕ)
    → u ≡ pos used
    → u +ℤ roundup (pos size) block_align ≡ pos (used + up size 16)
used_data-new u used size e =
    ap (λ x. x +ℤ roundup (pos size) 16) e
    ∙ ap (λ y. pos used +ℤ y) (roundup-up size 16 (omega arith))
    ∙ omega int_laws

abbrev pub placed : TlsArch → Module → Manager → Module
placed arch o t = record o {
  tls_module_id = some (length t.modules);
  tls_block_offset = some (block_offset arch o t);
}

abbrev after_placing : TlsArch → Module → Manager → Manager
after_placing arch o t =
    enlist (placed arch o t)
      (record t { used_data = t.used_data +ℤ roundup (pos o.tls_block_size) block_align })

some-inj : {x y : ℤ} → some x ≡ some y → x ≡ y
some-inj e = cc

placed-AreApart :
    (arch : TlsArch) (o : Module) (t : Manager) (used : ℕ) (l : Module)
    → t.used_data ≡ pos used
    → IsInside arch used l
    → AreApart l (placed arch o t)
placed-AreApart arch o t used l e (x0, is, from, to) x y ex ey =
    let d = new_offset (arch.variant == 1) used o.tls_block_size in
    let same_x : x0 ≡ x = some-inj (sym is ∙ ex) in
    let same_y : d ≡ y = sym (block_offset-new_offset arch o t used e) ∙ some-inj ey in
    subst (λ p. (p +ℤ pos l.tls_block_size ≤ℤ y) ⊎ (y +ℤ pos o.tls_block_size ≤ℤ p)) same_x
      (subst (λ q. (x0 +ℤ pos l.tls_block_size ≤ℤ q) ⊎ (q +ℤ pos o.tls_block_size ≤ℤ x0)) same_y
        (beside_block (arch.variant == 1) used o.tls_block_size l.tls_block_size x0 from to))

after_placing-IsLaidOut :
    (arch : TlsArch) (o : Module) (t : Manager)
    → IsLaidOut arch t
    → IsLaidOut arch (after_placing arch o t)
after_placing-IsLaidOut arch o t laid =
    let size = o.tls_block_size in
    let more = used_data-new t.used_data laid.used size laid.is_used in
    let (least, whole) = up-bounds size in
    let (from, to) = new_block (arch.variant == 1) laid.used size in
    record {
      used = laid.used + up size 16;
      is_used = more;
      aligned = omega (arith, laid.aligned);
      numbered =
          AreNumbered-append 0 t.modules (placed arch o t) laid.numbered (ap some (omega arith));
      inside =
          AreInside-append arch laid.used (laid.used + up size 16) t.modules (placed arch o t)
            (omega arith) laid.inside
            (
              new_offset (arch.variant == 1) laid.used size,
              ap some (block_offset-new_offset arch o t laid.used laid.is_used),
              from,
              to,
            );
      apart =
          AllApart-append arch laid.used t.modules (placed arch o t) laid.inside
            (λ l inside. placed-AreApart arch o t laid.used l laid.is_used inside) laid.apart;
    }

if-true {ℓ} : {A : Type ℓ} (b : Bool) (x y : A) → b ≡ true → (if b then x else y) ≡ x
if-true b x y e = rw e refl

if-false {ℓ} : {A : Type ℓ} (b : Bool) (x y : A) → b ≡ false → (if b then x else y) ≡ y
if-false b x y e = rw e refl

-- While there is no thread and room for a module more, an object that uses TLS is registered, behind
-- the others: then each module has its position as its number, and the blocks of the modules lie in
-- the data used, above the thread pointer in the first variant and below it in the others, none
-- over another, if that was so before.
pub register_object-IsLaidOut :
    (arch : TlsArch) (o : Module) (t : Manager)
    → IsLaidOut arch t
    → t.threads ≡ 0
    → o.tls_used ≡ true
    → length t.modules < t.max_modules
    → (t' : Manager) × (register_object arch o t ≡ ok (true, t'))
      × IsLaidOut arch t'
      × (t'.modules ≡ t.modules ++ placed arch o t ∷ [])
unfolding register_object
register_object-IsLaidOut arch o t laid none_yet uses room =
    let uses' : not o.tls_used ≡ false = ap not uses in
    let room' : leb t.max_modules (length t.modules) ≡ false = ground arith in
    let none' : (t.threads == 0) ≡ true = ground arith in
    let o' = record o { tls_module_id = some (length t.modules) } in
    let id : assign_id o t ≡ ok (some o') =
      if-false (not o.tls_used) _ _ uses'
      ∙ if-false (leb t.max_modules (length t.modules)) _ _ room' in
    (
      after_placing arch o t,
      ap (λ (r : Result (Option Module)). r >>= after_id arch t) id
          ∙ ap (λ m. ok (true, m))
              (if-true (t.threads == 0) (after_placing arch o t) (enlist o' t) none'),
      after_placing-IsLaidOut arch o t laid,
      refl,
    )
