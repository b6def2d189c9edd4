-- ===== src/Externs/Growing.antt =====
-- `allocate`, over the objects that there are and those that it makes.
use cle.Base.{
  ℕ, zero, suc, ◌+◌, ◌^◌, ◌≤◌, ◌<◌, ◌≡◌, refl, ap, ◌∙◌, Bool, true, false, not, Option, none, some,
  List, [], ◌∷◌, leb, max, length, if◌then◌else◌, Result, ok, err, ◌>>=◌, cle_error, arith,
  Exception, cle_operation_error, ◌≢◌, ◌-◌, ◌*◌, ◌⊎◌, inl, inr, Bool-cases, Option-cases,
}
use cle.Base.Int.{ℤ, pos, ◌+ℤ◌}
use cle.Externs.{
  Extern, new, try_allocate, finalize_tls, rebase, Registry, register, chosen_base, load_extern,
  make_new_externs, Allocated, give, allocate,
}
use cle.Externs.Room.{IsGiven, try_allocate-IsGiven}

abbrev pub AllMapped : List Extern → Type 0
AllMapped [] = Unit
AllMapped (e ∷ es) = (e.is_mapped ≡ true) × AllMapped es

-- So many bytes more reach the end of each object's map.
abbrev pub AllFull : ℕ → List Extern → Type 0
AllFull size [] = Unit
AllFull size (e ∷ es) = (e.map_size ≤ e.next_addr + size) × AllFull size es

fresh_finalized :
    (map_size : ℕ)
    → 0x8000 ≤ map_size
    → (e : Extern) × (finalize_tls (new map_size 0x1000) ≡ ok e)
      × (e.next_addr ≡ 0x1000)
      × (e.map_size ≡ map_size)
      × (e.is_mapped ≡ false)
      × (e.tls_mapped ≡ true)
      × (e.tls_used ≡ true)
unfolding finalize_tls
fresh_finalized map_size h =
    let wide : leb map_size 0x1000 ≡ false = ground arith in
    (
      record (new map_size 0x1000) {
        next_addr = 0x1000;
        tls_used = true;
        tls_data_start = some 0;
        tls_block_size = 0x1000;
        tls_mapped = true;
      },
      rw wide refl,
      refl,
      refl,
      refl,
      refl,
      refl,
    )

abbrev mapped_at : ℤ → Extern → Extern
mapped_at base e = record e { is_mapped = true; mapped_base = base }

choose {ℓ} :
    {A : Type ℓ} (mapped tls_mapped : Bool) (x y z : Result A) (f : A → Result A)
    → mapped ≡ false
    → tls_mapped ≡ true
    → (if mapped then x else ((if not tls_mapped then y else z) >>= f)) ≡ (z >>= f)
choose mapped tls_mapped x y z f p q = rw (p, q) refl

rebase-mapped_at :
    (base : ℤ) (e : Extern)
    → e.is_mapped ≡ false
    → e.tls_mapped ≡ true
    → rebase base e ≡ ok (mapped_at base e)
unfolding rebase
rebase-mapped_at base e p q =
    choose e.is_mapped e.tls_mapped (ok e) (finalize_tls e) (ok e) (λ e'. ok (mapped_at base e')) p
      q

-- A new object has room from 0x1000 on, behind its thread-local data, and is one module more.
abbrev pub HasNew : ℕ → ℕ → Registry → Extern × Registry → Type 0
HasNew size alignment r (e, r') =
    (e.is_mapped ≡ true)
    × (e.next_addr ≡ 0x1000)
    × (e.map_size ≡ max (size + alignment) 0x8000)
    × (r'.max_modules ≡ r.max_modules)
    × (r'.modules ≡ suc r.modules)
    × (r.modules < r.max_modules)

registered :
    (e : Extern) (r : Registry)
    → e.tls_used ≡ true
    → register e r ≡ (
        if leb r.max_modules r.modules
        then err cle_error
        else ok (record r { modules = suc r.modules }))
registered e r used = by_used e.tls_used used
  where
    by_used :
        (b : Bool)
        → b ≡ true
        → (if not b
            then ok r
            else if leb r.max_modules r.modules
            then err cle_error
            else ok (record r { modules = suc r.modules }))
          ≡ (if leb r.max_modules r.modules
              then err cle_error
              else ok (record r { modules = suc r.modules }))
    by_used true h = refl
    by_used false h = absurd (cc)

-- What comes of making a new object: the object, or an exception. With room in the thread manager
-- and a base it is the object.
abbrev pub Made : (Extern → Option ℤ) → ℕ → ℕ → Registry → Type 0
Made base_for size alignment r =
    ((x : Exception) × (make_new_externs base_for size alignment false r ≡ err x)
      × ((r.max_modules ≤ r.modules) ⊎ ((e : Extern) × (base_for e ≡ none))))
    ⊎ ((new : Extern × Registry) × (make_new_externs base_for size alignment false r ≡ ok new)
        × HasNew size alignment r new)

if-true {ℓ} : {A : Type ℓ} (b : Bool) (x y : A) → b ≡ true → (if b then x else y) ≡ x
if-true b x y h = rw h refl

if-false {ℓ} : {A : Type ℓ} (b : Bool) (x y : A) → b ≡ false → (if b then x else y) ≡ y
if-false b x y h = rw h refl

made :
    (base_for : Extern → Option ℤ) (size alignment : ℕ) (r : Registry)
    → Made base_for size alignment r
unfolding make_new_externs load_extern
made base_for size alignment r =
    let (e, final, at, wide, fresh, ready, used) =
      fresh_finalized (max (size + alignment) 0x8000) (omega arith) in
    let loaded : make_new_externs base_for size alignment false r ≡ load_extern base_for r e =
      ap (λ (q : Result Extern). q >>= load_extern base_for r) final in
    let r' = record r { modules = suc r.modules } in
    let named = registered e r used in
    elim (Bool-cases (leb r.max_modules r.modules)) [
      | inl full ↦ inl (
        cle_error,
        loaded
            ∙ loading_fails e r cle_error
                (named ∙ if-true (leb r.max_modules r.modules) (err cle_error) (ok r') full),
        inl (ground arith),
      )
      | inr room ↦ elim (Option-cases (base_for e)) [
        | inl nowhere ↦ inl (
          cle_operation_error,
          loaded
              ∙ no_base e r r'
                  (named ∙ if-false (leb r.max_modules r.modules) (err cle_error) (ok r') room)
                  nowhere,
          inr (e, nowhere),
        )
        | inr (base, found) ↦ inr (
          (mapped_at base e, r'),
          loaded
              ∙ has_base e r r' base
                  (named ∙ if-false (leb r.max_modules r.modules) (err cle_error) (ok r') room)
                  found fresh ready,
          (refl, at, wide, refl, refl, ground arith),
        )
      ]
    ]
  where
    loading_fails :
        (e : Extern) (r : Registry) (x : Exception)
        → register e r ≡ err x
        → load_extern base_for r e ≡ err x
    loading_fails e r x named =
        ap
          (λ (q : Result Registry).
            q >>= λ r'. chosen_base (base_for e) >>= λ base. rebase base e >>= λ e'. ok (e', r'))
          named

    no_base :
        (e : Extern) (r r' : Registry)
        → register e r ≡ ok r'
        → base_for e ≡ none
        → load_extern base_for r e ≡ err cle_operation_error
    no_base e r r' named nowhere =
        ap
          (λ (q : Result Registry).
            q >>= λ r'. chosen_base (base_for e) >>= λ base. rebase base e >>= λ e'. ok (e', r'))
          named
        ∙ ap (λ o. chosen_base o >>= λ base. rebase base e >>= λ e'. ok (e', r')) nowhere

    has_base :
        (e : Extern) (r r' : Registry) (base : ℤ)
        → register e r ≡ ok r'
        → base_for e ≡ some base
        → e.is_mapped ≡ false
        → e.tls_mapped ≡ true
        → load_extern base_for r e ≡ ok (mapped_at base e, r')
    has_base e r r' base named found fresh ready =
        ap
          (λ (q : Result Registry).
            q >>= λ r'. chosen_base (base_for e) >>= λ base. rebase base e >>= λ e'. ok (e', r'))
          named
        ∙ ap (λ o. chosen_base o >>= λ base. rebase base e >>= λ e'. ok (e', r')) found
        ∙ ap (λ (q : Result Extern). q >>= λ e'. ok (e', r')) (rebase-mapped_at base e fresh ready)

if-mapped {ℓ} : {A : Type ℓ} (b : Bool) (x y : A) → b ≡ true → (if not b then x else y) ≡ y
if-mapped b x y e = rw e refl

module _ (base_for : Extern → Option ℤ) (size k : ℕ) (thumb : Bool) where
  allocate-step :
      (fuel : ℕ) (r : Registry) (e : Extern) (es : List Extern)
      → e.is_mapped ≡ true
      → allocate (suc fuel) base_for size (2 ^ k) thumb false r (e ∷ es)
        ≡ give false e
            (try_allocate size (2 ^ k) thumb false e)
            es
            r
            (allocate fuel base_for size (2 ^ k) thumb false r es)
  unfolding allocate
  allocate-step fuel r e es mapped =
      if-mapped e.is_mapped (err cle_error)
        (give false e (try_allocate size (2 ^ k) thumb false e) es r
          (allocate fuel base_for size (2 ^ k) thumb false r es))
        mapped

  allocate-made :
      (fuel : ℕ) (r r' : Registry) (e : Extern)
      → make_new_externs base_for size (2 ^ k) false r ≡ ok (e, r')
      → allocate (suc fuel) base_for size (2 ^ k) thumb false r []
        ≡ allocate fuel base_for size (2 ^ k) thumb false r' (e ∷ [])
  unfolding allocate
  allocate-made fuel r r' e new_one =
      ap
        (λ (q : Result (Extern × Registry)).
          q >>= λ (e, r'). allocate fuel base_for size (2 ^ k) thumb false r' (e ∷ []))
        new_one

  allocate-raises :
      (fuel : ℕ) (r : Registry) (x : Exception)
      → make_new_externs base_for size (2 ^ k) false r ≡ err x
      → allocate (suc fuel) base_for size (2 ^ k) thumb false r [] ≡ err x
  unfolding allocate
  allocate-raises fuel r x failed =
      ap
        (λ (q : Result (Extern × Registry)).
          q >>= λ (e, r'). allocate fuel base_for size (2 ^ k) thumb false r' (e ∷ []))
        failed

  full-give :
      (e : Extern) (given : Option ℕ × Extern) (es : List Extern) (r : Registry) (x : Exception)
      → IsGiven size (2 ^ k) thumb false e given
      → e.is_mapped ≡ true
      → e.map_size ≤ e.next_addr + size
      → give false e given es r (err x) ≡ err x
  full-give e (none, e') es r x is mapped full = refl
  full-give e (some addr, e') es r x (from, even, next, room, more, fits, wide, kept, s, l) mapped
        full =
      let less = fits mapped in absurd (omega arith)

  -- Where all objects are mapped and the request reaches the end of the room of each, a request for
  -- 0x7000 bytes or more, outside of the thread-local data and to a multiple of a power of two up
  -- to 0x1000, ends with an exception and gives no address, whatever bases the loader finds: a new
  -- object is as large as the request and its alignment, but its own thread-local data takes the
  -- first 0x1000 bytes, and so it goes on with a further object, until the thread manager has all
  -- the modules it can have. One round for each object, two for each module that there is room for
  -- and one more are enough.
  pub allocate-refused :
      (fuel : ℕ) (r : Registry) (es : List Extern)
      → 0x7000 ≤ size
      → 2 ^ k ≤ 0x1000
      → AllMapped es
      → AllFull size es
      → length es + 2 * (r.max_modules - r.modules) + 1 ≤ fuel
      → (x : Exception) × (allocate fuel base_for size (2 ^ k) thumb false r es ≡ err x)
  allocate-refused zero r es large fine mapped full enough = absurd (omega arith)
  allocate-refused (suc zero) r (e ∷ es) large fine mapped full enough = absurd (omega arith)
  allocate-refused (suc fuel) r [] large fine mapped full enough =
      elim (made base_for size (2 ^ k) r) [
        | inl (x, failed, why) ↦ (x, allocate-raises fuel r x failed)
        | inr ((e, r'), new_one, (is_mapped, at, wide, same, more, room)) ↦
            let (x, ends) =
              allocate-refused fuel r' (e ∷ []) large fine (is_mapped, tt) (omega arith, tt)
                (omega arith) in
            (x, allocate-made fuel r r' e new_one ∙ ends)
      ]
  allocate-refused (suc (suc fuel)) r (e ∷ es) large fine (m, ms) (f, fs) enough =
      let (x, ends) = allocate-refused (suc fuel) r es large fine ms fs (omega arith) in
      (
        x,
        allocate-step (suc fuel) r e es m
            ∙ ap (give false e (try_allocate size (2 ^ k) thumb false e) es r) ends
            ∙ full-give e (try_allocate size (2 ^ k) thumb false e) es r x
                (try_allocate-IsGiven size k thumb false e) m f,
      )

  give-ok :
      (e : Extern) (given : Option ℕ × Extern) (es : List Extern) (r : Registry)
      (later : Result Allocated)
      → ((found : Allocated) × (later ≡ ok found))
      → (found : Allocated) × (give false e given es r later ≡ ok found)
  give-ok e (some addr, e') es r later h = ((pos addr +ℤ e.mapped_base, e' ∷ es, r), refl)
  give-ok e (none, e') es r later ((addr, es', r'), h) =
      ((addr +ℤ e.mapped_base, e' ∷ es', r'), ap (give false e (none, e') es r) h)

  give-room :
      (e : Extern) (given : Option ℕ × Extern) (es : List Extern) (r : Registry)
      (later : Result Allocated)
      → IsGiven size (2 ^ k) thumb false e given
      → e.next_addr + 2 ^ k + size < e.map_size
      → (found : Allocated) × (give false e given es r later ≡ ok found)
  give-room e (some addr, e') es r later is h = ((pos addr +ℤ e.mapped_base, e' ∷ es, r), refl)
  give-room e (none, e') es r later (mapped, same, full) h = absurd (omega arith)

  -- Where all objects are mapped, the thread manager has room for a module more, and the loader finds
  -- a base for any new object, a request outside of the thread-local data that stays below 0x7000
  -- bytes with its alignment, a power of two, ends with an address: at the latest in the first new
  -- object. Two rounds more than there are objects are enough.
  pub allocate-ends :
      (fuel : ℕ) (r : Registry) (es : List Extern)
      → size + 2 ^ k < 0x7000
      → AllMapped es
      → r.modules < r.max_modules
      → ((e : Extern) → base_for e ≢ none)
      → length es + 2 ≤ fuel
      → (found : Allocated) × (allocate fuel base_for size (2 ^ k) thumb false r es ≡ ok found)
  allocate-ends zero r es small mapped room bases enough = absurd (omega arith)
  allocate-ends (suc zero) r es small mapped room bases enough = absurd (omega arith)
  allocate-ends (suc (suc fuel)) r [] small mapped room bases enough =
      elim (made base_for size (2 ^ k) r) [
        | inl (x, failed, inl full) ↦ absurd (omega arith)
        | inl (x, failed, inr (e, nowhere)) ↦ absurd (bases e nowhere)
        | inr ((e, r'), new_one, (is_mapped, at, wide, same, more, held)) ↦
            let (found, ends) =
              give-room e (try_allocate size (2 ^ k) thumb false e) [] r'
                (allocate fuel base_for size (2 ^ k) thumb false r' [])
                (try_allocate-IsGiven size k thumb false e) (omega arith) in
            (
              found,
              allocate-made (suc fuel) r r' e new_one ∙ allocate-step fuel r' e [] is_mapped ∙ ends,
            )
      ]
  allocate-ends (suc (suc fuel)) r (e ∷ es) small (m, ms) room bases enough =
      let ih = allocate-ends (suc fuel) r es small ms room bases (omega arith) in
      let (found, ends) =
        give-ok e (try_allocate size (2 ^ k) thumb false e) es r
          (allocate (suc fuel) base_for size (2 ^ k) thumb false r es) ih in
      (found, allocate-step (suc fuel) r e es m ∙ ends)
