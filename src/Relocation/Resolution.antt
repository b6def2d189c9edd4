-- ===== src/Relocation/Resolution.antt =====
-- Which symbol `resolve_symbol` of cle/backends/relocation.py picks.
use cle.Base.{
  ℕ, ◌≡◌, refl, sym, Bool, false, not, ◌&&◌, ◌||◌, ◌==◌, Option, none, some, List, [], ◌∷◌,
  if◌then◌else◌, Result, ok, err, arith, subst, attribute_error,
}
use cle.Relocation.{
  Name, Symbol, Provider, Found, strong, at_most, first_weak, resolves_for, take_weak,
  search_symbol, MakeExtern, Linking, Resolving, resolve, settle_symbol, search_and_resolve,
  is_no_type,
}

-- The symbols that the objects give for the name, of those that may resolve a relocation of `owner`.
abbrev keep : Bool → Symbol → List Symbol → List Symbol
keep usable s ss = if usable then s ∷ ss else ss

-- A symbol may resolve a relocation of an object if it is exported, or if it is that object's own and
-- not imported.
abbrev pub is_eligible : ℕ → ℕ → Symbol → Bool
is_eligible owner id s = s.is_export || (not s.is_import && id == owner)

abbrev pub given : ℕ → Provider → Option Symbol → List Symbol → List Symbol
given owner so none ss = ss
given owner so (some s) ss = keep (is_eligible owner so.id s) s ss

unfoldable pub usable : Name → ℕ → List Provider → List Symbol
usable name owner [] = []
usable name owner (so ∷ sos) = given owner so (so.get_symbol name) (usable name owner sos)

abbrev pub first_strong : List Symbol → Option Symbol
first_strong [] = none
first_strong (s ∷ ss) = if s.is_weak then first_strong ss else some s

abbrev head : List Symbol → Option Symbol
head [] = none
head (s ∷ ss) = some s

abbrev or_first : Option Symbol → Option Symbol → Option Symbol
or_first none w = w
or_first (some s) w = some s

-- The first symbol that is not weak, or the first of all.
abbrev pub preferred : List Symbol → Option Symbol
preferred ss = or_first (first_strong ss) (head ss)

abbrev found : Option Symbol → Option Symbol → Found
found none w = at_most w
found (some s) w = strong s

weak_kept :
    (w : Option Symbol) (s : Symbol) (h : Option Symbol)
    → or_first (first_weak w s) h ≡ or_first w (some s)
weak_kept none s h = refl
weak_kept (some w) s h = refl

-- One round, for whatever the object gives for the name.
found_step :
    (name : Name) (owner : ℕ) (so : Provider) (sos : List Provider) (weak : Option Symbol)
    (ss : List Symbol)
    → ((w : Option Symbol)
        → search_symbol name owner sos w ≡ found (first_strong ss) (or_first w (head ss)))
    → (o : Option Symbol)
    → (elim o [
      | none ↦ search_symbol name owner sos weak
      | some s ↦
          if resolves_for owner so.id s && not s.is_weak
          then strong s
          else search_symbol name owner sos (take_weak (resolves_for owner so.id s) weak s)
    ])
      ≡ found (first_strong (given owner so o ss)) (or_first weak (head (given owner so o ss)))
found_step name owner so sos weak ss ih none = ih weak
found_step name owner so sos weak ss ih (some s) =
    ground (arith, ih weak, ih (first_weak weak s), weak_kept weak s (head ss))

search_symbol-found :
    (name : Name) (owner : ℕ) (sos : List Provider) (weak : Option Symbol)
    → search_symbol name owner sos weak
      ≡ found (first_strong (usable name owner sos)) (or_first weak (head (usable name owner sos)))
unfolding search_symbol usable
search_symbol-found name owner [] none = refl
search_symbol-found name owner [] (some w) = refl
search_symbol-found name owner (so ∷ sos) weak =
    found_step name owner so sos weak (usable name owner sos) (search_symbol-found name owner sos)
      (so.get_symbol name)

-- What is done with a symbol of the search: with none, a weak symbol is left alone, and for
-- another the extern object makes one.
module _ {E : Type 0} (make_extern : MakeExtern E) (c : Resolving) where
  abbrev pub resolve_by : Bool → Symbol → Linking E → Option Symbol → Result (Linking E)
  resolve_by thumb s l (some t) = resolve make_extern c (some t) l
  resolve_by thumb s l none =
      if s.is_weak
      then ok l
      else let (new, externs') = make_extern l.externs s.name s.kind thumb none in
        resolve make_extern c (some new) (record l { externs = externs' })

  by_found :
      (thumb : Bool) (s : Symbol) (l : Linking E) (a w : Option Symbol)
      → (elim (found a w) [
        | strong t ↦ resolve make_extern c (some t) l
        | at_most weak ↦ elim weak [
          | some t ↦ resolve make_extern c (some t) l
          | none ↦
              if s.is_weak
              then ok l
              else let (new, externs') = make_extern l.externs s.name s.kind thumb none in
                resolve make_extern c (some new) (record l { externs = externs' })
        ]
      ])
        ≡ resolve_by thumb s l (or_first a w)
  by_found thumb s l none none = refl
  by_found thumb s l none (some t) = refl
  by_found thumb s l (some t) w = refl

  settle_symbol-preferred :
      (thumb : Bool) (solist : List Provider) (l : Linking E) (s : Symbol)
      → s.is_static ≡ false
      → s.is_local ≡ false
      → settle_symbol make_extern c thumb solist s l
        ≡ resolve_by thumb s l (preferred (usable s.name l.reloc.owner.ident solist))
  unfolding settle_symbol
  settle_symbol-preferred thumb solist l s st lo =
      simp (st, lo, search_symbol-found s.name l.reloc.owner.ident solist none)
        (by_found thumb s l (first_strong (usable s.name l.reloc.owner.ident solist))
          (head (usable s.name l.reloc.owner.ident solist)))

  abbrev outcome : Bool → List Provider → Linking E → Symbol → Result (Linking E)
  outcome thumb solist l s =
      resolve_by thumb s l (preferred (usable s.name l.reloc.owner.ident solist))

  abbrev pick : Bool → List Provider → Linking E → Option Symbol → Result (Linking E)
  pick thumb solist l o = elim o [
    | none ↦ if c.auto_handle_none then resolve make_extern c none l else err attribute_error
    | some s ↦
        if is_no_type s.kind && c.auto_handle_none
        then resolve make_extern c none l
        else settle_symbol make_extern c thumb solist s l
  ]

  -- A relocation that has not been resolved, and whose symbol has a type and is neither static nor
  -- local, is resolved by one of the symbols that the objects give for the name and that are exported,
  -- or not imported and of the object that the relocation is in: by the first one that is not weak, in
  -- the order of the objects, or else by the first of all. Where there is none, it is left unresolved if
  -- its own symbol is weak, and otherwise resolved by a new symbol of the extern object.
  pub search_and_resolve-preferred :
      (thumb : Bool) (solist : List Provider) (l : Linking E) (s : Symbol)
      → l.reloc.symbol ≡ some s
      → l.reloc.resolved ≡ false
      → is_no_type s.kind ≡ false
      → s.is_static ≡ false
      → s.is_local ≡ false
      → search_and_resolve make_extern c thumb solist l
        ≡ resolve_by thumb s l (preferred (usable s.name l.reloc.owner.ident solist))
  unfolding search_and_resolve
  search_and_resolve-preferred thumb solist l s e r k st lo =
      let rest = settle_symbol-preferred thumb solist l s st lo in
      subst
        (λ b. (if b then ok l else pick thumb solist l l.reloc.symbol) ≡ outcome thumb solist l s)
        (sym r)
        (subst (λ o. pick thumb solist l o ≡ outcome thumb solist l s) (sym e)
          (subst
            (λ b.
              (if b && c.auto_handle_none
                then resolve make_extern c none l
                else settle_symbol make_extern c thumb solist s l)
              ≡ outcome thumb solist l s)
            (sym k) rest))
