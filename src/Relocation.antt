-- ===== src/Relocation.antt =====
-- cle/backends/relocation.py and cle/backends/symbol.py: symbols, and a relocation with the search
-- of the symbol that resolves it. `Holder` has what a relocation reads of an object. Names are
-- lists of code points. Symbols are values here: `Symbol.resolve`, which changes a symbol that
-- relocations share, adds a row to the list of resolved imports instead.
pub mod Generic
pub mod X86
pub mod Sparc
pub mod Mips
pub mod Ppc
pub mod Ppc64
pub mod Arm64
pub mod Arm
pub mod Pe
pub mod Tables
pub mod Halves
pub mod Fields
pub mod Pages
pub mod Literals
pub mod Calls
pub mod Resolution
pub mod Truncation
use cle.Base.{
  ℕ, ◌≡◌, Bool, true, false, not, ◌&&◌, ◌||◌, Option, none, some, List, [], ◌∷◌, ◌++◌, ◌==◌,
  if◌then◌else◌, Result, ok, err, out_of_fuel, ◌>>=◌, type_error, attribute_error, assertion_error,
}
use cle.Base.Int.{ℤ, pos}
use cle.AddressTranslator.{Owner, from_rva, to_mva, to_lva}

abbrev pub Name : Type 0
Name = List ℕ

pub data SymbolType : Type 0 where
  other no_type function object section tls_object : SymbolType

abbrev pub is_no_type : SymbolType → Bool
is_no_type no_type = true
is_no_type other = false
is_no_type function = false
is_no_type object = false
is_no_type section = false
is_no_type tls_object = false

abbrev pub is_function_type : SymbolType → Bool
is_function_type function = true
is_function_type other = false
is_function_type no_type = false
is_function_type object = false
is_function_type section = false
is_function_type tls_object = false

pub record Holder : Type 0 where
  pub ident : ℕ
  pub space : Owner
  pub tls_block_offset : Option ℤ
  pub tls_module_id : ℤ

pub record Symbol : Type 0 where
  pub name : Name
  pub owner : Holder
  pub relative_addr : ℤ
  pub size : ℕ
  pub kind : SymbolType
  pub is_static : Bool
  pub is_local : Bool
  pub is_weak : Bool
  pub is_import : Bool
  pub is_export : Bool
  pub is_extern : Bool

-- `Symbol.rebased_addr`, `Symbol.linked_addr`, `Symbol.is_function`
unfoldable pub rebased_addr : Symbol → ℤ
unfolding from_rva to_mva
rebased_addr s = to_mva (from_rva s.relative_addr s.owner.space)

unfoldable pub linked_addr : Symbol → ℤ
unfolding from_rva to_lva
linked_addr s = to_lva (from_rva s.relative_addr s.owner.space)

unfoldable pub is_function : Symbol → Bool
is_function s = is_function_type s.kind

-- An object as the search for a symbol sees it.
pub record Provider : Type 0 where
  pub id : ℕ
  pub get_symbol : Name → Option Symbol

-- `addend` is the one of the file, or the word that the place holds.
pub record Relocation : Type 0 where
  pub owner : Holder
  pub symbol : Option Symbol
  pub relative_addr : ℤ
  pub addend : ℤ
  pub is_rela : Bool
  pub resolvedby : Option Symbol
  pub resolved : Bool

-- The address in the memory of all objects that the relocation writes to.
unfoldable pub place_addr : Relocation → ℤ
unfolding from_rva to_mva
place_addr r = to_mva (from_rva r.relative_addr r.owner.space)

-- What the search through the objects finds: a symbol to stop at, or the first weak one, if any.
pub data Found : Type 0 where
  strong : Symbol → Found
  at_most : Option Symbol → Found

abbrev pub first_weak : Option Symbol → Symbol → Option Symbol
first_weak none s = some s
first_weak (some w) s = some w

-- Whether a symbol that an object gives for the name may resolve a relocation of `owner`.
abbrev pub resolves_for : ℕ → ℕ → Symbol → Bool
resolves_for owner id s = s.is_export || (not s.is_import && id == owner)

abbrev pub take_weak : Bool → Option Symbol → Symbol → Option Symbol
take_weak usable weak s = if usable then first_weak weak s else weak

-- The loop over `solist`.
unfoldable pub search_symbol : Name → ℕ → List Provider → Option Symbol → Found
search_symbol name owner [] weak = at_most weak
search_symbol name owner (so ∷ sos) weak = elim (so.get_symbol name) [
  | none ↦ search_symbol name owner sos weak
  | some s ↦
      if resolves_for owner so.id s && not s.is_weak
      then strong s
      else search_symbol name owner sos (take_weak (resolves_for owner so.id s) weak s)
]

-- What `make_extern` of the extern object does is a parameter: the name, the type, whether it is
-- for Thumb code, and the symbol to point to; the new symbol comes with the object after it.
abbrev pub MakeExtern : Type 0 → Type 0
MakeExtern E = E → Name → SymbolType → Bool → Option Symbol → Symbol × E

-- A relocation with the imports of its owner that have been resolved so far.
pub record Linking (E : Type 0) : Type 0 where
  pub reloc : Relocation
  pub imports : List (Symbol × Option Symbol)
  pub externs : E

-- What a class of relocations overrides: `AUTO_HANDLE_NONE`, the mix-in `RelocGOTMixin`, and
-- `resolve_symbol`.
pub data Rule : Type 0 where
  by_search : Rule
  by_none : Rule
  by_others : Rule
  for_thumb : Rule

pub record Resolving : Type 0 where
  pub auto_handle_none : Bool
  pub through_got : Bool
  pub rule : Rule

abbrev pub got_prefix : Name
got_prefix = b'g' ∷ b'o' ∷ b't' ∷ b'.' ∷ []

-- `[x for x in solist if x is not self.owner]`
abbrev pub others : ℕ → List Provider → List Provider
others owner [] = []
others owner (so ∷ sos) = if so.id == owner then others owner sos else so ∷ others owner sos

module _ {E : Type 0} (make_extern : MakeExtern E) (c : Resolving) where
  -- `Relocation.resolve`
  unfoldable pub resolve_plain : Option Symbol → Linking E → Result (Linking E)
  resolve_plain obj l =
      let r' = record l.reloc { resolvedby = obj; resolved = true } in
      elim l.reloc.symbol [
        | some s ↦ ok (record l { reloc = r'; imports = l.imports ++ (s, obj) ∷ [] })
        | none ↦ if c.auto_handle_none then ok (record l { reloc = r' }) else err type_error
      ]

  -- `resolve`, with the override of `RelocGOTMixin`.
  unfoldable pub resolve : Option Symbol → Linking E → Result (Linking E)
  unfolding resolve_plain
  resolve obj l =
      if c.through_got
      then elim obj [
        | none ↦ err attribute_error
        | some s ↦
            let (got, externs') =
              make_extern l.externs (got_prefix ++ s.name) object false (some s) in
            resolve_plain (some got) (record l { externs = externs' })
      ]
      else resolve_plain obj l

  -- `Relocation.resolve_symbol` behind its first two tests, for a symbol that there is.
  unfoldable pub settle_symbol : Bool → List Provider → Symbol → Linking E → Result (Linking E)
  unfolding search_symbol resolve
  settle_symbol thumb solist s l =
      if s.is_static || s.is_local
      then resolve (some s) l
      else elim (search_symbol s.name l.reloc.owner.ident solist none) [
        | strong found ↦ resolve (some found) l
        | at_most weak ↦ elim weak [
          | some w ↦ resolve (some w) l
          | none ↦
              if s.is_weak
              then ok l
              else let (new, externs') = make_extern l.externs s.name s.kind thumb none in
                resolve (some new) (record l { externs = externs' })
        ]
      ]

  unfoldable pub search_and_resolve : Bool → List Provider → Linking E → Result (Linking E)
  unfolding settle_symbol
  search_and_resolve thumb solist l = if l.reloc.resolved then ok l else elim l.reloc.symbol [
    | none ↦ if c.auto_handle_none then resolve none l else err attribute_error
    | some s ↦
        if is_no_type s.kind && c.auto_handle_none
        then resolve none l
        else settle_symbol thumb solist s l
  ]

  -- `resolve_symbol` with the overrides of the classes.
  unfoldable pub resolve_symbol : List Provider → Linking E → Result (Linking E)
  unfolding search_and_resolve
  resolve_symbol solist l = elim c.rule [
    | by_search ↦ search_and_resolve false solist l
    | for_thumb ↦ search_and_resolve true solist l
    | by_none ↦ resolve none l
    | by_others ↦ search_and_resolve false (others l.reloc.owner.ident solist) l
  ]
