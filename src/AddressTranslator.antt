-- ===== src/AddressTranslator.antt =====
-- cle/address_translator.py: a relative address with the object that it is relative to. Of the
-- owner only its two bases, its mapping state and its two offset methods are read; the methods
-- are functions here, since each backend may have its own.
pub mod RoundTrips
use cle.Base.{ℕ, Bool, Option, none, some, if◌then◌else◌, Result, ok, err, type_error}
use cle.Base.Int.{ℤ, ◌+ℤ◌, ◌-ℤ◌}

pub record Owner : Type 0 where
  pub linked_base : ℤ
  pub mapped_base : ℤ
  pub is_mapped : Bool
  pub addr_to_offset : ℤ → Option ℤ
  pub offset_to_addr : ℤ → Option ℤ

pub record AddressTranslator : Type 0 where
  pub rva : ℤ
  pub owner : Owner

unfoldable pub from_lva : ℤ → Owner → AddressTranslator
from_lva lva owner = record { rva = lva -ℤ owner.linked_base; owner = owner }

unfoldable pub from_mva : ℤ → Owner → AddressTranslator
from_mva mva owner = record { rva = mva -ℤ owner.mapped_base; owner = owner }

unfoldable pub from_rva : ℤ → Owner → AddressTranslator
from_rva rva owner = record { rva = rva; owner = owner }

-- The base that raw offsets go by.
abbrev pub current_base : Owner → ℤ
current_base owner = if owner.is_mapped then owner.mapped_base else owner.linked_base

-- An offset that no region maps gives `None`, from which Python cannot subtract.
unfoldable pub from_raw : ℤ → Owner → Result AddressTranslator
from_raw raw owner = elim (owner.offset_to_addr raw) [
  | none ↦ err type_error
  | some addr ↦ ok (record { rva = addr -ℤ current_base owner; owner = owner })
]

unfoldable pub to_lva : AddressTranslator → ℤ
to_lva t = t.rva +ℤ t.owner.linked_base

unfoldable pub to_mva : AddressTranslator → ℤ
to_mva t = t.rva +ℤ t.owner.mapped_base

unfoldable pub to_rva : AddressTranslator → ℤ
to_rva t = t.rva

unfoldable pub to_raw : AddressTranslator → Option ℤ
to_raw t = t.owner.addr_to_offset (t.rva +ℤ current_base t.owner)
