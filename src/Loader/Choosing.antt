-- ===== src/Loader/Choosing.antt =====
-- The base that the loader chooses for an object leaves its range free.
use cle.Base.{
  ℕ, ◌^◌, ◌≡◌, refl, ap, ◌∙◌, Bool, true, false, not, ◌&&◌, Option, none, some, arith,
  if◌then◌else◌, ok, inl, inr, Bool-cases, Option-cases,
}
use cle.Base.Int.{ℤ, pos, ◌+ℤ◌, ◌≤ℤ◌, ◌<ℤ◌, eqb_ℤ}
use cle.Backend.{Backend}
use cle.Loader.{
  Loader, first_gap, gap_among, find_safe_rebase_addr, is_range_free, custom_is_free, default_base,
  choose_base,
}
use cle.Loader.Space.{IsSpaced, find_safe_rebase_addr-is_range_free}

-- What `_map_object` needs to find a place: the main object's fixed place is free, and there is room
-- behind or between the objects.
abbrev pub HasRoom : Loader → Bool → ℤ → Type 0
HasRoom l is_main_bin size =
    (is_main_bin ≡ true → is_range_free l (pos 4194304) size ≡ true)
    × (gap_among l.rebase_granularity size (first_gap l) l.all_objects +ℤ size ≤ℤ pos (2 ^ l.bits))

free_safe :
    (l : Loader) (size base : ℤ) (k : ℕ)
    → l.rebase_granularity ≡ 2 ^ k
    → pos 0 <ℤ size
    → IsSpaced l.all_objects
    → gap_among l.rebase_granularity size (first_gap l) l.all_objects +ℤ size ≤ℤ pos (2 ^ l.bits)
    → find_safe_rebase_addr l size ≡ ok base
    → is_range_free l base size ≡ true
free_safe l size base k g positive s room e =
    let (va, found, free) = find_safe_rebase_addr-is_range_free l size k g positive s room in
    let same : va ≡ base = cc in rw same at free

custom_free :
    (l : Loader) (custom : Option ℤ) (size base : ℤ)
    → custom_is_free l custom size ≡ some base
    → is_range_free l base size ≡ true
custom_free l none size base e = absurd (cc)
custom_free l (some b) size base e = elim (Bool-cases (is_range_free l b size)) [
  | inl free ↦ let same : b ≡ base = ground arith in rw same at free
  | inr taken ↦ ground arith
]

module _ (l : Loader) (obj : Backend) (size base : ℤ) (k : ℕ) (g : l.rebase_granularity ≡ 2 ^ k)
    (positive : pos 0 <ℤ size) (s : IsSpaced l.all_objects)
    (room : HasRoom l obj.is_main_bin size) where
  safe_or_main :
      (main : Bool)
      → (main ≡ true → is_range_free l (pos 4194304) size ≡ true)
      → (if not main then find_safe_rebase_addr l size else ok (pos 4194304)) ≡ ok base
      → is_range_free l base size ≡ true
  safe_or_main true free e = let same : pos 4194304 ≡ base = cc in rw same at (free refl)
  safe_or_main false free e = free_safe l size base k g positive s room.1 e

  linked_or_safe :
      (linked : Bool)
      → (linked ≡ true → is_range_free l obj.linked_base size ≡ true)
      → (if linked
          then ok obj.linked_base
          else if not obj.is_main_bin
          then find_safe_rebase_addr l size
          else ok (pos 4194304))
        ≡ ok base
      → is_range_free l base size ≡ true
  linked_or_safe true free e = let same : obj.linked_base ≡ base = cc in rw same at (free refl)
  linked_or_safe false free e = safe_or_main obj.is_main_bin room.0 e

  default_base-is_range_free : default_base l obj size ≡ ok base → is_range_free l base size ≡ true
  unfolding default_base
  default_base-is_range_free e =
      linked_or_safe (not (eqb_ℤ obj.linked_base (pos 0)) && is_range_free l obj.linked_base size)
        (λ h. ground arith) e

  pub choose_base-is_range_free :
      choose_base l obj size ≡ ok base → is_range_free l base size ≡ true
  unfolding choose_base
  choose_base-is_range_free e = elim (Option-cases (custom_is_free l obj.custom_base_addr size)) [
    | inl unasked ↦ default_base-is_range_free (rw unasked at e)
    | inr (b, asked) ↦
        let same : b ≡ base = (let e' : ok b ≡ ok base = rw asked at e in cc) in
        custom_free l obj.custom_base_addr size base (asked ∙ ap some same)
  ]
