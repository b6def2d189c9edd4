-- ===== src/Memory/Items.antt =====
-- `Clemory.__getitem__`, `__setitem__`, `__contains__` and `__iter__`.
use cle.Base.{
  ℕ, zero, suc, Bool, true, false, ◌&&◌, ◌||◌, Option, none, some, List, [], ◌∷◌, ◌++◌, length, set,
  ltb, ◌==◌, if◌then◌else◌, Result, ok, err, out_of_fuel, ◌>>=◌, key_error, value_error, type_error,
}
use cle.Base.Int.{ℤ, pos, ◌+ℤ◌, ◌-ℤ◌, leb_ℤ, ltb_ℤ, to_ℕ}
use cle.Utils.Bisect.{index}
use cle.Memory.Backers.{
  Kind, byte_array, int_list, mmap, byte_constant, Backers, nil, raw, child, Clemory, size,
}

-- `isinstance(data, (bytearray, list))`
abbrev pub indexable : Kind → Bool
indexable byte_array = true
indexable int_list = true
indexable mmap = false
indexable byte_constant = false

-- `lo <= k < hi`, which raises where the bound that it reads is `None`.
abbrev pub between : Option ℤ → ℤ → Option ℤ → Result Bool
between none k hi = err type_error
between (some lo) k none = if leb_ℤ lo k then err type_error else ok false
between (some lo) k (some hi) = ok (leb_ℤ lo k && ltb_ℤ k hi)

-- `try: return … except KeyError: pass`, with what follows as the second argument.
abbrev pub or_key_error {ℓ} : {A : Type ℓ} → Result A → Result A → Result A
or_key_error (ok a) later = ok a
or_key_error (err key_error) later = later
or_key_error (err e) later = err e
or_key_error out_of_fuel later = out_of_fuel

abbrev pub in_buffer : ℤ → List ℕ → Bool
in_buffer offset xs = leb_ℤ (pos 0) offset && ltb_ℤ offset (size xs)

unfoldable pub get_item : Backers → ℤ → Result ℕ
get_item nil k = err key_error
get_item (raw start kind xs rest) k =
    let later = get_item rest k in
    if indexable kind && in_buffer (k -ℤ start) xs then index xs (to_ℕ (k -ℤ start)) else later
get_item (child start info bs rest) k =
    let later = get_item rest k in
    let inner = get_item bs (k -ℤ start) in
    between info.min_addr (k -ℤ start) info.max_addr >>= λ inside.
    if inside then or_key_error inner later else later

-- `data[i] = v`: a byte array takes only bytes.
abbrev pub assign : Kind → List ℕ → ℕ → ℕ → Result (List ℕ)
assign int_list xs i v = ok (set xs i v)
assign byte_array xs i v = if ltb v 256 then ok (set xs i v) else err value_error
assign mmap xs i v = err type_error
assign byte_constant xs i v = err type_error

-- A failed assignment leaves every backer as it was.
unfoldable pub set_item : Backers → ℤ → ℕ → Result Backers
set_item nil k v = err key_error
set_item (raw start kind xs rest) k v =
    let later = set_item rest k v >>= λ rest'. ok (raw start kind xs rest') in
    if indexable kind && in_buffer (k -ℤ start) xs
    then (assign kind xs (to_ℕ (k -ℤ start)) v >>= λ ys. ok (raw start kind ys rest))
    else later
set_item (child start info bs rest) k v =
    let later = set_item rest k v >>= λ rest'. ok (child start info bs rest') in
    let inner = set_item bs (k -ℤ start) v >>= λ bs'. ok (child start info bs' rest) in
    between info.min_addr (k -ℤ start) info.max_addr >>= λ inside.
    if inside then or_key_error inner later else later

-- `k < self.min_addr or k >= self.max_addr`
abbrev pub out_of_range : Option ℤ → ℤ → Option ℤ → Result Bool
out_of_range none k hi = err type_error
out_of_range (some lo) k none = if ltb_ℤ k lo then ok true else err type_error
out_of_range (some lo) k (some hi) = ok (ltb_ℤ k lo || leb_ℤ hi k)

abbrev pub is_nil : Backers → Bool
is_nil nil = true
is_nil (raw _ _ _ _) = false
is_nil (child _ _ _ _) = false

abbrev pub found : Result ℕ → Result Bool
found (ok v) = ok true
found (err key_error) = ok false
found (err e) = err e
found out_of_fuel = out_of_fuel

unfoldable pub contains : Clemory → ℤ → Result Bool
unfolding get_item
contains m k =
    if m.info.consecutive
    then between m.info.min_addr k m.info.max_addr
    else if is_nil m.backers_list
    then ok false
    else (out_of_range m.info.min_addr k m.info.max_addr >>= λ out.
        if out then ok false else found (get_item m.backers_list k))

counted : ℕ → ℤ → ℕ → List ℤ
counted zero start i = []
counted (suc n) start i = (start +ℤ pos i) ∷ counted n start (suc i)

abbrev values : ℤ → List ℕ → List ℤ
values start [] = []
values start (x ∷ xs) = (start +ℤ pos x) ∷ values start xs

abbrev shift_all : ℤ → List ℤ → List ℤ
shift_all d [] = []
shift_all d (x ∷ xs) = (d +ℤ x) ∷ shift_all d xs

-- The whole iteration by `__iter__`: a `list` or a `bytes` gives its positions; any other buffer is
-- iterated itself, so a byte array gives its values, and an `mmap` texts, which cannot be added.
unfoldable pub iterate : Backers → Result (List ℤ)
unfolding counted
iterate nil = ok []
iterate (raw start int_list xs rest) = iterate rest >>= λ ks. ok (counted (length xs) start 0 ++ ks)
iterate (raw start byte_array xs rest) = iterate rest >>= λ ks. ok (values start xs ++ ks)
iterate (raw start mmap xs rest) = if length xs == 0 then iterate rest else err type_error
iterate (raw start byte_constant xs rest) =
    iterate rest >>= λ ks. ok (counted (length xs) start 0 ++ ks)
iterate (child start info bs rest) = do
  inner ← iterate bs
  ks ← iterate rest
  ok (shift_all start inner ++ ks)
