-- ===== src/Constprop/Data.antt =====
-- constprop.h: `struct constprop_data` and its tests; the bit helpers that constprop.c uses.
use lightrec.Base.{
  ℕ, zero, suc, ◌+◌, ◌-◌, ◌^◌, ◌==◌, if◌then◌else◌, Bool, not, ◌&&◌, bit_and, bit_or, any_bit, lnot,
  add32,
}
use lightrec.Base.Bits.{bit}

-- `known` marks the bits whose value `value` gives; `sign` marks unknown upper bits that are copies
-- of the sign.
pub record ConstpropData : Type 0 where
  pub value : ℕ
  pub known : ℕ
  pub sign : ℕ

-- The array `v`, one entry a register.
abbrev pub Consts : Type 0
Consts = ℕ → ConstpropData

unfoldable pub set_const : ℕ → ConstpropData → Consts → Consts
set_const r d v = λ i. if r == i then d else v i

abbrev pub constant : ℕ → ConstpropData
constant x = record { value = x; known = 0xffffffff; sign = 0 }

-- `known = 0; sign = 0`, the value left in place.
abbrev pub forget : ConstpropData → ConstpropData
forget d = record d { known = 0; sign = 0 }

unfoldable pub is_known : Consts → ℕ → Bool
is_known v reg = (v reg).known == 0xffffffff

unfoldable pub bits_are_known_zero : Consts → ℕ → ℕ → Bool
unfolding lnot any_bit
bits_are_known_zero v reg mask =
    not (any_bit (lnot (v reg).known) mask) && not (any_bit (v reg).value mask)

unfoldable pub is_known_zero : Consts → ℕ → Bool
unfolding bits_are_known_zero
is_known_zero v reg = bits_are_known_zero v reg 0xffffffff

-- `GENMASK(31, l)` and `GENMASK(h, l)`: the bits from `l` to `h`.
unfoldable pub genmask : ℕ → ℕ → ℕ
genmask h l = 2 ^ (h + 1) - 2 ^ l

-- `32 - clz32(x)` for a nonzero `x`: one more than its highest bit, looked for below `n`.
unfoldable pub bit_length : ℕ → ℕ → ℕ
unfolding bit
bit_length zero x = 0
bit_length (suc n) x = if bit x n == 1 then suc n else bit_length n x

-- `ctz32(x)` for a nonzero `x`: its lowest bit, from bit `i` on, in `n` steps.
unfoldable pub lowest_bit : ℕ → ℕ → ℕ → ℕ
unfolding bit
lowest_bit zero i x = i
lowest_bit (suc n) i x = if bit x i == 1 then i else lowest_bit n (i + 1) x

-- The smallest value as an `s32`: sign bits 1, unknown bits but the top one 0.
unfoldable pub get_min_value : ConstpropData → ℕ
unfolding lnot
get_min_value d =
    bit_or (bit_or (bit_and d.value d.known) d.sign) (bit_and (lnot d.known) 0x80000000)

-- The largest: sign bits 0, unknown bits 1.
unfoldable pub get_max_value : ConstpropData → ℕ
unfolding lnot
get_max_value d = bit_and (bit_or (bit_and d.value d.known) (lnot d.known)) (lnot d.sign)

-- Nonzero when every sum of extreme values has the same sign.
unfoldable pub lightrec_same_sign : ConstpropData → ConstpropData → Bool
unfolding get_min_value get_max_value add32 any_bit lnot
lightrec_same_sign d e =
    let min1 = get_min_value d in
    let max1 = get_max_value d in
    let min2 = get_min_value e in
    let max2 = get_max_value e in
    let p = add32 min1 min2 in
    let q = add32 min1 max2 in
    let r = add32 max1 min2 in
    let s = add32 max1 max2 in
    any_bit
      (bit_or (bit_and (bit_and p q) (bit_and r s))
        (bit_and (bit_and (lnot p) (lnot q)) (bit_and (lnot r) (lnot s))))
      0x80000000

unfoldable pub lightrec_get_sign_mask : ConstpropData → ℕ
unfolding lnot any_bit genmask bit_length
lightrec_get_sign_mask d =
    let imm = if any_bit d.value 0x80000000 then d.value else lnot d.value in
    let rest = lnot (bit_and imm d.known) in
    let len = if rest == 0 then 0 else bit_length 32 rest in
    if d.sign == 0 then (if len == 32 then 0 else genmask 31 len) else d.sign
