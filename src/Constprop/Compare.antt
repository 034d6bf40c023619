-- ===== src/Constprop/Compare.antt =====
-- constprop.c: `lightrec_propagate_slt`.
use lightrec.Base.{
  ℕ, zero, suc, ◌^◌, if◌then◌else◌, Bool, not, ◌&&◌, bit_and, bit_xor, any_bit, lnot, shr,
}
use lightrec.Constprop.Data.{ConstpropData, Consts, set_const, constant}

-- Bits 0 to `n - 1` are left to compare, from the top down.
unfoldable pub slt_loop : ℕ → ConstpropData → ConstpropData → ConstpropData
unfolding any_bit lnot
slt_loop zero s d = constant 0
slt_loop (suc n) s d =
    let rest = slt_loop n s d in
    if not (any_bit (bit_and s.known d.known) (2 ^ n))
    then record { value = 0; known = 0xfffffffe; sign = 0 }
    else if any_bit (lnot (bit_xor s.value d.value)) (2 ^ n)
    then rest
    else constant (if any_bit s.value (2 ^ n) then 0 else 1)

unfoldable pub slt_consts : Bool → ConstpropData → ConstpropData → ConstpropData
unfolding any_bit shr slt_loop
slt_consts is_signed s d =
    if is_signed && any_bit (bit_and (bit_and s.known d.known) (bit_xor s.value d.value)) 0x80000000
    then constant (shr s.value 31)
    else slt_loop 32 s d

unfoldable pub lightrec_propagate_slt : ℕ → ℕ → Bool → ConstpropData → Consts → Consts
unfolding slt_consts set_const
lightrec_propagate_slt rs rd is_signed d v = set_const rd (slt_consts is_signed (v rs) d) v
