-- ===== src/Constprop/Add.antt =====
-- constprop.c: `lightrec_propagate_addi` and `lightrec_propagate_sub`.
use lightrec.Base.{
  ℕ, zero, suc, ◌+◌, ◌%◌, ◌^◌, ◌==◌, if◌then◌else◌, ltb, leb, Bool, false, not, ◌&&◌, bit_and,
  bit_or, any_bit, lnot, shl, add32, is_neg,
}
use lightrec.Constprop.Data.{ConstpropData, Consts, set_const, genmask, bit_length, lowest_bit}
use lightrec.Constprop.Data.{
  get_min_value, get_max_value, lightrec_same_sign, lightrec_get_sign_mask,
}

-- `result` with the bits of `mask` no longer known, nor known to copy the sign.
unfoldable pub clear_bits : ℕ → ConstpropData → ConstpropData
unfolding lnot
clear_bits mask d = record d {
  known = bit_and d.known (lnot mask);
  sign = bit_and d.sign (lnot mask);
}

-- A known bit of the sum, and the carry out of it.
unfoldable pub known_sum : ℕ → Bool → ℕ → ℕ → ℕ
known_sum bit carry x y =
    ((if carry then 2 ^ bit else 0) + bit_and x (2 ^ bit) + bit_and y (2 ^ bit)) % 2 ^ 32

unfoldable pub set_sum_bit : ℕ → ℕ → ConstpropData → ConstpropData
unfolding any_bit lnot
set_sum_bit bit sum d = record d {
  value =
      if any_bit sum (2 ^ bit) then bit_or d.value (2 ^ bit) else bit_and d.value (lnot (2 ^ bit));
  known = bit_or d.known (2 ^ bit);
  sign = bit_and d.sign (lnot (2 ^ bit));
}

-- Past the last significant bit, at a copy of the sign.
unfoldable pub extend_sign :
    ℕ → Bool → ConstpropData → ConstpropData → ConstpropData → ConstpropData
unfolding genmask lightrec_same_sign get_min_value get_max_value add32 is_neg lnot shl
extend_sign bit carry s d result =
    let mask = genmask 31 bit in
    let low = add32 (get_min_value s) (get_min_value d) in
    let high = add32 (get_max_value s) (get_max_value d) in
    let kept =
      if is_neg low
      then bit_and mask (bit_and low high)
      else bit_and mask (lnot (bit_or low mask)) in
    if lightrec_same_sign s d
    then record {
      value = bit_or (bit_and low kept) (bit_and result.value (lnot kept));
      known = bit_or result.known (shl kept (if carry then 1 else 0));
      sign = 0;
    }
    else record result { sign = shl mask 1; known = bit_and result.known (lnot mask) }

-- The last bit of the run that an unknown sum spoils, from `bit` on.
unfoldable pub spoiled_to : ℕ → ConstpropData → ℕ → ConstpropData → ℕ
unfolding genmask lowest_bit lnot
spoiled_to bit s value d =
    let zeros = bit_and (bit_and s.known d.known) (bit_and (lnot s.value) (lnot value)) in
    let stops = bit_and (bit_or (bit_or zeros s.sign) d.sign) (genmask 31 bit) in
    if stops == 0 then 31 else lowest_bit 32 0 stops

-- The loop over the bits; `s` is `v[rs]` with its unknown bits cleared, `value` is `d->value`
-- likewise. Every round goes up by a bit at least, so 32 rounds are enough.
unfoldable pub addi_loop :
    ℕ → ℕ → Bool → ℕ → ConstpropData → ℕ → ConstpropData → ConstpropData → ConstpropData
unfolding any_bit known_sum set_sum_bit extend_sign clear_bits genmask spoiled_to lnot
addi_loop zero bit carry end s value d result = result
addi_loop (suc fuel) bit carry end s value d result =
    let sum = known_sum bit carry s.value value in
    let go_known =
      addi_loop fuel (bit + 1) (any_bit sum (2 ^ (bit + 1))) end s value d
        (set_sum_bit bit sum result) in
    let cleared = clear_bits (2 ^ bit) result in
    let go_no_carry = addi_loop fuel (bit + 1) false end s value d cleared in
    let last = spoiled_to bit s value d in
    let go_spoiled =
      addi_loop fuel (last + 1) false end s value d (clear_bits (genmask last bit) cleared) in
    let zero_bit =
      any_bit (bit_or (bit_and d.known (lnot value)) (bit_and s.known (lnot s.value))) (2 ^ bit) in
    let rest = if not carry && zero_bit then go_no_carry else go_spoiled in
    if ltb 31 bit
    then result
    else if any_bit (bit_and s.known d.known) (2 ^ bit)
    then go_known
    else if leb end bit && any_bit (bit_or s.sign d.sign) (2 ^ bit)
    then extend_sign bit carry s d result
    else if leb end bit && not carry
    then result
    else rest

unfoldable pub lightrec_propagate_addi : ℕ → ℕ → ConstpropData → Consts → Consts
unfolding set_const lightrec_get_sign_mask bit_length addi_loop lnot
lightrec_propagate_addi rs rd d v =
    let s = record (v rs) { value = bit_and (v rs).value (v rs).known } in
    let mask = lnot (bit_and (lightrec_get_sign_mask d) (lightrec_get_sign_mask s)) in
    let end = if mask == 0 then 0 else bit_length 32 mask in
    set_const rd (addi_loop 32 0 false end s (bit_and d.value d.known) d (v rd)) (set_const rs s v)

-- The loop that negates: `d` starts as the complement of `v[rt]`.
unfoldable pub negate_loop : ℕ → ℕ → ConstpropData → ConstpropData
unfolding any_bit lnot genmask lowest_bit clear_bits
negate_loop zero bit d = d
negate_loop (suc n) bit d =
    let more = negate_loop n (bit + 1) (record d { value = bit_and d.value (lnot (2 ^ bit)) }) in
    let stops = bit_and (bit_or (bit_and d.known (lnot d.value)) d.sign) (genmask 31 bit) in
    let last = if stops == 0 then 31 else lowest_bit 32 0 stops in
    if not (any_bit d.known (2 ^ bit))
    then clear_bits (genmask last bit) d
    else if not (any_bit d.value (2 ^ bit))
    then record d { value = bit_or d.value (2 ^ bit) }
    else more

unfoldable pub lightrec_propagate_sub : ℕ → ℕ → ℕ → Consts → Consts
unfolding negate_loop lightrec_propagate_addi lnot
lightrec_propagate_sub rs rt rd v =
    lightrec_propagate_addi rs rd (negate_loop 32 0 (record (v rt) { value = lnot (v rt).value })) v
