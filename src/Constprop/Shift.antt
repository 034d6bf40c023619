-- ===== src/Constprop/Shift.antt =====
-- constprop.c: what each case of the switch computes from the entries of the operands.
use lightrec.Base.{
  ℕ, ◌-◌, ◌*◌, ◌^◌, ◌==◌, if◌then◌else◌, Bool, bit_and, bit_or, bit_xor, any_bit, lnot, shl, shr,
  sra, sext8, sext16,
}
use lightrec.Constprop.Data.{ConstpropData, forget}

unfoldable pub sll_consts : ℕ → ConstpropData → ConstpropData
unfolding shl
sll_consts k t = record {
  value = shl t.value k;
  known = bit_or (shl t.known k) (2 ^ k - 1);
  sign = shl t.sign k;
}

unfoldable pub srl_known : ℕ → ConstpropData → ℕ
unfolding shr shl
srl_known k t = bit_or (shr t.known k) (shl (2 ^ k - 1) (32 - k))

unfoldable pub srl_consts : ℕ → ConstpropData → ConstpropData
unfolding shr srl_known
srl_consts k t = record {
  value = shr t.value k;
  known = srl_known k t;
  sign = if k == 0 then t.sign else 0;
}

unfoldable pub sra_consts : ℕ → ConstpropData → ConstpropData
unfolding sra lnot
sra_consts k t = record {
  value = sra t.value k;
  known = sra t.known k;
  sign = sra (bit_or t.sign (bit_and (lnot t.known) 0x80000000)) k;
}

-- The shifts by a register: `s` is the amount, `old` the entry of the target.
unfoldable pub amount_is_known : ConstpropData → Bool
amount_is_known s = bit_and s.known 0x1f == 0x1f

unfoldable pub sllv_consts : ConstpropData → ConstpropData → ConstpropData → ConstpropData
unfolding amount_is_known sll_consts
sllv_consts s t old = if amount_is_known s then sll_consts (bit_and s.value 0x1f) t else forget old

-- With an amount of zero the old `sign` stays.
unfoldable pub srlv_consts : ConstpropData → ConstpropData → ConstpropData → ConstpropData
unfolding amount_is_known shr srl_known
srlv_consts s t old =
    let k = bit_and s.value 0x1f in
    if amount_is_known s
    then record {
      value = shr t.value k;
      known = srl_known k t;
      sign = if k == 0 then old.sign else 0;
    }
    else forget old

unfoldable pub srav_consts : ConstpropData → ConstpropData → ConstpropData → ConstpropData
unfolding amount_is_known sra_consts
srav_consts s t old = if amount_is_known s then sra_consts (bit_and s.value 0x1f) t else forget old

unfoldable pub and_consts : ConstpropData → ConstpropData → ConstpropData
unfolding lnot
and_consts t s =
    let known =
      bit_or (bit_or (bit_and t.known s.known) (bit_and (lnot t.value) t.known))
        (bit_and (lnot s.value) s.known) in
    record {
      value = bit_and (bit_and t.value s.value) known;
      known = known;
      sign = bit_and t.sign s.sign;
    }

unfoldable pub or_known : ConstpropData → ConstpropData → ℕ
or_known t s =
    bit_or (bit_or (bit_and t.known s.known) (bit_and t.value t.known)) (bit_and s.value s.known)

unfoldable pub or_consts : ConstpropData → ConstpropData → ConstpropData
unfolding or_known
or_consts t s = record {
  value = bit_and (bit_or t.value s.value) (or_known t s);
  known = or_known t s;
  sign = bit_and t.sign s.sign;
}

unfoldable pub xor_consts : ConstpropData → ConstpropData → ConstpropData
xor_consts t s = record {
  value = bit_xor t.value s.value;
  known = bit_and t.known s.known;
  sign = bit_and t.sign s.sign;
}

unfoldable pub nor_consts : ConstpropData → ConstpropData → ConstpropData
unfolding or_known lnot
nor_consts t s = record {
  value = bit_and (lnot (bit_or t.value s.value)) (or_known t s);
  known = or_known t s;
  sign = bit_and t.sign s.sign;
}

unfoldable pub andi_consts : ℕ → ConstpropData → ConstpropData
unfolding lnot
andi_consts imm s = record {
  value = bit_and s.value imm;
  known = bit_or s.known (lnot imm);
  sign = 0;
}

-- The sign bits that an immediate of 16 bits leaves alone.
unfoldable pub upper_sign : ConstpropData → ℕ
unfolding any_bit
upper_sign s = if any_bit s.sign 0xffff then 0xffff0000 else s.sign

unfoldable pub ori_consts : ℕ → ConstpropData → ConstpropData
unfolding upper_sign
ori_consts imm s = record {
  value = bit_or s.value imm;
  known = bit_or s.known imm;
  sign = upper_sign s;
}

unfoldable pub xori_consts : ℕ → ConstpropData → ConstpropData
unfolding upper_sign
xori_consts imm s = record { value = bit_xor s.value imm; known = s.known; sign = upper_sign s }

unfoldable pub extc_consts : ConstpropData → ConstpropData
unfolding sext8 any_bit
extc_consts s =
    if any_bit s.known 0x80
    then record { value = sext8 s.value; known = bit_or s.known 0xffffff00; sign = 0 }
    else record { value = sext8 s.value; known = bit_and s.known 0x7f; sign = 0xffffff80 }

unfoldable pub exts_consts : ConstpropData → ConstpropData
unfolding sext16 any_bit
exts_consts s =
    if any_bit s.known 0x8000
    then record { value = sext16 s.value; known = bit_or s.known 0xffff0000; sign = 0 }
    else record { value = sext16 s.value; known = bit_and s.known 0x7fff; sign = 0xffff8000 }

unfoldable pub com_consts : ConstpropData → ConstpropData
unfolding lnot
com_consts s = record { value = lnot s.value; known = s.known; sign = s.sign }

-- `OP_LWL` and `OP_LWR`, from the entry of the base register.
unfoldable pub lwl_consts : ConstpropData → ConstpropData → ConstpropData
unfolding lnot
lwl_consts s old =
    let imm = 2 ^ (24 - bit_and s.value 0x3 * 8) - 1 in
    record old { known = bit_and old.known imm; sign = bit_and old.sign (lnot imm) }

unfoldable pub lwr_consts : ConstpropData → ConstpropData → ConstpropData
lwr_consts s old =
    let imm = bit_and s.value 0x3 * 8 in
    let mask = if imm == 0 then 0 else 2 ^ 32 - 2 ^ (32 - imm) in
    record old { known = bit_and old.known mask; sign = 0 }
