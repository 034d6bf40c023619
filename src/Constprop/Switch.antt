-- ===== src/Constprop/Switch.antt =====
-- constprop.c: the switch of `lightrec_consts_propagate` over the opcode just run.
use lightrec.Base.{
  ℕ, ◌+◌, ◌-◌, ◌*◌, ◌%◌, ◌==◌, if◌then◌else◌, ltb, Bool, true, false, ◌||◌, bit_and, any_bit, shl,
  shr, sra, sext16, add32,
}
use lightrec.Isa.{
  Code, Standard, Special, Cp0, Cp2Basic, Meta, rs, rt, rd, r_imm, r_op, i_imm, special_of, cp0_of,
  cp2_basic_of, meta_of,
}
use lightrec.Constprop.Data.{ConstpropData, Consts, set_const, constant, forget, is_known_zero}
use lightrec.Constprop.Add.{lightrec_propagate_addi, lightrec_propagate_sub}
use lightrec.Constprop.Compare.{lightrec_propagate_slt}
use lightrec.Constprop.Shift.{
  sll_consts, srl_consts, sra_consts, sllv_consts, srlv_consts, srav_consts, and_consts, or_consts,
  xor_consts, nor_consts, andi_consts, ori_consts, xori_consts, extc_consts, exts_consts,
  com_consts, lwl_consts, lwr_consts,
}

-- `&v[rt]` as `lightrec_propagate_addi` sees it, once it has cleared the unknown bits of `v[rs]`.
unfoldable pub addend : ℕ → ℕ → Consts → ConstpropData
addend rs rt v =
    if rs == rt then record (v rt) { value = bit_and (v rt).value (v rt).known } else v rt

unfoldable pub add_case : ℕ → ℕ → ℕ → Consts → Consts
unfolding is_known_zero set_const lightrec_propagate_addi addend
add_case rs rt rd v =
    if is_known_zero v rs
    then set_const rd (v rt) v
    else if is_known_zero v rt
    then set_const rd (v rs) v
    else lightrec_propagate_addi rs rd (addend rs rt v) v

unfoldable pub sub_case : ℕ → ℕ → ℕ → Consts → Consts
unfolding set_const lightrec_propagate_sub
sub_case rs rt rd v =
    if rs == rt then set_const rd (constant 0) v else lightrec_propagate_sub rs rt rd v

unfoldable pub addi_case : Code → Consts → Consts
unfolding set_const lightrec_propagate_addi sext16
addi_case c v =
    if i_imm c == 0
    then set_const (rt c) (v (rs c)) v
    else lightrec_propagate_addi (rs c) (rt c) (constant (sext16 (i_imm c))) v

-- The two targets of a multiplication or division that the optimiser gave registers.
unfoldable pub forget_mult_div : Code → Consts → Consts
unfolding set_const
forget_mult_div c v =
    let w = if rd c == 0 then v else set_const (rd c) (forget (v (rd c))) v in
    if r_imm c == 0 then w else set_const (r_imm c) (forget (w (r_imm c))) w

-- The address after the delay slot, from the index of the next opcode.
unfoldable pub link_value : ℕ → ℕ → ℕ
unfolding add32
link_value pc idx = add32 pc ((idx + 2) * 4)

unfoldable pub special_case : Special → ℕ → ℕ → Code → Consts → Consts
unfolding set_const add_case sub_case forget_mult_div link_value lightrec_propagate_slt
special_case Special.sll pc idx c v = set_const (rd c) (sll_consts (r_imm c) (v (rt c))) v
special_case Special.srl pc idx c v = set_const (rd c) (srl_consts (r_imm c) (v (rt c))) v
special_case Special.sra pc idx c v = set_const (rd c) (sra_consts (r_imm c) (v (rt c))) v
special_case Special.sllv pc idx c v =
    set_const (rd c) (sllv_consts (v (rs c)) (v (rt c)) (v (rd c))) v
special_case Special.srlv pc idx c v =
    set_const (rd c) (srlv_consts (v (rs c)) (v (rt c)) (v (rd c))) v
special_case Special.srav pc idx c v =
    set_const (rd c) (srav_consts (v (rs c)) (v (rt c)) (v (rd c))) v
special_case Special.add pc idx c v = add_case (rs c) (rt c) (rd c) v
special_case Special.addu pc idx c v = add_case (rs c) (rt c) (rd c) v
special_case Special.sub pc idx c v = sub_case (rs c) (rt c) (rd c) v
special_case Special.subu pc idx c v = sub_case (rs c) (rt c) (rd c) v
special_case Special.and pc idx c v = set_const (rd c) (and_consts (v (rt c)) (v (rs c))) v
special_case Special.or pc idx c v = set_const (rd c) (or_consts (v (rt c)) (v (rs c))) v
special_case Special.xor pc idx c v = set_const (rd c) (xor_consts (v (rt c)) (v (rs c))) v
special_case Special.nor pc idx c v = set_const (rd c) (nor_consts (v (rt c)) (v (rs c))) v
special_case Special.slt pc idx c v = lightrec_propagate_slt (rs c) (rd c) true (v (rt c)) v
special_case Special.sltu pc idx c v = lightrec_propagate_slt (rs c) (rd c) false (v (rt c)) v
special_case Special.mult pc idx c v = forget_mult_div c v
special_case Special.multu pc idx c v = forget_mult_div c v
special_case Special.div pc idx c v = forget_mult_div c v
special_case Special.divu pc idx c v = forget_mult_div c v
special_case Special.mflo pc idx c v = set_const (rd c) (forget (v (rd c))) v
special_case Special.mfhi pc idx c v = set_const (rd c) (forget (v (rd c))) v
special_case Special.jalr pc idx c v = set_const (rd c) (constant (link_value pc idx)) v
special_case _ pc idx c v = v

-- The low half of a multiplication by 2 ^ k, and the high half read from the array that the low
-- half has been written to.
unfoldable pub mult2_lo_consts : ℕ → ConstpropData → ConstpropData
unfolding sll_consts
mult2_lo_consts k s = if ltb k 32 then sll_consts k s else constant 0

-- The C shifts by 32 - k, which is undefined for k = 0: on the hosts that mask the amount the shift
-- is then by 0.
unfoldable pub mult2_hi_consts : Bool → ℕ → ConstpropData → ConstpropData
unfolding sll_consts shr sra
mult2_hi_consts signed k s =
    if ltb k 32
    then (let amount = (32 - k) % 32 in
        if signed
        then record {
          value = sra s.value amount;
          known = sra s.known amount;
          sign = sra s.sign amount;
        }
        else record {
          value = shr s.value amount;
          known = shr s.known amount;
          sign = shr s.sign amount;
        })
    else sll_consts (k - 32) s

unfoldable pub mult2_case : Bool → Code → Consts → Consts
unfolding set_const mult2_lo_consts mult2_hi_consts
mult2_case signed c v =
    let w = if rd c == 0 then v else set_const (rd c) (mult2_lo_consts (r_op c) (v (rs c))) v in
    if r_imm c == 0 then w else set_const (r_imm c) (mult2_hi_consts signed (r_op c) (w (rs c))) w

unfoldable pub cp0_case : Cp0 → Code → Consts → Consts
unfolding set_const
cp0_case Cp0.mfc0 c v = set_const (rt c) (forget (v (rt c))) v
cp0_case Cp0.cfc0 c v = set_const (rt c) (forget (v (rt c))) v
cp0_case _ c v = v

abbrev signed_16 : ConstpropData → ConstpropData
signed_16 d = record d { known = 0; sign = 0xffff8000 }

abbrev unsigned_16 : ConstpropData
unsigned_16 = record { value = 0; known = 0xffff0000; sign = 0 }

-- The GTE data registers of 16 bits.
unfoldable pub mfc2_consts : ℕ → ConstpropData → ConstpropData
mfc2_consts r d =
    if r == 1 || r == 3 || r == 5 || r == 8 || r == 9 || r == 10 || r == 11
    then signed_16 d
    else if r == 7 || r == 16 || r == 17 || r == 18 || r == 19
    then unsigned_16
    else forget d

unfoldable pub cfc2_consts : ℕ → ConstpropData → ConstpropData
cfc2_consts r d =
    if r == 4 || r == 12 || r == 20 || r == 26 || r == 27 || r == 29 || r == 30
    then signed_16 d
    else forget d

unfoldable pub cp2_case : Cp2Basic → Code → Consts → Consts
unfolding set_const mfc2_consts cfc2_consts
cp2_case Cp2Basic.mfc2 c v = set_const (rt c) (mfc2_consts (rd c) (v (rt c))) v
cp2_case Cp2Basic.cfc2 c v = set_const (rt c) (cfc2_consts (rd c) (v (rt c))) v
cp2_case _ c v = v

unfoldable pub meta_case : Meta → Code → Consts → Consts
unfolding set_const
meta_case Meta.mov c v = set_const (rd c) (v (rs c)) v
meta_case Meta.extc c v = set_const (rd c) (extc_consts (v (rs c))) v
meta_case Meta.exts c v = set_const (rd c) (exts_consts (v (rs c))) v
meta_case Meta.complement c v = set_const (rd c) (com_consts (v (rs c))) v
meta_case Meta.unknown c v = v

-- An unaligned load keeps part of the register if a low bit of the base is known.
unfoldable pub unaligned_case :
    (ConstpropData → ConstpropData → ConstpropData) → Code → Consts → Consts
unfolding set_const any_bit
unaligned_case keep c v =
    if any_bit (v (rs c)).known 0x3
    then set_const (rt c) (keep (v (rs c)) (v (rt c))) v
    else set_const (rt c) (forget (v (rt c))) v

unfoldable pub standard_case : Standard → ℕ → ℕ → Code → Consts → Consts
unfolding set_const special_case mult2_case addi_case lightrec_propagate_slt cp0_case cp2_case
    meta_case unaligned_case link_value shl sext16
standard_case Standard.special pc idx c v = special_case (special_of c) pc idx c v
standard_case Standard.meta_mult2 pc idx c v = mult2_case true c v
standard_case Standard.meta_multu2 pc idx c v = mult2_case false c v
standard_case Standard.addi pc idx c v = addi_case c v
standard_case Standard.addiu pc idx c v = addi_case c v
standard_case Standard.slti pc idx c v =
    lightrec_propagate_slt (rs c) (rt c) true (constant (sext16 (i_imm c))) v
standard_case Standard.sltiu pc idx c v =
    lightrec_propagate_slt (rs c) (rt c) false (constant (sext16 (i_imm c))) v
standard_case Standard.andi pc idx c v = set_const (rt c) (andi_consts (i_imm c) (v (rs c))) v
standard_case Standard.ori pc idx c v = set_const (rt c) (ori_consts (i_imm c) (v (rs c))) v
standard_case Standard.xori pc idx c v = set_const (rt c) (xori_consts (i_imm c) (v (rs c))) v
standard_case Standard.lui pc idx c v = set_const (rt c) (constant (shl (i_imm c) 16)) v
standard_case Standard.cp0 pc idx c v = cp0_case (cp0_of c) c v
standard_case Standard.cp2 pc idx c v = if r_op c == 0 then cp2_case (cp2_basic_of c) c v else v
standard_case Standard.lb pc idx c v =
    set_const (rt c) (record (v (rt c)) { known = 0; sign = 0xffffff80 }) v
standard_case Standard.lh pc idx c v = set_const (rt c) (signed_16 (v (rt c))) v
standard_case Standard.lbu pc idx c v =
    set_const (rt c) (record { value = 0; known = 0xffffff00; sign = 0 }) v
standard_case Standard.lhu pc idx c v = set_const (rt c) unsigned_16 v
standard_case Standard.lwl pc idx c v = unaligned_case lwl_consts c v
standard_case Standard.lwr pc idx c v = unaligned_case lwr_consts c v
standard_case Standard.lw pc idx c v = set_const (rt c) (forget (v (rt c))) v
standard_case Standard.meta_lwu pc idx c v = set_const (rt c) (forget (v (rt c))) v
standard_case Standard.meta pc idx c v = meta_case (meta_of c) c v
standard_case Standard.jal pc idx c v = set_const 31 (constant (link_value pc idx)) v
standard_case _ pc idx c v = v
