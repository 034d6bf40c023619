-- ===== src/Passes/Simplify.antt =====
-- optimizer.c: the cases of `lightrec_transform_ops` that rewrite one opcode by what is known of its
-- registers.
use lightrec.Base.{
  ℕ, zero, suc, ◌+◌, ◌==◌, Bool, true, false, not, xor, ◌&&◌, ◌||◌, if◌then◌else◌, bit_and, bit_xor,
  any_bit, lnot,
}
use lightrec.Base.Bits.{bit}
use lightrec.Isa.{
  Code, Standard, Special, Regimm, rs, rt, r_imm, i_imm, regimm_of, set_i_op, set_rs, set_rt,
  set_rd, set_r_imm, set_r_op, set_m_op,
}
use lightrec.Constprop.Data.{Consts, is_known, bits_are_known_zero, lowest_bit}

-- The opcode that replaces another, or none for a branch that is nullified.
pub data Rewrite : Type 0 where
  replace : Code → Rewrite
  nullify : Rewrite

-- `rs = 0; rt = 0` under `OP_BEQ`.
unfoldable pub always_taken : Code → Code
unfolding set_i_op set_rs set_rt
always_taken c = set_rt 0 (set_rs 0 (set_i_op 0x04 c))

-- `else if (op->i.rs == 0) ...`: the register goes first.
unfoldable pub zero_last : Code → Code
unfolding set_rs set_rt
zero_last c = if rs c == 0 then set_rt 0 (set_rs (rt c) c) else c

-- The two values are known, and equal.
unfoldable pub known_equal : Consts → Code → Bool
unfolding is_known
known_equal v c = is_known v (rs c) && is_known v (rt c) && (v (rs c)).value == (v (rt c)).value

-- The two values differ at a bit that is known of both.
unfoldable pub known_different : Consts → Code → Bool
unfolding any_bit
known_different v c =
    any_bit (bit_and (v (rs c)).known (v (rt c)).known) (bit_xor (v (rs c)).value (v (rt c)).value)

unfoldable pub top_known : Consts → Code → Bool
unfolding any_bit
top_known v c = any_bit (v (rs c)).known 0x80000000

unfoldable pub top_value : Consts → Code → Bool
unfolding any_bit
top_value v c = any_bit (v (rs c)).value 0x80000000

unfoldable pub simplify_beq : Consts → Code → Rewrite
unfolding known_equal known_different always_taken zero_last
simplify_beq v c =
    if rs c == rt c || known_equal v c
    then replace (always_taken c)
    else if known_different v c
    then nullify
    else replace (zero_last c)

unfoldable pub simplify_bne : Consts → Code → Rewrite
unfolding known_equal known_different always_taken zero_last
simplify_bne v c =
    if known_different v c
    then replace (always_taken c)
    else if known_equal v c
    then nullify
    else replace (zero_last c)

unfoldable pub simplify_blez : Consts → Code → Rewrite
unfolding top_known top_value always_taken
simplify_blez v c = if top_known v c && top_value v c then replace (always_taken c) else replace c

unfoldable pub simplify_bgtz : Consts → Code → Rewrite
unfolding top_known top_value
simplify_bgtz v c = if top_known v c && top_value v c then nullify else replace c

unfoldable pub simplify_sign : Bool → Consts → Code → Rewrite
unfolding top_known top_value always_taken
simplify_sign bgez v c =
    if not (top_known v c)
    then replace c
    else if xor (top_value v c) bgez
    then replace (always_taken c)
    else nullify

unfoldable pub simplify_regimm : Regimm → Consts → Code → Rewrite
unfolding simplify_sign
simplify_regimm Regimm.bltz v c = simplify_sign false v c
simplify_regimm Regimm.bgez v c = simplify_sign true v c
simplify_regimm _ v c = replace c

-- The conditional branches.
unfoldable pub simplify_branch : Standard → Consts → Code → Rewrite
unfolding simplify_beq simplify_bne simplify_blez simplify_bgtz simplify_regimm
simplify_branch Standard.beq v c = simplify_beq v c
simplify_branch Standard.bne v c = simplify_bne v c
simplify_branch Standard.blez v c = simplify_blez v c
simplify_branch Standard.bgtz v c = simplify_bgtz v c
simplify_branch Standard.regimm v c = simplify_regimm (regimm_of c) v c
simplify_branch _ v c = replace c

-- `OP_META_MOV` from `rs`, and from `rt`, to `rd`.
unfoldable pub to_mov : Code → Code
unfolding set_i_op set_m_op
to_mov c = set_i_op 0x3c (set_m_op 0x00 c)

unfoldable pub to_mov_rt : Code → Code
unfolding to_mov set_rs
to_mov_rt c = to_mov (set_rs (rt c) c)

-- ORI, ADDI and ADDIU.
unfoldable pub simplify_add_imm : Code → Code
unfolding to_mov set_rd
simplify_add_imm c = if i_imm c == 0 then to_mov (set_rd (rt c) c) else c

unfoldable pub simplify_andi : Consts → Code → Code
unfolding bits_are_known_zero to_mov set_rd lnot
simplify_andi v c =
    if bits_are_known_zero v (rs c) (lnot (i_imm c))
    then if rs c == rt c then 0 else to_mov (set_rd (rt c) c)
    else c

-- A shift by an immediate of 0.
unfoldable pub simplify_shift : Code → Code
unfolding to_mov_rt
simplify_shift c = if r_imm c == 0 then to_mov_rt c else c

-- SLLV, SRLV and SRAV, `op` being the opcode with an immediate.
unfoldable pub simplify_shift_by : ℕ → Consts → Code → Code
unfolding simplify_shift set_r_imm set_r_op
simplify_shift_by op v c =
    if bit_and (v (rs c)).known 0x1f == 0x1f
    then simplify_shift (set_r_op op (set_r_imm (bit_and (v (rs c)).value 0x1f) c))
    else c

-- `popcount32` is a builtin of the compiler: the number of bits set, here below bit `n`.
unfoldable pub popcount : ℕ → ℕ → ℕ
unfolding bit
popcount zero x = 0
popcount (suc n) x = bit x n + popcount n x

unfoldable pub is_power_of_two : ℕ → Bool
unfolding popcount
is_power_of_two value = popcount 32 value == 1

unfoldable pub swap_operands : Code → Code
unfolding set_rs set_rt
swap_operands c = set_rt (rs c) (set_rs (rt c) c)

-- A multiplication by the power of two in `rt`: `meta` is `OP_META_MULT2` or `OP_META_MULTU2`.
unfoldable pub to_mult2 : ℕ → Consts → Code → Code
unfolding set_r_op set_i_op lowest_bit
to_mult2 meta v c = set_r_op (lowest_bit 32 0 (v (rt c)).value) (set_i_op meta c)

unfoldable pub simplify_mult : ℕ → Consts → Code → Code
unfolding is_known is_power_of_two swap_operands to_mult2
simplify_mult meta v c =
    if is_known v (rs c) && is_power_of_two (v (rs c)).value
    then to_mult2 meta v (swap_operands c)
    else if not (is_known v (rt c)) || not (is_power_of_two (v (rt c)).value)
    then c
    else to_mult2 meta v c

unfoldable pub simplify_nor : Code → Code
unfolding set_i_op set_m_op set_rs
simplify_nor c =
    let inverted = set_m_op 0x03 (set_i_op 0x3c c) in
    if rs c == 0 || rt c == 0 then (if rs c == 0 then set_rs (rt c) inverted else inverted) else c

-- `if (op->r.rt == 0)` of SUB and SUBU, which OR, ADD and ADDU fall through to.
unfoldable pub simplify_sub : Code → Code
unfolding to_mov
simplify_sub c = if rt c == 0 then to_mov c else c

unfoldable pub simplify_add : Code → Code
unfolding to_mov_rt simplify_sub
simplify_add c = simplify_sub (if rs c == 0 then to_mov_rt c else c)

-- `OP_SPECIAL`, without the search for a cast that follows SLL and SLLV.
unfoldable pub simplify_special : Special → Consts → Code → Code
unfolding simplify_shift simplify_shift_by simplify_mult simplify_nor simplify_add simplify_sub
simplify_special Special.srav v c = simplify_shift_by 0x03 v c
simplify_special Special.sra v c = simplify_shift c
simplify_special Special.sllv v c = simplify_shift_by 0x00 v c
simplify_special Special.sll v c = simplify_shift c
simplify_special Special.srlv v c = simplify_shift_by 0x02 v c
simplify_special Special.srl v c = simplify_shift c
simplify_special Special.mult v c = simplify_mult 0x19 v c
simplify_special Special.multu v c = simplify_mult 0x1a v c
simplify_special Special.nor v c = simplify_nor c
simplify_special Special.or v c = simplify_add c
simplify_special Special.add v c = simplify_add c
simplify_special Special.addu v c = simplify_add c
simplify_special Special.sub v c = simplify_sub c
simplify_special Special.subu v c = simplify_sub c
simplify_special _ v c = c
