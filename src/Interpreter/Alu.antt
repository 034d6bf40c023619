-- ===== src/Interpreter/Alu.antt =====
-- interpreter.c: what each register-to-register handler does to `reg_cache` before its tail call of
-- `jump_next`. A handler whose C code is undefined on an input has no result there.
use lightrec.Base.{
  ℕ, ◌+◌, ◌-◌, ◌*◌, ◌/◌, ◌%◌, ◌^◌, ◌==◌, if◌then◌else◌, bit_and, bit_or, bit_xor, Bool, ◌&&◌, ltb,
  Option, none, some, add32, sub32, lnot, shl, shr, sra, slt32, sext16, sext8, is_neg, xor,
}
use lightrec.Isa.{Opcode, Code, rs, rt, rd, r_imm, r_op, i_imm, op_flag_no_lo, op_flag_no_hi}
use lightrec.Optimizer.{reg_lo, reg_hi}
use lightrec.Interpreter.Regs.{Gpr, set_reg, set_reg_nonzero}

-- A comparison stored in a `u32`.
abbrev pub bool_word : Bool → ℕ
bool_word b = if b then 1 else 0

unfoldable pub int_addi : Opcode → Gpr → Gpr
unfolding set_reg_nonzero add32 sext16
int_addi op g = set_reg_nonzero (rt op.c) (add32 (g (rs op.c)) (sext16 (i_imm op.c))) g

unfoldable pub int_slti : Opcode → Gpr → Gpr
unfolding set_reg_nonzero slt32 sext16
int_slti op g = set_reg_nonzero (rt op.c) (bool_word (slt32 (g (rs op.c)) (sext16 (i_imm op.c)))) g

unfoldable pub int_sltiu : Opcode → Gpr → Gpr
unfolding set_reg_nonzero sext16
int_sltiu op g = set_reg_nonzero (rt op.c) (bool_word (ltb (g (rs op.c)) (sext16 (i_imm op.c)))) g

unfoldable pub int_andi : Opcode → Gpr → Gpr
unfolding set_reg_nonzero
int_andi op g = set_reg_nonzero (rt op.c) (bit_and (g (rs op.c)) (i_imm op.c)) g

unfoldable pub int_ori : Opcode → Gpr → Gpr
unfolding set_reg_nonzero
int_ori op g = set_reg_nonzero (rt op.c) (bit_or (g (rs op.c)) (i_imm op.c)) g

unfoldable pub int_xori : Opcode → Gpr → Gpr
unfolding set_reg_nonzero
int_xori op g = set_reg_nonzero (rt op.c) (bit_xor (g (rs op.c)) (i_imm op.c)) g

-- No test of `rt`: `lui $zero` writes register 0.
unfoldable pub int_lui : Opcode → Gpr → Gpr
unfolding set_reg shl
int_lui op g = set_reg (rt op.c) (shl (i_imm op.c) 16) g

-- The all-zero word is skipped; no other test of `rd`.
unfoldable pub int_special_sll : Opcode → Gpr → Gpr
unfolding set_reg shl
int_special_sll op g = if op.c == 0 then g else set_reg (rd op.c) (shl (g (rt op.c)) (r_imm op.c)) g

unfoldable pub int_special_srl : Opcode → Gpr → Gpr
unfolding set_reg shr
int_special_srl op g = set_reg (rd op.c) (shr (g (rt op.c)) (r_imm op.c)) g

unfoldable pub int_special_sra : Opcode → Gpr → Gpr
unfolding set_reg sra
int_special_sra op g = set_reg (rd op.c) (sra (g (rt op.c)) (r_imm op.c)) g

unfoldable pub int_special_sllv : Opcode → Gpr → Gpr
unfolding set_reg shl
int_special_sllv op g = set_reg (rd op.c) (shl (g (rt op.c)) (bit_and (g (rs op.c)) 0x1f)) g

unfoldable pub int_special_srlv : Opcode → Gpr → Gpr
unfolding set_reg shr
int_special_srlv op g = set_reg (rd op.c) (shr (g (rt op.c)) (bit_and (g (rs op.c)) 0x1f)) g

unfoldable pub int_special_srav : Opcode → Gpr → Gpr
unfolding set_reg sra
int_special_srav op g = set_reg (rd op.c) (sra (g (rt op.c)) (bit_and (g (rs op.c)) 0x1f)) g

unfoldable pub int_special_mfhi : Opcode → Gpr → Gpr
unfolding set_reg_nonzero
int_special_mfhi op g = set_reg_nonzero (rd op.c) (g reg_hi) g

unfoldable pub int_special_mthi : Opcode → Gpr → Gpr
unfolding set_reg
int_special_mthi op g = set_reg reg_hi (g (rs op.c)) g

unfoldable pub int_special_mflo : Opcode → Gpr → Gpr
unfolding set_reg_nonzero
int_special_mflo op g = set_reg_nonzero (rd op.c) (g reg_lo) g

unfoldable pub int_special_mtlo : Opcode → Gpr → Gpr
unfolding set_reg
int_special_mtlo op g = set_reg reg_lo (g (rs op.c)) g

unfoldable pub get_mult_div_lo : Code → ℕ
get_mult_div_lo c = if rd c == 0 then reg_lo else rd c

unfoldable pub get_mult_div_hi : Code → ℕ
get_mult_div_hi c = if r_imm c == 0 then reg_hi else r_imm c

-- The tail that the multiplications and divisions share: HI first, then LO, each unless flagged.
unfoldable pub write_hi_lo : Opcode → ℕ → ℕ → Gpr → Gpr
unfolding set_reg get_mult_div_lo get_mult_div_hi
write_hi_lo op hi lo g =
    let with_hi = if op_flag_no_hi op.flags then g else set_reg (get_mult_div_hi op.c) hi g in
    if op_flag_no_lo op.flags then with_hi else set_reg (get_mult_div_lo op.c) lo with_hi

-- `(s64)(s32)x`, as a `u64` pattern.
unfoldable pub sext64 : ℕ → ℕ
unfolding is_neg
sext64 x = if is_neg x then x + (2 ^ 64 - 2 ^ 32) else x

unfoldable pub int_special_mult : Opcode → Gpr → Gpr
unfolding write_hi_lo sext64
int_special_mult op g =
    let res = sext64 (g (rs op.c)) * sext64 (g (rt op.c)) % 2 ^ 64 in
    write_hi_lo op (res / 2 ^ 32) (res % 2 ^ 32) g

unfoldable pub int_special_multu : Opcode → Gpr → Gpr
unfolding write_hi_lo
int_special_multu op g =
    let res = g (rs op.c) * g (rt op.c) in write_hi_lo op (res / 2 ^ 32) (res % 2 ^ 32) g

-- `|(s32)x|`, and the pattern of `-x`.
unfoldable pub abs32 : ℕ → ℕ
unfolding is_neg
abs32 x = if is_neg x then 2 ^ 32 - x else x

unfoldable pub neg32 : ℕ → ℕ
neg32 x = (2 ^ 32 - x) % 2 ^ 32

-- `(s32)a / (s32)b` and `(s32)a % (s32)b` round towards zero.
unfoldable pub sdiv32 : ℕ → ℕ → ℕ
unfolding is_neg abs32 neg32 xor
sdiv32 a b = if xor (is_neg a) (is_neg b) then neg32 (abs32 a / abs32 b) else abs32 a / abs32 b

unfoldable pub smod32 : ℕ → ℕ → ℕ
unfolding is_neg abs32 neg32
smod32 a b = if is_neg a then neg32 (abs32 a % abs32 b) else abs32 a % abs32 b

-- The quotient of the least `s32` by -1 does not fit: C leaves the division undefined.
unfoldable pub int_special_div : Opcode → Gpr → Option Gpr
unfolding write_hi_lo sdiv32 smod32 is_neg
int_special_div op g =
    let a = g (rs op.c) in
    let b = g (rt op.c) in
    if b == 0
    then some (write_hi_lo op a (if is_neg a then 1 else 0xffffffff) g)
    else if (a == 0x80000000) && (b == 0xffffffff)
    then none
    else some (write_hi_lo op (smod32 a b) (sdiv32 a b) g)

unfoldable pub int_special_divu : Opcode → Gpr → Gpr
unfolding write_hi_lo
int_special_divu op g =
    let a = g (rs op.c) in
    let b = g (rt op.c) in
    if b == 0 then write_hi_lo op a 0xffffffff g else write_hi_lo op (a % b) (a / b) g

unfoldable pub int_special_add : Opcode → Gpr → Gpr
unfolding set_reg_nonzero add32
int_special_add op g = set_reg_nonzero (rd op.c) (add32 (g (rs op.c)) (g (rt op.c))) g

unfoldable pub int_special_sub : Opcode → Gpr → Gpr
unfolding set_reg_nonzero sub32
int_special_sub op g = set_reg_nonzero (rd op.c) (sub32 (g (rs op.c)) (g (rt op.c))) g

unfoldable pub int_special_and : Opcode → Gpr → Gpr
unfolding set_reg_nonzero
int_special_and op g = set_reg_nonzero (rd op.c) (bit_and (g (rs op.c)) (g (rt op.c))) g

unfoldable pub int_special_or : Opcode → Gpr → Gpr
unfolding set_reg_nonzero
int_special_or op g = set_reg_nonzero (rd op.c) (bit_or (g (rs op.c)) (g (rt op.c))) g

unfoldable pub int_special_xor : Opcode → Gpr → Gpr
unfolding set_reg_nonzero
int_special_xor op g = set_reg_nonzero (rd op.c) (bit_xor (g (rs op.c)) (g (rt op.c))) g

unfoldable pub int_special_nor : Opcode → Gpr → Gpr
unfolding set_reg_nonzero lnot
int_special_nor op g = set_reg_nonzero (rd op.c) (lnot (bit_or (g (rs op.c)) (g (rt op.c)))) g

unfoldable pub int_special_slt : Opcode → Gpr → Gpr
unfolding set_reg_nonzero slt32
int_special_slt op g = set_reg_nonzero (rd op.c) (bool_word (slt32 (g (rs op.c)) (g (rt op.c)))) g

unfoldable pub int_special_sltu : Opcode → Gpr → Gpr
unfolding set_reg_nonzero
int_special_sltu op g = set_reg_nonzero (rd op.c) (bool_word (ltb (g (rs op.c)) (g (rt op.c)))) g

unfoldable pub int_meta_mov : Opcode → Gpr → Gpr
unfolding set_reg_nonzero
int_meta_mov op g = set_reg_nonzero (rd op.c) (g (rs op.c)) g

unfoldable pub int_meta_extc : Opcode → Gpr → Gpr
unfolding set_reg_nonzero sext8
int_meta_extc op g = set_reg_nonzero (rd op.c) (sext8 (g (rs op.c))) g

unfoldable pub int_meta_exts : Opcode → Gpr → Gpr
unfolding set_reg_nonzero sext16
int_meta_exts op g = set_reg_nonzero (rd op.c) (sext16 (g (rs op.c))) g

-- `signed` says whether the opcode is `OP_META_MULT2` or `OP_META_MULTU2`.
unfoldable pub mult2_hi : Bool → ℕ → ℕ → ℕ
unfolding shl shr sra
mult2_hi signed x k =
    if ltb k 32
    then (if signed
        then (if k == 0 then sra x 31 else sra x (32 - k))
        else (if k == 0 then 0 else shr x (32 - k)))
    else shl x (k - 32)

unfoldable pub int_meta_mult2 : Bool → Opcode → Gpr → Gpr
unfolding set_reg get_mult_div_lo get_mult_div_hi mult2_hi shl
int_meta_mult2 signed op g =
    let x = g (rs op.c) in
    let k = r_op op.c in
    let lo = if ltb k 32 then shl x k else 0 in
    let with_lo = if op_flag_no_lo op.flags then g else set_reg (get_mult_div_lo op.c) lo g in
    if op_flag_no_hi op.flags
    then with_lo
    else set_reg (get_mult_div_hi op.c) (mult2_hi signed x k) with_lo

unfoldable pub int_meta_com : Opcode → Gpr → Gpr
unfolding set_reg_nonzero lnot
int_meta_com op g = set_reg_nonzero (rd op.c) (lnot (g (rs op.c))) g
