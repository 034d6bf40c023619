-- ===== src/Passes/KnownZero.antt =====
-- optimizer.c: `lightrec_patch_known_zero`.
use lightrec.Base.{◌==◌, ◌&&◌, if◌then◌else◌}
use lightrec.Blockcache.Geometry.{kunseg}
use lightrec.Isa.{
  Code, Standard, Special, Cp0, Cp2Basic, rs, rt, r_op, op_of, special_of, cp0_of, cp2_basic_of,
  set_rs, set_rt,
}
use lightrec.Constprop.Data.{Consts, is_known, is_known_zero}

-- `if (is_known_zero(v, op->r.rs)) op->r.rs = 0`, and the same for `rt`.
unfoldable pub patch_rs : Consts → Code → Code
unfolding is_known_zero set_rs
patch_rs v c = if is_known_zero v (rs c) then set_rs 0 c else c

unfoldable pub patch_rt : Consts → Code → Code
unfolding is_known_zero set_rt
patch_rt v c = if is_known_zero v (rt c) then set_rt 0 c else c

-- The base of an access: its address is known to be 0 in some segment.
unfoldable pub patch_base : Consts → Code → Code
unfolding is_known kunseg set_rs
patch_base v c = if is_known v (rs c) && kunseg (v (rs c)).value == 0 then set_rs 0 c else c

unfoldable pub patch_special : Special → Consts → Code → Code
unfolding patch_rs patch_rt
patch_special Special.jr v c = patch_rs v c
patch_special Special.jalr v c = patch_rs v c
patch_special Special.mthi v c = patch_rs v c
patch_special Special.mtlo v c = patch_rs v c
patch_special Special.sll v c = patch_rt v c
patch_special Special.srl v c = patch_rt v c
patch_special Special.sra v c = patch_rt v c
patch_special Special.syscall v c = c
patch_special Special.break v c = c
patch_special Special.mfhi v c = c
patch_special Special.mflo v c = c
patch_special _ v c = patch_rt v (patch_rs v c)

unfoldable pub patch_cp0 : Cp0 → Consts → Code → Code
unfolding patch_rt
patch_cp0 Cp0.mtc0 v c = patch_rt v c
patch_cp0 Cp0.ctc0 v c = patch_rt v c
patch_cp0 _ v c = c

unfoldable pub patch_cp2 : Cp2Basic → Consts → Code → Code
unfolding patch_rt
patch_cp2 Cp2Basic.mtc2 v c = patch_rt v c
patch_cp2 Cp2Basic.ctc2 v c = patch_rt v c
patch_cp2 _ v c = c

unfoldable pub patch_of : Standard → Consts → Code → Code
unfolding patch_special patch_cp0 patch_cp2 patch_rs patch_rt patch_base
patch_of Standard.special v c = patch_special (special_of c) v c
patch_of Standard.cp0 v c = patch_cp0 (cp0_of c) v c
patch_of Standard.cp2 v c = if r_op c == 0 then patch_cp2 (cp2_basic_of c) v c else c
patch_of Standard.beq v c = patch_rs v (patch_rt v c)
patch_of Standard.bne v c = patch_rs v (patch_rt v c)
patch_of Standard.regimm v c = patch_rs v c
patch_of Standard.blez v c = patch_rs v c
patch_of Standard.bgtz v c = patch_rs v c
patch_of Standard.addi v c = patch_rs v c
patch_of Standard.addiu v c = patch_rs v c
patch_of Standard.slti v c = patch_rs v c
patch_of Standard.sltiu v c = patch_rs v c
patch_of Standard.andi v c = patch_rs v c
patch_of Standard.ori v c = patch_rs v c
patch_of Standard.xori v c = patch_rs v c
patch_of Standard.meta_mult2 v c = patch_rs v c
patch_of Standard.meta_multu2 v c = patch_rs v c
patch_of Standard.meta v c = patch_rs v c
patch_of Standard.sb v c = patch_base v (patch_rt v c)
patch_of Standard.sh v c = patch_base v (patch_rt v c)
patch_of Standard.swl v c = patch_base v (patch_rt v c)
patch_of Standard.sw v c = patch_base v (patch_rt v c)
patch_of Standard.swr v c = patch_base v (patch_rt v c)
patch_of Standard.meta_swu v c = patch_base v (patch_rt v c)
patch_of Standard.lb v c = patch_base v c
patch_of Standard.lh v c = patch_base v c
patch_of Standard.lwl v c = patch_base v c
patch_of Standard.lw v c = patch_base v c
patch_of Standard.lbu v c = patch_base v c
patch_of Standard.lhu v c = patch_base v c
patch_of Standard.lwr v c = patch_base v c
patch_of Standard.lwc2 v c = patch_base v c
patch_of Standard.swc2 v c = patch_base v c
patch_of Standard.meta_lwu v c = patch_base v c
patch_of _ v c = c

unfoldable pub lightrec_patch_known_zero : Consts → Code → Code
unfolding patch_of
lightrec_patch_known_zero v c = patch_of (op_of c) v c
