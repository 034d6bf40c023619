-- ===== src/Optimizer/Predicates.antt =====
-- optimizer.c: what kind of instruction an opcode is.
use lightrec.Base.{Bool, true, false, ◌&&◌, ◌==◌}
use lightrec.Isa.{Code, Standard, Special, Regimm, rs, rt, op_of, special_of, regimm_of}

is_jump_register : Special → Bool
is_jump_register Special.jr = true
is_jump_register Special.jalr = true
is_jump_register _ = false

is_branch_on_ge : Regimm → Bool
is_branch_on_ge Regimm.bgez = true
is_branch_on_ge Regimm.bgezal = true
is_branch_on_ge _ = false

unfoldable pub is_unconditional_jump_of : Standard → Code → Bool
unfolding is_jump_register is_branch_on_ge
is_unconditional_jump_of Standard.special c = is_jump_register (special_of c)
is_unconditional_jump_of Standard.j c = true
is_unconditional_jump_of Standard.jal c = true
is_unconditional_jump_of Standard.beq c = rs c == rt c
is_unconditional_jump_of Standard.blez c = rs c == rt c
is_unconditional_jump_of Standard.regimm c = is_branch_on_ge (regimm_of c) && (rs c == 0)
is_unconditional_jump_of _ c = false

unfoldable pub is_unconditional_jump : Code → Bool
unfolding is_unconditional_jump_of
is_unconditional_jump c = is_unconditional_jump_of (op_of c) c
