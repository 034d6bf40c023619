-- ===== src/Interpreter/Branch.antt =====
-- interpreter.c: the conditions of the conditional branches, from `int_beq` and `int_bgez` and the
-- flags that each handler passes to them.
use lightrec.Base.{◌==◌, Bool, true, false, not, xor, ◌&&◌, ◌||◌, is_neg}
use lightrec.Isa.{Code, Standard, Regimm, rs, rt, regimm_of}
use lightrec.Interpreter.Regs.{Gpr}

unfoldable pub int_beq : Code → Gpr → Bool → Bool
unfolding xor
int_beq c g bne = xor (g (rs c) == g (rt c)) bne

-- `((regimm && !rs) || rs > 0) ^ lt`, with `rs` signed.
unfoldable pub int_bgez : Code → Gpr → Bool → Bool → Bool
unfolding is_neg xor
int_bgez c g lt regimm =
    let x = g (rs c) in xor (regimm && x == 0 || not (is_neg x) && not (x == 0)) lt

unfoldable pub regimm_condition : Regimm → Code → Gpr → Bool
unfolding int_bgez
regimm_condition Regimm.bltz c g = int_bgez c g true true
regimm_condition Regimm.bgez c g = int_bgez c g false true
regimm_condition Regimm.bltzal c g = int_bgez c g true true
regimm_condition Regimm.bgezal c g = int_bgez c g false true
regimm_condition Regimm.unknown c g = false

-- Whether the branch goes to its target; `false` for what is no conditional branch.
unfoldable pub branch_condition : Standard → Code → Gpr → Bool
unfolding int_beq int_bgez regimm_condition
branch_condition Standard.beq c g = int_beq c g false
branch_condition Standard.bne c g = int_beq c g true
branch_condition Standard.blez c g = int_bgez c g true false
branch_condition Standard.bgtz c g = int_bgez c g false false
branch_condition Standard.regimm c g = regimm_condition (regimm_of c) c g
branch_condition _ c g = false
