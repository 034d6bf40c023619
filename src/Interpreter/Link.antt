-- ===== src/Interpreter/Link.antt =====
-- lightrec-private.h: `get_branch_pc`; interpreter.c: the return address of a linking jump.
use lightrec.Base.{
  ℕ, ◌+◌, ◌-◌, ◌*◌, ◌%◌, ◌^◌, if◌then◌else◌, add32, Option, some, none, List, get_elem?, bit_and,
  bit_or, sext16, shl,
}
use lightrec.Isa.{
  Opcode, Code, Standard, Special, Regimm, rs, rd, i_imm, j_imm, op_of, special_of, regimm_of,
  op_flag_no_ds,
}
use lightrec.Interpreter.Regs.{Gpr, set_reg, set_reg_nonzero}

-- The address of the branch that the opcode at `offset` is: after a swap with its delay slot it
-- stands one later. The flags are read through a `u16`.
unfoldable pub get_branch_pc : ℕ → List Opcode → ℕ → ℕ → Option ℕ
get_branch_pc pc list offset imm = elim (get_elem? list offset) [
  | none ↦ none
  | some op ↦
      let at =
        if op_flag_no_ds (op.flags % 2 ^ 16) then (offset + 2 ^ 16 - 1) % 2 ^ 16 else offset in
      some ((pc + (at + imm) * 4) % 2 ^ 32)
]

-- What `int_jump` and `int_jumpr` write to the link register: `old_pc + 8`.
unfoldable pub link_address : ℕ → List Opcode → ℕ → Option ℕ
unfolding get_branch_pc add32
link_address pc list offset = elim (get_branch_pc pc list offset 0) [
  | none ↦ none
  | some old_pc ↦ some (add32 old_pc 8)
]

-- The write of the link register, by `int_jumpr`, `int_jump` and `int_bgez`.
unfoldable pub set_link_special : Special → Code → ℕ → Gpr → Gpr
unfolding set_reg_nonzero
set_link_special Special.jalr c v g = set_reg_nonzero (rd c) v g
set_link_special _ c v g = g

unfoldable pub set_link_regimm : Regimm → ℕ → Gpr → Gpr
unfolding set_reg
set_link_regimm Regimm.bltzal v g = set_reg 31 v g
set_link_regimm Regimm.bgezal v g = set_reg 31 v g
set_link_regimm _ v g = g

unfoldable pub set_link_of : Standard → Code → ℕ → Gpr → Gpr
unfolding set_link_special set_link_regimm set_reg
set_link_of Standard.special c v g = set_link_special (special_of c) c v g
set_link_of Standard.regimm c v g = set_link_regimm (regimm_of c) v g
set_link_of Standard.jal c v g = set_reg 31 v g
set_link_of _ c v g = g

unfoldable pub set_link : Code → ℕ → Gpr → Gpr
unfolding set_link_of
set_link c v g = set_link_of (op_of c) c v g

-- The target that `int_jumpr` reads from a register, before it writes the link register.
unfoldable pub special_jump : Special → Code → Gpr → Option ℕ
special_jump Special.jr c g = some (g (rs c))
special_jump Special.jalr c g = some (g (rs c))
special_jump _ c g = none

unfoldable pub register_jump : Standard → Code → Gpr → Option ℕ
unfolding special_jump
register_jump Standard.special c g = special_jump (special_of c) c g
register_jump _ c g = none

-- Where `int_jump` goes, and where `int_branch` goes if the branch is taken.
unfoldable pub jump_target : ℕ → Code → ℕ
unfolding j_imm
jump_target old_pc c = bit_or (bit_and old_pc 0xf0000000) (j_imm c * 2 ^ 2)

unfoldable pub branch_target : ℕ → Code → ℕ
unfolding add32 sext16 shl i_imm
branch_target pc c = add32 (add32 pc 4) (shl (sext16 (i_imm c)) 2)
