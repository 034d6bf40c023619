-- ===== src/Interpreter/Table.antt =====
-- interpreter.c: the dispatch tables `int_standard`, `int_special` and `int_meta`, for the handlers
-- that work on registers alone.
use lightrec.Base.{Option, none, some, true, false}
use lightrec.Isa.{Opcode, Standard, Special, Meta, op_of, special_of, meta_of}
use lightrec.Interpreter.Regs.{Gpr}
use lightrec.Interpreter.Alu.{
  int_addi, int_slti, int_sltiu, int_andi, int_ori, int_xori, int_lui, int_special_sll,
  int_special_srl, int_special_sra, int_special_sllv, int_special_srlv, int_special_srav,
  int_special_mfhi, int_special_mthi, int_special_mflo, int_special_mtlo, int_special_mult,
  int_special_multu, int_special_div, int_special_divu, int_special_add, int_special_sub,
  int_special_and, int_special_or, int_special_xor, int_special_nor, int_special_slt,
  int_special_sltu, int_meta_mov, int_meta_extc, int_meta_exts, int_meta_mult2, int_meta_com,
}

-- `regs g`: the handler leaves `g` in `reg_cache` and goes on to the next opcode. `undefined`: the
-- C code has no meaning at this input. `other`: the entry is a handler of another kind (a branch,
-- a memory access, a coprocessor access, a trap, or `int_unimplemented`).
pub data Effect : Type 0 where
  regs : Gpr → Effect
  undefined : Effect
  other : Effect

abbrev pub of_option : Option Gpr → Effect
of_option (some g) = regs g
of_option none = undefined

unfoldable pub special_effect : Special → Opcode → Gpr → Effect
special_effect Special.sll op g = regs (int_special_sll op g)
special_effect Special.srl op g = regs (int_special_srl op g)
special_effect Special.sra op g = regs (int_special_sra op g)
special_effect Special.sllv op g = regs (int_special_sllv op g)
special_effect Special.srlv op g = regs (int_special_srlv op g)
special_effect Special.srav op g = regs (int_special_srav op g)
special_effect Special.mfhi op g = regs (int_special_mfhi op g)
special_effect Special.mthi op g = regs (int_special_mthi op g)
special_effect Special.mflo op g = regs (int_special_mflo op g)
special_effect Special.mtlo op g = regs (int_special_mtlo op g)
special_effect Special.mult op g = regs (int_special_mult op g)
special_effect Special.multu op g = regs (int_special_multu op g)
special_effect Special.div op g = of_option (int_special_div op g)
special_effect Special.divu op g = regs (int_special_divu op g)
special_effect Special.add op g = regs (int_special_add op g)
special_effect Special.addu op g = regs (int_special_add op g)
special_effect Special.sub op g = regs (int_special_sub op g)
special_effect Special.subu op g = regs (int_special_sub op g)
special_effect Special.and op g = regs (int_special_and op g)
special_effect Special.or op g = regs (int_special_or op g)
special_effect Special.xor op g = regs (int_special_xor op g)
special_effect Special.nor op g = regs (int_special_nor op g)
special_effect Special.slt op g = regs (int_special_slt op g)
special_effect Special.sltu op g = regs (int_special_sltu op g)
special_effect _ op g = other

unfoldable pub meta_effect : Meta → Opcode → Gpr → Effect
meta_effect Meta.mov op g = regs (int_meta_mov op g)
meta_effect Meta.extc op g = regs (int_meta_extc op g)
meta_effect Meta.exts op g = regs (int_meta_exts op g)
meta_effect Meta.complement op g = regs (int_meta_com op g)
meta_effect Meta.unknown op g = other

unfoldable pub effect_of : Standard → Opcode → Gpr → Effect
unfolding special_effect meta_effect
effect_of Standard.special op g = special_effect (special_of op.c) op g
effect_of Standard.addi op g = regs (int_addi op g)
effect_of Standard.addiu op g = regs (int_addi op g)
effect_of Standard.slti op g = regs (int_slti op g)
effect_of Standard.sltiu op g = regs (int_sltiu op g)
effect_of Standard.andi op g = regs (int_andi op g)
effect_of Standard.ori op g = regs (int_ori op g)
effect_of Standard.xori op g = regs (int_xori op g)
effect_of Standard.lui op g = regs (int_lui op g)
effect_of Standard.meta op g = meta_effect (meta_of op.c) op g
effect_of Standard.meta_mult2 op g = regs (int_meta_mult2 true op g)
effect_of Standard.meta_multu2 op g = regs (int_meta_mult2 false op g)
effect_of _ op g = other

unfoldable pub effect : Opcode → Gpr → Effect
unfolding effect_of
effect op g = effect_of (op_of op.c) op g
