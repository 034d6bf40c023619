-- ===== src/Examples/Rewrites.antt =====
-- The theorems on rewrites of one opcode, at `bne r1, r2` and at `or r3, r1, r0`.
use lightrec.Base.{◌≡◌, refl, arith, inl, false, ◌==◌, if◌then◌else◌}
use lightrec.Isa.{i_imm, i_op, op_of}
use lightrec.Interpreter.Table.{effect}
use lightrec.Interpreter.Branch.{branch_condition}
use lightrec.Passes.Simplify.{simplify_branch}
use lightrec.Passes.KnownZero.{lightrec_patch_known_zero}
use lightrec.Passes.Operands.{SameOperands, patch_known_zero-SameOperands}
use lightrec.Optimizer.Queries.{opcode_is_load_of, opcode_is_store_of}
use lightrec.Passes.BranchSound.{Decides, simplify_branch-Decides}
use lightrec.Passes.Moves.{recoded}
use lightrec.Interpreter.Regs.{Gpr}
use lightrec.Constprop.Data.{Consts, constant}
use lightrec.Examples.Whole.{or_opcode, before, consts, consts-DescribesAll}

simplify_branch-Decides_example :
    Decides
      (branch_condition (op_of 0x14220004) 0x14220004 before)
      (i_imm 0x14220004)
      before
      (simplify_branch (op_of 0x14220004) consts 0x14220004)
simplify_branch-Decides_example =
    simplify_branch-Decides consts-DescribesAll 0x14220004 (omega arith)

-- `or r3, r1, r5`, where register 5 is known to hold 0.
patch_known_zero-SameOperands_example :
    SameOperands false before 0x00251825 (lightrec_patch_known_zero consts 0x00251825)
    × (effect (recoded or_opcode (lightrec_patch_known_zero consts 0x00251825)) before
        ≡ effect (recoded or_opcode 0x00251825) before)
    × (branch_condition
          (op_of (lightrec_patch_known_zero consts 0x00251825))
          (lightrec_patch_known_zero consts 0x00251825)
          before
        ≡ branch_condition (op_of 0x00251825) 0x00251825 before)
unfolding op_of opcode_is_load_of opcode_is_store_of i_op
patch_known_zero-SameOperands_example =
    patch_known_zero-SameOperands consts-DescribesAll refl or_opcode 0x00251825 (inl refl)

-- Register 1 holds 5 and register 2 the top bit, both in full view but the first.
abbrev factors : Gpr
factors r = if r == 1 then 5 else if r == 2 then 0x80000000 else 0

abbrev factor_consts : Consts
factor_consts r = if r == 1 then record { value = 0; known = 0; sign = 0 } else constant (factors r)
