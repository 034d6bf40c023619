-- ===== src/Examples/Slots.antt =====
-- The theorems on opcode lists, at the block of four.
use lightrec.Base.{ℕ, true, ◌==◌, if◌then◌else◌, ◌≡◌, arith, [], ◌∷◌, List, refl, add32, any_bit}
use lightrec.Isa
use lightrec.Isa.{Opcode, op_flag_no_ds, op_flag_sync, op_flag_emulate_branch, op_flag_load_delay}
use lightrec.Interpreter.Regs.{Gpr, set_reg, set_reg_nonzero}
use lightrec.Interpreter.Alu
use lightrec.Interpreter.Table.{regs, special_effect, effect_of, effect}
use lightrec.Interpreter.Branch.{branch_condition}
use lightrec.Interpreter.Link.{set_link, set_link_of, register_jump}
use lightrec.Interpreter.Frame.{is_sll_move}
use lightrec.Interpreter.Nop.{is_nop_keeps}
use lightrec.Optimizer.{
  opcode_writes_register, opcode_reads_register, has_delay_slot, is_nop, is_plain_nop,
  is_special_nop, find_prev_writer, prev_writer,
}
use lightrec.Optimizer.SearchLaws.{LastWriter, find_prev_writer-LastWriter}
use lightrec.Optimizer.NopDivergence.{is_nop_jalr}
use lightrec.DelaySlots.{
  lightrec_can_switch_delay_slot, can_switch_of, is_trap_of, touches, lightrec_switch_delay_slots,
}
use lightrec.DelaySlots.Sound.{can_switch_commutes}
use lightrec.DelaySlots.Order.{switch_delay_slots-Perm, instruction, is_target}
use mathlib.Core.List.{map, Perm}
use lightrec.Examples.Whole.{
  or_opcode, jal_opcode, move_opcode, block, before, after, or_effect, before-AreWords,
}

-- `or r3, r1, r2` in the delay slot of `jal`.
abbrev linked_after : Gpr
linked_after i = if 3 == i then 0xfffff005 else set_reg 31 0x1010 before i

linked_effect : effect or_opcode (set_link jal_opcode.c 0x1010 before) ≡ regs linked_after
unfolding effect effect_of special_effect Alu.int_special_or set_reg_nonzero set_reg Isa.op_of
    Isa.special_of Isa.rs Isa.rt Isa.rd Isa.i_op Isa.r_op set_link set_link_of
linked_effect = refl

can_switch_commutes_example :
    (branch_condition (Isa.op_of jal_opcode.c) jal_opcode.c (set_link jal_opcode.c 0x1010 after)
      ≡ branch_condition
          (Isa.op_of jal_opcode.c)
          jal_opcode.c
          (set_link jal_opcode.c 0x1010 before))
    × (register_jump (Isa.op_of jal_opcode.c) jal_opcode.c after
        ≡ register_jump (Isa.op_of jal_opcode.c) jal_opcode.c before)
    × ((i : ℕ) → linked_after i ≡ set_link jal_opcode.c 0x1010 after i)
unfolding lightrec_can_switch_delay_slot can_switch_of is_trap_of touches is_sll_move Isa.op_of
    Isa.special_of Isa.rs Isa.rt Isa.rd opcode_writes_register opcode_reads_register any_bit
can_switch_commutes_example =
    can_switch_commutes jal_opcode or_opcode 0x1010 before after linked_after refl refl refl
      or_effect linked_effect

switch_delay_slots-Perm_example :
    Perm
      (map instruction (lightrec_switch_delay_slots block.opcode_list))
      (map instruction block.opcode_list)
    × (map is_target (lightrec_switch_delay_slots block.opcode_list)
        ≡ map is_target block.opcode_list)
switch_delay_slots-Perm_example = switch_delay_slots-Perm block.opcode_list

-- `addu r1, r1, r0`.
abbrev addu_opcode : Opcode
addu_opcode = record { c = 0x00200821; flags = 0; source_pc = 0 }

abbrev addu_after : Gpr
addu_after i = if 1 == i then 0xfffff005 else before i

addu_effect : effect addu_opcode before ≡ regs addu_after
unfolding effect effect_of special_effect Alu.int_special_add set_reg_nonzero set_reg Isa.op_of
    Isa.special_of Isa.rs Isa.rt Isa.rd Isa.i_op Isa.r_op add32
addu_effect = refl

is_nop_keeps_example : addu_after 1 ≡ before 1
unfolding is_nop is_plain_nop is_special_nop opcode_writes_register any_bit Isa.op_of Isa.special_of
    Isa.rs Isa.rt Isa.rd
is_nop_keeps_example =
    is_nop_keeps addu_opcode before addu_after 1 refl refl before-AreWords addu_effect (omega arith)

is_nop_jalr_example : (is_nop 0x00200009 ≡ true) × (has_delay_slot 0x00200009 ≡ true)
unfolding Isa.op_of Isa.special_of Isa.rd
is_nop_jalr_example = is_nop_jalr 0x00200009 refl refl refl

abbrev three_opcodes : List Opcode
three_opcodes = or_opcode ∷ move_opcode ∷ jal_opcode ∷ []

find_prev_writer-LastWriter_example : LastWriter three_opcodes 2 3 0
unfolding find_prev_writer prev_writer opcode_writes_register opcode_reads_register has_delay_slot
    op_flag_sync any_bit Isa.op_of Isa.special_of Isa.rs Isa.rt Isa.rd Isa.r_imm
find_prev_writer-LastWriter_example = find_prev_writer-LastWriter three_opcodes 2 3 0 refl
