-- ===== src/Optimizer/Queries.antt =====
-- optimizer.c: the questions that the passes ask of one opcode.
use lightrec.Base.{ℕ, Bool, true, false, not, ◌&&◌, ◌||◌, ◌==◌, if◌then◌else◌}
use lightrec.Isa.{
  Code, Standard, Special, Cp0, Cp2Basic, rs, rt, rd, r_imm, r_op, i_imm, op_of, special_of, cp0_of,
  cp2_basic_of,
}
use lightrec.Optimizer.Masks.{opcode_writes_register}

is_mtc0 : Cp0 → Bool
is_mtc0 Cp0.mtc0 = true
is_mtc0 Cp0.ctc0 = true
is_mtc0 _ = false

is_mfc0 : Cp0 → Bool
is_mfc0 Cp0.mfc0 = true
is_mfc0 Cp0.cfc0 = true
is_mfc0 _ = false

is_mfc2 : Cp2Basic → Bool
is_mfc2 Cp2Basic.mfc2 = true
is_mfc2 Cp2Basic.cfc2 = true
is_mfc2 _ = false

unfoldable pub is_syscall_of : Standard → Special → Code → Bool
unfolding is_mtc0
is_syscall_of Standard.special Special.syscall c = true
is_syscall_of Standard.cp0 s c = is_mtc0 (cp0_of c) && (rd c == 12 || rd c == 13)
is_syscall_of _ s c = false

unfoldable pub is_syscall : Code → Bool
unfolding is_syscall_of
is_syscall c = is_syscall_of (op_of c) (special_of c) c

unfoldable pub has_delay_slot_of : Standard → Special → Bool
has_delay_slot_of Standard.special Special.jr = true
has_delay_slot_of Standard.special Special.jalr = true
has_delay_slot_of Standard.j s = true
has_delay_slot_of Standard.jal s = true
has_delay_slot_of Standard.beq s = true
has_delay_slot_of Standard.bne s = true
has_delay_slot_of Standard.blez s = true
has_delay_slot_of Standard.bgtz s = true
has_delay_slot_of Standard.regimm s = true
has_delay_slot_of _ s = false

unfoldable pub has_delay_slot : Code → Bool
unfolding has_delay_slot_of
has_delay_slot c = has_delay_slot_of (op_of c) (special_of c)

unfoldable pub opcode_is_mfc_of : Standard → Code → Bool
unfolding is_mfc0 is_mfc2
opcode_is_mfc_of Standard.cp0 c = is_mfc0 (cp0_of c)
opcode_is_mfc_of Standard.cp2 c = r_op c == 0 && is_mfc2 (cp2_basic_of c)
opcode_is_mfc_of _ c = false

unfoldable pub opcode_is_mfc : Code → Bool
unfolding opcode_is_mfc_of
opcode_is_mfc c = opcode_is_mfc_of (op_of c) c

unfoldable pub opcode_is_load_of : Standard → Bool
opcode_is_load_of Standard.lb = true
opcode_is_load_of Standard.lh = true
opcode_is_load_of Standard.lwl = true
opcode_is_load_of Standard.lw = true
opcode_is_load_of Standard.lbu = true
opcode_is_load_of Standard.lhu = true
opcode_is_load_of Standard.lwr = true
opcode_is_load_of Standard.lwc2 = true
opcode_is_load_of Standard.meta_lwu = true
opcode_is_load_of _ = false

unfoldable pub opcode_is_store_of : Standard → Bool
opcode_is_store_of Standard.sb = true
opcode_is_store_of Standard.sh = true
opcode_is_store_of Standard.sw = true
opcode_is_store_of Standard.swl = true
opcode_is_store_of Standard.swr = true
opcode_is_store_of Standard.swc2 = true
opcode_is_store_of Standard.meta_swu = true
opcode_is_store_of _ = false

is_lwc2 : Standard → Bool
is_lwc2 Standard.lwc2 = true
is_lwc2 _ = false

unfoldable pub opcode_has_load_delay : Code → Bool
unfolding opcode_is_load_of opcode_is_mfc is_lwc2
opcode_has_load_delay c =
    opcode_is_load_of (op_of c) && not (rt c == 0) && not (is_lwc2 (op_of c)) || opcode_is_mfc c

unfoldable pub opcode_get_io_size_of : Standard → ℕ
opcode_get_io_size_of Standard.lb = 8
opcode_get_io_size_of Standard.lbu = 8
opcode_get_io_size_of Standard.sb = 8
opcode_get_io_size_of Standard.lh = 16
opcode_get_io_size_of Standard.lhu = 16
opcode_get_io_size_of Standard.sh = 16
opcode_get_io_size_of _ = 32

unfoldable pub opcode_is_io : Code → Bool
unfolding opcode_is_load_of opcode_is_store_of
opcode_is_io c = opcode_is_load_of (op_of c) || opcode_is_store_of (op_of c)

is_plain_mfc0 : Cp0 → Bool
is_plain_mfc0 Cp0.mfc0 = true
is_plain_mfc0 _ = false

-- The first switch of `is_nop`: the opcode has register 0 as a target.
unfoldable pub is_zero_write_nop : Standard → Code → Bool
unfolding is_plain_mfc0
is_zero_write_nop Standard.cp0 c = not (is_plain_mfc0 (cp0_of c))
is_zero_write_nop Standard.lb c = false
is_zero_write_nop Standard.lh c = false
is_zero_write_nop Standard.lwl c = false
is_zero_write_nop Standard.lw c = false
is_zero_write_nop Standard.lbu c = false
is_zero_write_nop Standard.lhu c = false
is_zero_write_nop Standard.lwr c = false
is_zero_write_nop Standard.meta_lwu c = false
is_zero_write_nop _ c = true

-- The second switch, for `OP_SPECIAL` and for the others. In the case of `OP_REGIMM` the source
-- compares the primary opcode with 0 and 16, not the `rt` field: it is never a no-op.
unfoldable pub is_special_nop : Special → Code → Bool
is_special_nop Special.and c = rd c == rt c && rd c == rs c
is_special_nop Special.add c = rd c == rt c && rs c == 0 || rd c == rs c && rt c == 0
is_special_nop Special.addu c = rd c == rt c && rs c == 0 || rd c == rs c && rt c == 0
is_special_nop Special.sub c = rd c == rs c && rt c == 0
is_special_nop Special.subu c = rd c == rs c && rt c == 0
is_special_nop Special.or c =
    if rd c == rt c then rd c == rs c || rs c == 0 else rd c == rs c && rt c == 0
is_special_nop Special.sll c = rd c == rt c && r_imm c == 0
is_special_nop Special.sra c = rd c == rt c && r_imm c == 0
is_special_nop Special.srl c = rd c == rt c && r_imm c == 0
is_special_nop Special.mfhi c = rd c == 0
is_special_nop Special.mflo c = rd c == 0
is_special_nop _ c = false

unfoldable pub is_plain_nop : Standard → Code → Bool
unfolding is_special_nop
is_plain_nop Standard.special c = is_special_nop (special_of c) c
is_plain_nop Standard.ori c = rt c == rs c && i_imm c == 0
is_plain_nop Standard.addi c = rt c == rs c && i_imm c == 0
is_plain_nop Standard.addiu c = rt c == rs c && i_imm c == 0
is_plain_nop Standard.bgtz c = rs c == 0 || i_imm c == 1
is_plain_nop Standard.bne c = rs c == rt c || i_imm c == 1
is_plain_nop _ c = false

unfoldable pub is_nop : Code → Bool
unfolding opcode_writes_register is_zero_write_nop is_plain_nop
is_nop c =
    if opcode_writes_register c 0 then is_zero_write_nop (op_of c) c else is_plain_nop (op_of c) c
