-- ===== src/Optimizer/Masks.antt =====
-- optimizer.c: the registers that an opcode reads and writes, as the bits of a 64-bit mask. Bits 32
-- and 33 stand for LO and HI.
use lightrec.Base.{ℕ, ◌^◌, ◌==◌, if◌then◌else◌, bit_or, Bool, any_bit}
use lightrec.Isa.{Code, Standard, Special, Regimm, Cp0, Cp2Basic, rs, rt, rd, r_imm, r_op}
use lightrec.Isa.{op_of, special_of, regimm_of, cp0_of, cp2_basic_of}

abbrev pub reg_lo : ℕ
reg_lo = 32

abbrev pub reg_hi : ℕ
reg_hi = 33

unfoldable pub special_read_mask : Special → Code → ℕ
special_read_mask Special.syscall c = 0
special_read_mask Special.break c = 0
special_read_mask Special.jr c = 2 ^ rs c
special_read_mask Special.jalr c = 2 ^ rs c
special_read_mask Special.mthi c = 2 ^ rs c
special_read_mask Special.mtlo c = 2 ^ rs c
special_read_mask Special.mfhi c = 2 ^ reg_hi
special_read_mask Special.mflo c = 2 ^ reg_lo
special_read_mask Special.sll c = if r_imm c == 0 then 0 else 2 ^ rt c
special_read_mask Special.srl c = 2 ^ rt c
special_read_mask Special.sra c = 2 ^ rt c
special_read_mask _ c = bit_or (2 ^ rs c) (2 ^ rt c)

unfoldable pub cp0_read_mask : Cp0 → Code → ℕ
cp0_read_mask Cp0.mtc0 c = 2 ^ rt c
cp0_read_mask Cp0.ctc0 c = 2 ^ rt c
cp0_read_mask _ c = 0

unfoldable pub cp2_read_mask : Cp2Basic → Code → ℕ
cp2_read_mask Cp2Basic.mtc2 c = if r_op c == 0 then 2 ^ rt c else 0
cp2_read_mask Cp2Basic.ctc2 c = if r_op c == 0 then 2 ^ rt c else 0
cp2_read_mask _ c = 0

unfoldable pub read_mask_of : Standard → Code → ℕ
unfolding special_read_mask cp0_read_mask cp2_read_mask
read_mask_of Standard.special c = special_read_mask (special_of c) c
read_mask_of Standard.cp0 c = cp0_read_mask (cp0_of c) c
read_mask_of Standard.cp2 c = cp2_read_mask (cp2_basic_of c) c
read_mask_of Standard.j c = 0
read_mask_of Standard.jal c = 0
read_mask_of Standard.lui c = 0
read_mask_of Standard.meta_bios c = 0
read_mask_of Standard.beq c = if rs c == rt c then 0 else bit_or (2 ^ rs c) (2 ^ rt c)
read_mask_of Standard.bne c = bit_or (2 ^ rs c) (2 ^ rt c)
read_mask_of Standard.lwl c = bit_or (2 ^ rs c) (2 ^ rt c)
read_mask_of Standard.lwr c = bit_or (2 ^ rs c) (2 ^ rt c)
read_mask_of Standard.sb c = bit_or (2 ^ rs c) (2 ^ rt c)
read_mask_of Standard.sh c = bit_or (2 ^ rs c) (2 ^ rt c)
read_mask_of Standard.swl c = bit_or (2 ^ rs c) (2 ^ rt c)
read_mask_of Standard.sw c = bit_or (2 ^ rs c) (2 ^ rt c)
read_mask_of Standard.swr c = bit_or (2 ^ rs c) (2 ^ rt c)
read_mask_of Standard.meta_lwu c = bit_or (2 ^ rs c) (2 ^ rt c)
read_mask_of Standard.meta_swu c = bit_or (2 ^ rs c) (2 ^ rt c)
read_mask_of _ c = 2 ^ rs c

unfoldable pub opcode_read_mask : Code → ℕ
unfolding read_mask_of
opcode_read_mask c = read_mask_of (op_of c) c

unfoldable pub mult_div_write_mask : Code → ℕ
mult_div_write_mask c =
    bit_or (if rd c == 0 then 2 ^ reg_lo else 2 ^ rd c)
      (if r_imm c == 0 then 2 ^ reg_hi else 2 ^ r_imm c)

unfoldable pub special_write_mask : Special → Code → ℕ
unfolding mult_div_write_mask
special_write_mask Special.jr c = 0
special_write_mask Special.syscall c = 0
special_write_mask Special.break c = 0
special_write_mask Special.mult c = mult_div_write_mask c
special_write_mask Special.multu c = mult_div_write_mask c
special_write_mask Special.div c = mult_div_write_mask c
special_write_mask Special.divu c = mult_div_write_mask c
special_write_mask Special.mthi c = 2 ^ reg_hi
special_write_mask Special.mtlo c = 2 ^ reg_lo
special_write_mask Special.sll c = if r_imm c == 0 then 0 else 2 ^ rd c
special_write_mask _ c = 2 ^ rd c

unfoldable pub cp0_write_mask : Cp0 → Code → ℕ
cp0_write_mask Cp0.mfc0 c = 2 ^ rt c
cp0_write_mask Cp0.cfc0 c = 2 ^ rt c
cp0_write_mask _ c = 0

unfoldable pub cp2_write_mask : Cp2Basic → Code → ℕ
cp2_write_mask Cp2Basic.mfc2 c = if r_op c == 0 then 2 ^ rt c else 0
cp2_write_mask Cp2Basic.cfc2 c = if r_op c == 0 then 2 ^ rt c else 0
cp2_write_mask _ c = 0

unfoldable pub regimm_write_mask : Regimm → ℕ
regimm_write_mask Regimm.bltzal = 2 ^ 31
regimm_write_mask Regimm.bgezal = 2 ^ 31
regimm_write_mask _ = 0

unfoldable pub write_mask_of : Standard → Code → ℕ
unfolding special_write_mask cp0_write_mask cp2_write_mask regimm_write_mask mult_div_write_mask
write_mask_of Standard.meta_mult2 c = mult_div_write_mask c
write_mask_of Standard.meta_multu2 c = mult_div_write_mask c
write_mask_of Standard.meta c = 2 ^ rd c
write_mask_of Standard.special c = special_write_mask (special_of c) c
write_mask_of Standard.addi c = 2 ^ rt c
write_mask_of Standard.addiu c = 2 ^ rt c
write_mask_of Standard.slti c = 2 ^ rt c
write_mask_of Standard.sltiu c = 2 ^ rt c
write_mask_of Standard.andi c = 2 ^ rt c
write_mask_of Standard.ori c = 2 ^ rt c
write_mask_of Standard.xori c = 2 ^ rt c
write_mask_of Standard.lui c = 2 ^ rt c
write_mask_of Standard.lb c = 2 ^ rt c
write_mask_of Standard.lh c = 2 ^ rt c
write_mask_of Standard.lwl c = 2 ^ rt c
write_mask_of Standard.lw c = 2 ^ rt c
write_mask_of Standard.lbu c = 2 ^ rt c
write_mask_of Standard.lhu c = 2 ^ rt c
write_mask_of Standard.lwr c = 2 ^ rt c
write_mask_of Standard.meta_lwu c = 2 ^ rt c
write_mask_of Standard.jal c = 2 ^ 31
write_mask_of Standard.cp0 c = cp0_write_mask (cp0_of c) c
write_mask_of Standard.cp2 c = cp2_write_mask (cp2_basic_of c) c
write_mask_of Standard.regimm c = regimm_write_mask (regimm_of c)
write_mask_of _ c = 0

unfoldable pub opcode_write_mask : Code → ℕ
unfolding write_mask_of
opcode_write_mask c = write_mask_of (op_of c) c

unfoldable pub opcode_reads_register : Code → ℕ → Bool
unfolding opcode_read_mask any_bit
opcode_reads_register c reg = any_bit (opcode_read_mask c) (2 ^ reg)

unfoldable pub opcode_writes_register : Code → ℕ → Bool
unfolding opcode_write_mask any_bit
opcode_writes_register c reg = any_bit (opcode_write_mask c) (2 ^ reg)
