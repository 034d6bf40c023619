-- ===== src/Isa/Fields.antt =====
-- disassembler.h: the fields of `opcode_r`, `opcode_i`, `opcode_j` and `opcode_m`. The layouts
-- share the positions of `rs`, `rt` and `rd`, so one function reads each.
use lightrec.Base.{ℕ, ◌/◌, ◌%◌, ◌^◌, ◌<◌, arith}
use lightrec.Isa.Opcodes.{Standard, decode_standard, Special, decode_special, Regimm, decode_regimm}
use lightrec.Isa.Opcodes.{Cp0, decode_cp0, Cp2Basic, decode_cp2_basic, Meta, decode_meta}

-- `union code`, by its member `opcode`.
abbrev pub Code : Type 0
Code = ℕ

unfoldable pub i_op : Code → ℕ
i_op c = c / 2 ^ 26 % 2 ^ 6

unfoldable pub rs : Code → ℕ
rs c = c / 2 ^ 21 % 2 ^ 5

unfoldable pub rt : Code → ℕ
rt c = c / 2 ^ 16 % 2 ^ 5

unfoldable pub rd : Code → ℕ
rd c = c / 2 ^ 11 % 2 ^ 5

unfoldable pub r_imm : Code → ℕ
r_imm c = c / 2 ^ 6 % 2 ^ 5

unfoldable pub r_op : Code → ℕ
r_op c = c % 2 ^ 6

unfoldable pub i_imm : Code → ℕ
i_imm c = c % 2 ^ 16

unfoldable pub j_imm : Code → ℕ
j_imm c = c % 2 ^ 26

unfoldable pub m_op : Code → ℕ
m_op c = c % 2 ^ 5

-- The constant that each switch of the source compares a field with.
unfoldable pub op_of : Code → Standard
unfolding i_op decode_standard
op_of c = decode_standard (i_op c)

unfoldable pub special_of : Code → Special
unfolding r_op decode_special
special_of c = decode_special (r_op c)

unfoldable pub regimm_of : Code → Regimm
unfolding rt decode_regimm
regimm_of c = decode_regimm (rt c)

unfoldable pub cp0_of : Code → Cp0
unfolding rs decode_cp0
cp0_of c = decode_cp0 (rs c)

unfoldable pub cp2_basic_of : Code → Cp2Basic
unfolding rs decode_cp2_basic
cp2_basic_of c = decode_cp2_basic (rs c)

unfoldable pub meta_of : Code → Meta
unfolding m_op decode_meta
meta_of c = decode_meta (m_op c)

pub rs-lt : (c : Code) → rs c < 32
unfolding rs
rs-lt c = omega arith

pub rt-lt : (c : Code) → rt c < 32
unfolding rt
rt-lt c = omega arith

pub rd-lt : (c : Code) → rd c < 32
unfolding rd
rd-lt c = omega arith

pub r_imm-lt : (c : Code) → r_imm c < 32
unfolding r_imm
r_imm-lt c = omega arith

pub r_op-lt : (c : Code) → r_op c < 64
unfolding r_op
r_op-lt c = omega arith

pub i_imm-lt : (c : Code) → i_imm c < 2 ^ 16
unfolding i_imm
i_imm-lt c = omega arith
