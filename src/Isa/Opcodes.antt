-- ===== src/Isa/Opcodes.antt =====
-- disassembler.h: the opcode enumerations, and which constant a field holds.
use lightrec.Base.{ℕ, ◌==◌, if◌then◌else◌}

-- `enum standard_opcodes`: the primary opcode, bits 31 to 26; `unknown` is any other value.
pub data Standard : Type 0 where
  special regimm j jal beq bne blez bgtz addi addiu slti sltiu andi ori xori lui cp0 cp2 : Standard
  lb lh lwl lw lbu lhu lwr sb sh swl sw swr lwc2 swc2 meta_bios meta meta_mult2 : Standard
  meta_multu2 meta_lwu meta_swu : Standard
  unknown : Standard

unfoldable pub decode_standard : ℕ → Standard
decode_standard n =
    if n == 0x00
    then Standard.special
    else if n == 0x01
    then Standard.regimm
    else if n == 0x02
    then Standard.j
    else if n == 0x03
    then Standard.jal
    else if n == 0x04
    then Standard.beq
    else if n == 0x05
    then Standard.bne
    else if n == 0x06
    then Standard.blez
    else if n == 0x07
    then Standard.bgtz
    else if n == 0x08
    then Standard.addi
    else if n == 0x09
    then Standard.addiu
    else if n == 0x0a
    then Standard.slti
    else if n == 0x0b
    then Standard.sltiu
    else if n == 0x0c
    then Standard.andi
    else if n == 0x0d
    then Standard.ori
    else if n == 0x0e
    then Standard.xori
    else if n == 0x0f
    then Standard.lui
    else if n == 0x10
    then Standard.cp0
    else if n == 0x12
    then Standard.cp2
    else if n == 0x20
    then Standard.lb
    else if n == 0x21
    then Standard.lh
    else if n == 0x22
    then Standard.lwl
    else if n == 0x23
    then Standard.lw
    else if n == 0x24
    then Standard.lbu
    else if n == 0x25
    then Standard.lhu
    else if n == 0x26
    then Standard.lwr
    else if n == 0x28
    then Standard.sb
    else if n == 0x29
    then Standard.sh
    else if n == 0x2a
    then Standard.swl
    else if n == 0x2b
    then Standard.sw
    else if n == 0x2e
    then Standard.swr
    else if n == 0x32
    then Standard.lwc2
    else if n == 0x3a
    then Standard.swc2
    else if n == 0x3b
    then Standard.meta_bios
    else if n == 0x3c
    then Standard.meta
    else if n == 0x19
    then Standard.meta_mult2
    else if n == 0x1a
    then Standard.meta_multu2
    else if n == 0x1b
    then Standard.meta_lwu
    else if n == 0x1c
    then Standard.meta_swu
    else Standard.unknown

-- `enum special_opcodes`: the function code of `OP_SPECIAL`.
pub data Special : Type 0 where
  sll srl sra sllv srlv srav jr jalr syscall break mfhi mthi mflo mtlo mult multu div : Special
  divu add addu sub subu and or xor nor slt sltu : Special
  unknown : Special

unfoldable pub decode_special : ℕ → Special
decode_special n =
    if n == 0x00
    then Special.sll
    else if n == 0x02
    then Special.srl
    else if n == 0x03
    then Special.sra
    else if n == 0x04
    then Special.sllv
    else if n == 0x06
    then Special.srlv
    else if n == 0x07
    then Special.srav
    else if n == 0x08
    then Special.jr
    else if n == 0x09
    then Special.jalr
    else if n == 0x0c
    then Special.syscall
    else if n == 0x0d
    then Special.break
    else if n == 0x10
    then Special.mfhi
    else if n == 0x11
    then Special.mthi
    else if n == 0x12
    then Special.mflo
    else if n == 0x13
    then Special.mtlo
    else if n == 0x18
    then Special.mult
    else if n == 0x19
    then Special.multu
    else if n == 0x1a
    then Special.div
    else if n == 0x1b
    then Special.divu
    else if n == 0x20
    then Special.add
    else if n == 0x21
    then Special.addu
    else if n == 0x22
    then Special.sub
    else if n == 0x23
    then Special.subu
    else if n == 0x24
    then Special.and
    else if n == 0x25
    then Special.or
    else if n == 0x26
    then Special.xor
    else if n == 0x27
    then Special.nor
    else if n == 0x2a
    then Special.slt
    else if n == 0x2b
    then Special.sltu
    else Special.unknown

-- `enum regimm_opcodes`: the `rt` field of `OP_REGIMM`.
pub data Regimm : Type 0 where
  bltz bgez bltzal bgezal : Regimm
  unknown : Regimm

unfoldable pub decode_regimm : ℕ → Regimm
decode_regimm n =
    if n == 0x00
    then Regimm.bltz
    else if n == 0x01
    then Regimm.bgez
    else if n == 0x10
    then Regimm.bltzal
    else if n == 0x11
    then Regimm.bgezal
    else Regimm.unknown

-- `enum cp0_opcodes`: the `rs` field of `OP_CP0`.
pub data Cp0 : Type 0 where
  mfc0 cfc0 mtc0 ctc0 rfe : Cp0
  unknown : Cp0

unfoldable pub decode_cp0 : ℕ → Cp0
decode_cp0 n =
    if n == 0x00
    then Cp0.mfc0
    else if n == 0x02
    then Cp0.cfc0
    else if n == 0x04
    then Cp0.mtc0
    else if n == 0x06
    then Cp0.ctc0
    else if n == 0x10
    then Cp0.rfe
    else Cp0.unknown

-- `enum cp2_basic_opcodes`: the `rs` field of a `OP_CP2_BASIC` instruction.
pub data Cp2Basic : Type 0 where
  mfc2 cfc2 mtc2 ctc2 : Cp2Basic
  unknown : Cp2Basic

unfoldable pub decode_cp2_basic : ℕ → Cp2Basic
decode_cp2_basic n =
    if n == 0x00
    then Cp2Basic.mfc2
    else if n == 0x02
    then Cp2Basic.cfc2
    else if n == 0x04
    then Cp2Basic.mtc2
    else if n == 0x06
    then Cp2Basic.ctc2
    else Cp2Basic.unknown

-- `enum meta_opcodes`: the low five bits of `OP_META`.
pub data Meta : Type 0 where
  mov extc exts complement : Meta
  unknown : Meta

unfoldable pub decode_meta : ℕ → Meta
decode_meta n =
    if n == 0x00
    then Meta.mov
    else if n == 0x01
    then Meta.extc
    else if n == 0x02
    then Meta.exts
    else if n == 0x03
    then Meta.complement
    else Meta.unknown
