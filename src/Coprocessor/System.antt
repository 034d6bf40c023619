-- ===== src/Coprocessor/System.antt =====
-- lightrec.c: coprocessor 0, and the moves from and to both coprocessors. The callbacks of
-- `struct lightrec_ops` are arguments.
use lightrec.Base.{
  ℕ, Bool, true, false, not, ◌&&◌, ◌||◌, ◌==◌, if◌then◌else◌, [], ◌∷◌, Option, none, some, bit_and,
  bit_or, lnot, shr, sext16, any_bit,
}
use lightrec.Isa.{Code, Standard, Cp2Basic, rt, rd, op_of, cp2_basic_of}
use lightrec.Interpreter.Regs.{set_reg}
use lightrec.Execution.Machine.{Machine}
use lightrec.Execution.Cycles.{lightrec_set_exit_flags, exit_check_interrupt}
use lightrec.Coprocessor.Gte.{among, lightrec_mfc2, lightrec_mtc2, lightrec_ctc2}

-- `ops.enable_ram` and `ops.cop2_notify`, with the opcode and the word.
abbrev pub EnableRam : Type 0
EnableRam = Bool → Machine → Machine

abbrev pub Cop2Notify : Type 0
Cop2Notify = ℕ → ℕ → Machine → Machine

unfoldable pub lightrec_invalidate_all : Machine → Machine
lightrec_invalidate_all m = record m { block_cache = record m.block_cache { code_lut = λ i. 0 } }

-- Bit 16 of the status register isolates the cache: RAM goes off while it is up.
unfoldable pub switch_ram : EnableRam → ℕ → Machine → Machine
unfolding any_bit lnot lightrec_invalidate_all
switch_ram enable_ram word m =
    let status = m.cp0 12 in
    if any_bit (bit_and status (lnot word)) 0x10000
    then lightrec_invalidate_all (enable_ram true m)
    else if any_bit (bit_and (lnot status) word) 0x10000
    then enable_ram false m
    else m

unfoldable pub write_cp0 : ℕ → ℕ → Machine → Machine
unfolding set_reg lnot
write_cp0 r word m = record m {
  cp0 =
      if r == 13
      then set_reg 13 (bit_or (bit_and (m.cp0 13) (lnot 0x300)) (bit_and word 0x300)) m.cp0
      else set_reg r word m.cp0;
}

-- The software interrupts, then those of the hardware.
unfoldable pub check_interrupts : ℕ → ℕ → Machine → Machine
unfolding any_bit lnot lightrec_set_exit_flags
check_interrupts r oldstatus m =
    let cause = m.cp0 13 in
    let status = m.cp0 12 in
    let soft =
      if any_bit (bit_and status cause) 0x300 && any_bit status 0x1
      then lightrec_set_exit_flags exit_check_interrupt m
      else m in
    if r == 12 && not (any_bit (lnot status) 0x401) && any_bit (lnot oldstatus) 0x401
    then lightrec_set_exit_flags exit_check_interrupt soft
    else soft

unfoldable pub lightrec_mtc0 : EnableRam → ℕ → ℕ → Machine → Machine
unfolding among switch_ram write_cp0 check_interrupts
lightrec_mtc0 enable_ram r word m =
    let switched = if r == 12 then switch_ram enable_ram word m else m in
    let written = write_cp0 r word switched in
    if among r (1 ∷ 4 ∷ 8 ∷ 14 ∷ 15 ∷ [])
    then m
    else if r == 12 || r == 13
    then check_interrupts r (m.cp0 12) written
    else written

unfoldable pub control_value : ℕ → (ℕ → ℕ) → ℕ
unfolding among sext16
control_value r cp2c =
    if among r (4 ∷ 12 ∷ 20 ∷ 26 ∷ 27 ∷ 29 ∷ 30 ∷ []) then sext16 (cp2c r) else cp2c r

unfoldable pub notify : Option Cop2Notify → ℕ → ℕ → Machine → Machine
notify none c word m = m
notify (some callback) c word m = callback c word m

-- `op.r.rs == OP_CP2_BASIC_MFC2` and `op.r.rs != OP_CP2_BASIC_CTC2`.
unfoldable pub is_mfc2_field : Cp2Basic → Bool
is_mfc2_field Cp2Basic.mfc2 = true
is_mfc2_field _ = false

unfoldable pub is_ctc2_field : Cp2Basic → Bool
is_ctc2_field Cp2Basic.ctc2 = true
is_ctc2_field _ = false

unfoldable pub cp2_value : Standard → Code → Machine → ℕ
unfolding lightrec_mfc2 is_mfc2_field control_value
cp2_value Standard.swc2 c m = lightrec_mfc2 (rt c) m.cp2d
cp2_value _ c m =
    if is_mfc2_field (cp2_basic_of c)
    then lightrec_mfc2 (rd c) m.cp2d
    else control_value (rd c) m.cp2c

unfoldable pub mfc_of : Option Cop2Notify → Standard → Code → Machine → ℕ × Machine
unfolding cp2_value notify
mfc_of callback Standard.cp0 c m = (m.cp0 (rd c), m)
mfc_of callback o c m = let val = cp2_value o c m in (val, notify callback c val m)

unfoldable pub lightrec_mfc : Option Cop2Notify → Code → Machine → ℕ × Machine
unfolding mfc_of
lightrec_mfc callback c m = mfc_of callback (op_of c) c m

unfoldable pub write_mfc : Standard → Code → ℕ → Machine → Machine
unfolding set_reg
write_mfc Standard.swc2 c val m = record m { temp_reg = val }
write_mfc _ c val m = if rt c == 0 then m else record m { gpr = set_reg (rt c) val m.gpr }

unfoldable pub lightrec_mfc_cb : Option Cop2Notify → Code → Machine → Machine
unfolding lightrec_mfc write_mfc
lightrec_mfc_cb callback c m = let r = lightrec_mfc callback c m in write_mfc (op_of c) c r.0 r.1

unfoldable pub write_cp2 : Standard → Code → ℕ → ℕ → Machine → Machine
unfolding is_ctc2_field lightrec_mtc2 lightrec_ctc2
write_cp2 Standard.lwc2 c r word m = record m { cp2d = lightrec_mtc2 r word m.cp2d }
write_cp2 _ c r word m =
    if is_ctc2_field (cp2_basic_of c)
    then record m { cp2c = lightrec_ctc2 r word m.cp2c }
    else record m { cp2d = lightrec_mtc2 r word m.cp2d }

unfoldable pub mtc_of : EnableRam → Option Cop2Notify → Standard → Code → ℕ → ℕ → Machine → Machine
unfolding lightrec_mtc0 write_cp2 notify
mtc_of enable_ram callback Standard.cp0 c r word m = lightrec_mtc0 enable_ram r word m
mtc_of enable_ram callback o c r word m = notify callback c word (write_cp2 o c r word m)

unfoldable pub lightrec_mtc : EnableRam → Option Cop2Notify → Code → ℕ → ℕ → Machine → Machine
unfolding mtc_of
lightrec_mtc enable_ram callback c r word m = mtc_of enable_ram callback (op_of c) c r word m

unfoldable pub lightrec_rfe : EnableRam → Machine → Machine
unfolding shr lnot lightrec_mtc0
lightrec_rfe enable_ram m =
    let status = m.cp0 12 in
    lightrec_mtc0 enable_ram 12 (bit_or (shr (bit_and status 0x3c) 2) (bit_and status (lnot 0xf))) m
