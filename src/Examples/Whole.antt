-- ===== src/Examples/Whole.antt =====
-- The theorems on opcodes, at a block of four.
use lightrec.Base.{
  ℕ, true, ◌==◌, if◌then◌else◌, ◌≡◌, ◌≢◌, arith, [], ◌∷◌, some, refl, false, add32, any_bit, xor,
  inl, inr, ==_cases, subst,
}
use lightrec.Base.Bits.{bit}
use lightrec.Isa
use lightrec.Isa.{Opcode, Standard, op_flag_no_ds, op_flag_sync}
use lightrec.Interpreter.Regs.{Gpr, AreWords, set_reg, set_reg_nonzero}
use lightrec.Interpreter.Alu
use lightrec.Interpreter.Table.{regs, special_effect, effect_of, effect}
use lightrec.Interpreter.Branch.{int_beq, branch_condition}
use lightrec.Interpreter.Link.{get_branch_pc, link_address}
use lightrec.Interpreter.Frame.{effect_frame, is_sll_move, sll_move_unmasked}
use lightrec.Optimizer.{opcode_writes_register, opcode_reads_register}
use lightrec.Interpreter.Reads.{effect_reads}
use lightrec.Constprop.Data.{Consts, constant}
use lightrec.Constprop.Describes.{Describes, DescribesAll, constant-Describes}
use lightrec.Constprop.Data.{set_const}
use lightrec.Constprop.Propagate.{
  Block, delay_slot_branch, after_branch, run_switch, propagate_prev, propagate_at,
  lightrec_consts_propagate, not_taken,
}
use lightrec.Constprop.Sound.NotTaken.{not_taken-DescribesAll}
use lightrec.Constprop.Shift.{srlv_consts, amount_is_known, or_known, or_consts}
use lightrec.Constprop.Switch.{link_value, special_case, standard_case}
use lightrec.Constprop.Sound.Step.{covered_standard, covered_special}
use lightrec.Constprop.Sound.Covered.{IsCovered}
use lightrec.Constprop.Divergence.{srlv_zero_stale, link_value-ne-link_address}
use lightrec.Constprop.Sound.Whole.{propagate-DescribesAll}
use lightrec.Examples.Cases.{narrow, narrow-Describes}

-- `bne r1, r2`, its delay slot `or r3, r1, r2`, `jal`, and `sll r5, r1, 0`.
abbrev bne_opcode : Opcode
bne_opcode = record { c = 0x14220004; flags = 0; source_pc = 0 }

abbrev pub or_opcode : Opcode
or_opcode = record { c = 0x00221825; flags = 0; source_pc = 4 }

abbrev pub jal_opcode : Opcode
jal_opcode = record { c = 0x0c000010; flags = 0; source_pc = 8 }

abbrev pub move_opcode : Opcode
move_opcode = record { c = 0x00012800; flags = 0; source_pc = 12 }

abbrev pub block : Block
block = record { pc = 0x1000; opcode_list = bne_opcode ∷ or_opcode ∷ jal_opcode ∷ move_opcode ∷ [] }

-- Registers 1 and 2 hold the same word.
abbrev pub before : Gpr
before r = if r == 1 then 0xfffff005 else if r == 2 then 0xfffff005 else 0

abbrev pub after : Gpr
after r = if 3 == r then 0xfffff005 else before r

pub before-AreWords : AreWords before
before-AreWords r = ground arith

-- Of register 1 only some digits are known.
abbrev pub consts : Consts
consts r = if r == 1 then narrow else constant (before r)

pub consts-DescribesAll : DescribesAll consts before
consts-DescribesAll r hr = elim (==_cases r 1) [
  | inl e ↦ rw e narrow-Describes
  | inr ne ↦ rw ne (constant-Describes (if r == 2 then 0xfffff005 else 0) (ground arith))
]

pub or_effect : effect or_opcode before ≡ regs after
unfolding effect effect_of special_effect Alu.int_special_or set_reg_nonzero set_reg Isa.op_of
    Isa.special_of Isa.rs Isa.rt Isa.rd Isa.i_op Isa.r_op
or_effect = refl

effect_frame_example : after 4 ≡ before 4
unfolding is_sll_move Isa.op_of Isa.special_of opcode_writes_register Isa.rd
effect_frame_example = effect_frame or_opcode before after 4 refl or_effect refl

not_taken-DescribesAll_example : DescribesAll (not_taken Standard.bne bne_opcode.c consts) before
unfolding branch_condition int_beq xor Isa.rs Isa.rt
not_taken-DescribesAll_example =
    not_taken-DescribesAll consts-DescribesAll refl bne_opcode.c Standard.bne refl

-- What the pass makes of `or r3, r1, r2` after the branch that was not taken.
abbrev propagated : Consts
propagated i =
    if 0 == i
    then constant 0
    else if 3 == i
    then record { value = 0xfffff005; known = 0xfffff005; sign = 0 }
    else if 0 == i
    then constant 0
    else consts i

propagate_result : lightrec_consts_propagate block 2 consts ≡ some propagated
unfolding lightrec_consts_propagate propagate_at propagate_prev after_branch delay_slot_branch
    not_taken run_switch standard_case special_case or_consts or_known set_const Isa.op_of
    Isa.special_of Isa.rs Isa.rt Isa.rd op_flag_sync op_flag_no_ds any_bit
propagate_result = refl

bne_not_taken : branch_condition (Isa.op_of bne_opcode.c) bne_opcode.c before ≡ false
unfolding branch_condition int_beq xor Isa.rs Isa.rt Isa.op_of
bne_not_taken = refl

some-injective : {x y : Opcode} → some x ≡ some y → x ≡ y
some-injective e = cc

propagate-DescribesAll_example : DescribesAll propagated after
unfolding Isa.op_of Isa.special_of covered_standard covered_special
propagate-DescribesAll_example =
    propagate-DescribesAll block 1 consts propagated before after or_opcode refl
      (IsCovered.as_it_stands refl) or_effect
      (λ b e.
        subst (λ (t : Opcode). branch_condition (Isa.op_of t.c) t.c before ≡ false)
          (some-injective e) bne_not_taken)
      refl refl before-AreWords consts-DescribesAll propagate_result

sll_move_unmasked_example :
    (effect move_opcode before ≡ regs (set_reg 5 0xfffff005 before))
    × (opcode_writes_register move_opcode.c 5 ≡ false)
unfolding Isa.op_of Isa.special_of Isa.r_imm Isa.rd Isa.rt
sll_move_unmasked_example =
    sll_move_unmasked move_opcode before 5 refl refl refl (omega arith) before-AreWords

-- A target whose upper half copied its sign.
srlv_zero_stale_example :
    ¬ Describes
      (srlv_consts (constant 0) (record { value = 0; known = 0; sign = 0 }) narrow)
      0x10000
unfolding amount_is_known bit
srlv_zero_stale_example =
    srlv_zero_stale (constant 0) (record { value = 0; known = 0; sign = 0 }) narrow 0x10000 16 refl
      refl (omega arith) refl (omega arith)

link_value-ne-link_address_example : link_value 0x1000 3 ≢ 0x1010
unfolding link_address get_branch_pc add32 op_flag_no_ds any_bit
link_value-ne-link_address_example =
    link_value-ne-link_address 0x1000 2 0x1010 block.opcode_list (omega arith) refl

-- `before` with another value in a register that `or_opcode` does not read.
abbrev elsewhere : Gpr
elsewhere r = if r == 7 then 9 else before r

abbrev elsewhere_after : Gpr
elsewhere_after r = if 3 == r then 0xfffff005 else elsewhere r

or_elsewhere : effect or_opcode elsewhere ≡ regs elsewhere_after
unfolding effect effect_of special_effect Alu.int_special_or set_reg_nonzero set_reg Isa.op_of
    Isa.special_of Isa.rs Isa.rt Isa.rd
or_elsewhere = refl

unread : opcode_reads_register or_opcode.c 7 ≡ false
unfolding opcode_reads_register Isa.op_of Isa.special_of Isa.rs Isa.rt any_bit
unread = refl

same_reads : (i : ℕ) → opcode_reads_register or_opcode.c i ≡ true → before i ≡ elsewhere i
same_reads i h = elim (==_cases i 7) [
  | inl e ↦ absurd (let u = rw e at h in cc (unread, u))
  | inr ne ↦ rw ne refl
]

effect_reads_example : after 3 ≡ elsewhere_after 3
unfolding is_sll_move Isa.op_of Isa.special_of
effect_reads_example =
    effect_reads or_opcode before elsewhere after elsewhere_after refl same_reads or_effect
      or_elsewhere 3 refl
