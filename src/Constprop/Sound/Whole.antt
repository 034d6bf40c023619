-- ===== src/Constprop/Sound/Whole.antt =====
-- `lightrec_consts_propagate` against the interpreter, opcode by opcode.
use lightrec.Base.{
  ℕ, suc, ◌-◌, ◌≡◌, arith, Bool-cases, false, not, ◌&&◌, ltb, inl, inr, Option, some, none,
  get_elem?, refl, subst, ==_cases,
}
use lightrec.Base.Bits.{bit_of_zero}
use lightrec.Isa.{Opcode, Standard, op_of, op_flag_sync, op_flag_no_ds}
use lightrec.Interpreter.Regs.{Gpr, AreWords}
use lightrec.Interpreter.Table.{regs, effect, effect_of}
use lightrec.Interpreter.Words.{effect-AreWords}
use lightrec.Interpreter.Branch.{branch_condition}
use lightrec.Constprop.Data.{Consts, set_const, constant}
use lightrec.Constprop.Propagate.{
  Block, forget_all, delay_slot_branch, after_branch, run_switch, propagate_prev, propagate_at,
  lightrec_consts_propagate,
}
use lightrec.Constprop.Describes.{
  Describes, DescribesAll, constant-Describes, set_const_self, set_const_ne,
}
use lightrec.Constprop.Describes.{Describes-eq}
use lightrec.Constprop.Sound.Covered.{
  IsCovered, AddsNoSign, IsCovered-AddsNoSign, AddsNoSign-refl, AddsNoSign-reset,
  not_taken-AddsNoSign, covered-DescribesAll,
}
use lightrec.Constprop.Sound.NotTaken.{not_taken-DescribesAll}

-- Entries for a register file with register 0 zero: nothing known of the others.
forget_all-DescribesAll :
    (v : Consts) (g : Gpr) → Describes (v 0) (g 0) → AreWords g → DescribesAll (forget_all v) g
unfolding forget_all
forget_all-DescribesAll v g h words r hr = elim (==_cases r 0) [
  | inl e ↦ rw e h
  | inr ne ↦ rw ne (record {
    word = words r;
    value_word = omega arith;
    known_word = omega arith;
    sign_word = omega arith;
    agrees = λ i hi k. absurd (omega (arith, bit_of_zero i));
    copies = λ i hi s. absurd (omega (arith, bit_of_zero i));
    upper = λ i j le hj s. absurd (omega (arith, bit_of_zero i));
  })
]

reset-DescribesAll :
    (v : Consts) (g : Gpr)
    → g 0 ≡ 0
    → DescribesAll v g
    → DescribesAll (set_const 0 (constant 0) v) g
reset-DescribesAll v g z all r hr = elim (==_cases 0 r) [
  | inl e ↦ rw (← e) (Describes-eq (set_const_self 0 _ v) z (constant-Describes 0 (omega arith)))
  | inr ne ↦ Describes-eq (set_const_ne 0 _ v r (ground arith)) refl (all r hr)
]

-- An opcode whose handler works on registers is no branch.
no_branch :
    (o : Standard) (op : Opcode) (g g' : Gpr)
    → effect_of o op g ≡ regs g'
    → branch_condition o op.c g ≡ false
unfolding effect_of branch_condition
no_branch Standard.beq op g g' e = cc
no_branch Standard.bne op g g' e = cc
no_branch Standard.blez op g g' e = cc
no_branch Standard.bgtz op g g' e = cc
no_branch Standard.regimm op g g' e = cc
no_branch _ op g g' e = refl

-- What a result describes, if there is one.
abbrev DescribesResult : Option Consts → Gpr → Type 0
DescribesResult none g = Unit {0}
DescribesResult (some v) g = DescribesAll v g

-- The array after the branch, which has no sign mask where the one before has none.
abbrev DescribesBranch : Consts → Option Consts → Gpr → Type 0
DescribesBranch v none g = Unit {0}
DescribesBranch v (some w) g = DescribesAll w g × AddsNoSign v w

module _ {v : Consts} {g g' : Gpr} (all : DescribesAll v g) (g0 : g 0 ≡ 0) (prev : Opcode)
    (runs : effect prev g ≡ regs g') where
  delay_slot_sound :
      (before : Option Opcode)
      → ((b : Opcode) → before ≡ some b → branch_condition (op_of b.c) b.c g ≡ false)
      → DescribesBranch v (delay_slot_branch prev before v) g
  unfolding delay_slot_branch effect
  delay_slot_sound (some b) h = elim (Bool-cases (op_flag_no_ds prev.flags)) [
    | inl e ↦ rw e (
      not_taken-DescribesAll all g0 prev.c (op_of prev.c) (no_branch (op_of prev.c) prev g g' runs),
      not_taken-AddsNoSign (op_of prev.c) prev.c v,
    )
    | inr e ↦ rw e (
      not_taken-DescribesAll all g0 b.c (op_of b.c) (h b refl),
      not_taken-AddsNoSign (op_of b.c) b.c v,
    )
  ]
  delay_slot_sound none h = elim (Bool-cases (op_flag_no_ds prev.flags)) [
    | inl e ↦ rw e (
      not_taken-DescribesAll all g0 prev.c (op_of prev.c) (no_branch (op_of prev.c) prev g g' runs),
      not_taken-AddsNoSign (op_of prev.c) prev.c v,
    )
    | inr e ↦ rw e tt
  ]

  after_branch_sound :
      (idx : ℕ) (before : Option Opcode)
      → ((b : Opcode) → before ≡ some b → branch_condition (op_of b.c) b.c g ≡ false)
      → DescribesBranch v (after_branch idx prev before v) g
  unfolding after_branch
  after_branch_sound idx before h = elim (Bool-cases (ltb 1 idx && not (op_flag_sync prev.flags))) [
    | inl e ↦ rw e (delay_slot_sound before h)
    | inr e ↦ rw e (all, AddsNoSign-refl v)
  ]

  module _ (words : AreWords g) (g'0 : g' 0 ≡ 0) (covered : IsCovered prev.c v) where
    run_switch_sound :
        (pc idx : ℕ) (r : Option Consts)
        → DescribesBranch v r g
        → DescribesResult (run_switch pc idx prev r) g'
    unfolding run_switch
    run_switch_sound pc idx none h = tt
    run_switch_sound pc idx (some w) h =
        covered-DescribesAll h.0 prev words g' pc idx (IsCovered-AddsNoSign h.1 covered) runs g'0

    propagate_at_sound :
        (pc idx : ℕ) (cur before : Option Opcode)
        → AreWords g'
        → ((b : Opcode) → before ≡ some b → branch_condition (op_of b.c) b.c g ≡ false)
        → Describes (v 0) (g' 0)
        → DescribesResult (propagate_at pc idx cur (some prev) before v) g'
    unfolding propagate_at propagate_prev
    propagate_at_sound pc idx none before words' h zero' = tt
    propagate_at_sound pc idx (some cur) before words' h zero' =
        elim (Bool-cases (op_flag_sync cur.flags)) [
          | inl e ↦ rw e (forget_all-DescribesAll v g' zero' words')
          | inr e ↦ rw e (run_switch_sound pc idx _ (after_branch_sound idx before h))
        ]

-- If the array describes the registers before opcode `i`, then what `lightrec_consts_propagate`
-- returns for index `i + 1` describes the registers that the interpreter's handler of opcode `i`
-- leaves. Conditions: opcode `i` works on registers alone, and is no difference, no SRLV and no
-- multiplication by a power of two; if it is a sum, the entries of its operands have no sign mask;
-- the branch that it may be the delay slot of is not taken; register 0 is zero before and after; and
-- the registers hold words before.
pub propagate-DescribesAll :
    (block : Block) (i : ℕ) (v w : Consts) (g g' : Gpr) (prev : Opcode)
    → get_elem? block.opcode_list i ≡ some prev
    → IsCovered prev.c v
    → effect prev g ≡ regs g'
    → ((b : Opcode)
        → get_elem? block.opcode_list (i - 1) ≡ some b
        → branch_condition (op_of b.c) b.c g ≡ false)
    → g 0 ≡ 0
    → g' 0 ≡ 0
    → AreWords g
    → DescribesAll v g
    → lightrec_consts_propagate block (suc i) v ≡ some w
    → DescribesAll w g'
unfolding lightrec_consts_propagate
propagate-DescribesAll block i v w g g' prev at covered runs branch g0 g'0 words all result =
    subst (λ r. DescribesResult r g') result
      (rw at (
        propagate_at_sound (reset-DescribesAll v g g0 all) g0 prev runs words g'0
          (IsCovered-AddsNoSign (AddsNoSign-reset v) covered) block.pc (suc i)
          (get_elem? block.opcode_list (suc i)) (get_elem? block.opcode_list (i - 1))
          (effect-AreWords prev g g' words runs) branch
          (Describes-eq (set_const_self 0 _ v) g'0 (constant-Describes 0 (omega arith)))))
