-- ===== src/Constprop/Sound/Covered.antt =====
-- The opcodes that the soundness of `lightrec_consts_propagate` covers.
use lightrec.Base.{
  ℕ, ◌≡◌, ◌⊎◌, refl, sym, ◌∙◌, ap, arith, true, inl, inr, subst, add32, sext16, ==_cases, ◌==◌,
  Bool-cases,
}
use lightrec.Isa.{
  Code, Opcode, Standard, Special, Regimm, rs, rt, rd, i_imm, op_of, special_of, regimm_of, rs-lt,
  rt-lt, rd-lt,
}
use lightrec.Interpreter.Regs.{Gpr, AreWords, set_reg_nonzero}
use lightrec.Interpreter.Alu.{int_addi, int_special_add}
use lightrec.Interpreter.Table.{Effect, regs, effect, effect_of, special_effect}
use lightrec.Constprop.Data.{ConstpropData, Consts, set_const, constant}
use lightrec.Constprop.Switch.{standard_case, special_case, add_case, addi_case}
use lightrec.Constprop.Propagate.{not_taken, regimm_not_taken, top_clear, top_set}
use lightrec.Constprop.Describes.{
  DescribesAll, Describes-eq, constant-Describes, set_const_self, set_const_ne,
}
use lightrec.Constprop.Sound.Step.{covered_standard, step-DescribesAll, DescribesAbove}
use lightrec.Constprop.Sound.Addition.{add_case-DescribesAbove, addi_case-DescribesAbove}

-- The cases that are sound as they stand, and the sums of operands whose entries have no sign mask.
pub data IsCovered (c : Code) (v : Consts) : Type 0 where
  as_it_stands : covered_standard (op_of c) (special_of c) ≡ true → IsCovered c v
  sum :
      op_of c ≡ Standard.special
      → (special_of c ≡ Special.add) ⊎ (special_of c ≡ Special.addu)
      → (v (rs c)).sign ≡ 0
      → (v (rt c)).sign ≡ 0
      → IsCovered c v
  sum_of_immediate :
      (op_of c ≡ Standard.addi) ⊎ (op_of c ≡ Standard.addiu) → (v (rs c)).sign ≡ 0 → IsCovered c v

-- No sign mask appears.
abbrev pub AddsNoSign : Consts → Consts → Type 0
AddsNoSign v w = (r : ℕ) → (v r).sign ≡ 0 → (w r).sign ≡ 0

pub AddsNoSign-refl : (v : Consts) → AddsNoSign v v
AddsNoSign-refl v r h = h

pub IsCovered-AddsNoSign :
    {c : Code} {v w : Consts} → AddsNoSign v w → IsCovered c v → IsCovered c w
IsCovered-AddsNoSign k (as_it_stands h) = as_it_stands h
IsCovered-AddsNoSign {c} k (sum e f a b) = sum e f (k (rs c) a) (k (rt c) b)
IsCovered-AddsNoSign {c} k (sum_of_immediate e a) = sum_of_immediate e (k (rs c) a)

set_const-AddsNoSign :
    (s : ℕ) (d : ConstpropData) (v : Consts)
    → ((v s).sign ≡ 0 → d.sign ≡ 0)
    → AddsNoSign v (set_const s d v)
set_const-AddsNoSign s d v h r z = elim (==_cases s r) [
  | inl e ↦ rw (← e) (ap (λ (t : ConstpropData). t.sign) (set_const_self s d v) ∙ h (rw (← e) at z))
  | inr ne ↦ ap (λ (t : ConstpropData). t.sign) (set_const_ne s d v r (ground arith)) ∙ z
]

pub AddsNoSign-reset : (v : Consts) → AddsNoSign v (set_const 0 (constant 0) v)
AddsNoSign-reset v = set_const-AddsNoSign 0 (constant 0) v (λ h. refl)

regimm-AddsNoSign : (r : Regimm) (c : Code) (v : Consts) → AddsNoSign v (regimm_not_taken r c v)
unfolding regimm_not_taken
regimm-AddsNoSign Regimm.bltz c v = set_const-AddsNoSign (rs c) (top_clear (v (rs c))) v (λ h. h)
regimm-AddsNoSign Regimm.bltzal c v = set_const-AddsNoSign (rs c) (top_clear (v (rs c))) v (λ h. h)
regimm-AddsNoSign Regimm.bgez c v = set_const-AddsNoSign (rs c) (top_set (v (rs c))) v (λ h. h)
regimm-AddsNoSign Regimm.bgezal c v = set_const-AddsNoSign (rs c) (top_set (v (rs c))) v (λ h. h)
regimm-AddsNoSign Regimm.unknown c v = AddsNoSign-refl v

pub not_taken-AddsNoSign : (o : Standard) (c : Code) (v : Consts) → AddsNoSign v (not_taken o c v)
unfolding not_taken
not_taken-AddsNoSign Standard.bne c v = elim (Bool-cases (rs c == 0)) [
  | inl y ↦ rw y (set_const-AddsNoSign (rt c) (constant 0) v (λ h. refl))
  | inr n ↦ elim (Bool-cases (rt c == 0)) [
    | inl y ↦ rw (n, y) (set_const-AddsNoSign (rs c) (constant 0) v (λ h. refl))
    | inr m ↦ rw (n, m) (AddsNoSign-refl v)
  ]
]
not_taken-AddsNoSign Standard.blez c v =
    set_const-AddsNoSign (rs c) (top_clear (v (rs c))) v (λ h. h)
not_taken-AddsNoSign Standard.regimm c v = regimm-AddsNoSign (regimm_of c) c v
not_taken-AddsNoSign _ c v = AddsNoSign-refl v

module _ {v : Consts} {g : Gpr} (all : DescribesAll v g) (op : Opcode) where
  -- The final reset of register 0 completes the array.
  reset-DescribesAll :
      (w : Consts) (g' : Gpr)
      → DescribesAbove w (effect op g)
      → effect op g ≡ regs g'
      → g' 0 ≡ 0
      → DescribesAll (set_const 0 (constant 0) w) g'
  reset-DescribesAll w g' above e z r hr = elim (==_cases 0 r) [
    | inl e0 ↦
        rw (← e0) (Describes-eq (set_const_self 0 _ w) z (constant-Describes 0 (omega arith)))
    | inr ne ↦
        Describes-eq (set_const_ne 0 _ w r (ground arith)) refl
          ((subst (DescribesAbove w) e above) r (ground arith) hr)
  ]

  sum_case :
      (pc idx : ℕ)
      → op_of op.c ≡ Standard.special
      → (special_of op.c ≡ Special.add) ⊎ (special_of op.c ≡ Special.addu)
      → standard_case (op_of op.c) pc idx op.c v ≡ add_case (rs op.c) (rt op.c) (rd op.c) v
  unfolding standard_case special_case
  sum_case pc idx e (inl f) =
      ap (λ (o : Standard). standard_case o pc idx op.c v) e
      ∙ ap (λ (s : Special). special_case s pc idx op.c v) f
  sum_case pc idx e (inr f) =
      ap (λ (o : Standard). standard_case o pc idx op.c v) e
      ∙ ap (λ (s : Special). special_case s pc idx op.c v) f

  sum_effect :
      op_of op.c ≡ Standard.special
      → (special_of op.c ≡ Special.add) ⊎ (special_of op.c ≡ Special.addu)
      → effect op g ≡ regs (set_reg_nonzero (rd op.c) (add32 (g (rs op.c)) (g (rt op.c))) g)
  unfolding effect effect_of special_effect int_special_add
  sum_effect e (inl f) =
      ap (λ (o : Standard). effect_of o op g) e ∙ ap (λ (s : Special). special_effect s op g) f
  sum_effect e (inr f) =
      ap (λ (o : Standard). effect_of o op g) e ∙ ap (λ (s : Special). special_effect s op g) f

  immediate_case :
      (pc idx : ℕ)
      → (op_of op.c ≡ Standard.addi) ⊎ (op_of op.c ≡ Standard.addiu)
      → standard_case (op_of op.c) pc idx op.c v ≡ addi_case op.c v
  unfolding standard_case
  immediate_case pc idx (inl e) = ap (λ (o : Standard). standard_case o pc idx op.c v) e
  immediate_case pc idx (inr e) = ap (λ (o : Standard). standard_case o pc idx op.c v) e

  immediate_effect :
      (op_of op.c ≡ Standard.addi) ⊎ (op_of op.c ≡ Standard.addiu)
      → effect op g ≡ regs (set_reg_nonzero (rt op.c) (add32 (g (rs op.c)) (sext16 (i_imm op.c))) g)
  unfolding effect effect_of int_addi
  immediate_effect (inl e) = ap (λ (o : Standard). effect_of o op g) e
  immediate_effect (inr e) = ap (λ (o : Standard). effect_of o op g) e

  along : {a w : Consts} {e f : Effect} → w ≡ a → e ≡ f → DescribesAbove a f → DescribesAbove w e
  along {a} {w} {e} {f} p q h =
      subst (λ (t : Consts). DescribesAbove t e) (sym p) (subst (DescribesAbove a) (sym q) h)

  pub covered-DescribesAll :
      AreWords g
      → (g' : Gpr) (pc idx : ℕ) → IsCovered op.c v
      → effect op g ≡ regs g'
      → g' 0 ≡ 0
      → DescribesAll (set_const 0 (constant 0) (standard_case (op_of op.c) pc idx op.c v)) g'
  covered-DescribesAll words g' pc idx (as_it_stands c) e z =
      step-DescribesAll all words op g' pc idx c e z
  covered-DescribesAll words g' pc idx (sum o s a b) e z =
      reset-DescribesAll (standard_case (op_of op.c) pc idx op.c v) g'
        (along (sum_case pc idx o s) (sum_effect o s) (
          add_case-DescribesAbove all (rs op.c) (rt op.c) (rd op.c) (rs-lt op.c) (rt-lt op.c)
            (rd-lt op.c) a b))
        e z
  covered-DescribesAll words g' pc idx (sum_of_immediate o a) e z =
      reset-DescribesAll (standard_case (op_of op.c) pc idx op.c v) g'
        (along (immediate_case pc idx o) (immediate_effect o) (addi_case-DescribesAbove all op.c a))
        e z
