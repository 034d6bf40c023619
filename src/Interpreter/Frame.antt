-- ===== src/Interpreter/Frame.antt =====
-- interpreter.c against optimizer.c: a handler writes no register outside `opcode_write_mask`.
use lightrec.Base.{
  ℕ, ◌^◌, ◌≡◌, ◌≢◌, inl, inr, refl, ap, arith, if◌then◌else◌, ◌==◌, Bool, true, false, subst,
  Option, none, ◌&&◌, shl, IsU32, ==_cases,
}
use lightrec.Base.Bits.{bit_of_zero}
use lightrec.Isa.{
  Opcode, Code, Standard, Special, Meta, rs, rt, rd, r_imm, op_of, special_of, meta_of,
}
use lightrec.Optimizer.{reg_lo, reg_hi}
use lightrec.Optimizer.{write_mask_of, special_write_mask, mult_div_write_mask}
use lightrec.Optimizer.{opcode_writes_register}
use lightrec.Optimizer.MaskBits.{any_bit_zero, IsOutside, ne_of_outside, IsOutside-bit_or}
use lightrec.Interpreter.Regs.{AreWords}
use lightrec.Interpreter.Regs.{Gpr, set_reg, set_reg_nonzero, set_reg_ne, set_reg_nonzero_ne}
use lightrec.Interpreter.Alu.{
  int_addi, int_slti, int_sltiu, int_andi, int_ori, int_xori, int_lui, int_special_sll,
  int_special_srl, int_special_sra, int_special_sllv, int_special_srlv, int_special_srav,
  int_special_mfhi, int_special_mthi, int_special_mflo, int_special_mtlo, int_special_mult,
  int_special_multu, int_special_div, int_special_divu, int_special_add, int_special_sub,
  int_special_and, int_special_or, int_special_xor, int_special_nor, int_special_slt,
  int_special_sltu, int_meta_mov, int_meta_extc, int_meta_exts, int_meta_mult2, int_meta_com,
  write_hi_lo, get_mult_div_lo, get_mult_div_hi,
}
use lightrec.Interpreter.Table.{Effect, regs, of_option, special_effect, meta_effect}
use lightrec.Interpreter.Table.{effect_of, effect}

-- Where the handler has a result, it agrees with `g` at every register outside the mask.
abbrev Frames : ℕ → Gpr → Effect → Type 0
Frames mask g (regs g') = (i : ℕ) → IsOutside mask i → g' i ≡ g i
Frames mask g _ = Unit {0}

module _ (g : Gpr) (r v : ℕ) where
  Frames-set : Frames (2 ^ r) g (regs (set_reg r v g))
  Frames-set i h = set_reg_ne r v g i (ne_of_outside r i h)

  Frames-set_nonzero : Frames (2 ^ r) g (regs (set_reg_nonzero r v g))
  Frames-set_nonzero i h = set_reg_nonzero_ne r v g i (ne_of_outside r i h)

module _ (m : ℕ) (g : Gpr) where
  Frames-if :
      (b : Bool) (x y : Option Gpr)
      → Frames m g (of_option x)
      → Frames m g (of_option y)
      → Frames m g (of_option (if b then x else y))
  Frames-if true x y p q = p
  Frames-if false x y p q = q

  Frames-if_regs :
      (b : Bool) (x y : Gpr)
      → Frames m g (regs x)
      → Frames m g (regs y)
      → Frames m g (regs (if b then x else y))
  Frames-if_regs true x y p q = p
  Frames-if_regs false x y p q = q

outside_choice :
    (b : Bool) (x y i : ℕ) → IsOutside (if b then 2 ^ x else 2 ^ y) i → (if b then x else y) ≢ i
outside_choice true x y i h = ne_of_outside x i h
outside_choice false x y i h = ne_of_outside y i h

-- `get_mult_div_lo` and `get_mult_div_hi` are the two registers of `mult_div_write_mask`.
mult_div_ne :
    (c : Code) (i : ℕ)
    → IsOutside (mult_div_write_mask c) i
    → (get_mult_div_lo c ≢ i) × (get_mult_div_hi c ≢ i)
unfolding mult_div_write_mask get_mult_div_lo get_mult_div_hi
mult_div_ne c i h =
    let p = IsOutside-bit_or _ _ i h in
    (
      outside_choice (rd c == 0) reg_lo (rd c) i p.0,
      outside_choice (r_imm c == 0) reg_hi (r_imm c) i p.1,
    )

Frames-write_hi_lo :
    (op : Opcode) (hi lo : ℕ) (g : Gpr)
    → Frames (mult_div_write_mask op.c) g (regs (write_hi_lo op hi lo g))
unfolding write_hi_lo set_reg
Frames-write_hi_lo op hi lo g i h = let ne = mult_div_ne op.c i h in ground arith

Frames-div :
    (op : Opcode) (g : Gpr) → Frames (mult_div_write_mask op.c) g (of_option (int_special_div op g))
unfolding int_special_div
Frames-div op g = Frames-if _ g (g (rt op.c) == 0) _ _ (Frames-write_hi_lo op _ _ g) (
    Frames-if _ g ((g (rs op.c) == 0x80000000) && (g (rt op.c) == 0xffffffff)) none _ tt
      (Frames-write_hi_lo op _ _ g))

Frames-divu :
    (op : Opcode) (g : Gpr) → Frames (mult_div_write_mask op.c) g (regs (int_special_divu op g))
unfolding int_special_divu
Frames-divu op g =
    Frames-if_regs _ g (g (rt op.c) == 0) _ _ (Frames-write_hi_lo op _ _ g)
      (Frames-write_hi_lo op _ _ g)

Frames-sll : (op : Opcode) (g : Gpr) → Frames (2 ^ rd op.c) g (regs (int_special_sll op g))
unfolding int_special_sll
Frames-sll op g = Frames-if_regs _ g (op.c == 0) _ _ (λ i h. refl) (Frames-set g _ _)

Frames-mult2 :
    (signed : Bool) (op : Opcode) (g : Gpr)
    → Frames (mult_div_write_mask op.c) g (regs (int_meta_mult2 signed op g))
unfolding int_meta_mult2 set_reg
Frames-mult2 signed op g i h = let ne = mult_div_ne op.c i h in ground arith

-- `sll rd, rt, 0` with a nonzero word: a register move for the interpreter, whose mask is empty.
unfoldable pub sll_move_of : Standard → Special → Code → Bool
sll_move_of Standard.special Special.sll c = r_imm c == 0
sll_move_of _ _ c = false

unfoldable pub is_sll_move : Code → Bool
unfolding sll_move_of
is_sll_move c = sll_move_of (op_of c) (special_of c) c

Frames-special :
    (s : Special) (op : Opcode) (g : Gpr)
    → sll_move_of Standard.special s op.c ≡ false
    → Frames (special_write_mask s op.c) g (special_effect s op g)
unfolding special_write_mask special_effect sll_move_of
Frames-special Special.sll op g h = rw h (Frames-sll op g)
Frames-special Special.srl op g h = unfold int_special_srl in Frames-set g _ _
Frames-special Special.sra op g h = unfold int_special_sra in Frames-set g _ _
Frames-special Special.sllv op g h = unfold int_special_sllv in Frames-set g _ _
Frames-special Special.srlv op g h = unfold int_special_srlv in Frames-set g _ _
Frames-special Special.srav op g h = unfold int_special_srav in Frames-set g _ _
Frames-special Special.mfhi op g h = unfold int_special_mfhi in Frames-set_nonzero g _ _
Frames-special Special.mthi op g h = unfold int_special_mthi in Frames-set g _ _
Frames-special Special.mflo op g h = unfold int_special_mflo in Frames-set_nonzero g _ _
Frames-special Special.mtlo op g h = unfold int_special_mtlo in Frames-set g _ _
Frames-special Special.mult op g h = unfold int_special_mult in Frames-write_hi_lo op _ _ g
Frames-special Special.multu op g h = unfold int_special_multu in Frames-write_hi_lo op _ _ g
Frames-special Special.div op g h = Frames-div op g
Frames-special Special.divu op g h = Frames-divu op g
Frames-special Special.add op g h = unfold int_special_add in Frames-set_nonzero g _ _
Frames-special Special.addu op g h = unfold int_special_add in Frames-set_nonzero g _ _
Frames-special Special.sub op g h = unfold int_special_sub in Frames-set_nonzero g _ _
Frames-special Special.subu op g h = unfold int_special_sub in Frames-set_nonzero g _ _
Frames-special Special.and op g h = unfold int_special_and in Frames-set_nonzero g _ _
Frames-special Special.or op g h = unfold int_special_or in Frames-set_nonzero g _ _
Frames-special Special.xor op g h = unfold int_special_xor in Frames-set_nonzero g _ _
Frames-special Special.nor op g h = unfold int_special_nor in Frames-set_nonzero g _ _
Frames-special Special.slt op g h = unfold int_special_slt in Frames-set_nonzero g _ _
Frames-special Special.sltu op g h = unfold int_special_sltu in Frames-set_nonzero g _ _
Frames-special _ op g h = tt

Frames-meta : (m : Meta) (op : Opcode) (g : Gpr) → Frames (2 ^ rd op.c) g (meta_effect m op g)
unfolding meta_effect
Frames-meta Meta.mov op g = unfold int_meta_mov in Frames-set_nonzero g _ _
Frames-meta Meta.extc op g = unfold int_meta_extc in Frames-set_nonzero g _ _
Frames-meta Meta.exts op g = unfold int_meta_exts in Frames-set_nonzero g _ _
Frames-meta Meta.complement op g = unfold int_meta_com in Frames-set_nonzero g _ _
Frames-meta Meta.unknown op g = tt

Frames-effect :
    (o : Standard) (op : Opcode) (g : Gpr)
    → sll_move_of o (special_of op.c) op.c ≡ false
    → Frames (write_mask_of o op.c) g (effect_of o op g)
unfolding write_mask_of effect_of
Frames-effect Standard.special op g h = Frames-special (special_of op.c) op g h
Frames-effect Standard.addi op g h = unfold int_addi in Frames-set_nonzero g _ _
Frames-effect Standard.addiu op g h = unfold int_addi in Frames-set_nonzero g _ _
Frames-effect Standard.slti op g h = unfold int_slti in Frames-set_nonzero g _ _
Frames-effect Standard.sltiu op g h = unfold int_sltiu in Frames-set_nonzero g _ _
Frames-effect Standard.andi op g h = unfold int_andi in Frames-set_nonzero g _ _
Frames-effect Standard.ori op g h = unfold int_ori in Frames-set_nonzero g _ _
Frames-effect Standard.xori op g h = unfold int_xori in Frames-set_nonzero g _ _
Frames-effect Standard.lui op g h = unfold int_lui in Frames-set g _ _
Frames-effect Standard.meta op g h = Frames-meta (meta_of op.c) op g
Frames-effect Standard.meta_mult2 op g h = Frames-mult2 true op g
Frames-effect Standard.meta_multu2 op g h = Frames-mult2 false op g
Frames-effect _ op g h = tt

regs_of : (m : ℕ) (g g' : Gpr) (e : Effect) → e ≡ regs g' → Frames m g e → Frames m g (regs g')
regs_of m g g' e p f = subst (Frames m g) p f

-- A handler that works on registers alone leaves each register that `opcode_writes_register` does
-- not name as it was, unless the opcode is `sll rd, rt, 0`.
pub effect_frame :
    (op : Opcode) (g g' : Gpr) (i : ℕ)
    → is_sll_move op.c ≡ false
    → effect op g ≡ regs g'
    → opcode_writes_register op.c i ≡ false
    → g' i ≡ g i
unfolding effect opcode_writes_register is_sll_move
effect_frame op g g' i h e out = regs_of _ g g' _ e (Frames-effect (op_of op.c) op g h) i out

shl-zero : (x : ℕ) → IsU32 x → shl x 0 ≡ x
unfolding shl
shl-zero x h = omega arith

int_special_sll-zero :
    (op : Opcode) (g : Gpr)
    → r_imm op.c ≡ 0
    → op.c ≢ 0
    → AreWords g
    → int_special_sll op g ≡ set_reg (rd op.c) (g (rt op.c)) g
unfolding int_special_sll
int_special_sll-zero op g z nz words = elim (==_cases op.c 0) [
  | inl e ↦ absurd (nz e)
  | inr ne ↦ rw (ne, z, shl-zero (g (rt op.c)) (words (rt op.c)))
]

-- On a register file of words, `sll rd, rt, 0` that is not the all-zero word copies `rt` into `rd`,
-- though `opcode_writes_register` names no register for it.
pub sll_move_unmasked :
    (op : Opcode) (g : Gpr) (i : ℕ)
    → op_of op.c ≡ Standard.special
    → special_of op.c ≡ Special.sll
    → r_imm op.c ≡ 0
    → op.c ≢ 0
    → AreWords g
    → (effect op g ≡ regs (set_reg (rd op.c) (g (rt op.c)) g))
      × (opcode_writes_register op.c i ≡ false)
unfolding effect opcode_writes_register
sll_move_unmasked op g i h k z nz words = (
  rw (h, k) (ap regs (int_special_sll-zero op g z nz words)),
  rw (h, k, z) (any_bit_zero 0 i (bit_of_zero i)),
)
