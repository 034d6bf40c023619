-- ===== src/Constprop/Sound/Step.antt =====
-- One opcode: the case of the switch describes the registers that the interpreter's handler leaves.
use lightrec.Base.{
  ℕ, ◌/◌, ◌%◌, ◌^◌, ◌<◌, ◌≤◌, ◌≡◌, ◌≢◌, IsU32, arith, sext16, inl, inr, Bool, Bool-cases, true,
  false, ◌&&◌, subst, refl, ==_cases, ◌==◌, if◌then◌else◌, Option, none,
}
use lightrec.Base.Bits.{shl-lt, sext16-lt}
use lightrec.Isa.{
  Opcode, Standard, Special, Meta, rs, rt, rd, r_imm, i_imm, op_of, special_of, meta_of,
}
use lightrec.Isa.{rs-lt, rt-lt, rd-lt, r_imm-lt, i_imm-lt}
use lightrec.Optimizer.{reg_lo, reg_hi}
use lightrec.Interpreter.Regs.{Gpr, AreWords, set_reg, set_reg_nonzero}
use lightrec.Interpreter.Regs.{set_reg_self, set_reg_ne, set_reg_nonzero_self, set_reg_nonzero_ne}
use lightrec.Interpreter.Alu.{
  int_slti, int_sltiu, int_andi, int_ori, int_xori, int_lui, int_special_sll, int_special_srl,
  int_special_sra, int_special_sllv, int_special_srav, int_special_mfhi, int_special_mthi,
  int_special_mflo, int_special_mtlo, int_special_mult, int_special_multu, int_special_div,
  int_special_divu, int_special_and, int_special_or, int_special_xor, int_special_nor,
  int_special_slt, int_special_sltu, int_meta_mov, int_meta_extc, int_meta_exts, int_meta_com,
  write_hi_lo,
}
use lightrec.Interpreter.Table.{Effect, regs, of_option, special_effect, meta_effect}
use lightrec.Interpreter.Table.{effect_of, effect}
use lightrec.Constprop.Data.{ConstpropData, Consts, set_const, constant, forget}
use lightrec.Constprop.Compare.{lightrec_propagate_slt}
use lightrec.Constprop.Switch.{standard_case, special_case, meta_case, forget_mult_div}
use lightrec.Constprop.Describes.{Describes, DescribesAll, constant-Describes, forget-Describes}
use lightrec.Constprop.Describes.{set_const_self, set_const_ne, Describes-eq}
use lightrec.Constprop.Shift.{sll_consts}
use native.Mathlib.Nat.{mod-le, div-le_self}
use lightrec.Constprop.Sound.MultDiv.{forget_mult_div-Describes}
use lightrec.Interpreter.Words.{product-words, sdiv32-word, smod32-word}
use lightrec.Constprop.Sound.Logic.{and-Describes, or-Describes, xor-Describes, nor-Describes}
use lightrec.Constprop.Sound.Shift.{
  sll-Describes, srl-Describes, sra-Describes, sllv-Describes, srav-Describes,
}
use lightrec.Constprop.Sound.Immediate.{andi-Describes, ori-Describes, xori-Describes}
use lightrec.Constprop.Sound.Extend.{com-Describes, extc-Describes, exts-Describes}
use lightrec.Constprop.Sound.Compare.{slt-Describes, sltu-Describes}

-- The function codes whose case is sound as it stands. The sums go through the carry loop, and SRLV
-- keeps a stale sign mask for a shift by zero.
unfoldable pub covered_special : Special → Bool
covered_special Special.add = false
covered_special Special.addu = false
covered_special Special.sub = false
covered_special Special.subu = false
covered_special Special.srlv = false
covered_special _ = true

unfoldable pub covered_standard : Standard → Special → Bool
unfolding covered_special
covered_standard Standard.special s = covered_special s
covered_standard Standard.addi s = false
covered_standard Standard.addiu s = false
covered_standard Standard.meta_mult2 s = false
covered_standard Standard.meta_multu2 s = false
covered_standard _ s = true

-- The array is right but for register 0, which the pass resets at its end.
abbrev pub DescribesAbove : Consts → Effect → Type 0
DescribesAbove v (regs g) = (r : ℕ) → 0 < r → r < 32 → Describes (v r) (g r)
DescribesAbove v _ = Unit {0}

module _ {v : Consts} {g : Gpr} (all : DescribesAll v g) where
  set-DescribesAbove :
      (t : ℕ) (d : ConstpropData) (x : ℕ)
      → Describes d x
      → DescribesAbove (set_const t d v) (regs (set_reg t x g))
  set-DescribesAbove t d x p r pos hr = elim (==_cases t r) [
    | inl e ↦ rw (← e) (Describes-eq (set_const_self t d v) (set_reg_self t x g) p)
    | inr ne ↦
        let h : t ≢ r = ground arith in
        Describes-eq (set_const_ne t d v r h) (set_reg_ne t x g r h) (all r hr)
  ]

  pub set_nonzero-DescribesAbove :
      (t : ℕ) (d : ConstpropData) (x : ℕ)
      → Describes d x
      → DescribesAbove (set_const t d v) (regs (set_reg_nonzero t x g))
  set_nonzero-DescribesAbove t d x p r pos hr = elim (==_cases t r) [
    | inl e ↦
        rw (← e)
          (Describes-eq (set_const_self t d v) (set_reg_nonzero_self t x g (omega (arith, e))) p)
    | inr ne ↦
        let h : t ≢ r = ground arith in
        Describes-eq (set_const_ne t d v r h) (set_reg_nonzero_ne t x g r h) (all r hr)
  ]

  forget-at : (t : ℕ) → t < 32 → (x : ℕ) → IsU32 x → Describes (forget (v t)) x
  forget-at t ht x hx = forget-Describes (v t) x ((all t ht).value_word) hx

module _ {v : Consts} {g : Gpr} (all : DescribesAll v g) (words : AreWords g) (op : Opcode) where
  operand_rs : Describes (v (rs op.c)) (g (rs op.c))
  operand_rs = all (rs op.c) (rs-lt op.c)

  operand_rt : Describes (v (rt op.c)) (g (rt op.c))
  operand_rt = all (rt op.c) (rt-lt op.c)

  mult_div :
      (hi lo : ℕ)
      → IsU32 hi
      → IsU32 lo
      → DescribesAbove (forget_mult_div op.c v) (regs (write_hi_lo op hi lo g))
  mult_div hi lo hhi hlo = forget_mult_div-Describes all words op hi lo hhi hlo

  DescribesAbove-if :
      (b : Bool) (e f : Option Gpr)
      → DescribesAbove (forget_mult_div op.c v) (of_option e)
      → DescribesAbove (forget_mult_div op.c v) (of_option f)
      → DescribesAbove (forget_mult_div op.c v) (of_option (if b then e else f))
  DescribesAbove-if true e f h k = h
  DescribesAbove-if false e f h k = k

  div_sound : DescribesAbove (forget_mult_div op.c v) (of_option (int_special_div op g))
  unfolding int_special_div
  div_sound =
      DescribesAbove-if (g (rt op.c) == 0) _ _ (mult_div _ _ (words (rs op.c)) (ground arith)) (
        DescribesAbove-if ((g (rs op.c) == 0x80000000) && (g (rt op.c) == 0xffffffff)) none _ tt (
          mult_div _ _ (smod32-word _ (g (rt op.c)) (words (rs op.c)))
            (sdiv32-word _ (g (rt op.c)) (words (rs op.c)))))

  divu_sound : DescribesAbove (forget_mult_div op.c v) (regs (int_special_divu op g))
  unfolding int_special_divu
  divu_sound = elim (Bool-cases (g (rt op.c) == 0)) [
    | inl z ↦ rw z (mult_div _ _ (words (rs op.c)) (omega arith))
    | inr nz ↦ rw nz (
        mult_div _ _ (omega (arith, mod-le (g (rs op.c)) (g (rt op.c)), words (rs op.c)))
          (omega (arith, div-le_self (g (rs op.c)) (g (rt op.c)), words (rs op.c))))
  ]

  sll_sound :
      DescribesAbove
        (set_const (rd op.c) (sll_consts (r_imm op.c) (v (rt op.c))) v)
        (regs (int_special_sll op g))
  unfolding int_special_sll
  sll_sound = elim (==_cases op.c 0) [
    | inl z ↦
        let e : (op.c == 0) ≡ true = ground arith in
        rw e (λ r pos hr.
          Describes-eq (set_const_ne (rd op.c) _ v r (nop_target r pos z)) refl (all r hr))
    | inr nz ↦
        rw nz (set-DescribesAbove all _ _ _ (sll-Describes (r_imm op.c) (r_imm-lt op.c) operand_rt))
  ]
    where
      nop_target : (r : ℕ) → 0 < r → op.c ≡ 0 → rd op.c ≢ r
      nop_target r pos z =
          unfold rd in (let e : op.c / 2 ^ 11 % 2 ^ 5 ≡ 0 = omega arith in omega arith)

  unchanged : (t x : ℕ) → 32 ≤ t → DescribesAbove v (regs (set_reg t x g))
  unchanged t x high r pos hr = Describes-eq refl (set_reg_ne t x g r (omega arith)) (all r hr)

  sound_special :
      (s : Special) (pc idx : ℕ)
      → covered_special s ≡ true
      → DescribesAbove (special_case s pc idx op.c v) (special_effect s op g)
  unfolding special_case special_effect covered_special
  sound_special Special.sll pc idx c = sll_sound
  sound_special Special.srl pc idx c =
      unfold int_special_srl in
      set-DescribesAbove all _ _ _ (srl-Describes (r_imm op.c) (r_imm-lt op.c) operand_rt)
  sound_special Special.sra pc idx c =
      unfold int_special_sra in
      set-DescribesAbove all _ _ _ (sra-Describes (r_imm op.c) (r_imm-lt op.c) operand_rt)
  sound_special Special.sllv pc idx c =
      unfold int_special_sllv in
      set-DescribesAbove all _ _ _ (
        sllv-Describes operand_rs operand_rt (v (rd op.c))
          ((all (rd op.c) (rd-lt op.c)).value_word))
  sound_special Special.srav pc idx c =
      unfold int_special_srav in
      set-DescribesAbove all _ _ _ (
        srav-Describes operand_rs operand_rt (v (rd op.c))
          ((all (rd op.c) (rd-lt op.c)).value_word))
  sound_special Special.mfhi pc idx c =
      unfold int_special_mfhi in
      set_nonzero-DescribesAbove all _ _ _ (forget-at all (rd op.c) (rd-lt op.c) _ (words reg_hi))
  sound_special Special.mflo pc idx c =
      unfold int_special_mflo in
      set_nonzero-DescribesAbove all _ _ _ (forget-at all (rd op.c) (rd-lt op.c) _ (words reg_lo))
  sound_special Special.mthi pc idx c = unfold int_special_mthi in unchanged reg_hi _ (omega arith)
  sound_special Special.mtlo pc idx c = unfold int_special_mtlo in unchanged reg_lo _ (omega arith)
  sound_special Special.mult pc idx c =
      unfold int_special_mult in mult_div _ _ (omega arith) (omega arith)
  sound_special Special.multu pc idx c =
      unfold int_special_multu in
      mult_div _ _ (product-words _ _ (words (rs op.c)) (words (rt op.c))) (omega arith)
  sound_special Special.div pc idx c = div_sound
  sound_special Special.divu pc idx c = divu_sound
  sound_special Special.and pc idx c =
      unfold int_special_and in
      set_nonzero-DescribesAbove all _ _ _ (and-Describes _ _ _ _ operand_rt operand_rs)
  sound_special Special.or pc idx c =
      unfold int_special_or in
      set_nonzero-DescribesAbove all _ _ _ (or-Describes _ _ _ _ operand_rt operand_rs)
  sound_special Special.xor pc idx c =
      unfold int_special_xor in
      set_nonzero-DescribesAbove all _ _ _ (xor-Describes _ _ _ _ operand_rt operand_rs)
  sound_special Special.nor pc idx c =
      unfold int_special_nor in
      set_nonzero-DescribesAbove all _ _ _ (nor-Describes _ _ _ _ operand_rt operand_rs)
  sound_special Special.slt pc idx c =
      unfold int_special_slt lightrec_propagate_slt in
      set_nonzero-DescribesAbove all _ _ _ (slt-Describes operand_rs operand_rt)
  sound_special Special.sltu pc idx c =
      unfold int_special_sltu lightrec_propagate_slt in
      set_nonzero-DescribesAbove all _ _ _ (sltu-Describes operand_rs operand_rt)
  sound_special Special.add pc idx c = cc
  sound_special Special.addu pc idx c = cc
  sound_special Special.sub pc idx c = cc
  sound_special Special.subu pc idx c = cc
  sound_special Special.srlv pc idx c = cc
  sound_special _ pc idx c = tt

  sound_meta : (m : Meta) → DescribesAbove (meta_case m op.c v) (meta_effect m op g)
  unfolding meta_case meta_effect
  sound_meta Meta.mov = unfold int_meta_mov in set_nonzero-DescribesAbove all _ _ _ operand_rs
  sound_meta Meta.extc =
      unfold int_meta_extc in set_nonzero-DescribesAbove all _ _ _ (extc-Describes operand_rs)
  sound_meta Meta.exts =
      unfold int_meta_exts in set_nonzero-DescribesAbove all _ _ _ (exts-Describes operand_rs)
  sound_meta Meta.complement =
      unfold int_meta_com in set_nonzero-DescribesAbove all _ _ _ (com-Describes operand_rs)
  sound_meta Meta.unknown = tt

  immediate : Describes (constant (sext16 (i_imm op.c))) (sext16 (i_imm op.c))
  immediate = constant-Describes _ (sext16-lt (i_imm op.c))

  sound_standard :
      (o : Standard) (pc idx : ℕ)
      → covered_standard o (special_of op.c) ≡ true
      → DescribesAbove (standard_case o pc idx op.c v) (effect_of o op g)
  unfolding standard_case effect_of covered_standard
  sound_standard Standard.special pc idx c = sound_special (special_of op.c) pc idx c
  sound_standard Standard.slti pc idx c =
      unfold int_slti lightrec_propagate_slt in
      set_nonzero-DescribesAbove all _ _ _ (slt-Describes operand_rs immediate)
  sound_standard Standard.sltiu pc idx c =
      unfold int_sltiu lightrec_propagate_slt in
      set_nonzero-DescribesAbove all _ _ _ (sltu-Describes operand_rs immediate)
  sound_standard Standard.andi pc idx c =
      unfold int_andi in
      set_nonzero-DescribesAbove all _ _ _ (andi-Describes operand_rs (i_imm op.c) (i_imm-lt op.c))
  sound_standard Standard.ori pc idx c =
      unfold int_ori in
      set_nonzero-DescribesAbove all _ _ _ (ori-Describes operand_rs (i_imm op.c) (i_imm-lt op.c))
  sound_standard Standard.xori pc idx c =
      unfold int_xori in
      set_nonzero-DescribesAbove all _ _ _ (xori-Describes operand_rs (i_imm op.c) (i_imm-lt op.c))
  sound_standard Standard.lui pc idx c =
      unfold int_lui in set-DescribesAbove all _ _ _ (constant-Describes _ (shl-lt (i_imm op.c) 16))
  sound_standard Standard.meta pc idx c = sound_meta (meta_of op.c)
  sound_standard Standard.addi pc idx c = cc
  sound_standard Standard.addiu pc idx c = cc
  sound_standard Standard.meta_mult2 pc idx c = cc
  sound_standard Standard.meta_multu2 pc idx c = cc
  sound_standard _ pc idx c = tt

module _ {v : Consts} {g : Gpr} (all : DescribesAll v g) (words : AreWords g) (op : Opcode) where
  -- The final reset of register 0 completes the array.
  pub step-DescribesAll :
      (g' : Gpr) (pc idx : ℕ)
      → covered_standard (op_of op.c) (special_of op.c) ≡ true
      → effect op g ≡ regs g'
      → g' 0 ≡ 0
      → DescribesAll (set_const 0 (constant 0) (standard_case (op_of op.c) pc idx op.c v)) g'
  unfolding effect
  step-DescribesAll g' pc idx c e z r hr = elim (==_cases 0 r) [
    | inl e0 ↦
        rw (← e0) (Describes-eq (set_const_self 0 _ _) z (constant-Describes 0 (omega arith)))
    | inr ne ↦ Describes-eq (set_const_ne 0 _ _ r (ground arith)) refl (
        (subst (DescribesAbove (standard_case (op_of op.c) pc idx op.c v)) e
            (sound_standard all words op (op_of op.c) pc idx c))
          r (ground arith) hr)
  ]
