-- ===== src/Interpreter/Reads.antt =====
-- interpreter.c against optimizer.c: a handler reads no register outside `opcode_read_mask`.
use lightrec.Base.{
  ℕ, ◌^◌, ◌≡◌, arith, bit_or, any_bit, ◌==◌, ◌&&◌, if◌then◌else◌, Bool, true, false, Option, none,
  subst, refl,
}
use lightrec.Base.Bits.{bit-lt-two, bit-bit_or}
use lightrec.Base.Bits.Laws.{bit-pow_self}
use lightrec.Isa.{Opcode, Standard, Special, Meta, rs, rt, op_of, special_of, meta_of}
use lightrec.Optimizer.{reg_lo, reg_hi, read_mask_of, special_read_mask, opcode_reads_register}
use lightrec.Optimizer.MaskBits.{any_bit_one}
use lightrec.Interpreter.Regs.{Gpr, set_reg, set_reg_nonzero}
use lightrec.Interpreter.Alu.{
  int_addi, int_slti, int_sltiu, int_andi, int_ori, int_xori, int_lui, int_special_sll,
  int_special_srl, int_special_sra, int_special_sllv, int_special_srlv, int_special_srav,
  int_special_mfhi, int_special_mthi, int_special_mflo, int_special_mtlo, int_special_mult,
  int_special_multu, int_special_div, int_special_divu, int_special_add, int_special_sub,
  int_special_and, int_special_or, int_special_xor, int_special_nor, int_special_slt,
  int_special_sltu, int_meta_mov, int_meta_extc, int_meta_exts, int_meta_mult2, int_meta_com,
  write_hi_lo,
}
use lightrec.Interpreter.Table.{
  Effect, regs, undefined, other, of_option, special_effect, meta_effect,
}
use lightrec.Interpreter.Table.{effect_of, effect}
use lightrec.Interpreter.Frame.{sll_move_of, is_sll_move}

module _ (g h : Gpr) where
  -- The two files agree at each register of the mask.
  abbrev AgreeOn : ℕ → Type 0
  AgreeOn mask = (i : ℕ) → any_bit mask (2 ^ i) ≡ true → g i ≡ h i

  -- The two results agree wherever the files did, or neither is a register file.
  abbrev AgreeAfter : Effect → Effect → Type 0
  AgreeAfter (regs g') (regs h') = (i : ℕ) → g i ≡ h i → g' i ≡ h' i
  AgreeAfter undefined undefined = Unit {0}
  AgreeAfter other other = Unit {0}
  AgreeAfter _ _ = ⊥

  one_read : (r : ℕ) → AgreeOn (2 ^ r) → g r ≡ h r
  one_read r a = a r (any_bit_one (2 ^ r) r (bit-pow_self r))

  two_read : (r s : ℕ) → AgreeOn (bit_or (2 ^ r) (2 ^ s)) → (g r ≡ h r) × (g s ≡ h s)
  two_read r s a =
      let m = bit_or (2 ^ r) (2 ^ s) in
      (
        a r (
            any_bit_one m r
              (omega (arith, bit-bit_or (2 ^ r) (2 ^ s) r, bit-pow_self r, bit-lt-two (2 ^ s) r))),
        a s (
            any_bit_one m s
              (omega (arith, bit-bit_or (2 ^ r) (2 ^ s) s, bit-pow_self s, bit-lt-two (2 ^ r) s))),
      )

  agree_set : (r v w : ℕ) → v ≡ w → AgreeAfter (regs (set_reg r v g)) (regs (set_reg r w h))
  unfolding set_reg
  agree_set r v w e i a = ground arith

  agree_nonzero :
      (r v w : ℕ) → v ≡ w → AgreeAfter (regs (set_reg_nonzero r v g)) (regs (set_reg_nonzero r w h))
  unfolding set_reg_nonzero set_reg
  agree_nonzero r v w e i a = ground arith

  agree_hi_lo :
      (op : Opcode) (hi hi' lo lo' : ℕ)
      → hi ≡ hi'
      → lo ≡ lo'
      → AgreeAfter (regs (write_hi_lo op hi lo g)) (regs (write_hi_lo op hi' lo' h))
  unfolding write_hi_lo set_reg
  agree_hi_lo op hi hi' lo lo' e f i a = ground arith

  agree_if :
      (b : Bool) (x y x' y' : Option Gpr)
      → AgreeAfter (of_option x) (of_option x')
      → AgreeAfter (of_option y) (of_option y')
      → AgreeAfter (of_option (if b then x else y)) (of_option (if b then x' else y'))
  agree_if true x y x' y' p q = p
  agree_if false x y x' y' p q = q

  agree_if_regs :
      (b : Bool) (x y x' y' : Gpr)
      → AgreeAfter (regs x) (regs x')
      → AgreeAfter (regs y) (regs y')
      → AgreeAfter (regs (if b then x else y)) (regs (if b then x' else y'))
  agree_if_regs true x y x' y' p q = p
  agree_if_regs false x y x' y' p q = q

  agree_div :
      (op : Opcode)
      → (g (rs op.c) ≡ h (rs op.c)) × (g (rt op.c) ≡ h (rt op.c))
      → AgreeAfter (of_option (int_special_div op g)) (of_option (int_special_div op h))
  unfolding int_special_div
  agree_div op e =
      rw (e.0, e.1)
        (agree_if (h (rt op.c) == 0) _ _ _ _ (agree_hi_lo op _ _ _ _ refl refl) (
          agree_if ((h (rs op.c) == 0x80000000) && (h (rt op.c) == 0xffffffff)) none _ none _ tt
            (agree_hi_lo op _ _ _ _ refl refl)))

  agree_divu :
      (op : Opcode)
      → (g (rs op.c) ≡ h (rs op.c)) × (g (rt op.c) ≡ h (rt op.c))
      → AgreeAfter (regs (int_special_divu op g)) (regs (int_special_divu op h))
  unfolding int_special_divu
  agree_divu op e =
      rw (e.0, e.1)
        (agree_if_regs (h (rt op.c) == 0) _ _ _ _ (agree_hi_lo op _ _ _ _ refl refl)
          (agree_hi_lo op _ _ _ _ refl refl))

  agree_mult2 :
      (signed : Bool) (op : Opcode)
      → g (rs op.c) ≡ h (rs op.c)
      → AgreeAfter (regs (int_meta_mult2 signed op g)) (regs (int_meta_mult2 signed op h))
  unfolding int_meta_mult2 set_reg
  agree_mult2 signed op e i a = rw e (ground arith)

  module _ (op : Opcode) where
    reads_special :
        (s : Special)
        → sll_move_of Standard.special s op.c ≡ false
        → AgreeOn (special_read_mask s op.c)
        → AgreeAfter (special_effect s op g) (special_effect s op h)
    unfolding special_read_mask special_effect sll_move_of
    reads_special Special.sll m a =
        unfold int_special_sll in
        agree_if_regs (op.c == 0) _ _ _ _ (λ i e. e)
          (agree_set _ _ _ (let e = one_read (rt op.c) (rw m at a) in cc e))
    reads_special Special.srl m a =
        unfold int_special_srl in agree_set _ _ _ (let e = one_read (rt op.c) a in cc e)
    reads_special Special.sra m a =
        unfold int_special_sra in agree_set _ _ _ (let e = one_read (rt op.c) a in cc e)
    reads_special Special.sllv m a =
        unfold int_special_sllv in
        agree_set _ _ _ (let e = two_read (rs op.c) (rt op.c) a in cc (e.0, e.1))
    reads_special Special.srlv m a =
        unfold int_special_srlv in
        agree_set _ _ _ (let e = two_read (rs op.c) (rt op.c) a in cc (e.0, e.1))
    reads_special Special.srav m a =
        unfold int_special_srav in
        agree_set _ _ _ (let e = two_read (rs op.c) (rt op.c) a in cc (e.0, e.1))
    reads_special Special.mfhi m a =
        unfold int_special_mfhi in agree_nonzero _ _ _ (let e = one_read reg_hi a in cc e)
    reads_special Special.mflo m a =
        unfold int_special_mflo in agree_nonzero _ _ _ (let e = one_read reg_lo a in cc e)
    reads_special Special.mthi m a =
        unfold int_special_mthi in agree_set _ _ _ (let e = one_read (rs op.c) a in cc e)
    reads_special Special.mtlo m a =
        unfold int_special_mtlo in agree_set _ _ _ (let e = one_read (rs op.c) a in cc e)
    reads_special Special.mult m a =
        unfold int_special_mult in
        (let e = two_read (rs op.c) (rt op.c) a in
          agree_hi_lo op _ _ _ _ (cc (e.0, e.1)) (cc (e.0, e.1)))
    reads_special Special.multu m a =
        unfold int_special_multu in
        (let e = two_read (rs op.c) (rt op.c) a in
          agree_hi_lo op _ _ _ _ (cc (e.0, e.1)) (cc (e.0, e.1)))
    reads_special Special.div m a = agree_div op (two_read (rs op.c) (rt op.c) a)
    reads_special Special.divu m a = agree_divu op (two_read (rs op.c) (rt op.c) a)
    reads_special Special.add m a =
        unfold int_special_add in
        agree_nonzero _ _ _ (let e = two_read (rs op.c) (rt op.c) a in cc (e.0, e.1))
    reads_special Special.addu m a =
        unfold int_special_add in
        agree_nonzero _ _ _ (let e = two_read (rs op.c) (rt op.c) a in cc (e.0, e.1))
    reads_special Special.sub m a =
        unfold int_special_sub in
        agree_nonzero _ _ _ (let e = two_read (rs op.c) (rt op.c) a in cc (e.0, e.1))
    reads_special Special.subu m a =
        unfold int_special_sub in
        agree_nonzero _ _ _ (let e = two_read (rs op.c) (rt op.c) a in cc (e.0, e.1))
    reads_special Special.and m a =
        unfold int_special_and in
        agree_nonzero _ _ _ (let e = two_read (rs op.c) (rt op.c) a in cc (e.0, e.1))
    reads_special Special.or m a =
        unfold int_special_or in
        agree_nonzero _ _ _ (let e = two_read (rs op.c) (rt op.c) a in cc (e.0, e.1))
    reads_special Special.xor m a =
        unfold int_special_xor in
        agree_nonzero _ _ _ (let e = two_read (rs op.c) (rt op.c) a in cc (e.0, e.1))
    reads_special Special.nor m a =
        unfold int_special_nor in
        agree_nonzero _ _ _ (let e = two_read (rs op.c) (rt op.c) a in cc (e.0, e.1))
    reads_special Special.slt m a =
        unfold int_special_slt in
        agree_nonzero _ _ _ (let e = two_read (rs op.c) (rt op.c) a in cc (e.0, e.1))
    reads_special Special.sltu m a =
        unfold int_special_sltu in
        agree_nonzero _ _ _ (let e = two_read (rs op.c) (rt op.c) a in cc (e.0, e.1))
    reads_special _ m a = tt

    reads_meta :
        (m : Meta) → AgreeOn (2 ^ rs op.c) → AgreeAfter (meta_effect m op g) (meta_effect m op h)
    unfolding meta_effect
    reads_meta Meta.mov a =
        unfold int_meta_mov in agree_nonzero _ _ _ (let e = one_read (rs op.c) a in cc e)
    reads_meta Meta.extc a =
        unfold int_meta_extc in agree_nonzero _ _ _ (let e = one_read (rs op.c) a in cc e)
    reads_meta Meta.exts a =
        unfold int_meta_exts in agree_nonzero _ _ _ (let e = one_read (rs op.c) a in cc e)
    reads_meta Meta.complement a =
        unfold int_meta_com in agree_nonzero _ _ _ (let e = one_read (rs op.c) a in cc e)
    reads_meta Meta.unknown a = tt

    reads_standard :
        (o : Standard)
        → sll_move_of o (special_of op.c) op.c ≡ false
        → AgreeOn (read_mask_of o op.c)
        → AgreeAfter (effect_of o op g) (effect_of o op h)
    unfolding read_mask_of effect_of
    reads_standard Standard.special m a = reads_special (special_of op.c) m a
    reads_standard Standard.meta m a = reads_meta (meta_of op.c) a
    reads_standard Standard.meta_mult2 m a = agree_mult2 true op (one_read (rs op.c) a)
    reads_standard Standard.meta_multu2 m a = agree_mult2 false op (one_read (rs op.c) a)
    reads_standard Standard.lui m a = unfold int_lui in agree_set (rt op.c) _ _ refl
    reads_standard Standard.addi m a =
        unfold int_addi in agree_nonzero _ _ _ (let e = one_read (rs op.c) a in cc e)
    reads_standard Standard.addiu m a =
        unfold int_addi in agree_nonzero _ _ _ (let e = one_read (rs op.c) a in cc e)
    reads_standard Standard.slti m a =
        unfold int_slti in agree_nonzero _ _ _ (let e = one_read (rs op.c) a in cc e)
    reads_standard Standard.sltiu m a =
        unfold int_sltiu in agree_nonzero _ _ _ (let e = one_read (rs op.c) a in cc e)
    reads_standard Standard.andi m a =
        unfold int_andi in agree_nonzero _ _ _ (let e = one_read (rs op.c) a in cc e)
    reads_standard Standard.ori m a =
        unfold int_ori in agree_nonzero _ _ _ (let e = one_read (rs op.c) a in cc e)
    reads_standard Standard.xori m a =
        unfold int_xori in agree_nonzero _ _ _ (let e = one_read (rs op.c) a in cc e)
    reads_standard _ m a = tt

agree_regs :
    (g h g' h' : Gpr) (e f : Effect)
    → e ≡ regs g'
    → f ≡ regs h'
    → AgreeAfter g h e f
    → AgreeAfter g h (regs g') (regs h')
agree_regs g h g' h' e f p q a =
    subst (λ t. AgreeAfter g h (regs g') t) q (subst (λ t. AgreeAfter g h t f) p a)

-- Two register files that agree at every register that `opcode_reads_register` names: a handler
-- that works on registers alone leaves files that agree at every register where the two did, unless
-- the opcode is `sll rd, rt, 0`.
pub effect_reads :
    (op : Opcode) (g h g' h' : Gpr)
    → is_sll_move op.c ≡ false
    → ((i : ℕ) → opcode_reads_register op.c i ≡ true → g i ≡ h i)
    → effect op g ≡ regs g'
    → effect op h ≡ regs h'
    → (i : ℕ) → g i ≡ h i
    → g' i ≡ h' i
unfolding effect opcode_reads_register is_sll_move
effect_reads op g h g' h' m a e f =
    agree_regs g h g' h' _ _ e f (reads_standard g h op (op_of op.c) m a)
