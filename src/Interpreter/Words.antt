-- ===== src/Interpreter/Words.antt =====
-- interpreter.c: the handlers that work on registers store words.
use lightrec.Base.{
  ℕ, ◌-◌, ◌*◌, ◌/◌, ◌^◌, ◌≤◌, ◌≡◌, IsU32, arith, bit_and, ◌==◌, ◌&&◌, if◌then◌else◌, Bool, true,
  false, Option, none, subst, shl, sub32, add32, inl, inr, Bool-cases,
}
use native.Mathlib.Nat.{div-le_self, mod-le}
use lightrec.Base.Bits.{
  bit_and-lt, bit_or-lt, bit_xor-lt, lnot-lt, shl-lt, shr-le, sra-lt, sext8-lt, sext16-lt,
}
use lightrec.Isa.{Opcode, Standard, Special, Meta, rs, rt, rd, r_imm, r_op, i_imm}
use lightrec.Isa.{i_imm-lt, op_of, special_of, meta_of}
use lightrec.Optimizer.{reg_lo, reg_hi}
use lightrec.Interpreter.Regs.{set_reg_nonzero}
use lightrec.Interpreter.Regs.{Gpr, AreWords, set_reg, set_reg-AreWords, set_reg_nonzero-AreWords}
use lightrec.Interpreter.Alu.{
  int_addi, int_slti, int_sltiu, int_andi, int_ori, int_xori, int_lui, int_special_sll,
  int_special_srl, int_special_sra, int_special_sllv, int_special_srlv, int_special_srav,
  int_special_mfhi, int_special_mthi, int_special_mflo, int_special_mtlo, int_special_mult,
  int_special_multu, int_special_div, int_special_divu, int_special_add, int_special_sub,
  int_special_and, int_special_or, int_special_xor, int_special_nor, int_special_slt,
  int_special_sltu, int_meta_mov, int_meta_extc, int_meta_exts, int_meta_mult2, int_meta_com,
  mult2_hi, write_hi_lo, abs32, sdiv32, smod32,
}
use lightrec.Interpreter.Table.{Effect, regs, of_option, special_effect, meta_effect}
use lightrec.Interpreter.Table.{effect_of, effect}

pub write_hi_lo-word :
    (op : Opcode) (hi lo : ℕ) (g : Gpr)
    → IsU32 hi
    → IsU32 lo
    → AreWords g
    → AreWords (write_hi_lo op hi lo g)
unfolding write_hi_lo set_reg
write_hi_lo-word op hi lo g hhi hlo words i = ground (arith, words i)

pub product-words : (a b : ℕ) → IsU32 a → IsU32 b → IsU32 (a * b / 2 ^ 32)
product-words a b ha hb = let bound : a * b ≤ 0xffffffff * 0xffffffff = grind arith in omega arith

pub sdiv32-word : (a b : ℕ) → IsU32 a → IsU32 (sdiv32 a b)
unfolding sdiv32
sdiv32-word a b ha = ground (arith, div-le_self (abs32 a) (abs32 b))

pub smod32-word : (a b : ℕ) → IsU32 a → IsU32 (smod32 a b)
unfolding smod32
smod32-word a b ha = ground (arith, mod-le (abs32 a) (abs32 b))

add32-lt : (a b : ℕ) → IsU32 (add32 a b)
unfolding add32
add32-lt a b = omega arith

sub32-lt : (a b : ℕ) → IsU32 (sub32 a b)
unfolding sub32
sub32-lt a b = omega arith

-- A result, if there is one, is a file of words.
abbrev WordsAfter : Effect → Type 0
WordsAfter (regs g) = AreWords g
WordsAfter _ = Unit {0}

WordsAfter-if :
    (b : Bool) (x y : Option Gpr)
    → WordsAfter (of_option x)
    → WordsAfter (of_option y)
    → WordsAfter (of_option (if b then x else y))
WordsAfter-if true x y p q = p
WordsAfter-if false x y p q = q

mult2_hi-word : (signed : Bool) (x k : ℕ) → IsU32 x → IsU32 (mult2_hi signed x k)
unfolding mult2_hi
mult2_hi-word signed x k h =
    ground (arith, h, sra-lt x 31 h, sra-lt x (32 - k) h, shr-le x (32 - k), shl-lt x (k - 32))

module _ (op : Opcode) (g : Gpr) (words : AreWords g) where
  at_rs : IsU32 (g (rs op.c))
  at_rs = words (rs op.c)

  at_rt : IsU32 (g (rt op.c))
  at_rt = words (rt op.c)

  small : (b : Bool) → IsU32 (if b then 1 else 0)
  small b = ground arith

  imm-word : IsU32 (i_imm op.c)
  imm-word = omega (arith, i_imm-lt op.c)

  -- A write of a word, with and without the test of the target.
  set_word : (r v : ℕ) → IsU32 v → WordsAfter (regs (set_reg r v g))
  set_word r v h = set_reg-AreWords r v g h words

  set_nonzero_word : (r v : ℕ) → IsU32 v → WordsAfter (regs (set_reg_nonzero r v g))
  set_nonzero_word r v h = set_reg_nonzero-AreWords r v g h words

  mult_div_word : (hi lo : ℕ) → IsU32 hi → IsU32 lo → WordsAfter (regs (write_hi_lo op hi lo g))
  mult_div_word hi lo hhi hlo = write_hi_lo-word op hi lo g hhi hlo words

  div_word : WordsAfter (of_option (int_special_div op g))
  unfolding int_special_div
  div_word = WordsAfter-if (g (rt op.c) == 0) _ _ (mult_div_word _ _ at_rs (ground arith)) (
      WordsAfter-if ((g (rs op.c) == 0x80000000) && (g (rt op.c) == 0xffffffff)) none _ tt
        (mult_div_word _ _ (smod32-word _ (g (rt op.c)) at_rs) (sdiv32-word _ (g (rt op.c)) at_rs)))

  divu_word : WordsAfter (regs (int_special_divu op g))
  unfolding int_special_divu
  divu_word = elim (Bool-cases (g (rt op.c) == 0)) [
    | inl z ↦ rw z (mult_div_word _ _ at_rs (omega arith))
    | inr nz ↦ rw nz (
        mult_div_word _ _ (omega (arith, mod-le (g (rs op.c)) (g (rt op.c)), at_rs))
          (omega (arith, div-le_self (g (rs op.c)) (g (rt op.c)), at_rs)))
  ]

  mult2_word : (signed : Bool) → WordsAfter (regs (int_meta_mult2 signed op g))
  unfolding int_meta_mult2 set_reg
  mult2_word signed i = ground (
    arith,
    words i,
    mult2_hi-word signed (g (rs op.c)) (r_op op.c) at_rs,
    shl-lt (g (rs op.c)) (r_op op.c),
  )

  special-words : (s : Special) → WordsAfter (special_effect s op g)
  unfolding special_effect
  special-words Special.sll = unfold int_special_sll in sll_word (op.c == 0)
    where
      sll_word :
          (b : Bool)
          → AreWords (if b then g else set_reg (rd op.c) (shl (g (rt op.c)) (r_imm op.c)) g)
      sll_word true = words
      sll_word false = set_word _ _ (shl-lt _ _)
  special-words Special.srl =
      unfold int_special_srl in
      set_word _ _ (omega (arith, shr-le (g (rt op.c)) (r_imm op.c), at_rt))
  special-words Special.sra = unfold int_special_sra in set_word _ _ (sra-lt _ _ at_rt)
  special-words Special.sllv = unfold int_special_sllv in set_word _ _ (shl-lt _ _)
  special-words Special.srlv =
      unfold int_special_srlv in
      set_word _ _ (omega (arith, shr-le (g (rt op.c)) (bit_and (g (rs op.c)) 0x1f), at_rt))
  special-words Special.srav = unfold int_special_srav in set_word _ _ (sra-lt _ _ at_rt)
  special-words Special.mfhi = unfold int_special_mfhi in set_nonzero_word _ _ (words reg_hi)
  special-words Special.mflo = unfold int_special_mflo in set_nonzero_word _ _ (words reg_lo)
  special-words Special.mthi = unfold int_special_mthi in set_word _ _ at_rs
  special-words Special.mtlo = unfold int_special_mtlo in set_word _ _ at_rs
  special-words Special.mult =
      unfold int_special_mult in mult_div_word _ _ (omega arith) (omega arith)
  special-words Special.multu =
      unfold int_special_multu in mult_div_word _ _ (product-words _ _ at_rs at_rt) (omega arith)
  special-words Special.add = unfold int_special_add in set_nonzero_word _ _ (add32-lt _ _)
  special-words Special.addu = unfold int_special_add in set_nonzero_word _ _ (add32-lt _ _)
  special-words Special.sub = unfold int_special_sub in set_nonzero_word _ _ (sub32-lt _ _)
  special-words Special.subu = unfold int_special_sub in set_nonzero_word _ _ (sub32-lt _ _)
  special-words Special.and =
      unfold int_special_and in set_nonzero_word _ _ (bit_and-lt (g (rs op.c)) _ at_rs)
  special-words Special.or =
      unfold int_special_or in set_nonzero_word _ _ (bit_or-lt _ _ at_rs at_rt)
  special-words Special.xor =
      unfold int_special_xor in set_nonzero_word _ _ (bit_xor-lt _ _ at_rs at_rt)
  special-words Special.nor = unfold int_special_nor in set_nonzero_word _ _ (lnot-lt _)
  special-words Special.slt = unfold int_special_slt in set_nonzero_word _ _ (small _)
  special-words Special.sltu = unfold int_special_sltu in set_nonzero_word _ _ (small _)
  special-words Special.div = div_word
  special-words Special.divu = divu_word
  special-words _ = tt

  meta-words : (m : Meta) → WordsAfter (meta_effect m op g)
  unfolding meta_effect
  meta-words Meta.mov = unfold int_meta_mov in set_nonzero_word _ _ at_rs
  meta-words Meta.extc = unfold int_meta_extc in set_nonzero_word _ _ (sext8-lt _)
  meta-words Meta.exts = unfold int_meta_exts in set_nonzero_word _ _ (sext16-lt _)
  meta-words Meta.complement = unfold int_meta_com in set_nonzero_word _ _ (lnot-lt _)
  meta-words Meta.unknown = tt

  standard-words : (o : Standard) → WordsAfter (effect_of o op g)
  unfolding effect_of
  standard-words Standard.special = special-words (special_of op.c)
  standard-words Standard.meta = meta-words (meta_of op.c)
  standard-words Standard.meta_mult2 = mult2_word true
  standard-words Standard.meta_multu2 = mult2_word false
  standard-words Standard.addi = unfold int_addi in set_nonzero_word _ _ (add32-lt _ _)
  standard-words Standard.addiu = unfold int_addi in set_nonzero_word _ _ (add32-lt _ _)
  standard-words Standard.slti = unfold int_slti in set_nonzero_word _ _ (small _)
  standard-words Standard.sltiu = unfold int_sltiu in set_nonzero_word _ _ (small _)
  standard-words Standard.andi =
      unfold int_andi in set_nonzero_word (rt op.c) _ (bit_and-lt (g (rs op.c)) (i_imm op.c) at_rs)
  standard-words Standard.ori =
      unfold int_ori in set_nonzero_word _ _ (bit_or-lt (g (rs op.c)) (i_imm op.c) at_rs imm-word)
  standard-words Standard.xori =
      unfold int_xori in set_nonzero_word _ _ (bit_xor-lt (g (rs op.c)) (i_imm op.c) at_rs imm-word)
  standard-words Standard.lui = unfold int_lui in set_word _ _ (shl-lt (i_imm op.c) 16)
  standard-words _ = tt

-- A handler that works on registers alone leaves words in all registers if all held words.
pub effect-AreWords : (op : Opcode) (g g' : Gpr) → AreWords g → effect op g ≡ regs g' → AreWords g'
unfolding effect
effect-AreWords op g g' words e = subst WordsAfter e (standard-words op g words (op_of op.c))
