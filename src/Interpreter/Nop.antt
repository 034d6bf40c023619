-- ===== src/Interpreter/Nop.antt =====
-- optimizer.c: an opcode that `is_nop` accepts leaves the registers as they were.
use lightrec.Base.{
  ℕ, ◌≡◌, ◌≢◌, arith, true, false, refl, inl, inr, ◌⊎◌, Bool, Bool-cases, ==_cases, ==_iff, ◌&&◌,
  ◌||◌, ◌==◌, if◌then◌else◌, bit_and, bit_or, add32, sub32, shl, shr, sra, sext16, subst,
}
use lightrec.Base.Bits.{
  add32_zero_left, add32_zero_right, sub32_zero, shl_zero, shr_zero, sra_zero, bit_and_self,
  bit_or_self, bit_or_zero_left, bit_or_zero_right,
}
use lightrec.Isa.{Opcode, Standard, Special, rs, rt, rd, r_imm, i_imm, op_of, special_of}
use lightrec.Optimizer.{
  opcode_writes_register, is_nop, is_plain_nop, is_special_nop, reg_lo, reg_hi,
}
use lightrec.Interpreter.Regs.{Gpr, AreWords, set_reg, set_reg_nonzero}
use lightrec.Interpreter.Alu.{
  int_addi, int_ori, int_special_sll, int_special_srl, int_special_sra, int_special_mfhi,
  int_special_mflo, int_special_add, int_special_sub, int_special_and, int_special_or,
}
use lightrec.Interpreter.Table.{Effect, regs, special_effect, effect_of, effect}
use lightrec.Interpreter.Frame.{effect_frame, is_sll_move}
use lightrec.Interpreter.OnlyZero.{OnlyZero-standard, standard-not_sll_move}

-- Where the handler has a result, it agrees with `g`.
abbrev Keeps : Gpr → Effect → Type 0
Keeps g (regs g') = (i : ℕ) → g' i ≡ g i
Keeps g _ = Unit {0}

keep_set : (g : Gpr) (r v : ℕ) → v ≡ g r → Keeps g (regs (set_reg r v g))
unfolding set_reg
keep_set g r v e i = ground arith

keep_nonzero : (g : Gpr) (r v : ℕ) → v ≡ g r → Keeps g (regs (set_reg_nonzero r v g))
unfolding set_reg_nonzero
keep_nonzero g r v e i = elim (==_cases r 0) [
  | inl z ↦ rw z refl
  | inr ne ↦ rw ne (keep_set g r v e i)
]

keep_zero : (g : Gpr) (r v : ℕ) → r ≡ 0 → Keeps g (regs (set_reg_nonzero r v g))
unfolding set_reg_nonzero
keep_zero g r v e i = rw e refl

-- The three ways in which a disjunction with itself or with zero gives the target back.
or_cases :
    (d t s : ℕ)
    → (if d == t then d == s || s == 0 else d == s && t == 0) ≡ true
    → ((d ≡ t) × (d ≡ s)) ⊎ ((d ≡ t) × (s ≡ 0)) ⊎ ((d ≡ s) × (t ≡ 0))
or_cases d t s h = ground arith

-- Reading a conjunction or a disjunction of tests on register numbers.
both : (a b c d : ℕ) → (a == b && c == d) ≡ true → (a ≡ b) × (c ≡ d)
both a b c d h = ground arith

either :
    (a b c d e f g h : ℕ)
    → (a == b && c == d || e == f && g == h) ≡ true
    → ((a ≡ b) × (c ≡ d)) ⊎ ((e ≡ f) × (g ≡ h))
either a b c d e f g h t = elim (Bool-cases (a == b && c == d)) [
  | inl y ↦ inl (both a b c d y)
  | inr n ↦ inr (both e f g h (rw n at t))
]

module _ (op : Opcode) (g : Gpr) (g0 : g 0 ≡ 0) (words : AreWords g) where
  add_value : (d t s : ℕ) → ((d ≡ t) × (s ≡ 0)) ⊎ ((d ≡ s) × (t ≡ 0)) → add32 (g s) (g t) ≡ g d
  add_value d t s (inl e) = rw (e.1, e.0, g0) (add32_zero_left (g t) (words t))
  add_value d t s (inr e) = rw (e.1, e.0, g0) (add32_zero_right (g s) (words s))

  or_value :
      (d t s : ℕ)
      → ((d ≡ t) × (d ≡ s)) ⊎ ((d ≡ t) × (s ≡ 0)) ⊎ ((d ≡ s) × (t ≡ 0))
      → bit_or (g s) (g t) ≡ g d
  or_value d t s (inl e) = rw (← e.0, ← e.1) (bit_or_self (g d) (words d))
  or_value d t s (inr (inl e)) = rw (e.1, ← e.0, g0) (bit_or_zero_left (g d) (words d))
  or_value d t s (inr (inr e)) = rw (e.1, ← e.0, g0) (bit_or_zero_right (g d) (words d))

  nop_special : (s : Special) → is_special_nop s op.c ≡ true → Keeps g (special_effect s op g)
  unfolding is_special_nop special_effect
  nop_special Special.and h =
      let e = both (rd op.c) (rt op.c) (rd op.c) (rs op.c) h in
      unfold int_special_and in
      keep_nonzero g (rd op.c) (bit_and (g (rs op.c)) (g (rt op.c)))
        (rw (← e.0, ← e.1) (bit_and_self (g (rd op.c)) (words (rd op.c))))
  nop_special Special.add h =
      unfold int_special_add in
      keep_nonzero g (rd op.c) (add32 (g (rs op.c)) (g (rt op.c))) (
        add_value (rd op.c) (rt op.c) (rs op.c)
          (either (rd op.c) (rt op.c) (rs op.c) 0 (rd op.c) (rs op.c) (rt op.c) 0 h))
  nop_special Special.addu h =
      unfold int_special_add in
      keep_nonzero g (rd op.c) (add32 (g (rs op.c)) (g (rt op.c))) (
        add_value (rd op.c) (rt op.c) (rs op.c)
          (either (rd op.c) (rt op.c) (rs op.c) 0 (rd op.c) (rs op.c) (rt op.c) 0 h))
  nop_special Special.sub h =
      let e = both (rd op.c) (rs op.c) (rt op.c) 0 h in
      unfold int_special_sub in
      keep_nonzero g (rd op.c) (sub32 (g (rs op.c)) (g (rt op.c)))
        (rw (e.1, ← e.0, g0) (sub32_zero (g (rd op.c)) (words (rd op.c))))
  nop_special Special.subu h =
      let e = both (rd op.c) (rs op.c) (rt op.c) 0 h in
      unfold int_special_sub in
      keep_nonzero g (rd op.c) (sub32 (g (rs op.c)) (g (rt op.c)))
        (rw (e.1, ← e.0, g0) (sub32_zero (g (rd op.c)) (words (rd op.c))))
  nop_special Special.or h =
      unfold int_special_or in
      keep_nonzero g (rd op.c) (bit_or (g (rs op.c)) (g (rt op.c)))
        (or_value (rd op.c) (rt op.c) (rs op.c) (or_cases (rd op.c) (rt op.c) (rs op.c) h))
  nop_special Special.sll h =
      let e = both (rd op.c) (rt op.c) (r_imm op.c) 0 h in
      unfold int_special_sll in
      keep_if (op.c == 0) (set_reg (rd op.c) (shl (g (rt op.c)) (r_imm op.c)) g) (
        keep_set g (rd op.c) (shl (g (rt op.c)) (r_imm op.c))
          (rw (e.1, ← e.0) (shl_zero (g (rd op.c)) (words (rd op.c)))))
    where
      keep_if : (b : Bool) (g' : Gpr) → Keeps g (regs g') → Keeps g (regs (if b then g else g'))
      keep_if true g' k = λ i. refl
      keep_if false g' k = k
  nop_special Special.srl h =
      let e = both (rd op.c) (rt op.c) (r_imm op.c) 0 h in
      unfold int_special_srl in
      keep_set g (rd op.c) (shr (g (rt op.c)) (r_imm op.c))
        (rw (e.1, ← e.0) (shr_zero (g (rd op.c))))
  nop_special Special.sra h =
      let e = both (rd op.c) (rt op.c) (r_imm op.c) 0 h in
      unfold int_special_sra in
      keep_set g (rd op.c) (sra (g (rt op.c)) (r_imm op.c))
        (rw (e.1, ← e.0) (sra_zero (g (rd op.c)) (words (rd op.c))))
  nop_special Special.mfhi h =
      unfold int_special_mfhi in keep_zero g (rd op.c) (g reg_hi) ((==_iff (rd op.c) 0).0 h)
  nop_special Special.mflo h =
      unfold int_special_mflo in keep_zero g (rd op.c) (g reg_lo) ((==_iff (rd op.c) 0).0 h)
  nop_special Special.sllv h = cc
  nop_special Special.srlv h = cc
  nop_special Special.srav h = cc
  nop_special Special.jr h = cc
  nop_special Special.jalr h = cc
  nop_special Special.syscall h = cc
  nop_special Special.break h = cc
  nop_special Special.mthi h = cc
  nop_special Special.mtlo h = cc
  nop_special Special.mult h = cc
  nop_special Special.multu h = cc
  nop_special Special.div h = cc
  nop_special Special.divu h = cc
  nop_special Special.xor h = cc
  nop_special Special.nor h = cc
  nop_special Special.slt h = cc
  nop_special Special.sltu h = cc
  nop_special Special.unknown h = cc

  sext16_zero : sext16 0 ≡ 0
  unfolding sext16
  sext16_zero = refl

  nop_standard : (o : Standard) → is_plain_nop o op.c ≡ true → Keeps g (effect_of o op g)
  unfolding is_plain_nop effect_of
  nop_standard Standard.special h = nop_special (special_of op.c) h
  nop_standard Standard.addi h =
      let e = both (rt op.c) (rs op.c) (i_imm op.c) 0 h in
      unfold int_addi in
      keep_nonzero g (rt op.c) (add32 (g (rs op.c)) (sext16 (i_imm op.c)))
        (rw (e.1, ← e.0, sext16_zero) (add32_zero_right (g (rt op.c)) (words (rt op.c))))
  nop_standard Standard.addiu h =
      let e = both (rt op.c) (rs op.c) (i_imm op.c) 0 h in
      unfold int_addi in
      keep_nonzero g (rt op.c) (add32 (g (rs op.c)) (sext16 (i_imm op.c)))
        (rw (e.1, ← e.0, sext16_zero) (add32_zero_right (g (rt op.c)) (words (rt op.c))))
  nop_standard Standard.ori h =
      let e = both (rt op.c) (rs op.c) (i_imm op.c) 0 h in
      unfold int_ori in
      keep_nonzero g (rt op.c) (bit_or (g (rs op.c)) (i_imm op.c))
        (rw (e.1, ← e.0) (bit_or_zero_right (g (rt op.c)) (words (rt op.c))))
  nop_standard Standard.slti h = cc
  nop_standard Standard.sltiu h = cc
  nop_standard Standard.andi h = cc
  nop_standard Standard.xori h = cc
  nop_standard Standard.lui h = cc
  nop_standard Standard.meta h = cc
  nop_standard Standard.meta_mult2 h = cc
  nop_standard Standard.meta_multu2 h = cc
  nop_standard _ h = tt

Keeps-regs : (g g' : Gpr) (e : Effect) → e ≡ regs g' → Keeps g e → Keeps g (regs g')
Keeps-regs g g' e p k = subst (Keeps g) p k

-- A handler that works on registers alone leaves every register other than 0 as it was, if `is_nop`
-- accepts the opcode. Conditions: register 0 is zero and the registers hold words.
pub is_nop_keeps :
    (op : Opcode) (g g' : Gpr) (i : ℕ)
    → is_nop op.c ≡ true
    → g 0 ≡ 0
    → AreWords g
    → effect op g ≡ regs g'
    → i ≢ 0
    → g' i ≡ g i
unfolding is_nop effect
is_nop_keeps op g g' i h g0 words e ne = elim (Bool-cases (opcode_writes_register op.c 0)) [
  | inl y ↦ writes_zero y
  | inr n ↦ Keeps-regs g g' _ e (nop_standard op g g0 words (op_of op.c) (rw n at h)) i
]
  where
    writes_zero : opcode_writes_register op.c 0 ≡ true → g' i ≡ g i
    writes_zero y =
        effect_frame op g g' i
          (unfold is_sll_move opcode_writes_register in standard-not_sll_move (op_of op.c) op.c y) e
          (unfold opcode_writes_register in OnlyZero-standard (op_of op.c) op.c y i ne)
