-- ===== src/Constprop/Sound/Addition.antt =====
-- `lightrec_propagate_addi`, and the cases of the switch for additions, on entries without a sign mask.
use lightrec.Base.{
  ℕ, ◌<◌, ◌≡◌, refl, ◌∙◌, ap, sym, arith, Bool, true, false, ◌==◌, IsU32, ==_cases, ==_iff, inl,
  inr, bit_and, Bool-cases, add32, if◌then◌else◌, sext16,
}
use lightrec.Base.Bits.{
  bit-lt-two, bit-bit_and, bit_and-lt, sext16-lt, add32_zero_left, add32_zero_right,
}
use lightrec.Isa.{Code, rs, rt, i_imm, rs-lt, rt-lt}
use lightrec.Interpreter.Regs.{Gpr, set_reg_nonzero}
use lightrec.Interpreter.Table.{Effect, regs}
use lightrec.Constprop.Data.{ConstpropData, Consts, set_const, constant, bit_length, is_known_zero}
use lightrec.Constprop.Add.{lightrec_propagate_addi, addi_loop}
use lightrec.Constprop.Switch.{add_case, addi_case, addend}
use lightrec.Constprop.Describes.{
  Describes, DescribesAll, Describes-eq, constant-Describes, set_const_self, set_const_ne,
}
use lightrec.Constprop.Sound.SignMask.{significant, past_significant}
use lightrec.Constprop.Sound.Carry.{carry_zero}
use lightrec.Constprop.Sound.Below.{IsBelow-Describes, start-IsBelow}
use lightrec.Constprop.Sound.Sums.{loop-IsBelow}
use lightrec.Constprop.Sound.Step.{DescribesAbove, set_nonzero-DescribesAbove}
use lightrec.Passes.Zeroed.{is_known_zero-eq}

-- An entry with its unknown digits cleared.
abbrev cleared : ConstpropData → ConstpropData
cleared d = record d { value = bit_and d.value d.known }

cleared-Describes : {d : ConstpropData} {x : ℕ} → Describes d x → Describes (cleared d) x
cleared-Describes {d} {x} p = record {
  word = p.word;
  value_word = bit_and-lt d.value d.known p.value_word;
  known_word = p.known_word;
  sign_word = p.sign_word;
  agrees = λ i hi k.
      omega (arith, bit-bit_and d.value d.known i, k, p.agrees i hi k, bit-lt-two d.value i);
  copies = p.copies;
  upper = p.upper;
}

add32-lt : (x y : ℕ) → IsU32 (add32 x y)
unfolding add32
add32-lt x y = omega arith

-- A case that is chosen by a test.
DescribesAbove-choice :
    (b : Bool) (a c : Consts) (e : Effect)
    → (b ≡ true → DescribesAbove a e)
    → (b ≡ false → DescribesAbove c e)
    → DescribesAbove (if b then a else c) e
DescribesAbove-choice true a c e yes_case no_case = yes_case refl
DescribesAbove-choice false a c e yes_case no_case = no_case refl

sext16_zero : sext16 0 ≡ 0
unfolding sext16
sext16_zero = refl

module _ {v : Consts} {g : Gpr} (all : DescribesAll v g) where
  cleared-DescribesAll : (s : ℕ) → DescribesAll (set_const s (cleared (v s)) v) g
  cleared-DescribesAll s r hr = elim (==_cases s r) [
    | inl e ↦ rw (← e) (
        Describes-eq (set_const_self s (cleared (v s)) v) refl
          (cleared-Describes (all s (rw e hr))))
    | inr ne ↦ Describes-eq (set_const_ne s (cleared (v s)) v r (ground arith)) refl (all r hr)
  ]

  pub propagate_addi-DescribesAbove :
      (s t y : ℕ) (d : ConstpropData)
      → s < 32
      → t < 32
      → Describes d y
      → (v s).sign ≡ 0
      → d.sign ≡ 0
      → DescribesAbove
          (lightrec_propagate_addi s t d v)
          (regs (set_reg_nonzero t (add32 (g s) y) g))
  unfolding lightrec_propagate_addi
  propagate_addi-DescribesAbove s t y d hs ht p s_plain d_plain =
      let q = cleared-Describes (all s hs) in
      let e = cleared (v s) in
      let end = if significant d e == 0 then 0 else bit_length 32 (significant d e) in
      set_nonzero-DescribesAbove (cleared-DescribesAll s) t
        (addi_loop 32 0 false end e (bit_and d.value d.known) d (v t)) (add32 (g s) y)
        (IsBelow-Describes (add32-lt (g s) y) (omega arith) (
          loop-IsBelow e d (bit_and d.value d.known) end (g s) y q.known_word q.value_word
            (bit_and-lt d.value d.known p.value_word) s_plain d_plain q.agrees
            ((cleared-Describes p).agrees)
            (past_significant d e p.value_word p.known_word d_plain q.value_word q.known_word
              s_plain)
            32 0 false (v t) (omega arith) (λ h. sym (carry_zero (g s) y))
            (start-IsBelow (v t) (add32 (g s) y) ((all t ht).value_word) ((all t ht).known_word)
              ((all t ht).sign_word))))

  addend-Describes : (s t : ℕ) → s < 32 → t < 32 → Describes (addend s t v) (g t)
  unfolding addend
  addend-Describes s t hs ht = elim (Bool-cases (s == t)) [
    | inl y ↦ rw y (cleared-Describes (all t ht))
    | inr n ↦ rw n (all t ht)
  ]

  addend-sign : (s t : ℕ) → (addend s t v).sign ≡ (v t).sign
  unfolding addend
  addend-sign s t = elim (Bool-cases (s == t)) [ inl y ↦ rw y refl | inr n ↦ rw n refl ]

  sum_zero_left : (s t : ℕ) → s < 32 → t < 32 → is_known_zero v s ≡ true → add32 (g s) (g t) ≡ g t
  sum_zero_left s t hs ht y =
      ap (λ (k : ℕ). add32 k (g t)) (is_known_zero-eq all s hs y)
      ∙ add32_zero_left (g t) ((all t ht).word)

  sum_zero_right : (s t : ℕ) → s < 32 → t < 32 → is_known_zero v t ≡ true → add32 (g s) (g t) ≡ g s
  sum_zero_right s t hs ht y =
      ap (λ (k : ℕ). add32 (g s) k) (is_known_zero-eq all t ht y)
      ∙ add32_zero_right (g s) ((all s hs).word)

  pub add_case-DescribesAbove :
      (s t r : ℕ)
      → s < 32
      → t < 32
      → r < 32
      → (v s).sign ≡ 0
      → (v t).sign ≡ 0
      → DescribesAbove (add_case s t r v) (regs (set_reg_nonzero r (add32 (g s) (g t)) g))
  unfolding add_case
  add_case-DescribesAbove s t r hs ht hr s_plain t_plain =
      DescribesAbove-choice (is_known_zero v s) (set_const r (v t) v)
        (if is_known_zero v t
          then set_const r (v s) v
          else lightrec_propagate_addi s r (addend s t v) v)
        (regs (set_reg_nonzero r (add32 (g s) (g t)) g))
        (λ y.
          set_nonzero-DescribesAbove all r (v t) (add32 (g s) (g t))
            (Describes-eq refl (sum_zero_left s t hs ht y) (all t ht)))
        (λ n.
          DescribesAbove-choice (is_known_zero v t) (set_const r (v s) v)
            (lightrec_propagate_addi s r (addend s t v) v)
            (regs (set_reg_nonzero r (add32 (g s) (g t)) g))
            (λ y.
              set_nonzero-DescribesAbove all r (v s) (add32 (g s) (g t))
                (Describes-eq refl (sum_zero_right s t hs ht y) (all s hs)))
            (λ m.
              propagate_addi-DescribesAbove s r (g t) (addend s t v) hs hr
                (addend-Describes s t hs ht) s_plain (addend-sign s t ∙ t_plain)))

  pub addi_case-DescribesAbove :
      (c : Code)
      → (v (rs c)).sign ≡ 0
      → DescribesAbove
          (addi_case c v)
          (regs (set_reg_nonzero (rt c) (add32 (g (rs c)) (sext16 (i_imm c))) g))
  unfolding addi_case
  addi_case-DescribesAbove c plain =
      DescribesAbove-choice (i_imm c == 0) (set_const (rt c) (v (rs c)) v)
        (lightrec_propagate_addi (rs c) (rt c) (constant (sext16 (i_imm c))) v)
        (regs (set_reg_nonzero (rt c) (add32 (g (rs c)) (sext16 (i_imm c))) g))
        (λ y.
          set_nonzero-DescribesAbove all (rt c) (v (rs c)) (add32 (g (rs c)) (sext16 (i_imm c))) (
            Describes-eq refl
              (ap (λ (k : ℕ). add32 (g (rs c)) (sext16 k)) ((==_iff _ _).0 y)
                ∙ ap (λ (k : ℕ). add32 (g (rs c)) k) sext16_zero
                ∙ add32_zero_right (g (rs c)) ((all (rs c) (rs-lt c)).word))
              (all (rs c) (rs-lt c))))
        (λ n.
          propagate_addi-DescribesAbove (rs c) (rt c) (sext16 (i_imm c))
            (constant (sext16 (i_imm c))) (rs-lt c) (rt-lt c)
            (constant-Describes _ (sext16-lt (i_imm c))) plain refl)
