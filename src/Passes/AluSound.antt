-- ===== src/Passes/AluSound.antt =====
-- The rewrites of shifts in `lightrec_transform_ops` keep what the opcode does to the registers.
use lightrec.Base.{
  ℕ, ◌<◌, ◌^◌, ◌==◌, ◌≡◌, ◌≢◌, refl, sym, ◌∙◌, ap, true, false, arith, inl, inr, bit_and, shl, shr,
  sra, Bool-cases, ==_iff, ==_cases,
}
use lightrec.Base.Bits.{shl_zero, shr_zero, sra_zero, masked-lt, masked_ones, eq_of_masked}
use lightrec.Isa.{
  Code, Opcode, Standard, Special, rs, rt, rd, r_imm, op_of, special_of, decode_standard,
  decode_special, rs-lt, set_r_imm, set_r_op,
}
use lightrec.Isa.UpdateLaws
use lightrec.Interpreter.Regs.{Gpr, AreWords, set_reg, set_reg_nonzero}
use lightrec.Interpreter.Alu.{int_special_sll, int_special_srl, int_special_sra}
use lightrec.Interpreter.Table.{regs, effect, effect_of, special_effect}
use lightrec.Constprop.Data.{ConstpropData, Consts}
use lightrec.Constprop.Describes.{Describes, DescribesAll}
use lightrec.Passes.Simplify.{simplify_shift, simplify_shift_by}
use lightrec.Passes.Moves.{recoded, to_mov_rt-Effect}

-- The three shifts by an immediate.
abbrev pub shift_word : Special → ℕ → ℕ → ℕ
shift_word Special.sll x k = shl x k
shift_word Special.srl x k = shr x k
shift_word _ x k = sra x k

pub data IsShift : Special → Type 0 where
  left : IsShift Special.sll
  right : IsShift Special.srl
  signed : IsShift Special.sra

shift_zero : {s : Special} → IsShift s → (x : ℕ) → x < 2 ^ 32 → shift_word s x 0 ≡ x
shift_zero left x h = shl_zero x h
shift_zero right x h = shr_zero x
shift_zero signed x h = sra_zero x h

set_nonzero : (r x : ℕ) (g : Gpr) → r ≢ 0 → set_reg_nonzero r x g ≡ set_reg r x g
unfolding set_reg_nonzero
set_nonzero r x g ne = ground arith

zero_rd : (c : Code) → c ≡ 0 → rd c ≡ 0
unfolding rd
zero_rd c e = omega arith

not_zero : (c : Code) → rd c ≢ 0 → (c == 0) ≡ false
not_zero c ne = elim (==_cases c 0) [ inl e ↦ absurd (ne (zero_rd c e)) | inr h ↦ h ]

module _ (op : Opcode) (g : Gpr) (words : AreWords g) where
  pub plain_shift :
      {s : Special}
      → IsShift s
      → (c : Code) → op_of c ≡ Standard.special
      → special_of c ≡ s
      → rd c ≢ 0
      → effect (recoded op c) g ≡ regs (set_reg (rd c) (shift_word s (g (rt c)) (r_imm c)) g)
  unfolding effect effect_of special_effect int_special_sll int_special_srl int_special_sra
  plain_shift left c e f ne = rw (e, f, not_zero c ne)
  plain_shift right c e f ne = rw (e, f)
  plain_shift signed c e f ne = rw (e, f)

  pub shift-Effect :
      {s : Special}
      → IsShift s
      → (c : Code) → c < 2 ^ 32
      → op_of c ≡ Standard.special
      → special_of c ≡ s
      → rd c ≢ 0
      → effect (recoded op (simplify_shift c)) g
        ≡ regs (set_reg (rd c) (shift_word s (g (rt c)) (r_imm c)) g)
  unfolding simplify_shift
  shift-Effect {s} k c h e f ne = elim (Bool-cases (r_imm c == 0)) [
    | inr n ↦ rw n (plain_shift k c e f ne)
    | inl z ↦
        let amount : r_imm c ≡ 0 = (==_iff _ _).0 z in
        let same = shift_zero k (g (rt c)) (words (rt c)) in
        rw (z, amount, same)
          (to_mov_rt-Effect op g c h ∙ ap regs (set_nonzero (rd c) (g (rt c)) g ne))
  ]

  -- The amount of a shift by a register, of which the five low bits are known.
  amount_of :
      (d : ConstpropData) (x : ℕ)
      → Describes d x
      → (bit_and d.known 0x1f == 0x1f) ≡ true
      → bit_and d.value 0x1f ≡ bit_and x 0x1f
  amount_of d x p h =
      eq_of_masked 5 d.value x
        λ i hi. p.agrees i (omega arith) (masked_ones 5 d.known i ((==_iff _ 0x1f).0 h) hi)

  pub shift_by-Effect :
      {s : Special}
      → IsShift s
      → (n : ℕ) → n < 64
      → decode_special n ≡ s
      → (c : Code) → c < 2 ^ 32
      → op_of c ≡ Standard.special
      → rd c ≢ 0
      → (v : Consts) → DescribesAll v g
      → effect (recoded op c) g
        ≡ regs (set_reg (rd c) (shift_word s (g (rt c)) (bit_and (g (rs c)) 0x1f)) g)
      → effect (recoded op (simplify_shift_by n v c)) g ≡ effect (recoded op c) g
  unfolding simplify_shift_by decode_standard op_of special_of decode_special
  shift_by-Effect {s} k n lt dec c h e ne v p plain =
      elim (Bool-cases (bit_and (v (rs c)).known 0x1f == 0x1f)) [
        | inr open_case ↦ rw open_case refl
        | inl known ↦
            let amount = bit_and (v (rs c)).value 0x1f in
            let d = set_r_imm amount c in
            let f = set_r_op n d in
            let op_same : op_of f ≡ Standard.special =
              ap decode_standard (UpdateLaws.i_op-set_r_op n d ∙ UpdateLaws.i_op-set_r_imm amount c)
              ∙ e in
            let special_same : special_of f ≡ s =
              ap decode_special (UpdateLaws.r_op-set_r_op n d lt) ∙ dec in
            let rd_same : rd f ≡ rd c =
              UpdateLaws.rd-set_r_op n d ∙ UpdateLaws.rd-set_r_imm amount c in
            let rt_same : rt f ≡ rt c =
              UpdateLaws.rt-set_r_op n d ∙ UpdateLaws.rt-set_r_imm amount c in
            let imm_same : r_imm f ≡ bit_and (g (rs c)) 0x1f =
              UpdateLaws.r_imm-set_r_op n d
              ∙ UpdateLaws.r_imm-set_r_imm amount c (masked-lt 5 (v (rs c)).value)
              ∙ amount_of (v (rs c)) (g (rs c)) (p (rs c) (rs-lt c)) known in
            rw known (
              shift-Effect k f (UpdateLaws.set_r_op-lt n d (UpdateLaws.set_r_imm-lt amount c h))
                op_same special_same (λ z. ne (sym rd_same ∙ z))
              ∙ rw (rd_same, rt_same, imm_same) (sym plain))
      ]
