-- ===== src/Passes/Zeroed.antt =====
-- What `lightrec_patch_known_zero` does to the operands of an opcode.
use lightrec.Base.{
  ℕ, ◌-◌, ◌<◌, ◌^◌, ◌≡◌, refl, sym, ◌∙◌, ap, true, inl, inr, arith, bit_and, lnot, any_bit,
  Bool-cases,
}
use lightrec.Base.Bits.{bit-lt-two, bit-bit_and, bit-mask_low, eq_of_bits, bit_and-lt}
use lightrec.Isa.{
  Code, i_op, rs, rt, rd, r_imm, r_op, m_op, i_imm, op_of, special_of, meta_of, decode_standard,
  decode_special, decode_meta, rs-lt, rt-lt,
}
use lightrec.Isa.UpdateLaws.{
  i_op-set_rs, rs-set_rs, rt-set_rs, i_imm-set_rs, i_op-set_rt, rs-set_rt, rt-set_rt, i_imm-set_rt,
}
use lightrec.Interpreter.Regs.{Gpr}
use lightrec.Constprop.Data.{Consts, is_known_zero, bits_are_known_zero}
use lightrec.Constprop.Describes.{DescribesAll}
use lightrec.Passes.Known.{value_of_known}
use lightrec.Passes.KnownZero.{patch_rs, patch_rt}

-- The opcodes differ at most in which registers their operands are read from, and read the same.
pub record ReadsSame (g : Gpr) (c d : Code) : Type 0 where
  pub i_op_same : i_op d ≡ i_op c
  pub i_imm_same : i_imm d ≡ i_imm c
  pub first_same : g (rs d) ≡ g (rs c)
  pub second_same : g (rt d) ≡ g (rt c)

pub ReadsSame-refl : (g : Gpr) (c : Code) → ReadsSame g c c
ReadsSame-refl g c = record {
  i_op_same = refl;
  i_imm_same = refl;
  first_same = refl;
  second_same = refl;
}

pub ReadsSame-trans : {g : Gpr} {c d e : Code} → ReadsSame g c d → ReadsSame g d e → ReadsSame g c e
ReadsSame-trans p q = record {
  i_op_same = q.i_op_same ∙ p.i_op_same;
  i_imm_same = q.i_imm_same ∙ p.i_imm_same;
  first_same = q.first_same ∙ p.first_same;
  second_same = q.second_same ∙ p.second_same;
}

bit_and_word : (x : ℕ) → x < 2 ^ 32 → bit_and x 0xffffffff ≡ x
bit_and_word x h =
    eq_of_bits 32 (bit_and x 0xffffffff) x (bit_and-lt x 0xffffffff h) h
      λ i hi. ground (arith, bit-bit_and x 0xffffffff i, bit-mask_low 32 i hi, bit-lt-two x i)

pub is_known_zero-eq :
    {v : Consts} {g : Gpr}
    → DescribesAll v g
    → (r : ℕ) → r < 32
    → is_known_zero v r ≡ true
    → g r ≡ 0
unfolding is_known_zero bits_are_known_zero any_bit lnot
is_known_zero-eq {v} {g} p r lt h =
    let q = p r lt in
    let known : (v r).known ≡ 0xffffffff =
      ground (arith, bit_and_word (0xffffffff - (v r).known) (omega arith), q.known_word) in
    let value : (v r).value ≡ 0 = ground (arith, bit_and_word (v r).value q.value_word) in
    sym (value_of_known q known) ∙ value

module _ {v : Consts} {g : Gpr} (p : DescribesAll v g) (z : g 0 ≡ 0) (c : Code) where
  pub patch_rs-ReadsSame : ReadsSame g c (patch_rs v c)
  unfolding patch_rs
  patch_rs-ReadsSame = elim (Bool-cases (is_known_zero v (rs c))) [
    | inr n ↦ rw n (ReadsSame-refl g c)
    | inl y ↦ rw y (record {
      i_op_same = i_op-set_rs 0 c;
      i_imm_same = i_imm-set_rs 0 c;
      first_same =
          ap g (rs-set_rs 0 c (omega arith)) ∙ z ∙ sym (is_known_zero-eq p (rs c) (rs-lt c) y);
      second_same = ap g (rt-set_rs 0 c);
    })
  ]

  pub rt-patch_rs : rt (patch_rs v c) ≡ rt c
  unfolding patch_rs
  rt-patch_rs = elim (Bool-cases (is_known_zero v (rs c))) [
    | inr n ↦ rw n refl
    | inl y ↦ rw y (rt-set_rs 0 c)
  ]

  pub patch_rt-ReadsSame : ReadsSame g c (patch_rt v c)
  unfolding patch_rt
  patch_rt-ReadsSame = elim (Bool-cases (is_known_zero v (rt c))) [
    | inr n ↦ rw n (ReadsSame-refl g c)
    | inl y ↦ rw y (record {
      i_op_same = i_op-set_rt 0 c;
      i_imm_same = i_imm-set_rt 0 c;
      first_same = ap g (rs-set_rt 0 c);
      second_same =
          ap g (rt-set_rt 0 c (omega arith)) ∙ z ∙ sym (is_known_zero-eq p (rt c) (rt-lt c) y);
    })
  ]

module _ {g : Gpr} {c d : Code} (h : ReadsSame g c d) where
  pub op_of-ReadsSame : op_of d ≡ op_of c
  unfolding op_of
  op_of-ReadsSame = ap decode_standard h.i_op_same

  pub rd-ReadsSame : rd d ≡ rd c
  unfolding rd i_imm
  rd-ReadsSame = omega (arith, h.i_imm_same)

  pub r_imm-ReadsSame : r_imm d ≡ r_imm c
  unfolding r_imm i_imm
  r_imm-ReadsSame = omega (arith, h.i_imm_same)

  pub r_op-ReadsSame : r_op d ≡ r_op c
  unfolding r_op i_imm
  r_op-ReadsSame = omega (arith, h.i_imm_same)

  m_op-ReadsSame : m_op d ≡ m_op c
  unfolding m_op i_imm
  m_op-ReadsSame = omega (arith, h.i_imm_same)

  pub special_of-ReadsSame : special_of d ≡ special_of c
  unfolding special_of
  special_of-ReadsSame = ap decode_special r_op-ReadsSame

  pub meta_of-ReadsSame : meta_of d ≡ meta_of c
  unfolding meta_of
  meta_of-ReadsSame = ap decode_meta m_op-ReadsSame
