-- ===== src/Constprop/Sound/Immediate.antt =====
-- ANDI, ORI and XORI.
use lightrec.Base.{
  ℕ, ◌^◌, ◌<◌, ◌≤◌, ◌≡◌, IsU32, arith, bit_and, bit_or, bit_xor, inl, inr, Bool-cases, true, false,
  ap, any_bit, ==_cases,
}
use native.Mathlib.Decide.{dec_lt}
use lightrec.Base.Bits.{
  bit, bit-lt-two, bit-bit_and, bit-bit_or, bit-bit_xor, xor_digit, bit-lnot, bit_of_zero,
}
use lightrec.Base.Bits.{bit_and-lt, bit_or-lt, bit_xor-lt, lnot-lt, zero_of_bits}
use lightrec.Base.Bits.{upper_ones_digit, bit_high, bit-mask_low}
use lightrec.Constprop.Data.{ConstpropData}
use lightrec.Constprop.Describes.{Describes, digit_agrees, digit_upper}
use lightrec.Constprop.Shift.{andi_consts, upper_sign, ori_consts, xori_consts}

ruleset digits = (arith, bit-lt-two, bit-bit_and, bit-bit_or)

module _ {s : ConstpropData} {x : ℕ} (p : Describes s x) (imm : ℕ) (small : imm < 2 ^ 16) where
  -- For an immediate of 16 bits, the entry of ANDI describes the conjunction with it.
  pub andi-Describes : Describes (andi_consts imm s) (bit_and x imm)
  unfolding andi_consts
  andi-Describes = record {
    word = bit_and-lt x imm p.word;
    value_word = bit_and-lt _ _ p.value_word;
    known_word = bit_or-lt _ _ p.known_word (lnot-lt imm);
    sign_word = omega arith;
    agrees = λ i hi h. omega (digits, digit_agrees p i hi, bit-lnot imm i (omega arith) hi);
    copies = λ i hi h. absurd (omega (arith, bit_of_zero i));
    upper = λ i j le hj h. absurd (omega (arith, bit_of_zero i));
  }

  -- Some digit of the lower half is set: digit 15 is, since the digits of `sign` are the upper ones.
  lower_half_set : any_bit s.sign 0xffff ≡ true → bit s.sign 15 ≡ 1
  unfolding any_bit
  lower_half_set h = elim (==_cases (bit s.sign 15) 1) [
    | inl one ↦ one
    | inr ne ↦
        let z : bit_and s.sign 0xffff ≡ 0 =
          zero_of_bits _ (λ i. empty (ground (arith, bit-lt-two s.sign 15)) i) in
        absurd (ground (arith, z))
  ]
    where
      empty : bit s.sign 15 ≡ 0 → (i : ℕ) → bit (bit_and s.sign 0xffff) i ≡ 0
      empty z i = elim (dec_lt i 16) [
        | yes lo ↦ omega (digits, digit_upper p i (omega arith) 15 (omega arith) (omega arith))
        | no hi ↦ omega (digits, bit_high 16 0xffff i (omega arith) (omega arith))
      ]

  lower_half_clear : any_bit s.sign 0xffff ≡ false → (i : ℕ) → i < 16 → bit s.sign i ≡ 0
  unfolding any_bit
  lower_half_clear h i hi =
      let z : bit_and s.sign 0xffff ≡ 0 = ground arith in
      omega (digits, ap (λ (t : ℕ). bit t i) z, bit-mask_low 16 i hi, bit_of_zero i)

  -- What is left of `sign` is its upper half.
  upper_sign_digit : (i : ℕ) → i < 32 → bit (upper_sign s) i ≡ 1 → (16 ≤ i) × (bit s.sign i ≡ 1)
  unfolding upper_sign
  upper_sign_digit i hi h = elim (Bool-cases (any_bit s.sign 0xffff)) [
    | inl some_low ↦
        let g : bit 0xffff0000 i ≡ 1 = rw some_low at h in
        let top : 16 ≤ i = omega (arith, upper_ones_digit 16 16 i (omega arith) hi) in
        (top, p.upper 15 i (omega arith) hi (lower_half_set some_low))
    | inr none_low ↦
        let g : bit s.sign i ≡ 1 = rw none_low at h in (omega (arith, low i none_low g), g)
  ]
    where
      low : (j : ℕ) → any_bit s.sign 0xffff ≡ false → bit s.sign j ≡ 1 → 16 ≤ j
      low j e g = elim (dec_lt j 16) [
        | yes lo ↦ absurd (omega (arith, lower_half_clear e j lo))
        | no hi' ↦ omega arith
      ]

  upper_sign_back : (i : ℕ) → i < 32 → 16 ≤ i → bit s.sign i ≡ 1 → bit (upper_sign s) i ≡ 1
  unfolding upper_sign
  upper_sign_back i hi top h = elim (Bool-cases (any_bit s.sign 0xffff)) [
    | inl some_low ↦ rw some_low (omega (arith, upper_ones_digit 16 16 i (omega arith) hi))
    | inr none_low ↦ rw none_low h
  ]

  upper_sign-lt : IsU32 (upper_sign s)
  unfolding upper_sign
  upper_sign-lt = ground (arith, p.sign_word)

  upper_sign_upper :
      (i j : ℕ) → i ≤ j → j < 32 → bit (upper_sign s) i ≡ 1 → bit (upper_sign s) j ≡ 1
  upper_sign_upper i j le hj h =
      let u = upper_sign_digit i (omega arith) h in
      upper_sign_back j hj (omega (arith, u.0)) (p.upper i j le hj u.1)

  -- A digit of `imm` in the upper half is zero.
  imm_high : (i : ℕ) → 16 ≤ i → bit imm i ≡ 0
  imm_high i top = bit_high 16 imm i small top

  -- For an immediate of 16 bits, the entry of ORI describes the disjunction with it.
  pub ori-Describes : Describes (ori_consts imm s) (bit_or x imm)
  unfolding ori_consts
  ori-Describes = record {
    word = bit_or-lt x imm p.word (omega arith);
    value_word = bit_or-lt _ _ p.value_word (omega arith);
    known_word = bit_or-lt _ _ p.known_word (omega arith);
    sign_word = upper_sign-lt;
    agrees = λ i hi h. omega (digits, digit_agrees p i hi);
    copies = λ i hi h.
        let u = upper_sign_digit i hi h in
        omega (digits, p.copies i hi u.1, imm_high i u.0, imm_high 31 (omega arith));
    upper = upper_sign_upper;
  }

  -- For an immediate of 16 bits, the entry of XORI describes the exclusive disjunction with it.
  pub xori-Describes : Describes (xori_consts imm s) (bit_xor x imm)
  unfolding xori_consts xor_digit
  xori-Describes = record {
    word = bit_xor-lt x imm p.word (omega arith);
    value_word = bit_xor-lt _ _ p.value_word (omega arith);
    known_word = p.known_word;
    sign_word = upper_sign-lt;
    agrees = λ i hi h. omega (digits, bit-bit_xor, p.agrees i hi h);
    copies = λ i hi h.
        let u = upper_sign_digit i hi h in
        omega (digits, bit-bit_xor, p.copies i hi u.1, imm_high i u.0, imm_high 31 (omega arith));
    upper = upper_sign_upper;
  }
