-- ===== src/Passes/Known.antt =====
-- What the tests of `lightrec_transform_ops` on the array say of the registers.
use lightrec.Base.{
  ℕ, ◌≡◌, ◌≢◌, subst, sym, ◌∙◌, Bool, true, false, inl, inr, arith, bit_and, bit_xor, any_bit,
  is_neg, ==_cases,
}
use native.Mathlib.Decide.{dec_lt}
use lightrec.Base.Bits.{
  bit, bit-lt-two, bit-bit_and, bit-bit_xor, xor_digit, zero_of_bits, bit_high, bit-is_neg,
  eq_of_bits, bit-mask_low,
}
use lightrec.Isa.{Code, rs, rt, rs-lt, rt-lt}
use lightrec.Interpreter.Regs.{Gpr}
use lightrec.Optimizer.MaskBits.{any_bit_one, any_bit_zero}
use lightrec.Constprop.Data.{ConstpropData, Consts, is_known}
use lightrec.Constprop.Describes.{Describes, DescribesAll, digit_agrees}
use lightrec.Passes.Simplify.{known_equal, known_different, top_known, top_value}

-- A known entry gives the value.
pub value_of_known :
    {d : ConstpropData} {x : ℕ} → Describes d x → d.known ≡ 0xffffffff → d.value ≡ x
value_of_known {d} {x} p k =
    eq_of_bits 32 d.value x p.value_word p.word
      (λ i hi. p.agrees i hi (rw k (bit-mask_low 32 i hi)))

clear : {b : Bool} → b ≡ false → b ≡ true → ⊥
clear h k = cc

-- A bit known of both, where the values differ: the registers differ.
apart_digit :
    {d e : ConstpropData} {x : ℕ}
    → Describes d x
    → Describes e x
    → (i : ℕ) → bit (bit_and (bit_and d.known e.known) (bit_xor d.value e.value)) i ≡ 0
unfolding xor_digit
apart_digit {d} {e} {x} p q i =
    let whole = bit-bit_and (bit_and d.known e.known) (bit_xor d.value e.value) i in
    let known = bit-bit_and d.known e.known i in
    let value = bit-bit_xor d.value e.value i in
    elim (dec_lt i 32) [
      | no n ↦ ground (arith, whole, known, bit_high 32 d.known i p.known_word (omega arith))
      | yes hi ↦ elim (digit_agrees p i hi) [
        | inl z ↦ ground (arith, whole, known, z)
        | inr a ↦ elim (digit_agrees q i hi) [
          | inl z ↦ ground (arith, whole, known, z)
          | inr b ↦ ground (arith, whole, known, value, a, b, bit-lt-two x i)
        ]
      ]
    ]

pub differ_of_known :
    {d e : ConstpropData} {x y : ℕ}
    → Describes d x
    → Describes e y
    → any_bit (bit_and d.known e.known) (bit_xor d.value e.value) ≡ true
    → x ≢ y
unfolding any_bit
differ_of_known {d} {e} {x} {y} p q h same =
    let z = zero_of_bits _ (apart_digit p (subst (Describes e) (sym same) q)) in ground (arith, z)

-- The top bit is known to be set, or to be clear.
pub top_is_neg :
    {d : ConstpropData} {x : ℕ}
    → Describes d x
    → any_bit d.known 0x80000000 ≡ true
    → any_bit d.value 0x80000000 ≡ is_neg x
top_is_neg {d} {x} p k = elim (==_cases (bit d.known 31) 1) [
  | inr ne ↦ absurd (clear (any_bit_zero d.known 31 (ground (arith, bit-lt-two d.known 31))) k)
  | inl one ↦
      let same = p.agrees 31 (omega arith) one in
      elim (bit-is_neg x p.word) [
        | inl y ↦ any_bit_one d.value 31 (same ∙ y.1) ∙ sym y.0
        | inr n ↦ any_bit_zero d.value 31 (same ∙ n.1) ∙ sym n.0
      ]
]

module _ {v : Consts} {g : Gpr} (p : DescribesAll v g) (c : Code) where
  pub known_equal-eq : known_equal v c ≡ true → g (rs c) ≡ g (rt c)
  unfolding known_equal is_known
  known_equal-eq h =
      sym (value_of_known (p (rs c) (rs-lt c)) (ground arith))
      ∙ ground arith
      ∙ value_of_known (p (rt c) (rt-lt c)) (ground arith)

  pub known_different-ne : known_different v c ≡ true → g (rs c) ≢ g (rt c)
  unfolding known_different
  known_different-ne h = differ_of_known (p (rs c) (rs-lt c)) (p (rt c) (rt-lt c)) h

  pub top_value-eq : top_known v c ≡ true → top_value v c ≡ is_neg (g (rs c))
  unfolding top_known top_value
  top_value-eq h = top_is_neg (p (rs c) (rs-lt c)) h
