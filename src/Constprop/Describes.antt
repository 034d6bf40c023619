-- ===== src/Constprop/Describes.antt =====
-- What an entry of the array `v` claims of a register's value.
use lightrec.Base.{ℕ, ◌≤◌, ◌<◌, ◌≡◌, IsU32, arith, refl, ◌⊎◌, inl, inr, ==_cases, ◌≢◌}
use lightrec.Base.Bits.{bit, bit-lt-two, bit_of_zero}
use lightrec.Constprop.Data.{ConstpropData, Consts, set_const, constant, forget}
use lightrec.Interpreter.Regs.{Gpr}

-- The three members are words; `value` is right at each bit of `known`; each bit of `sign` is a copy
-- of bit 31, and the bits of `sign` are the upper ones.
pub record Describes (d : ConstpropData) (x : ℕ) : Type 0 where
  pub word : IsU32 x
  pub value_word : IsU32 d.value
  pub known_word : IsU32 d.known
  pub sign_word : IsU32 d.sign
  pub agrees : (i : ℕ) → i < 32 → bit d.known i ≡ 1 → bit d.value i ≡ bit x i
  pub copies : (i : ℕ) → i < 32 → bit d.sign i ≡ 1 → bit x i ≡ bit x 31
  pub upper : (i j : ℕ) → i ≤ j → j < 32 → bit d.sign i ≡ 1 → bit d.sign j ≡ 1

-- The array describes the register file.
abbrev pub DescribesAll : Consts → Gpr → Type 0
DescribesAll v g = (r : ℕ) → r < 32 → Describes (v r) (g r)

pub constant-Describes : (x : ℕ) → IsU32 x → Describes (constant x) x
constant-Describes x h = record {
  word = h;
  value_word = h;
  known_word = omega arith;
  sign_word = omega arith;
  agrees = λ i hi k. refl;
  copies = λ i hi s. absurd (omega (arith, bit_of_zero i));
  upper = λ i j le hj s. absurd (omega (arith, bit_of_zero i));
}

pub forget-Describes :
    (d : ConstpropData) (x : ℕ) → IsU32 d.value → IsU32 x → Describes (forget d) x
forget-Describes d x hv h = record {
  word = h;
  value_word = hv;
  known_word = omega arith;
  sign_word = omega arith;
  agrees = λ i hi k. absurd (omega (arith, bit_of_zero i));
  copies = λ i hi s. absurd (omega (arith, bit_of_zero i));
  upper = λ i j le hj s. absurd (omega (arith, bit_of_zero i));
}

module _ {d : ConstpropData} {x : ℕ} (p : Describes d x) (i : ℕ) (hi : i < 32) where
  -- A bit is unknown, or its value is right.
  pub digit_agrees : (bit d.known i ≡ 0) ⊎ (bit d.value i ≡ bit x i)
  digit_agrees = elim (==_cases (bit d.known i) 1) [
    | inl one ↦ inr (p.agrees i hi one)
    | inr ne ↦ inl (ground (arith, bit-lt-two d.known i))
  ]

  -- A bit is no copy of the sign, or the value has the same digit there and at bit 31.
  pub digit_copies : (bit d.sign i ≡ 0) ⊎ (bit x i ≡ bit x 31)
  digit_copies = elim (==_cases (bit d.sign i) 1) [
    | inl one ↦ inr (p.copies i hi one)
    | inr ne ↦ inl (ground (arith, bit-lt-two d.sign i))
  ]

  pub digit_upper : (j : ℕ) → i ≤ j → j < 32 → (bit d.sign i ≡ 0) ⊎ (bit d.sign j ≡ 1)
  digit_upper j le hj = elim (==_cases (bit d.sign i) 1) [
    | inl one ↦ inr (p.upper i j le hj one)
    | inr ne ↦ inl (ground (arith, bit-lt-two d.sign i))
  ]

pub set_const_self : (r : ℕ) (d : ConstpropData) (v : Consts) → set_const r d v r ≡ d
unfolding set_const
set_const_self r d v = ground arith

pub set_const_ne :
    (r : ℕ) (d : ConstpropData) (v : Consts) (i : ℕ) → r ≢ i → set_const r d v i ≡ v i
unfolding set_const
set_const_ne r d v i h = ground arith

pub Describes-eq : {d e : ConstpropData} {x y : ℕ} → e ≡ d → y ≡ x → Describes d x → Describes e y
Describes-eq p q h = rw (p, q) h
