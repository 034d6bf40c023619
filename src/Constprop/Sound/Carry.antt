-- ===== src/Constprop/Sound/Carry.antt =====
-- The digits of a sum of words, and the carries between them.
use lightrec.Base.{
  ℕ, zero, suc, ◌+◌, ◌*◌, ◌/◌, ◌%◌, ◌^◌, ◌<◌, ◌≡◌, refl, ◌∙◌, ap, arith, Bool, true, false, any_bit,
  if◌then◌else◌, bit_and, IsU32, ==_cases, inl, inr, add32,
}
use lightrec.Base.Bits.{
  eq_of_bits, bit_and-lt, pow_digit, bit, bit-lt-two, bit-bit_and, bit-mod_low, bit-mul_high,
}
use native.Mathlib.Nat.{pow-suc, pow-le-pow_right}
use lightrec.Base.Bits.Laws.{pow-pos}
use lightrec.Optimizer.MaskBits.{any_bit_zero}
use lightrec.Constprop.Add.{known_sum}

-- The carry into digit `i` of `x + y + c`.
pub carry_into : ℕ → ℕ → ℕ → ℕ → ℕ
carry_into x y c zero = c
carry_into x y c (suc i) = carry_into (x / 2) (y / 2) ((x % 2 + y % 2 + c) / 2) i

pub carry_into-suc :
    (x y c i : ℕ) → carry_into x y c (suc i) ≡ (bit x i + bit y i + carry_into x y c i) / 2
unfolding carry_into bit
carry_into-suc x y c zero = refl
carry_into-suc x y c (suc i) = carry_into-suc (x / 2) (y / 2) ((x % 2 + y % 2 + c) / 2) i

pub carry_into-lt-two : (x y c i : ℕ) → c < 2 → carry_into x y c i < 2
unfolding carry_into
carry_into-lt-two x y c zero h = h
carry_into-lt-two x y c (suc i) h =
    carry_into-lt-two (x / 2) (y / 2) ((x % 2 + y % 2 + c) / 2) i (omega arith)

pub sum_digit : (x y c i : ℕ) → bit (x + y + c) i ≡ (bit x i + bit y i + carry_into x y c i) % 2
unfolding carry_into bit
sum_digit x y c zero = omega arith
sum_digit x y c (suc i) =
    let e : (x + y + c) / 2 ≡ x / 2 + y / 2 + (x % 2 + y % 2 + c) / 2 = omega arith in
    rw e (sum_digit (x / 2) (y / 2) ((x % 2 + y % 2 + c) / 2) i)

-- The carry into digit `i` of a sum of two words, and the digit.
abbrev pub carry : ℕ → ℕ → ℕ → ℕ
carry x y i = carry_into x y 0 i

pub carry_zero : (x y : ℕ) → carry x y 0 ≡ 0
unfolding carry_into
carry_zero x y = refl

pub add32_digit : (x y i : ℕ) → i < 32 → bit (add32 x y) i ≡ (bit x i + bit y i + carry x y i) % 2
unfolding add32
add32_digit x y i hi =
    let e : x + y + 0 ≡ x + y = omega arith in
    bit-mod_low 32 (x + y) i hi ∙ rw (← e) (sum_digit x y 0 i)

pub pow-lt : (b : ℕ) → b < 32 → 2 ^ b < 2 ^ 32
pow-lt b h = omega (
  arith,
  pow-suc 2 b,
  pow-pos b,
  pow-le-pow_right {n = 2} (omega arith) {i = suc b} {j = 32} (omega arith),
)

-- One digit of a word in its place.
single_digit : (x b : ℕ) → IsU32 x → b < 32 → bit_and x (2 ^ b) ≡ bit x b * 2 ^ b
unfolding any_bit
single_digit x b hx hb = elim (==_cases (bit x b) 1) [
  | inl one ↦
      let e =
        eq_of_bits 32 (bit_and x (2 ^ b)) (2 ^ b) (bit_and-lt x (2 ^ b) hx) (pow-lt b hb) (λ i hi.
          elim (pow_digit b i) [
            | inl p ↦ omega (arith, bit-bit_and x (2 ^ b) i, p.1, ap (bit x) p.0, one)
            | inr z ↦ omega (arith, bit-bit_and x (2 ^ b) i, z)
          ]) in
      rw one (omega (arith, e))
  | inr ne ↦
      let z : bit x b ≡ 0 = ground (arith, bit-lt-two x b) in
      let e = any_bit_zero x b z in rw z (ground arith)
]

abbrev pub of_bool : Bool → ℕ
of_bool true = 1
of_bool false = 0

module _ (b : ℕ) (hb : b < 32) (c : Bool) (x y : ℕ) (hx : IsU32 x) (hy : IsU32 y) where
  known_sum-eq : known_sum b c x y ≡ (of_bool c + bit x b + bit y b) * 2 ^ b % 2 ^ 32
  unfolding known_sum
  known_sum-eq =
      rw (single_digit x b hx hb, single_digit y b hy hb) (ap (λ (t : ℕ). t % 2 ^ 32) (sums c))
    where
      sums :
          (c : Bool)
          → (if c then 2 ^ b else 0) + bit x b * 2 ^ b + bit y b * 2 ^ b
            ≡ (of_bool c + bit x b + bit y b) * 2 ^ b
      sums true = grind arith
      sums false = grind arith

  pub known_sum_digit : bit (known_sum b c x y) b ≡ (of_bool c + bit x b + bit y b) % 2
  known_sum_digit =
      let k = of_bool c + bit x b + bit y b in
      let e : b + 0 ≡ b = omega arith in
      rw known_sum-eq
        (bit-mod_low 32 (k * 2 ^ b) b hb ∙ rw e at (bit-mul_high b k 0) ∙ unfold bit in refl)

  pub known_sum_carry :
      b + 1 < 32 → bit (known_sum b c x y) (b + 1) ≡ (of_bool c + bit x b + bit y b) / 2
  known_sum_carry h =
      let k = of_bool c + bit x b + bit y b in
      rw known_sum-eq (
        bit-mod_low 32 (k * 2 ^ b) (b + 1) h
        ∙ bit-mul_high b k 1
        ∙ unfold bit in omega (arith, bit-lt-two x b, bit-lt-two y b, small c))
    where
      small : (c : Bool) → of_bool c < 2
      small true = omega arith
      small false = omega arith
