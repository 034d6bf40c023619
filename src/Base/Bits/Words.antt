-- ===== src/Base/Bits/Words.antt =====
-- The 32-bit operations bit by bit, and their ranges.
use native.Mathlib.Nat.{mod-lt, div-lt_iff_lt-mul}
use lightrec.Base.Word.{IsU32, lnot, shl, shr, sra, is_neg}
use lightrec.Base.Bits.Step.{
  bit, bit-lt-two, bit_of_zero, xor_digit, bit-bit_and, bit-bit_or, bit-bit_xor,
}
use lightrec.Base.Bits.Laws.{
  eq_of_bits, bit-div, bit-mul_low, bit-mul_high, bit-mod_low, bit_high, bit_complement, pow-pos,
  pow_double,
}
use Prim.Native.Nat.{ℕ, zero, suc, ◌+◌, ◌-◌, ◌*◌, ◌/◌, ◌^◌, ◌≤◌, ◌<◌, bit_and, bit_or, bit_xor}
use mathlib.Core.Path.{◌≡◌, sym, ◌∙◌}
use mathlib.Core.Bool.{true, false}
use mathlib.Core.Logic.{◌⊎◌, inl, inr}
use native.Mathlib.Omega.{arith}

lt-two-pow : (n : ℕ) → n < 2 ^ n
lt-two-pow zero = omega arith
lt-two-pow (suc n) = omega (arith, pow_double n, lt-two-pow n, pow-pos n)

pub zero_of_bits : (x : ℕ) → ((i : ℕ) → bit x i ≡ 0) → x ≡ 0
zero_of_bits x h = eq_of_bits x x 0 (lt-two-pow x) (pow-pos x) (λ i hi. h i ∙ sym (bit_of_zero i))

-- A number with no digit at or above `n` lies below `2 ^ n`.
pub lt_of_bits : (n x : ℕ) → ((i : ℕ) → bit x (n + i) ≡ 0) → x < 2 ^ n
lt_of_bits n x h =
    let e : x / 2 ^ n ≡ 0 = zero_of_bits (x / 2 ^ n) (λ i. bit-div n x i ∙ h i) in
    let lt : x < 1 * 2 ^ n = (div-lt_iff_lt-mul (pow-pos n)).0 (omega arith) in omega arith

module _ (a b : ℕ) (ha : IsU32 a) where
  pub bit_and-lt : IsU32 (bit_and a b)
  bit_and-lt =
      lt_of_bits 32 (bit_and a b)
        λ i. omega (arith, bit-bit_and a b (32 + i), bit_high 32 a (32 + i) ha (omega arith))

  module _ (hb : IsU32 b) where
    pub bit_or-lt : IsU32 (bit_or a b)
    bit_or-lt = lt_of_bits 32 (bit_or a b) λ i. omega (
      arith,
      bit-bit_or a b (32 + i),
      bit_high 32 a (32 + i) ha (omega arith),
      bit_high 32 b (32 + i) hb (omega arith),
    )

    pub bit_xor-lt : IsU32 (bit_xor a b)
    unfolding xor_digit
    bit_xor-lt = lt_of_bits 32 (bit_xor a b) λ i. omega (
      arith,
      bit-bit_xor a b (32 + i),
      bit_high 32 a (32 + i) ha (omega arith),
      bit_high 32 b (32 + i) hb (omega arith),
    )

pub lnot-lt : (a : ℕ) → IsU32 (lnot a)
unfolding lnot
lnot-lt a = omega arith

pub shl-lt : (a k : ℕ) → IsU32 (shl a k)
unfolding shl
shl-lt a k = omega arith

pub shr-le : (a k : ℕ) → shr a k ≤ a
unfolding shr
shr-le a k = native.Mathlib.Nat.div-le_self a (2 ^ k)

pub bit-lnot : (x i : ℕ) → IsU32 x → i < 32 → bit (lnot x) i ≡ 1 - bit x i
unfolding lnot
bit-lnot x i hx hi = bit_complement 32 x i hx hi

pub bit-shl_low : (x k i : ℕ) → i < 32 → i < k → bit (shl x k) i ≡ 0
unfolding shl
bit-shl_low x k i hi h = bit-mod_low 32 (x * 2 ^ k) i hi ∙ bit-mul_low k x i h

pub bit-shl_high : (x k i : ℕ) → k + i < 32 → bit (shl x k) (k + i) ≡ bit x i
unfolding shl
bit-shl_high x k i h = bit-mod_low 32 (x * 2 ^ k) (k + i) h ∙ bit-mul_high k x i

pub bit-shr : (x k i : ℕ) → bit (shr x k) i ≡ bit x (k + i)
unfolding shr
bit-shr x k i = bit-div k x i

-- The sign test reads bit 31.
pub bit-is_neg :
    (x : ℕ) → IsU32 x → (is_neg x ≡ true) × (bit x 31 ≡ 1) ⊎ (is_neg x ≡ false) × (bit x 31 ≡ 0)
unfolding is_neg bit
bit-is_neg x hx = ground (arith, bit-div 31 x 0)

-- Past the top the shift copies the sign bit.
pub bit-sra_low : (x k i : ℕ) → IsU32 x → k + i < 32 → bit (sra x k) i ≡ bit x (k + i)
unfolding sra
bit-sra_low x k i hx h = elim (bit-is_neg x hx) [
  | inl p ↦ rw p.0 (
      omega (
        arith,
        bit-lnot (shr (lnot x) k) i (omega (arith, shr-le (lnot x) k, lnot-lt x)) (omega arith),
        bit-shr (lnot x) k i,
        bit-lnot x (k + i) hx h,
        bit-lt-two x (k + i),
      ))
  | inr p ↦ rw p.0 (bit-shr x k i)
]

pub bit-sra_high : (x k i : ℕ) → IsU32 x → i < 32 → 32 ≤ k + i → bit (sra x k) i ≡ bit x 31
unfolding sra
bit-sra_high x k i hx hi h = elim (bit-is_neg x hx) [
  | inl p ↦ rw p.0 (
      omega (
        arith,
        p.1,
        bit-lnot (shr (lnot x) k) i (omega (arith, shr-le (lnot x) k, lnot-lt x)) hi,
        bit-shr (lnot x) k i,
        bit_high 32 (lnot x) (k + i) (lnot-lt x) h,
      ))
  | inr p ↦ rw p.0 (omega (arith, p.1, bit-shr x k i, bit_high 32 x (k + i) hx h))
]

pub sra-lt : (x k : ℕ) → IsU32 x → IsU32 (sra x k)
unfolding sra lnot
sra-lt x k hx = elim (bit-is_neg x hx) [
  | inl p ↦ rw p.0 (omega arith)
  | inr p ↦ rw p.0 (omega (arith, shr-le x k))
]
