-- ===== src/Base/Bits/Digits.antt =====
-- The digits of shifted and extended words, one equation or one alternative each.
use lightrec.Base.Tests.{==_cases}
use lightrec.Base.Word.{IsU32, shl, sra, sext8, sext16}
use lightrec.Base.Bits.Step.{bit, bit-lt-two, bit-bit_and}
use lightrec.Base.Bits.Laws.{
  bit_high, bit-pow_self, bit-pow_ne, bit-mask_low, bit-mul_low, bit-mul_high, eq_of_bits,
}
use lightrec.Base.Bits.Words.{
  bit-shl_low, bit-shl_high, bit-sra_low, bit-sra_high, shl-lt, lt_of_bits,
}
use lightrec.Base.Bits.Laws.{pow-pos}
use Prim.Native.Nat.{ℕ, ◌+◌, ◌-◌, ◌*◌, ◌^◌, ◌≤◌, ◌<◌, min, bit_and}
use mathlib.Core.Path.{◌≡◌, sym, ap, ◌∙◌}
use mathlib.Core.Logic.{◌⊎◌, inl, inr}
use native.Mathlib.Decide.{dec_lt}
use native.Mathlib.Omega.{arith}

pub shl_digit :
    (x k i : ℕ)
    → i < 32
    → (i < k) × (bit (shl x k) i ≡ 0) ⊎ (k ≤ i) × (bit (shl x k) i ≡ bit x (i - k))
shl_digit x k i hi = elim (dec_lt i k) [
  | yes h ↦ inl (h, bit-shl_low x k i hi h)
  | no h ↦
      let e : k + (i - k) ≡ i = omega arith in
      inr (omega arith, rw e at (bit-shl_high x k (i - k) (omega arith)))
]

pub sra_digit : (x k i : ℕ) → IsU32 x → k < 32 → i < 32 → bit (sra x k) i ≡ bit x (min (k + i) 31)
sra_digit x k i hx hk hi = elim (dec_lt (k + i) 32) [
  | yes h ↦ let e : min (k + i) 31 ≡ k + i = omega arith in rw e (bit-sra_low x k i hx h)
  | no h ↦
      let e : min (k + i) 31 ≡ 31 = omega arith in rw e (bit-sra_high x k i hx hi (omega arith))
]

sext8-eq-shifts : (x : ℕ) → sext8 x ≡ sra (shl x 24) 24
unfolding sext8 sra shl
sext8-eq-shifts x = ground arith

sext16-eq-shifts : (x : ℕ) → sext16 x ≡ sra (shl x 16) 16
unfolding sext16 sra shl
sext16-eq-shifts x = ground arith

pub sext8_digit : (x i : ℕ) → i < 32 → bit (sext8 x) i ≡ bit x (min i 7)
sext8_digit x i hi =
    let e : min (24 + i) 31 ≡ 24 + min i 7 = omega arith in
    rw (sext8-eq-shifts, sra_digit (shl x 24) 24 i (shl-lt x 24) (omega arith) hi, e)
      (bit-shl_high x 24 (min i 7) (omega arith))

pub sext16_digit : (x i : ℕ) → i < 32 → bit (sext16 x) i ≡ bit x (min i 15)
sext16_digit x i hi =
    let e : min (16 + i) 31 ≡ 16 + min i 15 = omega arith in
    rw (sext16-eq-shifts, sra_digit (shl x 16) 16 i (shl-lt x 16) (omega arith) hi, e)
      (bit-shl_high x 16 (min i 15) (omega arith))

pub sext8-lt : (x : ℕ) → IsU32 (sext8 x)
unfolding sext8
sext8-lt x = ground arith

pub sext16-lt : (x : ℕ) → IsU32 (sext16 x)
unfolding sext16
sext16-lt x = ground arith

-- The digits of a single bit, and of a run of ones from bit `l` up to bit 31.
pub pow_digit : (k i : ℕ) → (i ≡ k) × (bit (2 ^ k) i ≡ 1) ⊎ (bit (2 ^ k) i ≡ 0)
pow_digit k i = elim (==_cases k i) [
  | inl e ↦ inl (sym e, rw (← e) (bit-pow_self k))
  | inr ne ↦ inr (bit-pow_ne k i (ground arith))
]

pub upper_ones_digit :
    (l n i : ℕ)
    → l + n ≡ 32
    → i < 32
    → (i < l) × (bit ((2 ^ n - 1) * 2 ^ l) i ≡ 0) ⊎ (l ≤ i) × (bit ((2 ^ n - 1) * 2 ^ l) i ≡ 1)
upper_ones_digit l n i e hi = elim (dec_lt i l) [
  | yes h ↦ inl (h, bit-mul_low l (2 ^ n - 1) i h)
  | no h ↦
      let split : l + (i - l) ≡ i = omega arith in
      inr (
        omega arith,
        (rw split at (bit-mul_high l (2 ^ n - 1) (i - l))) ∙ bit-mask_low n (i - l) (omega arith),
      )
]

-- Masking with low ones keeps the low digits.
pub masked-lt : (k x : ℕ) → bit_and x (2 ^ k - 1) < 2 ^ k
masked-lt k x = lt_of_bits k (bit_and x (2 ^ k - 1)) λ i. omega (
  arith,
  bit-bit_and x (2 ^ k - 1) (k + i),
  bit_high k (2 ^ k - 1) (k + i) (omega (arith, pow-pos k)) (omega arith),
)

pub eq_of_masked :
    (k x y : ℕ)
    → ((i : ℕ) → i < k → bit x i ≡ bit y i)
    → bit_and x (2 ^ k - 1) ≡ bit_and y (2 ^ k - 1)
eq_of_masked k x y h =
    eq_of_bits k (bit_and x (2 ^ k - 1)) (bit_and y (2 ^ k - 1)) (masked-lt k x) (masked-lt k y)
      λ i hi. omega (arith, h i hi, bit-bit_and x (2 ^ k - 1) i, bit-bit_and y (2 ^ k - 1) i)

pub masked_ones : (k x i : ℕ) → bit_and x (2 ^ k - 1) ≡ 2 ^ k - 1 → i < k → bit x i ≡ 1
masked_ones k x i h hi = omega (
  arith,
  ap (λ (t : ℕ). bit t i) h,
  bit-bit_and x (2 ^ k - 1) i,
  bit-mask_low k i hi,
  bit-lt-two x i,
)
