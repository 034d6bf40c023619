-- ===== src/Base/Bits/Units.antt =====
-- Operations on words that give an operand back.
use lightrec.Base.{ℕ, ◌≡◌, IsU32, arith, bit_and, bit_or, add32, sub32, shl, shr, sra, lnot}
use lightrec.Base.Bits.Step.{bit_of_zero, bit-bit_and, bit-bit_or}
use lightrec.Base.Bits.Laws.{eq_of_bits}
use lightrec.Base.Bits.Words.{bit_and-lt, bit_or-lt}

pub add32_zero_right : (x : ℕ) → IsU32 x → add32 x 0 ≡ x
unfolding add32
add32_zero_right x h = omega arith

pub add32_zero_left : (x : ℕ) → IsU32 x → add32 0 x ≡ x
unfolding add32
add32_zero_left x h = omega arith

pub sub32_zero : (x : ℕ) → IsU32 x → sub32 x 0 ≡ x
unfolding sub32
sub32_zero x h = omega arith

pub shl_zero : (x : ℕ) → IsU32 x → shl x 0 ≡ x
unfolding shl
shl_zero x h = omega arith

pub shr_zero : (x : ℕ) → shr x 0 ≡ x
unfolding shr
shr_zero x = omega arith

pub sra_zero : (x : ℕ) → IsU32 x → sra x 0 ≡ x
unfolding sra shr lnot
sra_zero x h = ground arith

module _ (x : ℕ) (h : IsU32 x) where
  pub bit_and_self : bit_and x x ≡ x
  bit_and_self =
      eq_of_bits 32 (bit_and x x) x (bit_and-lt x x h) h (λ i hi. omega (arith, bit-bit_and x x i))

  pub bit_or_self : bit_or x x ≡ x
  bit_or_self =
      eq_of_bits 32 (bit_or x x) x (bit_or-lt x x h h) h (λ i hi. omega (arith, bit-bit_or x x i))

  pub bit_or_zero_right : bit_or x 0 ≡ x
  bit_or_zero_right =
      eq_of_bits 32 (bit_or x 0) x (bit_or-lt x 0 h (omega arith)) h
        (λ i hi. omega (arith, bit-bit_or x 0 i, bit_of_zero i))

  pub bit_or_zero_left : bit_or 0 x ≡ x
  bit_or_zero_left =
      eq_of_bits 32 (bit_or 0 x) x (bit_or-lt 0 x (omega arith) h) h
        (λ i hi. omega (arith, bit-bit_or 0 x i, bit_of_zero i))
