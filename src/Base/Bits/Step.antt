-- ===== src/Base/Bits/Step.antt =====
-- `bit x i`, bit `i` of a number, and the native `bit_and`, `bit_or` and `bit_xor` bit by bit.
use Prim.Native.Nat.{ℕ, zero, suc, ◌+◌, ◌*◌, ◌/◌, ◌%◌, ◌≤◌, ◌<◌, min, max}
use Prim.Native.Nat.{bit_and, bit_or, bit_xor, digits, differ}
use Prim.Native.Nat.{bit_and-bitwise, bit_or-bitwise, bit_xor-bitwise}
use mathlib.Core.Path.{◌≡◌, refl, ◌∙◌}
use native.Mathlib.Omega.{arith}
use native.Mathlib.Nat.{le_refl}

unfoldable pub bit : ℕ → ℕ → ℕ
bit x zero = x % 2
bit x (suc i) = bit (x / 2) i

pub bit-lt-two : (x i : ℕ) → bit x i < 2
unfolding bit
bit-lt-two x zero = omega arith
bit-lt-two x (suc i) = bit-lt-two (x / 2) i

pub bit_of_zero : (i : ℕ) → bit 0 i ≡ 0
unfolding bit
bit_of_zero zero = refl
bit_of_zero (suc i) = bit_of_zero i

pub bit_even : (h r : ℕ) → r < 2 → bit (h * 2 + r) 0 ≡ r
unfolding bit
bit_even h r small = omega arith

pub bit_double : (h r i : ℕ) → r < 2 → bit (h * 2 + r) (suc i) ≡ bit h i
unfolding bit
bit_double h r i small = let e : (h * 2 + r) / 2 ≡ h = omega arith in rw e

module _ (z : ℕ → ℕ) (f : ℕ → ℕ → ℕ) (f_digit : (x y : ℕ) → x < 2 → y < 2 → f x y < 2)
    (bit-z : (b i : ℕ) → bit (z b) i ≡ f 0 (bit b i)) where
  bit-digits : (n a b i : ℕ) → a ≤ n → bit (digits z f n a b) i ≡ f (bit a i) (bit b i)
  bit-digits zero zero b i h = rw (bit-z, bit_of_zero)
  bit-digits zero (suc a) b i h = absurd (omega arith)
  bit-digits (suc n) zero b i h = rw (bit-z, bit_of_zero)
  bit-digits (suc n) (suc a) b zero h =
      unfold bit in
      bit_even (digits z f n (suc a / 2) (b / 2)) (f (suc a % 2) (b % 2))
        (f_digit (suc a % 2) (b % 2) (omega arith) (omega arith))
  bit-digits (suc n) (suc a) b (suc i) h =
      rw
        (
          bit_double (digits z f n (suc a / 2) (b / 2)) (f (suc a % 2) (b % 2)) i
              (f_digit (suc a % 2) (b % 2) (omega arith) (omega arith)),
          bit-digits n (suc a / 2) (b / 2) i (omega arith),
        )
        (unfold bit in refl)

-- 1 exactly where the two digits differ.
unfoldable pub xor_digit : ℕ → ℕ → ℕ
xor_digit a b = (a + b) % 2

differ_digit : (x y : ℕ) → x < 2 → y < 2 → differ x y ≡ xor_digit x y
unfolding xor_digit
differ_digit zero zero h k = refl
differ_digit zero (suc zero) h k = refl
differ_digit (suc zero) zero h k = refl
differ_digit (suc zero) (suc zero) h k = refl
differ_digit (suc (suc x)) y h k = absurd (omega arith)
differ_digit zero (suc (suc y)) h k = absurd (omega arith)
differ_digit (suc zero) (suc (suc y)) h k = absurd (omega arith)

differ-lt-two : (x y : ℕ) → x < 2 → y < 2 → differ x y < 2
unfolding xor_digit
differ-lt-two x y h k = omega (arith, differ_digit x y h k)

pub bit-bit_and : (a b i : ℕ) → bit (bit_and a b) i ≡ min (bit a i) (bit b i)
bit-bit_and a b i = simp bit_and-bitwise (
    bit-digits (λ y. 0) min (λ x y h k. omega arith) (λ c j. omega (arith, bit_of_zero j)) a a b i
      (le_refl a))

pub bit-bit_or : (a b i : ℕ) → bit (bit_or a b) i ≡ max (bit a i) (bit b i)
bit-bit_or a b i =
    simp bit_or-bitwise
      (bit-digits (λ y. y) max (λ x y h k. omega arith) (λ c j. omega arith) a a b i (le_refl a))

pub bit-bit_xor : (a b i : ℕ) → bit (bit_xor a b) i ≡ xor_digit (bit a i) (bit b i)
bit-bit_xor a b i =
    simp bit_xor-bitwise
      (bit-digits (λ y. y) differ differ-lt-two (λ c j. refl) a a b i (le_refl a))
    ∙ differ_digit (bit a i) (bit b i) (bit-lt-two a i) (bit-lt-two b i)
