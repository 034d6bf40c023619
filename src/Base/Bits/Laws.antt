-- ===== src/Base/Bits/Laws.antt =====
-- The bits of shifted, masked and complemented numbers, and equality bit by bit.
use native.Mathlib.Nat.{pow-suc, one-le-pow, div-div-eq-div-mul, div-add-mod, mod-lt}
use native.Mathlib.Nat.{mod-eq_of_lt, mul-add-mod_self_left}
use lightrec.Base.Bits.Step.{bit, bit_of_zero, bit_even, bit_double}
use Prim.Native.Nat.{ℕ, zero, suc, ◌+◌, ◌-◌, ◌*◌, ◌/◌, ◌%◌, ◌^◌, ◌≤◌, ◌<◌}
use mathlib.Core.Path.{◌≡◌, refl, ap, sym, ◌∙◌}
use mathlib.Core.Logic.{◌≢◌}
use native.Mathlib.Omega.{arith}

pub pow-pos : (k : ℕ) → 1 ≤ 2 ^ k
pow-pos k = one-le-pow k 2 (omega arith)

pub pow_double : (k : ℕ) → 2 ^ suc k ≡ 2 * 2 ^ k
pow_double k = omega (arith, pow-suc 2 k)

-- Two numbers below `2 ^ n` with the same bits are equal.
pub eq_of_bits : (n a b : ℕ) → a < 2 ^ n → b < 2 ^ n → ((i : ℕ) → i < n → bit a i ≡ bit b i) → a ≡ b
unfolding bit
eq_of_bits zero a b ha hb h = omega arith
eq_of_bits (suc n) a b ha hb h = omega (
  arith,
  h 0 (omega arith),
  eq_of_bits n (a / 2) (b / 2) (omega (arith, pow_double n)) (omega (arith, pow_double n))
      (λ i hi. h (suc i) (omega arith)),
)

pub bit-div : (k x i : ℕ) → bit (x / 2 ^ k) i ≡ bit x (k + i)
unfolding bit
bit-div zero x i = let e : x / 1 ≡ x = omega arith in let f : 0 + i ≡ i = omega arith in rw (e, f)
bit-div (suc k) x i =
    let e : x / 2 ^ suc k ≡ x / 2 / 2 ^ k =
      ap (λ (t : ℕ). x / t) (pow_double k) ∙ sym (div-div-eq-div-mul x 2 (2 ^ k)) in
    let f : suc k + i ≡ suc (k + i) = omega arith in rw (e, f) (bit-div k (x / 2) i)

mul_pow_double : (x k : ℕ) → x * 2 ^ suc k ≡ x * 2 ^ k * 2 + 0
mul_pow_double x k = omega (arith, ap (λ (t : ℕ). x * t) (pow_double k))

pub bit-mul_low : (k x i : ℕ) → i < k → bit (x * 2 ^ k) i ≡ 0
unfolding bit
bit-mul_low zero x i h = absurd (omega arith)
bit-mul_low (suc k) x zero h = rw (mul_pow_double x k) (bit_even (x * 2 ^ k) 0 (omega arith))
bit-mul_low (suc k) x (suc i) h =
    rw (mul_pow_double x k)
      (bit_double (x * 2 ^ k) 0 i (omega arith) ∙ bit-mul_low k x i (omega arith))

pub bit-mul_high : (k x i : ℕ) → bit (x * 2 ^ k) (k + i) ≡ bit x i
unfolding bit
bit-mul_high zero x i =
    let e : x * 1 ≡ x = omega arith in let f : 0 + i ≡ i = omega arith in rw (e, f)
bit-mul_high (suc k) x i =
    let f : suc k + i ≡ suc (k + i) = omega arith in
    rw (f, mul_pow_double x k) (bit_double (x * 2 ^ k) 0 (k + i) (omega arith) ∙ bit-mul_high k x i)

-- A remainder by an even number keeps the lowest digit, and halves to a remainder of the half.
mod_double : (x m : ℕ) → 0 < m → (x % (2 * m) % 2 ≡ x % 2) × (x % (2 * m) / 2 ≡ x / 2 % m)
mod_double x m pos =
    let q = x / (2 * m) in
    let r = x % (2 * m) in
    let split : 2 * m * q + r ≡ x = div-add-mod x (2 * m) in
    let small : r < 2 * m = mod-lt x (omega arith) in
    let half : m * q + r / 2 ≡ x / 2 = omega arith in
    (
      omega arith,
      sym (mod-eq_of_lt (omega arith))
          ∙ sym (mul-add-mod_self_left m q (r / 2))
          ∙ ap (λ (t : ℕ). t % m) half,
    )

pub bit-mod_low : (n x i : ℕ) → i < n → bit (x % 2 ^ n) i ≡ bit x i
unfolding bit
bit-mod_low zero x i h = absurd (omega arith)
bit-mod_low (suc n) x zero h = rw (pow_double n) ((mod_double x (2 ^ n) (pow-pos n)).0)
bit-mod_low (suc n) x (suc i) h =
    rw (pow_double n, (mod_double x (2 ^ n) (pow-pos n)).1) (bit-mod_low n (x / 2) i (omega arith))

-- A number has no digit at or above a power that it lies below.
pub bit_high : (n x i : ℕ) → x < 2 ^ n → n ≤ i → bit x i ≡ 0
unfolding bit
bit_high zero x i hx h = let e : x ≡ 0 = omega arith in rw (e, bit_of_zero)
bit_high (suc n) x zero hx h = absurd (omega arith)
bit_high (suc n) x (suc i) hx h = bit_high n (x / 2) i (omega (arith, pow_double n)) (omega arith)

-- The digits of the complement in `n` digits.
pub bit_complement : (n x i : ℕ) → x < 2 ^ n → i < n → bit (2 ^ n - 1 - x) i ≡ 1 - bit x i
unfolding bit
bit_complement zero x i hx h = absurd (omega arith)
bit_complement (suc n) x zero hx h = omega (arith, pow_double n)
bit_complement (suc n) x (suc i) hx h =
    let e : (2 ^ suc n - 1 - x) / 2 ≡ 2 ^ n - 1 - x / 2 = omega (arith, pow_double n) in
    rw e (bit_complement n (x / 2) i (omega (arith, pow_double n)) (omega arith))

pub bit-pow_self : (k : ℕ) → bit (2 ^ k) k ≡ 1
unfolding bit
bit-pow_self zero = refl
bit-pow_self (suc k) =
    let e : 2 ^ suc k / 2 ≡ 2 ^ k = omega (arith, pow_double k) in rw e (bit-pow_self k)

pub bit-pow_ne : (k i : ℕ) → k ≢ i → bit (2 ^ k) i ≡ 0
unfolding bit
bit-pow_ne zero zero h = absurd (h refl)
bit-pow_ne zero (suc i) h = bit_of_zero i
bit-pow_ne (suc k) zero h = omega (arith, pow_double k)
bit-pow_ne (suc k) (suc i) h =
    let e : 2 ^ suc k / 2 ≡ 2 ^ k = omega (arith, pow_double k) in
    rw e (bit-pow_ne k i (λ p. h (ap suc p)))

-- The mask of `k` low ones.
pub bit-mask_low : (k i : ℕ) → i < k → bit (2 ^ k - 1) i ≡ 1
bit-mask_low k i h =
    let e : 2 ^ k - 1 - 0 ≡ 2 ^ k - 1 = omega arith in
    rw (← e) (omega (arith, bit_complement k 0 i (pow-pos k) h, bit_of_zero i))
