-- ===== src/Base/Bits/Fields.antt =====
-- Bit fields as arithmetic: what a mask keeps, and a disjunction of fields that do not meet.
use lightrec.Base.{
  ℕ, ◌+◌, ◌-◌, ◌*◌, ◌/◌, ◌%◌, ◌^◌, ◌<◌, ◌≤◌, IsU32, ◌≡◌, arith, bit_and, bit_or, sym, ◌∙◌, ap,
}
use lightrec.Base.Bits.{
  bit, bit-lt-two, bit-bit_and, bit-bit_or, eq_of_bits, bit-div, bit-mul_low, bit-mul_high,
  bit-mod_low, bit-mask_low, bit_high, pow-pos, lt_of_bits, bit_or-lt,
}
use native.Mathlib.Decide.{dec_lt}
use native.Mathlib.Nat.{mod-lt}

-- The mask of `n` bits from bit `l` on.
module _ (l n : ℕ) (fits : l + n ≤ 32) where
  mask_digit_low : (x i : ℕ) → i < l → bit (bit_and x ((2 ^ n - 1) * 2 ^ l)) i ≡ 0
  mask_digit_low x i h =
      omega (arith, bit-bit_and x ((2 ^ n - 1) * 2 ^ l) i, bit-mul_low l (2 ^ n - 1) i h)

  mask_digit_high :
      (x j : ℕ) → bit (bit_and x ((2 ^ n - 1) * 2 ^ l)) (l + j) ≡ bit (x / 2 ^ l % 2 ^ n) j
  mask_digit_high x j = elim (dec_lt j n) [
    | yes h ↦ omega (
      arith,
      bit-bit_and x ((2 ^ n - 1) * 2 ^ l) (l + j),
      bit-mul_high l (2 ^ n - 1) j,
      bit-mask_low n j h,
      bit-mod_low n (x / 2 ^ l) j h,
      bit-div l x j,
      bit-lt-two x (l + j),
    )
    | no h ↦ omega (
      arith,
      bit-bit_and x ((2 ^ n - 1) * 2 ^ l) (l + j),
      bit-mul_high l (2 ^ n - 1) j,
      bit_high n (2 ^ n - 1) j (omega (arith, pow-pos n)) (omega arith),
      bit_high n (x / 2 ^ l % 2 ^ n) j (mod-lt (x / 2 ^ l) (pow-pos n)) (omega arith),
    )
  ]

  pub bit_and-field :
      (x : ℕ)
      → IsU32 ((2 ^ n - 1) * 2 ^ l)
      → IsU32 (x / 2 ^ l % 2 ^ n * 2 ^ l)
      → bit_and x ((2 ^ n - 1) * 2 ^ l) ≡ x / 2 ^ l % 2 ^ n * 2 ^ l
  bit_and-field x mask small =
      eq_of_bits 32 (bit_and x ((2 ^ n - 1) * 2 ^ l)) (x / 2 ^ l % 2 ^ n * 2 ^ l) bounded small
        λ i hi. digit i (dec_lt i l)
    where
      bounded : IsU32 (bit_and x ((2 ^ n - 1) * 2 ^ l))
      bounded = lt_of_bits 32 (bit_and x ((2 ^ n - 1) * 2 ^ l)) λ i. omega (
        arith,
        bit-bit_and x ((2 ^ n - 1) * 2 ^ l) (32 + i),
        bit_high 32 ((2 ^ n - 1) * 2 ^ l) (32 + i) mask (omega arith),
      )

      digit :
          (i : ℕ)
          → Dec (i < l)
          → bit (bit_and x ((2 ^ n - 1) * 2 ^ l)) i ≡ bit (x / 2 ^ l % 2 ^ n * 2 ^ l) i
      digit i (yes h) = mask_digit_low x i h ∙ sym (bit-mul_low l (x / 2 ^ l % 2 ^ n) i h)
      digit i (no h) =
          let e : l + (i - l) ≡ i = omega arith in
          rw e at (mask_digit_high x (i - l) ∙ sym (bit-mul_high l (x / 2 ^ l % 2 ^ n) (i - l)))

-- Fields that do not meet: the low `k` bits are those of `a`, the others those of `b`.
pub bit_or-apart :
    (k a b : ℕ)
    → a + b * 2 ^ k < 2 ^ 32
    → (a + b * 2 ^ k) % 2 ^ k ≡ a
    → (a + b * 2 ^ k) / 2 ^ k ≡ b
    → bit_or a (b * 2 ^ k) ≡ a + b * 2 ^ k
bit_or-apart k a b small low high =
    eq_of_bits 32 (bit_or a (b * 2 ^ k)) (a + b * 2 ^ k)
      (bit_or-lt a (b * 2 ^ k) (omega arith) (omega arith)) small (λ i hi. digit i (dec_lt i k))
  where
    a_small : a < 2 ^ k
    a_small = let r = mod-lt (a + b * 2 ^ k) (pow-pos k) in omega (arith, r, low)

    digit : (i : ℕ) → Dec (i < k) → bit (bit_or a (b * 2 ^ k)) i ≡ bit (a + b * 2 ^ k) i
    digit i (yes h) = omega (
      arith,
      bit-bit_or a (b * 2 ^ k) i,
      bit-mul_low k b i h,
      bit-mod_low k (a + b * 2 ^ k) i h,
      ap (λ (t : ℕ). bit t i) low,
    )
    digit i (no h) = let e : k + (i - k) ≡ i = omega arith in rw e at (upper (i - k))
      where
        upper : (j : ℕ) → bit (bit_or a (b * 2 ^ k)) (k + j) ≡ bit (a + b * 2 ^ k) (k + j)
        upper j = omega (
          arith,
          bit-bit_or a (b * 2 ^ k) (k + j),
          bit-mul_high k b j,
          bit_high k a (k + j) a_small (omega arith),
          bit-div k (a + b * 2 ^ k) j,
          ap (λ (t : ℕ). bit t j) high,
        )
