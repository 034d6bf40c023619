-- ===== src/Memory/Whole.antt =====
-- lightrec.c: a stored word is read back, and the two halves of an unaligned word make it up.
use lightrec.Base.{
  ℕ, ◌+◌, ◌-◌, ◌*◌, ◌^◌, ◌<◌, ◌≤◌, ◌≡◌, ◌⊎◌, inl, inr, arith, IsU32, bit_and, bit_or, shl, shr, ap,
}
use lightrec.Base.Bits.{
  bit, bit-lt-two, bit-bit_and, bit-bit_or, eq_of_bits, bit-shl_high, bit-shr, bit_high, bit_or-lt,
  bit_and-lt, pow-pos, shl-lt, shr-le,
}
use lightrec.Base.Bits.Digits.{upper_ones_digit}
use native.Mathlib.Decide.{dec_lt}
use lightrec.Memory.Host.{load8, load16, load32, store8, store16, store32}

pub load32-store32 :
    (host word : ℕ) (memory : ℕ → ℕ) → IsU32 word → load32 host (store32 host word memory) ≡ word
unfolding load32 load16 load8 store32 store16 store8
load32-store32 host word memory h = ground arith

pub load32-store32_apart :
    (host other word : ℕ) (memory : ℕ → ℕ)
    → host + 4 ≤ other ⊎ other + 4 ≤ host
    → load32 other (store32 host word memory) ≡ load32 other memory
unfolding load32 load16 load8 store32 store16 store8
load32-store32_apart host other word memory h = ground arith

pub load32-lt : (host : ℕ) (memory : ℕ → ℕ) → IsU32 (load32 host memory)
unfolding load32 load16 load8
load32-lt host memory = omega arith

-- The upper `k` bits of `word` stored in the lower end of one word and the rest in the upper end of
-- the word before, then taken together, for `k + n` bits.
module _ (k n : ℕ) (split : k + n ≡ 32) (upper : 2 ^ 32 - 2 ^ k ≡ (2 ^ n - 1) * 2 ^ k)
    (lower : 2 ^ 32 - 2 ^ n ≡ (2 ^ k - 1) * 2 ^ n) where
  -- What `SWL` leaves of the word in the second of the two, and `SWR` in the first.
  abbrev pub left_half : ℕ → ℕ → ℕ
  left_half word old = bit_or (shr word n) (bit_and old (2 ^ 32 - 2 ^ k))

  abbrev pub right_half : ℕ → ℕ → ℕ
  right_half word old = bit_or (shl word k) (bit_and old (2 ^ k - 1))

  -- What `LWL` and `LWR` make of the halves.
  abbrev pub load_left : ℕ → ℕ → ℕ
  load_left reg half = bit_or (bit_and reg (2 ^ n - 1)) (shl half n)

  abbrev pub load_right : ℕ → ℕ → ℕ
  load_right reg half = bit_or (bit_and reg (2 ^ 32 - 2 ^ n)) (shr half k)

  left_digit : (word old i : ℕ) → i < k → bit (left_half word old) i ≡ bit word (n + i)
  left_digit word old i h = elim (upper_ones_digit k n i split (omega arith)) [
    | inl z ↦ omega (
      arith,
      bit-bit_or (shr word n) (bit_and old (2 ^ 32 - 2 ^ k)) i,
      bit-shr word n i,
      bit-bit_and old (2 ^ 32 - 2 ^ k) i,
      ap (λ (t : ℕ). bit t i) upper,
      z.1,
    )
    | inr up ↦ absurd (omega (arith, up.0))
  ]

  right_digit : (word old i : ℕ) → k + i < 32 → bit (right_half word old) (k + i) ≡ bit word i
  right_digit word old i h = omega (
    arith,
    bit-bit_or (shl word k) (bit_and old (2 ^ k - 1)) (k + i),
    bit-shl_high word k i h,
    bit-bit_and old (2 ^ k - 1) (k + i),
    bit_high k (2 ^ k - 1) (k + i) (omega (arith, pow-pos k)) (omega arith),
  )

  pub right_half-lt : (word old : ℕ) → IsU32 old → IsU32 (right_half word old)
  right_half-lt word old h =
      bit_or-lt (shl word k) (bit_and old (2 ^ k - 1)) (shl-lt word k)
        (bit_and-lt old (2 ^ k - 1) h)

  pub left_half-lt : (word old : ℕ) → IsU32 word → IsU32 old → IsU32 (left_half word old)
  left_half-lt word old w h =
      bit_or-lt (shr word n) (bit_and old (2 ^ 32 - 2 ^ k)) (omega (arith, shr-le word n))
        (bit_and-lt old (2 ^ 32 - 2 ^ k) h)

  loaded_digit_low :
      (reg word old half i : ℕ)
      → i < n
      → bit (load_right (load_left reg half) (right_half word old)) i ≡ bit word i
  loaded_digit_low reg word old half i h =
      elim (upper_ones_digit n k i (omega arith) (omega arith)) [
        | inl z ↦ omega (
          arith,
          bit-bit_or (bit_and (load_left reg half) (2 ^ 32 - 2 ^ n)) (shr (right_half word old) k)
              i,
          bit-bit_and (load_left reg half) (2 ^ 32 - 2 ^ n) i,
          ap (λ (t : ℕ). bit t i) lower,
          z.1,
          bit-shr (right_half word old) k i,
          right_digit word old i (omega arith),
        )
        | inr up ↦ absurd (omega (arith, up.0))
      ]

  left_loaded_digit :
      (reg word old j : ℕ)
      → j < k
      → bit (load_left reg (left_half word old)) (n + j) ≡ bit word (n + j)
  left_loaded_digit reg word old j h = omega (
    arith,
    bit-bit_or (bit_and reg (2 ^ n - 1)) (shl (left_half word old) n) (n + j),
    bit-bit_and reg (2 ^ n - 1) (n + j),
    bit_high n (2 ^ n - 1) (n + j) (omega (arith, pow-pos n)) (omega arith),
    bit-shl_high (left_half word old) n j (omega arith),
    left_digit word old j h,
  )

  loaded_digit_high :
      (reg word old0 old1 j : ℕ)
      → IsU32 old0
      → j < k
      → bit (load_right (load_left reg (left_half word old1)) (right_half word old0)) (n + j)
        ≡ bit word (n + j)
  loaded_digit_high reg word old0 old1 j h0 h =
      elim (upper_ones_digit n k (n + j) (omega arith) (omega arith)) [
        | inl z ↦ absurd (omega (arith, z.0))
        | inr up ↦ omega (
          arith,
          bit-bit_or (bit_and (load_left reg (left_half word old1)) (2 ^ 32 - 2 ^ n))
              (shr (right_half word old0) k) (n + j),
          bit-bit_and (load_left reg (left_half word old1)) (2 ^ 32 - 2 ^ n) (n + j),
          ap (λ (t : ℕ). bit t (n + j)) lower,
          up.1,
          bit-lt-two word (n + j),
          left_loaded_digit reg word old1 j h,
          bit-shr (right_half word old0) k (n + j),
          bit_high 32 (right_half word old0) (k + (n + j)) (right_half-lt word old0 h0)
              (omega arith),
        )
      ]

  -- The two loads give back the word that the two stores split.
  pub joined_halves :
      (reg word old0 old1 : ℕ)
      → IsU32 reg
      → IsU32 word
      → IsU32 old0
      → load_right (load_left reg (left_half word old1)) (right_half word old0) ≡ word
  joined_halves reg word old0 old1 hr hw h0 =
      eq_of_bits 32 _ word whole hw (λ i hi. digit i hi (dec_lt i n))
    where
      whole : IsU32 (load_right (load_left reg (left_half word old1)) (right_half word old0))
      whole =
          let x : IsU32 (load_left reg (left_half word old1)) =
            bit_or-lt (bit_and reg (2 ^ n - 1)) (shl (left_half word old1) n)
              (bit_and-lt reg (2 ^ n - 1) hr) (shl-lt (left_half word old1) n) in
          bit_or-lt (bit_and (load_left reg (left_half word old1)) (2 ^ 32 - 2 ^ n))
            (shr (right_half word old0) k)
            (bit_and-lt (load_left reg (left_half word old1)) (2 ^ 32 - 2 ^ n) x)
            (omega (arith, shr-le (right_half word old0) k, right_half-lt word old0 h0))

      digit :
          (i : ℕ)
          → i < 32
          → Dec (i < n)
          → bit (load_right (load_left reg (left_half word old1)) (right_half word old0)) i
            ≡ bit word i
      digit i hi (yes low) = loaded_digit_low reg word old0 (left_half word old1) i low
      digit i hi (no high) =
          let e : n + (i - n) ≡ i = omega arith in
          rw e at (loaded_digit_high reg word old0 old1 (i - n) h0 (omega arith))
