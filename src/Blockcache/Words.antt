-- ===== src/Blockcache/Words.antt =====
-- blockcache.c: `translated_words`, one bit a code word, in bytes.
use lightrec.Base.{
  ℕ, zero, suc, ◌+◌, ◌/◌, ◌%◌, ◌^◌, ◌<◌, ◌≡◌, ◌≢◌, inl, inr, arith, ◌==◌, if◌then◌else◌, Bool, true,
  false, bit_and, bit_or, any_bit, lnot, ==_cases, Bool-cases, ◌∙◌, sym, refl, IsU32,
}
use lightrec.Base.Bits.{
  bit, bit-lt-two, bit-bit_and, bit-bit_or, bit-lnot, bit-pow_self, bit-pow_ne,
}
use lightrec.Optimizer.MaskBits.{any_bit_one, any_bit_zero, digit_of_any, bit_of_outside}
use lightrec.Blockcache.Geometry.{clamp_word_run}

-- The bytes of the array.
abbrev pub TranslatedWords : Type 0
TranslatedWords = ℕ → ℕ

unfoldable pub is_translated : TranslatedWords → ℕ → Bool
unfolding any_bit
is_translated t word = any_bit (t (word / 8)) (2 ^ (word % 8))

unfoldable pub set_translated : ℕ → TranslatedWords → TranslatedWords
set_translated word t = λ i. if word / 8 == i then bit_or (t i) (2 ^ (word % 8)) else t i

unfoldable pub clear_translated : ℕ → TranslatedWords → TranslatedWords
unfolding lnot
clear_translated word t = λ i. if word / 8 == i then bit_and (t i) (lnot (2 ^ (word % 8))) else t i

-- The loops over a run of `n` words from `word` on.
unfoldable pub mark_run : ℕ → ℕ → TranslatedWords → TranslatedWords
unfolding set_translated
mark_run zero word t = t
mark_run (suc n) word t = mark_run n (word + 1) (set_translated word t)

unfoldable pub clear_run : ℕ → ℕ → TranslatedWords → TranslatedWords
unfolding clear_translated
clear_run zero word t = t
clear_run (suc n) word t = clear_run n (word + 1) (clear_translated word t)

unfoldable pub any_run : ℕ → ℕ → TranslatedWords → Bool
unfolding is_translated
any_run zero word t = false
any_run (suc n) word t =
    let rest = any_run n (word + 1) t in if is_translated t word then true else rest

unfoldable pub mark_translated_words : TranslatedWords → ℕ → ℕ → TranslatedWords
unfolding clamp_word_run mark_run
mark_translated_words t offset count = mark_run (clamp_word_run offset count) offset t

unfoldable pub clear_translated_words : TranslatedWords → ℕ → ℕ → TranslatedWords
unfolding clamp_word_run clear_run
clear_translated_words t offset count = clear_run (clamp_word_run offset count) offset t

unfoldable pub any_translated_word : TranslatedWords → ℕ → ℕ → Bool
unfolding clamp_word_run any_run
any_translated_word t offset count = any_run (clamp_word_run offset count) offset t

-- A test depends on the one digit.
pub same_digit : (a b i : ℕ) → bit a i ≡ bit b i → any_bit a (2 ^ i) ≡ any_bit b (2 ^ i)
same_digit a b i e = elim (Bool-cases (any_bit b (2 ^ i))) [
  | inl one ↦ any_bit_one a i (e ∙ digit_of_any b i one) ∙ sym one
  | inr z ↦ any_bit_zero a i (e ∙ bit_of_outside b i z) ∙ sym z
]

pub set_translated_self :
    (w : ℕ) (t : TranslatedWords) → is_translated (set_translated w t) w ≡ true
unfolding is_translated set_translated
set_translated_self w t =
    let same : (w / 8 == w / 8) ≡ true = ground arith in
    rw same (
      any_bit_one _ (w % 8) (
        omega (
          arith,
          bit-bit_or (t (w / 8)) (2 ^ (w % 8)) (w % 8),
          bit-pow_self (w % 8),
          bit-lt-two (t (w / 8)) (w % 8),
        )))

pub set_translated_ne :
    (w : ℕ) (t : TranslatedWords) (x : ℕ)
    → w ≢ x
    → is_translated (set_translated w t) x ≡ is_translated t x
unfolding is_translated set_translated
set_translated_ne w t x ne = elim (==_cases (w / 8) (x / 8)) [
  | inl e ↦
      let same : (x / 8 == x / 8) ≡ true = ground arith in
      rw (e, same)
        (same_digit _ _ (x % 8) (
          omega (
            arith,
            bit-bit_or (t (x / 8)) (2 ^ (w % 8)) (x % 8),
            bit-pow_ne (w % 8) (x % 8) (ground arith),
            bit-lt-two (t (x / 8)) (x % 8),
          )))
  | inr other ↦ rw other refl
]

pow-word : (k : ℕ) → k < 8 → IsU32 (2 ^ k)
pow-word k h =
    omega (
      arith,
      native.Mathlib.Nat.pow-le-pow_right {n = 2} (omega arith) {i = k} {j = 8} (omega arith),
    )

pub clear_translated_self :
    (w : ℕ) (t : TranslatedWords) → is_translated (clear_translated w t) w ≡ false
unfolding is_translated clear_translated
clear_translated_self w t =
    let same : (w / 8 == w / 8) ≡ true = ground arith in
    rw same (
      any_bit_zero _ (w % 8) (
        omega (
          arith,
          bit-bit_and (t (w / 8)) (lnot (2 ^ (w % 8))) (w % 8),
          bit-pow_self (w % 8),
          bit-lnot (2 ^ (w % 8)) (w % 8) (pow-word (w % 8) (omega arith)) (omega arith),
        )))

pub clear_translated_ne :
    (w : ℕ) (t : TranslatedWords) (x : ℕ)
    → w ≢ x
    → is_translated (clear_translated w t) x ≡ is_translated t x
unfolding is_translated clear_translated
clear_translated_ne w t x ne = elim (==_cases (w / 8) (x / 8)) [
  | inl e ↦
      let same : (x / 8 == x / 8) ≡ true = ground arith in
      rw (e, same)
        (same_digit _ _ (x % 8) (
          omega (
            arith,
            bit-bit_and (t (x / 8)) (lnot (2 ^ (w % 8))) (x % 8),
            bit-pow_ne (w % 8) (x % 8) (ground arith),
            bit-lnot (2 ^ (w % 8)) (x % 8) (pow-word (w % 8) (omega arith)) (omega arith),
            bit-lt-two (t (x / 8)) (x % 8),
          )))
  | inr other ↦ rw other refl
]
