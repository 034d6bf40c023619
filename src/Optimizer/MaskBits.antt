-- ===== src/Optimizer/MaskBits.antt =====
-- optimizer.c: which registers a mask built from `BIT(r)` and `|` names.
use lightrec.Base.{
  ℕ, ◌^◌, ◌≡◌, ◌≢◌, ◌⊎◌, inl, inr, ap, arith, ◌==◌, true, false, bit_and, bit_or, any_bit, ==_cases,
}
use lightrec.Base.Bits.{bit, bit-lt-two, bit-bit_and, bit-bit_or, bit_of_zero}
use lightrec.Base.Bits.Laws.{bit-pow_self, bit-pow_ne}
use lightrec.Base.Bits.Words.{zero_of_bits}

pub any_bit_one : (m i : ℕ) → bit m i ≡ 1 → any_bit m (2 ^ i) ≡ true
unfolding any_bit
any_bit_one m i h =
    let e : bit (bit_and m (2 ^ i)) i ≡ 1 =
      omega (arith, h, bit-bit_and m (2 ^ i) i, bit-pow_self i) in
    elim (==_cases (bit_and m (2 ^ i)) 0) [
      | inl z ↦ absurd (omega (arith, e, ap (λ (t : ℕ). bit t i) z, bit_of_zero i))
      | inr n ↦ rw n
    ]

pub any_bit_zero : (m i : ℕ) → bit m i ≡ 0 → any_bit m (2 ^ i) ≡ false
unfolding any_bit
any_bit_zero m i h =
    let z : bit_and m (2 ^ i) ≡ 0 = zero_of_bits _ (λ j. digit j (==_cases i j)) in rw z
  where
    digit : (j : ℕ) → (i ≡ j) ⊎ ((i == j) ≡ false) → bit (bit_and m (2 ^ i)) j ≡ 0
    digit j (inl e) = rw (← e) (omega (arith, h, bit-bit_and m (2 ^ i) i))
    digit j (inr ne) = omega (arith, bit-bit_and m (2 ^ i) j, bit-pow_ne i j (ground arith))

-- `BIT(r)` is not in the mask.
abbrev pub IsOutside : ℕ → ℕ → Type 0
IsOutside mask i = any_bit mask (2 ^ i) ≡ false

pub bit_of_outside : (m i : ℕ) → IsOutside m i → bit m i ≡ 0
bit_of_outside m i h = elim (==_cases (bit m i) 1) [
  | inl one ↦ cc (any_bit_one m i one, h)
  | inr ne ↦ ground (arith, bit-lt-two m i)
]

pub digit_of_any : (m i : ℕ) → any_bit m (2 ^ i) ≡ true → bit m i ≡ 1
digit_of_any m i h = elim (==_cases (bit m i) 0) [
  | inl z ↦ cc (any_bit_zero m i z, h)
  | inr ne ↦ ground (arith, bit-lt-two m i)
]

pub ne_of_outside : (r i : ℕ) → IsOutside (2 ^ r) i → r ≢ i
ne_of_outside r i h e =
    omega (arith, bit_of_outside (2 ^ r) i h, bit-pow_self r, ap (λ (t : ℕ). bit (2 ^ r) t) e)

pub IsOutside-bit_or : (a b i : ℕ) → IsOutside (bit_or a b) i → IsOutside a i × IsOutside b i
IsOutside-bit_or a b i h =
    let z : bit (bit_or a b) i ≡ 0 = bit_of_outside _ i h in
    (
      any_bit_zero a i (omega (arith, z, bit-bit_or a b i)),
      any_bit_zero b i (omega (arith, z, bit-bit_or a b i)),
    )
