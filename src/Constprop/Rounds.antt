-- ===== src/Constprop/Rounds.antt =====
-- constprop.c: the rounds that the loop of `lightrec_propagate_addi` needs.
use lightrec.Base.{
  ℕ, zero, suc, ◌+◌, ◌-◌, ◌*◌, ◌^◌, ◌<◌, ◌≤◌, ◌≡◌, arith, ap, ◌∙◌, sym, refl, Bool, true, bit_and,
  ==_cases, inl, inr, ltb, Bool-cases, false, bit_or, lnot, any_bit,
}
use native.Mathlib.Decide.{dec_lt}
use lightrec.Base.Bits.{bit, bit-bit_and}
use lightrec.Base.Bits.Laws.{bit-mul_low, pow_double}
use lightrec.Constprop.Data.{ConstpropData, genmask, lowest_bit}
use lightrec.Constprop.Add.{spoiled_to, addi_loop, known_sum, set_sum_bit, clear_bits}

pub pow_sum : (a b : ℕ) → 2 ^ (a + b) ≡ 2 ^ a * 2 ^ b
pow_sum zero b = grind arith
pow_sum (suc a) b =
    let e : suc a + b ≡ suc (a + b) = omega arith in
    let d : 2 ^ (suc a + b) ≡ 2 ^ suc (a + b) = ap (λ (t : ℕ). 2 ^ t) e in
    grind (arith, d, pow_sum a b, pow_double a, pow_double (a + b))

pub mul_pred : (p q : ℕ) → (p - 1) * q ≡ p * q - q
mul_pred zero q = omega arith
mul_pred (suc p) q = grind arith

-- The bits below `l` are not in `GENMASK(31, l)`.
pub genmask-low : (l j : ℕ) → l < 32 → j < l → bit (genmask 31 l) j ≡ 0
unfolding genmask
genmask-low l j hl hj = ap (λ (t : ℕ). bit t j) same ∙ bit-mul_low l (2 ^ (32 - l) - 1) j hj
  where
    same : 2 ^ 32 - 2 ^ l ≡ (2 ^ (32 - l) - 1) * 2 ^ l
    same =
        let e : 32 - l + l ≡ 32 = omega arith in
        let s : 2 ^ 32 ≡ 2 ^ (32 - l) * 2 ^ l =
          ap (λ (t : ℕ). 2 ^ t) (sym e) ∙ pow_sum (32 - l) l in
        omega (arith, s, mul_pred (2 ^ (32 - l)) (2 ^ l))

lowest_bit-ge : (n i x b : ℕ) → ((j : ℕ) → j < b → bit x j ≡ 0) → b ≤ i + n → b ≤ lowest_bit n i x
unfolding lowest_bit
lowest_bit-ge zero i x b h hb = omega arith
lowest_bit-ge (suc n) i x b h hb = elim (==_cases (bit x i) 1) [
  | inl one ↦
      rw one (elim (dec_lt i b) [ yes lo ↦ absurd (omega (arith, h i lo)) | no hi ↦ omega arith ])
  | inr ne ↦ rw ne (lowest_bit-ge n (i + 1) x b h (omega arith))
]

-- The run that an unknown sum spoils ends no earlier than it starts.
pub spoiled_to-ge :
    (b : ℕ) (s : ConstpropData) (value : ℕ) (d : ConstpropData)
    → b < 32
    → b ≤ spoiled_to b s value d
unfolding spoiled_to
spoiled_to-ge b s value d hb =
    let stops =
      bit_and
        (bit_or
          (bit_or (bit_and (bit_and s.known d.known) (bit_and (lnot s.value) (lnot value))) s.sign)
          d.sign)
        (genmask 31 b) in
    elim (==_cases stops 0) [
      | inl z ↦ rw z (omega arith)
      | inr nz ↦ rw nz (
          lowest_bit-ge 32 0 stops b
            (λ j hj. omega (
              arith,
              bit-bit_and
                  (bit_or
                    (bit_or
                      (bit_and (bit_and s.known d.known) (bit_and (lnot s.value) (lnot value)))
                      s.sign)
                    d.sign)
                  (genmask 31 b) j,
              genmask-low b j hb hj,
            ))
            (omega arith))
    ]

-- Any two numbers of rounds that reach bit 32 give the same result: 32 rounds are enough.
pub addi_loop-rounds :
    (m n bit : ℕ) (carry : Bool) (end : ℕ) (s : ConstpropData) (value : ℕ)
    (d result : ConstpropData)
    → 32 ≤ m + bit
    → 32 ≤ n + bit
    → addi_loop m bit carry end s value d result ≡ addi_loop n bit carry end s value d result
unfolding addi_loop
addi_loop-rounds zero zero bit carry end s value d result hm hn = refl
addi_loop-rounds zero (suc n) bit carry end s value d result hm hn =
    let e : ltb 31 bit ≡ true = ground arith in rw e refl
addi_loop-rounds (suc m) zero bit carry end s value d result hm hn =
    let e : ltb 31 bit ≡ true = ground arith in rw e refl
addi_loop-rounds (suc m) (suc n) bit carry end s value d result hm hn =
    let sum = known_sum bit carry s.value value in
    let cleared = clear_bits (2 ^ bit) result in
    let last = spoiled_to bit s value d in
    elim (Bool-cases (ltb 31 bit)) [
      | inl done ↦ rw done refl
      | inr more ↦
          let ge : bit ≤ last = spoiled_to-ge bit s value d (ground arith) in
          rw
            (
              addi_loop-rounds m n (bit + 1) (any_bit sum (2 ^ (bit + 1))) end s value d
                  (set_sum_bit bit sum result) (omega arith) (omega arith),
              addi_loop-rounds m n (bit + 1) false end s value d cleared (omega arith)
                  (omega arith),
              addi_loop-rounds m n (last + 1) false end s value d
                  (clear_bits (genmask last bit) cleared) (omega arith) (omega arith),
            )
            refl
    ]
