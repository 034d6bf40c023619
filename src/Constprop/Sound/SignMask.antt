-- ===== src/Constprop/Sound/SignMask.antt =====
-- constprop.c: `lightrec_get_sign_mask`, and where the carry loop of `lightrec_propagate_addi` ends.
use lightrec.Base.{
  ℕ, zero, suc, ◌^◌, ◌<◌, ◌≤◌, ◌≡◌, ◌≢◌, refl, arith, ◌==◌, any_bit, IsU32, ==_cases, inl, inr,
  bit_and, lnot, Bool-cases, if◌then◌else◌, true,
}
use native.Mathlib.Decide.{dec_lt}
use lightrec.Base.Bits.Laws.{pow-pos}
use lightrec.Base.Bits.{bit, bit-lt-two, bit-bit_and, bit-lnot, bit_of_zero, bit_and-lt, lnot-lt}
use lightrec.Optimizer.MaskBits.{any_bit_one}
use lightrec.Constprop.Data.{ConstpropData, genmask, bit_length, lightrec_get_sign_mask}
use lightrec.Constprop.Rounds.{genmask-low}

-- There is no digit from the length on.
bit_length-high : (n x i : ℕ) → bit_length n x ≤ i → i < n → bit x i ≡ 0
unfolding bit_length
bit_length-high zero x i h hi = absurd (omega arith)
bit_length-high (suc n) x i h hi = elim (==_cases (bit x n) 1) [
  | inl one ↦ let k = rw one at h in absurd (omega (arith, k))
  | inr ne ↦ elim (==_cases i n) [
    | inl e ↦ rw e (ground (arith, bit-lt-two x n))
    | inr apart ↦ bit_length-high n x i (rw ne at h) (ground arith)
  ]
]

bit_length-le : (n x : ℕ) → bit_length n x ≤ n
unfolding bit_length
bit_length-le zero x = omega arith
bit_length-le (suc n) x = elim (==_cases (bit x n) 1) [
  | inl one ↦ rw one (omega arith)
  | inr ne ↦ rw ne (omega (arith, bit_length-le n x))
]

length_high : (x i : ℕ) → (if x == 0 then 0 else bit_length 32 x) ≤ i → i < 32 → bit x i ≡ 0
length_high x i h hi = elim (==_cases x 0) [
  | inl z ↦ rw z (bit_of_zero i)
  | inr ne ↦ bit_length-high 32 x i (rw ne at h) hi
]

module _ (d : ConstpropData) (value_word : IsU32 d.value) (known_word : IsU32 d.known)
    (plain : d.sign ≡ 0) where
  abbrev repeated : ℕ
  repeated = bit_and (if any_bit d.value 0x80000000 then d.value else lnot d.value) d.known

  abbrev len : ℕ
  len = if lnot repeated == 0 then 0 else bit_length 32 (lnot repeated)

  repeated-lt : IsU32 repeated
  repeated-lt = elim (Bool-cases (any_bit d.value 0x80000000)) [
    | inl y ↦ rw y (bit_and-lt d.value d.known value_word)
    | inr n ↦ rw n (bit_and-lt (lnot d.value) d.known (lnot-lt d.value))
  ]

  len-lt : len ≢ 32 → len < 32
  len-lt ne = elim (==_cases (lnot repeated) 0) [
    | inl z ↦ rw z (omega arith)
    | inr n ↦
        let le = bit_length-le 32 (lnot repeated) in
        let other : bit_length 32 (lnot repeated) ≢ 32 = rw n at ne in
        rw n (omega (arith, le, other))
  ]

  sign_mask-eq : lightrec_get_sign_mask d ≡ (if len == 32 then 0 else genmask 31 len)
  unfolding lightrec_get_sign_mask
  sign_mask-eq = rw plain refl

  sign_mask-lt : IsU32 (lightrec_get_sign_mask d)
  sign_mask-lt = rw sign_mask-eq (elim (==_cases len 32) [
    | inl e ↦ rw e (omega arith)
    | inr ne ↦ rw ne (unfold genmask in omega (arith, pow-pos len))
  ])

  -- Where the mask repeats the sign, the digit is known.
  sign_mask-known : (i : ℕ) → i < 32 → bit (lightrec_get_sign_mask d) i ≡ 1 → bit d.known i ≡ 1
  sign_mask-known i hi h = elim (==_cases len 32) [
    | inl e ↦ absurd (let k = rw (sign_mask-eq, e) at h in omega (arith, k, bit_of_zero i))
    | inr ne ↦ elim (dec_lt i len) [
      | yes lt ↦ absurd (
          let k = rw (sign_mask-eq, ne) at h in
          omega (arith, k, genmask-low len i (len-lt (ground arith)) lt))
      | no ge ↦
          let z = length_high (lnot repeated) i (omega arith) hi in
          let one : bit repeated i ≡ 1 =
            omega (arith, z, bit-lnot repeated i repeated-lt hi, bit-lt-two repeated i) in
          let both =
            bit-bit_and (if any_bit d.value 0x80000000 then d.value else lnot d.value) d.known i in
          omega (
            arith,
            one,
            both,
            bit-lt-two d.known i,
            bit-lt-two (if any_bit d.value 0x80000000 then d.value else lnot d.value) i,
          )
    ]
  ]

-- The carry loop has not come past the last significant digit while a digit is unknown.
abbrev pub significant : ConstpropData → ConstpropData → ℕ
significant d s = lnot (bit_and (lightrec_get_sign_mask d) (lightrec_get_sign_mask s))

pub past_significant :
    (d s : ConstpropData)
    → IsU32 d.value
    → IsU32 d.known
    → d.sign ≡ 0
    → IsU32 s.value
    → IsU32 s.known
    → s.sign ≡ 0
    → (i : ℕ) → i < 32
    → (if significant d s == 0 then 0 else bit_length 32 (significant d s)) ≤ i
    → any_bit (bit_and s.known d.known) (2 ^ i) ≡ true
past_significant d s dv dk dp sv sk sp i hi h =
    let a = lightrec_get_sign_mask d in
    let b = lightrec_get_sign_mask s in
    let z = length_high (significant d s) i h hi in
    let word = bit_and-lt a b (sign_mask-lt d dv dk dp) in
    let one : bit (bit_and a b) i ≡ 1 =
      omega (arith, z, bit-lnot (bit_and a b) i word hi, bit-lt-two (bit_and a b) i) in
    let first : bit a i ≡ 1 =
      omega (arith, one, bit-bit_and a b i, bit-lt-two a i, bit-lt-two b i) in
    let second : bit b i ≡ 1 =
      omega (arith, one, bit-bit_and a b i, bit-lt-two a i, bit-lt-two b i) in
    any_bit_one (bit_and s.known d.known) i (
      omega (
        arith,
        bit-bit_and s.known d.known i,
        sign_mask-known d dv dk dp i hi first,
        sign_mask-known s sv sk sp i hi second,
      ))
