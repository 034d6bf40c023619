-- ===== src/Constprop/Sound/Below.antt =====
-- The result of the carry loop while it is built: it is right in the digits below the loop's.
use lightrec.Base.{
  ℕ, zero, suc, ◌+◌, ◌-◌, ◌*◌, ◌^◌, ◌<◌, ◌≤◌, ◌≡◌, ◌≢◌, ◌==◌, ◌∙◌, ap, sym, arith, false, any_bit,
  if◌then◌else◌, IsU32, ==_cases, inl, inr, bit_and, bit_or, lnot,
}
use native.Mathlib.Decide.{dec_lt}
use native.Mathlib.Nat.{pow-le-pow_right}
use lightrec.Base.Bits.{
  bit, bit-lt-two, bit-bit_and, bit-bit_or, bit-lnot, bit_high, zero_of_bits, bit-pow_self,
  bit-pow_ne, bit-mul_high, bit-mask_low, bit_and-lt, bit_or-lt,
}
use lightrec.Base.Bits.Laws.{pow-pos}
use lightrec.Optimizer.MaskBits.{any_bit_one, any_bit_zero}
use lightrec.Constprop.Data.{ConstpropData, genmask, lowest_bit}
use lightrec.Constprop.Add.{set_sum_bit, clear_bits}
use lightrec.Constprop.Rounds.{pow_sum, mul_pred}
use lightrec.Constprop.Describes.{Describes}
use lightrec.Constprop.Sound.Carry.{pow-lt}

-- `r` describes the digits of `x` below digit `b`, and has no sign mask there.
pub record IsBelow (b : ℕ) (r : ConstpropData) (x : ℕ) : Type 0 where
  pub value_word : IsU32 r.value
  pub known_word : IsU32 r.known
  pub sign_word : IsU32 r.sign
  pub agrees : (i : ℕ) → i < b → i < 32 → bit r.known i ≡ 1 → bit r.value i ≡ bit x i
  pub plain : (i : ℕ) → i < b → i < 32 → bit r.sign i ≡ 0

pub IsBelow-Describes :
    {b : ℕ} {r : ConstpropData} {x : ℕ} → IsU32 x → 32 ≤ b → IsBelow b r x → Describes r x
IsBelow-Describes {b} {r} h hb p =
    let z : r.sign ≡ 0 = zero_of_bits r.sign (λ i. none_at i) in
    record {
      word = h;
      value_word = p.value_word;
      known_word = p.known_word;
      sign_word = p.sign_word;
      agrees = λ i hi k. p.agrees i (omega arith) hi k;
      copies = λ i hi s. absurd (omega (arith, none_at i));
      upper = λ i j le hj s. absurd (omega (arith, none_at i));
    }
  where
    none_at : (i : ℕ) → bit r.sign i ≡ 0
    none_at i = elim (dec_lt i 32) [
      | yes lt ↦ p.plain i (omega arith) lt
      | no ge ↦ bit_high 32 r.sign i p.sign_word (omega arith)
    ]

pub start-IsBelow :
    (r : ConstpropData) (x : ℕ) → IsU32 r.value → IsU32 r.known → IsU32 r.sign → IsBelow 0 r x
start-IsBelow r x hv hk hs = record {
  value_word = hv;
  known_word = hk;
  sign_word = hs;
  agrees = λ i lt hi k. absurd (omega arith);
  plain = λ i lt hi. absurd (omega arith);
}

-- Clearing a mask that covers the next digits.
pub clear_bits-IsBelow :
    (b b' mask : ℕ) (r : ConstpropData) (x : ℕ)
    → IsU32 mask
    → ((i : ℕ) → b ≤ i → i < b' → i < 32 → bit mask i ≡ 1)
    → IsBelow b r x
    → IsBelow b' (clear_bits mask r) x
unfolding clear_bits
clear_bits-IsBelow b b' mask r x hm covers p = record {
  value_word = p.value_word;
  known_word = bit_and-lt r.known (lnot mask) p.known_word;
  sign_word = bit_and-lt r.sign (lnot mask) p.sign_word;
  agrees = λ i lt hi k. elim (dec_lt i b) [
    | yes below ↦ p.agrees i below hi (
        omega (
          arith,
          k,
          bit-bit_and r.known (lnot mask) i,
          bit-lt-two r.known i,
          bit-lt-two (lnot mask) i,
        ))
    | no above ↦ absurd (
        omega (
          arith,
          k,
          bit-bit_and r.known (lnot mask) i,
          bit-lnot mask i hm hi,
          covers i (omega arith) lt hi,
        ))
  ];
  plain = λ i lt hi. elim (dec_lt i b) [
    | yes below ↦ omega (arith, bit-bit_and r.sign (lnot mask) i, p.plain i below hi)
    | no above ↦ omega (
      arith,
      bit-bit_and r.sign (lnot mask) i,
      bit-lnot mask i hm hi,
      covers i (omega arith) lt hi,
    )
  ];
}

module _ (b : ℕ) (hb : b < 32) (w : ℕ) where
  put_self : bit (bit_or w (2 ^ b)) b ≡ 1
  put_self = omega (arith, bit-bit_or w (2 ^ b) b, bit-pow_self b, bit-lt-two w b)

  drop_self : bit (bit_and w (lnot (2 ^ b))) b ≡ 0
  drop_self =
      omega
        (arith, bit-bit_and w (lnot (2 ^ b)) b, bit-lnot (2 ^ b) b (pow-lt b hb) hb, bit-pow_self b)

  module _ (i : ℕ) (hi : i < 32) (ne : b ≢ i) where
    put_other : bit (bit_or w (2 ^ b)) i ≡ bit w i
    put_other = omega (arith, bit-bit_or w (2 ^ b) i, bit-pow_ne b i ne)

    drop_other : bit (bit_and w (lnot (2 ^ b))) i ≡ bit w i
    drop_other = omega (
      arith,
      bit-bit_and w (lnot (2 ^ b)) i,
      bit-lnot (2 ^ b) i (pow-lt b hb) hi,
      bit-pow_ne b i ne,
      bit-lt-two w i,
    )

-- The new value has the digit of the sum, and otherwise the old digits.
record IsWritten (b sum old new : ℕ) : Type 0 where
  word : IsU32 new
  here : bit new b ≡ bit sum b
  elsewhere : (i : ℕ) → i < 32 → b ≢ i → bit new i ≡ bit old i

abbrev with_digit : ℕ → ℕ → ℕ → ℕ
with_digit b sum old =
    if any_bit sum (2 ^ b) then bit_or old (2 ^ b) else bit_and old (lnot (2 ^ b))

with_digit-IsWritten :
    (b sum old : ℕ) → b < 32 → IsU32 old → IsWritten b sum old (with_digit b sum old)
with_digit-IsWritten b sum old hb h = elim (==_cases (bit sum b) 1) [
  | inl one ↦ rw (any_bit_one sum b one) (record {
    word = bit_or-lt old (2 ^ b) h (pow-lt b hb);
    here = put_self b hb old ∙ sym one;
    elsewhere = put_other b hb old;
  })
  | inr ne ↦
      let z : bit sum b ≡ 0 = ground (arith, bit-lt-two sum b) in
      rw (any_bit_zero sum b z) (record {
        word = bit_and-lt old (lnot (2 ^ b)) h;
        here = drop_self b hb old ∙ sym z;
        elsewhere = drop_other b hb old;
      })
]

-- A known digit of the sum.
pub set_sum_bit-IsBelow :
    (b sum : ℕ) (r : ConstpropData) (x : ℕ)
    → b < 32
    → bit sum b ≡ bit x b
    → IsBelow b r x
    → IsBelow (b + 1) (set_sum_bit b sum r) x
unfolding set_sum_bit
set_sum_bit-IsBelow b sum r x hb same p =
    let d = with_digit-IsWritten b sum r.value hb p.value_word in
    record {
      value_word = d.word;
      known_word = bit_or-lt r.known (2 ^ b) p.known_word (pow-lt b hb);
      sign_word = bit_and-lt r.sign (lnot (2 ^ b)) p.sign_word;
      agrees = λ i lt hi k. elim (==_cases b i) [
        | inl e ↦ rw (← e) (d.here ∙ same)
        | inr n ↦
            let ne : b ≢ i = ground arith in
            d.elsewhere i hi ne
            ∙ p.agrees i (omega arith) hi (sym (put_other b hb r.known i hi ne) ∙ k)
      ];
      plain = λ i lt hi. elim (==_cases b i) [
        | inl e ↦ rw (← e) (drop_self b hb r.sign)
        | inr n ↦
            let ne : b ≢ i = ground arith in
            drop_other b hb r.sign i hi ne ∙ p.plain i (omega arith) hi
      ];
    }

-- A mask from bit `l` to bit `h`.
module _ (h l : ℕ) (lh : l ≤ h) (hh : h < 32) where
  genmask-product : genmask h l ≡ (2 ^ (h + 1 - l) - 1) * 2 ^ l
  unfolding genmask
  genmask-product =
      let e : h + 1 - l + l ≡ h + 1 = omega arith in
      let s : 2 ^ (h + 1) ≡ 2 ^ (h + 1 - l) * 2 ^ l =
        ap (λ (t : ℕ). 2 ^ t) (sym e) ∙ pow_sum (h + 1 - l) l in
      omega (arith, s, mul_pred (2 ^ (h + 1 - l)) (2 ^ l))

  pub genmask_ones : (i : ℕ) → l ≤ i → i ≤ h → bit (genmask h l) i ≡ 1
  genmask_ones i li ih =
      let e : l + (i - l) ≡ i = omega arith in
      rw genmask-product (
        rw e at (bit-mul_high l (2 ^ (h + 1 - l) - 1) (i - l))
        ∙ bit-mask_low (h + 1 - l) (i - l) (omega arith))

  pub genmask-lt : IsU32 (genmask h l)
  unfolding genmask
  genmask-lt =
      omega (
        arith,
        pow-le-pow_right {n = 2} (omega arith) {i = h + 1} {j = 32} (omega arith),
        pow-pos l,
      )

-- The lowest digit is one, if there is one.
pub lowest_bit-digit : (n i x : ℕ) → lowest_bit n i x < i + n → bit x (lowest_bit n i x) ≡ 1
unfolding lowest_bit
lowest_bit-digit zero i x h = absurd (omega arith)
lowest_bit-digit (suc n) i x h = elim (==_cases (bit x i) 1) [
  | inl one ↦ rw one one
  | inr ne ↦ rw ne (lowest_bit-digit n (i + 1) x (let k = rw ne at h in omega (arith, k)))
]

pub lowest_bit-lt :
    (n i x : ℕ)
    → ((j : ℕ) → j < i → bit x j ≡ 0)
    → x < 2 ^ (i + n)
    → x ≢ 0
    → lowest_bit n i x < i + n
unfolding lowest_bit
lowest_bit-lt zero i x low h ne = absurd (
    ne (
      zero_of_bits x (λ j. elim (dec_lt j i) [
        | yes lt ↦ low j lt
        | no ge ↦ let e : i + 0 ≡ i = omega arith in bit_high i x j (rw e at h) (omega arith)
      ])))
lowest_bit-lt (suc n) i x low h ne = elim (==_cases (bit x i) 1) [
  | inl one ↦ rw one (omega arith)
  | inr k ↦
      let e : i + 1 + n ≡ i + suc n = omega arith in
      let r = lowest_bit-lt n (i + 1) x (below k) (rw (← e) at h) ne in rw k (omega (arith, r))
]
  where
    below : (bit x i == 1) ≡ false → (j : ℕ) → j < i + 1 → bit x j ≡ 0
    below k j lt = elim (==_cases j i) [
      | inl e ↦ rw e (ground (arith, bit-lt-two x i))
      | inr n ↦ low j (ground arith)
    ]
