-- ===== src/Constprop/Sound/Shift.antt =====
-- The six shifts.
use lightrec.Base.{
  ℕ, ◌+◌, ◌-◌, ◌^◌, ◌<◌, ◌≤◌, ◌≡◌, ◌≢◌, IsU32, arith, bit_and, bit_or, lnot, shl, shr, sra, min,
  ◌⊎◌, inl, inr, ◌==◌, ==_cases, if◌then◌else◌, Bool-cases, true, ap, sym, ◌∙◌, ==_iff,
}
use lightrec.Base.Bits.{bit, bit-lt-two, bit-bit_and, bit-bit_or, bit-shr, bit_of_zero}
use lightrec.Base.Bits.{bit_and-lt, bit_or-lt, lnot-lt, shl-lt, shr-le, sra-lt}
use lightrec.Base.Bits.{
  shl_digit, sra_digit, pow_digit, eq_of_masked, masked_ones, masked-lt, bit_high, pow-pos,
}
use lightrec.Constprop.Data.{ConstpropData}
use lightrec.Constprop.Describes.{Describes, digit_agrees, forget-Describes}
use lightrec.Constprop.Shift.{
  sll_consts, srl_known, srl_consts, sra_consts, amount_is_known, sllv_consts, srlv_consts,
  srav_consts,
}

ruleset digits = (arith, bit-lt-two, bit-bit_and, bit-bit_or)

mask-lt : (k : ℕ) → k < 32 → IsU32 (2 ^ k - 1)
mask-lt k hk = omega (
  arith,
  native.Mathlib.Nat.pow-le-pow_right {n = 2} (omega arith) {i = k} {j = 32} (omega arith),
)

-- SRL keeps the sign mask only for a shift by zero.
kept_sign : (k s i : ℕ) → bit (if k == 0 then s else 0) i ≡ 1 → (k ≡ 0) × (bit s i ≡ 1)
kept_sign k s i h = elim (==_cases k 0) [
  | inl e ↦ (e, rw e at h)
  | inr ne ↦ absurd (omega (arith, rw ne at h, bit_of_zero i))
]

if_zero : (k s i : ℕ) → k ≡ 0 → bit s i ≡ 1 → bit (if k == 0 then s else 0) i ≡ 1
if_zero k s i e h = rw e h

module _ (k : ℕ) (hk : k < 32) {t : ConstpropData} {y : ℕ} (p : Describes t y) where
  sll_copies : (i : ℕ) → i < 32 → bit (shl t.sign k) i ≡ 1 → (k ≤ i) × (bit t.sign (i - k) ≡ 1)
  sll_copies i hi h = elim (shl_digit t.sign k i hi) [
    | inl low ↦ absurd (omega (arith, low.1))
    | inr high ↦ (high.0, omega (arith, high.1))
  ]

  -- For an amount below 32, the entry of SLL describes the word shifted left.
  pub sll-Describes : Describes (sll_consts k t) (shl y k)
  unfolding sll_consts
  sll-Describes = record {
    word = shl-lt y k;
    value_word = shl-lt _ k;
    known_word = bit_or-lt _ _ (shl-lt _ k) (mask-lt k hk);
    sign_word = shl-lt _ k;
    agrees = λ i hi h. elim (dec_low i) [
      | inl low ↦ omega (arith, shl_digit t.value k i hi, shl_digit y k i hi)
      | inr high ↦ omega (
        digits,
        shl_digit t.value k i hi,
        shl_digit y k i hi,
        shl_digit t.known k i hi,
        bit_high k (2 ^ k - 1) i (omega (arith, pow-pos k)) high,
        digit_agrees p (i - k) (omega arith),
      )
    ];
    copies = λ i hi h.
        let c = sll_copies i hi h in
        omega (
          arith,
          shl_digit y k i hi,
          shl_digit y k 31 (omega arith),
          p.copies (i - k) (omega arith) c.1,
          p.copies (31 - k) (omega arith)
              (p.upper (i - k) (31 - k) (omega arith) (omega arith) c.1),
        );
    upper = λ i j le hj h.
        let c = sll_copies i (omega arith) h in
        omega
          (arith, shl_digit t.sign k j hj, p.upper (i - k) (j - k) (omega arith) (omega arith) c.1);
  }
    where
      dec_low : (i : ℕ) → (i < k) ⊎ (k ≤ i)
      dec_low i = grind arith

  srl_agrees :
      (i : ℕ) → i < 32 → bit (srl_known k t) i ≡ 1 → bit (shr t.value k) i ≡ bit (shr y k) i
  unfolding srl_known
  srl_agrees i hi h = elim (split i) [
    | inl low ↦ omega (
      digits,
      bit-shr t.value k i,
      bit-shr y k i,
      bit-shr t.known k i,
      shl_digit (2 ^ k - 1) (32 - k) i hi,
      digit_agrees p (k + i) low,
    )
    | inr high ↦ omega (
      arith,
      bit-shr t.value k i,
      bit-shr y k i,
      bit_high 32 t.value (k + i) p.value_word high,
      bit_high 32 y (k + i) p.word high,
    )
  ]
    where
      split : (i : ℕ) → (k + i < 32) ⊎ (32 ≤ k + i)
      split i = grind arith

  -- For an amount below 32, the entry of SRL describes the word shifted right, zeros shifted in.
  pub srl-Describes : Describes (srl_consts k t) (shr y k)
  unfolding srl_consts
  srl-Describes = record {
    word = omega (arith, shr-le y k, p.word);
    value_word = omega (arith, shr-le t.value k, p.value_word);
    known_word = known_lt;
    sign_word = ground (arith, p.sign_word);
    agrees = srl_agrees;
    copies = λ i hi h.
        let z = kept_sign k t.sign i h in
        let at : (j : ℕ) → bit (shr y k) j ≡ bit y j =
          λ j. bit-shr y k j ∙ ap (bit y) (let e : k + j ≡ j = omega (arith, z.0) in e) in
        omega (arith, at i, at 31, p.copies i hi z.1);
    upper = λ i j le hj h.
        let z = kept_sign k t.sign i h in if_zero k t.sign j z.0 (p.upper i j le hj z.1);
  }
    where
      known_lt : IsU32 (srl_known k t)
      known_lt =
          unfold srl_known in
          bit_or-lt _ _ (omega (arith, shr-le t.known k, p.known_word)) (shl-lt _ (32 - k))

  abbrev sra_sign : ℕ
  sra_sign = bit_or t.sign (bit_and (lnot t.known) 0x80000000)

  -- A digit of the mask that the arithmetic shift moves is a sign digit or the top one.
  sra_sign_digit :
      (m : ℕ) → m < 32 → bit sra_sign m ≡ 1 → (bit t.sign m ≡ 1) ⊎ (m ≡ 31) × (bit sra_sign 31 ≡ 1)
  sra_sign_digit m hm h = elim (pow_digit 31 m) [
    | inl top ↦ inr (top.0, ap (bit sra_sign) (sym top.0) ∙ h)
    | inr out ↦ inl (omega (digits, out))
  ]

  sra_sign_upper : (m n : ℕ) → m ≤ n → n < 32 → bit sra_sign m ≡ 1 → bit sra_sign n ≡ 1
  sra_sign_upper m n le hn h = elim (sra_sign_digit m (omega arith) h) [
    | inl one ↦ omega (digits, p.upper m n le hn one)
    | inr top ↦ let e : n ≡ m = omega (arith, top.0) in rw e h
  ]

  sra_sign_copies : (m : ℕ) → m < 32 → bit sra_sign m ≡ 1 → bit y m ≡ bit y 31
  sra_sign_copies m hm h = elim (sra_sign_digit m hm h) [
    | inl one ↦ p.copies m hm one
    | inr top ↦ ap (bit y) top.0
  ]

  -- For an amount below 32, the entry of SRA describes the word shifted right, its sign shifted in.
  pub sra-Describes : Describes (sra_consts k t) (sra y k)
  unfolding sra_consts
  sra-Describes = record {
    word = sra-lt y k p.word;
    value_word = sra-lt _ k p.value_word;
    known_word = sra-lt _ k p.known_word;
    sign_word = sra-lt _ k sign_lt;
    agrees = λ i hi h. omega (
      arith,
      sra_digit t.value k i p.value_word hk hi,
      sra_digit y k i p.word hk hi,
      sra_digit t.known k i p.known_word hk hi,
      digit_agrees p (min (k + i) 31) (omega arith),
    );
    copies = λ i hi h.
        let e : min (k + 31) 31 ≡ 31 = omega arith in
        sra_digit y k i p.word hk hi
        ∙ sra_sign_copies (min (k + i) 31) (omega arith)
            (sym (sra_digit sra_sign k i sign_lt hk hi) ∙ h)
        ∙ sym (sra_digit y k 31 p.word hk (omega arith) ∙ ap (bit y) e);
    upper = λ i j le hj h.
        sra_digit sra_sign k j sign_lt hk hj
        ∙ sra_sign_upper (min (k + i) 31) (min (k + j) 31) (omega arith) (omega arith)
            (sym (sra_digit sra_sign k i sign_lt hk (omega arith)) ∙ h);
  }
    where
      sign_lt : IsU32 sra_sign
      sign_lt = bit_or-lt _ _ p.sign_word (bit_and-lt _ _ (lnot-lt _))

module _ {s t : ConstpropData} {x y : ℕ} (q : Describes s x) (p : Describes t y)
    (old : ConstpropData) (old_word : IsU32 old.value) where
  -- A known amount is the amount that the shift uses.
  amount_agrees : amount_is_known s ≡ true → bit_and s.value 0x1f ≡ bit_and x 0x1f
  unfolding amount_is_known
  amount_agrees h = eq_of_masked 5 s.value x λ i hi.
      q.agrees i (omega arith)
        (masked_ones 5 s.known i ((==_iff (bit_and s.known 0x1f) 0x1f).0 h) hi)

  amount-lt : bit_and x 0x1f < 32
  amount-lt = masked-lt 5 x

  -- Whatever is known of the amount's register, the entry of SLLV describes the word shifted left by
  -- the lowest five bits of that register; the target's old value must be a word.
  pub sllv-Describes : Describes (sllv_consts s t old) (shl y (bit_and x 0x1f))
  unfolding sllv_consts
  sllv-Describes = elim (Bool-cases (amount_is_known s)) [
    | inl h ↦ rw (h, amount_agrees h) (sll-Describes (bit_and x 0x1f) amount-lt p)
    | inr h ↦ rw h (forget-Describes old _ old_word (shl-lt y _))
  ]

  -- Whatever is known of the amount's register, the entry of SRAV describes the word shifted right,
  -- its sign shifted in, by the lowest five bits of that register; the target's old value must be a
  -- word.
  pub srav-Describes : Describes (srav_consts s t old) (sra y (bit_and x 0x1f))
  unfolding srav_consts
  srav-Describes = elim (Bool-cases (amount_is_known s)) [
    | inl h ↦ rw (h, amount_agrees h) (sra-Describes (bit_and x 0x1f) amount-lt p)
    | inr h ↦ rw h (forget-Describes old _ old_word (sra-lt y _ p.word))
  ]

  -- The entry of SRLV describes the word shifted right by the lowest five bits of the amount's
  -- register, if that amount is not zero or the target's old sign mask is the source's; the target's
  -- old value must be a word.
  pub srlv-Describes :
      (bit_and x 0x1f ≢ 0) ⊎ (old.sign ≡ t.sign)
      → Describes (srlv_consts s t old) (shr y (bit_and x 0x1f))
  unfolding srlv_consts srl_consts
  srlv-Describes fresh = elim (Bool-cases (amount_is_known s)) [
    | inl h ↦ rw (h, amount_agrees h) (srlv_known fresh)
    | inr h ↦
        rw h (forget-Describes old _ old_word (omega (arith, shr-le y (bit_and x 0x1f), p.word)))
  ]
    where
      srlv_known :
          (bit_and x 0x1f ≢ 0) ⊎ (old.sign ≡ t.sign)
          → Describes
              (record {
                value = shr t.value (bit_and x 0x1f);
                known = srl_known (bit_and x 0x1f) t;
                sign = if bit_and x 0x1f == 0 then old.sign else 0;
              })
              (shr y (bit_and x 0x1f))
      srlv_known (inl nonzero) = elim (==_cases (bit_and x 0x1f) 0) [
        | inl z ↦ absurd (nonzero z)
        | inr nz ↦ rw nz (rw nz at (srl-Describes (bit_and x 0x1f) amount-lt p))
      ]
      srlv_known (inr same) = rw same (srl-Describes (bit_and x 0x1f) amount-lt p)
