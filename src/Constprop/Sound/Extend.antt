-- ===== src/Constprop/Sound/Extend.antt =====
-- The sign extensions and the complement.
use lightrec.Base.{
  ℕ, suc, ◌+◌, ◌-◌, ◌*◌, ◌^◌, ◌<◌, ◌≡◌, IsU32, arith, bit_and, bit_or, lnot, min, inl, inr,
  Bool-cases, ap, sym, ◌∙◌, any_bit, sext8, sext16,
}
use lightrec.Base.Bits.{bit, bit-lt-two, bit-bit_and, bit-bit_or, bit-lnot, bit_of_zero}
use lightrec.Base.Bits.{bit_and-lt, bit_or-lt, lnot-lt}
use lightrec.Base.Bits.{
  sext8_digit, sext16_digit, sext8-lt, sext16-lt, upper_ones_digit, bit_high, pow-pos,
}
use native.Mathlib.Decide.{dec_lt}
use lightrec.Optimizer.MaskBits.{digit_of_any}
use lightrec.Constprop.Data.{ConstpropData}
use lightrec.Constprop.Describes.{Describes}
use lightrec.Constprop.Shift.{extc_consts, exts_consts, com_consts}

ruleset digits = (arith, bit-lt-two, bit-bit_and, bit-bit_or)

module _ {s : ConstpropData} {x : ℕ} (p : Describes s x) where
  -- The entry of the meta opcode COM describes the complement of the word.
  pub com-Describes : Describes (com_consts s) (lnot x)
  unfolding com_consts
  com-Describes = record {
    word = lnot-lt x;
    value_word = lnot-lt _;
    known_word = p.known_word;
    sign_word = p.sign_word;
    agrees = λ i hi h.
        omega (digits, bit-lnot s.value i p.value_word hi, bit-lnot x i p.word hi, p.agrees i hi h);
    copies = λ i hi h.
        omega (digits, bit-lnot x 31 p.word (omega arith), bit-lnot x i p.word hi, p.copies i hi h);
    upper = p.upper;
  }

  -- `ext` copies digit `n` into the `m` digits above it.
  module _ (n m : ℕ) (width : suc n + m ≡ 32) (ext : ℕ → ℕ)
      (ext_digit : (y i : ℕ) → i < 32 → bit (ext y) i ≡ bit y (min i n))
      (ext-lt : (y : ℕ) → IsU32 (ext y)) where
    -- Digit `n` is known: so are all above it.
    ext_known :
        IsU32 ((2 ^ m - 1) * 2 ^ suc n)
        → bit s.known n ≡ 1
        → Describes
            (record {
              value = ext s.value;
              known = bit_or s.known ((2 ^ m - 1) * 2 ^ suc n);
              sign = 0;
            })
            (ext x)
    ext_known fits top = record {
      word = ext-lt x;
      value_word = ext-lt _;
      known_word = bit_or-lt _ _ p.known_word fits;
      sign_word = omega arith;
      agrees = λ i hi h.
          ext_digit s.value i hi
          ∙ p.agrees (min i n) (omega arith) (known_below i hi h)
          ∙ sym (ext_digit x i hi);
      copies = λ i hi h. absurd (omega (arith, bit_of_zero i));
      upper = λ i j le hj h. absurd (omega (arith, bit_of_zero i));
    }
      where
        known_below :
            (i : ℕ)
            → i < 32
            → bit (bit_or s.known ((2 ^ m - 1) * 2 ^ suc n)) i ≡ 1
            → bit s.known (min i n) ≡ 1
        known_below i hi h = elim (dec_lt n i) [
          | yes above ↦ let e : min i n ≡ n = omega arith in rw e top
          | no below ↦
              let e : min i n ≡ i = omega arith in
              rw e (omega (digits, upper_ones_digit (suc n) m i width hi))
        ]

    -- Digit `n` is unknown: it and those above it copy the sign.
    ext_unknown :
        IsU32 ((2 ^ suc m - 1) * 2 ^ n)
        → Describes
            (record {
              value = ext s.value;
              known = bit_and s.known (2 ^ n - 1);
              sign = (2 ^ suc m - 1) * 2 ^ n;
            })
            (ext x)
    ext_unknown fits = record {
      word = ext-lt x;
      value_word = ext-lt _;
      known_word = bit_and-lt _ _ p.known_word;
      sign_word = fits;
      agrees = λ i hi h. elim (dec_lt i n) [
        | yes below ↦
            let e : min i n ≡ i = omega arith in
            ext_digit s.value i hi
            ∙ ap (bit s.value) e
            ∙ p.agrees i hi (omega digits)
            ∙ sym (ext_digit x i hi ∙ ap (bit x) e)
        | no above ↦
            absurd
              (omega (digits, bit_high n (2 ^ n - 1) i (omega (arith, pow-pos n)) (omega arith)))
      ];
      copies = λ i hi h.
          let e : min i n ≡ min 31 n =
            omega (arith, upper_ones_digit n (suc m) i (omega arith) hi) in
          ext_digit x i hi ∙ ap (bit x) e ∙ sym (ext_digit x 31 (omega arith));
      upper = λ i j le hj h. omega (
        arith,
        upper_ones_digit n (suc m) i (omega arith) (omega arith),
        upper_ones_digit n (suc m) j (omega arith) hj,
      );
    }

  -- The entry of EXTC describes the sign extension of the lowest byte, whether the byte's top bit is
  -- known or not.
  pub extc-Describes : Describes (extc_consts s) (sext8 x)
  unfolding extc_consts
  extc-Describes = elim (Bool-cases (any_bit s.known 0x80)) [
    | inl h ↦ rw h (
        ext_known 7 24 (omega arith) sext8 sext8_digit sext8-lt (omega arith)
          (digit_of_any s.known 7 h))
    | inr h ↦ rw h (ext_unknown 7 24 (omega arith) sext8 sext8_digit sext8-lt (omega arith))
  ]

  -- The entry of EXTS describes the sign extension of the lower half, whether its top bit is known
  -- or not.
  pub exts-Describes : Describes (exts_consts s) (sext16 x)
  unfolding exts_consts
  exts-Describes = elim (Bool-cases (any_bit s.known 0x8000)) [
    | inl h ↦ rw h (
        ext_known 15 16 (omega arith) sext16 sext16_digit sext16-lt (omega arith)
          (digit_of_any s.known 15 h))
    | inr h ↦ rw h (ext_unknown 15 16 (omega arith) sext16 sext16_digit sext16-lt (omega arith))
  ]
