-- ===== src/Constprop/Sound/Logic.antt =====
-- AND, OR, XOR and NOR.
use lightrec.Base.{ℕ, ◌<◌, ◌≤◌, ◌≡◌, IsU32, arith, bit_and, bit_or, bit_xor, lnot, min, max}
use lightrec.Base.Bits.{bit, bit-lt-two, bit-bit_and, bit-bit_or, bit-bit_xor, bit-lnot, xor_digit}
use lightrec.Base.Bits.{bit_and-lt, bit_or-lt, bit_xor-lt, lnot-lt}
use lightrec.Constprop.Data.{ConstpropData}
use lightrec.Constprop.Describes.{Describes, digit_agrees, digit_copies, digit_upper}
use lightrec.Constprop.Shift.{and_consts, or_consts, or_known, xor_consts, nor_consts}

ruleset digits = (arith, bit-lt-two, bit-bit_and, bit-bit_or)

module _ (t s : ConstpropData) (y x : ℕ) (p : Describes t y) (q : Describes s x) where
  module _ (i : ℕ) (hi : i < 32) where
    -- Both operands copy their top bit wherever the meet of the two masks is set.
    meet_copies : bit (bit_and t.sign s.sign) i ≡ 1 → (bit y i ≡ bit y 31) × (bit x i ≡ bit x 31)
    meet_copies h = (omega (digits, digit_copies p i hi), omega (digits, digit_copies q i hi))

    meet_upper :
        (j : ℕ)
        → i ≤ j
        → j < 32
        → bit (bit_and t.sign s.sign) i ≡ 1
        → bit (bit_and t.sign s.sign) j ≡ 1
    meet_upper j le hj h = omega (digits, digit_upper p i hi j le hj, digit_upper q i hi j le hj)

    or_known_digit :
        bit (or_known t s) i
        ≡ max
            (max (min (bit t.known i) (bit s.known i)) (min (bit t.value i) (bit t.known i)))
            (min (bit s.value i) (bit s.known i))
    unfolding or_known
    or_known_digit = omega digits

  or_known-lt : IsU32 (or_known t s)
  unfolding or_known
  or_known-lt =
      bit_or-lt _ _ (bit_or-lt _ _ (bit_and-lt _ _ p.known_word) (bit_and-lt _ _ p.value_word))
        (bit_and-lt _ _ q.value_word)

  -- The entry that the case of AND computes describes the conjunction of the two words that the
  -- operands' entries describe.
  pub and-Describes : Describes (and_consts t s) (bit_and x y)
  unfolding and_consts
  and-Describes = record {
    word = bit_and-lt x y q.word;
    value_word = bit_and-lt _ _ (bit_and-lt _ _ p.value_word);
    known_word =
        bit_or-lt _ _ (bit_or-lt _ _ (bit_and-lt _ _ p.known_word) (bit_and-lt _ _ (lnot-lt _)))
          (bit_and-lt _ _ (lnot-lt _));
    sign_word = bit_and-lt _ _ p.sign_word;
    agrees = λ i hi k. omega (
      digits,
      digit_agrees p i hi,
      digit_agrees q i hi,
      bit-lnot t.value i p.value_word hi,
      bit-lnot s.value i q.value_word hi,
    );
    copies = λ i hi h. omega (digits, meet_copies i hi h);
    upper = λ i j le hj h. meet_upper i (omega arith) j le hj h;
  }

  -- The entry that the case of OR computes describes the disjunction of the two words that the
  -- operands' entries describe.
  pub or-Describes : Describes (or_consts t s) (bit_or x y)
  unfolding or_consts
  or-Describes = record {
    word = bit_or-lt x y q.word p.word;
    value_word = bit_and-lt _ _ (bit_or-lt _ _ p.value_word q.value_word);
    known_word = or_known-lt;
    sign_word = bit_and-lt _ _ p.sign_word;
    agrees =
        λ i hi k. omega (digits, digit_agrees p i hi, digit_agrees q i hi, or_known_digit i hi);
    copies = λ i hi h. omega (digits, meet_copies i hi h);
    upper = λ i j le hj h. meet_upper i (omega arith) j le hj h;
  }

  -- The entry that the case of XOR computes describes the exclusive disjunction of the two words
  -- that the operands' entries describe.
  pub xor-Describes : Describes (xor_consts t s) (bit_xor x y)
  unfolding xor_consts xor_digit
  xor-Describes = record {
    word = bit_xor-lt x y q.word p.word;
    value_word = bit_xor-lt _ _ p.value_word q.value_word;
    known_word = bit_and-lt _ _ p.known_word;
    sign_word = bit_and-lt _ _ p.sign_word;
    agrees = λ i hi k. omega (digits, bit-bit_xor, digit_agrees p i hi, digit_agrees q i hi);
    copies = λ i hi h. omega (digits, bit-bit_xor, meet_copies i hi h);
    upper = λ i j le hj h. meet_upper i (omega arith) j le hj h;
  }

  -- The entry that the case of NOR computes describes the complement of the disjunction of the two
  -- words that the operands' entries describe.
  pub nor-Describes : Describes (nor_consts t s) (lnot (bit_or x y))
  unfolding nor_consts
  nor-Describes = record {
    word = lnot-lt _;
    value_word = bit_and-lt _ _ (lnot-lt _);
    known_word = or_known-lt;
    sign_word = bit_and-lt _ _ p.sign_word;
    agrees = λ i hi k. omega (
      digits,
      digit_agrees p i hi,
      digit_agrees q i hi,
      or_known_digit i hi,
      bit-lnot (bit_or t.value s.value) i (bit_or-lt _ _ p.value_word q.value_word) hi,
      bit-lnot (bit_or x y) i (bit_or-lt _ _ q.word p.word) hi,
    );
    copies = λ i hi h. omega (
      digits,
      meet_copies i hi h,
      bit-lnot (bit_or x y) i (bit_or-lt _ _ q.word p.word) hi,
      bit-lnot (bit_or x y) 31 (bit_or-lt _ _ q.word p.word) (omega arith),
    );
    upper = λ i j le hj h. meet_upper i (omega arith) j le hj h;
  }
