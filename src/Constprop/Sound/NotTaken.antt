-- ===== src/Constprop/Sound/NotTaken.antt =====
-- What the pass learns from a branch that was not taken.
use lightrec.Base.{ℕ, ◌≡◌, arith, inl, inr, true, false, ==_cases, refl, sym, ◌∙◌, ap, is_neg}
use lightrec.Base.Bits.{
  bit, bit-lt-two, bit-bit_and, bit-bit_or, bit-lnot, bit_and-lt, bit_or-lt, pow_digit,
}
use lightrec.Base.Bits.{bit-is_neg, bit-pow_self}
use lightrec.Isa.{Code, Standard, Regimm, rs, rt, rs-lt, regimm_of}
use lightrec.Interpreter.Regs.{Gpr}
use lightrec.Interpreter.Branch.{int_beq, int_bgez, regimm_condition, branch_condition}
use lightrec.Constprop.Data.{ConstpropData, Consts, set_const, constant}
use lightrec.Constprop.Propagate.{top_clear, top_set, not_taken, regimm_not_taken}
use lightrec.Constprop.Describes.{Describes, DescribesAll, constant-Describes, digit_agrees}
use lightrec.Constprop.Describes.{set_const_self, set_const_ne, Describes-eq}

ruleset digits = (arith, bit-lt-two, bit-bit_and, bit-bit_or)

module _ {d : ConstpropData} {x : ℕ} (p : Describes d x) where
  top_clear-Describes : is_neg x ≡ false → Describes (top_clear d) x
  unfolding top_clear
  top_clear-Describes h = record {
    word = p.word;
    value_word = bit_and-lt _ _ p.value_word;
    known_word = bit_or-lt _ _ p.known_word (omega arith);
    sign_word = p.sign_word;
    agrees = λ i hi k. elim (pow_digit 31 i) [
      | inl top ↦ rw top.0 (
          omega
            (digits, bit-lnot 0x80000000 31 (omega arith) (omega arith), bit-pow_self 31, clear))
      | inr out ↦ omega (digits, out, bit-lnot 0x80000000 i (omega arith) hi, digit_agrees p i hi)
    ];
    copies = p.copies;
    upper = p.upper;
  }
    where
      clear : bit x 31 ≡ 0
      clear = elim (bit-is_neg x p.word) [ inl y ↦ cc (y.0, h) | inr y ↦ y.1 ]

  top_set-Describes : is_neg x ≡ true → Describes (top_set d) x
  unfolding top_set
  top_set-Describes h = record {
    word = p.word;
    value_word = bit_or-lt _ _ p.value_word (omega arith);
    known_word = bit_or-lt _ _ p.known_word (omega arith);
    sign_word = p.sign_word;
    agrees = λ i hi k. elim (pow_digit 31 i) [
      | inl top ↦ rw top.0 (omega (digits, bit-pow_self 31, set))
      | inr out ↦ omega (digits, out, digit_agrees p i hi)
    ];
    copies = p.copies;
    upper = p.upper;
  }
    where
      set : bit x 31 ≡ 1
      set = elim (bit-is_neg x p.word) [ inl y ↦ y.1 | inr y ↦ cc (y.0, h) ]

module _ {v : Consts} {g : Gpr} (all : DescribesAll v g) (g0 : g 0 ≡ 0) (c : Code) where
  refine : (t : ℕ) (d : ConstpropData) → Describes d (g t) → DescribesAll (set_const t d v) g
  refine t d p r hr = elim (==_cases t r) [
    | inl e ↦ rw (← e) (Describes-eq (set_const_self t d v) refl p)
    | inr ne ↦ Describes-eq (set_const_ne t d v r (ground arith)) refl (all r hr)
  ]

  refine_clear :
      is_neg (g (rs c)) ≡ false → DescribesAll (set_const (rs c) (top_clear (v (rs c))) v) g
  refine_clear h = refine (rs c) _ (top_clear-Describes (all (rs c) (rs-lt c)) h)

  refine_set : is_neg (g (rs c)) ≡ true → DescribesAll (set_const (rs c) (top_set (v (rs c))) v) g
  refine_set h = refine (rs c) _ (top_set-Describes (all (rs c) (rs-lt c)) h)

  bltz_not_taken : int_bgez c g true true ≡ false → is_neg (g (rs c)) ≡ false
  unfolding int_bgez
  bltz_not_taken h = ground arith

  bgez_not_taken : int_bgez c g false true ≡ false → is_neg (g (rs c)) ≡ true
  unfolding int_bgez
  bgez_not_taken h = ground arith

  blez_not_taken : int_bgez c g true false ≡ false → is_neg (g (rs c)) ≡ false
  unfolding int_bgez
  blez_not_taken h = ground arith

  bne_not_taken : int_beq c g true ≡ false → g (rs c) ≡ g (rt c)
  unfolding int_beq
  bne_not_taken h = ground arith

  regimm_sound :
      (o : Regimm) → regimm_condition o c g ≡ false → DescribesAll (regimm_not_taken o c v) g
  unfolding regimm_condition regimm_not_taken
  regimm_sound Regimm.bltz h = refine_clear (bltz_not_taken h)
  regimm_sound Regimm.bgez h = refine_set (bgez_not_taken h)
  regimm_sound Regimm.bltzal h = refine_clear (bltz_not_taken h)
  regimm_sound Regimm.bgezal h = refine_set (bgez_not_taken h)
  regimm_sound Regimm.unknown h = all

  zero_at : (t : ℕ) → g t ≡ 0 → DescribesAll (set_const t (constant 0) v) g
  zero_at t e = refine t _ (rw e (constant-Describes 0 (omega arith)))

  bne_sound : int_beq c g true ≡ false → DescribesAll (not_taken Standard.bne c v) g
  unfolding not_taken
  bne_sound h = elim (==_cases (rs c) 0) [
    | inl e ↦ rw e (zero_at (rt c) (sym (bne_not_taken h) ∙ ap g e ∙ g0))
    | inr ne ↦ elim (==_cases (rt c) 0) [
      | inl e ↦ rw (ne, e) (zero_at (rs c) (bne_not_taken h ∙ ap g e ∙ g0))
      | inr ne' ↦ rw (ne, ne') all
    ]
  ]

  -- A branch whose condition is false leaves an array that still describes the registers.
  pub not_taken-DescribesAll :
      (o : Standard) → branch_condition o c g ≡ false → DescribesAll (not_taken o c v) g
  unfolding branch_condition not_taken
  not_taken-DescribesAll Standard.bne h = bne_sound h
  not_taken-DescribesAll Standard.blez h = refine_clear (blez_not_taken h)
  not_taken-DescribesAll Standard.regimm h = regimm_sound (regimm_of c) h
  not_taken-DescribesAll _ h = all
