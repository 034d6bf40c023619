-- ===== src/Interpreter/OnlyZero.antt =====
-- optimizer.c: a write mask that names register 0 names no other.
use lightrec.Base.{
  ℕ, ◌^◌, ◌≡◌, ◌≢◌, arith, true, false, refl, inl, inr, Bool, Bool-cases, ==_cases, ◌==◌,
  if◌then◌else◌, bit_or, any_bit,
}
use lightrec.Base.Bits.{bit-bit_or, bit_of_zero}
use lightrec.Base.Bits.Laws.{bit-pow_ne}
use lightrec.Isa.{Code, Standard, Special, rt, rd, r_imm, special_of}
use lightrec.Optimizer.{
  write_mask_of, special_write_mask, mult_div_write_mask, cp0_write_mask, cp2_write_mask,
  regimm_write_mask, reg_lo, reg_hi,
}
use lightrec.Isa.{Cp0, Cp2Basic, Regimm, cp0_of, cp2_basic_of, regimm_of, r_op}
use lightrec.Optimizer.MaskBits.{any_bit_zero, digit_of_any, IsOutside}
use lightrec.Interpreter.Frame.{sll_move_of}

-- A mask that names register 0 names no other.
abbrev pub OnlyZero : ℕ → Type 0
OnlyZero mask = any_bit mask (2 ^ 0) ≡ true → (i : ℕ) → i ≢ 0 → IsOutside mask i

OnlyZero-pow : (r : ℕ) → OnlyZero (2 ^ r)
OnlyZero-pow r h i ne = elim (==_cases r 0) [
  | inl e ↦ any_bit_zero (2 ^ r) i (rw e (bit-pow_ne 0 i (ground arith)))
  | inr ner ↦ absurd (omega (arith, digit_of_any (2 ^ r) 0 h, bit-pow_ne r 0 (ground arith)))
]

OnlyZero-zero : OnlyZero 0
OnlyZero-zero h i ne = any_bit_zero 0 i (bit_of_zero i)

-- A mask of two registers other than 0.
OnlyZero-pair : (r s : ℕ) → r ≢ 0 → s ≢ 0 → OnlyZero (bit_or (2 ^ r) (2 ^ s))
OnlyZero-pair r s nr ns h i ne = absurd (
    omega (
      arith,
      digit_of_any (bit_or (2 ^ r) (2 ^ s)) 0 h,
      bit-bit_or (2 ^ r) (2 ^ s) 0,
      bit-pow_ne r 0 nr,
      bit-pow_ne s 0 ns,
    ))

OnlyZero-mult_div : (c : Code) → OnlyZero (mult_div_write_mask c)
unfolding mult_div_write_mask
OnlyZero-mult_div c = elim (==_cases (rd c) 0) [
  | inl e ↦ elim (==_cases (r_imm c) 0) [
    | inl f ↦ rw (e, f) (OnlyZero-pair reg_lo reg_hi (omega arith) (omega arith))
    | inr nf ↦ rw (e, nf) (OnlyZero-pair reg_lo (r_imm c) (omega arith) (ground arith))
  ]
  | inr ne ↦ elim (==_cases (r_imm c) 0) [
    | inl f ↦ rw (ne, f) (OnlyZero-pair (rd c) reg_hi (ground arith) (omega arith))
    | inr nf ↦ rw (ne, nf) (OnlyZero-pair (rd c) (r_imm c) (ground arith) (ground arith))
  ]
]

OnlyZero-if : (b : Bool) (m : ℕ) → OnlyZero m → OnlyZero (if b then m else 0)
OnlyZero-if true m h = h
OnlyZero-if false m h = OnlyZero-zero

OnlyZero-if_not : (b : Bool) (m : ℕ) → OnlyZero m → OnlyZero (if b then 0 else m)
OnlyZero-if_not true m h = OnlyZero-zero
OnlyZero-if_not false m h = h

OnlyZero-special : (s : Special) (c : Code) → OnlyZero (special_write_mask s c)
unfolding special_write_mask
OnlyZero-special Special.jr c = OnlyZero-zero
OnlyZero-special Special.syscall c = OnlyZero-zero
OnlyZero-special Special.break c = OnlyZero-zero
OnlyZero-special Special.mult c = OnlyZero-mult_div c
OnlyZero-special Special.multu c = OnlyZero-mult_div c
OnlyZero-special Special.div c = OnlyZero-mult_div c
OnlyZero-special Special.divu c = OnlyZero-mult_div c
OnlyZero-special Special.mthi c = OnlyZero-pow reg_hi
OnlyZero-special Special.mtlo c = OnlyZero-pow reg_lo
OnlyZero-special Special.sll c = OnlyZero-if_not (r_imm c == 0) (2 ^ rd c) (OnlyZero-pow (rd c))
OnlyZero-special _ c = OnlyZero-pow (rd c)

OnlyZero-cp0 : (o : Cp0) (c : Code) → OnlyZero (cp0_write_mask o c)
unfolding cp0_write_mask
OnlyZero-cp0 Cp0.mfc0 c = OnlyZero-pow (rt c)
OnlyZero-cp0 Cp0.cfc0 c = OnlyZero-pow (rt c)
OnlyZero-cp0 _ c = OnlyZero-zero

OnlyZero-cp2 : (o : Cp2Basic) (c : Code) → OnlyZero (cp2_write_mask o c)
unfolding cp2_write_mask
OnlyZero-cp2 Cp2Basic.mfc2 c = OnlyZero-if (r_op c == 0) (2 ^ rt c) (OnlyZero-pow (rt c))
OnlyZero-cp2 Cp2Basic.cfc2 c = OnlyZero-if (r_op c == 0) (2 ^ rt c) (OnlyZero-pow (rt c))
OnlyZero-cp2 _ c = OnlyZero-zero

OnlyZero-regimm : (o : Regimm) → OnlyZero (regimm_write_mask o)
unfolding regimm_write_mask
OnlyZero-regimm Regimm.bltzal = OnlyZero-pow 31
OnlyZero-regimm Regimm.bgezal = OnlyZero-pow 31
OnlyZero-regimm _ = OnlyZero-zero

pub OnlyZero-standard : (o : Standard) (c : Code) → OnlyZero (write_mask_of o c)
unfolding write_mask_of
OnlyZero-standard Standard.meta_mult2 c = OnlyZero-mult_div c
OnlyZero-standard Standard.meta_multu2 c = OnlyZero-mult_div c
OnlyZero-standard Standard.meta c = OnlyZero-pow (rd c)
OnlyZero-standard Standard.special c = OnlyZero-special (special_of c) c
OnlyZero-standard Standard.addi c = OnlyZero-pow (rt c)
OnlyZero-standard Standard.addiu c = OnlyZero-pow (rt c)
OnlyZero-standard Standard.slti c = OnlyZero-pow (rt c)
OnlyZero-standard Standard.sltiu c = OnlyZero-pow (rt c)
OnlyZero-standard Standard.andi c = OnlyZero-pow (rt c)
OnlyZero-standard Standard.ori c = OnlyZero-pow (rt c)
OnlyZero-standard Standard.xori c = OnlyZero-pow (rt c)
OnlyZero-standard Standard.lui c = OnlyZero-pow (rt c)
OnlyZero-standard Standard.lb c = OnlyZero-pow (rt c)
OnlyZero-standard Standard.lh c = OnlyZero-pow (rt c)
OnlyZero-standard Standard.lwl c = OnlyZero-pow (rt c)
OnlyZero-standard Standard.lw c = OnlyZero-pow (rt c)
OnlyZero-standard Standard.lbu c = OnlyZero-pow (rt c)
OnlyZero-standard Standard.lhu c = OnlyZero-pow (rt c)
OnlyZero-standard Standard.lwr c = OnlyZero-pow (rt c)
OnlyZero-standard Standard.meta_lwu c = OnlyZero-pow (rt c)
OnlyZero-standard Standard.jal c = OnlyZero-pow 31
OnlyZero-standard Standard.cp0 c = OnlyZero-cp0 (cp0_of c) c
OnlyZero-standard Standard.cp2 c = OnlyZero-cp2 (cp2_basic_of c) c
OnlyZero-standard Standard.regimm c = OnlyZero-regimm (regimm_of c)
OnlyZero-standard _ c = OnlyZero-zero

-- An opcode whose mask names register 0 is not the move that the masks leave out.
special-not_sll_move :
    (s : Special) (c : Code)
    → any_bit (special_write_mask s c) (2 ^ 0) ≡ true
    → sll_move_of Standard.special s c ≡ false
unfolding special_write_mask sll_move_of
special-not_sll_move Special.sll c h = elim (Bool-cases (r_imm c == 0)) [
  | inl m ↦ let h' = rw m at h in cc (any_bit_zero 0 0 (bit_of_zero 0), h')
  | inr n ↦ n
]
special-not_sll_move _ c h = refl

pub standard-not_sll_move :
    (o : Standard) (c : Code)
    → any_bit (write_mask_of o c) (2 ^ 0) ≡ true
    → sll_move_of o (special_of c) c ≡ false
unfolding write_mask_of sll_move_of
standard-not_sll_move Standard.special c h = special-not_sll_move (special_of c) c h
standard-not_sll_move _ c h = refl
