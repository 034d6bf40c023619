-- ===== src/Coprocessor/Gte.antt =====
-- lightrec.c: coprocessor 2. An array of registers is a function from their numbers.
use lightrec.Base.{
  ℕ, ◌+◌, ◌-◌, ◌*◌, ◌/◌, ◌%◌, ◌^◌, Bool, false, ◌||◌, ◌==◌, if◌then◌else◌, List, [], ◌∷◌, bit_and,
  bit_or, bit_xor, shl, shr, sra, sext16, slt32, any_bit,
}
use lightrec.Interpreter.Regs.{set_reg}
use lightrec.Constprop.Data.{bit_length}

-- The labels of a `case`.
unfoldable pub among : ℕ → List ℕ → Bool
among r [] = false
among r (x ∷ xs) = r == x || among r xs

unfoldable pub clamp_s32 : ℕ → ℕ → ℕ → ℕ
unfolding slt32
clamp_s32 val low high = if slt32 val low then low else if slt32 high val then high else val

unfoldable pub load_u16 : ℕ → ℕ
load_u16 word = word % 2 ^ 16

unfoldable pub store_u16 : ℕ → ℕ → ℕ
store_u16 value word = word / 2 ^ 16 * 2 ^ 16 + value % 2 ^ 16

-- One of the three colours of `IRGB` and `ORGB`.
unfoldable pub colour_of : ℕ → ℕ
unfolding clamp_s32 load_u16 sra sext16
colour_of word = clamp_s32 (sra (sext16 (load_u16 word)) 7) 0 0x1f

unfoldable pub lightrec_mfc2 : ℕ → (ℕ → ℕ) → ℕ
unfolding among load_u16 sext16 colour_of shl
lightrec_mfc2 r cp2d =
    if among r (1 ∷ 3 ∷ 5 ∷ 8 ∷ 9 ∷ 10 ∷ 11 ∷ [])
    then sext16 (load_u16 (cp2d r))
    else if among r (7 ∷ 16 ∷ 17 ∷ 18 ∷ 19 ∷ [])
    then load_u16 (cp2d r)
    else if among r (28 ∷ 29 ∷ [])
    then bit_or (bit_or (shl (colour_of (cp2d 9)) 0) (shl (colour_of (cp2d 10)) 5))
        (shl (colour_of (cp2d 11)) 10)
    else if r == 15
    then cp2d 14
    else cp2d r

-- Without `__builtin_clrsb`, which adds one to the count of the bits that repeat the sign.
unfoldable pub count_leading_bits : ℕ → ℕ
unfolding sra bit_length
count_leading_bits word =
    let folded = bit_xor word (sra word 31) in if folded == 0 then 32 else 32 - bit_length 32 folded

unfoldable pub lightrec_mtc2 : ℕ → ℕ → (ℕ → ℕ) → ℕ → ℕ
unfolding set_reg shl shr count_leading_bits
lightrec_mtc2 r word cp2d =
    if r == 15
    then set_reg 14 word (set_reg 13 (cp2d 14) (set_reg 12 (cp2d 13) cp2d))
    else if r == 28
    then set_reg 11 (bit_and (shr word 3) 0xf80)
        (set_reg 10 (bit_and (shl word 2) 0xf80) (set_reg 9 (bit_and (shl word 7) 0xf80) cp2d))
    else if r == 31
    then cp2d
    else if r == 30
    then set_reg 30 word (set_reg 31 (count_leading_bits word) cp2d)
    else set_reg r word cp2d

unfoldable pub control_error_flag : ℕ → ℕ
unfolding any_bit
control_error_flag word =
    bit_or (bit_and word 0x7ffff000) (if any_bit word 0x7f87e000 then 0x80000000 else 0)

unfoldable pub lightrec_ctc2 : ℕ → ℕ → (ℕ → ℕ) → ℕ → ℕ
unfolding among store_u16 set_reg control_error_flag
lightrec_ctc2 r word cp2c =
    if among r (4 ∷ 12 ∷ 20 ∷ 26 ∷ 27 ∷ 29 ∷ 30 ∷ [])
    then set_reg r (store_u16 word (cp2c r)) cp2c
    else if r == 31
    then set_reg 31 (control_error_flag word) cp2c
    else set_reg r word cp2c
