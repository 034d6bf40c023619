-- ===== src/Coprocessor/Colour.antt =====
-- lightrec.c: a colour written through `IRGB` is read back from `IRGB` and `ORGB`.
use lightrec.Base.{
  ℕ, ◌+◌, ◌*◌, ◌/◌, ◌%◌, ◌^◌, ◌<◌, ◌≡◌, arith, IsU32, bit_and, bit_or, shl, shr, sra, sext16, slt32,
  is_neg, ◌∙◌,
}
use lightrec.Interpreter.Regs.{set_reg}
use lightrec.Coprocessor.Gte.{among, clamp_s32, load_u16, colour_of, lightrec_mfc2, lightrec_mtc2}
use lightrec.Base.Bits.Fields.{bit_and-field, bit_or-apart}

colour_of-shifted : (c : ℕ) → c < 32 → colour_of (c * 2 ^ 7) ≡ c
unfolding colour_of clamp_s32 load_u16 sra sext16 slt32 is_neg shr
colour_of-shifted c h = ground arith

colour_of-masked : (x : ℕ) → colour_of (bit_and x 0xf80) ≡ x / 2 ^ 7 % 2 ^ 5
colour_of-masked x =
    rw (bit_and-field 7 5 (omega arith) x (omega arith) (omega arith))
      (colour_of-shifted (x / 2 ^ 7 % 2 ^ 5) (omega arith))

fields :
    (word : ℕ)
    → (shl word 7 / 2 ^ 7 % 2 ^ 5 ≡ word % 32)
      × (shl word 2 / 2 ^ 7 % 2 ^ 5 ≡ word / 32 % 32)
      × (shr word 3 / 2 ^ 7 % 2 ^ 5 ≡ word / 1024 % 32)
unfolding shl shr
fields word = (omega arith, omega arith, omega arith)

packed :
    (r g b : ℕ)
    → r < 32
    → g < 32
    → b < 32
    → bit_or (bit_or (shl r 0) (shl g 5)) (shl b 10) ≡ r + g * 2 ^ 5 + b * 2 ^ 10
unfolding shl
packed r g b hr hg hb =
    let e0 : r * 1 % 2 ^ 32 ≡ r = omega arith in
    let e1 : g * 2 ^ 5 % 2 ^ 32 ≡ g * 2 ^ 5 = omega arith in
    let e2 : b * 2 ^ 10 % 2 ^ 32 ≡ b * 2 ^ 10 = omega arith in
    rw (e0, e1, e2, bit_or-apart 5 r g (omega arith) (omega arith) (omega arith))
      (bit_or-apart 10 (r + g * 2 ^ 5) b (omega arith) (omega arith) (omega arith))

-- A colour of three times five bits that is written to register 28 is what registers 28 and 29 then
-- read: the low 15 bits of the word.
pub mfc2-mtc2_colour :
    (word : ℕ) (cp2d : ℕ → ℕ)
    → IsU32 word
    → (lightrec_mfc2 28 (lightrec_mtc2 28 word cp2d) ≡ word % 2 ^ 15)
      × (lightrec_mfc2 29 (lightrec_mtc2 28 word cp2d) ≡ word % 2 ^ 15)
unfolding lightrec_mfc2 lightrec_mtc2 among set_reg
mfc2-mtc2_colour word cp2d h = (together, together)
  where
    together :
        bit_or
          (bit_or
            (shl (colour_of (bit_and (shl word 7) 0xf80)) 0)
            (shl (colour_of (bit_and (shl word 2) 0xf80)) 5))
          (shl (colour_of (bit_and (shr word 3) 0xf80)) 10)
        ≡ word % 2 ^ 15
    together =
        let f = fields word in
        rw
          (
            colour_of-masked (shl word 7),
            colour_of-masked (shl word 2),
            colour_of-masked (shr word 3),
            f.0,
            f.1,
            f.2,
          )
          (packed (word % 32) (word / 32 % 32) (word / 1024 % 32) (omega arith) (omega arith)
              (omega arith)
            ∙ omega arith)
