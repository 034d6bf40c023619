-- ===== src/Blockcache/Segments.antt =====
-- lightrec-private.h: `kunseg` keeps the code word of an address.
use lightrec.Base.{
  ℕ, ◌-◌, ◌%◌, ◌^◌, ◌<◌, ◌≡◌, arith, leb, bit_and, lnot, Bool-cases, inl, inr, ◌∙◌, sym, ap, refl,
}
use lightrec.Base.Bits.{bit, bit-lt-two, bit-bit_and, bit-lnot, masked-lt}
use lightrec.Base.Bits.Laws.{bit-mod_low, bit-pow_ne, eq_of_bits}
use lightrec.Blockcache.Geometry.{kunseg, lut_offset}
use lightrec.Blockcache.Words.{same_digit}

-- The lowest 29 digits of an address stay.
kunseg-low : (addr i : ℕ) → i < 29 → bit (kunseg addr) i ≡ bit addr i
unfolding kunseg
kunseg-low addr i hi = elim (Bool-cases (leb 0xa0000000 addr)) [
  | inl high ↦
      let e : (addr - 0xa0000000) % 2 ^ 29 ≡ addr % 2 ^ 29 = ground arith in
      rw high (
        sym (bit-mod_low 29 (addr - 0xa0000000) i hi)
        ∙ ap (λ (t : ℕ). bit t i) e
        ∙ bit-mod_low 29 addr i hi)
  | inr low ↦ rw low (
      omega (
        arith,
        bit-bit_and addr (lnot 0x80000000) i,
        bit-lnot 0x80000000 i (omega arith) (omega arith),
        bit-pow_ne 31 i (omega arith),
        bit-lt-two addr i,
      ))
]

masked-kunseg : (k addr : ℕ) → k < 30 → bit_and (kunseg addr) (2 ^ k - 1) ≡ bit_and addr (2 ^ k - 1)
masked-kunseg k addr hk = eq_of_bits k _ _ (masked-lt k (kunseg addr)) (masked-lt k addr) (λ i hi.
    omega (
      arith,
      bit-bit_and (kunseg addr) (2 ^ k - 1) i,
      bit-bit_and addr (2 ^ k - 1) i,
      kunseg-low addr i (omega arith),
    ))

-- An address and the address without its segment have the same place in the index of code words.
pub lut_offset-kunseg : (addr : ℕ) → lut_offset (kunseg addr) ≡ lut_offset addr
unfolding lut_offset
lut_offset-kunseg addr =
    rw
      (
        same_digit (kunseg addr) addr 28 (kunseg-low addr 28 (omega arith)),
        masked-kunseg 19 addr (omega arith),
        masked-kunseg 21 addr (omega arith),
      )
      refl
