-- ===== src/Blockcache/Geometry.antt =====
-- lightrec-private.h: guest addresses, the compact index of code words, and the extent of a block.
use lightrec.Base.{
  ℕ, ◌+◌, ◌-◌, ◌*◌, ◌/◌, ◌<◌, ◌≤◌, if◌then◌else◌, arith, leb, ltb, Bool, ◌&&◌, bit_and, any_bit,
  lnot, add32, sub32, inl, inr, Bool-cases,
}
use lightrec.Base.Bits.{masked-lt}

abbrev pub ram_size : ℕ
ram_size = 0x200000

abbrev pub bios_size : ℕ
bios_size = 0x80000

-- `(RAM_SIZE + BIOS_SIZE) >> 2`.
abbrev pub code_lut_size : ℕ
code_lut_size = 0xa0000

-- The members of `struct block` that the cache reads.
pub record CachedBlock : Type 0 where
  pub pc : ℕ
  pub nb_ops : ℕ
  pub has_function : Bool

unfoldable pub kunseg : ℕ → ℕ
unfolding lnot
kunseg addr = if leb 0xa0000000 addr then addr - 0xa0000000 else bit_and addr (lnot 0x80000000)

unfoldable pub lut_offset : ℕ → ℕ
unfolding any_bit
lut_offset pc =
    if any_bit pc 0x10000000
    then (bit_and pc (bios_size - 1) + ram_size) / 4
    else bit_and pc (ram_size - 1) / 4

unfoldable pub block_end_pc : CachedBlock → ℕ
unfolding kunseg add32
block_end_pc b = add32 (kunseg b.pc) (b.nb_ops * 4)

unfoldable pub block_overlaps_range : CachedBlock → ℕ → ℕ → Bool
unfolding kunseg block_end_pc
block_overlaps_range b begin end = ltb (kunseg b.pc) end && ltb begin (block_end_pc b)

unfoldable pub clamp_word_run : ℕ → ℕ → ℕ
unfolding sub32
clamp_word_run offset count =
    if ltb (sub32 code_lut_size offset) count then sub32 code_lut_size offset else count

-- Every address has its code word in the index.
pub lut_offset-lt : (pc : ℕ) → lut_offset pc < code_lut_size
unfolding lut_offset
lut_offset-lt pc = elim (Bool-cases (any_bit pc 0x10000000)) [
  | inl bios ↦ rw bios (omega (arith, masked-lt 19 pc))
  | inr ram ↦ rw ram (omega (arith, masked-lt 21 pc))
]

-- A run that starts in the index ends in it.
pub clamp_word_run-lt :
    (offset count : ℕ)
    → offset < code_lut_size
    → offset + clamp_word_run offset count < code_lut_size + 1
unfolding clamp_word_run sub32
clamp_word_run-lt offset count h = ground arith

-- The words that a range of guest addresses is cut to are in the index, wherever it starts and however
-- long it is.
pub lut_offset-clamp_word_run :
    (addr count : ℕ)
    → (lut_offset addr < code_lut_size)
      × (lut_offset addr + clamp_word_run (lut_offset addr) count < code_lut_size + 1)
      × (clamp_word_run (lut_offset addr) count ≤ count)
unfolding clamp_word_run sub32
lut_offset-clamp_word_run addr count =
    let h = lut_offset-lt addr in
    (h, clamp_word_run-lt (lut_offset addr) count h, ground (arith, h))
