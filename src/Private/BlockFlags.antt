-- ===== src/Private/BlockFlags.antt =====
-- lightrec-private.h: the flags of a block, a `u8`; each call answers with the flags before it.
use lightrec.Base.{ℕ, ◌-◌, ◌^◌, bit_and, bit_or, any_bit, Bool}

unfoldable pub block_has_flag : ℕ → ℕ → Bool
unfolding any_bit
block_has_flag flags flag = any_bit flags flag

unfoldable pub block_set_flags : ℕ → ℕ → ℕ × ℕ
block_set_flags flags mask = (flags, bit_or flags mask)

unfoldable pub block_clear_flags : ℕ → ℕ → ℕ × ℕ
block_clear_flags flags mask = (flags, bit_and flags (2 ^ 8 - 1 - mask))
