-- ===== src/Base/Word.antt =====
-- 32-bit words as numbers below 2 ^ 32, with the wrap of C's unsigned arithmetic written out.
use Prim.Native.Nat.{ℕ, ◌+◌, ◌-◌, ◌*◌, ◌/◌, ◌%◌, ◌^◌, ◌<◌, bit_and}
use mathlib.Core.Bool.{Bool, not}
use lightrec.Base.Tests.{ltb, leb, ◌==◌, if◌then◌else◌}

abbrev pub IsU32 : ℕ → Type 0
IsU32 x = x < 2 ^ 32

abbrev pub ones : ℕ
ones = 0xffffffff

-- `a + b`, `a - b`, `~a` and the cast `(u32)a`.
unfoldable pub u32 : ℕ → ℕ
u32 a = a % 2 ^ 32

unfoldable pub add32 : ℕ → ℕ → ℕ
add32 a b = (a + b) % 2 ^ 32

unfoldable pub sub32 : ℕ → ℕ → ℕ
sub32 a b = (a + 2 ^ 32 - b) % 2 ^ 32

unfoldable pub lnot : ℕ → ℕ
lnot a = 0xffffffff - a

-- `a << k` and `a >> k` on a `u32`.
unfoldable pub shl : ℕ → ℕ → ℕ
shl a k = a * 2 ^ k % 2 ^ 32

unfoldable pub shr : ℕ → ℕ → ℕ
shr a k = a / 2 ^ k

-- The sign of an `s32` pattern, and `(s32)a >> k`: a shift that copies the sign bit.
unfoldable pub is_neg : ℕ → Bool
is_neg a = leb 0x80000000 a

unfoldable pub sra : ℕ → ℕ → ℕ
unfolding lnot shr is_neg
sra a k = if is_neg a then lnot (shr (lnot a) k) else shr a k

-- `(s32)a < (s32)b`: adding 2 ^ 31 turns the signed order into the unsigned one.
unfoldable pub slt32 : ℕ → ℕ → Bool
slt32 a b = ltb ((a + 0x80000000) % 2 ^ 32) ((b + 0x80000000) % 2 ^ 32)

-- `(s32)(s16)a` and `(s32)(s8)a`, as `u32` patterns.
unfoldable pub sext16 : ℕ → ℕ
sext16 a = (let l = a % 2 ^ 16 in if leb 0x8000 l then l + 0xffff0000 else l)

unfoldable pub sext8 : ℕ → ℕ
sext8 a = (let l = a % 2 ^ 8 in if leb 0x80 l then l + 0xffffff00 else l)

-- The test `if (a & mask)` of C.
unfoldable pub any_bit : ℕ → ℕ → Bool
any_bit a mask = not (bit_and a mask == 0)
