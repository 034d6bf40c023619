-- ===== src/Passes/SpecialSound.antt =====
-- The rewrites of `OP_SPECIAL` in `lightrec_transform_ops`, all together.
use lightrec.Base.{Bool, true, false}
use lightrec.Isa.{Special}

-- The rewrites of shifts, sums, differences and bitwise operations; a product becomes an opcode with
-- an operand of its own.
unfoldable pub is_product : Special → Bool
is_product Special.mult = true
is_product Special.multu = true
is_product _ = false
