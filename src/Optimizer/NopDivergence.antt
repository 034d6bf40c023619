-- ===== src/Optimizer/NopDivergence.antt =====
-- optimizer.c: jumps that `is_nop` takes for no-ops.
use lightrec.Base.{◌≡◌, true, ◌^◌, refl}
use lightrec.Base.Bits.{bit-pow_self}
use lightrec.Isa.{Code, Standard, Special, rd, op_of, special_of}
use lightrec.Optimizer.Masks.{opcode_writes_register}
use lightrec.Optimizer.MaskBits.{any_bit_one}
use lightrec.Optimizer.Queries.{is_nop, is_zero_write_nop, has_delay_slot}

jalr-writes :
    (c : Code)
    → op_of c ≡ Standard.special
    → special_of c ≡ Special.jalr
    → rd c ≡ 0
    → opcode_writes_register c 0 ≡ true
unfolding opcode_writes_register
jalr-writes c h k z = rw (h, k, z) (any_bit_one (2 ^ 0) 0 (bit-pow_self 0))

-- Every `jalr` whose link register is register 0 is a no-op to `is_nop`, though it jumps: it has a
-- delay slot.
pub is_nop_jalr :
    (c : Code)
    → op_of c ≡ Standard.special
    → special_of c ≡ Special.jalr
    → rd c ≡ 0
    → (is_nop c ≡ true) × (has_delay_slot c ≡ true)
unfolding is_nop has_delay_slot is_zero_write_nop
is_nop_jalr c h k z = (rw (jalr-writes c h k z, h) refl, rw (h, k) refl)
