-- ===== src/Memory/Unaligned.antt =====
-- lightrec.c: `SWL`, `SWR`, `LWL` and `LWR`, on the accessors of a map. `addr & 3` and `addr & ~3`
-- are written as a remainder and a multiple of four.
use lightrec.Base.{
  ℕ, ◌+◌, ◌-◌, ◌*◌, ◌/◌, ◌%◌, ◌^◌, ◌==◌, if◌then◌else◌, ltb, bit_and, bit_or, shl, shr,
}
use lightrec.Constprop.Data.{genmask}
use lightrec.Execution.Machine.{Machine}
use lightrec.Memory.Maps.{MemMapOps}

unfoldable pub align : ℕ → ℕ
align addr = addr / 4 * 4

unfoldable pub lightrec_swl : MemMapOps → ℕ → ℕ → ℕ → ℕ → Machine → Machine
unfolding align genmask shr
lightrec_swl ops opcode host addr word m =
    let shift = addr % 4 in
    let mask = if ltb shift 3 then genmask 31 ((shift + 1) * 8) else 0 in
    let old = ops.lw opcode (align host) (align addr) m in
    ops.sw opcode (align host) (align addr)
      (bit_or (shr word ((3 - shift) * 8)) (bit_and old.0 mask)) old.1

unfoldable pub lightrec_swr : MemMapOps → ℕ → ℕ → ℕ → ℕ → Machine → Machine
unfolding align shl
lightrec_swr ops opcode host addr word m =
    let shift = addr % 4 in
    let mask = 2 ^ (shift * 8) - 1 in
    let old = ops.lw opcode (align host) (align addr) m in
    ops.sw opcode (align host) (align addr) (bit_or (shl word (shift * 8)) (bit_and old.0 mask))
      old.1

unfoldable pub lightrec_lwl : MemMapOps → ℕ → ℕ → ℕ → ℕ → Machine → ℕ × Machine
unfolding align shl
lightrec_lwl ops opcode host addr word m =
    let shift = addr % 4 in
    let mask = 2 ^ (24 - shift * 8) - 1 in
    let old = ops.lw opcode (align host) (align addr) m in
    (bit_or (bit_and word mask) (shl old.0 (24 - shift * 8)), old.1)

unfoldable pub lightrec_lwr : MemMapOps → ℕ → ℕ → ℕ → ℕ → Machine → ℕ × Machine
unfolding align genmask shr
lightrec_lwr ops opcode host addr word m =
    let shift = addr % 4 in
    let mask = if shift == 0 then 0 else genmask 31 (32 - shift * 8) in
    let old = ops.lw opcode (align host) (align addr) m in
    (bit_or (bit_and word mask) (shr old.0 (shift * 8)), old.1)
