-- ===== src/Memory/Fault.antt =====
-- lightrec.c: an access to an address that no map holds.
use lightrec.Base.{ℕ, ◌≡◌, true, false, Option, some, List, get_elem?, refl, arith, any_bit, bit_or}
use lightrec.Base.Bits.{bit, bit-bit_or, bit-lt-two}
use lightrec.Isa.{Code, i_imm}
use lightrec.Optimizer.MaskBits.{any_bit_one}
use lightrec.Execution.Machine.{Machine}
use lightrec.Execution.Cycles.{lightrec_set_exit_flags, exit_segfault}
use lightrec.Memory.Maps.{MemMap, map_holds}
use lightrec.Memory.Access.{RunningBlock, block_effective_address, lightrec_rw, segfault_cb}
use lightrec.Memory.Lookup.{Descending, get_map_none}

segfault_flag : (x : ℕ) → any_bit (bit_or x 0x8) 0x8 ≡ true
segfault_flag x =
    any_bit_one (bit_or x 0x8) 3 (omega (arith, bit-bit_or x 0x8 3, bit-lt-two x 3, digit))
  where
    digit : bit 0x8 3 ≡ 1
    digit = unfold bit in refl

-- An access to an effective address that no map holds gives 0, leaves the flags of the opcode as they
-- were, raises the exit flag of a segmentation fault, and moves the target of the cycle count to the
-- current cycle. Every other member of the state is as it was. Condition: every mirror points at an
-- earlier map.
pub rw_unmapped :
    (maps : List MemMap) (c : Code) (base word : ℕ) (flags : Option ℕ) (block : RunningBlock)
    (m : Machine)
    → Descending maps
    → ((k : ℕ) (map : MemMap)
        → get_elem? maps k ≡ some map
        → map_holds map (block_effective_address base (i_imm c)) ≡ false)
    → let r = lightrec_rw maps c base word flags block m in
      (any_bit r.machine.exit_flags exit_segfault ≡ true)
      × (r.machine ≡ record m {
        exit_flags = bit_or m.exit_flags exit_segfault;
        target_cycle = m.current_cycle;
      })
      × (r.word ≡ 0)
      × (r.flags ≡ flags)
unfolding lightrec_rw segfault_cb lightrec_set_exit_flags
rw_unmapped maps c base word flags block m down unheld =
    let unmapped = (get_map_none maps (block_effective_address base (i_imm c)) down).1 unheld in
    rw (lightrec_rw, unmapped) (segfault_flag m.exit_flags, refl, refl, refl)
