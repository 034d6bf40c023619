-- ===== src/Memory/Default.antt =====
-- lightrec.c: `lightrec_default_ops`.
use lightrec.Base.{ℕ, if◌then◌else◌, any_bit, List, bit_and, lnot}
use lightrec.Execution.Machine.{Machine}
use lightrec.Memory.Host.{load8, load16, load32, store8, store16, store32}
use lightrec.Memory.Maps.{MemMap, MemMapOps, lightrec_invalidate}

-- `if (!(state->opt_flags & LIGHTREC_OPT_INV_DMA_ONLY)) lightrec_invalidate(state, addr, len)`.
unfoldable pub invalidate_after_store : List MemMap → ℕ → ℕ → Machine → Machine
unfolding any_bit lightrec_invalidate
invalidate_after_store maps addr len m =
    if any_bit m.opt_flags 0x1 then m else lightrec_invalidate maps addr len m

unfoldable pub lightrec_default_ops : List MemMap → MemMapOps
unfolding load8 load16 load32 store8 store16 store32 invalidate_after_store lnot
lightrec_default_ops maps = record {
  sb = λ opcode host addr word m.
      invalidate_after_store maps addr 1 (record m { memory = store8 host word m.memory });
  sh = λ opcode host addr word m.
      invalidate_after_store maps addr 2 (record m { memory = store16 host word m.memory });
  sw = λ opcode host addr word m.
      invalidate_after_store maps addr 4 (record m { memory = store32 host word m.memory });
  lb = λ opcode host addr m. (load8 host m.memory, m);
  lh = λ opcode host addr m. (load16 host m.memory, m);
  lw = λ opcode host addr m. (load32 host m.memory, m);
  lwu = λ opcode host addr m. (load32 host m.memory, m);
  swu = λ opcode host addr word m.
      invalidate_after_store maps (bit_and addr (lnot 3)) 8
        (record m { memory = store32 host word m.memory });
}
