-- ===== src/Execution/Machine.antt =====
-- lightrec-private.h, lightrec.h: `struct lightrec_state` and the records in it, without the maps,
-- the callbacks and what belongs to generated code, which the functions take as arguments.
use lightrec.Base.{ℕ, Bool}
use lightrec.Interpreter.Regs.{Gpr}
use lightrec.Blockcache.Invalidate.{Blockcache}

-- `struct lightrec_execution_stats`. A reason is its number; the arrays have six places.
pub record Stats : Type 0 where
  pub executed_instructions : ℕ
  pub fallback_blocks : ℕ
  pub fallback_instructions : ℕ
  pub refused_fallback_blocks : ℕ
  pub fallback_blocks_by_reason : ℕ → ℕ
  pub fallback_instructions_by_reason : ℕ → ℕ
  pub refused_fallback_blocks_by_reason : ℕ → ℕ

-- `struct lightrec_fallback_event`.
pub record FallbackEvent : Type 0 where
  pub reason : ℕ
  pub guest_pc : ℕ
  pub host_error : ℕ

-- `memory` is what the host addresses of the maps hold, byte by byte.
pub record Machine : Type 0 where
  pub gpr : Gpr
  pub cp0 : ℕ → ℕ
  pub cp2d : ℕ → ℕ
  pub cp2c : ℕ → ℕ
  pub temp_reg : ℕ
  pub curr_pc : ℕ
  pub next_pc : ℕ
  pub in_delay_slot_n : ℕ
  pub current_cycle : ℕ
  pub target_cycle : ℕ
  pub exit_flags : ℕ
  pub opt_flags : ℕ
  pub block_cache : Blockcache
  pub execution_stats : Stats
  pub last_fallback : FallbackEvent
  pub active_fallback_reason : ℕ
  pub executing : Bool
  pub memory : ℕ → ℕ
