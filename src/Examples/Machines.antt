-- ===== src/Examples/Machines.antt =====
-- The theorems on the state of a run, at a machine at rest.
use lightrec.Base.{
  ℕ, true, false, ◌==◌, if◌then◌else◌, ltb, ◌≡◌, ◌≢◌, ◌+◌, arith, some, none, refl, inl, add32,
  lnot,
}
use lightrec.Base.Bits.{bit}
use lightrec.Blockcache.Geometry.{kunseg}
use lightrec.Blockcache.Find.{lightrec_find_block}
use lightrec.Blockcache.Invalidate.{lightrec_register_block}
use lightrec.Blockcache.Lookup.{blocks_of, register-blocks_of}
use lightrec.Execution.Machine.{Machine, FallbackEvent}
use lightrec.Execution.Cycles.{lightrec_set_exit_flags, lightrec_set_target_cycle_count}
use lightrec.Execution.Fallback.{
  Admission, lightrec_begin_fallback, lightrec_record_fallback_instruction,
  lightrec_reset_execution_stats,
}
use lightrec.Execution.Steps.{IsExiting, Step, Steps, exit_is_kept}
use lightrec.Execution.Accounting.{Balanced, IsFair, Call, Runs, calls-Balanced}
use lightrec.Coprocessor.{EnableRam, lightrec_mfc2, lightrec_mtc2, lightrec_rfe, lightrec_mtc0}
use lightrec.Coprocessor.Colour.{mfc2-mtc2_colour}
use lightrec.Coprocessor.Rfe.{rfe_pops}
use lightrec.Coprocessor.Interrupts.{IsInterrupted, LetsThrough, mtc0-IsInterrupted}
use lightrec.Memmanager.Usage.{Usage, lightrec_malloc, lightrec_free, lightrec_get_total_mem_usage}
use lightrec.Memmanager.Total.{free-malloc}
use lightrec.Examples.Cache.{empty_cache, small_block}

-- Status 0x3c; one interrupt of software pending.
abbrev pub machine : Machine
machine = record {
  gpr = λ i. 0;
  cp0 = λ i. if i == 12 then 0x3c else if i == 13 then 0x100 else 0;
  cp2d = λ i. 0;
  cp2c = λ i. 0;
  temp_reg = 0;
  curr_pc = 0x1000;
  next_pc = 0x1000;
  in_delay_slot_n = 0;
  current_cycle = 10;
  target_cycle = 50;
  exit_flags = 0;
  opt_flags = 0;
  block_cache = empty_cache;
  execution_stats = record {
    executed_instructions = 0;
    fallback_blocks = 0;
    fallback_instructions = 0;
    refused_fallback_blocks = 0;
    fallback_blocks_by_reason = λ r. 0;
    fallback_instructions_by_reason = λ r. 0;
    refused_fallback_blocks_by_reason = λ r. 0;
  };
  last_fallback = record { reason = 0; guest_pc = 0; host_error = 0 };
  active_fallback_reason = 0;
  executing = true;
  memory = λ i. 0;
}

some-injective : {x y : Admission} → some x ≡ some y → x ≡ y
some-injective e = cc

abbrev event : FallbackEvent
event = record { reason = 2; guest_pc = 0x1000; host_error = 0 }

abbrev emulate : ℕ → Machine → Machine × ℕ
emulate pc m = (m, pc + 4)

abbrev refusing : Admission
refusing m e = (m, false)

abbrev enable_ram : EnableRam
enable_ram on m = m

abbrev retargeted : Machine
retargeted = lightrec_set_target_cycle_count 100 (lightrec_set_exit_flags 8 machine)

exit_is_kept_example : IsExiting retargeted
exit_is_kept_example =
    exit_is_kept machine retargeted 8 (omega arith) (Steps.step (Step.retarget 100) Steps.here)

refusing-IsFair : IsFair (some refusing)
refusing-IsFair m e = record { stats = refl; active = refl }

-- A refused fallback, then one that is allowed and runs an instruction.
abbrev allowed : Machine
allowed =
    (lightrec_begin_fallback none event (
      (lightrec_begin_fallback (some refusing) event (lightrec_reset_execution_stats machine)).0)).0

abbrev counted : Machine
counted = record (lightrec_record_fallback_instruction allowed) { active_fallback_reason = 0 }

calls-Balanced_example : Balanced counted.execution_stats
calls-Balanced_example = calls-Balanced machine counted (omega arith) (
    Runs.call (Call.begin (some refusing) event refusing-IsFair (omega arith)) (
      Runs.call (Call.begin none event tt (omega arith))
        (Runs.call Call.instruction (Runs.call Call.finish Runs.here))))

mfc2-mtc2_colour_example :
    (lightrec_mfc2 28 (lightrec_mtc2 28 0xfabc machine.cp2d) ≡ 0x7abc)
    × (lightrec_mfc2 29 (lightrec_mtc2 28 0xfabc machine.cp2d) ≡ 0x7abc)
mfc2-mtc2_colour_example = mfc2-mtc2_colour 0xfabc machine.cp2d (omega arith)

rfe_pops_example :
    let after = lightrec_rfe enable_ram machine in
    (bit (after.cp0 12) 0
      ≡ (if ltb 0 4 then bit (machine.cp0 12) (2 + 0) else bit (machine.cp0 12) 0))
    × ((r : ℕ) → 12 ≢ r → after.cp0 r ≡ machine.cp0 r)
    × (after ≡ record machine {
      cp0 = after.cp0;
      exit_flags = after.exit_flags;
      target_cycle = after.target_cycle;
    })
rfe_pops_example = rfe_pops enable_ram machine 0 (omega arith) (omega arith)

mtc0-IsInterrupted_example : IsInterrupted (lightrec_mtc0 enable_ram 12 0x101 machine)
unfolding bit
mtc0-IsInterrupted_example =
    mtc0-IsInterrupted enable_ram 12 0x101 machine (λ on m. refl) (inl refl) (omega arith)
      (omega arith) (LetsThrough.soft 8 (inl refl) refl refl refl)

register-blocks_of_example :
    (blocks_of (lightrec_register_block empty_cache small_block) 0x40 ≡ some small_block)
    × (lightrec_find_block (lightrec_register_block empty_cache small_block) 0xa0000040
        ≡ some small_block)
unfolding kunseg lnot
register-blocks_of_example = register-blocks_of empty_cache small_block 0x40 0xa0000040

abbrev no_bytes : Usage
no_bytes t = 0

free-malloc_example :
    (lightrec_get_total_mem_usage ((lightrec_malloc (some 7) 1 64 no_bytes).1)
      ≡ add32 (lightrec_get_total_mem_usage no_bytes) 64)
    × ((lightrec_malloc none 1 64 no_bytes).1 ≡ no_bytes)
    × (lightrec_free 1 64 ((lightrec_malloc (some 7) 1 64 no_bytes).1) 1 ≡ 0)
free-malloc_example = free-malloc 1 64 7 1 no_bytes (omega arith) (omega arith) (omega arith)
