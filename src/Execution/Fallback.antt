-- ===== src/Execution/Fallback.antt =====
-- lightrec.c and execution.c: blocks that the interpreter runs in place of generated code, and their
-- statistics. A counter is a `u64`.
use lightrec.Base.{
  ℕ, ◌+◌, ◌%◌, ◌^◌, Bool, true, false, if◌then◌else◌, ltb, ◌==◌, Option, some, none,
}
use lightrec.Execution.Machine.{Machine, FallbackEvent}
use lightrec.Execution.Cycles.{lightrec_set_exit_flags, exit_fallback_refused}

unfoldable pub next_count : ℕ → ℕ
next_count n = (n + 1) % 2 ^ 64

-- `counters[reason]++`.
unfoldable pub count_reason : ℕ → (ℕ → ℕ) → ℕ → ℕ
unfolding next_count
count_reason reason counters = λ r. if reason == r then next_count (counters r) else counters r

-- `ops.fallback_admission`: the state that the callback leaves, and whether it allows the fallback.
abbrev pub Admission : Type 0
Admission = Machine → FallbackEvent → Machine × Bool

unfoldable pub count_refusal : ℕ → ℕ → Machine → Machine
unfolding next_count count_reason
count_refusal reason pc m =
    let s = m.execution_stats in
    record m {
      curr_pc = pc;
      next_pc = pc;
      execution_stats = record s {
        refused_fallback_blocks = next_count s.refused_fallback_blocks;
        refused_fallback_blocks_by_reason = count_reason reason s.refused_fallback_blocks_by_reason;
      };
    }

unfoldable pub refuse_fallback : ℕ → ℕ → Machine → Machine × Bool
unfolding count_refusal lightrec_set_exit_flags
refuse_fallback reason pc m =
    (lightrec_set_exit_flags exit_fallback_refused (count_refusal reason pc m), false)

unfoldable pub admit_fallback : ℕ → Machine → Machine × Bool
unfolding next_count count_reason
admit_fallback reason m =
    let s = m.execution_stats in
    (
      record m {
        active_fallback_reason = reason;
        execution_stats = record s {
          fallback_blocks = next_count s.fallback_blocks;
          fallback_blocks_by_reason = count_reason reason s.fallback_blocks_by_reason;
        };
      },
      true,
    )

unfoldable pub note_fallback : FallbackEvent → Machine → Machine
note_fallback event m = record m { last_fallback = event }

unfoldable pub lightrec_begin_fallback : Option Admission → FallbackEvent → Machine → Machine × Bool
unfolding refuse_fallback admit_fallback note_fallback
lightrec_begin_fallback none event m = admit_fallback event.reason (note_fallback event m)
lightrec_begin_fallback (some ask) event m =
    let answer = ask (note_fallback event m) event in
    if answer.1
    then admit_fallback event.reason answer.0
    else refuse_fallback event.reason event.guest_pc answer.0

-- `emulate` is `lightrec_emulate_block` on the block, from an address to the next one.
unfoldable pub lightrec_fallback_block :
    Option Admission → (ℕ → Machine → Machine × ℕ) → FallbackEvent → Machine → Machine × ℕ
unfolding lightrec_begin_fallback
lightrec_fallback_block admission emulate event m =
    let begun = lightrec_begin_fallback admission event m in
    let emulated = emulate event.guest_pc begun.0 in
    if begun.1
    then (record emulated.0 { active_fallback_reason = 0 }, emulated.1)
    else (begun.0, event.guest_pc)

unfoldable pub lightrec_record_fallback_instruction : Machine → Machine
unfolding next_count count_reason
lightrec_record_fallback_instruction m =
    let s = m.execution_stats in
    if m.active_fallback_reason == 0 then m else record m {
      execution_stats = record s {
        fallback_instructions = next_count s.fallback_instructions;
        fallback_instructions_by_reason =
            count_reason m.active_fallback_reason s.fallback_instructions_by_reason;
      };
    }

unfoldable pub lightrec_reset_execution_stats : Machine → Machine
lightrec_reset_execution_stats m = record m {
  execution_stats = record {
    executed_instructions = 0;
    fallback_blocks = 0;
    fallback_instructions = 0;
    refused_fallback_blocks = 0;
    fallback_blocks_by_reason = λ r. 0;
    fallback_instructions_by_reason = λ r. 0;
    refused_fallback_blocks_by_reason = λ r. 0;
  };
  last_fallback = record { reason = 0; guest_pc = 0; host_error = 0 };
}

unfoldable pub lightrec_execution_is_dynarec_dominated : Machine → Bool
lightrec_execution_is_dynarec_dominated m =
    ltb m.execution_stats.fallback_instructions m.execution_stats.executed_instructions
