-- ===== src/Execution/Cycles.antt =====
-- execution.c: the cycle counts, the exit flags and the run of the dispatcher.
use lightrec.Base.{ℕ, Bool, true, false, if◌then◌else◌, ltb, ◌==◌, sub32, bit_or}
use lightrec.Execution.Machine.{Machine}

abbrev pub exit_normal : ℕ
exit_normal = 0

abbrev pub exit_segfault : ℕ
exit_segfault = 0x8

abbrev pub exit_check_interrupt : ℕ
exit_check_interrupt = 0x1

abbrev pub exit_block_boundary : ℕ
exit_block_boundary = 0x40

abbrev pub exit_fallback_refused : ℕ
exit_fallback_refused = 0x80

unfoldable pub lightrec_set_exit_flags : ℕ → Machine → Machine
lightrec_set_exit_flags flags m =
    if flags == exit_normal
    then m
    else record m { exit_flags = bit_or m.exit_flags flags; target_cycle = m.current_cycle }

unfoldable pub lightrec_reset_cycle_count : ℕ → Machine → Machine
lightrec_reset_cycle_count cycles m = record m {
  current_cycle = cycles;
  target_cycle = if ltb m.target_cycle cycles then cycles else m.target_cycle;
}

unfoldable pub lightrec_set_target_cycle_count : ℕ → Machine → Machine
lightrec_set_target_cycle_count cycles m =
    if m.exit_flags == exit_normal
    then record m { target_cycle = if ltb cycles m.current_cycle then m.current_cycle else cycles }
    else m

-- The generated dispatcher takes the address to start at and the cycles left, and returns the cycles
-- left. The result is `state->curr_pc`.
unfoldable pub lightrec_execute : (Machine → ℕ → ℕ → Machine × ℕ) → ℕ → ℕ → Machine → Machine × ℕ
unfolding sub32
lightrec_execute dispatcher pc target_cycle m =
    let started = record m {
      exit_flags = exit_normal;
      target_cycle = if ltb target_cycle m.current_cycle then 0xffffffff else target_cycle;
      curr_pc = pc;
      executing = true;
    } in
    let ran =
      dispatcher started started.curr_pc (sub32 started.target_cycle started.current_cycle) in
    let stopped =
      if ltb started.current_cycle started.target_cycle
      then record ran.0 { current_cycle = sub32 (ran.0).target_cycle ran.1 }
      else started in
    (record stopped { executing = false }, stopped.curr_pc)

-- `enum lightrec_block_boundary_action`.
pub data BlockBoundaryAction : Type 0 where
  continue : BlockBoundaryAction
  stop : BlockBoundaryAction
  redirect : BlockBoundaryAction

unfoldable pub apply_boundary : BlockBoundaryAction → ℕ → ℕ → Machine → Machine × Bool
unfolding lightrec_set_exit_flags
apply_boundary continue pc redirect_pc m = (m, true)
apply_boundary redirect pc redirect_pc m =
    (record m { curr_pc = redirect_pc; next_pc = redirect_pc }, false)
apply_boundary stop pc redirect_pc m =
    (lightrec_set_exit_flags exit_block_boundary (record m { curr_pc = pc }), false)

-- The callback answers with the state it leaves, the action, and what it leaves in `redirect_pc`.
unfoldable pub lightrec_run_block_boundary :
    (Machine → ℕ → Machine × BlockBoundaryAction × ℕ) → ℕ → Machine → Machine × Bool
unfolding apply_boundary
lightrec_run_block_boundary callback pc m =
    let answer = callback m pc in apply_boundary answer.1 pc answer.2 answer.0
