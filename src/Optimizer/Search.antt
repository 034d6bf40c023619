-- ===== src/Optimizer/Search.antt =====
-- optimizer.c: the searches over an opcode list. `none` of the tests is a read past the end of the
-- list.
use lightrec.Base.{
  ℕ, zero, suc, ◌+◌, ◌-◌, Bool, true, false, not, ◌&&◌, ◌||◌, if◌then◌else◌, ltb, Option, none,
  some, List, get_elem?,
}
use lightrec.Isa.{Opcode, op_flag_sync, op_flag_no_ds, op_flag_emulate_branch}
use lightrec.Optimizer.Masks.{opcode_reads_register, opcode_writes_register}
use lightrec.Optimizer.Queries.{has_delay_slot, is_syscall, is_nop}

-- The opcode at an index, if there is one and it passes a test.
abbrev pub at_is : List Opcode → ℕ → (Opcode → Bool) → Bool
at_is list i test = elim (get_elem? list i) [ none ↦ false | some op ↦ test op ]

unfoldable pub is_delay_slot : List Opcode → ℕ → Bool
unfolding op_flag_no_ds has_delay_slot
is_delay_slot list zero = false
is_delay_slot list (suc i) =
    at_is list i λ prev. not (op_flag_no_ds prev.flags) && has_delay_slot prev.c

unfoldable pub should_emulate : Opcode → Bool
unfolding op_flag_emulate_branch has_delay_slot
should_emulate op = op_flag_emulate_branch op.flags && has_delay_slot op.c

-- A search ends at an index, without a result (-1 in the source), or past the end of the list.
pub data Search : Type 0 where
  found : ℕ → Search
  absent : Search
  past_end : Search

-- The loop of `find_prev_writer`, `i` being its variable.
unfoldable pub prev_writer : List Opcode → ℕ → ℕ → Search
unfolding opcode_writes_register opcode_reads_register has_delay_slot op_flag_sync
prev_writer list zero reg = absent
prev_writer list (suc i) reg =
    let rest = prev_writer list i reg in
    elim (get_elem? list i) [
      | none ↦ past_end
      | some op ↦
          if opcode_writes_register op.c reg
          then (if ltb 0 i && at_is list (i - 1) (λ prev. has_delay_slot prev.c)
              then absent
              else found i)
          else if op_flag_sync op.flags || has_delay_slot op.c || opcode_reads_register op.c reg
          then absent
          else rest
    ]

unfoldable pub find_prev_writer : List Opcode → ℕ → ℕ → Search
unfolding prev_writer op_flag_sync
find_prev_writer list offset reg = elim (get_elem? list offset) [
  | none ↦ past_end
  | some op ↦ if op_flag_sync op.flags then absent else prev_writer list offset reg
]

-- The loop of `find_next_reader` has no bound of its own: it ends at the latest past the last of the
-- `n` opcodes that are left.
unfoldable pub next_reader : List Opcode → ℕ → ℕ → ℕ → Search
unfolding opcode_writes_register opcode_reads_register has_delay_slot op_flag_sync op_flag_no_ds
    is_delay_slot
next_reader list zero i reg = past_end
next_reader list (suc n) i reg =
    let rest = next_reader list n (i + 1) reg in
    elim (get_elem? list i) [
      | none ↦ past_end
      | some op ↦
          if opcode_reads_register op.c reg
          then found i
          else if op_flag_sync op.flags
              || op_flag_no_ds op.flags && has_delay_slot op.c
              || is_delay_slot list i
              || opcode_writes_register op.c reg
          then absent
          else rest
    ]

unfoldable pub find_next_reader : List Opcode → ℕ → ℕ → ℕ → Search
unfolding next_reader op_flag_sync
find_next_reader list nb_ops offset reg = elim (get_elem? list offset) [
  | none ↦ past_end
  | some op ↦
      if op_flag_sync op.flags then absent else next_reader list (nb_ops - offset) offset reg
]

-- The branch that ends the loop of `reg_is_dead`, and its delay slot.
unfoldable pub dead_after_branch : List Opcode → ℕ → Opcode → ℕ → Option Bool
unfolding opcode_writes_register opcode_reads_register op_flag_no_ds
dead_after_branch list i op reg =
    if op_flag_no_ds op.flags then some false else elim (get_elem? list (i + 1)) [
      | none ↦ none
      | some slot ↦
          if opcode_reads_register slot.c reg
          then some false
          else some (opcode_writes_register slot.c reg)
    ]

unfoldable pub dead_from : List Opcode → ℕ → ℕ → ℕ → Option Bool
unfolding opcode_writes_register opcode_reads_register is_syscall has_delay_slot dead_after_branch
dead_from list zero i reg = none
dead_from list (suc n) i reg =
    let rest = dead_from list n (i + 1) reg in
    elim (get_elem? list i) [
      | none ↦ none
      | some op ↦
          if opcode_reads_register op.c reg
          then some false
          else if opcode_writes_register op.c reg
          then some true
          else if is_syscall op.c
          then some false
          else if has_delay_slot op.c
          then dead_after_branch list i op reg
          else rest
    ]

unfoldable pub reg_is_dead : List Opcode → ℕ → ℕ → ℕ → Option Bool
unfolding dead_from is_delay_slot op_flag_sync
reg_is_dead list nb_ops offset reg = elim (get_elem? list offset) [
  | none ↦ none
  | some op ↦
      if op_flag_sync op.flags || is_delay_slot list offset
      then some false
      else dead_from list (nb_ops - offset) (offset + 1) reg
]

-- The loops over `n` opcodes from `a` on.
unfoldable pub any_read : List Opcode → ℕ → ℕ → ℕ → Option Bool
unfolding is_nop opcode_reads_register
any_read list zero a reg = some false
any_read list (suc n) a reg =
    let rest = any_read list n (a + 1) reg in
    elim (get_elem? list a) [
      | none ↦ none
      | some op ↦ if not (is_nop op.c) && opcode_reads_register op.c reg then some true else rest
    ]

unfoldable pub any_written : List Opcode → ℕ → ℕ → ℕ → Option Bool
unfolding is_nop opcode_writes_register
any_written list zero a reg = some false
any_written list (suc n) a reg =
    let rest = any_written list n (a + 1) reg in
    elim (get_elem? list a) [
      | none ↦ none
      | some op ↦ if not (is_nop op.c) && opcode_writes_register op.c reg then some true else rest
    ]

unfoldable pub reg_is_read : List Opcode → ℕ → ℕ → ℕ → Option Bool
unfolding any_read
reg_is_read list a b reg = any_read list (b - a) a reg

unfoldable pub reg_is_written : List Opcode → ℕ → ℕ → ℕ → Option Bool
unfolding any_written
reg_is_written list a b reg = any_written list (b - a) a reg

unfoldable pub reg_is_read_or_written : List Opcode → ℕ → ℕ → ℕ → Option Bool
unfolding reg_is_read reg_is_written
reg_is_read_or_written list a b reg = elim (reg_is_read list a b reg) [
  | none ↦ none
  | some yes_read ↦ if yes_read then some true else reg_is_written list a b reg
]
