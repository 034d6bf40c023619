-- ===== src/DelaySlots/Pass.antt =====
-- optimizer-delay-slots.c: the pass over the opcode list.
use lightrec.Base.{
  Bool, false, not, ◌&&◌, ◌||◌, ◌==◌, if◌then◌else◌, Option, none, some, List, [], ◌∷◌, bit_and,
  bit_or, lnot,
}
use lightrec.Isa.{Opcode, op_flag_no_ds, op_flag_sync, op_flag_emulate_branch, op_flag_load_delay}
use lightrec.Optimizer.{has_delay_slot, opcode_has_load_delay}
use lightrec.DelaySlots.Allow.{lightrec_can_switch_delay_slot}

-- `is_delay_slot`, from the opcode before, if there is one.
unfoldable pub follows_branch : Option Opcode → Bool
unfolding op_flag_no_ds has_delay_slot
follows_branch none = false
follows_branch (some prev) = not (op_flag_no_ds prev.flags) && has_delay_slot prev.c

-- The tests of one round that end in `continue`.
unfoldable pub skips_switch : Option Opcode → Opcode → Opcode → Bool
unfolding op_flag_no_ds op_flag_emulate_branch op_flag_sync op_flag_load_delay has_delay_slot
    follows_branch opcode_has_load_delay lightrec_can_switch_delay_slot
skips_switch prev op next =
    not (has_delay_slot op.c)
    || op_flag_no_ds op.flags
    || op_flag_emulate_branch op.flags
    || op.c == 0
    || next.c == 0
    || follows_branch prev
    || op_flag_sync next.flags
    || op_flag_load_delay next.flags && opcode_has_load_delay next.c
    || not (lightrec_can_switch_delay_slot op.c next.c)

-- What the round leaves at the place of the branch, and at the place of the slot.
unfoldable pub moved_up : Opcode → Opcode → Opcode
moved_up op next = record {
  c = next.c;
  flags = bit_or (bit_or next.flags (bit_and op.flags 0x2)) 0x1;
  source_pc = next.source_pc;
}

unfoldable pub moved_down : Opcode → Opcode → Opcode
unfolding lnot
moved_down op next = record {
  c = op.c;
  flags = bit_and (bit_or op.flags 0x1) (lnot 0x2);
  source_pc = op.source_pc;
}

unfoldable pub switch_round : Option Opcode → Opcode → Opcode → Opcode × Opcode
unfolding skips_switch moved_up moved_down
switch_round prev op next =
    if skips_switch prev op next then (op, next) else (moved_up op next, moved_down op next)

-- The loop: `op` stands at index `i`, `prev` at `i - 1`.
unfoldable pub switch_from : Option Opcode → Opcode → List Opcode → List Opcode
unfolding switch_round
switch_from prev op [] = op ∷ []
switch_from prev op (next ∷ rest) =
    let r = switch_round prev op next in r.0 ∷ switch_from (some r.0) r.1 rest

-- On a block that has an opcode: `nb_ops - 1` of an empty one wraps.
unfoldable pub lightrec_switch_delay_slots : List Opcode → List Opcode
unfolding switch_from
lightrec_switch_delay_slots [] = []
lightrec_switch_delay_slots (op ∷ rest) = switch_from none op rest
