-- ===== src/DelaySlots/Allow.antt =====
-- optimizer-delay-slots.c: whether a branch may change places with its delay slot.
use lightrec.Base.{ℕ, Bool, true, false, not, ◌&&◌, ◌||◌, ◌==◌, if◌then◌else◌}
use lightrec.Isa.{Code, Standard, Special, Regimm, rs, rt, rd, op_of, special_of, regimm_of}
use lightrec.Optimizer.{opcode_reads_register, opcode_writes_register}

-- `OP_SPECIAL_SYSCALL` and `OP_SPECIAL_BREAK`.
unfoldable pub is_trap_of : Standard → Special → Bool
is_trap_of Standard.special Special.syscall = true
is_trap_of Standard.special Special.break = true
is_trap_of _ s = false

unfoldable pub touches : Code → ℕ → Bool
unfolding opcode_reads_register opcode_writes_register
touches next r = opcode_reads_register next r || opcode_writes_register next r

-- The tests of the form `op.i.rs && opcode_writes_register(next_op, op.i.rs)`.
unfoldable pub overwrites : Code → ℕ → Bool
unfolding opcode_writes_register
overwrites next r = not (r == 0) && opcode_writes_register next r

unfoldable pub can_switch_special : Special → Code → Code → Bool
unfolding touches opcode_writes_register
can_switch_special Special.jalr c next =
    if touches next (rd c) then false else not (opcode_writes_register next (rs c))
can_switch_special Special.jr c next = not (opcode_writes_register next (rs c))
can_switch_special _ c next = true

unfoldable pub can_switch_regimm : Regimm → Code → Code → Bool
unfolding touches overwrites
can_switch_regimm Regimm.bltzal c next =
    if touches next 31 then false else not (overwrites next (rs c))
can_switch_regimm Regimm.bgezal c next =
    if touches next 31 then false else not (overwrites next (rs c))
can_switch_regimm Regimm.bltz c next = not (overwrites next (rs c))
can_switch_regimm Regimm.bgez c next = not (overwrites next (rs c))
can_switch_regimm _ c next = true

unfoldable pub can_switch_of : Standard → Code → Code → Bool
unfolding can_switch_special can_switch_regimm touches overwrites
can_switch_of Standard.special c next = can_switch_special (special_of c) c next
can_switch_of Standard.jal c next = not (touches next 31)
can_switch_of Standard.beq c next =
    if overwrites next (rt c) then false else not (overwrites next (rs c))
can_switch_of Standard.bne c next =
    if overwrites next (rt c) then false else not (overwrites next (rs c))
can_switch_of Standard.blez c next = not (overwrites next (rs c))
can_switch_of Standard.bgtz c next = not (overwrites next (rs c))
can_switch_of Standard.regimm c next = can_switch_regimm (regimm_of c) c next
can_switch_of _ c next = true

unfoldable pub lightrec_can_switch_delay_slot : Code → Code → Bool
unfolding is_trap_of can_switch_of
lightrec_can_switch_delay_slot c next =
    if is_trap_of (op_of next) (special_of next) then false else can_switch_of (op_of c) c next
