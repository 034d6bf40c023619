-- ===== src/Passes/Marks.antt =====
-- optimizer.c: the passes that flag the load delays and the branches in delay slots.
use lightrec.Base.{
  ℕ, zero, suc, ◌+◌, ◌-◌, Bool, true, false, not, ◌&&◌, ◌||◌, ◌==◌, if◌then◌else◌, ltb, none, some,
  List, [], ◌∷◌, length, get_elem?, bit_or, add32, sext16, is_neg,
}
use lightrec.Isa.{Opcode, Standard, Cp0, rt, i_imm, op_of, cp0_of}
use lightrec.Optimizer.{
  at_is, is_delay_slot, has_delay_slot, opcode_has_load_delay, opcode_reads_register,
}

-- A write to one place of the array.
unfoldable pub update_at : ℕ → (Opcode → Opcode) → List Opcode → List Opcode
update_at i f [] = []
update_at zero f (op ∷ list) = f op ∷ list
update_at (suc i) f (op ∷ list) = op ∷ update_at i f list

unfoldable pub add_flags : ℕ → Opcode → Opcode
add_flags flags op = record op { flags = bit_or op.flags flags }

unfoldable pub is_conditional_branch : Standard → Bool
is_conditional_branch Standard.beq = true
is_conditional_branch Standard.bne = true
is_conditional_branch Standard.blez = true
is_conditional_branch Standard.bgtz = true
is_conditional_branch Standard.regimm = true
is_conditional_branch _ = false

-- `offset` is an `s32`.
unfoldable pub is_local_branch : List Opcode → ℕ → Bool
unfolding is_conditional_branch add32 sext16 is_neg
is_local_branch list idx = at_is list idx λ op.
    let offset = add32 (idx + 1) (sext16 (i_imm op.c)) in
    is_conditional_branch (op_of op.c) && not (is_neg offset) && ltb offset (length list)

-- Whether the load at `i` goes without the flag: the branch before it stays in the block, and its
-- target does not read the register.
unfoldable pub target_ignores : List Opcode → ℕ → Opcode → Bool
unfolding is_local_branch opcode_reads_register add32 sext16
target_ignores list i op =
    is_local_branch list (i - 1)
    && at_is list (i - 1) λ branch.
      at_is list (add32 i (sext16 (i_imm branch.c)))
        λ target. not (opcode_reads_register target.c (rt op.c))

unfoldable pub mark_load_delay : List Opcode → ℕ → Opcode → Opcode
unfolding opcode_has_load_delay is_delay_slot target_ignores add_flags
mark_load_delay list i op =
    if opcode_has_load_delay op.c && is_delay_slot list i && not (target_ignores list i op)
    then add_flags 0x8 op
    else op

unfoldable pub load_delays_from : ℕ → ℕ → List Opcode → List Opcode
unfolding update_at mark_load_delay
load_delays_from zero i list = list
load_delays_from (suc n) i list =
    load_delays_from n (i + 1) (update_at i (mark_load_delay list i) list)

unfoldable pub lightrec_handle_load_delays : List Opcode → List Opcode
unfolding load_delays_from
lightrec_handle_load_delays list = load_delays_from (length list) 0 list

is_rfe_of : Standard → Cp0 → Bool
is_rfe_of Standard.cp0 Cp0.rfe = true
is_rfe_of _ c = false

-- `OPT_LOCAL_BRANCHES` is on.
unfoldable pub impossible_at : ℕ → Opcode → Opcode → List Opcode → List Opcode
unfolding has_delay_slot is_rfe_of update_at add_flags
impossible_at i op next list =
    if not (has_delay_slot op.c)
      || not (has_delay_slot next.c) && not (is_rfe_of (op_of next.c) (cp0_of next.c))
    then list
    else if op.c == next.c
    then update_at (i + 1) (λ slot. record slot { c = 0 }) list
    else update_at (i + 2) (add_flags 0x2) (update_at i (add_flags 0x8) list)

unfoldable pub impossible_from : ℕ → ℕ → List Opcode → List Opcode
unfolding impossible_at
impossible_from zero i list = list
impossible_from (suc n) i list =
    let marked : List Opcode = elim (get_elem? list i) [
      | none ↦ list
      | some op ↦ elim (get_elem? list (i + 1)) [
        | none ↦ list
        | some next ↦ impossible_at i op next list
      ]
    ] in
    impossible_from n (i + 1) marked

-- On a block that has an opcode: `nb_ops - 1` of an empty one wraps.
unfoldable pub lightrec_detect_impossible_branches : List Opcode → List Opcode
unfolding impossible_from
lightrec_detect_impossible_branches list = impossible_from (length list - 1) 0 list
