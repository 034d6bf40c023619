-- ===== src/Passes/Syncs.antt =====
-- optimizer.c: the flags that a nullified branch takes with it.
use lightrec.Base.{
  ℕ, zero, suc, ◌+◌, not, ◌&&◌, if◌then◌else◌, ltb, none, some, List, [], ◌∷◌, length, get_elem?,
  bit_and, lnot, add32, sub32, sext16,
}
use lightrec.Isa.{
  Opcode, i_imm, op_of, op_flag_no_ds, op_flag_local_branch, op_flag_emulate_branch,
  op_flag_load_delay,
}
use lightrec.Optimizer.{has_delay_slot, opcode_is_load_of}
use lightrec.Passes.Marks.{update_at, add_flags}

-- `flags &= ~mask`.
unfoldable pub remove_flags : ℕ → Opcode → Opcode
unfolding lnot
remove_flags mask op = record op { flags = bit_and op.flags (lnot mask) }

unfoldable pub remove_all_syncs : List Opcode → List Opcode
unfolding remove_flags
remove_all_syncs [] = []
remove_all_syncs (op ∷ list) = remove_flags 0x2 op ∷ remove_all_syncs list

unfoldable pub sync_target : ℕ → Opcode → List Opcode → List Opcode
unfolding update_at add_flags op_flag_no_ds op_flag_local_branch add32 sub32 sext16
sync_target i op list =
    let first : ℕ = if op_flag_no_ds op.flags then i else i + 1 in
    if op_flag_local_branch op.flags
    then update_at (add32 first (sext16 (i_imm op.c))) (add_flags 0x2) list
    else list

unfoldable pub sync_at : ℕ → Opcode → List Opcode → List Opcode
unfolding sync_target update_at add_flags has_delay_slot op_flag_emulate_branch
sync_at i op list =
    let targeted = sync_target i op list in
    if not (has_delay_slot op.c)
    then list
    else if op_flag_emulate_branch op.flags && ltb (i + 2) (length list)
    then update_at (i + 2) (add_flags 0x2) targeted
    else targeted

-- The second loop, over `n` opcodes from `i` on.
unfoldable pub sync_from : ℕ → ℕ → List Opcode → List Opcode
unfolding sync_at
sync_from zero i list = list
sync_from (suc n) i list =
    let next : List Opcode = elim (get_elem? list i) [
      | none ↦ list
      | some op ↦ sync_at i op list
    ] in
    sync_from n (i + 1) next

unfoldable pub lightrec_reset_syncs : List Opcode → List Opcode
unfolding remove_all_syncs sync_from
lightrec_reset_syncs list = sync_from (length list) 0 (remove_all_syncs list)

unfoldable pub maybe_remove_load_delay : Opcode → Opcode
unfolding remove_flags op_flag_load_delay opcode_is_load_of
maybe_remove_load_delay op =
    if op_flag_load_delay op.flags && opcode_is_load_of (op_of op.c)
    then remove_flags 0x8 op
    else op

unfoldable pub cleared : Opcode → Opcode
cleared op = record op { c = 0; flags = 0 }

-- `nullify_branch` on the branch `op` at `offset`. An update past the end changes nothing.
unfoldable pub nullify_at : ℕ → Opcode → List Opcode → List Opcode
unfolding update_at maybe_remove_load_delay cleared lightrec_reset_syncs op_flag_no_ds
    op_flag_local_branch
nullify_at offset op list =
    let released =
      if op_flag_no_ds op.flags
      then list
      else update_at (offset + 1) maybe_remove_load_delay list in
    let gone = update_at offset cleared released in
    if op_flag_local_branch op.flags then lightrec_reset_syncs gone else gone

unfoldable pub nullify_branch : ℕ → List Opcode → List Opcode
unfolding nullify_at
nullify_branch offset list = elim (get_elem? list offset) [
  | none ↦ list
  | some op ↦ nullify_at offset op list
]
