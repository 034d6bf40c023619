-- ===== src/Passes/Lui.antt =====
-- optimizer.c: the rewrites of LUI.
use lightrec.Base.{
  ℕ, zero, suc, ◌+◌, ◌-◌, ◌/◌, ◌^◌, ◌==◌, Bool, true, false, not, ◌&&◌, ◌||◌, if◌then◌else◌, Option,
  none, some, List, length, get_elem?, shl,
}
use lightrec.Blockcache.Geometry.{kunseg}
use lightrec.Isa.{
  Opcode, Standard, rs, rt, i_imm, op_of, op_flag_sync, op_flag_load_delay, set_rs, set_rt,
  set_i_imm,
}
use lightrec.Constprop.Data.{Consts, is_known}
use lightrec.Optimizer.Search.{Search, found, absent, past_end}
use lightrec.Optimizer.{
  is_delay_slot, find_next_reader, reg_is_dead, has_delay_slot, opcode_is_load_of,
  opcode_is_store_of, opcode_reads_register, opcode_writes_register,
}
use lightrec.Passes.Marks.{update_at, add_flags}

abbrev pub is_special : Standard → Bool
is_special Standard.special = true
is_special _ = false

abbrev pub is_lui : Standard → Bool
is_lui Standard.lui = true
is_lui _ = false

abbrev pub is_partial_load : Standard → Bool
is_partial_load Standard.lwl = true
is_partial_load Standard.lwr = true
is_partial_load _ = false

-- The opcode at an index becomes the no-op `0`.
unfoldable pub to_nop : Opcode → Opcode
to_nop op = record op { c = 0 }

-- "Removing useless LUI 0x0": the reader takes register 0.
unfoldable pub read_zero : ℕ → Opcode → Opcode
unfolding set_rs set_rt
read_zero reg op =
    let c = if rs op.c == reg then set_rs 0 op.c else op.c in
    record op { c = if is_special (op_of c) && rt c == reg then set_rt 0 c else c }

-- The end of `lightrec_remove_useless_lui`, with what the search found. `none` is a read past the end
-- of the list.
unfoldable pub remove_zero_lui : List Opcode → ℕ → ℕ → Search → Option (List Opcode)
unfolding opcode_writes_register reg_is_dead read_zero to_nop update_at
remove_zero_lui list offset reg past_end = none
remove_zero_lui list offset reg absent = some list
remove_zero_lui list offset reg (found zero) = some list
remove_zero_lui list offset reg (found reader) =
    let removed = update_at offset to_nop (update_at reader (read_zero reg) list) in
    elim (get_elem? list reader) [
      | none ↦ none
      | some op ↦
          if opcode_writes_register op.c reg
          then some removed
          else elim (reg_is_dead list (length list) reader reg) [
            | none ↦ none
            | some dead ↦ if dead then some removed else some list
          ]
    ]

unfoldable pub lightrec_remove_useless_lui :
    List Opcode → ℕ → Opcode → Consts → Option (List Opcode)
unfolding op_flag_sync is_known shl update_at to_nop is_delay_slot find_next_reader remove_zero_lui
lightrec_remove_useless_lui list offset op v =
    let reg = rt op.c in
    let removed =
      remove_zero_lui list offset reg (find_next_reader list (length list) (offset + 1) reg) in
    if not (op_flag_sync op.flags) && is_known v reg && (v reg).value == shl (i_imm op.c) 16
    then some (update_at offset to_nop list)
    else if not (i_imm op.c == 0) || reg == 0 || is_delay_slot list offset
    then some list
    else removed

-- Whether the reader of a LUI may take its value as one constant with its own immediate.
unfoldable pub takes_movi : Standard → ℕ → Bool
unfolding op_flag_load_delay
takes_movi Standard.lb flags = not (op_flag_load_delay flags)
takes_movi Standard.lh flags = not (op_flag_load_delay flags)
takes_movi Standard.lwl flags = not (op_flag_load_delay flags)
takes_movi Standard.lw flags = not (op_flag_load_delay flags)
takes_movi Standard.lbu flags = not (op_flag_load_delay flags)
takes_movi Standard.lhu flags = not (op_flag_load_delay flags)
takes_movi Standard.lwr flags = not (op_flag_load_delay flags)
takes_movi Standard.meta_lwu flags = not (op_flag_load_delay flags)
takes_movi Standard.ori flags = true
takes_movi Standard.addi flags = true
takes_movi Standard.addiu flags = true
takes_movi _ flags = false

unfoldable pub flag_movi : List Opcode → ℕ → Search → Option (List Opcode)
unfolding takes_movi update_at add_flags
flag_movi list offset past_end = none
flag_movi list offset absent = some list
flag_movi list offset (found zero) = some list
flag_movi list offset (found next) = elim (get_elem? list next) [
  | none ↦ none
  | some ori ↦
      if takes_movi (op_of ori.c) ori.flags && rs ori.c == rt ori.c && not (i_imm ori.c == 0)
      then some (update_at offset (add_flags 0x4) (update_at next (add_flags 0x4) list))
      else some list
]

unfoldable pub lightrec_lui_to_movi : List Opcode → ℕ → Opcode → Option (List Opcode)
unfolding find_next_reader flag_movi
lightrec_lui_to_movi list offset lui =
    let flagged =
      flag_movi list offset (find_next_reader list (length list) (offset + 1) (rt lui.c)) in
    if is_lui (op_of lui.c) then flagged else some list

-- The immediate of an address in kuseg.
unfoldable pub to_kuseg : Opcode → Opcode
unfolding kunseg shl set_i_imm
to_kuseg lui = record lui { c = set_i_imm (kunseg (shl (i_imm lui.c) 16) / 2 ^ 16) lui.c }

-- The loop of `lightrec_modify_lui`, over `n` opcodes from `i` on: whether the LUI is converted.
unfoldable pub modify_from : List Opcode → ℕ → ℕ → ℕ → Bool → Bool
unfolding opcode_is_store_of opcode_is_load_of opcode_reads_register opcode_writes_register
    has_delay_slot
modify_from list zero i reg stop = false
modify_from list (suc n) i reg stop = elim (get_elem? list i) [
  | none ↦ false
  | some op ↦
      let rest = if stop then false else modify_from list n (i + 1) reg (has_delay_slot op.c) in
      if opcode_is_store_of (op_of op.c) && rt op.c == reg
        || not (opcode_is_load_of (op_of op.c)) && opcode_reads_register op.c reg
      then false
      else if opcode_writes_register op.c reg
      then not (is_partial_load (op_of op.c))
      else rest
]

unfoldable pub lightrec_modify_lui : List Opcode → ℕ → Opcode → List Opcode
unfolding modify_from update_at to_kuseg
lightrec_modify_lui list offset lui =
    if modify_from list (length list - (offset + 1)) (offset + 1) (rt lui.c) false
    then update_at offset to_kuseg list
    else list
