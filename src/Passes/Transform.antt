-- ===== src/Passes/Transform.antt =====
-- optimizer.c: `lightrec_transform_ops`.
use lightrec.Base.{
  ℕ, zero, suc, ◌+◌, ◌-◌, ◌==◌, Bool, true, false, not, ◌&&◌, ◌||◌, if◌then◌else◌, Option, none,
  some, List, length, get_elem?, bit_and, bit_xor, sub32, sext16,
}
use lightrec.Isa.{
  Code, Opcode, Standard, Special, i_op, rs, rt, i_imm, op_of, special_of, set_i_op, set_i_imm,
}
use lightrec.Constprop.Data.{Consts, constant}
use lightrec.Constprop.Propagate.{lightrec_consts_propagate}
use lightrec.Optimizer.Search.{Search, found, absent, past_end}
use lightrec.Optimizer.{at_is, is_delay_slot, find_next_reader, has_delay_slot, is_nop}
use lightrec.Passes.KnownZero.{lightrec_patch_known_zero}
use lightrec.Passes.Simplify.{
  Rewrite, replace, nullify, simplify_branch, simplify_add_imm, simplify_andi, simplify_shift_by,
  simplify_shift, simplify_special,
}
use lightrec.Passes.Syncs.{nullify_branch}
use lightrec.Passes.Lui.{lightrec_remove_useless_lui, lightrec_lui_to_movi, lightrec_modify_lui}
use lightrec.Passes.Casts.{Cast, with_code, lightrec_optimize_sll_sra}

unfoldable pub rewrite_at : ℕ → Rewrite → List Opcode → List Opcode
unfolding with_code nullify_branch
rewrite_at i (replace c) list = with_code i c list
rewrite_at i nullify list = nullify_branch i list

-- `is_delay_slot`, and the LUI as it stands at `i`, for each of the three rewrites.
unfoldable pub modify_lui_at : ℕ → List Opcode → List Opcode
unfolding lightrec_modify_lui is_delay_slot
modify_lui_at i list = elim (get_elem? list i) [
  | none ↦ list
  | some op ↦ if is_delay_slot list i then list else lightrec_modify_lui list i op
]

unfoldable pub remove_lui_at : ℕ → Consts → List Opcode → Option (List Opcode)
unfolding lightrec_remove_useless_lui
remove_lui_at i v list = elim (get_elem? list i) [
  | none ↦ none
  | some op ↦ lightrec_remove_useless_lui list i op v
]

unfoldable pub movi_at : ℕ → List Opcode → Option (List Opcode)
unfolding lightrec_lui_to_movi is_delay_slot
movi_at i list = elim (get_elem? list i) [
  | none ↦ none
  | some op ↦ if is_delay_slot list i then some list else lightrec_lui_to_movi list i op
]

unfoldable pub lui_at : ℕ → Consts → List Opcode → Option (List Opcode)
unfolding modify_lui_at remove_lui_at movi_at
lui_at i v list = elim (remove_lui_at i v (modify_lui_at i list)) [
  | none ↦ none
  | some removed ↦ movi_at i removed
]

-- The other half of an unaligned access: `i.op ^ 0x4`, on the same registers, three bytes off.
unfoldable pub is_other_half : Code → Code → Bool
unfolding i_op sub32 sext16
is_other_half c d =
    let apart = sub32 (sext16 (i_imm c)) (sext16 (i_imm d)) in
    i_op d == bit_xor (i_op c) 0x4
    && rs d == rs c
    && rt d == rt c
    && (apart == 3 || apart == 0xfffffffd)

-- LWL and SWL have the higher address of the two.
unfoldable pub to_unaligned : ℕ → Bool → Code → Code
unfolding set_i_op set_i_imm sub32
to_unaligned meta left c = set_i_op meta (if left then set_i_imm (sub32 (i_imm c) 3) c else c)

unfoldable pub join_halves : ℕ → ℕ → Bool → Code → List Opcode → Search → Option (List Opcode)
unfolding is_other_half to_unaligned with_code
join_halves i meta left c list past_end = none
join_halves i meta left c list absent = some list
join_halves i meta left c list (found zero) = some list
join_halves i meta left c list (found idx) = elim (get_elem? list idx) [
  | none ↦ none
  | some other ↦
      if is_other_half c other.c
      then some (with_code idx 0 (with_code i (to_unaligned meta left c) list))
      else some list
]

-- LWL, LWR, SWL and SWR; `meta` is `OP_META_LWU` or `OP_META_SWU`.
unfoldable pub unaligned_at : ℕ → ℕ → Bool → Code → List Opcode → Option (List Opcode)
unfolding has_delay_slot find_next_reader join_halves
unaligned_at i meta left c list =
    let joined =
      join_halves i meta left c list (find_next_reader list (length list) (i + 1) (rt c)) in
    if not (i == 0) && at_is list (i - 1) (λ prev. has_delay_slot prev.c) then some list else joined

-- A shift left, once it has its amount as an immediate.
unfoldable pub shift_left_at : ℕ → Code → Cast → Option Cast
unfolding with_code lightrec_optimize_sll_sra
shift_left_at i c cast =
    lightrec_optimize_sll_sra i c (record cast { list = with_code i c cast.list })

unfoldable pub special_at : Special → ℕ → Code → Cast → Option Cast
unfolding shift_left_at simplify_shift simplify_shift_by simplify_special with_code
special_at Special.sll i c cast = shift_left_at i (simplify_shift c) cast
special_at Special.sllv i c cast =
    let v = cast.consts in
    if bit_and (v (rs c)).known 0x1f == 0x1f
    then shift_left_at i (simplify_shift_by 0x00 v c) cast
    else some cast
special_at s i c cast =
    some (record cast { list = with_code i (simplify_special s cast.consts c) cast.list })

abbrev with_list : Cast → Option (List Opcode) → Option Cast
with_list cast none = none
with_list cast (some list) = some (record cast { list = list })

-- The switch on the opcode.
unfoldable pub transform_at : Standard → ℕ → Code → Cast → Option Cast
unfolding rewrite_at simplify_branch lui_at simplify_add_imm simplify_andi unaligned_at special_at
    with_code
transform_at Standard.lui i c cast = with_list cast (lui_at i cast.consts cast.list)
transform_at Standard.ori i c cast =
    some (record cast { list = with_code i (simplify_add_imm c) cast.list })
transform_at Standard.addi i c cast =
    some (record cast { list = with_code i (simplify_add_imm c) cast.list })
transform_at Standard.addiu i c cast =
    some (record cast { list = with_code i (simplify_add_imm c) cast.list })
transform_at Standard.andi i c cast =
    some (record cast { list = with_code i (simplify_andi cast.consts c) cast.list })
transform_at Standard.lwl i c cast = with_list cast (unaligned_at i 0x1b true c cast.list)
transform_at Standard.lwr i c cast = with_list cast (unaligned_at i 0x1b false c cast.list)
transform_at Standard.swl i c cast = with_list cast (unaligned_at i 0x1c true c cast.list)
transform_at Standard.swr i c cast = with_list cast (unaligned_at i 0x1c false c cast.list)
transform_at Standard.special i c cast = special_at (special_of c) i c cast
transform_at o i c cast =
    some (record cast { list = rewrite_at i (simplify_branch o cast.consts c) cast.list })

-- "Transform all opcodes detected as useless to real NOPs".
unfoldable pub clear_nop : ℕ → Code → List Opcode → List Opcode
unfolding is_nop has_delay_slot nullify_branch with_code
clear_nop i c list =
    if not (c == 0) && is_nop c
    then (if has_delay_slot c then nullify_branch i list else with_code i 0 list)
    else list

-- What follows the propagation for opcode `op` at `i`.
unfoldable pub transform_known : ℕ → Opcode → Cast → Option Cast
unfolding lightrec_patch_known_zero clear_nop with_code transform_at
transform_known i op cast =
    let patched = lightrec_patch_known_zero cast.consts op.c in
    let list = clear_nop i patched (with_code i patched cast.list) in
    elim (get_elem? list i) [
      | none ↦ none
      | some now ↦
          if now.c == 0
          then some (record cast { list = list })
          else transform_at (op_of now.c) i now.c (record cast { list = list })
    ]

-- One round of the loop.
unfoldable pub transform_round : ℕ → ℕ → Cast → Option Cast
unfolding lightrec_consts_propagate transform_known
transform_round pc i cast =
    elim (lightrec_consts_propagate (record { pc = pc; opcode_list = cast.list }) i cast.consts) [
      | none ↦ none
      | some v ↦ elim (get_elem? cast.list i) [
        | none ↦ none
        | some op ↦ transform_known i op (record cast { consts = v })
      ]
    ]

unfoldable pub rounds_from : ℕ → ℕ → ℕ → Cast → Option Cast
unfolding transform_round
rounds_from pc zero i cast = some cast
rounds_from pc (suc n) i cast = elim (transform_round pc i cast) [
  | none ↦ none
  | some next ↦ rounds_from pc n (i + 1) next
]

-- `LIGHTREC_CONSTPROP_INITIALIZER`: register 0 is known, the others are not.
unfoldable pub initial_consts : Consts
initial_consts = λ r. if r == 0 then constant 0 else record { value = 0; known = 0; sign = 0 }

-- `none` is a read past the end of the list.
unfoldable pub lightrec_transform_ops : ℕ → List Opcode → Option Cast
unfolding rounds_from initial_consts
lightrec_transform_ops pc list =
    rounds_from pc (length list) 0 (record { list = list; consts = initial_consts })
