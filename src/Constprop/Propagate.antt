-- ===== src/Constprop/Propagate.antt =====
-- constprop.c: `lightrec_consts_propagate`, from the array before opcode `idx - 1` to the array
-- before opcode `idx`.
use lightrec.Base.{
  ℕ, zero, suc, ◌-◌, ◌==◌, if◌then◌else◌, ltb, not, ◌&&◌, bit_and, bit_or, List, Option, some, none,
  get_elem?, lnot,
}
use lightrec.Isa.{
  Code, Opcode, Standard, Regimm, rs, rt, op_of, regimm_of, op_flag_sync, op_flag_no_ds,
}
use lightrec.Constprop.Data.{ConstpropData, Consts, set_const, constant}
use lightrec.Constprop.Switch.{standard_case}

-- The part of `struct block` that the pass reads.
pub record Block : Type 0 where
  pub pc : ℕ
  pub opcode_list : List Opcode

-- `value &= ~BIT(31); known |= BIT(31)`, and the same with the bit set.
unfoldable pub top_clear : ConstpropData → ConstpropData
unfolding lnot
top_clear d = record d {
  value = bit_and d.value (lnot 0x80000000);
  known = bit_or d.known 0x80000000;
}

unfoldable pub top_set : ConstpropData → ConstpropData
top_set d = record d { value = bit_or d.value 0x80000000; known = bit_or d.known 0x80000000 }

unfoldable pub regimm_not_taken : Regimm → Code → Consts → Consts
unfolding top_clear top_set set_const
regimm_not_taken Regimm.bltz c v = set_const (rs c) (top_clear (v (rs c))) v
regimm_not_taken Regimm.bltzal c v = set_const (rs c) (top_clear (v (rs c))) v
regimm_not_taken Regimm.bgez c v = set_const (rs c) (top_set (v (rs c))) v
regimm_not_taken Regimm.bgezal c v = set_const (rs c) (top_set (v (rs c))) v
regimm_not_taken _ c v = v

-- What is known because the branch `c` was not taken.
unfoldable pub not_taken : Standard → Code → Consts → Consts
unfolding set_const top_clear regimm_not_taken
not_taken Standard.bne c v =
    if rs c == 0
    then set_const (rt c) (constant 0) v
    else if rt c == 0
    then set_const (rs c) (constant 0) v
    else v
not_taken Standard.blez c v = set_const (rs c) (top_clear (v (rs c))) v
not_taken Standard.regimm c v = regimm_not_taken (regimm_of c) c v
not_taken _ c v = v

-- `memset(&v[1], 0, sizeof(*v) * 31)`.
unfoldable pub forget_all : Consts → Consts
forget_all v = λ i. if i == 0 then v i else record { value = 0; known = 0; sign = 0 }

-- The branch whose delay slot has just run: at `idx - 1` if the two were swapped, else at `idx - 2`.
-- `none` is a read past the end of the opcode list.
unfoldable pub delay_slot_branch : Opcode → Option Opcode → Consts → Option Consts
unfolding not_taken
delay_slot_branch prev (some before) v =
    if op_flag_no_ds prev.flags
    then some (not_taken (op_of prev.c) prev.c v)
    else some (not_taken (op_of before.c) before.c v)
delay_slot_branch prev none v =
    if op_flag_no_ds prev.flags then some (not_taken (op_of prev.c) prev.c v) else none

unfoldable pub after_branch : ℕ → Opcode → Option Opcode → Consts → Option Consts
unfolding delay_slot_branch
after_branch idx prev before v =
    if ltb 1 idx && not (op_flag_sync prev.flags) then delay_slot_branch prev before v else some v

-- The switch over the opcode at `idx - 1`, and the last reset of register 0.
unfoldable pub run_switch : ℕ → ℕ → Opcode → Option Consts → Option Consts
unfolding set_const standard_case
run_switch pc idx prev none = none
run_switch pc idx prev (some v) =
    some (set_const 0 (constant 0) (standard_case (op_of prev.c) pc idx prev.c v))

unfoldable pub propagate_prev : ℕ → ℕ → Option Opcode → Option Opcode → Consts → Option Consts
unfolding after_branch run_switch
propagate_prev pc idx none before v = none
propagate_prev pc idx (some prev) before v = run_switch pc idx prev (after_branch idx prev before v)

unfoldable pub propagate_at :
    ℕ → ℕ → Option Opcode → Option Opcode → Option Opcode → Consts → Option Consts
unfolding forget_all propagate_prev
propagate_at pc idx none prev before v = none
propagate_at pc idx (some cur) prev before v =
    if op_flag_sync cur.flags then some (forget_all v) else propagate_prev pc idx prev before v

unfoldable pub lightrec_consts_propagate : Block → ℕ → Consts → Option Consts
unfolding set_const propagate_at
lightrec_consts_propagate block zero v = some v
lightrec_consts_propagate block (suc i) v =
    let list = block.opcode_list in
    propagate_at block.pc (suc i) (get_elem? list (suc i)) (get_elem? list i)
      (get_elem? list (i - 1)) (set_const 0 (constant 0) v)
