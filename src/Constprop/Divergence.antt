-- ===== src/Constprop/Divergence.antt =====
-- Where an entry of the array says what does not hold of the register: the classes of opcodes that
-- the soundness of the pass leaves out.
use lightrec.Base.{ℕ, suc, ◌^◌, ◌<◌, ◌≡◌, ◌≢◌, arith, true, List, some, bit_and}
use lightrec.Base.Bits.{bit}
use lightrec.Isa.{Opcode}
use lightrec.Interpreter.Link.{get_branch_pc, link_address}
use lightrec.Constprop.Data.{ConstpropData}
use lightrec.Constprop.Shift.{srlv_consts, amount_is_known}
use lightrec.Constprop.Switch.{link_value}
use lightrec.Constprop.Describes.{Describes}

-- SRLV by an amount known to be zero keeps the sign mask of the old target: the new entry is wrong
-- for every shifted value that has, at a bit of that mask, another digit than at bit 31.
pub srlv_zero_stale :
    (s t old : ConstpropData) (y i : ℕ)
    → amount_is_known s ≡ true
    → bit_and s.value 0x1f ≡ 0
    → i < 32
    → bit old.sign i ≡ 1
    → bit y i ≢ bit y 31
    → ¬ Describes (srlv_consts s t old) y
unfolding srlv_consts
srlv_zero_stale s t old y i known zero' hi sign differs d =
    differs (d.copies i hi (rw (known, zero') sign))

-- The entry that a linking jump at index `i` gives its link register is not the return address that
-- the interpreter writes, whether or not the jump was swapped with its delay slot. Conditions: the
-- index is below 2 ^ 16 and the list has an opcode there.
pub link_value-ne-link_address :
    (pc i x : ℕ) (list : List Opcode)
    → i < 2 ^ 16
    → link_address pc list i ≡ some x
    → link_value pc (suc i) ≢ x
unfolding link_address get_branch_pc link_value
link_value-ne-link_address pc i x list small h = ground arith
