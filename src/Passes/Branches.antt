-- ===== src/Passes/Branches.antt =====
-- optimizer.c: `lightrec_transform_branches`.
use lightrec.Base.{
  ℕ, ◌+◌, ◌*◌, ◌/◌, ◌%◌, ◌^◌, Bool, ◌==◌, if◌then◌else◌, Option, none, some, List, [], ◌∷◌, bit_and,
  bit_or, sub32, sext16, u32,
}
use lightrec.Isa.{Code, Opcode, Standard, j_imm, op_of}
use lightrec.DelaySlots.{follows_branch}

-- `offset`, an `s32` by its pattern.
unfoldable pub jump_offset : ℕ → ℕ → Code → ℕ
unfolding sub32 j_imm u32
jump_offset pc i c =
    sub32 (sub32 (sub32 (bit_or (bit_and pc 0xf0000000 / 2 ^ 2) (j_imm c)) (pc / 2 ^ 2)) (u32 i)) 1

-- `beq $zero, $zero` with the low half of the offset.
unfoldable pub branch_always : ℕ → Code
branch_always offset = 4 * 2 ^ 26 + offset % 2 ^ 16

unfoldable pub transform_jump : ℕ → ℕ → Code → Code
unfolding jump_offset branch_always sext16
transform_jump pc i c =
    let offset = jump_offset pc i c in if sext16 offset == offset then branch_always offset else c

unfoldable pub transform_of : Standard → Bool → ℕ → ℕ → Code → Code
unfolding transform_jump
transform_of Standard.j slot pc i c = if slot then c else transform_jump pc i c
transform_of _ slot pc i c = c

unfoldable pub transform_op : ℕ → Option Opcode → ℕ → Opcode → Opcode
unfolding transform_of follows_branch
transform_op pc prev i op = record op {
  c = transform_of (op_of op.c) (follows_branch prev) pc i op.c;
}

-- The loop from index `i` on; `prev` stands before it.
unfoldable pub transform_from : ℕ → Option Opcode → ℕ → List Opcode → List Opcode
unfolding transform_op
transform_from pc prev i [] = []
transform_from pc prev i (op ∷ rest) =
    transform_op pc prev i op ∷ transform_from pc (some (transform_op pc prev i op)) (i + 1) rest

unfoldable pub lightrec_transform_branches : ℕ → List Opcode → List Opcode
unfolding transform_from
lightrec_transform_branches pc list = transform_from pc none 0 list
