-- ===== src/Passes/JumpTarget.antt =====
-- optimizer.c against interpreter.c: a jump that becomes a branch goes where it went.
use lightrec.Base.{
  ℕ, ◌+◌, ◌-◌, ◌*◌, ◌/◌, ◌%◌, ◌^◌, ◌<◌, ◌≡◌, true, ◌==◌, ◌∙◌, arith, IsU32, bit_and, bit_or, add32,
  sub32, shl, sext16, u32, xor, refl, sym, inl, inr, Bool-cases, ==_refl, ==_iff, ◌⊎◌,
}
use lightrec.Base.Bits.{bit-bit_or, eq_of_bits, bit_or-lt}
use lightrec.Base.Bits.Fields.{bit_and-field, bit_or-apart}
use lightrec.Isa.{Code, Standard, op_of, i_op, rs, rt, i_imm, j_imm}
use lightrec.Interpreter.Regs.{Gpr}
use lightrec.Interpreter.Branch.{branch_condition, int_beq}
use lightrec.Interpreter.Link.{jump_target, branch_target}
use lightrec.Passes.Branches.{jump_offset, branch_always, transform_jump}

top_nibble : (x : ℕ) → IsU32 x → bit_and x 0xf0000000 ≡ x / 2 ^ 28 * 2 ^ 28
top_nibble x h = bit_and-field 28 4 (omega arith) x (omega arith) (omega arith) ∙ omega arith

or_comm : (a b : ℕ) → IsU32 a → IsU32 b → bit_or a b ≡ bit_or b a
or_comm a b ha hb =
    eq_of_bits 32 (bit_or a b) (bit_or b a) (bit_or-lt a b ha hb) (bit_or-lt b a hb ha)
      λ i hi. omega (arith, bit-bit_or a b i, bit-bit_or b a i)

-- `high` as a multiple of a power, over a field below it.
or_high :
    (k a b : ℕ)
    → IsU32 a
    → a + b * 2 ^ k < 2 ^ 32
    → (a + b * 2 ^ k) % 2 ^ k ≡ a
    → (a + b * 2 ^ k) / 2 ^ k ≡ b
    → bit_or (b * 2 ^ k) a ≡ a + b * 2 ^ k
or_high k a b ha small low high =
    or_comm (b * 2 ^ k) a (omega arith) ha ∙ bit_or-apart k a b small low high

-- The region of the block, over the immediate of the jump, in words and in bytes.
region :
    (pc : ℕ) (c : Code)
    → IsU32 pc
    → bit_or (bit_and pc 0xf0000000 / 2 ^ 2) (j_imm c) ≡ j_imm c + pc / 2 ^ 28 * 2 ^ 26
unfolding j_imm
region pc c h =
    let e : pc / 2 ^ 28 * 2 ^ 28 / 2 ^ 2 ≡ pc / 2 ^ 28 * 2 ^ 26 = omega arith in
    rw (top_nibble pc h, e)
      (or_high 26 (c % 2 ^ 26) (pc / 2 ^ 28) (omega arith) (omega arith) (omega arith)
        (omega arith))

target_value :
    (old_pc : ℕ) (c : Code)
    → IsU32 old_pc
    → jump_target old_pc c ≡ j_imm c * 4 + old_pc / 2 ^ 28 * 2 ^ 28
unfolding jump_target j_imm
target_value old_pc c h = rw (top_nibble old_pc h) (
    or_high 28 (c % 2 ^ 26 * 4) (old_pc / 2 ^ 28) (omega arith) (omega arith) (omega arith)
      (omega arith))

offset_value :
    (pc i : ℕ) (c : Code)
    → IsU32 pc
    → jump_offset pc i c
      ≡ (j_imm c + pc / 2 ^ 28 * 2 ^ 26 + 3 * 2 ^ 32 - pc / 4 - i % 2 ^ 32 - 1) % 2 ^ 32
unfolding jump_offset sub32 u32
offset_value pc i c h = rw (region pc c h) (omega arith)

-- The fields of `beq $zero, $zero`.
always_fields :
    (offset : ℕ)
    → (op_of (branch_always offset) ≡ Standard.beq)
      × (rs (branch_always offset) ≡ 0)
      × (rt (branch_always offset) ≡ 0)
      × (i_imm (branch_always offset) ≡ offset % 2 ^ 16)
unfolding branch_always op_of rs rt i_imm i_op
always_fields offset = (op, omega arith, omega arith, omega arith)
  where
    op : op_of (branch_always offset) ≡ Standard.beq
    op = let e : (4 * 2 ^ 26 + offset % 2 ^ 16) / 2 ^ 26 % 2 ^ 6 ≡ 4 = omega arith in rw e refl

sext16_mod : (x : ℕ) → sext16 (x % 2 ^ 16) ≡ sext16 x
unfolding sext16
sext16_mod x = let e : x % 2 ^ 16 % 2 ^ 16 ≡ x % 2 ^ 16 = omega arith in rw e refl

-- The arithmetic of the two targets, in words.
same_place :
    (pc i j offset : ℕ)
    → IsU32 pc
    → pc % 4 ≡ 0
    → (pc + i * 4) / 2 ^ 28 ≡ pc / 2 ^ 28
    → offset ≡ (j + pc / 2 ^ 28 * 2 ^ 26 + 3 * 2 ^ 32 - pc / 4 - i % 2 ^ 32 - 1) % 2 ^ 32
    → j < 2 ^ 26
    → ((pc + i * 4 + 4) % 2 ^ 32 + offset * 2 ^ 2 % 2 ^ 32) % 2 ^ 32
      ≡ j * 4 + (pc + i * 4) / 2 ^ 28 * 2 ^ 28
same_place pc i j offset h a region e small = omega arith

j_imm-lt : (c : Code) → j_imm c < 2 ^ 26
unfolding j_imm
j_imm-lt c = omega arith

-- A `j` at index `i` of a block is left as it is, or it becomes a branch that is always taken, to the
-- address that the jump went to. Conditions: the address of the block is a multiple of four, and the
-- jump lies in the same region of 256 megabytes as the start of its block.
pub transform_jump-target :
    (pc i : ℕ) (c : Code) (g : Gpr)
    → IsU32 pc
    → pc % 4 ≡ 0
    → (pc + i * 4) / 2 ^ 28 ≡ pc / 2 ^ 28
    → (transform_jump pc i c ≡ c)
      ⊎ (branch_condition (op_of (transform_jump pc i c)) (transform_jump pc i c) g ≡ true)
        × (branch_target (pc + i * 4) (transform_jump pc i c) ≡ jump_target (pc + i * 4) c)
unfolding transform_jump branch_target jump_target
transform_jump-target pc i c g h four region_of =
    elim (Bool-cases (sext16 (jump_offset pc i c) == jump_offset pc i c)) [
      | inr n ↦ inl (rw n refl)
      | inl y ↦ inr (
        rw (y, f.0) taken,
        rw
            (
              y,
              branch_target,
              f.3,
              sext16_mod,
              (==_iff (sext16 (jump_offset pc i c)) (jump_offset pc i c)).0 y,
            )
            (unfold add32 shl in
              same_place pc i (j_imm c) (jump_offset pc i c) h four region_of
                (offset_value pc i c h) (j_imm-lt c)
              ∙ sym (target_value (pc + i * 4) c (omega arith))),
      )
    ]
  where
    f :
        (op_of (branch_always (jump_offset pc i c)) ≡ Standard.beq)
        × (rs (branch_always (jump_offset pc i c)) ≡ 0)
        × (rt (branch_always (jump_offset pc i c)) ≡ 0)
        × (i_imm (branch_always (jump_offset pc i c)) ≡ jump_offset pc i c % 2 ^ 16)
    f = always_fields (jump_offset pc i c)

    taken : branch_condition Standard.beq (branch_always (jump_offset pc i c)) g ≡ true
    taken = unfold branch_condition int_beq xor in rw (f.1, f.2, ==_refl (g 0)) refl
