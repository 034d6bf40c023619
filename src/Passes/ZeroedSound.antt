-- ===== src/Passes/ZeroedSound.antt =====
-- Opcodes that read the same do the same to the registers, and decide the same as branches.
use std.Path.{fun_ext}
use lightrec.Base.{ℕ, ◌==◌, ◌≡◌, refl, sym, ◌∙◌, ap, false, inl, inr, ==_cases, shl}
use lightrec.Isa.{
  Code, Opcode, Standard, Special, Meta, Regimm, rt, rd, r_imm, i_op, op_of, special_of, meta_of,
  decode_standard, regimm_of, decode_regimm,
}
use lightrec.Interpreter.Regs.{Gpr, set_reg}
use lightrec.Interpreter.Alu.{
  int_addi, int_slti, int_sltiu, int_andi, int_ori, int_xori, int_lui, int_special_sll,
  int_special_srl, int_special_sra, int_special_sllv, int_special_srlv, int_special_srav,
  int_special_mfhi, int_special_mthi, int_special_mflo, int_special_mtlo, int_special_mult,
  int_special_multu, int_special_div, int_special_divu, int_special_add, int_special_sub,
  int_special_and, int_special_or, int_special_xor, int_special_nor, int_special_slt,
  int_special_sltu, int_meta_mov, int_meta_extc, int_meta_exts, int_meta_mult2, int_meta_com,
  write_hi_lo, get_mult_div_lo, get_mult_div_hi,
}
use lightrec.Interpreter.Table.{regs, other, effect, effect_of, special_effect, meta_effect}
use lightrec.Interpreter.Branch.{int_beq, int_bgez, regimm_condition, branch_condition}
use lightrec.Passes.Zeroed.{
  ReadsSame, op_of-ReadsSame, rd-ReadsSame, r_imm-ReadsSame, r_op-ReadsSame, special_of-ReadsSame,
  meta_of-ReadsSame,
}
use lightrec.Passes.Moves.{recoded}

-- The opcode does the same to the registers, and decides the same as a branch.
abbrev pub Kept : Opcode → Gpr → Code → Code → Type 0
Kept op g c d =
    (effect (recoded op d) g ≡ effect (recoded op c) g)
    × (branch_condition (op_of d) d g ≡ branch_condition (op_of c) c g)

module _ (op : Opcode) (g : Gpr) (z : g 0 ≡ 0) where
  -- The all-zero word writes 0 to register 0, or nothing.
  sll_of_zero : (c : Code) → c ≡ 0 → set_reg (rd c) (shl (g (rt c)) (r_imm c)) g ≡ g
  unfolding rd rt r_imm set_reg shl
  sll_of_zero c e =
      rw (e, z)
        (fun_ext λ i. elim (==_cases 0 i) [ inl f ↦ rw (← f, z) refl | inr ne ↦ rw ne refl ])

  sll_plain :
      (c : Code) → int_special_sll (recoded op c) g ≡ set_reg (rd c) (shl (g (rt c)) (r_imm c)) g
  unfolding int_special_sll
  sll_plain c = elim (==_cases c 0) [
    | inl e ↦ rw (ap (λ (x : ℕ). x == 0) e) (sym (sll_of_zero c e))
    | inr ne ↦ rw ne refl
  ]

  module _ {c d : Code} (h : ReadsSame g c d) where
    special-same :
        (s : Special) → special_effect s (recoded op d) g ≡ special_effect s (recoded op c) g
    unfolding special_effect int_special_srl int_special_sra int_special_sllv int_special_srlv
        int_special_srav int_special_mfhi int_special_mthi int_special_mflo int_special_mtlo
        int_special_mult int_special_multu int_special_div int_special_divu int_special_add
        int_special_sub int_special_and int_special_or int_special_xor int_special_nor
        int_special_slt int_special_sltu write_hi_lo get_mult_div_lo get_mult_div_hi
    special-same Special.sll =
        ap regs
          (sll_plain d ∙ rw (rd-ReadsSame h, h.second_same, r_imm-ReadsSame h) (sym (sll_plain c)))
    special-same _ =
        let a = rd-ReadsSame h in
        let b = r_imm-ReadsSame h in let e = h.first_same in let f = h.second_same in cc

    meta-same : (m : Meta) → meta_effect m (recoded op d) g ≡ meta_effect m (recoded op c) g
    unfolding meta_effect int_meta_mov int_meta_extc int_meta_exts int_meta_com
    meta-same Meta.unknown = refl
    meta-same _ = let a = rd-ReadsSame h in let b = h.first_same in cc

    -- Handlers other than those of `OP_SPECIAL`, which have their target in `rt`.
    rest-same :
        (o : Standard) → rt d ≡ rt c → effect_of o (recoded op d) g ≡ effect_of o (recoded op c) g
    unfolding effect_of int_addi int_slti int_sltiu int_andi int_ori int_xori int_lui int_meta_mult2
        get_mult_div_lo get_mult_div_hi
    rest-same Standard.special e =
        ap (λ (s : Special). special_effect s (recoded op d) g) (special_of-ReadsSame h)
        ∙ special-same (special_of c)
    rest-same Standard.meta e =
        ap (λ (m : Meta). meta_effect m (recoded op d) g) (meta_of-ReadsSame h)
        ∙ meta-same (meta_of c)
    rest-same _ e =
        let a = rd-ReadsSame h in
        let b = r_imm-ReadsSame h in
        let k = r_op-ReadsSame h in let f = h.first_same in let i = h.i_imm_same in cc

    regimm-same : (r : Regimm) → regimm_condition r d g ≡ regimm_condition r c g
    unfolding regimm_condition int_bgez
    regimm-same Regimm.unknown = refl
    regimm-same _ = let a = h.first_same in cc

    branch-same : (o : Standard) → rt d ≡ rt c → branch_condition o d g ≡ branch_condition o c g
    unfolding branch_condition int_beq int_bgez regimm_of
    branch-same Standard.regimm e =
        ap (λ (r : Regimm). regimm_condition r d g) (ap decode_regimm e) ∙ regimm-same (regimm_of c)
    branch-same _ e = let a = h.first_same in let b = h.second_same in cc

    pub rt-Kept : rt d ≡ rt c → Kept op g c d
    unfolding effect
    rt-Kept e =
        let q = op_of-ReadsSame h in
        (
          ap (λ (o : Standard). effect_of o (recoded op d) g) q ∙ rest-same (op_of c) e,
          ap (λ (o : Standard). branch_condition o d g) q ∙ branch-same (op_of c) e,
        )

    pub special-Kept : op_of c ≡ Standard.special → Kept op g c d
    unfolding effect effect_of branch_condition
    special-Kept e =
        let q = op_of-ReadsSame h ∙ e in
        (
          rw (q, e)
              (ap (λ (s : Special). special_effect s (recoded op d) g) (special_of-ReadsSame h)
                ∙ special-same (special_of c)),
          rw (q, e) refl,
        )

    pub beq-Kept : op_of c ≡ Standard.beq → Kept op g c d
    unfolding effect effect_of branch_condition int_beq
    beq-Kept e =
        let q = op_of-ReadsSame h ∙ e in
        (rw (q, e) refl, rw (q, e) (let a = h.first_same in let b = h.second_same in cc))

    pub bne-Kept : op_of c ≡ Standard.bne → Kept op g c d
    unfolding effect effect_of branch_condition int_beq
    bne-Kept e =
        let q = op_of-ReadsSame h ∙ e in
        (rw (q, e) refl, rw (q, e) (let a = h.first_same in let b = h.second_same in cc))

  -- An opcode that is no handler on registers, and no branch.
  pub other-Kept :
      (o : Standard) (c d : Code)
      → i_op d ≡ i_op c
      → op_of c ≡ o
      → ((x : Code) → effect_of o (recoded op x) g ≡ other)
      → ((x : Code) → branch_condition o x g ≡ false)
      → Kept op g c d
  unfolding effect op_of
  other-Kept o c d same e none_done no_branch =
      let q : op_of d ≡ o = ap decode_standard same ∙ e in
      (rw (q, e, none_done d, none_done c) refl, rw (q, e, no_branch d, no_branch c) refl)
