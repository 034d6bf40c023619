-- ===== src/Passes/BranchSound.antt =====
-- The rewrites of branches in `lightrec_transform_ops` keep the decision and the offset.
use lightrec.Base.{
  ℕ, ◌<◌, ◌^◌, ◌==◌, ◌≡◌, ◌≢◌, refl, sym, ◌∙◌, ap, Bool, true, false, not, xor, ◌&&◌, ◌||◌, arith,
  is_neg, inl, inr, Bool-cases, ==_iff, ==_refl, ==_cases,
}
use lightrec.Isa.{
  Code, Standard, Regimm, i_op, rs, rt, i_imm, op_of, regimm_of, decode_standard, rt-lt, set_i_op,
  set_rs, set_rt,
}
use lightrec.Isa.UpdateLaws.{
  i_op-set_i_op, i_imm-set_i_op, i_op-set_rs, rs-set_rs, i_imm-set_rs, i_op-set_rt, rs-set_rt,
  rt-set_rt, i_imm-set_rt,
}
use lightrec.Interpreter.Regs.{Gpr}
use lightrec.Interpreter.Branch.{int_beq, int_bgez, regimm_condition, branch_condition}
use lightrec.Constprop.Data.{Consts}
use lightrec.Constprop.Describes.{DescribesAll}
use lightrec.Passes.Simplify.{
  Rewrite, replace, nullify, always_taken, zero_last, known_equal, known_different, top_known,
  top_value, simplify_beq, simplify_bne, simplify_blez, simplify_bgtz, simplify_sign,
  simplify_regimm, simplify_branch,
}
use lightrec.Passes.Known.{known_equal-eq, known_different-ne, top_value-eq}

-- The new opcode decides as the old one, and goes as far; or the branch is not taken.
abbrev pub Decides : Bool → ℕ → Gpr → Rewrite → Type 0
Decides taken offset g (replace d) = (branch_condition (op_of d) d g ≡ taken) × (i_imm d ≡ offset)
Decides taken offset g nullify = taken ≡ false

op_of_eq : (c d : Code) → i_op d ≡ i_op c → op_of d ≡ op_of c
unfolding op_of
op_of_eq c d e = ap decode_standard e

decoded : (d : Code) → i_op d ≡ 0x04 → op_of d ≡ Standard.beq
unfolding op_of decode_standard
decoded d e = rw e

always_taken-Decides :
    (c : Code) (g : Gpr) → c < 2 ^ 32 → Decides true (i_imm c) g (replace (always_taken c))
unfolding always_taken branch_condition int_beq xor
always_taken-Decides c g h =
    let d = set_rt 0 (set_rs 0 (set_i_op 0x04 c)) in
    let op : i_op d ≡ 0x04 =
      i_op-set_rt 0 _ ∙ i_op-set_rs 0 _ ∙ i_op-set_i_op 0x04 c h (omega arith) in
    let first : rs d ≡ 0 = rs-set_rt 0 _ ∙ rs-set_rs 0 _ (omega arith) in
    let second : rt d ≡ 0 = rt-set_rt 0 _ (omega arith) in
    let beq : op_of d ≡ Standard.beq = decoded d op in
    (
      rw beq (rw (first, second) (ground arith)),
      i_imm-set_rt 0 _ ∙ i_imm-set_rs 0 _ ∙ i_imm-set_i_op 0x04 c,
    )

not_same : {a b : ℕ} → a ≢ b → (a == b) ≡ false
not_same ne = ground arith

module _ (c : Code) (g : Gpr) where
  zero_last_op : op_of (zero_last c) ≡ op_of c
  unfolding zero_last
  zero_last_op = elim (Bool-cases (rs c == 0)) [
    | inl z ↦ rw z (op_of_eq c _ (i_op-set_rt 0 _ ∙ i_op-set_rs _ c))
    | inr z ↦ rw z
  ]

  zero_last_imm : i_imm (zero_last c) ≡ i_imm c
  unfolding zero_last
  zero_last_imm = elim (Bool-cases (rs c == 0)) [
    | inl z ↦ rw z (i_imm-set_rt 0 _ ∙ i_imm-set_rs _ c)
    | inr z ↦ rw z
  ]

  zero_last_beq : (bne : Bool) → int_beq (zero_last c) g bne ≡ int_beq c g bne
  unfolding zero_last int_beq xor
  zero_last_beq bne = elim (Bool-cases (rs c == 0)) [
    | inl z ↦
        let d = set_rt 0 (set_rs (rt c) c) in
        let first : rs d ≡ rt c = rs-set_rt 0 _ ∙ rs-set_rs (rt c) c (rt-lt c) in
        let second : rt d ≡ 0 = rt-set_rt 0 _ (omega arith) in
        let zero_first : rs c ≡ 0 = (==_iff _ _).0 z in
        rw (z, first, second, zero_first) (ground arith)
    | inr z ↦ rw z
  ]

  equal_taken : (bne : Bool) → g (rs c) ≡ g (rt c) → int_beq c g bne ≡ not bne
  unfolding int_beq xor
  equal_taken true e = rw (e, ==_refl (g (rt c))) refl
  equal_taken false e = rw (e, ==_refl (g (rt c))) refl

  different_taken : (bne : Bool) → g (rs c) ≢ g (rt c) → int_beq c g bne ≡ bne
  unfolding int_beq xor
  different_taken true ne = rw (not_same ne) refl
  different_taken false ne = rw (not_same ne) refl

module _ {v : Consts} {g : Gpr} (p : DescribesAll v g) (c : Code) (word : c < 2 ^ 32) where
  taken-Decides :
      {taken : Bool} → taken ≡ true → Decides taken (i_imm c) g (replace (always_taken c))
  taken-Decides e = let (d, i) = always_taken-Decides c g word in (d ∙ sym e, i)

  kept-Decides : Decides (branch_condition (op_of c) c g) (i_imm c) g (replace c)
  kept-Decides = (refl, refl)

  beq_last-Decides :
      op_of c ≡ Standard.beq → Decides (int_beq c g false) (i_imm c) g (replace (zero_last c))
  unfolding branch_condition
  beq_last-Decides e = (rw (zero_last_op c g, e) (zero_last_beq c g false), zero_last_imm c g)

  bne_last-Decides :
      op_of c ≡ Standard.bne → Decides (int_beq c g true) (i_imm c) g (replace (zero_last c))
  unfolding branch_condition
  bne_last-Decides e = (rw (zero_last_op c g, e) (zero_last_beq c g true), zero_last_imm c g)

  same_value : (rs c == rt c || known_equal v c) ≡ true → g (rs c) ≡ g (rt c)
  same_value h = elim (==_cases (rs c) (rt c)) [
    | inl e ↦ ap g e
    | inr ne ↦ known_equal-eq p c (rw ne at h)
  ]

  negative : (top_known v c && top_value v c) ≡ true → is_neg (g (rs c)) ≡ true
  negative h = sym (top_value-eq p c (ground arith)) ∙ ground arith

  negative_taken : is_neg (g (rs c)) ≡ true → int_bgez c g true false ≡ true
  unfolding int_bgez xor
  negative_taken h = rw h refl

  negative_not_taken : is_neg (g (rs c)) ≡ true → int_bgez c g false false ≡ false
  unfolding int_bgez xor
  negative_not_taken h = rw h refl

  sign_taken : (bgez : Bool) → int_bgez c g (not bgez) true ≡ xor (is_neg (g (rs c))) bgez
  unfolding int_bgez is_neg xor
  sign_taken true = ground arith
  sign_taken false = ground arith

  beq-Decides : op_of c ≡ Standard.beq → Decides (int_beq c g false) (i_imm c) g (simplify_beq v c)
  unfolding simplify_beq
  beq-Decides e = elim (Bool-cases (rs c == rt c || known_equal v c)) [
    | inl same ↦ rw same (taken-Decides (equal_taken c g false (same_value same)))
    | inr other ↦ elim (Bool-cases (known_different v c)) [
      | inl apart ↦ rw (other, apart) (different_taken c g false (known_different-ne p c apart))
      | inr open_case ↦ rw (other, open_case) (beq_last-Decides e)
    ]
  ]

  bne-Decides : op_of c ≡ Standard.bne → Decides (int_beq c g true) (i_imm c) g (simplify_bne v c)
  unfolding simplify_bne
  bne-Decides e = elim (Bool-cases (known_different v c)) [
    | inl apart ↦ rw apart (taken-Decides (different_taken c g true (known_different-ne p c apart)))
    | inr other ↦ elim (Bool-cases (known_equal v c)) [
      | inl same ↦ rw (other, same) (equal_taken c g true (known_equal-eq p c same))
      | inr open_case ↦ rw (other, open_case) (bne_last-Decides e)
    ]
  ]

  blez-Decides :
      op_of c ≡ Standard.blez → Decides (int_bgez c g true false) (i_imm c) g (simplify_blez v c)
  unfolding simplify_blez branch_condition
  blez-Decides e = elim (Bool-cases (top_known v c && top_value v c)) [
    | inl set ↦ rw set (taken-Decides (negative_taken (negative set)))
    | inr other ↦ rw (other, e) (refl, refl)
  ]

  bgtz-Decides :
      op_of c ≡ Standard.bgtz → Decides (int_bgez c g false false) (i_imm c) g (simplify_bgtz v c)
  unfolding simplify_bgtz branch_condition
  bgtz-Decides e = elim (Bool-cases (top_known v c && top_value v c)) [
    | inl set ↦ rw set (negative_not_taken (negative set))
    | inr other ↦ rw (other, e) (refl, refl)
  ]

  sign-Decides :
      (bgez : Bool)
      → branch_condition (op_of c) c g ≡ int_bgez c g (not bgez) true
      → Decides (int_bgez c g (not bgez) true) (i_imm c) g (simplify_sign bgez v c)
  unfolding simplify_sign xor
  sign-Decides bgez e = elim (Bool-cases (top_known v c)) [
    | inr unknown ↦ rw unknown (e, refl)
    | inl known ↦
        let sign = top_value-eq p c known in
        let taken = sign_taken bgez in
        elim (Bool-cases (xor (is_neg (g (rs c))) bgez)) [
          | inl y ↦ rw (known, sign, y) (taken-Decides (taken ∙ y))
          | inr n ↦ rw (known, sign, n) (taken ∙ n)
        ]
  ]

  regimm-Decides :
      (r : Regimm)
      → regimm_of c ≡ r
      → op_of c ≡ Standard.regimm
      → Decides (regimm_condition r c g) (i_imm c) g (simplify_regimm r v c)
  unfolding simplify_regimm regimm_condition branch_condition
  regimm-Decides Regimm.bltz r e = sign-Decides false (rw (e, r))
  regimm-Decides Regimm.bgez r e = sign-Decides true (rw (e, r))
  regimm-Decides Regimm.bltzal r e = (rw (e, r), refl)
  regimm-Decides Regimm.bgezal r e = (rw (e, r), refl)
  regimm-Decides Regimm.unknown r e = (rw (e, r), refl)

  branch-Decides :
      (o : Standard)
      → op_of c ≡ o
      → Decides (branch_condition o c g) (i_imm c) g (simplify_branch o v c)
  unfolding simplify_branch branch_condition
  branch-Decides Standard.beq e = beq-Decides e
  branch-Decides Standard.bne e = bne-Decides e
  branch-Decides Standard.blez e = blez-Decides e
  branch-Decides Standard.bgtz e = bgtz-Decides e
  branch-Decides Standard.regimm e = regimm-Decides (regimm_of c) refl e
  branch-Decides _ e = (rw e, refl)

  -- On registers that the array describes, what the cases of the conditional branches in the switch of
  -- `lightrec_transform_ops` make of a branch (a 32-bit word) decides as the branch did, and has its
  -- offset; a branch that these cases nullify was not taken.
  pub simplify_branch-Decides :
      Decides (branch_condition (op_of c) c g) (i_imm c) g (simplify_branch (op_of c) v c)
  simplify_branch-Decides = branch-Decides (op_of c) refl
