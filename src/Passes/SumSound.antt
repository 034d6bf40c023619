-- ===== src/Passes/SumSound.antt =====
-- The rewrites of sums, differences, OR and NOR in `lightrec_transform_ops` keep what the opcode does to
-- the registers.
use lightrec.Base.{
  ℕ, ◌<◌, ◌^◌, ◌==◌, ◌≡◌, refl, ◌∙◌, ap, arith, inl, inr, bit_or, lnot, sub32, Bool-cases, ==_iff,
}
use lightrec.Base.Bits.{sub32_zero, bit_or_zero_left, bit_or_zero_right}
use lightrec.Isa.{Code, Opcode, i_op, rs, rt, rd, m_op, rt-lt, set_i_op, set_rs, set_m_op}
use lightrec.Isa.UpdateLaws
use lightrec.Interpreter.Regs.{Gpr, AreWords, set_reg_nonzero}
use lightrec.Interpreter.Table.{regs, effect}
use lightrec.Passes.Simplify.{to_mov_rt, simplify_nor, simplify_sub, simplify_add}
use lightrec.Passes.Moves.{
  recoded, meta_op, meta_com, com-Effect, to_mov-Effect, to_mov_rt-Effect, to_mov_rt-lt,
  rd-to_mov_rt, rs-to_mov_rt,
}

module _ (op : Opcode) (g : Gpr) (words : AreWords g) where
  pub sub-Effect :
      (c : Code)
      → c < 2 ^ 32
      → effect (recoded op c) g ≡ regs (set_reg_nonzero (rd c) (sub32 (g (rs c)) (g (rt c))) g)
      → g 0 ≡ 0
      → effect (recoded op (simplify_sub c)) g ≡ effect (recoded op c) g
  unfolding simplify_sub
  sub-Effect c h plain z = elim (Bool-cases (rt c == 0)) [
    | inr n ↦ rw n refl
    | inl y ↦
        let second : g (rt c) ≡ 0 = ap g ((==_iff _ _).0 y) ∙ z in
        rw (y, plain, second, sub32_zero (g (rs c)) (words (rs c))) (to_mov-Effect op g c h)
  ]

  -- The second move of a register that the first has already put first.
  again-Effect :
      (c : Code)
      → c < 2 ^ 32
      → effect (recoded op (simplify_sub (to_mov_rt c))) g
        ≡ regs (set_reg_nonzero (rd c) (g (rt c)) g)
  unfolding simplify_sub
  again-Effect c h = elim (Bool-cases (rt (to_mov_rt c) == 0)) [
    | inr n ↦ rw n (to_mov_rt-Effect op g c h)
    | inl y ↦ rw y (
        to_mov-Effect op g (to_mov_rt c) (to_mov_rt-lt c h)
        ∙ rw (rd-to_mov_rt c, rs-to_mov_rt c) refl)
  ]

  -- OR, ADD and ADDU: `f` has 0 as a unit on both sides.
  pub add-Effect :
      (f : ℕ → ℕ → ℕ)
      → ((x : ℕ) → x < 2 ^ 32 → f 0 x ≡ x)
      → ((x : ℕ) → x < 2 ^ 32 → f x 0 ≡ x)
      → (c : Code) → c < 2 ^ 32
      → effect (recoded op c) g ≡ regs (set_reg_nonzero (rd c) (f (g (rs c)) (g (rt c))) g)
      → g 0 ≡ 0
      → effect (recoded op (simplify_add c)) g ≡ effect (recoded op c) g
  unfolding simplify_add simplify_sub
  add-Effect f left_unit right_unit c h plain z = elim (Bool-cases (rs c == 0)) [
    | inr n ↦ elim (Bool-cases (rt c == 0)) [
      | inr m ↦ rw (n, m) refl
      | inl y ↦
          let second : g (rt c) ≡ 0 = ap g ((==_iff _ _).0 y) ∙ z in
          rw (n, y, plain, second, right_unit (g (rs c)) (words (rs c))) (to_mov-Effect op g c h)
    ]
    | inl y ↦
        let first : g (rs c) ≡ 0 = ap g ((==_iff _ _).0 y) ∙ z in
        rw (y, plain, first, left_unit (g (rt c)) (words (rt c))) (again-Effect c h)
  ]

  pub nor-Effect :
      (c : Code)
      → c < 2 ^ 32
      → effect (recoded op c) g
        ≡ regs (set_reg_nonzero (rd c) (lnot (bit_or (g (rs c)) (g (rt c)))) g)
      → g 0 ≡ 0
      → effect (recoded op (simplify_nor c)) g ≡ effect (recoded op c) g
  unfolding simplify_nor
  nor-Effect c h plain z =
      let d = set_m_op 0x03 (set_i_op 0x3c c) in
      let is_meta : i_op d ≡ 0x3c =
        UpdateLaws.i_op-set_m_op 0x03 _ ∙ UpdateLaws.i_op-set_i_op 0x3c c h (omega arith) in
      let is_com : m_op d ≡ 3 = UpdateLaws.m_op-set_m_op 0x03 _ (omega arith) in
      let rd_same : rd d ≡ rd c = UpdateLaws.rd-set_m_op 0x03 _ ∙ UpdateLaws.rd-set_i_op 0x3c c in
      let rs_same : rs d ≡ rs c = UpdateLaws.rs-set_m_op 0x03 _ ∙ UpdateLaws.rs-set_i_op 0x3c c in
      elim (Bool-cases (rs c == 0)) [
        | inl y ↦
            let first : g (rs c) ≡ 0 = ap g ((==_iff _ _).0 y) ∙ z in
            let f = set_rs (rt c) d in
            let f_meta : i_op f ≡ 0x3c = UpdateLaws.i_op-set_rs (rt c) d ∙ is_meta in
            let f_com : m_op f ≡ 3 = UpdateLaws.m_op-set_rs (rt c) d ∙ is_com in
            let f_rd : rd f ≡ rd c = UpdateLaws.rd-set_rs (rt c) d ∙ rd_same in
            let f_rs : rs f ≡ rt c = UpdateLaws.rs-set_rs (rt c) d (rt-lt c) in
            rw (y, plain, first, bit_or_zero_left (g (rt c)))
              (com-Effect op g f (meta_op f f_meta) (meta_com f f_com) ∙ rw (f_rd, f_rs))
        | inr n ↦ elim (Bool-cases (rt c == 0)) [
          | inr m ↦ rw (n, m) refl
          | inl y ↦
              let second : g (rt c) ≡ 0 = ap g ((==_iff _ _).0 y) ∙ z in
              rw (n, y, plain, second, bit_or_zero_right (g (rs c)))
                (com-Effect op g d (meta_op d is_meta) (meta_com d is_com) ∙ rw (rd_same, rs_same))
        ]
      ]
