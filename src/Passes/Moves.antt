-- ===== src/Passes/Moves.antt =====
-- The moves that `lightrec_transform_ops` writes for opcodes with a neutral operand.
use lightrec.Base.{◌<◌, ◌^◌, ◌≡◌, ◌∙◌, arith, lnot}
use lightrec.Isa.{
  Code, Opcode, Standard, Meta, i_op, rs, rt, rd, m_op, op_of, meta_of, decode_standard,
  decode_meta, rt-lt, set_i_op, set_rs, set_m_op,
}
use lightrec.Isa.UpdateLaws
use lightrec.Interpreter.Regs.{Gpr, set_reg_nonzero}
use lightrec.Interpreter.Alu.{int_meta_mov, int_meta_com}
use lightrec.Interpreter.Table.{regs, effect, effect_of, meta_effect}
use lightrec.Passes.Simplify.{to_mov, to_mov_rt}

abbrev pub recoded : Opcode → Code → Opcode
recoded op c = record op { c = c }

pub meta_op : (c : Code) → i_op c ≡ 0x3c → op_of c ≡ Standard.meta
unfolding op_of decode_standard
meta_op c e = rw e

meta_mov : (c : Code) → m_op c ≡ 0 → meta_of c ≡ Meta.mov
unfolding meta_of decode_meta
meta_mov c e = rw e

pub meta_com : (c : Code) → m_op c ≡ 3 → meta_of c ≡ Meta.complement
unfolding meta_of decode_meta
meta_com c e = rw e

module _ (op : Opcode) (g : Gpr) where
  mov-Effect :
      (c : Code)
      → op_of c ≡ Standard.meta
      → meta_of c ≡ Meta.mov
      → effect (recoded op c) g ≡ regs (set_reg_nonzero (rd c) (g (rs c)) g)
  unfolding effect effect_of meta_effect int_meta_mov
  mov-Effect c e m = rw (e, m)

  pub com-Effect :
      (c : Code)
      → op_of c ≡ Standard.meta
      → meta_of c ≡ Meta.complement
      → effect (recoded op c) g ≡ regs (set_reg_nonzero (rd c) (lnot (g (rs c))) g)
  unfolding effect effect_of meta_effect int_meta_com
  com-Effect c e m = rw (e, m)

  pub to_mov-Effect :
      (c : Code)
      → c < 2 ^ 32
      → effect (recoded op (to_mov c)) g ≡ regs (set_reg_nonzero (rd c) (g (rs c)) g)
  unfolding to_mov
  to_mov-Effect c h =
      let d = set_i_op 0x3c (set_m_op 0x00 c) in
      let a =
        UpdateLaws.i_op-set_i_op 0x3c (set_m_op 0x00 c) (UpdateLaws.set_m_op-lt 0x00 c h)
          (omega arith) in
      let b : m_op d ≡ 0 =
        UpdateLaws.m_op-set_i_op 0x3c _ ∙ UpdateLaws.m_op-set_m_op 0x00 c (omega arith) in
      let e : rd d ≡ rd c = UpdateLaws.rd-set_i_op 0x3c _ ∙ UpdateLaws.rd-set_m_op 0x00 c in
      let f : rs d ≡ rs c = UpdateLaws.rs-set_i_op 0x3c _ ∙ UpdateLaws.rs-set_m_op 0x00 c in
      mov-Effect d (meta_op d a) (meta_mov d b) ∙ rw (e, f)

  pub to_mov_rt-Effect :
      (c : Code)
      → c < 2 ^ 32
      → effect (recoded op (to_mov_rt c)) g ≡ regs (set_reg_nonzero (rd c) (g (rt c)) g)
  unfolding to_mov_rt
  to_mov_rt-Effect c h =
      let d = set_rs (rt c) c in
      let e : rd d ≡ rd c = UpdateLaws.rd-set_rs (rt c) c in
      let f : rs d ≡ rt c = UpdateLaws.rs-set_rs (rt c) c (rt-lt c) in
      to_mov-Effect d (UpdateLaws.set_rs-lt (rt c) c h) ∙ rw (e, f)

pub to_mov_rt-lt : (c : Code) → c < 2 ^ 32 → to_mov_rt c < 2 ^ 32
unfolding to_mov_rt to_mov
to_mov_rt-lt c h =
    UpdateLaws.set_i_op-lt 0x3c _ (UpdateLaws.set_m_op-lt 0x00 _ (UpdateLaws.set_rs-lt (rt c) c h))
      (omega arith)

pub rd-to_mov_rt : (c : Code) → rd (to_mov_rt c) ≡ rd c
unfolding to_mov_rt to_mov
rd-to_mov_rt c =
    UpdateLaws.rd-set_i_op 0x3c _ ∙ UpdateLaws.rd-set_m_op 0x00 _ ∙ UpdateLaws.rd-set_rs (rt c) c

pub rs-to_mov_rt : (c : Code) → rs (to_mov_rt c) ≡ rt c
unfolding to_mov_rt to_mov
rs-to_mov_rt c =
    UpdateLaws.rs-set_i_op 0x3c _
    ∙ UpdateLaws.rs-set_m_op 0x00 _
    ∙ UpdateLaws.rs-set_rs (rt c) c (rt-lt c)
