-- ===== src/Passes/Patched.antt =====
-- `lightrec_patch_known_zero` keeps what an opcode does to the registers, and how a branch decides.
use lightrec.Base.{◌==◌, ◌≡◌, refl, ◌∙◌, ◌&&◌, inl, inr, Bool-cases}
use lightrec.Blockcache.Geometry.{kunseg}
use lightrec.Isa.{
  Code, Opcode, Standard, Special, Cp0, Cp2Basic, rs, r_op, i_op, op_of, special_of, cp0_of,
  cp2_basic_of,
}
use lightrec.Isa.UpdateLaws.{i_op-set_rs}
use lightrec.Interpreter.Regs.{Gpr}
use lightrec.Interpreter.Table.{effect, effect_of}
use lightrec.Interpreter.Branch.{branch_condition}
use lightrec.Constprop.Data.{Consts, is_known}
use lightrec.Constprop.Describes.{DescribesAll}
use lightrec.Passes.KnownZero.{
  patch_rs, patch_rt, patch_base, patch_special, patch_cp0, patch_cp2, patch_of,
  lightrec_patch_known_zero,
}
use lightrec.Passes.Zeroed
use lightrec.Passes.Zeroed.{
  ReadsSame, op_of-ReadsSame, rd-ReadsSame, r_imm-ReadsSame, r_op-ReadsSame, special_of-ReadsSame,
  meta_of-ReadsSame,
}
use lightrec.Passes.Moves.{recoded}
use lightrec.Passes.ZeroedSound.{Kept, rt-Kept, special-Kept, beq-Kept, bne-Kept, other-Kept}

module _ (op : Opcode) {v : Consts} {g : Gpr} (p : DescribesAll v g) (z : g 0 ≡ 0) (c : Code) where
  pub special_patched : (s : Special) → ReadsSame g c (patch_special s v c)
  unfolding patch_special
  special_patched Special.jr = Zeroed.patch_rs-ReadsSame p z c
  special_patched Special.jalr = Zeroed.patch_rs-ReadsSame p z c
  special_patched Special.mthi = Zeroed.patch_rs-ReadsSame p z c
  special_patched Special.mtlo = Zeroed.patch_rs-ReadsSame p z c
  special_patched Special.sll = Zeroed.patch_rt-ReadsSame p z c
  special_patched Special.srl = Zeroed.patch_rt-ReadsSame p z c
  special_patched Special.sra = Zeroed.patch_rt-ReadsSame p z c
  special_patched Special.syscall = Zeroed.ReadsSame-refl g c
  special_patched Special.break = Zeroed.ReadsSame-refl g c
  special_patched Special.mfhi = Zeroed.ReadsSame-refl g c
  special_patched Special.mflo = Zeroed.ReadsSame-refl g c
  special_patched _ =
      Zeroed.ReadsSame-trans (Zeroed.patch_rs-ReadsSame p z c)
        (Zeroed.patch_rt-ReadsSame p z (patch_rs v c))

  base_op : (x : Code) → i_op (patch_base v x) ≡ i_op x
  unfolding patch_base
  base_op x = elim (Bool-cases (is_known v (rs x) && kunseg (v (rs x)).value == 0)) [
    | inl y ↦ rw y (i_op-set_rs 0 x)
    | inr n ↦ rw n refl
  ]

  rt_op : i_op (patch_rt v c) ≡ i_op c
  rt_op = (Zeroed.patch_rt-ReadsSame p z c).i_op_same

  cp0_op : (k : Cp0) → i_op (patch_cp0 k v c) ≡ i_op c
  unfolding patch_cp0
  cp0_op Cp0.mtc0 = rt_op
  cp0_op Cp0.ctc0 = rt_op
  cp0_op _ = refl

  cp2_op : (k : Cp2Basic) → i_op (patch_cp2 k v c) ≡ i_op c
  unfolding patch_cp2
  cp2_op Cp2Basic.mtc2 = rt_op
  cp2_op Cp2Basic.ctc2 = rt_op
  cp2_op _ = refl

  pub rs_then_rt : ReadsSame g c (patch_rs v (patch_rt v c))
  rs_then_rt =
      Zeroed.ReadsSame-trans (Zeroed.patch_rt-ReadsSame p z c)
        (Zeroed.patch_rs-ReadsSame p z (patch_rt v c))

  rs-Kept : Kept op g c (patch_rs v c)
  rs-Kept = rt-Kept op g z (Zeroed.patch_rs-ReadsSame p z c) (Zeroed.rt-patch_rs p z c)

  patch-Kept : (o : Standard) → op_of c ≡ o → Kept op g c (patch_of o v c)
  unfolding patch_of effect_of branch_condition
  patch-Kept Standard.special e = special-Kept op g z (special_patched (special_of c)) e
  patch-Kept Standard.cp0 e =
      other-Kept op g z Standard.cp0 c _ (cp0_op (cp0_of c)) e (λ x. refl) (λ x. refl)
  patch-Kept Standard.cp2 e = elim (Bool-cases (r_op c == 0)) [
    | inl y ↦
        rw y
          (other-Kept op g z Standard.cp2 c _ (cp2_op (cp2_basic_of c)) e (λ x. refl) (λ x. refl))
    | inr n ↦ rw n (refl, refl)
  ]
  patch-Kept Standard.beq e = beq-Kept op g z rs_then_rt e
  patch-Kept Standard.bne e = bne-Kept op g z rs_then_rt e
  patch-Kept Standard.regimm e = rs-Kept
  patch-Kept Standard.blez e = rs-Kept
  patch-Kept Standard.bgtz e = rs-Kept
  patch-Kept Standard.addi e = rs-Kept
  patch-Kept Standard.addiu e = rs-Kept
  patch-Kept Standard.slti e = rs-Kept
  patch-Kept Standard.sltiu e = rs-Kept
  patch-Kept Standard.andi e = rs-Kept
  patch-Kept Standard.ori e = rs-Kept
  patch-Kept Standard.xori e = rs-Kept
  patch-Kept Standard.meta_mult2 e = rs-Kept
  patch-Kept Standard.meta_multu2 e = rs-Kept
  patch-Kept Standard.meta e = rs-Kept
  patch-Kept Standard.sb e =
      other-Kept op g z Standard.sb c _ (base_op (patch_rt v c) ∙ rt_op) e (λ x. refl) (λ x. refl)
  patch-Kept Standard.sh e =
      other-Kept op g z Standard.sh c _ (base_op (patch_rt v c) ∙ rt_op) e (λ x. refl) (λ x. refl)
  patch-Kept Standard.swl e =
      other-Kept op g z Standard.swl c _ (base_op (patch_rt v c) ∙ rt_op) e (λ x. refl) (λ x. refl)
  patch-Kept Standard.sw e =
      other-Kept op g z Standard.sw c _ (base_op (patch_rt v c) ∙ rt_op) e (λ x. refl) (λ x. refl)
  patch-Kept Standard.swr e =
      other-Kept op g z Standard.swr c _ (base_op (patch_rt v c) ∙ rt_op) e (λ x. refl) (λ x. refl)
  patch-Kept Standard.meta_swu e =
      other-Kept op g z Standard.meta_swu c _ (base_op (patch_rt v c) ∙ rt_op) e (λ x. refl)
        (λ x. refl)
  patch-Kept Standard.lb e = other-Kept op g z Standard.lb c _ (base_op c) e (λ x. refl) (λ x. refl)
  patch-Kept Standard.lh e = other-Kept op g z Standard.lh c _ (base_op c) e (λ x. refl) (λ x. refl)
  patch-Kept Standard.lwl e =
      other-Kept op g z Standard.lwl c _ (base_op c) e (λ x. refl) (λ x. refl)
  patch-Kept Standard.lw e = other-Kept op g z Standard.lw c _ (base_op c) e (λ x. refl) (λ x. refl)
  patch-Kept Standard.lbu e =
      other-Kept op g z Standard.lbu c _ (base_op c) e (λ x. refl) (λ x. refl)
  patch-Kept Standard.lhu e =
      other-Kept op g z Standard.lhu c _ (base_op c) e (λ x. refl) (λ x. refl)
  patch-Kept Standard.lwr e =
      other-Kept op g z Standard.lwr c _ (base_op c) e (λ x. refl) (λ x. refl)
  patch-Kept Standard.lwc2 e =
      other-Kept op g z Standard.lwc2 c _ (base_op c) e (λ x. refl) (λ x. refl)
  patch-Kept Standard.swc2 e =
      other-Kept op g z Standard.swc2 c _ (base_op c) e (λ x. refl) (λ x. refl)
  patch-Kept Standard.meta_lwu e =
      other-Kept op g z Standard.meta_lwu c _ (base_op c) e (λ x. refl) (λ x. refl)
  patch-Kept _ e = (refl, refl)

  -- The effects of opcodes on registers alone, and the decisions of branches.
  pub patch_known_zero-Kept :
      (effect (recoded op (lightrec_patch_known_zero v c)) g ≡ effect (recoded op c) g)
      × (branch_condition (op_of (lightrec_patch_known_zero v c)) (lightrec_patch_known_zero v c) g
          ≡ branch_condition (op_of c) c g)
  unfolding lightrec_patch_known_zero
  patch_known_zero-Kept = patch-Kept (op_of c) refl
