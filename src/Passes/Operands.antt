-- ===== src/Passes/Operands.antt =====
-- `lightrec_patch_known_zero` keeps the operands of every opcode, those of loads and stores too.
use lightrec.Base.{
  ℕ, ◌+◌, ◌%◌, ◌^◌, ◌<◌, ◌==◌, ◌≡◌, ◌⊎◌, refl, sym, ◌∙◌, ap, Bool, true, false, ◌&&◌, ◌||◌, inl,
  inr, arith, IsU32, Bool-cases, leb, add32, bit_and, lnot, sext16,
}
use lightrec.Base.Bits.Fields.{bit_and-field}
use lightrec.Blockcache.Geometry.{kunseg}
use lightrec.Isa.{
  Code, Opcode, Standard, Cp0, Cp2Basic, rs, rt, r_op, i_op, i_imm, op_of, special_of, cp0_of,
  cp2_basic_of, rs-lt, set_rs,
}
use lightrec.Isa.UpdateLaws.{i_op-set_rs, i_imm-set_rs, rs-set_rs, rt-set_rs}
use lightrec.Optimizer.Queries.{opcode_is_load_of, opcode_is_store_of}
use lightrec.Interpreter.Regs.{Gpr}
use lightrec.Memory.Access.{block_effective_address}
use lightrec.Constprop.Data.{Consts, is_known}
use lightrec.Constprop.Describes.{DescribesAll}
use lightrec.Passes.Known.{value_of_known}
use lightrec.Passes.KnownZero.{
  patch_rs, patch_rt, patch_base, patch_cp0, patch_cp2, patch_of, lightrec_patch_known_zero,
}
use lightrec.Passes.Zeroed
use lightrec.Passes.Zeroed.{ReadsSame}
use lightrec.Passes.Moves.{recoded}
use lightrec.Passes.Patched.{special_patched, rs_then_rt, patch_known_zero-Kept}
use lightrec.Interpreter.Table.{effect}
use lightrec.Interpreter.Branch.{branch_condition}

-- Loads and stores, that address memory by a base register and a displacement.
abbrev pub is_access : Standard → Bool
is_access o = opcode_is_load_of o || opcode_is_store_of o

-- The opcode is no load or store, or its displacement is not negative.
abbrev pub Fits : Standard → Code → Type 0
Fits o c = (is_access o ≡ false) ⊎ (i_imm c < 2 ^ 15)

-- Of an access, the effective address is the same; of any other opcode, the first operand.
abbrev pub SameBase : Bool → Gpr → Code → Code → Type 0
SameBase true g c d =
    block_effective_address (g (rs d)) (i_imm d) ≡ block_effective_address (g (rs c)) (i_imm c)
SameBase false g c d = g (rs d) ≡ g (rs c)

-- `d` is the opcode `c` with other registers, that hold the same operands.
pub record SameOperands (access : Bool) (g : Gpr) (c d : Code) : Type 0 where
  pub operation : i_op d ≡ i_op c
  pub immediate : i_imm d ≡ i_imm c
  pub second : g (rt d) ≡ g (rt c)
  pub base : SameBase access g c d

low_31 : (x : ℕ) → IsU32 x → bit_and x (lnot 0x80000000) ≡ x % 2 ^ 31
unfolding lnot
low_31 x h =
    let e = bit_and-field 0 31 (omega arith) x (omega arith) (omega arith) in e ∙ omega arith

-- A base that stands for 0 in its segment, and a displacement that is not negative.
kunseg-add_zero :
    (x disp : ℕ) → IsU32 x → kunseg x ≡ 0 → disp < 2 ^ 15 → kunseg (add32 x disp) ≡ disp
unfolding kunseg add32
kunseg-add_zero x disp hx z hd =
    ground (arith, low_31 x hx, low_31 ((x + disp) % 2 ^ 32) (omega arith))

same_address :
    (x disp : ℕ)
    → IsU32 x
    → kunseg x ≡ 0
    → disp < 2 ^ 15
    → block_effective_address 0 disp ≡ block_effective_address x disp
unfolding block_effective_address sext16
same_address x disp hx z hd =
    let small : disp % 2 ^ 16 ≡ disp = omega arith in
    let plain : leb 0x8000 disp ≡ false = ground arith in
    rw (small, plain)
      (kunseg-add_zero 0 disp (omega arith) (unfold kunseg lnot in refl) hd
        ∙ sym (kunseg-add_zero x disp hx z hd))

module _ {v : Consts} {g : Gpr} (p : DescribesAll v g) (z : g 0 ≡ 0) where
  ReadsSame-SameOperands : (b : Bool) {c d : Code} → ReadsSame g c d → SameOperands b g c d
  ReadsSame-SameOperands true h = record {
    operation = h.i_op_same;
    immediate = h.i_imm_same;
    second = h.second_same;
    base = let a = h.first_same in let i = h.i_imm_same in cc;
  }
  ReadsSame-SameOperands false h = record {
    operation = h.i_op_same;
    immediate = h.i_imm_same;
    second = h.second_same;
    base = h.first_same;
  }

  -- The base of an access that `x` is, after its other operand.
  base-SameOperands :
      {c x : Code} → ReadsSame g c x → i_imm c < 2 ^ 15 → SameOperands true g c (patch_base v x)
  unfolding patch_base is_known
  base-SameOperands {c} {x} h small =
      elim (Bool-cases (is_known v (rs x) && kunseg (v (rs x)).value == 0)) [
        | inr n ↦ rw n (ReadsSame-SameOperands true h)
        | inl y ↦
            let value = value_of_known (p (rs x) (rs-lt x)) (ground arith) in
            let word = (p (rs x) (rs-lt x)).word in
            let zero_base : kunseg (g (rs x)) ≡ 0 = rw (← value) (ground arith) in
            let first : g (rs (set_rs 0 x)) ≡ 0 = ap g (rs-set_rs 0 x (omega arith)) ∙ z in
            let disp : i_imm (set_rs 0 x) ≡ i_imm c = i_imm-set_rs 0 x ∙ h.i_imm_same in
            rw y (record {
              operation = i_op-set_rs 0 x ∙ h.i_op_same;
              immediate = disp;
              second = ap g (rt-set_rs 0 x) ∙ h.second_same;
              base =
                  rw (first, disp, ← h.first_same)
                    (same_address (g (rs x)) (i_imm c) word zero_base small);
            })
      ]

  access-SameOperands :
      {c x : Code}
      → ReadsSame g c x
      → (true ≡ false) ⊎ (i_imm c < 2 ^ 15)
      → SameOperands true g c (patch_base v x)
  access-SameOperands h (inl e) = absurd cc
  access-SameOperands h (inr small) = base-SameOperands h small

  module _ (op : Opcode) (c : Code) where
    rs_patched : ReadsSame g c (patch_rs v c)
    rs_patched = Zeroed.patch_rs-ReadsSame p z c

    rt_patched : ReadsSame g c (patch_rt v c)
    rt_patched = Zeroed.patch_rt-ReadsSame p z c

    cp0_patched : (k : Cp0) → ReadsSame g c (patch_cp0 k v c)
    unfolding patch_cp0
    cp0_patched Cp0.mtc0 = rt_patched
    cp0_patched Cp0.ctc0 = rt_patched
    cp0_patched _ = Zeroed.ReadsSame-refl g c

    cp2_patched : (k : Cp2Basic) → ReadsSame g c (patch_cp2 k v c)
    unfolding patch_cp2
    cp2_patched Cp2Basic.mtc2 = rt_patched
    cp2_patched Cp2Basic.ctc2 = rt_patched
    cp2_patched _ = Zeroed.ReadsSame-refl g c

    patch-SameOperands :
        (o : Standard) → Fits o c → op_of c ≡ o → SameOperands (is_access o) g c (patch_of o v c)
    unfolding patch_of opcode_is_load_of opcode_is_store_of
    patch-SameOperands Standard.special fits e =
        ReadsSame-SameOperands false (special_patched op p z c (special_of c))
    patch-SameOperands Standard.cp0 fits e = ReadsSame-SameOperands false (cp0_patched (cp0_of c))
    patch-SameOperands Standard.cp2 fits e = elim (Bool-cases (r_op c == 0)) [
      | inl y ↦ rw y (ReadsSame-SameOperands false (cp2_patched (cp2_basic_of c)))
      | inr n ↦ rw n (ReadsSame-SameOperands false (Zeroed.ReadsSame-refl g c))
    ]
    patch-SameOperands Standard.beq fits e = ReadsSame-SameOperands false (rs_then_rt op p z c)
    patch-SameOperands Standard.bne fits e = ReadsSame-SameOperands false (rs_then_rt op p z c)
    patch-SameOperands Standard.regimm fits e = ReadsSame-SameOperands false rs_patched
    patch-SameOperands Standard.blez fits e = ReadsSame-SameOperands false rs_patched
    patch-SameOperands Standard.bgtz fits e = ReadsSame-SameOperands false rs_patched
    patch-SameOperands Standard.addi fits e = ReadsSame-SameOperands false rs_patched
    patch-SameOperands Standard.addiu fits e = ReadsSame-SameOperands false rs_patched
    patch-SameOperands Standard.slti fits e = ReadsSame-SameOperands false rs_patched
    patch-SameOperands Standard.sltiu fits e = ReadsSame-SameOperands false rs_patched
    patch-SameOperands Standard.andi fits e = ReadsSame-SameOperands false rs_patched
    patch-SameOperands Standard.ori fits e = ReadsSame-SameOperands false rs_patched
    patch-SameOperands Standard.xori fits e = ReadsSame-SameOperands false rs_patched
    patch-SameOperands Standard.meta_mult2 fits e = ReadsSame-SameOperands false rs_patched
    patch-SameOperands Standard.meta_multu2 fits e = ReadsSame-SameOperands false rs_patched
    patch-SameOperands Standard.meta fits e = ReadsSame-SameOperands false rs_patched
    patch-SameOperands Standard.sb fits e = access-SameOperands rt_patched fits
    patch-SameOperands Standard.sh fits e = access-SameOperands rt_patched fits
    patch-SameOperands Standard.swl fits e = access-SameOperands rt_patched fits
    patch-SameOperands Standard.sw fits e = access-SameOperands rt_patched fits
    patch-SameOperands Standard.swr fits e = access-SameOperands rt_patched fits
    patch-SameOperands Standard.meta_swu fits e = access-SameOperands rt_patched fits
    patch-SameOperands Standard.lb fits e = access-SameOperands (Zeroed.ReadsSame-refl g c) fits
    patch-SameOperands Standard.lh fits e = access-SameOperands (Zeroed.ReadsSame-refl g c) fits
    patch-SameOperands Standard.lwl fits e = access-SameOperands (Zeroed.ReadsSame-refl g c) fits
    patch-SameOperands Standard.lw fits e = access-SameOperands (Zeroed.ReadsSame-refl g c) fits
    patch-SameOperands Standard.lbu fits e = access-SameOperands (Zeroed.ReadsSame-refl g c) fits
    patch-SameOperands Standard.lhu fits e = access-SameOperands (Zeroed.ReadsSame-refl g c) fits
    patch-SameOperands Standard.lwr fits e = access-SameOperands (Zeroed.ReadsSame-refl g c) fits
    patch-SameOperands Standard.lwc2 fits e = access-SameOperands (Zeroed.ReadsSame-refl g c) fits
    patch-SameOperands Standard.swc2 fits e = access-SameOperands (Zeroed.ReadsSame-refl g c) fits
    patch-SameOperands Standard.meta_lwu fits e =
        access-SameOperands (Zeroed.ReadsSame-refl g c) fits
    patch-SameOperands _ fits e = ReadsSame-SameOperands false (Zeroed.ReadsSame-refl g c)

    -- On registers that the array describes, register 0 holding 0, `lightrec_patch_known_zero` keeps the
    -- operation and the immediate of an opcode, what its second operand holds, and the effective address
    -- of a load or store, or else what its first operand holds; an opcode that works on registers alone
    -- does the same to them, and a conditional branch decides the same. Condition: if the opcode is a
    -- load or store, its displacement is not negative.
    pub patch_known_zero-SameOperands :
        Fits (op_of c) c
        → SameOperands (is_access (op_of c)) g c (lightrec_patch_known_zero v c)
          × (effect (recoded op (lightrec_patch_known_zero v c)) g ≡ effect (recoded op c) g)
          × (branch_condition
                (op_of (lightrec_patch_known_zero v c))
                (lightrec_patch_known_zero v c)
                g
              ≡ branch_condition (op_of c) c g)
    patch_known_zero-SameOperands fits =
        let kept = patch_known_zero-Kept op p z c in
        (unfold lightrec_patch_known_zero in patch-SameOperands (op_of c) fits refl, kept.0, kept.1)
