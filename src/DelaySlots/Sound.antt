-- ===== src/DelaySlots/Sound.antt =====
-- optimizer-delay-slots.c against interpreter.c: a switch that is allowed changes nothing.
use lightrec.Base.{
  ℕ, ◌≡◌, ◌≢◌, Bool, true, false, not, ◌||◌, ◌==◌, if◌then◌else◌, Bool-cases, ==_cases, inl, inr,
  refl, sym, ◌∙◌, ap, subst, some, arith,
}
use lightrec.Isa.{Code, Opcode, Standard, Special, Regimm, rs, rt, rd, op_of, special_of, regimm_of}
use lightrec.Optimizer.{opcode_reads_register, opcode_writes_register}
use lightrec.Interpreter.Regs.{Gpr, set_reg, set_reg_nonzero, set_reg_ne}
use lightrec.Interpreter.Regs.{set_reg_self}
use lightrec.Interpreter.Table.{regs, effect}
use lightrec.Interpreter.Frame.{effect_frame, is_sll_move}
use lightrec.Interpreter.Reads.{effect_reads}
use lightrec.Interpreter.Branch.{branch_condition, regimm_condition, int_beq, int_bgez}
use lightrec.Interpreter.Link.{
  set_link, set_link_of, set_link_special, set_link_regimm, special_jump, register_jump,
}
use lightrec.DelaySlots.Allow.{
  lightrec_can_switch_delay_slot, can_switch_of, can_switch_special, can_switch_regimm, touches,
  overwrites,
}

allowed_of :
    (c next : Code)
    → lightrec_can_switch_delay_slot c next ≡ true
    → can_switch_of (op_of c) c next ≡ true
unfolding lightrec_can_switch_delay_slot
allowed_of c next h = ground (arith, h)

or_none : (a b : Bool) → not (a || b) ≡ true → (a ≡ false) × (b ≡ false)
or_none a b h = ground arith

unless : (a b : Bool) → (if a then false else b) ≡ true → (not a ≡ true) × (b ≡ true)
unless a b h = ground arith

regs-injective : {g h : Gpr} → regs g ≡ regs h → g ≡ h
regs-injective e = cc

module _ (next : Opcode) (g g' : Gpr) (unmoved : is_sll_move next.c ≡ false)
    (slot : effect next g ≡ regs g') (fixed : g' 0 ≡ g 0) where
  kept : (r : ℕ) → not (opcode_writes_register next.c r) ≡ true → g' r ≡ g r
  kept r h = effect_frame next g g' r unmoved slot (ground (arith, h))

  kept_nonzero : (r : ℕ) → not (overwrites next.c r) ≡ true → g' r ≡ g r
  unfolding overwrites
  kept_nonzero r h = elim (==_cases r 0) [ inl z ↦ rw z fixed | inr ne ↦ kept r (rw ne at h) ]

  -- The link register is written before the slot runs, or after it.
  link_commutes :
      (r v : ℕ) (h' : Gpr)
      → effect next (set_reg r v g) ≡ regs h'
      → not (touches next.c r) ≡ true
      → (i : ℕ) → h' i ≡ set_reg r v g' i
  unfolding touches
  link_commutes r v h' e t i = elim (==_cases r i) [
    | inl same ↦
        rw (← same, set_reg_self)
          (effect_frame next (set_reg r v g) h' r unmoved e none.1 ∙ set_reg_self r v g)
    | inr ne ↦
        let apart : r ≢ i = ground (arith, ne) in
        effect_reads next (set_reg r v g) g h' g' unmoved
          (λ k reads. set_reg_ne r v g k (not_read k reads)) e slot i (set_reg_ne r v g i apart)
        ∙ sym (set_reg_ne r v g' i apart)
  ]
    where
      none : (opcode_reads_register next.c r ≡ false) × (opcode_writes_register next.c r ≡ false)
      none = or_none (opcode_reads_register next.c r) (opcode_writes_register next.c r) t

      not_read : (k : ℕ) → opcode_reads_register next.c k ≡ true → r ≢ k
      not_read k reads same =
          let z : opcode_reads_register next.c k ≡ false =
            subst (λ t. opcode_reads_register next.c t ≡ false) same none.0 in
          cc (z, reads)

  no_link : (h' : Gpr) → effect next g ≡ regs h' → (i : ℕ) → h' i ≡ g' i
  no_link h' e i = ap (λ (t : Gpr). t i) (regs-injective (sym e ∙ slot))

  same_beq :
      (c : Code) (bne : Bool)
      → (if overwrites next.c (rt c) then false else not (overwrites next.c (rs c))) ≡ true
      → int_beq c g' bne ≡ int_beq c g bne
  unfolding int_beq
  same_beq c bne h =
      let p = unless (overwrites next.c (rt c)) (not (overwrites next.c (rs c))) h in
      rw (kept_nonzero (rt c) p.0, kept_nonzero (rs c) p.1) refl

  same_bgez :
      (c : Code) (lt regimm : Bool)
      → not (overwrites next.c (rs c)) ≡ true
      → int_bgez c g' lt regimm ≡ int_bgez c g lt regimm
  unfolding int_bgez
  same_bgez c lt regimm h = rw (kept_nonzero (rs c) h) refl

  same_linked :
      (c : Code) (v : ℕ) (lt : Bool)
      → not (overwrites next.c (rs c)) ≡ true
      → int_bgez c (set_reg 31 v g') lt true ≡ int_bgez c (set_reg 31 v g) lt true
  unfolding int_bgez set_reg
  same_linked c v lt h = rw (kept_nonzero (rs c) h) refl

  -- The three parts of the theorem below.
  abbrev Unchanged : Standard → Code → ℕ → Gpr → Type 0
  Unchanged o c v h' =
      (branch_condition o c (set_link_of o c v g') ≡ branch_condition o c (set_link_of o c v g))
      × (register_jump o c g' ≡ register_jump o c g)
      × ((i : ℕ) → h' i ≡ set_link_of o c v g' i)

  sound_special :
      (k : Special) (c : Code) (v : ℕ) (h' : Gpr)
      → can_switch_special k c next.c ≡ true
      → effect next (set_link_special k c v g) ≡ regs h'
      → (special_jump k c g' ≡ special_jump k c g) × ((i : ℕ) → h' i ≡ set_link_special k c v g' i)
  unfolding can_switch_special set_link_special special_jump set_reg_nonzero
  sound_special Special.jr c v h' a e = (ap some (kept (rs c) a), no_link h' e)
  sound_special Special.jalr c v h' a e =
      let p = unless (touches next.c (rd c)) (not (opcode_writes_register next.c (rs c))) a in
      (
        ap some (kept (rs c) p.1),
        elim (Bool-cases (rd c == 0)) [
          | inl z ↦ rw z (no_link h' (rw z at e))
          | inr n ↦ rw n (link_commutes (rd c) v h' (rw n at e) p.0)
        ],
      )
  sound_special _ c v h' a e = (refl, no_link h' e)

  sound_regimm :
      (k : Regimm) (c : Code) (v : ℕ) (h' : Gpr)
      → can_switch_regimm k c next.c ≡ true
      → effect next (set_link_regimm k v g) ≡ regs h'
      → (regimm_condition k c (set_link_regimm k v g')
          ≡ regimm_condition k c (set_link_regimm k v g))
        × ((i : ℕ) → h' i ≡ set_link_regimm k v g' i)
  unfolding can_switch_regimm set_link_regimm regimm_condition
  sound_regimm Regimm.bltz c v h' a e = (same_bgez c true true a, no_link h' e)
  sound_regimm Regimm.bgez c v h' a e = (same_bgez c false true a, no_link h' e)
  sound_regimm Regimm.bltzal c v h' a e =
      let p = unless (touches next.c 31) (not (overwrites next.c (rs c))) a in
      (same_linked c v true p.1, link_commutes 31 v h' e p.0)
  sound_regimm Regimm.bgezal c v h' a e =
      let p = unless (touches next.c 31) (not (overwrites next.c (rs c))) a in
      (same_linked c v false p.1, link_commutes 31 v h' e p.0)
  sound_regimm _ c v h' a e = (refl, no_link h' e)

  sound_standard :
      (o : Standard) (c : Code) (v : ℕ) (h' : Gpr)
      → can_switch_of o c next.c ≡ true
      → effect next (set_link_of o c v g) ≡ regs h'
      → Unchanged o c v h'
  unfolding can_switch_of set_link_of register_jump branch_condition
  sound_standard Standard.special c v h' a e =
      let s = sound_special (special_of c) c v h' a e in (refl, s.0, s.1)
  sound_standard Standard.regimm c v h' a e =
      let s = sound_regimm (regimm_of c) c v h' a e in (s.0, refl, s.1)
  sound_standard Standard.jal c v h' a e = (refl, refl, link_commutes 31 v h' e a)
  sound_standard Standard.beq c v h' a e = (same_beq c false a, refl, no_link h' e)
  sound_standard Standard.bne c v h' a e = (same_beq c true a, refl, no_link h' e)
  sound_standard Standard.blez c v h' a e = (same_bgez c true false a, refl, no_link h' e)
  sound_standard Standard.bgtz c v h' a e = (same_bgez c false false a, refl, no_link h' e)
  sound_standard _ c v h' a e = (refl, refl, no_link h' e)

-- A branch that may change places with the opcode of its delay slot does the same after the slot as
-- before it. The slot leaves `g'` if it runs on `g`, and `h'` if it runs after the branch has
-- written its link register: the condition and a target that is read from a register are the same
-- on `g'` and on `g`, and linking after the slot gives `h'`. Conditions: the slot is an opcode that
-- works on registers alone and no `sll rd, rt, 0`, and it leaves register 0 as it was.
pub can_switch_commutes :
    (op next : Opcode) (v : ℕ) (g g' h' : Gpr)
    → lightrec_can_switch_delay_slot op.c next.c ≡ true
    → is_sll_move next.c ≡ false
    → g' 0 ≡ g 0
    → effect next g ≡ regs g'
    → effect next (set_link op.c v g) ≡ regs h'
    → (branch_condition (op_of op.c) op.c (set_link op.c v g')
        ≡ branch_condition (op_of op.c) op.c (set_link op.c v g))
      × (register_jump (op_of op.c) op.c g' ≡ register_jump (op_of op.c) op.c g)
      × ((i : ℕ) → h' i ≡ set_link op.c v g' i)
unfolding set_link
can_switch_commutes op next v g g' h' a m fixed slot linked =
    sound_standard next g g' m slot fixed (op_of op.c) op.c v h' (allowed_of op.c next.c a) linked
