-- ===== src/Regcache/Writes.antt =====
-- Outputs: `lightrec_alloc_reg_out`, a write of the register it gives, and the end of its use.
use lightrec.Base.{
  ℕ, ◌<◌, ◌≤◌, ◌≡◌, ◌≢◌, refl, sym, ◌∙◌, subst, ap, ltb, true, false, ◌&&◌, if◌then◌else◌, none,
  some, inl, inr, arith, u32, Bool-cases, ==_cases, lt→ltb,
}
use lightrec.Interpreter.Regs.{Gpr, set_reg, set_reg_self, set_reg_ne}
use lightrec.Regcache.Data.{NativeRegister, Lightning, Field, Regcache, set_nreg}
use lightrec.Regcache.Search.{
  lightrec_get_hardwired_reg, lightrec_reg_to_lightning, array_size, is_free, alloc_in_out,
}
use lightrec.Regcache.Alloc.{RegFlags, unload_other, map_out, take_out, lightrec_alloc_reg_out}
use lightrec.Regcache.Flags.{is_positive, free_reg, lightrec_free_regs}
use lightrec.Regcache.Host.{Host, Jit, run_code}
use lightrec.Regcache.Refines.{Maps, Owns, Refines, Implements, IsInjective, Refines-with_slot}
use lightrec.Regcache.Slots.{alloc_in_out-Slot}
use lightrec.Regcache.Ready.{Ready, unload_other-Ready}

-- `s'` is `s` but for the host register `jit_reg`.
pub record WritesOnly (l : Lightning) (jit_reg : ℕ) (s s' : Host) : Type 0 where
  pub others :
      (k : ℕ)
      → k < array_size l
      → lightrec_reg_to_lightning l k ≢ jit_reg
      → s'.reg (lightrec_reg_to_lightning l k) ≡ s.reg (lightrec_reg_to_lightning l k)
  pub memory : (f : Field) → s'.mem f ≡ s.mem f

module _ (l : Lightning) (j : Jit) (inj : IsInjective l) (s : Host) (g : Gpr) (reg : ℕ)
    (flags : RegFlags) (pos : reg ≢ 0) where
  map_out-Refines :
      (i : ℕ) (cache : Regcache) (s' : Host)
      → i < array_size l
      → Ready l j s g i reg cache
      → WritesOnly l (lightrec_reg_to_lightning l i) (run_code j cache.code s) s'
      → Refines l
          (set_reg reg (u32 (s'.reg (lightrec_reg_to_lightning l i))) g)
          s'
          (map_out i reg flags cache).lightrec_regs
  unfolding map_out set_nreg
  map_out-Refines i cache s' lt h w =
      let value = u32 (s'.reg (lightrec_reg_to_lightning l i)) in
      Refines-with_slot i lt h.implements (record {
        kept = λ k b ne. w.others k b (λ e. ne (sym (inj k i b lt e)));
        others = λ k r b ne m.
            set_reg_ne reg value g r
              (λ e. h.alone k b ne (subst (Maps (cache.lightrec_regs k)) (sym e) m));
        holds = λ r m.
            let e : reg ≡ r = ground arith in
            sym (subst (λ x. set_reg reg value g x ≡ value) e (set_reg_self reg value g));
        saves = λ r nz before. elim (==_cases reg r) [
          | inl e ↦ inl (ap some e, inr (ground arith, refl, refl))
          | inr ne ↦ elim before [
            | inl own ↦ absurd (ground (arith, h.only r own.0))
            | inr m ↦ inr (ap u32 (w.memory _) ∙ m ∙ sym (set_reg_ne reg value g r (ground arith)))
          ]
        ];
        alone = λ k r b ne m old.
            h.alone k b ne (subst (Maps (cache.lightrec_regs k)) (ground arith) old);
        output = λ r nz u o e. ground arith;
      })

  take_out-Refines :
      (cache : Regcache) (i : ℕ)
      → i < array_size l
      → Implements l j s g cache
      → ((cache.lightrec_regs i).used && (cache.lightrec_regs i).output) ≡ false
      → ((k : ℕ) → k < array_size l → i ≢ k → ¬ Maps (cache.lightrec_regs k) reg)
      → let (jit_reg, taken) = take_out l i reg flags cache in
        (s' : Host)
        → WritesOnly l jit_reg (run_code j taken.code s) s'
        → Refines l (set_reg reg (u32 (s'.reg jit_reg)) g) s' taken.lightrec_regs
  unfolding take_out map_out set_nreg
  take_out-Refines cache i lt h idle alone s' w =
      map_out-Refines i (unload_other i (lightrec_reg_to_lightning l i) reg cache) s' lt
        (unload_other-Ready l j inj i lt s g reg cache h idle alone) w

  alloc_reg_out-take_out :
      (cache : Regcache) {i : ℕ}
      → lightrec_get_hardwired_reg l reg ≡ none
      → alloc_in_out l cache reg true ≡ some i
      → lightrec_alloc_reg_out l reg flags cache ≡ take_out l i reg flags cache
  unfolding lightrec_alloc_reg_out
  alloc_reg_out-take_out cache soft e = rw (lightrec_alloc_reg_out, soft, e)

  -- Where host registers are distinct, the cache stands for the guest registers, a slot is free and
  -- none is locked, and `reg` is not r0, not hardwired, and not in a slot that is in use as an output:
  -- whatever is written to the host register that `lightrec_alloc_reg_out` gives, and to no other
  -- register of the cache or word of the state, `reg` has the low word of it and the other guest
  -- registers are as they were.
  pub alloc_reg_out-Refines :
      (cache : Regcache)
      → Implements l j s g cache
      → lightrec_get_hardwired_reg l reg ≡ none
      → ((m : ℕ) → m < array_size l → (cache.lightrec_regs m).locked ≡ false)
      → ((k : ℕ)
          → k < array_size l
          → Maps (cache.lightrec_regs k) reg
          → ((cache.lightrec_regs k).used && (cache.lightrec_regs k).output) ≡ false)
      → (k : ℕ) × (k < array_size l)
        × (is_free (cache.lightrec_regs k) ≡ true)
        × ((cache.lightrec_regs k).prio < 5)
      → let (jit_reg, taken) = lightrec_alloc_reg_out l reg flags cache in
        (s' : Host)
        → WritesOnly l jit_reg (run_code j taken.code s) s'
        → Refines l (set_reg reg (u32 (s'.reg jit_reg)) g) s' taken.lightrec_regs
  alloc_reg_out-Refines cache h soft unlocked idle room =
      let (i, e, lt, rest, alone) =
        alloc_in_out-Slot l j s g cache reg true h (λ m b. ground (arith, unlocked m b)) idle
          room in
      subst
        (λ (r : ℕ × Regcache).
          (s' : Host)
          → WritesOnly l r.0 (run_code j r.1.code s) s'
          → Refines l (set_reg reg (u32 (s'.reg r.0)) g) s' r.1.lightrec_regs)
        (sym (alloc_reg_out-take_out cache soft e)) (take_out-Refines cache i lt h rest alone)

-- The end of a register's use leaves its claims as they were.
free_reg-Maps :
    (nreg : NativeRegister) (r : ℕ)
    → (r ≢ 0
        → nreg.used ≡ true
        → nreg.output ≡ true
        → nreg.emulated_register ≡ some r
        → 3 ≤ nreg.prio)
    → Maps (free_reg nreg) r
    → Maps nreg r
unfolding free_reg
free_reg-Maps nreg r outputs m =
    let positive : is_positive nreg.emulated_register ≡ ltb 0 r = rw (m.1) in
    elim (Bool-cases (nreg.used && nreg.output && is_positive nreg.emulated_register)) [
      | inl d ↦
          let three = outputs (ground arith) (ground arith) (ground arith) m.1 in (omega arith, m.1)
      | inr clean ↦ (rw clean at (m.0), m.1)
    ]

free_reg-Owns : (nreg : NativeRegister) (r : ℕ) → r ≢ 0 → Owns nreg r → Owns (free_reg nreg) r
unfolding free_reg
free_reg-Owns nreg r pos (e, inl four) = (e, inl (ground arith))
free_reg-Owns nreg r pos (e, inr (three, used, output)) =
    let positive : is_positive nreg.emulated_register ≡ true = rw e (ground arith) in
    (e, inl (rw (used, output, positive)))

free_reg-unused : (nreg : NativeRegister) → (free_reg nreg).used ≡ false
unfolding free_reg
free_reg-unused nreg = refl

free_reg-used : (nreg : NativeRegister) → (free_reg nreg).used ≡ true → ⊥
unfolding free_reg
free_reg-used nreg u = cc

-- `lightrec_free_regs` changes no guest register, and leaves no output in use.
pub free_regs-Implements :
    (l : Lightning) (j : Jit) (s : Host) (g : Gpr) (cache : Regcache)
    → Implements l j s g cache
    → Implements l j s g (lightrec_free_regs l cache)
      × ((k : ℕ) → k < array_size l → ((lightrec_free_regs l cache).lightrec_regs k).used ≡ false)
unfolding lightrec_free_regs
free_regs-Implements l j s g cache h =
    let regs = cache.lightrec_regs in
    let here : (k : ℕ) → k < array_size l → ltb k (array_size l) ≡ true = λ k b. lt→ltb k _ b in
    let less : (k r : ℕ)
        → k < array_size l
        → Maps (if ltb k (array_size l) then free_reg (regs k) else regs k) r
        → Maps (regs k) r =
      λ k r b m. free_reg-Maps (regs k) r (h.outputs k r b) (rw (here k b) at m) in
    (
      record {
        mapped = λ k r b m. h.mapped k r b (less k r b m);
        saved = λ r pos. elim (h.saved r pos) [
          | inl (k, b, own) ↦ inl (k, b, rw (here k b) (free_reg-Owns (regs k) r pos own))
          | inr m ↦ inr m
        ];
        unique = λ k m r bk bm hk hm. h.unique k m r bk bm (less k r bk hk) (less m r bm hm);
        outputs = λ k r b pos u. absurd (free_reg-used (regs k) (rw (here k b) at u));
      },
      λ k b. rw (here k b) (free_reg-unused (regs k)),
    )
