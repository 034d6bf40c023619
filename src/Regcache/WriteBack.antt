-- ===== src/Regcache/WriteBack.antt =====
-- Writing a register back, discarding it and unloading it keep the file of guest registers.
use lightrec.Base.{
  ℕ, ◌<◌, ◌≤◌, ◌==◌, ◌≡◌, ◌≢◌, refl, ◌∙◌, subst, ap, Bool, true, false, ◌&&◌, Option, none, some,
  ◌⊎◌, inl, inr, arith, u32, ==_cases, ==_iff,
}
use lightrec.Interpreter.Regs.{Gpr}
use lightrec.Regcache.Data.{NativeRegister, Lightning, gpr, stxi_i, Regcache, emit, set_nreg}
use lightrec.Regcache.Search.{lightrec_reg_to_lightning, array_size}
use lightrec.Regcache.Alloc.{clean_reg, discarded, lightrec_discard_nreg, lightrec_unload_nreg}
use lightrec.Regcache.Host.{Host, Jit, run_code}
use lightrec.Regcache.Refines.{
  Maps, Owns, Refines, Implements, with_slot, with_slot_self, with_slot_ne, used-with_slot,
  Refines-with_slot,
}

pub emulates_cases : (e : Option ℕ) (r : ℕ) → (e ≡ some r) ⊎ (e ≢ some r)
emulates_cases none r = inr (λ h. cc)
emulates_cases (some q) r = elim (==_cases q r) [
  | inl h ↦ inl (ap some h)
  | inr ne ↦ inr (λ h. ground arith)
]

pub u32_twice : (x : ℕ) → u32 (u32 x) ≡ u32 x
unfolding u32
u32_twice x = omega arith

pub gpr_injective : (e : Option ℕ) (r : ℕ) → gpr e ≡ gpr (some r) → e ≡ some r
gpr_injective e r h = cc

module _ (j : Jit) (e : Option ℕ) (d : ℕ) (s : Host) where
  pub reg-store : (r : ℕ) → (j.run (stxi_i (gpr e) d) s).reg r ≡ s.reg r
  reg-store r = j.reg_frame (stxi_i (gpr e) d) s r (λ h. cc)

  mem-store_ne :
      (r : ℕ) → e ≢ some r → (j.run (stxi_i (gpr e) d) s).mem (gpr (some r)) ≡ s.mem (gpr (some r))
  mem-store_ne r ne =
      j.mem_frame (stxi_i (gpr e) d) s (gpr (some r)) (λ h. ne (gpr_injective e r (cc)))

  mem-store_self :
      (r : ℕ) → e ≡ some r → u32 ((j.run (stxi_i (gpr e) d) s).mem (gpr (some r))) ≡ u32 (s.reg d)
  mem-store_self r eq =
      subst (λ x. u32 ((j.run (stxi_i (gpr e) d) s).mem (gpr x)) ≡ u32 (s.reg d)) eq
        (ap u32 (j.run-stxi_i (gpr e) d s) ∙ u32_twice (s.reg d))

-- A slot that is neither dirty nor used has no register alone.
not_owned :
    (nreg : NativeRegister) → nreg.used ≡ false → (nreg.prio == 4) ≡ false → (r : ℕ) → ¬ Owns nreg r
not_owned nreg unused ne r (e, inl four) = absurd (ground arith)
not_owned nreg unused ne r (e, inr busy) = absurd (ground arith)

-- What a slot alone has is in memory too.
abbrev pub IsSaved : Gpr → Host → NativeRegister → Type 0
IsSaved g s nreg = (r : ℕ) → r ≢ 0 → Owns nreg r → u32 (s.mem (gpr (some r))) ≡ g r

module _ {l : Lightning} {g : Gpr} {regs : ℕ → NativeRegister} (i : ℕ) (lt : i < array_size l) where
  module _ (j : Jit) {s : Host} (h : Refines l g s regs) (dirty : (regs i).prio ≡ 4) where
    abbrev after_store : Host
    after_store = j.run (stxi_i (gpr (regs i).emulated_register) (lightrec_reg_to_lightning l i)) s

    mem-after_store :
        (r : ℕ) → (regs i).emulated_register ≡ some r → u32 (after_store.mem (gpr (some r))) ≡ g r
    mem-after_store r e =
        mem-store_self j (regs i).emulated_register (lightrec_reg_to_lightning l i) s r e
        ∙ h.mapped i r lt (omega arith, e)

    -- What memory has, it keeps.
    pub mem-store_keeps :
        (r : ℕ) → u32 (s.mem (gpr (some r))) ≡ g r → u32 (after_store.mem (gpr (some r))) ≡ g r
    mem-store_keeps r m = elim (emulates_cases (regs i).emulated_register r) [
      | inl e ↦ mem-after_store r e
      | inr ne ↦ ap u32 (mem-store_ne j _ _ s r ne) ∙ m
    ]

    pub Refines-store : Refines l g after_store regs
    Refines-store = record {
      mapped = λ k r b m. ap u32 (reg-store j _ _ s _) ∙ h.mapped k r b m;
      saved = λ r pos. elim (emulates_cases (regs i).emulated_register r) [
        | inl e ↦ inr (mem-after_store r e)
        | inr ne ↦ elim (h.saved r pos) [
          | inl own ↦ inl own
          | inr m ↦ inr (ap u32 (mem-store_ne j _ _ s r ne) ∙ m)
        ]
      ];
      unique = h.unique;
      outputs = h.outputs;
    }

    pub IsSaved-store : IsSaved g after_store (regs i)
    IsSaved-store r pos own = mem-after_store r own.0

  -- A slot whose register is saved may give up what it alone had.
  pub Refines-settle :
      {s : Host} (nreg : NativeRegister)
      → Refines l g s regs
      → IsSaved g s (regs i)
      → ((r : ℕ) → Maps nreg r → Maps (regs i) r)
      → ((r : ℕ)
          → r ≢ 0
          → nreg.used ≡ true
          → nreg.output ≡ true
          → nreg.emulated_register ≡ some r
          → 3 ≤ nreg.prio)
      → Refines l g s (with_slot i nreg regs)
  Refines-settle nreg h saved less output = Refines-with_slot i lt h (record {
    kept = λ k b ne. refl;
    others = λ k r b ne m. refl;
    holds = λ r m. h.mapped i r lt (less r m);
    saves = λ r pos before. elim before [ inl own ↦ inr (saved r pos own) | inr m ↦ inr m ];
    alone = λ k r b ne m old. ne (h.unique i k r lt b (less r m) old);
    output = output;
  })

module _ {l : Lightning} (j : Jit) (s : Host) {g : Gpr} (cache : Regcache) (i : ℕ)
    (lt : i < array_size l) (h : Implements l j s g cache) where
  -- `clean_reg` stores a dirty register back and changes no guest register.
  pub clean_reg-Implements :
      (clean : Bool) → Implements l j s g (clean_reg i (lightrec_reg_to_lightning l i) clean cache)
  unfolding clean_reg emit set_nreg run_code
  clean_reg-Implements false = elim (==_cases (cache.lightrec_regs i).prio 4) [
    | inr ne ↦ rw ne h
    | inl e ↦ rw ((==_iff _ _).1 e) (Refines-store i lt j h e)
  ]
  clean_reg-Implements true = elim (==_cases (cache.lightrec_regs i).prio 4) [
    | inr ne ↦ rw ne h
    | inl e ↦ rw ((==_iff _ _).1 e) (
        Refines-settle i lt _ (Refines-store i lt j h e) (IsSaved-store i lt j h e)
          (λ r m. (omega arith, m.1)) (λ r pos u o same. rw same (ground arith)))
  ]

  -- Where the register is no output in use, it is saved afterwards, and the slots are as they were.
  pub clean_reg-IsSaved :
      ((cache.lightrec_regs i).used && (cache.lightrec_regs i).output) ≡ false
      → let cleaned = clean_reg i (lightrec_reg_to_lightning l i) false cache in
        IsSaved g (run_code j cleaned.code s) (cache.lightrec_regs i)
        × (cleaned.lightrec_regs ≡ cache.lightrec_regs)
  unfolding clean_reg emit set_nreg run_code
  clean_reg-IsSaved idle = elim (==_cases (cache.lightrec_regs i).prio 4) [
    | inl e ↦ rw ((==_iff _ _).1 e) (IsSaved-store i lt j h e, refl)
    | inr ne ↦ rw ne (
      (λ r pos own. elim own.1 [
        | inl dirty ↦ absurd (ground arith)
        | inr busy ↦ absurd (ground arith)
      ]),
      refl,
    )
  ]

  -- `lightrec_unload_nreg` changes no guest register where the register is no output in use.
  pub unload_nreg-Implements :
      ((cache.lightrec_regs i).used && (cache.lightrec_regs i).output) ≡ false
      → Implements l j s g (lightrec_unload_nreg i (lightrec_reg_to_lightning l i) cache)
  unfolding lightrec_unload_nreg lightrec_discard_nreg discarded set_nreg
  unload_nreg-Implements idle =
      let (saved, same) = clean_reg-IsSaved idle in
      Refines-settle i lt _ (clean_reg-Implements false) (rw same saved)
        (λ r m. absurd (omega arith)) (λ r pos u. absurd (cc))

  -- Without outputs in use, a cleaned register is saved in any case.
  pub clean_reg-saves :
      (clean : Bool)
      → (cache.lightrec_regs i).used ≡ false
      → let cleaned = clean_reg i (lightrec_reg_to_lightning l i) clean cache in
        IsSaved g (run_code j cleaned.code s) (cleaned.lightrec_regs i)
        × ((k : ℕ) → (cleaned.lightrec_regs k).used ≡ (cache.lightrec_regs k).used)
        × ((k : ℕ) → i ≢ k → cleaned.lightrec_regs k ≡ cache.lightrec_regs k)
        × ((r : ℕ)
            → u32 ((run_code j cache.code s).mem (gpr (some r))) ≡ g r
            → u32 ((run_code j cleaned.code s).mem (gpr (some r))) ≡ g r)
  unfolding clean_reg emit set_nreg run_code
  clean_reg-saves false unused = elim (==_cases (cache.lightrec_regs i).prio 4) [
    | inl e ↦
        rw ((==_iff _ _).1 e)
          (IsSaved-store i lt j h e, λ k. refl, λ k ne. refl, λ r m. mem-store_keeps i lt j h e r m)
    | inr ne ↦ rw ne (
      λ r pos own. absurd (not_owned (cache.lightrec_regs i) unused ne r own),
      λ k. refl,
      λ k ne. refl,
      λ r m. m,
    )
  ]
  clean_reg-saves true unused = elim (==_cases (cache.lightrec_regs i).prio 4) [
    | inl e ↦ rw ((==_iff _ _).1 e) (
      λ r pos own.
          mem-after_store i lt j h e r (rw (with_slot_self i _ cache.lightrec_regs) at (own.0)),
      λ k. used-with_slot i _ cache.lightrec_regs refl k,
      λ k ne. with_slot_ne i k _ cache.lightrec_regs ne,
      λ r m. mem-store_keeps i lt j h e r m,
    )
    | inr ne ↦ rw ne (
      λ r pos own. absurd (not_owned (cache.lightrec_regs i) unused ne r own),
      λ k. refl,
      λ k ne. refl,
      λ r m. m,
    )
  ]
