-- ===== src/Regcache/Ready.antt =====
-- The steps of an allocation: a slot made ready for a guest register, and kept so.
use lightrec.Base.{
  ℕ, ◌<◌, ◌==◌, ◌≡◌, ◌≢◌, refl, sym, ◌∙◌, subst, ap, ltb, Bool, true, false, not, ◌&&◌, Option,
  none, some, List, ◌∷◌, inl, inr, arith, u32, Bool-cases, ==_cases, ==_refl,
}
use lightrec.Interpreter.Regs.{Gpr}
use lightrec.Regcache.Data.{
  NativeRegister, Lightning, Field, gpr, Emit, movi, ldxi_i, ldxi_ui, Regcache, emit, set_nreg,
  is_emulated,
}
use lightrec.Regcache.Search.{lightrec_reg_to_lightning, array_size}
use lightrec.Regcache.Alloc.{
  clean_reg, discarded, lightrec_discard_nreg, lightrec_unload_nreg, RegFlags, unload_other,
  load_in, clear_zero,
}
use lightrec.Regcache.Host.{Host, dest, target, Jit, run_code}
use lightrec.Regcache.Refines.{
  Maps, Owns, Implements, IsInjective, with_slot, with_slot_self, with_slot_ne, Refines-with_slot,
}
use lightrec.Regcache.WriteBack.{
  emulates_cases, u32_twice, unload_nreg-Implements, clean_reg-IsSaved,
}

-- Slot `i` may become the slot of `reg`: it maps nothing else, no output is in use in it, and no other
-- slot maps `reg`.
pub record Ready (l : Lightning) (j : Jit) (s : Host) (g : Gpr) (i reg : ℕ) (cache : Regcache)
    : Type 0 where
  pub implements : Implements l j s g cache
  pub only : (r : ℕ) → (cache.lightrec_regs i).emulated_register ≡ some r → r ≡ reg
  pub idle : ((cache.lightrec_regs i).used && (cache.lightrec_regs i).output) ≡ false
  pub alone : (k : ℕ) → k < array_size l → i ≢ k → ¬ Maps (cache.lightrec_regs k) reg

not_busy : {a b : Bool} → (a && b) ≡ false → a ≡ true → b ≡ true → ⊥
not_busy h p q = ground arith

module _ {l : Lightning} {j : Jit} {s : Host} {g : Gpr} (i reg : ℕ) {cache : Regcache}
    (lt : i < array_size l) (h : Ready l j s g i reg cache) where
  -- A change of slot `i` and of its host register that leaves the value of `reg` in it.
  pub Ready-step :
      (nreg : NativeRegister) (code : List Emit)
      → ((k : ℕ)
          → k < array_size l
          → i ≢ k
          → (run_code j code s).reg (lightrec_reg_to_lightning l k)
            ≡ (run_code j cache.code s).reg (lightrec_reg_to_lightning l k))
      → ((f : Field) → (run_code j code s).mem f ≡ (run_code j cache.code s).mem f)
      → ((r : ℕ) → nreg.emulated_register ≡ some r → r ≡ reg)
      → (Maps nreg reg → u32 ((run_code j code s).reg (lightrec_reg_to_lightning l i)) ≡ g reg)
      → (nreg.used && nreg.output) ≡ false
      → (reg ≢ 0
          → (cache.lightrec_regs i).emulated_register ≡ some reg
          → (cache.lightrec_regs i).prio ≡ 4
          → (nreg.emulated_register ≡ some reg) × (nreg.prio ≡ 4))
      → Ready l j s g i reg
          (record { lightrec_regs = with_slot i nreg cache.lightrec_regs; code = code })
  Ready-step nreg code kept mem only value idle dirty = record {
    implements = Refines-with_slot i lt h.implements (record {
      kept = kept;
      others = λ k r b ne m. refl;
      holds = λ r m. rw (only r m.1) (value (m.0, rw (only r m.1) at (m.1)));
      saves = λ r pos before. elim before [
        | inr m ↦ inr (ap u32 (mem _) ∙ m)
        | inl own ↦ elim own.1 [
          | inr busy ↦ absurd (not_busy h.idle busy.1 busy.2)
          | inl four ↦
              let same = h.only r own.0 in
              let kept_dirty = dirty (λ z. pos (same ∙ z)) (own.0 ∙ ap some same) four in
              inl (kept_dirty.0 ∙ ap some (sym same), inl kept_dirty.1)
        ]
      ];
      alone = λ k r b ne m old. h.alone k b ne (rw (only r m.1) at old);
      output = λ r pos u o e. absurd (ground arith);
    });
    only = λ r e. only r (rw (with_slot_self i nreg cache.lightrec_regs) at e);
    idle = rw (with_slot_self i nreg cache.lightrec_regs) idle;
    alone = λ k b ne. rw (with_slot_ne i k nreg cache.lightrec_regs ne) (h.alone k b ne);
  }

Owns-le : (nreg : NativeRegister) {r : ℕ} → Owns nreg r → nreg.prio < 3 → ⊥
Owns-le nreg (e, inl four) low = omega arith
Owns-le nreg (e, inr busy) low = omega arith

pub Owns-Maps : (nreg : NativeRegister) {r : ℕ} → Owns nreg r → Maps nreg r
Owns-Maps nreg (e, inl four) = (omega arith, e)
Owns-Maps nreg (e, inr busy) = (omega arith, e)

pub emulated : {e : Option ℕ} {r : ℕ} → e ≡ some r → is_emulated e r ≡ true
emulated {e} {r} h = rw h (==_refl r)

pub not_emulated : (e : Option ℕ) (r : ℕ) → e ≢ some r → is_emulated e r ≡ false
not_emulated none r ne = refl
not_emulated (some q) r ne = elim (==_cases q r) [ inl h ↦ absurd (ne (ap some h)) | inr h ↦ h ]

module _ (l : Lightning) (j : Jit) (inj : IsInjective l) (i : ℕ) (lt : i < array_size l) where
  -- A call that writes the host register of slot `i`, and no memory.
  kept-run :
      (e : Emit) (s : Host)
      → dest e ≡ some (lightrec_reg_to_lightning l i)
      → (k : ℕ) → k < array_size l
      → i ≢ k
      → (j.run e s).reg (lightrec_reg_to_lightning l k) ≡ s.reg (lightrec_reg_to_lightning l k)
  kept-run e s d k b ne = j.reg_frame e s _ (λ same. ne (inj i k lt b (ground arith)))

  mem-run : (e : Emit) (s : Host) → target e ≡ none → (f : Field) → (j.run e s).mem f ≡ s.mem f
  mem-run e s t f = j.mem_frame e s f (λ same. cc)

  module _ (s : Host) (g : Gpr) (reg : ℕ) (cache : Regcache) where
    -- `Ready-step` for one emitted call that writes the host register of the slot.
    pub change-Ready :
        (nreg : NativeRegister) (e : Emit)
        → dest e ≡ some (lightrec_reg_to_lightning l i)
        → target e ≡ none
        → Ready l j s g i reg cache
        → ((r : ℕ) → nreg.emulated_register ≡ some r → r ≡ reg)
        → (Maps nreg reg
            → u32 ((j.run e (run_code j cache.code s)).reg (lightrec_reg_to_lightning l i)) ≡ g reg)
        → (nreg.used && nreg.output) ≡ false
        → (reg ≢ 0
            → (cache.lightrec_regs i).emulated_register ≡ some reg
            → (cache.lightrec_regs i).prio ≡ 4
            → (nreg.emulated_register ≡ some reg) × (nreg.prio ≡ 4))
        → Ready l j s g i reg
            (record { lightrec_regs = with_slot i nreg cache.lightrec_regs; code = e ∷ cache.code })
    unfolding run_code
    change-Ready nreg e d t h only value idle dirty =
        Ready-step i reg lt h nreg (e ∷ cache.code) (kept-run e _ d) (mem-run e _ t) only value idle
          dirty

    -- A register that is in no slot is in memory.
    mem-Ready :
        Ready l j s g i reg cache
        → reg ≢ 0
        → (cache.lightrec_regs i).prio < 3
        → u32 ((run_code j cache.code s).mem (gpr (some reg))) ≡ g reg
    mem-Ready h pos low = elim (h.implements.saved reg pos) [
      | inr m ↦ m
      | inl (k, b, own) ↦ elim (==_cases i k) [
        | inl e ↦ absurd (
            Owns-le (cache.lightrec_regs i)
              (subst (λ x. Owns (cache.lightrec_regs x) reg) (sym e) own) low)
        | inr ne ↦ absurd (h.alone k b (ground arith) (Owns-Maps (cache.lightrec_regs k) own))
      ]
    ]

    pub ldxi_ui-value :
        Ready l j s g i reg cache
        → reg ≢ 0
        → (cache.lightrec_regs i).prio < 3
        → u32 (
            (j.run
                (ldxi_ui (lightrec_reg_to_lightning l i) (gpr (some reg)))
                (run_code j cache.code s)).reg
              (lightrec_reg_to_lightning l i))
          ≡ g reg
    ldxi_ui-value h pos low = ap u32 (j.run-ldxi_ui _ _ _) ∙ u32_twice _ ∙ mem-Ready h pos low

    pub ldxi_i-value :
        Ready l j s g i reg cache
        → reg ≢ 0
        → (cache.lightrec_regs i).prio < 3
        → u32 (
            (j.run
                (ldxi_i (lightrec_reg_to_lightning l i) (gpr (some reg)))
                (run_code j cache.code s)).reg
              (lightrec_reg_to_lightning l i))
          ≡ g reg
    ldxi_i-value h pos low = ap u32 (j.run-ldxi_i _ _ _) ∙ j.u32-sext _ ∙ mem-Ready h pos low

    pub movi-value :
        g 0 ≡ 0
        → reg ≡ 0
        → u32 (
            (j.run (movi (lightrec_reg_to_lightning l i) 0) (run_code j cache.code s)).reg
              (lightrec_reg_to_lightning l i))
          ≡ g reg
    unfolding u32
    movi-value zero_reg e = ap u32 (j.run-movi _ 0 _) ∙ sym (ap g e ∙ zero_reg)

    -- After the old register is unloaded, the slot is ready for `reg`.
    pub unload_other-Ready :
        Implements l j s g cache
        → ((cache.lightrec_regs i).used && (cache.lightrec_regs i).output) ≡ false
        → ((k : ℕ) → k < array_size l → i ≢ k → ¬ Maps (cache.lightrec_regs k) reg)
        → Ready l j s g i reg (unload_other i (lightrec_reg_to_lightning l i) reg cache)
    unfolding unload_other lightrec_unload_nreg lightrec_discard_nreg discarded set_nreg
    unload_other-Ready h idle alone =
        let (saved, same) = clean_reg-IsSaved j s cache i lt h idle in
        elim (emulates_cases (cache.lightrec_regs i).emulated_register reg) [
          | inl e ↦
              rw (emulated e)
                (record { implements = h; only = λ r f. ground arith; idle = idle; alone = alone })
          | inr ne ↦ rw (not_emulated _ reg ne) (record {
            implements = unload_nreg-Implements j s cache i lt h idle;
            only = λ r f. absurd (ground arith);
            idle = ground arith;
            alone = λ k b i-ne-k.
                subst (λ nreg. ¬ Maps nreg reg)
                  (sym (
                    with_slot_ne i k _
                      (clean_reg i (lightrec_reg_to_lightning l i) false cache).lightrec_regs i-ne-k
                    ∙ ap (λ regs. regs k) same))
                  (alone k b i-ne-k);
          })
        ]

    pub load_in-Ready :
        (flags : RegFlags)
        → Ready l j s g i reg cache
        → Ready l j s g i reg (load_in i (lightrec_reg_to_lightning l i) reg flags cache)
    unfolding load_in emit set_nreg run_code
    load_in-Ready flags h =
        elim (Bool-cases (ltb (cache.lightrec_regs i).prio 3 && not (reg == 0))) [
          | inr present ↦ rw present h
          | inl absent ↦ elim (Bool-cases flags.zext) [
            | inl z ↦
                rw (absent, z)
                  (change-Ready _ (ldxi_ui (lightrec_reg_to_lightning l i) (gpr (some reg))) refl
                    refl h h.only (λ m. ldxi_ui-value h (ground arith) (ground arith)) h.idle
                    (λ ne e four. absurd (ground arith)))
            | inr z ↦
                rw (absent, z)
                  (change-Ready _ (ldxi_i (lightrec_reg_to_lightning l i) (gpr (some reg))) refl
                    refl h h.only (λ m. ldxi_i-value h (ground arith) (ground arith)) h.idle
                    (λ ne e four. absurd (ground arith)))
          ]
        ]

    pub clear_zero-Ready :
        g 0 ≡ 0
        → Ready l j s g i reg cache
        → Ready l j s g i reg (clear_zero i (lightrec_reg_to_lightning l i) reg cache)
    unfolding clear_zero emit set_nreg run_code
    clear_zero-Ready zero_reg h =
        elim (Bool-cases (reg == 0 && not ((cache.lightrec_regs i).prio == 2))) [
          | inr present ↦ rw present h
          | inl absent ↦
              let reg-zero : reg ≡ 0 = ground arith in
              rw absent (
                change-Ready _ (movi (lightrec_reg_to_lightning l i) 0) refl refl h h.only
                  (λ m. movi-value zero_reg reg-zero) h.idle (λ ne e four. absurd (ne reg-zero)))
        ]
