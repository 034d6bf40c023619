-- ===== src/Regcache/Temps.antt =====
-- `lightrec_alloc_reg_temp` gives a host register that has no guest register.
use lightrec.Base.{
  ℕ, ◌<◌, ◌≡◌, ◌≢◌, refl, sym, ◌∙◌, subst, ap, true, false, ◌&&◌, Option, none, some, ◌⊎◌, inl, inr,
  arith, u32,
}
use lightrec.Interpreter.Regs.{Gpr}
use lightrec.Regcache.Data.{NativeRegister, Lightning, Regcache, set_nreg}
use lightrec.Regcache.Search.{lightrec_reg_to_lightning, array_size, is_free, alloc_temp}
use lightrec.Regcache.Alloc.{
  discarded, lightrec_discard_nreg, lightrec_unload_nreg, clean_reg, take_temp,
  lightrec_alloc_reg_temp,
}
use lightrec.Regcache.Host.{Host, Jit, run_code}
use lightrec.Regcache.Refines.{Refines, Implements, IsInjective, with_slot_self, Refines-with_slot}
use lightrec.Regcache.WriteBack.{unload_nreg-Implements}
use lightrec.Regcache.Find.{IsBest, alloc_temp-IsBest}
use lightrec.Regcache.Writes.{WritesOnly}

not_some : {r : ℕ} → ◌≡◌ {A = Option ℕ} none (some r) → ⊥
not_some h = cc

option_cases : (o : Option ℕ) → (o ≡ none) ⊎ ((i : ℕ) × (o ≡ some i))
option_cases none = inl refl
option_cases (some i) = inr (i, refl)

module _ (l : Lightning) (j : Jit) (inj : IsInjective l) (s : Host) (g : Gpr) (cache : Regcache)
    (h : Implements l j s g cache) where
  emptied :
      (i : ℕ) (r : ℕ)
      → ((lightrec_unload_nreg i (lightrec_reg_to_lightning l i) cache).lightrec_regs
          i).emulated_register
        ≢ some r
  unfolding lightrec_unload_nreg lightrec_discard_nreg discarded set_nreg
  emptied i r e =
      let empty =
        ap (λ (n : NativeRegister). n.emulated_register)
          (with_slot_self i _
            (clean_reg i (lightrec_reg_to_lightning l i) false cache).lightrec_regs) in
      not_some (sym empty ∙ e)

  take_temp-Refines :
      (i : ℕ)
      → i < array_size l
      → ((cache.lightrec_regs i).used && (cache.lightrec_regs i).output) ≡ false
      → let (jit_reg, taken) = take_temp l i cache in
        (s' : Host)
        → WritesOnly l jit_reg (run_code j taken.code s) s'
        → Refines l g s' taken.lightrec_regs
  unfolding take_temp set_nreg
  take_temp-Refines i lt idle s' w =
      Refines-with_slot i lt (unload_nreg-Implements j s cache i lt h idle) (record {
        kept = λ k b ne. w.others k b (λ e. ne (sym (inj k i b lt e)));
        others = λ k r b ne m. refl;
        holds = λ r m. absurd (emptied i r (m.1));
        saves = λ r pos before. elim before [
          | inl own ↦ absurd (emptied i r own.0)
          | inr m ↦ inr (ap u32 (w.memory _) ∙ m)
        ];
        alone = λ k r b ne m. absurd (emptied i r (m.1));
        output = λ r pos u o e. absurd (emptied i r e);
      })

  alloc_reg_temp-take_temp :
      {i : ℕ} → alloc_temp l cache ≡ some i → lightrec_alloc_reg_temp l cache ≡ take_temp l i cache
  unfolding lightrec_alloc_reg_temp
  alloc_reg_temp-take_temp e = rw (lightrec_alloc_reg_temp, e)

  found : {i : ℕ} → alloc_temp l cache ≡ some i → IsBest cache.lightrec_regs (array_size l) (some i)
  found e = subst (IsBest cache.lightrec_regs (array_size l)) e (alloc_temp-IsBest l cache)

  -- Where host registers are distinct, the cache stands for the guest registers and a slot is free:
  -- whatever is written to the host register that `lightrec_alloc_reg_temp` gives, and to no other
  -- register of the cache or word of the state, the guest registers are as they were.
  pub alloc_reg_temp-Refines :
      (k : ℕ) × (k < array_size l)
        × (is_free (cache.lightrec_regs k) ≡ true)
        × ((cache.lightrec_regs k).prio < 5)
      → let (jit_reg, taken) = lightrec_alloc_reg_temp l cache in
        (s' : Host)
        → WritesOnly l jit_reg (run_code j taken.code s) s'
        → Refines l g s' taken.lightrec_regs
  alloc_reg_temp-Refines (k, b, free, low) = elim (option_cases (alloc_temp l cache)) [
    | inl e ↦
        let nothing =
          subst (IsBest cache.lightrec_regs (array_size l)) e (alloc_temp-IsBest l cache) in
        absurd (omega (arith, nothing k b free))
    | inr (i, e) ↦
        let best = found e in
        subst
          (λ (r : ℕ × Regcache).
            (s' : Host)
            → WritesOnly l r.0 (run_code j r.1.code s) s'
            → Refines l g s' r.1.lightrec_regs)
          (sym (alloc_reg_temp-take_temp e)) (take_temp-Refines i best.0 (ground arith))
  ]
