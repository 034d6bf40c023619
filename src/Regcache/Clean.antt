-- ===== src/Regcache/Clean.antt =====
-- `clean_regs` over all slots brings every guest register to memory.
use lightrec.Base.{
  ℕ, zero, suc, ◌+◌, ◌<◌, ◌≤◌, ◌≡◌, ◌≢◌, ◌∙◌, subst, Bool, false, some, inl, inr, arith, u32,
  ==_cases,
}
use lightrec.Interpreter.Regs.{Gpr}
use lightrec.Regcache.Data.{Lightning, gpr, Regcache}
use lightrec.Regcache.Search.{lightrec_reg_to_lightning, array_size}
use lightrec.Regcache.Alloc.{clean_reg}
use lightrec.Regcache.Flags.{clean_from, clean_regs, lightrec_free_regs}
use lightrec.Regcache.Host.{Host, Jit, run_code}
use lightrec.Regcache.Refines.{Owns, Implements}
use lightrec.Regcache.WriteBack.{IsSaved, clean_reg-Implements, clean_reg-saves}
use lightrec.Regcache.Writes.{free_regs-Implements}

-- No slot is used; the slots below `n` have nothing that memory has not.
record Progress (l : Lightning) (j : Jit) (s : Host) (g : Gpr) (n : ℕ) (cache : Regcache)
    : Type 0 where
  pub implements : Implements l j s g cache
  pub unused : (k : ℕ) → k < array_size l → (cache.lightrec_regs k).used ≡ false
  pub saved : (k : ℕ) → k < n → IsSaved g (run_code j cache.code s) (cache.lightrec_regs k)

module _ (l : Lightning) (j : Jit) (s : Host) (g : Gpr) (clean : Bool) where
  clean_reg-Progress :
      (i : ℕ) (cache : Regcache)
      → i < array_size l
      → Progress l j s g i cache
      → Progress l j s g (i + 1) (clean_reg i (lightrec_reg_to_lightning l i) clean cache)
  clean_reg-Progress i cache lt p =
      let (saved, unused, others, mem) =
        clean_reg-saves j s cache i lt p.implements clean (p.unused i lt) in
      record {
        implements = clean_reg-Implements j s cache i lt p.implements clean;
        unused = λ k b. unused k ∙ p.unused k b;
        saved = λ k b. elim (==_cases i k) [
          | inl e ↦
              subst
                (λ x.
                  IsSaved g
                    (run_code j (clean_reg i (lightrec_reg_to_lightning l i) clean cache).code s)
                    ((clean_reg i (lightrec_reg_to_lightning l i) clean cache).lightrec_regs x))
                e saved
          | inr ne ↦
              let i-ne-k : i ≢ k = ground arith in
              λ r pos own.
                mem r (p.saved k (ground arith) r pos (subst (λ n. Owns n r) (others k i-ne-k) own))
        ];
      }

  clean_from-Progress :
      (n i : ℕ) (cache : Regcache)
      → i + n ≤ array_size l
      → Progress l j s g i cache
      → Progress l j s g (i + n) (clean_from l n i clean cache)
  unfolding clean_from
  clean_from-Progress zero i cache b p = subst (λ k. Progress l j s g k cache) (omega arith) p
  clean_from-Progress (suc n) i cache b p =
      subst (λ k. Progress l j s g k (clean_from l (suc n) i clean cache)) (omega arith)
        (clean_from-Progress n (i + 1) _ (omega arith) (clean_reg-Progress i cache (omega arith) p))

  clean_regs-Progress :
      (cache : Regcache)
      → Progress l j s g 0 cache
      → Progress l j s g (array_size l) (clean_regs l clean cache)
  unfolding clean_regs
  clean_regs-Progress cache p = clean_from-Progress l.num_temps l.num_regs _ (omega arith) (
      subst (λ k. Progress l j s g k (clean_from l l.num_regs 0 clean cache)) (omega arith)
        (clean_from-Progress l.num_regs 0 cache (omega arith) p))

  -- Freeing and then cleaning (or storing back) all registers of a cache that stands for the guest
  -- registers changes no guest register, and puts the value of each but r0 in memory.
  pub clean_regs-free_regs :
      (cache : Regcache)
      → Implements l j s g cache
      → let cleaned = clean_regs l clean (lightrec_free_regs l cache) in
        Implements l j s g cleaned
        × ((r : ℕ) → r ≢ 0 → u32 ((run_code j cleaned.code s).mem (gpr (some r))) ≡ g r)
  clean_regs-free_regs cache h =
      let (freed, unused) = free_regs-Implements l j s g cache h in
      let p =
        clean_regs-Progress (lightrec_free_regs l cache)
          (record { implements = freed; unused = unused; saved = λ k b. absurd (omega arith) }) in
      (
        p.implements,
        λ r pos. elim (p.implements.saved r pos) [
          | inl (k, b, own) ↦ p.saved k b r pos own
          | inr m ↦ m
        ],
      )
