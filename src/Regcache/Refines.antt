-- ===== src/Regcache/Refines.antt =====
-- The cache and the host registers together as one file of guest registers, and how a change of one
-- slot keeps that.
use lightrec.Base.{
  ℕ, ◌≤◌, ◌<◌, ◌==◌, ◌≡◌, ◌≢◌, sym, ◌∙◌, subst, ap, true, if◌then◌else◌, some, ◌⊎◌, inl, inr, arith,
  u32, ==_cases, ==_refl,
}
use lightrec.Interpreter.Regs.{Gpr}
use lightrec.Regcache.Data.{NativeRegister, Lightning, gpr, Regcache}
use lightrec.Regcache.Search.{lightrec_reg_to_lightning, array_size}
use lightrec.Regcache.Host.{Host, Jit, run_code}

-- The slot maps guest register `r`.
abbrev pub Maps : NativeRegister → ℕ → Type 0
Maps nreg r = (2 ≤ nreg.prio) × (nreg.emulated_register ≡ some r)

-- The slot has the only copy of guest register `r`: it is dirty, or an output in use.
abbrev pub Owns : NativeRegister → ℕ → Type 0
Owns nreg r =
    (nreg.emulated_register ≡ some r)
    × ((nreg.prio ≡ 4) ⊎ ((3 ≤ nreg.prio) × (nreg.used ≡ true) × (nreg.output ≡ true)))

-- `saved` is about every register but r0, whose word in memory nothing reads.
pub record Refines (l : Lightning) (g : Gpr) (s : Host) (regs : ℕ → NativeRegister) : Type 0 where
  pub mapped :
      (i r : ℕ)
      → i < array_size l
      → Maps (regs i) r
      → u32 (s.reg (lightrec_reg_to_lightning l i)) ≡ g r
  pub saved :
      (r : ℕ)
      → r ≢ 0
      → ((i : ℕ) × (i < array_size l) × Owns (regs i) r) ⊎ (u32 (s.mem (gpr (some r))) ≡ g r)
  pub unique :
      (i k r : ℕ) → i < array_size l → k < array_size l → Maps (regs i) r → Maps (regs k) r → i ≡ k
  pub outputs :
      (i r : ℕ)
      → i < array_size l
      → r ≢ 0
      → (regs i).used ≡ true
      → (regs i).output ≡ true
      → (regs i).emulated_register ≡ some r
      → 3 ≤ (regs i).prio

-- The cache, with its code run from `s`, holds the guest registers `g`.
abbrev pub Implements : Lightning → Jit → Host → Gpr → Regcache → Type 0
Implements l j s g cache = Refines l g (run_code j cache.code s) cache.lightrec_regs

-- Distinct slots are distinct registers of the host.
abbrev pub IsInjective : Lightning → Type 0
IsInjective l =
    (i k : ℕ)
    → i < array_size l
    → k < array_size l
    → lightrec_reg_to_lightning l i ≡ lightrec_reg_to_lightning l k
    → i ≡ k

abbrev pub with_slot : ℕ → NativeRegister → (ℕ → NativeRegister) → ℕ → NativeRegister
with_slot i nreg regs = λ k. if i == k then nreg else regs k

pub with_slot_self :
    (i : ℕ) (nreg : NativeRegister) (regs : ℕ → NativeRegister) → with_slot i nreg regs i ≡ nreg
with_slot_self i nreg regs = rw (==_refl i)

pub with_slot_ne :
    (i k : ℕ) (nreg : NativeRegister) (regs : ℕ → NativeRegister)
    → i ≢ k
    → with_slot i nreg regs k ≡ regs k
with_slot_ne i k nreg regs ne = elim (==_cases i k) [ inl e ↦ absurd (ne e) | inr h ↦ rw h ]

pub used-with_slot :
    (i : ℕ) (nreg : NativeRegister) (regs : ℕ → NativeRegister)
    → nreg.used ≡ (regs i).used
    → (k : ℕ) → (with_slot i nreg regs k).used ≡ (regs k).used
used-with_slot i nreg regs h k = elim (==_cases i k) [
  | inl e ↦ rw (← e, with_slot_self i nreg regs) h
  | inr ne ↦ rw ne
]

-- What a change of slot `i` to `nreg`, of the host to `s'` and of the guest to `g'` must satisfy.
pub record Changes (l : Lightning) (g g' : Gpr) (s s' : Host) (regs : ℕ → NativeRegister) (i : ℕ)
    (nreg : NativeRegister) : Type 0 where
  pub kept :
      (k : ℕ)
      → k < array_size l
      → i ≢ k
      → s'.reg (lightrec_reg_to_lightning l k) ≡ s.reg (lightrec_reg_to_lightning l k)
  pub others : (k r : ℕ) → k < array_size l → i ≢ k → Maps (regs k) r → g' r ≡ g r
  pub holds : (r : ℕ) → Maps nreg r → u32 (s'.reg (lightrec_reg_to_lightning l i)) ≡ g' r
  pub saves :
      (r : ℕ)
      → r ≢ 0
      → Owns (regs i) r ⊎ (u32 (s.mem (gpr (some r))) ≡ g r)
      → Owns nreg r ⊎ (u32 (s'.mem (gpr (some r))) ≡ g' r)
  pub alone : (k r : ℕ) → k < array_size l → i ≢ k → Maps nreg r → ¬ Maps (regs k) r
  pub output :
      (r : ℕ)
      → r ≢ 0
      → nreg.used ≡ true
      → nreg.output ≡ true
      → nreg.emulated_register ≡ some r
      → 3 ≤ nreg.prio

module _ {l : Lightning} {g g' : Gpr} {s s' : Host} {regs : ℕ → NativeRegister} (i : ℕ)
    {nreg : NativeRegister} (lt : i < array_size l) (h : Refines l g s regs)
    (c : Changes l g g' s s' regs i nreg) where
  here : with_slot i nreg regs i ≡ nreg
  here = rw (==_refl i)

  mapped_after :
      (k r : ℕ)
      → k < array_size l
      → Maps (with_slot i nreg regs k) r
      → u32 (s'.reg (lightrec_reg_to_lightning l k)) ≡ g' r
  mapped_after k r b m = elim (==_cases i k) [
    | inl e ↦
        subst (λ x. u32 (s'.reg (lightrec_reg_to_lightning l x)) ≡ g' r) e
          (c.holds r (rw (← e, here) at m))
    | inr ne ↦
        let old : Maps (regs k) r = rw ne at m in
        let i-ne-k : i ≢ k = ground arith in
        ap u32 (c.kept k b i-ne-k) ∙ h.mapped k r b old ∙ sym (c.others k r b i-ne-k old)
  ]

  saved_after :
      (r : ℕ)
      → r ≢ 0
      → ((k : ℕ) × (k < array_size l) × Owns (with_slot i nreg regs k) r)
        ⊎ (u32 (s'.mem (gpr (some r))) ≡ g' r)
  saved_after r pos =
      let settle : Owns (regs i) r ⊎ (u32 (s.mem (gpr (some r))) ≡ g r)
          → ((k : ℕ) × (k < array_size l) × Owns (with_slot i nreg regs k) r)
            ⊎ (u32 (s'.mem (gpr (some r))) ≡ g' r) =
        λ before. elim (c.saves r pos before) [
          | inl own ↦ inl (i, lt, subst (λ n. Owns n r) (sym here) own)
          | inr m ↦ inr m
        ] in
      elim (h.saved r pos) [
        | inr m ↦ settle (inr m)
        | inl (k, b, own) ↦ elim (==_cases i k) [
          | inl e ↦ settle (inl (subst (λ x. Owns (regs x) r) (sym e) own))
          | inr ne ↦ inl (k, b, rw ne own)
        ]
      ]

  unique_after :
      (k m r : ℕ)
      → k < array_size l
      → m < array_size l
      → Maps (with_slot i nreg regs k) r
      → Maps (with_slot i nreg regs m) r
      → k ≡ m
  unique_after k m r bk bm hk hm = elim (==_cases i k) [
    | inl e ↦ elim (==_cases i m) [
      | inl f ↦ sym e ∙ f
      | inr ne ↦ absurd (c.alone m r bm (ground arith) (rw (← e, here) at hk) (rw ne at hm))
    ]
    | inr ne ↦ elim (==_cases i m) [
      | inl f ↦ absurd (c.alone k r bk (ground arith) (rw (← f, here) at hm) (rw ne at hk))
      | inr nf ↦ h.unique k m r bk bm (rw ne at hk) (rw nf at hm)
    ]
  ]

  -- A change of one slot that keeps what the other slots hold gives the new file of registers.
  pub Refines-with_slot : Refines l g' s' (with_slot i nreg regs)
  Refines-with_slot = record {
    mapped = mapped_after;
    saved = saved_after;
    unique = unique_after;
    outputs = λ k r b pos. elim (==_cases i k) [
      | inl e ↦ rw (← e, here) (c.output r pos)
      | inr ne ↦ rw ne (h.outputs k r b pos)
    ];
  }
