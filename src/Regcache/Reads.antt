-- ===== src/Regcache/Reads.antt =====
-- `lightrec_alloc_reg_in` gives a host register that holds the guest register, and changes none.
use lightrec.Base.{
  ℕ, ◌<◌, ◌≤◌, ◌==◌, ◌≡◌, ◌≢◌, refl, sym, ◌∙◌, subst, ap, ltb, true, false, not, ◌&&◌, ◌||◌, none,
  some, ◌⊎◌, inl, inr, arith, u32, Bool-cases, ==_cases,
}
use lightrec.Interpreter.Regs.{Gpr}
use lightrec.Regcache.Data.{NativeRegister, Lightning, extr_i, extr_ui, Regcache, emit, set_nreg}
use lightrec.Regcache.Search.{
  lightrec_get_hardwired_reg, lightrec_reg_to_lightning, array_size, is_free, alloc_in_out,
}
use lightrec.Regcache.Alloc.{
  clean_reg, discarded, lightrec_discard_nreg, lightrec_unload_nreg, RegFlags, unload_other,
  load_in, clear_zero, map_in, extend_in, take_in, lightrec_alloc_reg_in,
}
use lightrec.Regcache.Host.{Host, Jit, run_code}
use lightrec.Regcache.Refines.{Maps, Implements, IsInjective, with_slot_self}
use lightrec.Regcache.WriteBack.{emulates_cases, u32_twice}
use lightrec.Regcache.Slots.{alloc_in_out-Slot}
use lightrec.Regcache.Ready.{
  Ready, Ready-step, unload_other-Ready, load_in-Ready, clear_zero-Ready, change-Ready,
  ldxi_ui-value, ldxi_i-value, movi-value, emulated, not_emulated,
}

-- The host register of slot `i` has the value of `reg`.
abbrev pub HasValue : Lightning → Jit → ℕ → Host → Gpr → ℕ → Regcache → Type 0
HasValue l j i s g reg cache =
    u32 ((run_code j cache.code s).reg (lightrec_reg_to_lightning l i)) ≡ g reg

-- The slot is empty, or has the number of `reg`.
abbrev Fresh : ℕ → ℕ → Regcache → Type 0
Fresh i reg cache =
    ((cache.lightrec_regs i).prio ≡ 0) ⊎ ((cache.lightrec_regs i).emulated_register ≡ some reg)

unload_other-Fresh :
    (i jit_reg reg : ℕ) (cache : Regcache) → Fresh i reg (unload_other i jit_reg reg cache)
unfolding unload_other lightrec_unload_nreg lightrec_discard_nreg discarded set_nreg
unload_other-Fresh i jit_reg reg cache =
    elim (emulates_cases (cache.lightrec_regs i).emulated_register reg) [
      | inl e ↦ rw (emulated e) (inr e)
      | inr ne ↦ rw (not_emulated _ reg ne) (
          inl (
            ap (λ (n : NativeRegister). n.prio)
              (with_slot_self i _ (clean_reg i jit_reg false cache).lightrec_regs)))
    ]

module _ (l : Lightning) (j : Jit) (inj : IsInjective l) (i : ℕ) (lt : i < array_size l) (s : Host)
    (g : Gpr) (reg : ℕ) (cache : Regcache) where
  -- A slot that maps `reg` already.
  mapped-HasValue :
      Ready l j s g i reg cache
      → Fresh i reg cache
      → 2 ≤ (cache.lightrec_regs i).prio
      → HasValue l j i s g reg cache
  mapped-HasValue h fresh two = elim fresh [
    | inl empty ↦ absurd (omega arith)
    | inr e ↦ h.implements.mapped i reg lt (two, e)
  ]

  load_in-HasValue :
      (flags : RegFlags)
      → reg ≢ 0
      → Ready l j s g i reg cache
      → Fresh i reg cache
      → HasValue l j i s g reg (load_in i (lightrec_reg_to_lightning l i) reg flags cache)
  unfolding load_in emit set_nreg run_code
  load_in-HasValue flags pos h fresh =
      elim (Bool-cases (ltb (cache.lightrec_regs i).prio 3 && not (reg == 0))) [
        | inr present ↦ rw present (mapped-HasValue h fresh (ground arith))
        | inl absent ↦ elim (Bool-cases flags.zext) [
          | inl z ↦ rw (absent, z) (ldxi_ui-value l j inj i lt s g reg cache h pos (ground arith))
          | inr z ↦ rw (absent, z) (ldxi_i-value l j inj i lt s g reg cache h pos (ground arith))
        ]
      ]

  clear_zero-HasValue :
      g 0 ≡ 0
      → Ready l j s g i reg cache
      → (reg ≢ 0 → HasValue l j i s g reg cache)
      → (reg ≡ 0 → Fresh i reg cache)
      → HasValue l j i s g reg (clear_zero i (lightrec_reg_to_lightning l i) reg cache)
  unfolding clear_zero emit set_nreg run_code
  clear_zero-HasValue zero_reg h value fresh =
      elim (Bool-cases (reg == 0 && not ((cache.lightrec_regs i).prio == 2))) [
        | inl absent ↦ rw absent (movi-value l j inj i lt s g reg cache zero_reg (ground arith))
        | inr present ↦ elim (==_cases reg 0) [
          | inl z ↦ rw present (mapped-HasValue h (fresh z) (ground arith))
          | inr ne ↦ rw present (value (ground arith))
        ]
      ]

  map_in-Ready :
      Ready l j s g i reg cache
      → HasValue l j i s g reg cache
      → Ready l j s g i reg (map_in i reg cache)
  unfolding map_in set_nreg
  map_in-Ready h value =
      Ready-step i reg lt h _ cache.code (λ k b ne. refl) (λ f. refl) (λ r e. ground arith)
        (λ m. value) refl (λ pos e four. (refl, four))

  extend_in-Ready :
      (flags : RegFlags)
      → Ready l j s g i reg cache
      → HasValue l j i s g reg cache
      → let extended = extend_in i (lightrec_reg_to_lightning l i) flags cache in
        Ready l j s g i reg extended × HasValue l j i s g reg extended
  unfolding extend_in emit set_nreg run_code
  extend_in-Ready flags h value =
      let nreg = cache.lightrec_regs i in
      let d = lightrec_reg_to_lightning l i in
      let signed = ap u32 (j.run-extr_i d d _) ∙ j.u32-sext _ ∙ value in
      let unsigned = ap u32 (j.run-extr_ui d d _) ∙ u32_twice _ ∙ value in
      elim (Bool-cases
        (flags.ext && not nreg.extended && (not nreg.zero_extended || not flags.zext))) [
          | inl sign ↦ rw sign (
            change-Ready l j inj i lt s g reg cache _ (extr_i d d) refl refl h h.only (λ m. signed)
                h.idle (λ ne e four. (e, four)),
            signed,
          )
          | inr other ↦ elim (Bool-cases (not flags.ext && flags.zext && not nreg.zero_extended)) [
            | inl clear ↦
                rw (other, clear)
                  (
                    change-Ready l j inj i lt s g reg cache _ (extr_ui d d) refl refl h h.only
                        (λ m. unsigned) h.idle (λ ne e four. (e, four)),
                    unsigned,
                  )
            | inr neither ↦ rw (other, neither) (h, value)
          ]
        ]

load_in_zero :
    (i jit_reg reg : ℕ) (flags : RegFlags) (cache : Regcache)
    → reg ≡ 0
    → load_in i jit_reg reg flags cache ≡ cache
unfolding load_in
load_in_zero i jit_reg reg flags cache e =
    let same : (ltb (cache.lightrec_regs i).prio 3 && not (reg == 0)) ≡ false = ground arith in
    rw same

module _ (l : Lightning) (j : Jit) (inj : IsInjective l) (s : Host) (g : Gpr) (reg : ℕ)
    (flags : RegFlags) (cache : Regcache) (zero_reg : g 0 ≡ 0) (h : Implements l j s g cache) where
  take_in-Implements :
      (i : ℕ)
      → i < array_size l
      → ((cache.lightrec_regs i).used && (cache.lightrec_regs i).output) ≡ false
      → ((k : ℕ) → k < array_size l → i ≢ k → ¬ Maps (cache.lightrec_regs k) reg)
      → let (jit_reg, taken) = take_in l i reg flags cache in
        Implements l j s g taken × (u32 ((run_code j taken.code s).reg jit_reg) ≡ g reg)
  unfolding take_in map_in set_nreg
  take_in-Implements i lt idle alone =
      let d = lightrec_reg_to_lightning l i in
      let free = unload_other i d reg cache in
      let loaded = load_in i d reg flags free in
      let filled = clear_zero i d reg loaded in
      let free-Ready = unload_other-Ready l j inj i lt s g reg cache h idle alone in
      let fresh = unload_other-Fresh i d reg cache in
      let loaded-Ready = load_in-Ready l j inj i lt s g reg free flags free-Ready in
      let value =
        clear_zero-HasValue l j inj i lt s g reg loaded zero_reg loaded-Ready
          (λ pos. load_in-HasValue l j inj i lt s g reg free flags pos free-Ready fresh)
          (λ z. subst (Fresh i reg) (sym (load_in_zero i d reg flags free z)) fresh) in
      let filled-Ready = clear_zero-Ready l j inj i lt s g reg loaded zero_reg loaded-Ready in
      let (ready, final) =
        extend_in-Ready l j inj i lt s g reg (map_in i reg filled) flags
          (map_in-Ready l j inj i lt s g reg filled filled-Ready value) value in
      (ready.implements, final)

  alloc_reg_in-take_in :
      {i : ℕ}
      → lightrec_get_hardwired_reg l reg ≡ none
      → alloc_in_out l cache reg false ≡ some i
      → lightrec_alloc_reg_in l reg flags cache ≡ take_in l i reg flags cache
  unfolding lightrec_alloc_reg_in
  alloc_reg_in-take_in soft e = rw (lightrec_alloc_reg_in, soft, e)

  -- Where host registers are distinct, the cache stands for the guest registers (r0 holding 0), a slot
  -- is free, and `reg` is neither hardwired nor in a slot that is in use as an output:
  -- `lightrec_alloc_reg_in` gives a host register whose low word is the guest register `reg`, and the
  -- cache still stands for the same guest registers.
  pub alloc_reg_in-Implements :
      lightrec_get_hardwired_reg l reg ≡ none
      → ((k : ℕ)
          → k < array_size l
          → Maps (cache.lightrec_regs k) reg
          → ((cache.lightrec_regs k).used && (cache.lightrec_regs k).output) ≡ false)
      → (k : ℕ) × (k < array_size l)
        × (is_free (cache.lightrec_regs k) ≡ true)
        × ((cache.lightrec_regs k).prio < 5)
      → let (jit_reg, taken) = lightrec_alloc_reg_in l reg flags cache in
        Implements l j s g taken × (u32 ((run_code j taken.code s).reg jit_reg) ≡ g reg)
  alloc_reg_in-Implements soft idle room =
      let open_slots : (m : ℕ)
          → m < array_size l
          → (not false || not (cache.lightrec_regs m).locked) ≡ true =
        λ m b. refl in
      let (i, e, lt, rest, alone) =
        alloc_in_out-Slot l j s g cache reg false h open_slots idle room in
      subst
        (λ (r : ℕ × Regcache).
          Implements l j s g r.1 × (u32 ((run_code j r.1.code s).reg r.0) ≡ g reg))
        (sym (alloc_reg_in-take_in soft e)) (take_in-Implements i lt rest alone)
