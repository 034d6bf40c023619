-- ===== src/Regcache/Flags.antt =====
-- regcache.c: the flags of a register, values held by temporaries, and the end of a register's use.
use lightrec.Base.{
  ℕ, zero, suc, ◌+◌, ltb, ◌==◌, Bool, true, false, ◌&&◌, if◌then◌else◌, Option, none, some,
}
use lightrec.Regcache.Data.{
  NativeRegister, Lightning, movi, Regcache, emit, set_nreg, reg_is_temp_value, reg_is_dirty,
}
use lightrec.Regcache.Search.{
  lightrec_reg_is_zero, lightrec_reg_to_lightning, lightning_reg_to_lightrec, array_size,
  find_mapped_reg,
}
use lightrec.Regcache.Alloc.{
  RegFlags, clean_reg, lightrec_discard_nreg, lightrec_unload_nreg, lightrec_alloc_reg_temp,
}

abbrev pub is_positive : Option ℕ → Bool
is_positive none = false
is_positive (some r) = ltb 0 r

unfoldable pub free_reg : NativeRegister → NativeRegister
free_reg nreg =
    let dirty = nreg.used && nreg.output && is_positive nreg.emulated_register in
    record nreg {
      prio = if dirty then reg_is_dirty else nreg.prio;
      extended = if nreg.output then nreg.extend else nreg.extended;
      zero_extended = if nreg.output then nreg.zero_extend else nreg.zero_extended;
      used = false;
    }

-- The loop of `lightrec_get_reg_with_value`, over `n` slots from `i` on.
unfoldable pub valued_from : (ℕ → NativeRegister) → ℕ → ℕ → ℕ → Option ℕ
valued_from regs zero i value = none
valued_from regs (suc n) i value =
    let rest = valued_from regs n (i + 1) value in
    if (regs i).prio == reg_is_temp_value && (regs i).value == value then some i else rest

-- The loop of `lightrec_has_dirty_regs`.
unfoldable pub dirty_from : (ℕ → NativeRegister) → ℕ → ℕ → Bool
dirty_from regs zero i = false
dirty_from regs (suc n) i =
    let rest = dirty_from regs n (i + 1) in if (regs i).prio == reg_is_dirty then true else rest

module _ (l : Lightning) where
  unfoldable pub lightrec_get_reg_in_flags : ℕ → Regcache → RegFlags
  unfolding lightrec_reg_is_zero lightning_reg_to_lightrec
  lightrec_get_reg_in_flags jit_reg cache =
      let nreg = cache.lightrec_regs (lightning_reg_to_lightrec l jit_reg) in
      if lightrec_reg_is_zero l jit_reg
      then record { ext = true; zext = true }
      else record { ext = nreg.extended; zext = nreg.zero_extended }

  unfoldable pub lightrec_set_reg_out_flags : ℕ → RegFlags → Regcache → Regcache
  unfolding lightrec_reg_is_zero lightning_reg_to_lightrec set_nreg
  lightrec_set_reg_out_flags jit_reg flags cache =
      let i = lightning_reg_to_lightrec l jit_reg in
      let marked = record (cache.lightrec_regs i) {
        extend = flags.ext;
        zero_extend = flags.zext;
      } in
      if lightrec_reg_is_zero l jit_reg then cache else set_nreg i marked cache

  -- `none` is -1.
  unfoldable pub lightrec_get_reg_with_value : ℕ → Regcache → Option ℕ × Regcache
  unfolding valued_from lightrec_reg_to_lightning set_nreg
  lightrec_get_reg_with_value value cache =
      elim (valued_from cache.lightrec_regs (array_size l) 0 value) [
        | none ↦ (none, cache)
        | some i ↦ (
          some (lightrec_reg_to_lightning l i),
          set_nreg i (record (cache.lightrec_regs i) { used = true }) cache,
        )
      ]

  unfoldable pub lightrec_temp_set_value : ℕ → ℕ → Regcache → Regcache
  unfolding lightning_reg_to_lightrec set_nreg
  lightrec_temp_set_value jit_reg value cache =
      let i = lightning_reg_to_lightrec l jit_reg in
      set_nreg i (record (cache.lightrec_regs i) { prio = reg_is_temp_value; value = value }) cache

  unfoldable pub lightrec_alloc_reg_temp_with_value : ℕ → Regcache → ℕ × Regcache
  unfolding lightrec_get_reg_with_value lightrec_alloc_reg_temp lightrec_temp_set_value emit
  lightrec_alloc_reg_temp_with_value value cache =
      let (found, kept) = lightrec_get_reg_with_value value cache in
      elim found [
        | some reg ↦ (reg, kept)
        | none ↦
            let (reg, taken) = lightrec_alloc_reg_temp l kept in
            (reg, lightrec_temp_set_value reg value (emit (movi reg value) taken))
      ]

  unfoldable pub lightrec_free_reg : ℕ → Regcache → Regcache
  unfolding lightrec_reg_is_zero lightning_reg_to_lightrec free_reg set_nreg
  lightrec_free_reg jit_reg cache =
      let i = lightning_reg_to_lightrec l jit_reg in
      if lightrec_reg_is_zero l jit_reg
      then cache
      else set_nreg i (free_reg (cache.lightrec_regs i)) cache

  -- The loop works on each slot by itself.
  unfoldable pub lightrec_free_regs : Regcache → Regcache
  unfolding free_reg
  lightrec_free_regs cache = record cache {
    lightrec_regs = λ i.
        if ltb i (array_size l) then free_reg (cache.lightrec_regs i) else cache.lightrec_regs i;
  }

  -- Each loop of `clean_regs`, over `n` slots from `i` on; `JIT_V` and `JIT_R` by the slot.
  unfoldable pub clean_from : ℕ → ℕ → Bool → Regcache → Regcache
  unfolding clean_reg lightrec_reg_to_lightning
  clean_from zero i clean cache = cache
  clean_from (suc n) i clean cache =
      clean_from n (i + 1) clean (clean_reg i (lightrec_reg_to_lightning l i) clean cache)

  unfoldable pub clean_regs : Bool → Regcache → Regcache
  unfolding clean_from
  clean_regs clean cache =
      clean_from l.num_temps l.num_regs clean (clean_from l.num_regs 0 clean cache)

  unfoldable pub lightrec_storeback_regs : Regcache → Regcache
  unfolding clean_regs
  lightrec_storeback_regs cache = clean_regs false cache

  unfoldable pub lightrec_clean_regs : Regcache → Regcache
  unfolding clean_regs
  lightrec_clean_regs cache = clean_regs true cache

  unfoldable pub lightrec_has_dirty_regs : Regcache → Bool
  unfolding dirty_from
  lightrec_has_dirty_regs cache = dirty_from cache.lightrec_regs (array_size l) 0

  unfoldable pub lightrec_clean_reg : ℕ → Regcache → Regcache
  unfolding lightrec_reg_is_zero lightning_reg_to_lightrec clean_reg
  lightrec_clean_reg jit_reg cache =
      if lightrec_reg_is_zero l jit_reg
      then cache
      else clean_reg (lightning_reg_to_lightrec l jit_reg) jit_reg true cache

  unfoldable pub lightrec_reg_is_loaded : ℕ → Regcache → Bool
  unfolding find_mapped_reg
  lightrec_reg_is_loaded reg cache = elim (find_mapped_reg l cache reg false) [
    | none ↦ false
    | some i ↦ true
  ]

  unfoldable pub lightrec_clean_reg_if_loaded : ℕ → Bool → Regcache → Regcache
  unfolding find_mapped_reg lightrec_reg_to_lightning lightrec_unload_nreg clean_reg
  lightrec_clean_reg_if_loaded reg unload cache = elim (find_mapped_reg l cache reg false) [
    | none ↦ cache
    | some i ↦
        let jit_reg = lightrec_reg_to_lightning l i in
        if unload then lightrec_unload_nreg i jit_reg cache else clean_reg i jit_reg true cache
  ]

  unfoldable pub lightrec_discard_reg_if_loaded : ℕ → Regcache → Regcache
  unfolding find_mapped_reg lightrec_discard_nreg
  lightrec_discard_reg_if_loaded reg cache = elim (find_mapped_reg l cache reg false) [
    | none ↦ cache
    | some i ↦ lightrec_discard_nreg i cache
  ]
