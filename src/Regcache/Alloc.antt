-- ===== src/Regcache/Alloc.antt =====
-- regcache.c: registers written back, discarded and allocated.
use lightrec.Base.{ℕ, ltb, ◌==◌, Bool, true, false, not, ◌&&◌, ◌||◌, if◌then◌else◌, none, some}
use lightrec.Regcache.Data.{
  NativeRegister, Lightning, gpr, Emit, movi, extr_i, extr_ui, ldxi_i, ldxi_ui, stxi_i, Regcache,
  emit, set_nreg, is_emulated, reg_is_temp, reg_is_zero, reg_is_loaded, reg_is_dirty,
}
use lightrec.Regcache.Search.{
  lightrec_reg_is_zero, lightrec_get_hardwired_reg, lightrec_reg_to_lightning,
  lightning_reg_to_lightrec, alloc_temp, alloc_in_out,
}

-- `clean_reg` on slot `i`.
unfoldable pub clean_reg : ℕ → ℕ → Bool → Regcache → Regcache
unfolding emit set_nreg
clean_reg i jit_reg clean cache =
    let nreg = cache.lightrec_regs i in
    let stored = emit (stxi_i (gpr nreg.emulated_register) jit_reg) cache in
    let prio : ℕ = if is_emulated nreg.emulated_register 0 then reg_is_zero else reg_is_loaded in
    if nreg.prio == reg_is_dirty
    then if clean then set_nreg i (record nreg { prio = prio }) stored else stored
    else cache

unfoldable pub discarded : NativeRegister → NativeRegister
discarded nreg = record nreg {
  extended = false;
  zero_extended = false;
  output = false;
  used = false;
  locked = false;
  emulated_register = none;
  prio = reg_is_temp;
}

unfoldable pub lightrec_discard_nreg : ℕ → Regcache → Regcache
unfolding discarded set_nreg
lightrec_discard_nreg i cache = set_nreg i (discarded (cache.lightrec_regs i)) cache

unfoldable pub lightrec_unload_nreg : ℕ → ℕ → Regcache → Regcache
unfolding clean_reg lightrec_discard_nreg
lightrec_unload_nreg i jit_reg cache = lightrec_discard_nreg i (clean_reg i jit_reg false cache)

-- `flags` of `lightrec_alloc_reg_in` and `lightrec_alloc_reg_out`: `REG_EXT` and `REG_ZEXT`.
pub record RegFlags : Type 0 where
  pub ext : Bool
  pub zext : Bool

-- After `lightrec_unload_nreg` on another register than the one asked for.
unfoldable pub unload_other : ℕ → ℕ → ℕ → Regcache → Regcache
unfolding lightrec_unload_nreg
unload_other i jit_reg reg cache =
    if is_emulated (cache.lightrec_regs i).emulated_register reg
    then cache
    else lightrec_unload_nreg i jit_reg cache

-- `lightrec_alloc_reg_out` from the assignments on.
unfoldable pub map_out : ℕ → ℕ → RegFlags → Regcache → Regcache
unfolding set_nreg
map_out i reg flags cache =
    set_nreg i
      (record (cache.lightrec_regs i) {
        used = true;
        output = true;
        emulated_register = some reg;
        extend = flags.ext;
        zero_extend = flags.zext;
        prio = if reg == 0 then reg_is_zero else reg_is_loaded;
      })
      cache

-- `lightrec_alloc_reg_in`: the load of a register that is not in the slot yet.
unfoldable pub load_in : ℕ → ℕ → ℕ → RegFlags → Regcache → Regcache
unfolding emit set_nreg
load_in i jit_reg reg flags cache =
    let nreg = cache.lightrec_regs i in
    let load : Emit =
      if flags.zext then ldxi_ui jit_reg (gpr (some reg)) else ldxi_i jit_reg (gpr (some reg)) in
    let loaded = record nreg {
      zero_extended = flags.zext;
      extended = not flags.zext;
      prio = reg_is_loaded;
    } in
    if ltb nreg.prio reg_is_loaded && not (reg == 0)
    then set_nreg i loaded (emit load cache)
    else cache

-- `lightrec_alloc_reg_in`: "Clear register r0 before use".
unfoldable pub clear_zero : ℕ → ℕ → ℕ → Regcache → Regcache
unfolding emit set_nreg
clear_zero i jit_reg reg cache =
    let nreg = cache.lightrec_regs i in
    let zeroed = record nreg { extended = true; zero_extended = true; prio = reg_is_zero } in
    if reg == 0 && not (nreg.prio == reg_is_zero)
    then set_nreg i zeroed (emit (movi jit_reg 0) cache)
    else cache

unfoldable pub map_in : ℕ → ℕ → Regcache → Regcache
unfolding set_nreg
map_in i reg cache =
    set_nreg i
      (record (cache.lightrec_regs i) { used = true; output = false; emulated_register = some reg })
      cache

-- `lightrec_alloc_reg_in`: the extension that the flags ask for.
unfoldable pub extend_in : ℕ → ℕ → RegFlags → Regcache → Regcache
unfolding emit set_nreg
extend_in i jit_reg flags cache =
    let nreg = cache.lightrec_regs i in
    if flags.ext && not nreg.extended && (not nreg.zero_extended || not flags.zext)
    then emit (extr_i jit_reg jit_reg)
        (set_nreg i (record nreg { extended = true; zero_extended = false }) cache)
    else if not flags.ext && flags.zext && not nreg.zero_extended
    then emit (extr_ui jit_reg jit_reg)
        (set_nreg i (record nreg { zero_extended = true; extended = false }) cache)
    else cache

module _ (l : Lightning) where
  unfoldable pub lightrec_unload_reg : ℕ → Regcache → Regcache
  unfolding lightrec_reg_is_zero lightning_reg_to_lightrec lightrec_unload_nreg
  lightrec_unload_reg jit_reg cache =
      if lightrec_reg_is_zero l jit_reg
      then cache
      else lightrec_unload_nreg (lightning_reg_to_lightrec l jit_reg) jit_reg cache

  unfoldable pub lightrec_alloc_reg : ℕ → Regcache → ℕ × Regcache
  unfolding lightrec_reg_is_zero lightning_reg_to_lightrec lightrec_unload_nreg set_nreg
  lightrec_alloc_reg jit_reg cache =
      let i = lightning_reg_to_lightrec l jit_reg in
      let unloaded = lightrec_unload_nreg i jit_reg cache in
      let taken = record (unloaded.lightrec_regs i) { used = true; prio = reg_is_loaded } in
      if lightrec_reg_is_zero l jit_reg
      then (jit_reg, cache)
      else (jit_reg, set_nreg i taken unloaded)

  -- `lightrec_alloc_reg_temp` on the slot that the search found.
  unfoldable pub take_temp : ℕ → Regcache → ℕ × Regcache
  unfolding lightrec_reg_to_lightning lightrec_unload_nreg set_nreg
  take_temp i cache =
      let jit_reg = lightrec_reg_to_lightning l i in
      let unloaded = lightrec_unload_nreg i jit_reg cache in
      (
        jit_reg,
        set_nreg i (record (unloaded.lightrec_regs i) { prio = reg_is_temp; used = true }) unloaded,
      )

  unfoldable pub lightrec_alloc_reg_temp : Regcache → ℕ × Regcache
  unfolding take_temp
  lightrec_alloc_reg_temp cache = elim (alloc_temp l cache) [
    | none ↦ (0, cache)
    | some i ↦ take_temp i cache
  ]

  -- `lightrec_alloc_reg_out` on the slot that the search found.
  unfoldable pub take_out : ℕ → ℕ → RegFlags → Regcache → ℕ × Regcache
  unfolding lightrec_reg_to_lightning unload_other map_out
  take_out i reg flags cache =
      let jit_reg = lightrec_reg_to_lightning l i in
      (jit_reg, map_out i reg flags (unload_other i jit_reg reg cache))

  unfoldable pub lightrec_alloc_reg_out : ℕ → RegFlags → Regcache → ℕ × Regcache
  lightrec_alloc_reg_out reg flags cache = elim (lightrec_get_hardwired_reg l reg) [
    | some hw_reg ↦ (hw_reg, cache)
    | none ↦ elim (alloc_in_out l cache reg true) [
      | none ↦ (0, cache)
      | some i ↦ take_out i reg flags cache
    ]
  ]

  -- `lightrec_alloc_reg_in` on the slot that the search found.
  unfoldable pub take_in : ℕ → ℕ → RegFlags → Regcache → ℕ × Regcache
  unfolding lightrec_reg_to_lightning unload_other load_in clear_zero map_in extend_in
  take_in i reg flags cache =
      let jit_reg = lightrec_reg_to_lightning l i in
      let free = unload_other i jit_reg reg cache in
      let loaded = clear_zero i jit_reg reg (load_in i jit_reg reg flags free) in
      (jit_reg, extend_in i jit_reg flags (map_in i reg loaded))

  unfoldable pub lightrec_alloc_reg_in : ℕ → RegFlags → Regcache → ℕ × Regcache
  lightrec_alloc_reg_in reg flags cache = elim (lightrec_get_hardwired_reg l reg) [
    | some hw_reg ↦ (hw_reg, cache)
    | none ↦ elim (alloc_in_out l cache reg false) [
      | none ↦ (0, cache)
      | some i ↦ take_in i reg flags cache
    ]
  ]
