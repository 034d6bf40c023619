-- ===== src/Regcache/Program.antt =====
-- regcache.c: the program counter in `JIT_V0`, remapping, branches, and the ends of a cache's life.
use lightrec.Base.{
  ℕ, zero, suc, ◌+◌, ltb, leb, ◌==◌, Bool, true, false, not, ◌&&◌, ◌||◌, if◌then◌else◌, Option,
  none, some, [], sub32,
}
use lightrec.Private.Extend.{can_sign_extend}
use lightrec.Memmanager.Usage.{Usage, lightrec_malloc, lightrec_free}
use lightrec.Regcache.Data.{
  NativeRegister, Lightning, gpr, next_pc, movi, movr, addi, extr_ui, ldxi_ui, stxi_i, live,
  Regcache, emit, set_nreg, is_emulated, reg_is_temp, reg_is_temp_value, reg_is_loaded,
}
use lightrec.Regcache.Search.{lightrec_reg_to_lightning, lightning_reg_to_lightrec, find_mapped_reg}
use lightrec.Regcache.Alloc.{
  clean_reg, lightrec_discard_nreg, lightrec_unload_nreg, lightrec_unload_reg,
  lightrec_alloc_reg_temp, lightrec_alloc_reg_in,
}
use lightrec.Regcache.Flags.{lightrec_free_reg, lightrec_clean_reg, lightrec_discard_reg_if_loaded}

-- Every field zero, as `memset` leaves it.
unfoldable pub zeroed : NativeRegister
zeroed = record {
  used = false;
  output = false;
  extend = false;
  extended = false;
  zero_extend = false;
  zero_extended = false;
  locked = false;
  emulated_register = some 0;
  value = 0;
  prio = reg_is_temp;
}

unfoldable pub lightrec_regcache_reset : Regcache → Regcache
unfolding zeroed
lightrec_regcache_reset cache = record cache { lightrec_regs = λ i. zeroed }

-- `MEM_FOR_LIGHTREC`.
abbrev mem_for_lightrec : ℕ
mem_for_lightrec = 3

-- The backup, which the source keeps in memory of its own: `allocated` is what malloc returns, `size`
-- that of the array. A null pointer is written through by the source, and `none` here.
unfoldable pub lightrec_regcache_enter_branch :
    Option ℕ → ℕ → Regcache → Usage → Option (ℕ → NativeRegister) × Usage
unfolding lightrec_malloc
lightrec_regcache_enter_branch allocated size cache bytes =
    let (backup, counted) = lightrec_malloc allocated mem_for_lightrec size bytes in
    elim backup [ none ↦ (none, counted) | some _ ↦ (some cache.lightrec_regs, counted) ]

unfoldable pub lightrec_regcache_leave_branch :
    ℕ → (ℕ → NativeRegister) → Regcache → Usage → Regcache × Usage
unfolding lightrec_free
lightrec_regcache_leave_branch size regs cache bytes =
    (record cache { lightrec_regs = regs }, lightrec_free mem_for_lightrec size bytes)

-- `allocated` is what calloc returns, `size` that of `struct regcache`; nothing is emitted yet.
unfoldable pub lightrec_regcache_init : Option ℕ → ℕ → Usage → Option Regcache × Usage
unfolding lightrec_malloc zeroed
lightrec_regcache_init allocated size bytes =
    let (cache, counted) = lightrec_malloc allocated mem_for_lightrec size bytes in
    elim cache [
      | none ↦ (none, counted)
      | some _ ↦ (some (record { lightrec_regs = λ i. zeroed; code = [] }), counted)
    ]

unfoldable pub lightrec_free_regcache : ℕ → Usage → Usage
unfolding lightrec_free
lightrec_free_regcache size bytes = lightrec_free mem_for_lightrec size bytes

module _ (l : Lightning) where
  abbrev v0 : ℕ
  v0 = l.jit_v 0

  abbrev nreg_v0 : ℕ
  nreg_v0 = lightning_reg_to_lightrec l (l.jit_v 0)

  -- lightrec-private.h.
  unfoldable pub lightrec_store_next_pc : Bool
  lightrec_store_next_pc = leb (l.num_regs + l.num_temps) 4

  unfoldable pub reg_pc_is_mapped : Regcache → Bool
  unfolding lightning_reg_to_lightrec
  reg_pc_is_mapped cache =
      let nreg = cache.lightrec_regs nreg_v0 in
      nreg.prio == reg_is_loaded && is_emulated nreg.emulated_register l.reg_pc

  unfoldable pub lightrec_load_imm : ℕ → ℕ → ℕ → Regcache → Regcache
  unfolding reg_pc_is_mapped can_sign_extend sub32 emit
  lightrec_load_imm jit_reg pc imm cache =
      let delta = sub32 imm pc in
      if not (reg_pc_is_mapped cache) || not (can_sign_extend delta 16)
      then emit (movi jit_reg imm) cache
      else if not (jit_reg == v0) || not (delta == 0)
      then emit (addi jit_reg v0 delta) cache
      else cache

  unfoldable pub lightrec_remap_reg : ℕ → ℕ → Bool → Regcache → Regcache
  unfolding lightrec_discard_reg_if_loaded lightning_reg_to_lightrec clean_reg set_nreg
  lightrec_remap_reg jit_reg reg_out discard cache =
      let i = lightning_reg_to_lightrec l jit_reg in
      let cleaned =
        clean_reg i jit_reg (not discard) (lightrec_discard_reg_if_loaded l reg_out cache) in
      let nreg = cleaned.lightrec_regs i in
      set_nreg i
        (record nreg {
          output = true;
          emulated_register = some reg_out;
          extend = nreg.extended;
          zero_extend = nreg.zero_extended;
        })
        cleaned

  -- `lightrec_load_next_pc_imm`, once `reg` is chosen.
  unfoldable pub next_pc_imm_in : ℕ → ℕ → ℕ → Regcache → Regcache
  unfolding reg_pc_is_mapped lightrec_load_imm lightrec_unload_reg emit
  next_pc_imm_in reg pc imm cache =
      if reg_pc_is_mapped cache
      then lightrec_load_imm reg pc imm cache
      else emit (movi reg imm) (if reg == v0 then lightrec_unload_reg l v0 cache else cache)

  unfoldable pub lightrec_load_next_pc_imm : ℕ → ℕ → Regcache → Regcache
  unfolding lightrec_store_next_pc lightrec_alloc_reg_temp next_pc_imm_in lightrec_free_reg set_nreg
      emit lightning_reg_to_lightrec
  lightrec_load_next_pc_imm pc imm cache =
      let (reg, taken) = lightrec_alloc_reg_temp l cache in
      let stored = emit (stxi_i next_pc reg) (next_pc_imm_in reg pc imm taken) in
      let loaded = next_pc_imm_in v0 pc imm cache in
      let held = record (loaded.lightrec_regs nreg_v0) {
        prio = reg_is_loaded;
        emulated_register = none;
        locked = true;
      } in
      if lightrec_store_next_pc
      then lightrec_free_reg l reg stored
      else set_nreg nreg_v0 held loaded

  -- The three cases of `lightrec_load_next_pc` on where `reg` is mapped.
  unfoldable pub move_to_v0 : ℕ → Regcache → Option ℕ → Regcache
  unfolding emit set_nreg lightrec_reg_to_lightning lightrec_discard_nreg lightning_reg_to_lightrec
  move_to_v0 reg cache none =
      let mapped = record (cache.lightrec_regs nreg_v0) {
        prio = reg_is_loaded;
        emulated_register = some reg;
      } in
      set_nreg nreg_v0 mapped (emit (ldxi_ui v0 (gpr (some reg))) cache)
  move_to_v0 reg cache (some i) =
      let nreg = cache.lightrec_regs i in
      let jit_reg = lightrec_reg_to_lightning l i in
      if i == nreg_v0
      then if nreg.zero_extended then cache else emit (extr_ui v0 v0) cache
      else lightrec_discard_nreg i (
          set_nreg nreg_v0 nreg
            (emit (if nreg.zero_extended then movr v0 jit_reg else extr_ui v0 jit_reg) cache))

  -- "Invalidate JIT_V0 if it is not mapped to 'reg'".
  unfoldable pub unload_v0 : ℕ → Regcache → Regcache
  unfolding lightrec_unload_nreg lightning_reg_to_lightrec
  unload_v0 reg cache =
      let nreg = cache.lightrec_regs nreg_v0 in
      if leb reg_is_loaded nreg.prio && not (is_emulated nreg.emulated_register reg)
      then lightrec_unload_nreg nreg_v0 v0 cache
      else cache

  unfoldable pub lightrec_load_next_pc : ℕ → Regcache → Regcache
  unfolding lightrec_store_next_pc lightrec_alloc_reg_in lightrec_free_reg unload_v0 find_mapped_reg
      move_to_v0 lightrec_clean_reg set_nreg emit lightning_reg_to_lightrec
  lightrec_load_next_pc reg cache =
      let (jit_reg, mapped) =
        lightrec_alloc_reg_in l reg (record { ext = false; zext = false }) cache in
      let unloaded = unload_v0 reg cache in
      let moved = move_to_v0 reg unloaded (find_mapped_reg l unloaded reg false) in
      let cleaned = lightrec_clean_reg l v0 moved in
      let held = record (cleaned.lightrec_regs nreg_v0) { zero_extended = true; locked = true } in
      if lightrec_store_next_pc
      then lightrec_free_reg l jit_reg (emit (stxi_i next_pc jit_reg) mapped)
      else set_nreg nreg_v0 held cleaned

  unfoldable pub lightrec_preload_pc : Regcache → Regcache
  unfolding lightning_reg_to_lightrec set_nreg emit
  lightrec_preload_pc cache =
      let mapped = record (cache.lightrec_regs nreg_v0) {
        emulated_register = some l.reg_pc;
        prio = reg_is_loaded;
        zero_extended = true;
      } in
      emit (live v0) (set_nreg nreg_v0 mapped cache)

  unfoldable pub lightrec_preload_imm : ℕ → ℕ → Regcache → Regcache
  unfolding lightning_reg_to_lightrec set_nreg emit
  lightrec_preload_imm jit_reg imm cache =
      let i = lightning_reg_to_lightrec l jit_reg in
      let valued = record (cache.lightrec_regs i) { prio = reg_is_temp_value; value = imm } in
      emit (live jit_reg) (set_nreg i valued cache)

  -- The loop of `lightrec_regcache_mark_live`, over `n` temporaries from `i` on.
  unfoldable pub live_from : ℕ → ℕ → Regcache → Regcache
  unfolding emit
  live_from zero i cache = cache
  live_from (suc n) i cache =
      let nreg = cache.lightrec_regs (l.num_regs + i) in
      live_from n (i + 1) (
        if nreg.used || ltb reg_is_temp nreg.prio
        then emit (live (l.jit_r (l.first_temp + i))) cache
        else cache)

  -- Without the loop for Windows. `state` and `cycle` are the two registers that hold the state and
  -- the cycle counter.
  unfoldable pub lightrec_regcache_mark_live : ℕ → ℕ → Regcache → Regcache
  unfolding live_from emit
  lightrec_regcache_mark_live state cycle cache =
      emit (live cycle) (emit (live state) (live_from l.num_temps 0 cache))
