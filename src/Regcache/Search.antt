-- ===== src/Regcache/Search.antt =====
-- regcache.c: the numbering of host registers, and the searches of the array for a register.
use lightrec.Base.{
  ℕ, zero, suc, ◌+◌, ◌-◌, ltb, leb, ◌==◌, Bool, not, ◌&&◌, ◌||◌, if◌then◌else◌, Option, none, some,
}
use lightrec.Regcache.Data.{
  NativeRegister, Lightning, Regcache, is_emulated, reg_is_temp, reg_is_zero, reg_nb_priorities,
}

module _ (l : Lightning) where
  unfoldable pub lightrec_reg_is_zero : ℕ → Bool
  lightrec_reg_is_zero jit_reg = is_emulated l.hardwired jit_reg

  -- `none` is -1.
  unfoldable pub lightrec_get_hardwired_reg : ℕ → Option ℕ
  lightrec_get_hardwired_reg reg = if reg == 0 then l.hardwired else none

  unfoldable pub lightrec_reg_to_lightning : ℕ → ℕ
  lightrec_reg_to_lightning offset =
      if ltb offset l.num_regs then l.jit_v offset else l.jit_r (l.first_temp + offset - l.num_regs)

  unfoldable pub lightning_reg_to_lightrec : ℕ → ℕ
  lightning_reg_to_lightrec reg =
      if ltb (l.jit_r 0) (l.jit_v 0) && leb (l.jit_v 0) reg
        || ltb (l.jit_v 0) (l.jit_r 0) && ltb reg (l.jit_r 0)
      then if ltb (l.jit_v 0) (l.jit_v 1) then reg - l.jit_v 0 else l.jit_v 0 - reg
      else if ltb (l.jit_r 0) (l.jit_r 1)
      then l.num_regs + reg - l.jit_r l.first_temp
      else l.num_regs + l.jit_r l.first_temp - reg

-- `ARRAY_SIZE(cache->lightrec_regs)`.
abbrev pub array_size : Lightning → ℕ
array_size l = l.num_regs + l.num_temps

abbrev pub is_free : NativeRegister → Bool
is_free elm = not elm.used && not elm.locked

-- The loop of `alloc_temp`, over the slots below `n`, from the last one on.
unfoldable pub best_down : (ℕ → NativeRegister) → ℕ → Option ℕ → ℕ → Option ℕ
best_down regs zero nreg best = nreg
best_down regs (suc i) nreg best =
    let elm = regs i in
    let better = best_down regs i (some i) elm.prio in
    let other = best_down regs i nreg best in
    if is_free elm && ltb elm.prio best
    then if elm.prio == reg_is_temp then some i else better
    else other

unfoldable pub alloc_temp : Lightning → Regcache → Option ℕ
unfolding best_down
alloc_temp l cache = best_down cache.lightrec_regs (array_size l) none reg_nb_priorities

abbrev pub is_mapped : NativeRegister → ℕ → Bool → Bool
is_mapped nreg reg out =
    leb reg_is_zero nreg.prio
    && is_emulated nreg.emulated_register reg
    && (not out || not nreg.locked)

-- The loop of `find_mapped_reg`, over `n` slots from `i` on.
unfoldable pub mapped_from : (ℕ → NativeRegister) → ℕ → ℕ → ℕ → Bool → Option ℕ
mapped_from regs zero i reg out = none
mapped_from regs (suc n) i reg out =
    let rest = mapped_from regs n (i + 1) reg out in
    if is_mapped (regs i) reg out then some i else rest

unfoldable pub find_mapped_reg : Lightning → Regcache → ℕ → Bool → Option ℕ
unfolding mapped_from
find_mapped_reg l cache reg out = mapped_from cache.lightrec_regs (array_size l) 0 reg out

-- The loop of `alloc_in_out`, over `n` slots from `i` on.
unfoldable pub best_up : (ℕ → NativeRegister) → ℕ → ℕ → Option ℕ → ℕ → Option ℕ
best_up regs zero i nreg best = nreg
best_up regs (suc n) i nreg best =
    let elm = regs i in
    let better = best_up regs n (i + 1) (some i) elm.prio in
    let other = best_up regs n (i + 1) nreg best in
    if is_free elm && ltb elm.prio best
    then if elm.prio == reg_is_temp then some i else better
    else other

unfoldable pub alloc_in_out : Lightning → Regcache → ℕ → Bool → Option ℕ
unfolding find_mapped_reg best_up
alloc_in_out l cache reg out = elim (find_mapped_reg l cache reg out) [
  | some i ↦ some i
  | none ↦ best_up cache.lightrec_regs (array_size l) 0 none reg_nb_priorities
]
