-- ===== src/Regcache/Data.antt =====
-- regcache.c, regcache.h: `struct native_register`, `struct regcache`, and what Lightning fixes about
-- the registers of the host.
use lightrec.Base.{ℕ, ◌==◌, Bool, false, if◌then◌else◌, Option, none, some, List, ◌∷◌}

abbrev pub reg_is_temp : ℕ
reg_is_temp = 0

abbrev pub reg_is_temp_value : ℕ
reg_is_temp_value = 1

abbrev pub reg_is_zero : ℕ
reg_is_zero = 2

abbrev pub reg_is_loaded : ℕ
reg_is_loaded = 3

abbrev pub reg_is_dirty : ℕ
reg_is_dirty = 4

abbrev pub reg_nb_priorities : ℕ
reg_nb_priorities = 5

-- `emulated_register` is `none` for -1; `prio` is a number of `enum reg_priority`.
pub record NativeRegister : Type 0 where
  pub used : Bool
  pub output : Bool
  pub extend : Bool
  pub extended : Bool
  pub zero_extend : Bool
  pub zero_extended : Bool
  pub locked : Bool
  pub emulated_register : Option ℕ
  pub value : ℕ
  pub prio : ℕ

-- The macros of GNU Lightning and regcache.h that a build fixes. `hardwired` is `_ZERO` on MIPS, Alpha
-- and RISC-V, and `none` elsewhere.
pub record Lightning : Type 0 where
  pub num_regs : ℕ
  pub num_temps : ℕ
  pub first_temp : ℕ
  pub jit_v : ℕ → ℕ
  pub jit_r : ℕ → ℕ
  pub hardwired : Option ℕ
  pub reg_pc : ℕ

-- A word of `struct lightrec_state` at `regs.gpr`, by the number of the register, and `next_pc`.
pub data Field : Type 0 where
  gpr : Option ℕ → Field
  next_pc : Field

-- The calls of Lightning that regcache.c makes, the destination first, as in the calls.
pub data Emit : Type 0 where
  movi : ℕ → ℕ → Emit
  movr : ℕ → ℕ → Emit
  addi : ℕ → ℕ → ℕ → Emit
  extr_i : ℕ → ℕ → Emit
  extr_ui : ℕ → ℕ → Emit
  ldxi_i : ℕ → Field → Emit
  ldxi_ui : ℕ → Field → Emit
  stxi_i : Field → ℕ → Emit
  live : ℕ → Emit

-- The array `lightrec_regs`, and the code emitted so far, the latest call first.
pub record Regcache : Type 0 where
  pub lightrec_regs : ℕ → NativeRegister
  pub code : List Emit

unfoldable pub emit : Emit → Regcache → Regcache
emit e cache = record cache { code = e ∷ cache.code }

unfoldable pub set_nreg : ℕ → NativeRegister → Regcache → Regcache
set_nreg i nreg cache = record cache {
  lightrec_regs = λ j. if i == j then nreg else cache.lightrec_regs j;
}

-- `emulated_register == reg`, for a `reg` that is not negative.
abbrev pub is_emulated : Option ℕ → ℕ → Bool
is_emulated none reg = false
is_emulated (some r) reg = r == reg
