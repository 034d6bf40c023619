-- ===== src/Examples/Registers.antt =====
-- The theorems on the register cache at a host with four registers, one of them dirty.
use lightrec.Base.{
  ℕ, ◌+◌, ◌<◌, ◌≤◌, ◌==◌, ◌≡◌, ◌≢◌, refl, Bool, true, false, leb, if◌then◌else◌, Option, none, some,
  [], inl, inr, arith, u32, ap, sym, ◌∙◌, ==_cases,
}
use lightrec.Interpreter.Regs.{Gpr, set_reg}
use lightrec.Regcache.{
  NativeRegister, Lightning, Field, gpr, next_pc, Emit, movi, movr, addi, extr_i, extr_ui, ldxi_i,
  ldxi_ui, stxi_i, live, Regcache, lightrec_reg_to_lightning, lightning_reg_to_lightrec, array_size,
  alloc_temp, RegFlags, lightrec_get_hardwired_reg, lightrec_alloc_reg_in, lightrec_alloc_reg_out,
  lightrec_alloc_reg_temp, lightrec_free_regs, clean_regs,
}
use lightrec.Regcache.Host.{Host, dest, target, Jit, run_code}
use lightrec.Regcache.Refines.{Maps, Refines, Implements}
use lightrec.Regcache.Reads.{alloc_reg_in-Implements}
use lightrec.Regcache.Writes.{WritesOnly, alloc_reg_out-Refines}
use lightrec.Regcache.Temps.{alloc_reg_temp-Refines}
use lightrec.Regcache.Find.{IsBest, alloc_temp-IsBest}
use lightrec.Regcache.Clean.{clean_regs-free_regs}
use lightrec.Regcache.Layout.{IsLayout, to_lightrec-to_lightning, IsLayout-IsInjective}

abbrev field_eq : Field → Field → Bool
field_eq (gpr none) (gpr none) = true
field_eq (gpr (some a)) (gpr (some b)) = a == b
field_eq next_pc next_pc = true
field_eq (gpr none) (gpr (some b)) = false
field_eq (gpr (some a)) (gpr none) = false
field_eq (gpr a) next_pc = false
field_eq next_pc (gpr b) = false

abbrev sext64 : ℕ → ℕ
sext64 w = if leb 0x80000000 w then w + 0xffffffff00000000 else w

abbrev put : ℕ → ℕ → Host → Host
put d x s = record s { reg = λ r. if d == r then x else s.reg r }

abbrev run : Emit → Host → Host
run (movi d x) s = put d x s
run (movr d r) s = put d (s.reg r) s
run (addi d r x) s = put d (s.reg r + x) s
run (extr_i d r) s = put d (sext64 (u32 (s.reg r))) s
run (extr_ui d r) s = put d (u32 (s.reg r)) s
run (ldxi_i d f) s = put d (sext64 (u32 (s.mem f))) s
run (ldxi_ui d f) s = put d (u32 (s.mem f)) s
run (stxi_i f r) s = record s { mem = λ h. if field_eq f h then u32 (s.reg r) else s.mem h }
run (live _) s = s

put_ne :
    (d x : ℕ) (s : Host) (r : ℕ)
    → ◌≢◌ {A = Option ℕ} (some d) (some r)
    → (put d x s).reg r ≡ s.reg r
put_ne d x s r ne = elim (==_cases d r) [ inl e ↦ absurd (ne (ap some e)) | inr h ↦ rw h ]

put_self : (d x : ℕ) (s : Host) → (put d x s).reg d ≡ x
put_self d x s = ground arith

frame : (e : Emit) (s : Host) (r : ℕ) → dest e ≢ some r → (run e s).reg r ≡ s.reg r
frame (movi d x) s r ne = put_ne d _ s r ne
frame (movr d x) s r ne = put_ne d _ s r ne
frame (addi d q x) s r ne = put_ne d _ s r ne
frame (extr_i d x) s r ne = put_ne d _ s r ne
frame (extr_ui d x) s r ne = put_ne d _ s r ne
frame (ldxi_i d x) s r ne = put_ne d _ s r ne
frame (ldxi_ui d x) s r ne = put_ne d _ s r ne
frame (stxi_i f x) s r ne = refl
frame (live x) s r ne = refl

field_ne : (f h : Field) → ◌≢◌ {A = Option Field} (some f) (some h) → field_eq f h ≡ false
field_ne (gpr none) (gpr none) ne = absurd (ne refl)
field_ne (gpr (some a)) (gpr (some b)) ne = elim (==_cases a b) [
  | inl e ↦ absurd (ne (ap (λ (x : ℕ). some (gpr (some x))) e))
  | inr h ↦ h
]
field_ne next_pc next_pc ne = absurd (ne refl)
field_ne (gpr none) (gpr (some b)) ne = refl
field_ne (gpr (some a)) (gpr none) ne = refl
field_ne (gpr none) next_pc ne = refl
field_ne (gpr (some a)) next_pc ne = refl
field_ne next_pc (gpr none) ne = refl
field_ne next_pc (gpr (some b)) ne = refl

field_refl : (f : Field) → field_eq f f ≡ true
field_refl (gpr none) = refl
field_refl (gpr (some a)) = ground arith
field_refl next_pc = refl

frame_mem : (e : Emit) (s : Host) (f : Field) → target e ≢ some f → (run e s).mem f ≡ s.mem f
frame_mem (movi d x) s r ne = refl
frame_mem (movr d x) s r ne = refl
frame_mem (addi d q x) s r ne = refl
frame_mem (extr_i d x) s r ne = refl
frame_mem (extr_ui d x) s r ne = refl
frame_mem (ldxi_i d x) s r ne = refl
frame_mem (ldxi_ui d x) s r ne = refl
frame_mem (stxi_i f x) s r ne = rw (field_ne f r ne)
frame_mem (live x) s r ne = refl

sext64_low : (w : ℕ) → u32 (sext64 (u32 w)) ≡ u32 w
unfolding u32
sext64_low w = ground arith

abbrev jit : Jit
jit = record {
  run = run;
  sext = sext64;
  u32-sext = sext64_low;
  reg_frame = frame;
  mem_frame = frame_mem;
  run-movi = λ d x s. put_self d x s;
  run-extr_i = λ d r s. put_self d _ s;
  run-extr_ui = λ d r s. put_self d _ s;
  run-ldxi_i = λ d f s. put_self d _ s;
  run-ldxi_ui = λ d f s. put_self d _ s;
  run-stxi_i = λ f r s. rw (field_refl f);
}

abbrev host_registers : Lightning
host_registers = record {
  num_regs = 2;
  num_temps = 2;
  first_temp = 1;
  jit_v = λ i. 3 + i;
  jit_r = λ i. i;
  hardwired = none;
  reg_pc = 40;
}

layout : IsLayout host_registers
layout = record {
  some_regs = omega arith;
  some_temps = omega arith;
  v_line = inl (λ i b. omega arith);
  r_line = inl (λ i b. omega arith);
  apart = inl (λ i k bi bk. omega arith);
}

abbrev empty : NativeRegister
empty = record {
  used = false;
  output = false;
  extend = false;
  extended = false;
  zero_extend = false;
  zero_extended = false;
  locked = false;
  emulated_register = none;
  value = 0;
  prio = 0;
}

-- Register 5 is dirty in slot 0, with the value 7.
abbrev cache : Regcache
cache = record {
  lightrec_regs = λ i.
      if i == 0
      then record empty { emulated_register = some 5; prio = 4; output = true }
      else empty;
  code = [];
}

abbrev start : Host
start = record { reg = λ r. if r == 3 then 7 else 0; mem = λ f. 0 }

abbrev guest : Gpr
guest = λ r. if r == 5 then 7 else 0

some_5 : {r : ℕ} → some 5 ≡ some r → r ≡ 5
some_5 h = ground arith

two_zero : ◌≤◌ 2 0 → ⊥
two_zero h = omega arith

only_5 : (i r : ℕ) → Maps (cache.lightrec_regs i) r → (i ≡ 0) × (r ≡ 5)
only_5 i r m = elim (==_cases i 0) [
  | inl e ↦ (e, some_5 (rw e at (m.1)))
  | inr ne ↦ absurd (two_zero (rw ne at (m.0)))
]

false-true : ◌≡◌ {A = Bool} false true → ⊥
false-true h = cc

unused : (i : ℕ) → (cache.lightrec_regs i).used ≢ true
unused i u = elim (==_cases i 0) [
  | inl e ↦ false-true (rw e at u)
  | inr ne ↦ false-true (rw ne at u)
]

start-Implements : Implements host_registers jit start guest cache
unfolding run_code lightrec_reg_to_lightning u32
start-Implements = record {
  mapped = λ i r b m. let (e, f) = only_5 i r m in rw (e, f);
  saved = λ r pos. elim (==_cases r 5) [
    | inl e ↦ inl (0, omega arith, (ap some (sym e), inl refl))
    | inr ne ↦ inr (rw ne)
  ];
  unique = λ i k r bi bk hi hk. (only_5 i r hi).0 ∙ sym (only_5 k r hk).0;
  outputs = λ i r b pos u. absurd (unused i u);
}

some_injective : {a b : ℕ} → ◌≡◌ {A = Option ℕ} (some a) (some b) → a ≡ b
some_injective h = ground arith

put-WritesOnly : (d x : ℕ) (s : Host) → WritesOnly host_registers d s (put d x s)
put-WritesOnly d x s = record {
  others = λ k b ne. put_ne d x s _ (λ e. ne (sym (some_injective e)));
  memory = λ f. refl;
}

soft_6 : lightrec_get_hardwired_reg host_registers 6 ≡ none
unfolding lightrec_get_hardwired_reg
soft_6 = refl

not_6 : (k : ℕ) → ¬ Maps (cache.lightrec_regs k) 6
not_6 k m = omega (arith, (only_5 k 6 m).1)

abbrev sign_extended : RegFlags
sign_extended = record { ext = true; zext = false }

alloc_reg_in-Implements_example :
    Implements host_registers jit start guest
      (lightrec_alloc_reg_in host_registers 6 sign_extended cache).1
    × (u32 (
          (run_code jit
              (lightrec_alloc_reg_in host_registers 6 sign_extended cache).1.code
              start).reg
            (lightrec_alloc_reg_in host_registers 6 sign_extended cache).0)
        ≡ guest 6)
alloc_reg_in-Implements_example =
    alloc_reg_in-Implements host_registers jit (IsLayout-IsInjective host_registers layout) start
      guest 6 sign_extended cache refl start-Implements soft_6 (λ k b m. absurd (not_6 k m))
      (1, omega arith, refl, omega arith)

locked_none : (k : ℕ) → k < array_size host_registers → (cache.lightrec_regs k).locked ≡ false
locked_none k b = elim (==_cases k 0) [ inl e ↦ rw e | inr ne ↦ rw ne ]

alloc_reg_out-Refines_example :
    Refines host_registers
      (set_reg 6
        (u32 (
          (put (lightrec_alloc_reg_out host_registers 6 sign_extended cache).0 99 (
              run_code jit
                (lightrec_alloc_reg_out host_registers 6 sign_extended cache).1.code
                start)).reg
            (lightrec_alloc_reg_out host_registers 6 sign_extended cache).0))
        guest)
      (put
        (lightrec_alloc_reg_out host_registers 6 sign_extended cache).0
        99
        (run_code jit (lightrec_alloc_reg_out host_registers 6 sign_extended cache).1.code start))
      (lightrec_alloc_reg_out host_registers 6 sign_extended cache).1.lightrec_regs
alloc_reg_out-Refines_example =
    alloc_reg_out-Refines host_registers jit (IsLayout-IsInjective host_registers layout) start
      guest 6 sign_extended (omega arith) cache start-Implements soft_6 locked_none
      (λ k b m. absurd (not_6 k m)) (1, omega arith, refl, omega arith)
      (put (lightrec_alloc_reg_out host_registers 6 sign_extended cache).0 99
        (run_code jit (lightrec_alloc_reg_out host_registers 6 sign_extended cache).1.code start))
      (put-WritesOnly (lightrec_alloc_reg_out host_registers 6 sign_extended cache).0 99
        (run_code jit (lightrec_alloc_reg_out host_registers 6 sign_extended cache).1.code start))

alloc_reg_temp-Refines_example :
    Refines host_registers guest
      (put
        (lightrec_alloc_reg_temp host_registers cache).0
        99
        (run_code jit (lightrec_alloc_reg_temp host_registers cache).1.code start))
      (lightrec_alloc_reg_temp host_registers cache).1.lightrec_regs
alloc_reg_temp-Refines_example =
    alloc_reg_temp-Refines host_registers jit (IsLayout-IsInjective host_registers layout) start
      guest cache start-Implements (1, omega arith, refl, omega arith)
      (put (lightrec_alloc_reg_temp host_registers cache).0 99
        (run_code jit (lightrec_alloc_reg_temp host_registers cache).1.code start))
      (put-WritesOnly (lightrec_alloc_reg_temp host_registers cache).0 99
        (run_code jit (lightrec_alloc_reg_temp host_registers cache).1.code start))

clean_regs-free_regs_example :
    Implements host_registers jit start guest
      (clean_regs host_registers true (lightrec_free_regs host_registers cache))
    × ((r : ℕ)
        → r ≢ 0
        → u32 (
            (run_code jit
                (clean_regs host_registers true (lightrec_free_regs host_registers cache)).code
                start).mem
              (gpr (some r)))
          ≡ guest r)
clean_regs-free_regs_example =
    clean_regs-free_regs host_registers jit start guest true cache start-Implements

to_lightrec-to_lightning_example :
    lightning_reg_to_lightrec host_registers (lightrec_reg_to_lightning host_registers 3) ≡ 3
to_lightrec-to_lightning_example = to_lightrec-to_lightning host_registers 3 layout (omega arith)

alloc_temp-IsBest_example :
    IsBest cache.lightrec_regs (array_size host_registers) (alloc_temp host_registers cache)
alloc_temp-IsBest_example = alloc_temp-IsBest host_registers cache
