-- ===== src/Regcache/Host.antt =====
-- What regcache.c relies on of GNU Lightning: the effect of each emitted call on the registers of the
-- host and on `struct lightrec_state`.
use lightrec.Base.{ℕ, ◌≡◌, ◌≢◌, Option, none, some, List, [], ◌∷◌, u32}
use lightrec.Regcache.Data.{
  Field, Emit, movi, movr, addi, extr_i, extr_ui, ldxi_i, ldxi_ui, stxi_i, live,
}

-- The registers of the host by their Lightning numbers, and the words of the state.
pub record Host : Type 0 where
  pub reg : ℕ → ℕ
  pub mem : Field → ℕ

-- The register that a call writes.
abbrev pub dest : Emit → Option ℕ
dest (movi d _) = some d
dest (movr d _) = some d
dest (addi d _ _) = some d
dest (extr_i d _) = some d
dest (extr_ui d _) = some d
dest (ldxi_i d _) = some d
dest (ldxi_ui d _) = some d
dest (stxi_i _ _) = none
dest (live _) = none

-- The word of the state that a call writes.
abbrev pub target : Emit → Option Field
target (stxi_i f _) = some f
target (movi _ _) = none
target (movr _ _) = none
target (addi _ _ _) = none
target (extr_i _ _) = none
target (extr_ui _ _) = none
target (ldxi_i _ _) = none
target (ldxi_ui _ _) = none
target (live _) = none

-- `run` is what the machine code of a call does; `sext` extends a word to a register by its sign. The
-- laws are the documented behaviour of the calls.
pub record Jit : Type 0 where
  pub run : Emit → Host → Host
  pub sext : ℕ → ℕ
  pub u32-sext : (w : ℕ) → u32 (sext (u32 w)) ≡ u32 w
  pub reg_frame : (e : Emit) (s : Host) (r : ℕ) → dest e ≢ some r → (run e s).reg r ≡ s.reg r
  pub mem_frame : (e : Emit) (s : Host) (f : Field) → target e ≢ some f → (run e s).mem f ≡ s.mem f
  pub run-movi : (d x : ℕ) (s : Host) → (run (movi d x) s).reg d ≡ x
  pub run-extr_i : (d r : ℕ) (s : Host) → (run (extr_i d r) s).reg d ≡ sext (u32 (s.reg r))
  pub run-extr_ui : (d r : ℕ) (s : Host) → (run (extr_ui d r) s).reg d ≡ u32 (s.reg r)
  pub run-ldxi_i :
      (d : ℕ) (f : Field) (s : Host) → (run (ldxi_i d f) s).reg d ≡ sext (u32 (s.mem f))
  pub run-ldxi_ui : (d : ℕ) (f : Field) (s : Host) → (run (ldxi_ui d f) s).reg d ≡ u32 (s.mem f)
  pub run-stxi_i : (f : Field) (r : ℕ) (s : Host) → (run (stxi_i f r) s).mem f ≡ u32 (s.reg r)

-- Emitted code, which has its latest call first, run from a state.
unfoldable pub run_code : Jit → List Emit → Host → Host
run_code j [] s = s
run_code j (e ∷ code) s = j.run e (run_code j code s)
