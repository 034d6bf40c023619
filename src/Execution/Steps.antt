-- ===== src/Execution/Steps.antt =====
-- execution.c: the calls that move the cycle counts, as a step relation.
use lightrec.Base.{ℕ, ◌≡◌, ◌≢◌, ◌≤◌, ◌==◌, arith, Bool-cases, inl, inr, ==_cases, ap, bit_or}
use lightrec.Base.Bits.{bit, bit-bit_or, bit_of_zero, zero_of_bits}
use lightrec.Execution.Machine.{Machine}
use lightrec.Execution.Cycles.{
  lightrec_set_exit_flags, lightrec_reset_cycle_count, lightrec_set_target_cycle_count,
}

-- A call that a callback or the host makes while code runs.
pub data Step : Machine → Machine → Type 0 where
  exit : {m : Machine} (flags : ℕ) → Step m (lightrec_set_exit_flags flags m)
  advance :
      {m : Machine} (cycles : ℕ)
      → m.current_cycle ≤ cycles
      → Step m (lightrec_reset_cycle_count cycles m)
  retarget : {m : Machine} (cycles : ℕ) → Step m (lightrec_set_target_cycle_count cycles m)

pub data Steps : Machine → Machine → Type 0 where
  here : {m : Machine} → Steps m m
  step : {a b c : Machine} → Step a b → Steps b c → Steps a c

-- No cycles are left before the code has to leave.
abbrev pub IsExiting : Machine → Type 0
IsExiting m = (m.exit_flags ≢ 0) × (m.target_cycle ≤ m.current_cycle)

bit_or-nonzero : (a b : ℕ) → a ≢ 0 → bit_or a b ≢ 0
bit_or-nonzero a b h z = h (zero_of_bits a (λ i. low i))
  where
    low : (i : ℕ) → bit a i ≡ 0
    low i = omega (arith, bit-bit_or a b i, ap (λ (t : ℕ). bit t i) z, bit_of_zero i)

bit_or-nonzero_right : (a b : ℕ) → b ≢ 0 → bit_or a b ≢ 0
bit_or-nonzero_right a b h z = h (zero_of_bits b (λ i. low i))
  where
    low : (i : ℕ) → bit b i ≡ 0
    low i = omega (arith, bit-bit_or a b i, ap (λ (t : ℕ). bit t i) z, bit_of_zero i)

Step-IsExiting : {a b : Machine} → Step a b → IsExiting a → IsExiting b
unfolding lightrec_set_exit_flags lightrec_reset_cycle_count lightrec_set_target_cycle_count
Step-IsExiting {a} (exit flags) e = elim (==_cases flags 0) [
  | inl z ↦ rw z e
  | inr ne ↦ rw ne (bit_or-nonzero a.exit_flags flags e.0, omega arith)
]
Step-IsExiting {a} (advance cycles up) e = (e.0, ground (arith, e.1, up))
Step-IsExiting {a} (retarget cycles) e = elim (==_cases a.exit_flags 0) [
  | inl z ↦ absurd (e.0 z)
  | inr ne ↦ rw ne e
]

Steps-IsExiting : {a b : Machine} → Steps a b → IsExiting a → IsExiting b
Steps-IsExiting here e = e
Steps-IsExiting (step s rest) e = Steps-IsExiting rest (Step-IsExiting s e)

Step-ordered :
    {a b : Machine} → Step a b → a.current_cycle ≤ a.target_cycle → b.current_cycle ≤ b.target_cycle
unfolding lightrec_set_exit_flags lightrec_reset_cycle_count lightrec_set_target_cycle_count
Step-ordered {a} (exit flags) h = elim (==_cases flags 0) [
  | inl z ↦ rw z h
  | inr ne ↦ rw ne (omega arith)
]
Step-ordered {a} (advance cycles up) h = ground arith
Step-ordered {a} (retarget cycles) h = elim (Bool-cases (a.exit_flags == 0)) [
  | inl z ↦ rw z (ground arith)
  | inr ne ↦ rw ne h
]

-- The count of cycles never goes past the target by these calls.
pub Steps-ordered :
    {a b : Machine}
    → Steps a b
    → a.current_cycle ≤ a.target_cycle
    → b.current_cycle ≤ b.target_cycle
Steps-ordered here h = h
Steps-ordered (step s rest) h = Steps-ordered rest (Step-ordered s h)

set_exit_flags-IsExiting :
    (m : Machine) (flags : ℕ) → flags ≢ 0 → IsExiting (lightrec_set_exit_flags flags m)
unfolding lightrec_set_exit_flags
set_exit_flags-IsExiting m flags h = elim (==_cases flags 0) [
  | inl z ↦ absurd (h z)
  | inr ne ↦ rw ne (bit_or-nonzero_right m.exit_flags flags h, omega arith)
]

-- Once an exit has been asked for with a flag, a flag is up and no cycles are left, whatever calls
-- follow: further exits, new targets, and counts that do not go back.
pub exit_is_kept :
    (m b : Machine) (flags : ℕ)
    → flags ≢ 0
    → Steps (lightrec_set_exit_flags flags m) b
    → IsExiting b
exit_is_kept m b flags h s = Steps-IsExiting s (set_exit_flags-IsExiting m flags h)
