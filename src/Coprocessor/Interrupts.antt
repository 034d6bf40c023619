-- ===== src/Coprocessor/Interrupts.antt =====
-- lightrec.c: a write to the status or the cause register, and the interrupts it lets through.
use lightrec.Base.{
  ℕ, ◌^◌, ◌<◌, ◌≡◌, ◌⊎◌, ◌==◌, Bool, true, false, not, ◌&&◌, refl, arith, any_bit, bit_and, bit_or,
  lnot, if◌then◌else◌, inl, inr, IsU32, ap, ◌∙◌, ==_cases, Bool-cases,
}
use lightrec.Base.Bits.{
  bit, bit-bit_or, bit-bit_and, bit-lt-two, bit-lnot, bit-pow_ne, bit_of_zero, zero_of_bits,
}
use lightrec.Optimizer.MaskBits.{any_bit_one}
use lightrec.Interpreter.Regs.{set_reg_self, set_reg_ne}
use lightrec.Execution.Machine.{Machine}
use lightrec.Execution.Cycles.{lightrec_set_exit_flags, exit_check_interrupt}
use lightrec.Coprocessor.Gte.{among}
use lightrec.Coprocessor.System.{
  EnableRam, lightrec_mtc0, switch_ram, write_cp0, check_interrupts, lightrec_invalidate_all,
}

-- The host is asked to look at the interrupts, at once.
pub record IsInterrupted (m : Machine) : Type 0 where
  pub flagged : any_bit m.exit_flags exit_check_interrupt ≡ true
  pub stopped : m.target_cycle ≡ m.current_cycle

check_flag : (x : ℕ) → any_bit (bit_or x 0x1) 0x1 ≡ true
check_flag x =
    any_bit_one (bit_or x 0x1) 0 (omega (arith, bit-bit_or x 0x1 0, bit-lt-two x 0, digit))
  where
    digit : bit 0x1 0 ≡ 1
    digit = unfold bit in refl

exit-IsInterrupted : (m : Machine) → IsInterrupted (lightrec_set_exit_flags exit_check_interrupt m)
unfolding lightrec_set_exit_flags
exit-IsInterrupted m = record { flagged = check_flag m.exit_flags; stopped = refl }

-- One request or two.
hardware-IsInterrupted :
    (b : Bool) (m : Machine)
    → IsInterrupted (
        if b
        then lightrec_set_exit_flags exit_check_interrupt
            (lightrec_set_exit_flags exit_check_interrupt m)
        else lightrec_set_exit_flags exit_check_interrupt m)
hardware-IsInterrupted true m = exit-IsInterrupted (lightrec_set_exit_flags exit_check_interrupt m)
hardware-IsInterrupted false m = exit-IsInterrupted m

check-IsInterrupted :
    (r old : ℕ) (m : Machine)
    → any_bit (bit_and (m.cp0 12) (m.cp0 13)) 0x300 ≡ true
    → any_bit (m.cp0 12) 0x1 ≡ true
    → IsInterrupted (check_interrupts r old m)
unfolding check_interrupts
check-IsInterrupted r old m pending enabled =
    rw (pending, enabled)
      (hardware-IsInterrupted
        (r == 12 && not (any_bit (lnot (m.cp0 12)) 0x401) && any_bit (lnot old) 0x401) m)

-- What the write leaves in the two registers.
abbrev pub status_after : ℕ → ℕ → Machine → ℕ
status_after r word m = if r == 12 then word else m.cp0 12

-- Of the cause register, only the two interrupts of software are written.
abbrev pub cause_after : ℕ → ℕ → Machine → ℕ
cause_after r word m = if r == 13 then word else m.cp0 13

-- What the manual of the processor says of a write that lets an interrupt through. Bit 0 of the status
-- register enables them. `soft`: interrupt 8 or 9, unmasked by its bit of the status register, is
-- pending by its bit of the cause register. `hardware`: bit 10 unmasks the line of the hardware, and
-- either it or the enable bit was clear before.
pub data LetsThrough (r word : ℕ) (m : Machine) : Type 0 where
  soft :
      (i : ℕ)
      → (i ≡ 8) ⊎ (i ≡ 9)
      → bit (status_after r word m) 0 ≡ 1
      → bit (status_after r word m) i ≡ 1
      → bit (cause_after r word m) i ≡ 1
      → LetsThrough r word m
  hardware :
      r ≡ 12
      → bit word 0 ≡ 1
      → bit word 10 ≡ 1
      → (bit (m.cp0 12) 0 ≡ 0) ⊎ (bit (m.cp0 12) 10 ≡ 0)
      → LetsThrough r word m

-- A callback of the host leaves coprocessor 0 alone.
abbrev pub KeepsCp0 : EnableRam → Type 0
KeepsCp0 enable_ram = (on : Bool) (m : Machine) → (enable_ram on m).cp0 ≡ m.cp0

-- A word and a mask that share a digit.
any_bit_shared : (x mask i : ℕ) → bit x i ≡ 1 → bit mask i ≡ 1 → any_bit x mask ≡ true
unfolding any_bit
any_bit_shared x mask i hx hm =
    let e : bit (bit_and x mask) i ≡ 1 = omega (arith, bit-bit_and x mask i) in
    elim (==_cases (bit_and x mask) 0) [
      | inl z ↦ absurd (omega (arith, e, ap (λ (t : ℕ). bit t i) z, bit_of_zero i))
      | inr n ↦ rw n
    ]

any_bit_apart : (x mask : ℕ) → ((i : ℕ) → (bit x i ≡ 0) ⊎ (bit mask i ≡ 0)) → any_bit x mask ≡ false
unfolding any_bit
any_bit_apart x mask h = let z : bit_and x mask ≡ 0 = zero_of_bits _ digit in rw z
  where
    digit : (i : ℕ) → bit (bit_and x mask) i ≡ 0
    digit i = elim (h i) [
      | inl a ↦ omega (arith, bit-bit_and x mask i, a)
      | inr b ↦ omega (arith, bit-bit_and x mask i, b)
    ]

-- The masks of the two tests.
soft_mask : (i : ℕ) → (i ≡ 8) ⊎ (i ≡ 9) → bit 0x300 i ≡ 1
unfolding bit
soft_mask i (inl e) = rw e refl
soft_mask i (inr e) = rw e refl

hardware_mask : (i : ℕ) → (i ≡ 0) ⊎ (i ≡ 10) ⊎ (bit 0x401 i ≡ 0)
hardware_mask i = elim (==_cases i 0) [
  | inl e ↦ inl e
  | inr n ↦ elim (==_cases i 10) [
    | inl e ↦ inr (inl e)
    | inr k ↦
        let split : bit_or (2 ^ 0) (2 ^ 10) ≡ 0x401 = refl in
        inr (
          inr (
            omega (
              arith,
              ap (λ (t : ℕ). bit t i) split,
              bit-bit_or (2 ^ 0) (2 ^ 10) i,
              bit-pow_ne 0 i (ground arith),
              bit-pow_ne 10 i (ground arith),
            )))
  ]
]

hardware_enabled :
    (word : ℕ) → IsU32 word → bit word 0 ≡ 1 → bit word 10 ≡ 1 → any_bit (lnot word) 0x401 ≡ false
hardware_enabled word h a b = any_bit_apart (lnot word) 0x401 (λ i. elim (hardware_mask i) [
  | inl e ↦ inl (rw e (omega (arith, bit-lnot word 0 h (omega arith))))
  | inr (inl e) ↦ inl (rw e (omega (arith, bit-lnot word 10 h (omega arith))))
  | inr (inr z) ↦ inr z
])

hardware_disabled :
    (status : ℕ)
    → IsU32 status
    → (bit status 0 ≡ 0) ⊎ (bit status 10 ≡ 0)
    → any_bit (lnot status) 0x401 ≡ true
hardware_disabled status h (inl e) =
    any_bit_shared (lnot status) 0x401 0 (omega (arith, bit-lnot status 0 h (omega arith)))
      (unfold bit in refl)
hardware_disabled status h (inr e) =
    any_bit_shared (lnot status) 0x401 10 (omega (arith, bit-lnot status 10 h (omega arith)))
      (unfold bit in refl)

switch_ram-cp0 :
    (enable_ram : EnableRam) (word : ℕ) (m : Machine)
    → KeepsCp0 enable_ram
    → (switch_ram enable_ram word m).cp0 ≡ m.cp0
unfolding switch_ram lightrec_invalidate_all
switch_ram-cp0 enable_ram word m keeps =
    elim (Bool-cases (any_bit (bit_and (m.cp0 12) (lnot word)) 0x10000)) [
      | inl y ↦ rw y (keeps true m)
      | inr n ↦ elim (Bool-cases (any_bit (bit_and (lnot (m.cp0 12)) word) 0x10000)) [
        | inl y ↦ rw (n, y) (keeps false m)
        | inr k ↦ rw (n, k) refl
      ]
    ]

-- What a write to the two registers comes to.
record Written (r word : ℕ) (m w : Machine) : Type 0 where
  status : w.cp0 12 ≡ status_after r word m
  cause : (i : ℕ) → (i ≡ 8) ⊎ (i ≡ 9) → bit (w.cp0 13) i ≡ bit (cause_after r word m) i

status_write : (word : ℕ) (m s : Machine) → s.cp0 ≡ m.cp0 → Written 12 word m (write_cp0 12 word s)
unfolding write_cp0
status_write word m s e = record {
  status = set_reg_self 12 word s.cp0;
  cause = λ i h.
      ap (λ (t : ℕ). bit t i)
        (set_reg_ne 12 word s.cp0 13 (omega arith) ∙ ap (λ (t : ℕ → ℕ). t 13) e);
}

abbrev soft_bits : ℕ → Machine → ℕ
soft_bits word m = bit_or (bit_and (m.cp0 13) (lnot 0x300)) (bit_and word 0x300)

cause_write : (word : ℕ) (m : Machine) → Written 13 word m (write_cp0 13 word m)
unfolding write_cp0
cause_write word m = record {
  status = set_reg_ne 13 (soft_bits word m) m.cp0 12 (omega arith);
  cause = λ i h.
      ap (λ (t : ℕ). bit t i) (set_reg_self 13 (soft_bits word m) m.cp0)
      ∙ omega (
        arith,
        bit-bit_or (bit_and (m.cp0 13) (lnot 0x300)) (bit_and word 0x300) i,
        bit-bit_and (m.cp0 13) (lnot 0x300) i,
        bit-lnot 0x300 i (omega arith) (below i h),
        bit-bit_and word 0x300 i,
        soft_mask i h,
        bit-lt-two word i,
        bit-lt-two (m.cp0 13) i,
      );
}
  where
    below : (i : ℕ) → (i ≡ 8) ⊎ (i ≡ 9) → i < 32
    below i (inl e) = omega arith
    below i (inr e) = omega arith

mtc0_writes :
    (enable_ram : EnableRam) (r word : ℕ) (m : Machine)
    → KeepsCp0 enable_ram
    → (r ≡ 12) ⊎ (r ≡ 13)
    → (w : Machine) × (lightrec_mtc0 enable_ram r word m ≡ check_interrupts r (m.cp0 12) w)
      × Written r word m w
unfolding lightrec_mtc0 among
mtc0_writes enable_ram r word m keeps (inl e) =
    let s = switch_ram enable_ram word m in
    rw e (write_cp0 12 word s, refl, status_write word m s (switch_ram-cp0 enable_ram word m keeps))
mtc0_writes enable_ram r word m keeps (inr e) = rw e (write_cp0 13 word m, refl, cause_write word m)

soft-IsInterrupted :
    (r old i : ℕ) (w : Machine)
    → (i ≡ 8) ⊎ (i ≡ 9)
    → bit (w.cp0 12) 0 ≡ 1
    → bit (w.cp0 12) i ≡ 1
    → bit (w.cp0 13) i ≡ 1
    → IsInterrupted (check_interrupts r old w)
soft-IsInterrupted r old i w h enabled unmasked pending =
    check-IsInterrupted r old w
      (any_bit_shared (bit_and (w.cp0 12) (w.cp0 13)) 0x300 i
        (omega (arith, bit-bit_and (w.cp0 12) (w.cp0 13) i)) (soft_mask i h))
      (any_bit_one (w.cp0 12) 0 enabled)

hardware_check :
    (old : ℕ) (w : Machine)
    → any_bit (lnot (w.cp0 12)) 0x401 ≡ false
    → any_bit (lnot old) 0x401 ≡ true
    → IsInterrupted (check_interrupts 12 old w)
unfolding check_interrupts
hardware_check old w now before =
    rw (now, before)
      (twice (any_bit (bit_and (w.cp0 12) (w.cp0 13)) 0x300 && any_bit (w.cp0 12) 0x1))
  where
    twice :
        (b : Bool)
        → IsInterrupted (
            lightrec_set_exit_flags exit_check_interrupt
              (if b then lightrec_set_exit_flags exit_check_interrupt w else w))
    twice true = exit-IsInterrupted (lightrec_set_exit_flags exit_check_interrupt w)
    twice false = exit-IsInterrupted w

-- A write to the status or the cause register that lets an interrupt through, of software or of the
-- hardware, raises the exit flag to look at the interrupts and leaves no cycles. Conditions: the
-- status register and the word written are 32-bit words, and the callback that switches the RAM on
-- and off leaves coprocessor 0 alone.
pub mtc0-IsInterrupted :
    (enable_ram : EnableRam) (r word : ℕ) (m : Machine)
    → KeepsCp0 enable_ram
    → (r ≡ 12) ⊎ (r ≡ 13)
    → IsU32 (m.cp0 12)
    → IsU32 word
    → LetsThrough r word m
    → IsInterrupted (lightrec_mtc0 enable_ram r word m)
mtc0-IsInterrupted enable_ram r word m keeps which hs hw (soft i h enabled unmasked pending) =
    let w = mtc0_writes enable_ram r word m keeps which in
    rw w.1 (
      soft-IsInterrupted r (m.cp0 12) i w.0 h (rw w.2.status enabled) (rw w.2.status unmasked)
        (w.2.cause i h ∙ pending))
mtc0-IsInterrupted enable_ram r word m keeps which hs hw (hardware e on unmasked before) =
    let w = mtc0_writes enable_ram 12 word m keeps (inl refl) in
    rw (e, w.1)
      (hardware_check (m.cp0 12) w.0 (rw w.2.status (hardware_enabled word hw on unmasked))
        (hardware_disabled (m.cp0 12) hs before))
