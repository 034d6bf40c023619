-- ===== src/Coprocessor/Rfe.antt =====
-- lightrec.c: the return from an exception, and the interrupts of a write to coprocessor 0.
use lightrec.Base.{
  ℕ, ◌+◌, ◌-◌, ◌^◌, ◌<◌, ◌≤◌, ◌≡◌, ◌≢◌, ◌==◌, Bool, true, false, not, ◌&&◌, refl, arith, IsU32,
  any_bit, bit_and, bit_or, lnot, shr, if◌then◌else◌, Bool-cases, inl, inr, ap, sym, ◌∙◌, ltb,
  ltb→lt,
}
use lightrec.Base.Bits.{
  bit, bit-lt-two, bit-bit_and, bit-bit_or, bit-lnot, bit-shr, bit-mul_high, bit_high, bit-mask_low,
  bit_or-lt, bit_and-lt, shr-le,
}
use lightrec.Optimizer.MaskBits.{any_bit_zero}
use lightrec.Execution.Machine.{Machine}
use lightrec.Interpreter.Regs.{set_reg_self, set_reg_ne}
use lightrec.Execution.Cycles.{lightrec_set_exit_flags, exit_check_interrupt}
use lightrec.Coprocessor.Gte.{among}
use lightrec.Coprocessor.System.{
  EnableRam, lightrec_rfe, lightrec_mtc0, switch_ram, write_cp0, check_interrupts,
}

-- The status that the source writes back.
abbrev popped : ℕ → ℕ
popped status = bit_or (shr (bit_and status 0x3c) 2) (bit_and status (lnot 0xf))

kept_mask : (i : ℕ) → 4 ≤ i → i < 32 → bit (lnot 0xf) i ≡ 1
kept_mask i h hi = omega (arith, bit-lnot 0xf i (omega arith) hi, bit_high 4 0xf i (omega arith) h)

popped_low : (status i : ℕ) → i < 4 → bit (popped status) i ≡ bit status (2 + i)
popped_low status i h = omega (
  arith,
  bit-bit_or (shr (bit_and status 0x3c) 2) (bit_and status (lnot 0xf)) i,
  bit-shr (bit_and status 0x3c) 2 i,
  bit-bit_and status 0x3c (2 + i),
  bit-mul_high 2 (2 ^ 4 - 1) i,
  bit-mask_low 4 i h,
  bit-lt-two status (2 + i),
  bit-bit_and status (lnot 0xf) i,
  bit-lnot 0xf i (omega arith) (omega arith),
)

popped_high : (status i : ℕ) → 4 ≤ i → i < 32 → bit (popped status) i ≡ bit status i
popped_high status i h hi = omega (
  arith,
  bit-bit_or (shr (bit_and status 0x3c) 2) (bit_and status (lnot 0xf)) i,
  bit-shr (bit_and status 0x3c) 2 i,
  bit-bit_and status 0x3c (2 + i),
  bit_high 6 0x3c (2 + i) (omega arith) (omega arith),
  bit-lt-two status i,
  bit-bit_and status (lnot 0xf) i,
  kept_mask i h hi,
)

popped-lt : (status : ℕ) → IsU32 status → IsU32 (popped status)
popped-lt status h =
    bit_or-lt (shr (bit_and status 0x3c) 2) (bit_and status (lnot 0xf))
      (omega (arith, shr-le (bit_and status 0x3c) 2, bit_and-lt status 0x3c h))
      (bit_and-lt status (lnot 0xf) h)

-- Bit 16 does not change, so that neither branch of `switch_ram` is taken.
switch-popped :
    (enable_ram : EnableRam) (m : Machine)
    → IsU32 (m.cp0 12)
    → switch_ram enable_ram (popped (m.cp0 12)) m ≡ m
unfolding switch_ram
switch-popped enable_ram m h =
    rw
      (
        any_bit_zero (bit_and (m.cp0 12) (lnot (popped (m.cp0 12)))) 16 (
            omega (
              arith,
              bit-bit_and (m.cp0 12) (lnot (popped (m.cp0 12))) 16,
              bit-lnot (popped (m.cp0 12)) 16 (popped-lt (m.cp0 12) h) (omega arith),
              popped_high (m.cp0 12) 16 (omega arith) (omega arith),
              bit-lt-two (m.cp0 12) 16,
            )),
        any_bit_zero (bit_and (lnot (m.cp0 12)) (popped (m.cp0 12))) 16 (
            omega (
              arith,
              bit-bit_and (lnot (m.cp0 12)) (popped (m.cp0 12)) 16,
              bit-lnot (m.cp0 12) 16 h (omega arith),
              popped_high (m.cp0 12) 16 (omega arith) (omega arith),
              bit-lt-two (m.cp0 12) 16,
            )),
      )
      refl

-- What an exit request leaves alone: all but the flags and the target of the cycle count.
unfoldable pub Untouched : Machine → Machine → Type 0
Untouched a b = a ≡ record b { exit_flags = a.exit_flags; target_cycle = a.target_cycle }

exit_if-Untouched :
    (b : Bool) (a m : Machine)
    → Untouched a m
    → Untouched (if b then lightrec_set_exit_flags exit_check_interrupt a else a) m
unfolding Untouched lightrec_set_exit_flags
exit_if-Untouched true a m u =
    ap
      (λ (t : Machine). record t {
        exit_flags = bit_or a.exit_flags exit_check_interrupt;
        target_cycle = a.current_cycle;
      })
      u
exit_if-Untouched false a m u = u

pub check-Untouched : (r old : ℕ) (m : Machine) → Untouched (check_interrupts r old m) m
unfolding check_interrupts Untouched
check-Untouched r old m =
    exit_if-Untouched (r == 12 && not (any_bit (lnot (m.cp0 12)) 0x401) && any_bit (lnot old) 0x401)
      _ m
      (exit_if-Untouched (any_bit (bit_and (m.cp0 12) (m.cp0 13)) 0x300 && any_bit (m.cp0 12) 0x1) m
        m refl)

pub check-cp0 : (r old : ℕ) (m : Machine) → (check_interrupts r old m).cp0 ≡ m.cp0
check-cp0 r old m =
    let u = check-Untouched r old m in unfold Untouched in ap (λ (t : Machine). t.cp0) u

rfe_write :
    (enable_ram : EnableRam) (m : Machine)
    → IsU32 (m.cp0 12)
    → lightrec_rfe enable_ram m
      ≡ check_interrupts 12 (m.cp0 12) (write_cp0 12 (popped (m.cp0 12)) m)
unfolding lightrec_rfe lightrec_mtc0 among
rfe_write enable_ram m h = rw (switch-popped enable_ram m h) refl

-- A return from an exception moves bits 2 to 5 of the status register, the mode and the interrupt
-- enable that the exception and the one before it pushed, down to bits 0 to 3, and keeps the other
-- bits. It writes no other register of the coprocessor; and of the rest of the state, the code index
-- included, it changes only the exit flags and the target of the cycle count, by which it may ask for
-- an exit. Condition: the status register holds a word.
pub rfe_pops :
    (enable_ram : EnableRam) (m : Machine) (i : ℕ)
    → IsU32 (m.cp0 12)
    → i < 32
    → let after = lightrec_rfe enable_ram m in
      (bit (after.cp0 12) i ≡ (if ltb i 4 then bit (m.cp0 12) (2 + i) else bit (m.cp0 12) i))
      × ((r : ℕ) → 12 ≢ r → after.cp0 r ≡ m.cp0 r)
      × (after ≡ record m {
        cp0 = after.cp0;
        exit_flags = after.exit_flags;
        target_cycle = after.target_cycle;
      })
rfe_pops enable_ram m i h hi =
    let e = rfe_write enable_ram m h in
    let w = write_cp0 12 (popped (m.cp0 12)) m in
    let c = check-cp0 12 (m.cp0 12) w in
    rw e (
      ap (λ (t : ℕ → ℕ). bit (t 12) i) c ∙ status,
      λ r ne. ap (λ (t : ℕ → ℕ). t r) c ∙ other r ne,
      elsewhere,
    )
  where
    digit :
        bit (popped (m.cp0 12)) i ≡ (if ltb i 4 then bit (m.cp0 12) (2 + i) else bit (m.cp0 12) i)
    digit = elim (Bool-cases (ltb i 4)) [
      | inl y ↦ rw y (popped_low (m.cp0 12) i (ltb→lt i 4 y))
      | inr n ↦ rw n (popped_high (m.cp0 12) i (ground (arith, n)) hi)
    ]

    status :
        bit ((write_cp0 12 (popped (m.cp0 12)) m).cp0 12) i
        ≡ (if ltb i 4 then bit (m.cp0 12) (2 + i) else bit (m.cp0 12) i)
    status = unfold write_cp0 in rw (set_reg_self 12 (popped (m.cp0 12)) m.cp0) digit

    other : (r : ℕ) → 12 ≢ r → (write_cp0 12 (popped (m.cp0 12)) m).cp0 r ≡ m.cp0 r
    other r ne = unfold write_cp0 in set_reg_ne 12 (popped (m.cp0 12)) m.cp0 r ne

    elsewhere :
        let k = check_interrupts 12 (m.cp0 12) (write_cp0 12 (popped (m.cp0 12)) m) in
        k ≡ record m { cp0 = k.cp0; exit_flags = k.exit_flags; target_cycle = k.target_cycle }
    elsewhere =
        let w = write_cp0 12 (popped (m.cp0 12)) m in
        let k = check_interrupts 12 (m.cp0 12) w in
        let u = check-Untouched 12 (m.cp0 12) w in
        let c = check-cp0 12 (m.cp0 12) w in
        unfold Untouched write_cp0 in
        (u
          ∙ ap
              (λ (t : ℕ → ℕ). record m {
                cp0 = t;
                exit_flags = k.exit_flags;
                target_cycle = k.target_cycle;
              })
              (sym c))
