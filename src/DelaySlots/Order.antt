-- ===== src/DelaySlots/Order.antt =====
-- optimizer-delay-slots.c: what the pass keeps of an opcode list.
use lightrec.Base.{
  ℕ, ◌^◌, ◌≡◌, Bool, false, not, ◌&&◌, ◌||◌, ◌==◌, Bool-cases, inl, inr, ==_cases, Option, some,
  none, List, [], ◌∷◌, refl, sym, ap, ◌∙◌, arith, bit_and, bit_or, lnot, any_bit,
}
use lightrec.Base.Bits.{bit, bit-lt-two, bit-bit_and, bit-bit_or}
use lightrec.Isa.{
  Code, Opcode, op_flag_sync, op_flag_no_ds, op_flag_emulate_branch, op_flag_load_delay,
}
use lightrec.Optimizer.{has_delay_slot, opcode_has_load_delay}
use lightrec.DelaySlots.Allow.{lightrec_can_switch_delay_slot}
use lightrec.Optimizer.MaskBits.{any_bit_one, any_bit_zero}
use lightrec.DelaySlots.Pass.{
  lightrec_switch_delay_slots, switch_from, switch_round, skips_switch, follows_branch, moved_up,
  moved_down,
}
use mathlib.Core.List.{map, Perm, Permᴰ}
use mathlib.Core.List.Permᴰ

-- The opcode and the address it was read from.
abbrev pub instruction : Opcode → Code × ℕ
instruction op = (op.c, op.source_pc)

abbrev pub is_target : Opcode → Bool
is_target op = op_flag_sync op.flags

any_bit_eq : (a b i : ℕ) → bit a i ≡ bit b i → any_bit a (2 ^ i) ≡ any_bit b (2 ^ i)
any_bit_eq a b i h = elim (==_cases (bit b i) 1) [
  | inl one ↦ any_bit_one a i (h ∙ one) ∙ sym (any_bit_one b i one)
  | inr ne ↦
      let z : bit b i ≡ 0 = ground (arith, bit-lt-two b i) in
      any_bit_zero a i (h ∙ z) ∙ sym (any_bit_zero b i z)
]

digits : (bit 1 1 ≡ 0) × (bit 2 1 ≡ 1) × (bit (lnot 2) 1 ≡ 0)
unfolding bit lnot
digits = (refl, refl, refl)

sync-moved_up :
    (op next : Opcode) → is_target next ≡ false → is_target (moved_up op next) ≡ is_target op
unfolding moved_up op_flag_sync
sync-moved_up op next h = any_bit_eq _ op.flags 1 (
    omega (
      arith,
      digits.0,
      digits.1,
      clear,
      bit-bit_or (bit_or next.flags (bit_and op.flags 0x2)) 0x1 1,
      bit-bit_or next.flags (bit_and op.flags 0x2) 1,
      bit-bit_and op.flags 0x2 1,
      bit-lt-two op.flags 1,
    ))
  where
    clear : bit next.flags 1 ≡ 0
    clear = elim (==_cases (bit next.flags 1) 1) [
      | inl one ↦ cc (any_bit_one next.flags 1 one, h)
      | inr ne ↦ ground (arith, bit-lt-two next.flags 1)
    ]

sync-moved_down : (op next : Opcode) → is_target (moved_down op next) ≡ false
unfolding moved_down op_flag_sync
sync-moved_down op next =
    any_bit_zero _ 1 (omega (arith, digits.2, bit-bit_and (bit_or op.flags 0x1) (lnot 0x2) 1))

seventh_false :
    (a b c d e f s r x : Bool) → (a || b || c || d || e || f || s || r || x) ≡ false → s ≡ false
seventh_false a b c d e f s r x h = ground arith

not_skipped-unsynced :
    (prev : Option Opcode) (op next : Opcode)
    → skips_switch prev op next ≡ false
    → is_target next ≡ false
unfolding skips_switch
not_skipped-unsynced prev op next h =
    seventh_false (not (has_delay_slot op.c)) (op_flag_no_ds op.flags)
      (op_flag_emulate_branch op.flags) (op.c == 0) (next.c == 0) (follows_branch prev)
      (op_flag_sync next.flags) (op_flag_load_delay next.flags && opcode_has_load_delay next.c)
      (not (lightrec_can_switch_delay_slot op.c next.c)) h

-- The rounds keep what is a branch target, index by index.
switch_from-targets :
    (rest : List Opcode) (prev : Option Opcode) (op : Opcode)
    → map is_target (switch_from prev op rest) ≡ map is_target (op ∷ rest)
unfolding switch_from switch_round
switch_from-targets [] prev op = refl
switch_from-targets (next ∷ rest) prev op = elim (Bool-cases (skips_switch prev op next)) [
  | inl y ↦ rw y (ap (λ l. is_target op ∷ l) (switch_from-targets rest (some op) next))
  | inr n ↦ rw n (
      let clear = not_skipped-unsynced prev op next n in
      rw
        (
          switch_from-targets rest (some (moved_up op next)) (moved_down op next),
          sync-moved_up op next clear,
          sync-moved_down op next,
          clear,
        )
        refl)
]

switch_from-Perm :
    (rest : List Opcode) (prev : Option Opcode) (op : Opcode)
    → Permᴰ (map instruction (switch_from prev op rest)) (map instruction (op ∷ rest))
unfolding switch_from switch_round moved_up moved_down
switch_from-Perm [] prev op = Permᴰ.refl _
switch_from-Perm (next ∷ rest) prev op = elim (Bool-cases (skips_switch prev op next)) [
  | inl y ↦ rw y (Permᴰ.cons refl (switch_from-Perm rest (some op) next))
  | inr n ↦ rw n (
      Permᴰ.trans
        (Permᴰ.cons refl (switch_from-Perm rest (some (moved_up op next)) (moved_down op next)))
        (Permᴰ.swap refl refl))
]

-- The pass reorders the opcodes of a block, each with the address it was read from: none is lost,
-- changed or run twice. And the offsets that are branch targets are the same after it as before.
pub switch_delay_slots-Perm :
    (list : List Opcode)
    → Perm (map instruction (lightrec_switch_delay_slots list)) (map instruction list)
      × (map is_target (lightrec_switch_delay_slots list) ≡ map is_target list)
unfolding lightrec_switch_delay_slots
switch_delay_slots-Perm [] = (∣ Permᴰ.nil ∣₁, refl)
switch_delay_slots-Perm (op ∷ rest) =
    (∣ switch_from-Perm rest none op ∣₁, switch_from-targets rest none op)
