-- ===== src/Constprop/Sound/Sums.antt =====
-- The carry loop of `lightrec_propagate_addi` on entries without a sign mask.
use lightrec.Base.{
  ℕ, zero, suc, ◌+◌, ◌^◌, ◌<◌, ◌≤◌, ◌≡◌, ◌⊎◌, ◌∙◌, sym, arith, Bool, true, false, not, ◌&&◌, ltb,
  leb, any_bit, IsU32, ==_cases, inl, inr, bit_and, bit_or, lnot, Bool-cases, add32,
}
use lightrec.Base.Bits.{
  bit, bit-lt-two, bit-bit_and, bit-bit_or, bit-lnot, bit_of_zero, bit-pow_self, bit_and-lt,
  bit_or-lt,
}
use lightrec.Optimizer.MaskBits.{any_bit_zero, digit_of_any, any_bit_one}
use lightrec.Constprop.Data.{ConstpropData, genmask, lowest_bit}
use lightrec.Constprop.Add.{addi_loop, known_sum, set_sum_bit, clear_bits, spoiled_to}
use lightrec.Constprop.Rounds.{spoiled_to-ge}
use lightrec.Constprop.Sound.Carry.{
  carry, carry_into-suc, carry_into-lt-two, add32_digit, of_bool, known_sum_digit, known_sum_carry,
  pow-lt,
}
use lightrec.Constprop.Sound.Below.{
  IsBelow, set_sum_bit-IsBelow, clear_bits-IsBelow, genmask_ones, genmask-lt, lowest_bit-digit,
  lowest_bit-lt,
}

module _ (s d : ConstpropData) (value end x y : ℕ) (s_word : IsU32 s.known)
    (sv_word : IsU32 s.value) (value_word : IsU32 value) (s_plain : s.sign ≡ 0)
    (d_plain : d.sign ≡ 0) (first : (i : ℕ) → i < 32 → bit s.known i ≡ 1 → bit s.value i ≡ bit x i)
    (second : (i : ℕ) → i < 32 → bit d.known i ≡ 1 → bit value i ≡ bit y i)
    (past : (i : ℕ) → i < 32 → end ≤ i → any_bit (bit_and s.known d.known) (2 ^ i) ≡ true) where
  both_known :
      (b : ℕ)
      → any_bit (bit_and s.known d.known) (2 ^ b) ≡ true
      → (bit s.known b ≡ 1) × (bit d.known b ≡ 1)
  both_known b h =
      let e = digit_of_any (bit_and s.known d.known) b h in
      (
        omega (arith, e, bit-bit_and s.known d.known b, bit-lt-two s.known b, bit-lt-two d.known b),
        omega (arith, e, bit-bit_and s.known d.known b, bit-lt-two s.known b, bit-lt-two d.known b),
      )

  -- A known digit of the sum, and the carry out of it.
  module _ (b : ℕ) (hb : b < 32) (c : Bool) (now : of_bool c ≡ carry x y b)
      (known : any_bit (bit_and s.known d.known) (2 ^ b) ≡ true) where
    known_digit : bit (known_sum b c s.value value) b ≡ bit (add32 x y) b
    known_digit =
        let k = both_known b known in
        omega (
          arith,
          known_sum_digit b hb c s.value value sv_word value_word,
          add32_digit x y b hb,
          now,
          first b hb k.0,
          second b hb k.1,
        )

    known_carry :
        b + 1 < 32
        → of_bool (any_bit (known_sum b c s.value value) (2 ^ (b + 1))) ≡ carry x y (b + 1)
    known_carry h =
        let k = both_known b known in
        let sum = known_sum b c s.value value in
        let next : carry x y (b + 1) ≡ bit sum (b + 1) =
          let e : b + 1 ≡ suc b = omega arith in
          let f = carry_into-suc x y 0 b in
          let g = known_sum_carry b hb c s.value value sv_word value_word h in
          rw e (f ∙ rw (← e) (omega (arith, g, now, first b hb k.0, second b hb k.1))) in
        elim (==_cases (bit sum (b + 1)) 1) [
          | inl one ↦ rw (any_bit_one sum (b + 1) one) (sym (next ∙ one))
          | inr ne ↦
              let z : bit sum (b + 1) ≡ 0 = ground (arith, bit-lt-two sum (b + 1)) in
              rw (any_bit_zero sum (b + 1) z) (sym (next ∙ z))
        ]

  -- No carry leaves a digit where one operand has 0 and no carry comes in, nor one where both have 0.
  abbrev IsQuiet : ℕ → Type 0
  IsQuiet b =
      (bit x b ≡ 0) × (carry x y b ≡ 0)
      ⊎ (bit y b ≡ 0) × (carry x y b ≡ 0)
      ⊎ (bit x b ≡ 0) × (bit y b ≡ 0)

  no_carry : (b : ℕ) → b < 32 → IsQuiet b → of_bool false ≡ carry x y (b + 1)
  no_carry b hb h =
      let e : b + 1 ≡ suc b = omega arith in
      rw (e, carry_into-suc x y 0 b)
        (ground (arith, h, bit-lt-two x b, bit-lt-two y b, carry_into-lt-two x y 0 b (omega arith)))

  known_zero :
      (k w z b : ℕ)
      → b < 32
      → IsU32 w
      → (bit k b ≡ 1 → bit w b ≡ bit z b)
      → bit (bit_and k (lnot w)) b ≡ 1
      → bit z b ≡ 0
  known_zero k w z b hb hw agrees h =
      let k1 : bit k b ≡ 1 =
        omega (arith, h, bit-bit_and k (lnot w) b, bit-lt-two k b, bit-lt-two (lnot w) b) in
      omega (arith, h, bit-bit_and k (lnot w) b, bit-lnot w b hw hb, agrees k1, bit-lt-two w b)

  abbrev zero_bits : ℕ
  zero_bits = bit_or (bit_and d.known (lnot value)) (bit_and s.known (lnot s.value))

  zero_digit : (b : ℕ) → b < 32 → any_bit zero_bits (2 ^ b) ≡ true → (bit x b ≡ 0) ⊎ (bit y b ≡ 0)
  zero_digit b hb h =
      let e = digit_of_any zero_bits b h in
      elim (==_cases (bit (bit_and d.known (lnot value)) b) 1) [
        | inl one ↦ inr (known_zero d.known value y b hb value_word (second b hb) one)
        | inr ne ↦ inl (
            known_zero s.known s.value x b hb sv_word (first b hb) (
              ground (
                arith,
                e,
                bit-bit_or (bit_and d.known (lnot value)) (bit_and s.known (lnot s.value)) b,
                bit-lt-two (bit_and d.known (lnot value)) b,
                bit-lt-two (bit_and s.known (lnot s.value)) b,
              )))
      ]

  abbrev both_zero : ℕ
  both_zero = bit_and (bit_and s.known d.known) (bit_and (lnot s.value) (lnot value))

  both_zero-digits : (b : ℕ) → b < 32 → bit both_zero b ≡ 1 → (bit x b ≡ 0) × (bit y b ≡ 0)
  both_zero-digits b hb h =
      let k = bit_and s.known d.known in
      let z = bit_and (lnot s.value) (lnot value) in
      let whole = bit-bit_and k z b in
      let k1 : bit k b ≡ 1 = omega (arith, h, whole, bit-lt-two k b, bit-lt-two z b) in
      let z1 : bit z b ≡ 1 = omega (arith, h, whole, bit-lt-two k b, bit-lt-two z b) in
      let known = both_known b (any_bit_one k b k1) in
      let values = bit-bit_and (lnot s.value) (lnot value) b in
      let sv = bit-lnot s.value b sv_word hb in
      let v = bit-lnot value b value_word hb in
      (
        omega (
          arith,
          z1,
          values,
          sv,
          v,
          first b hb known.0,
          bit-lt-two s.value b,
          bit-lt-two value b,
        ),
        omega (
          arith,
          z1,
          values,
          sv,
          v,
          second b hb known.1,
          bit-lt-two s.value b,
          bit-lt-two value b,
        ),
      )

  -- The run that an unknown digit spoils ends at bit 31, or where both digits are 0.
  record RunEnd (last : ℕ) : Type 0 where
    in_word : last < 32
    stopped : (31 ≤ last) ⊎ (bit x last ≡ 0) × (bit y last ≡ 0)

  spoiled_to-RunEnd : (b : ℕ) → b < 32 → RunEnd (spoiled_to b s value d)
  unfolding spoiled_to
  spoiled_to-RunEnd b hb =
      let marks = bit_or (bit_or both_zero 0) 0 in
      let stops = bit_and marks (genmask 31 b) in
      let zero_word =
        bit_and-lt (bit_and s.known d.known) (bit_and (lnot s.value) (lnot value))
          (bit_and-lt s.known d.known s_word) in
      let stops_word : IsU32 stops = bit_and-lt marks (genmask 31 b) (
        bit_or-lt (bit_or both_zero 0) 0 (bit_or-lt both_zero 0 zero_word (omega arith))
          (omega arith)) in
      let last = lowest_bit 32 0 stops in
      rw (s_plain, d_plain)
        (elim (==_cases stops 0) [
          | inl z ↦ rw z (record { in_word = omega arith; stopped = inl (omega arith) })
          | inr nz ↦
              let in_word : last < 0 + 32 =
                lowest_bit-lt 32 0 stops (λ j lt. absurd (omega arith)) stops_word (ground arith) in
              let one = lowest_bit-digit 32 0 stops in
              let lt : last < 32 = omega (arith, in_word) in
              let mark : bit both_zero last ≡ 1 = omega (
                arith,
                one in_word,
                bit-bit_and marks (genmask 31 b) last,
                bit-bit_or (bit_or both_zero 0) 0 last,
                bit-bit_or both_zero 0 last,
                bit_of_zero last,
                bit-lt-two both_zero last,
                bit-lt-two (genmask 31 b) last,
              ) in
              rw nz (record { in_word = lt; stopped = inr (both_zero-digits last lt mark) })
        ])

  rest-IsBelow :
      (b : ℕ) (r : ConstpropData) → 32 ≤ b → IsBelow b r (add32 x y) → IsBelow 32 r (add32 x y)
  rest-IsBelow b r h p = record {
    value_word = p.value_word;
    known_word = p.known_word;
    sign_word = p.sign_word;
    agrees = λ i lt hi k. p.agrees i (omega arith) hi k;
    plain = λ i lt hi. p.plain i (omega arith) hi;
  }

  -- Digit `b` is given up.
  cleared-IsBelow :
      (b : ℕ) (r : ConstpropData)
      → b < 32
      → IsBelow b r (add32 x y)
      → IsBelow (b + 1) (clear_bits (2 ^ b) r) (add32 x y)
  cleared-IsBelow b r hb p =
      clear_bits-IsBelow b (b + 1) (2 ^ b) r (add32 x y) (pow-lt b hb)
        (λ i le lt hi. let e : i ≡ b = omega arith in rw e (bit-pow_self b)) p

  spoiled-IsBelow :
      (b last : ℕ) (r : ConstpropData)
      → b ≤ last
      → last < 32
      → IsBelow b r (add32 x y)
      → IsBelow (last + 1) (clear_bits (genmask last b) (clear_bits (2 ^ b) r)) (add32 x y)
  spoiled-IsBelow b last r le hl p =
      clear_bits-IsBelow b (last + 1) (genmask last b) (clear_bits (2 ^ b) r) (add32 x y)
        (genmask-lt last b le hl) (λ i li lt hi. genmask_ones last b le hl i li (omega arith))
        (clear_bits-IsBelow b b (2 ^ b) r (add32 x y) (pow-lt b (omega arith))
          (λ i li lt hi. absurd (omega arith)) p)

  -- At an unknown digit the loop has not come past the last significant one.
  not_past :
      (b : ℕ) → b < 32 → any_bit (bit_and s.known d.known) (2 ^ b) ≡ false → leb end b ≡ false
  not_past b hb open_case = elim (Bool-cases (leb end b)) [
    | inr n ↦ n
    | inl y ↦ let k = past b hb (ground arith) in absurd (cc (k, open_case))
  ]

  one_zero :
      (b : ℕ)
      → b < 32
      → (c : Bool) → of_bool c ≡ carry x y b
      → (not c && any_bit zero_bits (2 ^ b)) ≡ true
      → IsQuiet b
  one_zero b hb true now h = absurd cc
  one_zero b hb false now h = elim (zero_digit b hb h) [
    | inl z ↦ inl (z, sym now)
    | inr z ↦ inr (inl (z, sym now))
  ]

  run_stopped : (last : ℕ) → RunEnd last → last + 1 < 32 → IsQuiet last
  run_stopped last run h = elim run.stopped [
    | inl top ↦ absurd (omega (arith, top))
    | inr z ↦ inr (inr z)
  ]

  pub loop-IsBelow :
      (fuel b : ℕ) (c : Bool) (r : ConstpropData)
      → 32 ≤ fuel + b
      → (b < 32 → of_bool c ≡ carry x y b)
      → IsBelow b r (add32 x y)
      → IsBelow 32 (addi_loop fuel b c end s value d r) (add32 x y)
  unfolding addi_loop
  loop-IsBelow zero b c r enough now p = rest-IsBelow b r (omega arith) p
  loop-IsBelow (suc fuel) b c r enough now p = elim (Bool-cases (ltb 31 b)) [
    | inl done ↦ rw done (rest-IsBelow b r (ground arith) p)
    | inr more ↦
        let hb : b < 32 = ground arith in
        let sum = known_sum b c s.value value in
        let last = spoiled_to b s value d in
        let cleared = clear_bits (2 ^ b) r in
        elim (Bool-cases (any_bit (bit_and s.known d.known) (2 ^ b))) [
          | inl known ↦
              rw (more, known)
                (loop-IsBelow fuel (b + 1) (any_bit sum (2 ^ (b + 1))) (set_sum_bit b sum r)
                  (omega arith) (known_carry b hb c (now hb) known)
                  (set_sum_bit-IsBelow b sum r (add32 x y) hb (known_digit b hb c (now hb) known)
                    p))
          | inr open_case ↦ elim (Bool-cases (not c && any_bit zero_bits (2 ^ b))) [
            | inl zero_here ↦
                rw (more, open_case, not_past b hb open_case, zero_here)
                  (loop-IsBelow fuel (b + 1) false (clear_bits (2 ^ b) r) (omega arith)
                    (λ h. no_carry b hb (one_zero b hb c (now hb) zero_here))
                    (cleared-IsBelow b r hb p))
            | inr spoiled ↦
                let run = spoiled_to-RunEnd b hb in
                let le = spoiled_to-ge b s value d hb in
                rw (more, open_case, not_past b hb open_case, spoiled)
                  (loop-IsBelow fuel (last + 1) false (clear_bits (genmask last b) cleared)
                    (omega (arith, le)) (λ h. no_carry last run.in_word (run_stopped last run h))
                    (spoiled-IsBelow b last r le run.in_word p))
          ]
        ]
  ]
