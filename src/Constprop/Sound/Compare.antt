-- ===== src/Constprop/Sound/Compare.antt =====
-- The comparisons.
use lightrec.Base.{
  ℕ, zero, suc, ◌+◌, ◌-◌, ◌*◌, ◌/◌, ◌%◌, ◌^◌, ◌<◌, ◌≤◌, ◌≡◌, arith, bit_and, bit_xor, lnot, shr,
  slt32, ltb, inl, inr, Bool, Bool-cases, true, false, ap, sym, ◌∙◌, any_bit, if◌then◌else◌,
}
use native.Mathlib.Nat.{div-add-mod, mod-lt, mul-add-mod_self_left, mod-eq_of_lt}
use lightrec.Base.Bits.{
  bit, bit-lt-two, bit-bit_and, bit-bit_xor, xor_digit, bit-lnot, bit_of_zero, bit_xor-lt,
}
use lightrec.Base.Bits.{bit-div, bit_high, upper_ones_digit, pow-pos, pow_double}
use lightrec.Optimizer.MaskBits.{digit_of_any, bit_of_outside}
use lightrec.Constprop.Data.{ConstpropData, constant}
use lightrec.Constprop.Describes.{Describes, constant-Describes}
use lightrec.Constprop.Compare.{slt_loop, slt_consts}

abbrev truth : Bool → ℕ
truth b = if b then 1 else 0

-- A truth value, of which only the upper 31 digits are claimed.
truth-Describes :
    (b : Bool) → Describes (record { value = 0; known = 0xfffffffe; sign = 0 }) (truth b)
truth-Describes b = record {
  word = ground arith;
  value_word = omega arith;
  known_word = omega arith;
  sign_word = omega arith;
  agrees = λ i hi h. bit_of_zero i ∙ sym (upper_zero b i hi h);
  copies = λ i hi h. absurd (omega (arith, bit_of_zero i));
  upper = λ i j le hj h. absurd (omega (arith, bit_of_zero i));
}
  where
    upper_zero : (c : Bool) (i : ℕ) → i < 32 → bit 0xfffffffe i ≡ 1 → bit (truth c) i ≡ 0
    upper_zero true i hi h =
        bit_high 1 1 i (omega arith) (omega (arith, upper_ones_digit 1 31 i (omega arith) hi))
    upper_zero false i hi h = bit_of_zero i

digit-eq : (n x : ℕ) → x / 2 ^ n % 2 ≡ bit x n
unfolding bit
digit-eq n x = bit-div n x 0 ∙ ap (bit x) (let e : n + 0 ≡ n = omega arith in e)

-- The lowest `n + 1` digits are digit `n` and the lowest `n`.
split_digit : (n x : ℕ) → x % 2 ^ suc n ≡ bit x n * 2 ^ n + x % 2 ^ n
split_digit n x =
    let q = x / 2 ^ n in
    let r = x % 2 ^ n in
    let h = q / 2 in
    let b = q % 2 in
    let digit : b ≡ bit x n = digit-eq n x in
    let small : r < 2 ^ n = mod-lt x (pow-pos n) in
    let whole : 2 ^ n * q + r ≡ x = div-add-mod x (2 ^ n) in
    let halves : 2 ^ n * q ≡ 2 ^ n * (2 * h + b) =
      ap (λ (t : ℕ). 2 ^ n * t) (let e : q ≡ 2 * h + b = omega arith in e) in
    let same : x ≡ 2 ^ suc n * h + (b * 2 ^ n + r) =
      omega (arith, ap (λ (t : ℕ). t * h) (pow_double n)) in
    let fits : b * 2 ^ n + r < 2 ^ suc n =
      omega (arith, pow_double n, digit_times b (2 ^ n) (omega arith)) in
    ap (λ (t : ℕ). t % 2 ^ suc n) same
    ∙ mul-add-mod_self_left (2 ^ suc n) h (b * 2 ^ n + r)
    ∙ mod-eq_of_lt fits
    ∙ ap (λ (t : ℕ). t * 2 ^ n + r) digit
  where
    digit_times : (b m : ℕ) → b < 2 → b * m ≤ m
    digit_times zero m h = omega arith
    digit_times (suc zero) m h = omega arith
    digit_times (suc (suc b)) m h = absurd (omega arith)

-- The comparison of `n + 1` digits from the top ones and the comparison of the rest.
ltb_equal_top :
    (n x y : ℕ)
    → bit x n ≡ bit y n
    → ltb (x % 2 ^ suc n) (y % 2 ^ suc n) ≡ ltb (x % 2 ^ n) (y % 2 ^ n)
ltb_equal_top n x y e = rw (split_digit n x, split_digit n y, e) (ground arith)

ltb_top_one : (n x y : ℕ) → bit x n ≡ 1 → bit y n ≡ 0 → ltb (x % 2 ^ suc n) (y % 2 ^ suc n) ≡ false
ltb_top_one n x y e f =
    rw (split_digit n x, split_digit n y, e, f) (ground (arith, mod-lt y (pow-pos n)))

ltb_top_zero : (n x y : ℕ) → bit x n ≡ 0 → bit y n ≡ 1 → ltb (x % 2 ^ suc n) (y % 2 ^ suc n) ≡ true
ltb_top_zero n x y e f =
    rw (split_digit n x, split_digit n y, e, f) (ground (arith, mod-lt x (pow-pos n)))

module _ {s d : ConstpropData} {x y : ℕ} (p : Describes s x) (q : Describes d y) where
  -- Both digits are known: the entries show them.
  both_known :
      (n : ℕ)
      → n < 32
      → bit (bit_and s.known d.known) n ≡ 1
      → (bit s.value n ≡ bit x n) × (bit d.value n ≡ bit y n)
  both_known n hn h = (
    p.agrees n hn (omega (arith, bit-bit_and s.known d.known n, bit-lt-two s.known n)),
    q.agrees n hn (omega (arith, bit-bit_and s.known d.known n, bit-lt-two d.known n)),
  )

  differ_digit :
      (n : ℕ)
      → n < 32
      → bit (lnot (bit_xor s.value d.value)) n ≡ 1 - xor_digit (bit s.value n) (bit d.value n)
  differ_digit n hn =
      bit-lnot (bit_xor s.value d.value) n (bit_xor-lt _ _ p.value_word q.value_word) hn
      ∙ ap (λ (t : ℕ). 1 - t) (bit-bit_xor s.value d.value n)

  slt_loop-Describes :
      (n : ℕ) → n ≤ 32 → Describes (slt_loop n s d) (truth (ltb (x % 2 ^ n) (y % 2 ^ n)))
  unfolding slt_loop xor_digit
  slt_loop-Describes zero hn =
      let e : x % 1 ≡ 0 = omega arith in
      let f : y % 1 ≡ 0 = omega arith in rw (e, f) (constant-Describes 0 (omega arith))
  slt_loop-Describes (suc n) hn = elim (Bool-cases (any_bit (bit_and s.known d.known) (2 ^ n))) [
    | inr unknown ↦ rw unknown (truth-Describes (ltb (x % 2 ^ suc n) (y % 2 ^ suc n)))
    | inl known ↦
        let k = both_known n (omega arith) (digit_of_any _ n known) in
        elim (Bool-cases (any_bit (lnot (bit_xor s.value d.value)) (2 ^ n))) [
          | inl equal ↦
              rw
                (
                  known,
                  equal,
                  ltb_equal_top n x y (
                      omega (
                        arith,
                        k,
                        differ_digit n (omega arith),
                        digit_of_any _ n equal,
                        bit-lt-two x n,
                        bit-lt-two y n,
                      )),
                )
                (slt_loop-Describes n (omega arith))
          | inr differ ↦
              let o = omega_differ n (omega arith) (bit_of_outside _ n differ) in
              elim (Bool-cases (any_bit s.value (2 ^ n))) [
                | inl one ↦
                    rw
                      (
                        known,
                        differ,
                        one,
                        ltb_top_one n x y (omega (arith, k, digit_of_any _ n one))
                            (omega (arith, k, o, digit_of_any _ n one)),
                      )
                      (constant-Describes 0 (omega arith))
                | inr zero' ↦
                    rw
                      (
                        known,
                        differ,
                        zero',
                        ltb_top_zero n x y (omega (arith, k, bit_of_outside _ n zero'))
                            (omega (arith, k, o, bit_of_outside _ n zero')),
                      )
                      (constant-Describes 1 (omega arith))
              ]
        ]
  ]
    where
      omega_differ :
          (m : ℕ)
          → m < 32
          → bit (lnot (bit_xor s.value d.value)) m ≡ 0
          → bit s.value m + bit d.value m ≡ 1
      omega_differ m hm z =
          omega (arith, differ_digit m hm, bit-lt-two s.value m, bit-lt-two d.value m)

  -- The entry that `lightrec_propagate_slt` computes for an unsigned comparison describes its truth
  -- value, 1 or 0.
  pub sltu-Describes : Describes (slt_consts false s d) (truth (ltb x y))
  unfolding slt_consts
  sltu-Describes =
      let e : x % 2 ^ 32 ≡ x = omega (arith, p.word) in
      let f : y % 2 ^ 32 ≡ y = omega (arith, q.word) in
      rw (e, f) at (slt_loop-Describes 32 (omega arith))

  -- With equal signs the signed order is the unsigned one.
  slt_same_sign : bit x 31 ≡ bit y 31 → slt32 x y ≡ ltb (x % 2 ^ 32) (y % 2 ^ 32)
  unfolding slt32
  slt_same_sign e = ground (arith, p.word, q.word, digit-eq 31 x, digit-eq 31 y)

  -- With opposite signs the negative one is smaller.
  slt_opposite :
      bit x 31 + bit y 31 ≡ 1 → shr s.value 31 ≡ bit x 31 → shr s.value 31 ≡ truth (slt32 x y)
  unfolding slt32 shr
  slt_opposite e f = ground (arith, p.word, q.word, digit-eq 31 x, digit-eq 31 y)

  top_shifted : bit s.value 31 ≡ bit x 31 → shr s.value 31 ≡ bit x 31
  unfolding shr
  top_shifted e = omega (arith, p.value_word, digit-eq 31 s.value)

  slt_tops_known :
      bit (bit_and (bit_and s.known d.known) (bit_xor s.value d.value)) 31 ≡ 1
      → Describes (constant (shr s.value 31)) (truth (slt32 x y))
  unfolding xor_digit
  slt_tops_known h =
      let t = top_digits in
      let e : shr s.value 31 ≡ truth (slt32 x y) = slt_opposite t.0 (top_shifted t.1) in
      rw e (constant-Describes (truth (slt32 x y)) (ground arith))
    where
      top_digits : (bit x 31 + bit y 31 ≡ 1) × (bit s.value 31 ≡ bit x 31)
      top_digits =
          let w = bit-bit_and (bit_and s.known d.known) (bit_xor s.value d.value) 31 in
          let o : bit (bit_and s.known d.known) 31 ≡ 1 =
            omega (arith, h, w, bit-lt-two (bit_and s.known d.known) 31) in
          let k = both_known 31 (omega arith) o in
          (
            omega
                (arith, k, h, w, bit-bit_xor s.value d.value 31, bit-lt-two x 31, bit-lt-two y 31),
            k.0,
          )

  slt_tops_equal :
      bit (bit_and (bit_and s.known d.known) (bit_xor s.value d.value)) 31 ≡ 0
      → Describes (slt_loop 32 s d) (truth (slt32 x y))
  unfolding slt_loop xor_digit
  slt_tops_equal h = elim (Bool-cases (any_bit (bit_and s.known d.known) 0x80000000)) [
    | inr unknown ↦ rw unknown (truth-Describes (slt32 x y))
    | inl known ↦
        let o = digit_of_any (bit_and s.known d.known) 31 known in
        let k = both_known 31 (omega arith) o in
        let e : bit x 31 ≡ bit y 31 = omega (
          arith,
          k,
          o,
          h,
          bit-bit_and (bit_and s.known d.known) (bit_xor s.value d.value) 31,
          bit-bit_xor s.value d.value 31,
          bit-lt-two x 31,
          bit-lt-two y 31,
        ) in
        rw (slt_same_sign e) (slt_loop-Describes 32 (omega arith))
  ]

  -- The entry that `lightrec_propagate_slt` computes for a signed comparison describes its truth
  -- value, 1 or 0.
  pub slt-Describes : Describes (slt_consts true s d) (truth (slt32 x y))
  unfolding slt_consts
  slt-Describes =
      elim (Bool-cases
        (any_bit (bit_and (bit_and s.known d.known) (bit_xor s.value d.value)) 0x80000000)) [
          | inl h ↦ rw h (slt_tops_known (digit_of_any _ 31 h))
          | inr h ↦ rw h (slt_tops_equal (bit_of_outside _ 31 h))
        ]
