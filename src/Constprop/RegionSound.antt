-- ===== src/Constprop/RegionSound.antt =====
-- constprop.c: the map that `lightrec_get_constprop_map` names holds the address.
use lightrec.Base.{
  ℕ, zero, suc, ◌+◌, ◌-◌, ◌/◌, ◌%◌, ◌^◌, ◌<◌, ◌≤◌, ◌≡◌, ◌==◌, ◌&&◌, inl, inr, true, if◌then◌else◌,
  some, List, [], ◌∷◌, get_elem?, arith, IsU32, bit_and, bit_or, lnot, add32, sext16, leb,
  Bool-cases, refl, ap, sym, ◌∙◌, min, max, ==_cases, ==_iff, subst,
}
use lightrec.Base.Bits.{
  bit, bit-lt-two, bit_of_zero, bit-bit_and, bit-bit_or, bit-lnot, bit_and-lt, bit_or-lt,
  bit-pow_ne, pow_double, lnot-lt,
}
use lightrec.Base.Bits.Fields.{bit_and-field}
use lightrec.Blockcache.Geometry.{kunseg}
use lightrec.Memory.{MemMap, map_holds, block_effective_address}
use lightrec.Base.Bits.Digits.{sext16-lt}
use lightrec.Constprop.Data.{ConstpropData, get_min_value, get_max_value}
use lightrec.Constprop.Describes.{Describes}
use lightrec.Constprop.Region.{lightrec_get_constprop_map, range_map_from}

index-injective : {x y : ℕ} → some x ≡ some y → x ≡ y
index-injective e = cc

le_of_bits : (n a b : ℕ) → a < 2 ^ n → b < 2 ^ n → ((i : ℕ) → i < n → bit a i ≤ bit b i) → a ≤ b
unfolding bit
le_of_bits zero a b ha hb h = omega arith
le_of_bits (suc n) a b ha hb h = omega (
  arith,
  h 0 (omega arith),
  le_of_bits n (a / 2) (b / 2) (omega (arith, pow_double n)) (omega (arith, pow_double n))
      (λ i hi. h (suc i) (omega arith)),
)

module _ (d : ConstpropData) (x : ℕ) (p : Describes d x) (plain : d.sign ≡ 0)
    (top : bit d.known 31 ≡ 1) where
  sign_digit : (i : ℕ) → bit d.sign i ≡ 0
  sign_digit i = rw plain (bit_of_zero i)

  -- Bit 31 is known, so that the top bit of the mask falls on no unknown bit.
  top_digit : (i : ℕ) → bit d.known i ≡ 0 → bit 0x80000000 i ≡ 0
  top_digit i z = bit-pow_ne 31 i (λ e. omega (arith, z, top, ap (λ (t : ℕ). bit d.known t) e))

  min_parts :
      (i : ℕ)
      → i < 32
      → bit (get_min_value d) i
        ≡ max
            (max (min (bit d.value i) (bit d.known i)) 0)
            (min (1 - bit d.known i) (bit 0x80000000 i))
  unfolding get_min_value
  min_parts i hi = omega (
    arith,
    sign_digit i,
    bit-bit_or (bit_or (bit_and d.value d.known) d.sign) (bit_and (lnot d.known) 0x80000000) i,
    bit-bit_or (bit_and d.value d.known) d.sign i,
    bit-bit_and d.value d.known i,
    bit-bit_and (lnot d.known) 0x80000000 i,
    bit-lnot d.known i p.known_word hi,
  )

  max_parts :
      (i : ℕ)
      → i < 32
      → bit (get_max_value d) i ≡ max (min (bit d.value i) (bit d.known i)) (1 - bit d.known i)
  unfolding get_max_value
  max_parts i hi = omega (
    arith,
    sign_digit i,
    bit-lt-two d.value i,
    bit-lt-two d.known i,
    bit-bit_and (bit_or (bit_and d.value d.known) (lnot d.known)) (lnot d.sign) i,
    bit-bit_or (bit_and d.value d.known) (lnot d.known) i,
    bit-bit_and d.value d.known i,
    bit-lnot d.known i p.known_word hi,
    bit-lnot d.sign i p.sign_word hi,
  )

  known_digits :
      (i : ℕ)
      → i < 32
      → bit d.known i ≡ 1
      → (bit (get_min_value d) i ≡ bit x i) × (bit (get_max_value d) i ≡ bit x i)
  known_digits i hi one = (
    omega (arith, one, p.agrees i hi one, min_parts i hi, bit-lt-two d.value i),
    omega (arith, one, p.agrees i hi one, max_parts i hi, bit-lt-two d.value i),
  )

  digits_in_order :
      (i : ℕ) → i < 32 → (bit (get_min_value d) i ≤ bit x i) × (bit x i ≤ bit (get_max_value d) i)
  digits_in_order i hi = elim (==_cases (bit d.known i) 1) [
    | inl one ↦ let e = known_digits i hi one in (omega (arith, e.0), omega (arith, e.1))
    | inr ne ↦
        let z : bit d.known i ≡ 0 = ground (arith, bit-lt-two d.known i) in
        (
          omega (arith, z, min_parts i hi, top_digit i z),
          omega (arith, z, max_parts i hi, bit-lt-two x i),
        )
  ]

  min-lt : IsU32 (get_min_value d)
  unfolding get_min_value
  min-lt =
      bit_or-lt (bit_or (bit_and d.value d.known) d.sign) (bit_and (lnot d.known) 0x80000000)
        (bit_or-lt (bit_and d.value d.known) d.sign (bit_and-lt d.value d.known p.value_word)
          p.sign_word)
        (bit_and-lt (lnot d.known) 0x80000000 (lnot-lt d.known))

  max-lt : IsU32 (get_max_value d)
  unfolding get_max_value
  max-lt = bit_and-lt (bit_or (bit_and d.value d.known) (lnot d.known)) (lnot d.sign) (
      bit_or-lt (bit_and d.value d.known) (lnot d.known) (bit_and-lt d.value d.known p.value_word)
        (lnot-lt d.known))

  in_range : (get_min_value d ≤ x) × (x ≤ get_max_value d)
  in_range = (
    le_of_bits 32 (get_min_value d) x min-lt p.word (λ i hi. (digits_in_order i hi).0),
    le_of_bits 32 x (get_max_value d) p.word max-lt (λ i hi. (digits_in_order i hi).1),
  )

  -- Both ends have the top bit of the word.
  same_half : (get_min_value d / 2 ^ 31 ≡ x / 2 ^ 31) × (get_max_value d / 2 ^ 31 ≡ x / 2 ^ 31)
  same_half =
      let e = known_digits 31 (omega arith) top in
      (
        omega (arith, e.0, top_of (get_min_value d), top_of x, min-lt, p.word),
        omega (arith, e.1, top_of (get_max_value d), top_of x, max-lt, p.word),
      )
    where
      top_of : (y : ℕ) → bit y 31 ≡ y / 2 ^ 31 % 2
      top_of y = unfold bit in omega arith

-- An interval of less than half the addresses whose ends, moved, lie in one of the eight regions.
moved_between :
    (lo x hi k : ℕ)
    → IsU32 lo
    → IsU32 x
    → IsU32 hi
    → IsU32 k
    → lo ≤ x
    → x ≤ hi
    → lo / 2 ^ 31 ≡ hi / 2 ^ 31
    → (lo + k) % 2 ^ 32 / 2 ^ 29 ≡ (hi + k) % 2 ^ 32 / 2 ^ 29
    → ((lo + k) % 2 ^ 32 ≤ (x + k) % 2 ^ 32) × ((x + k) % 2 ^ 32 ≤ (hi + k) % 2 ^ 32)
moved_between lo x hi k hl hx hh hk a b half region = (omega arith, omega arith)

kunseg_value : (y : ℕ) → kunseg y ≡ (if leb 0xa0000000 y then y - 0xa0000000 else y % 2 ^ 31)
unfolding kunseg lnot
kunseg_value y =
    let e : bit_and y 0x7fffffff ≡ y % 2 ^ 31 =
      bit_and-field 0 31 (omega arith) y (omega arith) (omega arith) ∙ omega arith in
    rw e refl

-- `kunseg` keeps the order within a region.
kunseg_region :
    (lo hi : ℕ) → IsU32 lo → IsU32 hi → lo ≤ hi → lo / 2 ^ 29 ≡ hi / 2 ^ 29 → kunseg lo ≤ kunseg hi
kunseg_region lo hi hl hh le same = rw (kunseg_value lo, kunseg_value hi) (ground arith)

map_holds_between :
    (map : MemMap) (lo y hi : ℕ)
    → lo ≤ y
    → y ≤ hi
    → (map_holds map lo && map_holds map hi) ≡ true
    → map_holds map y ≡ true
unfolding map_holds add32
map_holds_between map lo y hi a b h = ground arith

-- What the loop finds.
range_found :
    (maps : List MemMap) (i lo hi j : ℕ)
    → range_map_from maps i lo hi ≡ some j
    → (k : ℕ) × (j ≡ i + k)
      × (map : MemMap) × (get_elem? maps k ≡ some map)
      × ((map_holds map lo && map_holds map hi) ≡ true)
unfolding range_map_from
range_found [] i lo hi j h = absurd cc
range_found (map ∷ maps) i lo hi j h = elim (Bool-cases (map_holds map lo && map_holds map hi)) [
  | inl y ↦ (0, omega (arith, index-injective (rw y at h)), map, refl, y)
  | inr n ↦
      let r = range_found maps (i + 1) lo hi j (rw n at h) in
      (suc r.0, omega (arith, r.1), r.2, r.3, r.4)
]

region_of_mask :
    (lo hi : ℕ)
    → IsU32 lo
    → IsU32 hi
    → bit_and lo 0xe0000000 ≡ bit_and hi 0xe0000000
    → lo / 2 ^ 29 ≡ hi / 2 ^ 29
region_of_mask lo hi hl hh e = omega (
  arith,
  e,
  bit_and-field 29 3 (omega arith) lo (omega arith) (omega arith),
  bit_and-field 29 3 (omega arith) hi (omega arith) (omega arith),
)

-- A map that `lightrec_get_constprop_map` names from what is known of the base register holds the
-- effective address of the access. Conditions: the entry describes the register's value, it knows
-- bit 31, and it has no sign mask.
pub get_constprop_map-holds :
    (maps : List MemMap) (d : ConstpropData) (x imm i : ℕ)
    → Describes d x
    → d.sign ≡ 0
    → bit d.known 31 ≡ 1
    → lightrec_get_constprop_map maps d imm ≡ some i
    → (map : MemMap) × (get_elem? maps i ≡ some map)
      × (map_holds map (block_effective_address x imm) ≡ true)
unfolding lightrec_get_constprop_map block_effective_address add32
get_constprop_map-holds maps d x imm i p plain top h =
    elim (Bool-cases (bit_and lo 0xe0000000 == bit_and hi 0xe0000000)) [
      | inr n ↦ absurd (let h' = rw n at h in cc h')
      | inl y ↦
          let region =
            region_of_mask lo hi (omega arith) (omega arith)
              ((==_iff (bit_and lo 0xe0000000) (bit_and hi 0xe0000000)).0 y) in
          let r = range_found maps 0 (kunseg lo) (kunseg hi) i (rw y at h) in
          let at : i ≡ r.0 = omega (arith, r.1) in
          let inside = in_range d x p plain top in
          let half = same_half d x p plain top in
          let b =
            moved_between (get_min_value d) x (get_max_value d) (sext16 imm)
              (min-lt d x p plain top) p.word (max-lt d x p plain top) (sext16-lt imm) inside.0
              inside.1 (half.0 ∙ sym half.1) region in
          (
            r.2,
            subst (λ k. get_elem? maps k ≡ some r.2) (sym at) r.3,
            map_holds_between r.2 (kunseg lo) (kunseg moved) (kunseg hi)
                (kunseg_region lo moved (omega arith) (omega arith) b.0
                  (omega (arith, b.0, b.1, region)))
                (kunseg_region moved hi (omega arith) (omega arith) b.1
                  (omega (arith, b.0, b.1, region)))
                r.4,
          )
    ]
  where
    lo : ℕ
    lo = (get_min_value d + sext16 imm) % 2 ^ 32

    hi : ℕ
    hi = (get_max_value d + sext16 imm) % 2 ^ 32

    moved : ℕ
    moved = (x + sext16 imm) % 2 ^ 32
