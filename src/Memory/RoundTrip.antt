-- ===== src/Memory/RoundTrip.antt =====
-- lightrec.c: a word stored by `SWL` and `SWR` at an unaligned address is read back by `LWL` and `LWR`.
use lightrec.Base.{
  ℕ, ◌+◌, ◌-◌, ◌*◌, ◌%◌, ◌^◌, ◌≡◌, ◌≤◌, ◌<◌, ◌⊎◌, inl, inr, arith, IsU32, bit_and, bit_or, shl, shr,
  ltb, ◌==◌, if◌then◌else◌, true, false, Bool-cases, refl, List, Option, none, some, any_bit, lnot,
  leb, ◌&&◌, Bool,
}
use lightrec.Base.Bits.{
  bit-bit_and, bit_of_zero, zero_of_bits, bit_or_zero_left, bit_or_zero_right, shl_zero, shr_zero,
}
use lightrec.Constprop.Data.{genmask}
use lightrec.Execution.Machine.{Machine}
use lightrec.Memory.Host.{load32, store32}
use lightrec.Blockcache.Geometry.{kunseg, ram_size}
use lightrec.Memory.Maps.{
  psx_map_kernel_user_ram, psx_map_mirror1, psx_map_mirror3, MemMap, lightrec_invalidate,
  lightrec_get_map_idx, invalidate_range,
}
use lightrec.Memory.Default.{lightrec_default_ops, invalidate_after_store}
use lightrec.Memory.Unaligned.{align, lightrec_swl, lightrec_swr, lightrec_lwl, lightrec_lwr}
use lightrec.Memory.Whole.{
  load32-store32, load32-store32_apart, load32-lt, joined_halves, right_half-lt, left_half-lt,
}

and_zero : (x : ℕ) → bit_and x 0 ≡ 0
and_zero x = zero_of_bits (bit_and x 0) (λ i. omega (arith, bit-bit_and x 0 i, bit_of_zero i))

remainder_cases : (x : ℕ) → (x % 4 ≡ 0) ⊎ (x % 4 ≡ 1) ⊎ (x % 4 ≡ 2) ⊎ (x % 4 ≡ 3)
remainder_cases x = ground arith

module _ (maps : List MemMap) where
  memory-range :
      (kaddr masked len : ℕ) (m : Machine) (b c : Bool)
      → (if b
          then invalidate_range masked len m
          else if c
          then invalidate_range kaddr len m
          else m).memory
        ≡ m.memory
  unfolding invalidate_range
  memory-range kaddr masked len m true c = refl
  memory-range kaddr masked len m false true = refl
  memory-range kaddr masked len m false false = refl

  memory-invalidate :
      (addr len : ℕ) (m : Machine) → (lightrec_invalidate maps addr len m).memory ≡ m.memory
  unfolding lightrec_invalidate
  memory-invalidate addr len m = go (lightrec_get_map_idx maps kaddr) refl
    where
      kaddr : ℕ
      kaddr = kunseg (bit_and addr (lnot 3))

      go :
          (o : Option ℕ)
          → lightrec_get_map_idx maps kaddr ≡ o
          → (lightrec_invalidate maps addr len m).memory ≡ m.memory
      go none e = rw (lightrec_invalidate, e) refl
      go (some idx) e =
          rw (lightrec_invalidate, e)
            (memory-range kaddr (bit_and kaddr (ram_size - 1)) len m
              (leb psx_map_mirror1 idx && leb idx psx_map_mirror3) (idx == psx_map_kernel_user_ram))

  memory-after_store :
      (addr len : ℕ) (m : Machine) → (invalidate_after_store maps addr len m).memory ≡ m.memory
  unfolding invalidate_after_store
  memory-after_store addr len m = elim (Bool-cases (any_bit m.opt_flags 0x1)) [
    | inl y ↦ rw y refl
    | inr n ↦ rw n (memory-invalidate addr len m)
  ]

  load-default :
      (opcode host addr : ℕ) (m : Machine)
      → (lightrec_default_ops maps).lw opcode host addr m ≡ (load32 host m.memory, m)
  unfolding lightrec_default_ops
  load-default opcode host addr m = refl

  store-default :
      (opcode host addr word : ℕ) (m : Machine)
      → ((lightrec_default_ops maps).sw opcode host addr word m).memory ≡ store32 host word m.memory
  unfolding lightrec_default_ops
  store-default opcode host addr word m =
      memory-after_store addr 4 (record m { memory = store32 host word m.memory })

  -- A store by `SWL` or `SWR` is a store of one aligned word.
  memory-swl :
      (opcode host addr word t k n : ℕ) (m : Machine)
      → addr % 4 ≡ t
      → ltb t 3 ≡ true
      → (3 - t) * 8 ≡ n
      → (t + 1) * 8 ≡ k
      → (lightrec_swl (lightrec_default_ops maps) opcode host addr word m).memory
        ≡ store32
            (align host)
            (bit_or (shr word n) (bit_and (load32 (align host) m.memory) (2 ^ 32 - 2 ^ k)))
            m.memory
  unfolding lightrec_swl genmask
  memory-swl opcode host addr word t k n m h low e1 e2 =
      rw (lightrec_swl, h, low, e1, e2, load-default, store-default) refl

  memory-swr :
      (opcode host addr word s k : ℕ) (m : Machine)
      → addr % 4 ≡ s
      → s * 8 ≡ k
      → (lightrec_swr (lightrec_default_ops maps) opcode host addr word m).memory
        ≡ store32
            (align host)
            (bit_or (shl word k) (bit_and (load32 (align host) m.memory) (2 ^ k - 1)))
            m.memory
  unfolding lightrec_swr
  memory-swr opcode host addr word s k m h e =
      rw (lightrec_swr, h, e, load-default, store-default) refl

  value-lwl :
      (opcode host addr reg t n : ℕ) (m : Machine)
      → addr % 4 ≡ t
      → 24 - t * 8 ≡ n
      → lightrec_lwl (lightrec_default_ops maps) opcode host addr reg m
        ≡ (bit_or (bit_and reg (2 ^ n - 1)) (shl (load32 (align host) m.memory) n), m)
  unfolding lightrec_lwl
  value-lwl opcode host addr reg t n m h e = rw (lightrec_lwl, h, e, load-default) refl

  value-lwr :
      (opcode host addr reg s k n : ℕ) (m : Machine)
      → addr % 4 ≡ s
      → (s == 0) ≡ false
      → s * 8 ≡ k
      → 32 - k ≡ n
      → lightrec_lwr (lightrec_default_ops maps) opcode host addr reg m
        ≡ (bit_or (bit_and reg (2 ^ 32 - 2 ^ n)) (shr (load32 (align host) m.memory) k), m)
  unfolding lightrec_lwr genmask
  value-lwr opcode host addr reg s k n m h nz e1 e2 =
      rw (lightrec_lwr, h, nz, e1, e2, load-default) refl

  value-lwr_aligned :
      (opcode host addr reg : ℕ) (m : Machine)
      → addr % 4 ≡ 0
      → lightrec_lwr (lightrec_default_ops maps) opcode host addr reg m
        ≡ (bit_or (bit_and reg 0) (shr (load32 (align host) m.memory) 0), m)
  unfolding lightrec_lwr
  value-lwr_aligned opcode host addr reg m h = rw (lightrec_lwr, h, load-default) refl

  -- `SWL rt, 3(a)` and `SWR rt, 0(a)`; `LWL rt, 3(a)` and `LWR rt, 0(a)`.
  abbrev pub store_unaligned : ℕ → ℕ → ℕ → ℕ → Machine → Machine
  store_unaligned opcode host addr word m =
      lightrec_swr (lightrec_default_ops maps) opcode host addr word
        (lightrec_swl (lightrec_default_ops maps) opcode (host + 3) (addr + 3) word m)

  abbrev pub load_unaligned : ℕ → ℕ → ℕ → ℕ → Machine → ℕ × Machine
  load_unaligned opcode host addr reg m =
      let left = lightrec_lwl (lightrec_default_ops maps) opcode (host + 3) (addr + 3) reg m in
      lightrec_lwr (lightrec_default_ops maps) opcode host addr left.0 left.1

  module _ (opcode host addr word reg : ℕ) (m : Machine) (hw : IsU32 word) (hr : IsU32 reg) where
    -- The two words that the access covers, and what they hold before it.
    abbrev first : ℕ
    first = align host

    abbrev second : ℕ
    second = align (host + 3)

    split_word :
        (s t k n : ℕ)
        → addr % 4 ≡ s
        → (addr + 3) % 4 ≡ t
        → host % 4 ≡ s
        → (t ≡ s - 1) × (1 ≤ s) × (s < 4) × (s * 8 ≡ k) × (32 - k ≡ n)
        → 2 ^ 32 - 2 ^ k ≡ (2 ^ n - 1) * 2 ^ k
        → 2 ^ 32 - 2 ^ n ≡ (2 ^ k - 1) * 2 ^ n
        → (load_unaligned opcode host addr reg (store_unaligned opcode host addr word m)).0 ≡ word
    split_word s t k n hs ht host_s (before, pos, small, ek, en) upper lower =
        rw
          (
            value-lwl opcode (host + 3) (addr + 3) reg t n (store_unaligned opcode host addr word m)
                ht (omega arith),
            value-lwr opcode host addr _ s k n (store_unaligned opcode host addr word m) hs
                (ground arith) ek en,
          )
          (rw (loaded_second, loaded_first)
            (joined_halves k n (omega (arith, ek, en)) upper lower reg word old0 old1 hr hw
              (load32-lt first swapped.memory)))
      where
        swapped : Machine
        swapped = lightrec_swl (lightrec_default_ops maps) opcode (host + 3) (addr + 3) word m

        old1 : ℕ
        old1 = load32 second m.memory

        old0 : ℕ
        old0 = load32 first swapped.memory

        w1 : ℕ
        w1 = bit_or (shr word n) (bit_and old1 (2 ^ 32 - 2 ^ k))

        w0 : ℕ
        w0 = bit_or (shl word k) (bit_and old0 (2 ^ k - 1))

        swl_memory : swapped.memory ≡ store32 second w1 m.memory
        swl_memory =
            memory-swl opcode (host + 3) (addr + 3) word t k n m ht (ground arith) (omega arith)
              (omega arith)

        swr_memory :
            (store_unaligned opcode host addr word m).memory ≡ store32 first w0 swapped.memory
        swr_memory = memory-swr opcode host addr word s k swapped hs ek

        apart : first + 4 ≤ second
        apart = unfold align in omega arith

        loaded_first : load32 first (store_unaligned opcode host addr word m).memory ≡ w0
        loaded_first = rw swr_memory (
            load32-store32 first w0 swapped.memory (
              right_half-lt k n (omega arith) upper lower word old0
                (load32-lt first swapped.memory)))

        loaded_second : load32 second (store_unaligned opcode host addr word m).memory ≡ w1
        loaded_second =
            rw
              (
                swr_memory,
                load32-store32_apart first second w0 swapped.memory (inl apart),
                swl_memory,
              )
              (load32-store32 second w1 m.memory (
                left_half-lt k n (omega arith) upper lower word old1 hw
                  (load32-lt second m.memory)))

    aligned_word :
        addr % 4 ≡ 0
        → (load_unaligned opcode host addr reg (store_unaligned opcode host addr word m)).0 ≡ word
    aligned_word h =
        rw
          (
            value-lwl opcode (host + 3) (addr + 3) reg 3 0 (store_unaligned opcode host addr word m)
                (omega arith) (omega arith),
            value-lwr_aligned opcode host addr _ (store_unaligned opcode host addr word m) h,
          )
          (rw
            (
              and_zero,
              bit_or_zero_left
                  (shr (load32 first (store_unaligned opcode host addr word m).memory) 0)
                  (omega (
                    arith,
                    shr_zero (load32 first (store_unaligned opcode host addr word m).memory),
                    load32-lt first (store_unaligned opcode host addr word m).memory,
                  )),
              shr_zero,
              loaded,
            )
            refl)
      where
        swapped : Machine
        swapped = lightrec_swl (lightrec_default_ops maps) opcode (host + 3) (addr + 3) word m

        whole : bit_or (shl word 0) (bit_and (load32 first swapped.memory) (2 ^ 0 - 1)) ≡ word
        whole = rw (and_zero, shl_zero word hw) (bit_or_zero_right word hw)

        loaded : load32 first (store_unaligned opcode host addr word m).memory ≡ word
        loaded =
            rw (memory-swr opcode host addr word 0 0 swapped h refl, whole)
              (load32-store32 first word swapped.memory hw)

  -- A word stored by `SWL` and `SWR` at any address is what `LWL` and `LWR` then load, whatever the
  -- register held. Conditions: the accessors are the default ones, host and guest address agree
  -- modulo 4, and the word and the register are 32-bit words.
  pub load-store_unaligned :
      (opcode host addr word reg : ℕ) (m : Machine)
      → IsU32 word
      → IsU32 reg
      → host % 4 ≡ addr % 4
      → (load_unaligned opcode host addr reg (store_unaligned opcode host addr word m)).0 ≡ word
  load-store_unaligned opcode host addr word reg m hw hr same = elim (remainder_cases addr) [
    | inl e ↦ aligned_word opcode host addr word reg m hw hr e
    | inr (inl e) ↦
        split_word opcode host addr word reg m hw hr 1 0 8 24 e (omega arith) (omega arith)
          (refl, omega arith, omega arith, refl, refl) refl refl
    | inr (inr (inl e)) ↦
        split_word opcode host addr word reg m hw hr 2 1 16 16 e (omega arith) (omega arith)
          (refl, omega arith, omega arith, refl, refl) refl refl
    | inr (inr (inr e)) ↦
        split_word opcode host addr word reg m hw hr 3 2 24 8 e (omega arith) (omega arith)
          (refl, omega arith, omega arith, refl, refl) refl refl
  ]
