-- ===== src/Regcache/Layout.antt =====
-- regcache.c: the numbers of Lightning's registers and the slots of the array are one another's inverse.
use lightrec.Base.{ℕ, ◌+◌, ◌-◌, ◌<◌, ◌≤◌, ◌≡◌, sym, ap, ◌∙◌, ltb, ◌⊎◌, inl, inr, arith, Bool-cases}
use lightrec.Regcache.Data.{Lightning}
use lightrec.Regcache.Search.{lightrec_reg_to_lightning, lightning_reg_to_lightrec, array_size}
use lightrec.Regcache.Refines.{IsInjective}

abbrev pub IsAscending : (ℕ → ℕ) → ℕ → Type 0
IsAscending f n = (i : ℕ) → i < n → f i ≡ f 0 + i

abbrev pub IsDescending : (ℕ → ℕ) → ℕ → Type 0
IsDescending f n = (i : ℕ) → i < n → f i + i ≡ f 0

-- `JIT_R_NUM`, and `JIT_V_NUM`, one of which holds the state.
abbrev pub jit_r_num : Lightning → ℕ
jit_r_num l = l.first_temp + l.num_temps

-- Lightning numbers the registers of a kind without gaps, up or down, and the two kinds do not mix. The
-- kind with the higher numbers goes up.
pub record IsLayout (l : Lightning) : Type 0 where
  pub some_regs : 0 < l.num_regs
  pub some_temps : 1 < jit_r_num l
  pub v_line : IsAscending l.jit_v (l.num_regs + 1) ⊎ IsDescending l.jit_v (l.num_regs + 1)
  pub r_line : IsAscending l.jit_r (jit_r_num l) ⊎ IsDescending l.jit_r (jit_r_num l)
  pub apart :
      ((i k : ℕ)
        → i < l.num_regs
        → k < jit_r_num l
        → (l.jit_v 0 ≤ l.jit_v i) × (l.jit_r k < l.jit_v 0))
      ⊎ ((i k : ℕ)
          → i < l.num_regs
          → k < jit_r_num l
          → (l.jit_v i < l.jit_r 0) × (l.jit_r 0 ≤ l.jit_r k))

-- Where Lightning numbers its callee-saved and its temporary registers in two lines, one above the
-- other, `lightning_reg_to_lightrec` undoes `lightrec_reg_to_lightning` on every slot.
pub to_lightrec-to_lightning :
    (l : Lightning) (i : ℕ)
    → IsLayout l
    → i < array_size l
    → lightning_reg_to_lightrec l (lightrec_reg_to_lightning l i) ≡ i
unfolding lightning_reg_to_lightrec lightrec_reg_to_lightning
to_lightrec-to_lightning l i h lt = elim (Bool-cases (ltb i l.num_regs)) [
  | inl v ↦ elim h.apart [
    | inl above ↦ elim h.v_line [
      | inl up ↦ ground (arith, above i 0, up 1, up i, h.some_regs, h.some_temps)
      | inr down ↦ ground (arith, above i 0, down 1, down i, h.some_regs, h.some_temps)
    ]
    | inr below ↦ elim h.v_line [
      | inl up ↦ ground (arith, below i 0, below 0 0, up 1, up i, h.some_regs, h.some_temps)
      | inr down ↦ ground (arith, below i 0, below 0 0, down 1, down i, h.some_regs, h.some_temps)
    ]
  ]
  | inr r ↦
      let k = l.first_temp + i - l.num_regs in
      elim h.apart [
        | inl above ↦ elim h.r_line [
          | inl up ↦
              ground (
                arith,
                above 0 k,
                above 0 0,
                up 1,
                up k,
                up l.first_temp,
                h.some_regs,
                h.some_temps,
              )
          | inr down ↦ ground (
            arith,
            above 0 k,
            above 0 0,
            down 1,
            down k,
            down l.first_temp,
            h.some_regs,
            h.some_temps,
          )
        ]
        | inr below ↦ elim h.r_line [
          | inl up ↦
              ground (
                arith,
                below 0 k,
                below 0 0,
                up 1,
                up k,
                up l.first_temp,
                h.some_regs,
                h.some_temps,
              )
          | inr down ↦ ground (
            arith,
            below 0 k,
            below 0 0,
            down 1,
            down k,
            down l.first_temp,
            h.some_regs,
            h.some_temps,
          )
        ]
      ]
]

pub IsLayout-IsInjective : (l : Lightning) → IsLayout l → IsInjective l
IsLayout-IsInjective l h i k bi bk e =
    sym (to_lightrec-to_lightning l i h bi)
    ∙ ap (lightning_reg_to_lightrec l) e
    ∙ to_lightrec-to_lightning l k h bk
