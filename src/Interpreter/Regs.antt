-- ===== src/Interpreter/Regs.antt =====
-- `state->regs.gpr`: 32 general registers, then LO and HI, as a function of the register number.
use lightrec.Base.{ℕ, ◌==◌, if◌then◌else◌, ◌≡◌, ◌≢◌, arith, IsU32}

abbrev pub Gpr : Type 0
Gpr = ℕ → ℕ

-- `reg_cache[r] = v`.
unfoldable pub set_reg : ℕ → ℕ → Gpr → Gpr
set_reg r v g = λ i. if r == i then v else g i

-- `if (likely(r)) reg_cache[r] = v`.
unfoldable pub set_reg_nonzero : ℕ → ℕ → Gpr → Gpr
unfolding set_reg
set_reg_nonzero r v g = if r == 0 then g else set_reg r v g

-- Every register holds a 32-bit word.
abbrev pub AreWords : Gpr → Type 0
AreWords g = (i : ℕ) → IsU32 (g i)

pub set_reg_self : (r v : ℕ) (g : Gpr) → set_reg r v g r ≡ v
unfolding set_reg
set_reg_self r v g = ground arith

pub set_reg_ne : (r v : ℕ) (g : Gpr) (i : ℕ) → r ≢ i → set_reg r v g i ≡ g i
unfolding set_reg
set_reg_ne r v g i h = ground arith

pub set_reg_nonzero_ne : (r v : ℕ) (g : Gpr) (i : ℕ) → r ≢ i → set_reg_nonzero r v g i ≡ g i
unfolding set_reg_nonzero set_reg
set_reg_nonzero_ne r v g i h = ground arith

pub set_reg-AreWords : (r v : ℕ) (g : Gpr) → IsU32 v → AreWords g → AreWords (set_reg r v g)
unfolding set_reg
set_reg-AreWords r v g hv hg i = ground (arith, hg i)

pub set_reg_nonzero-AreWords :
    (r v : ℕ) (g : Gpr) → IsU32 v → AreWords g → AreWords (set_reg_nonzero r v g)
unfolding set_reg_nonzero set_reg
set_reg_nonzero-AreWords r v g hv hg i = ground (arith, hg i)

pub set_reg_nonzero_self : (r v : ℕ) (g : Gpr) → r ≢ 0 → set_reg_nonzero r v g r ≡ v
unfolding set_reg_nonzero set_reg
set_reg_nonzero_self r v g h = ground arith
