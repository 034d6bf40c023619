-- ===== src/Constprop/Sound/MultDiv.antt =====
-- The multiplications and divisions: their two targets are forgotten, and hold words.
use lightrec.Base.{ℕ, ◌<◌, ◌≡◌, ◌≢◌, IsU32, arith, ◌⊎◌, inl, inr, ==_cases, refl}
use lightrec.Isa.{Opcode, Code, rd, r_imm}
use lightrec.Interpreter.Regs.{Gpr, AreWords, set_reg}
use lightrec.Interpreter.Alu.{write_hi_lo, get_mult_div_lo, get_mult_div_hi}
use lightrec.Interpreter.Words.{write_hi_lo-word}
use lightrec.Constprop.Data.{Consts, set_const, forget}
use lightrec.Constprop.Switch.{forget_mult_div}
use lightrec.Constprop.Describes.{Describes, DescribesAll, forget-Describes, Describes-eq}

-- A register that is a target is forgotten; another keeps its entry and its value.
forgotten :
    (c : Code) (v : Consts) (r : ℕ)
    → 0 < r
    → (r ≡ rd c) ⊎ (r ≡ r_imm c)
    → forget_mult_div c v r ≡ forget (v r)
unfolding forget_mult_div set_const
forgotten c v r pos h = ground arith

untouched :
    (op : Opcode) (v : Consts) (g : Gpr) (hi lo r : ℕ)
    → r < 32
    → r ≢ rd op.c
    → r ≢ r_imm op.c
    → (forget_mult_div op.c v r ≡ v r) × (write_hi_lo op hi lo g r ≡ g r)
unfolding forget_mult_div set_const write_hi_lo set_reg get_mult_div_lo get_mult_div_hi
untouched op v g hi lo r hr n1 n2 = ground arith

pub forget_mult_div-Describes :
    {v : Consts} {g : Gpr}
    → DescribesAll v g
    → AreWords g
    → (op : Opcode) (hi lo : ℕ) → IsU32 hi
    → IsU32 lo
    → (r : ℕ) → 0 < r
    → r < 32
    → Describes (forget_mult_div op.c v r) (write_hi_lo op hi lo g r)
forget_mult_div-Describes {v} {g} all words op hi lo hhi hlo r pos hr =
    elim (==_cases r (rd op.c)) [
      | inl e ↦ target (inl e)
      | inr n1 ↦ elim (==_cases r (r_imm op.c)) [
        | inl e ↦ target (inr e)
        | inr n2 ↦
            let u = untouched op v g hi lo r hr (ground arith) (ground arith) in
            Describes-eq u.0 u.1 (all r hr)
      ]
    ]
  where
    target :
        (r ≡ rd op.c) ⊎ (r ≡ r_imm op.c)
        → Describes (forget_mult_div op.c v r) (write_hi_lo op hi lo g r)
    target h = Describes-eq (forgotten op.c v r pos h) refl (
        forget-Describes (v r) _ ((all r hr).value_word)
          (write_hi_lo-word op hi lo g hhi hlo words r))
