-- ===== src/Passes/ProductDivergence.antt =====
-- The rewrite of MULT by a power of two in `lightrec_transform_ops`, at the top bit: as a signed word it
-- is negative, and the rewritten opcode multiplies by a positive power.
use lightrec.Base.{ℕ, ◌^◌, ◌<◌}
use lightrec.Isa.{Code, set_r_op, set_i_op}
use lightrec.Isa.UpdateLaws
use lightrec.Interpreter.Table.{Effect, regs}

-- What a handler leaves in register `r`, or 0 for one of another kind.
abbrev left_in : ℕ → Effect → ℕ
left_in r (regs g) = g r
left_in r _ = 0

module _ (c : Code) (h : c < 2 ^ 32) where
  -- The opcode that a MULT by the top bit in `rt` becomes.
  abbrev rewritten : Code
  rewritten = set_r_op 31 (set_i_op 0x19 c)
