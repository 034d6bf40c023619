-- ===== src/Isa/Update.antt =====
-- disassembler.h: assignments to the bit fields of `union code`.
use lightrec.Base.{ℕ, ◌+◌, ◌*◌, ◌/◌, ◌%◌, ◌^◌}
use lightrec.Isa.Fields.{Code}

-- The field of `width` bits from bit `lo` on becomes `v`.
unfoldable pub set_bits : ℕ → ℕ → ℕ → Code → Code
set_bits lo width v c =
    c / 2 ^ (lo + width) * 2 ^ (lo + width) + v % 2 ^ width * 2 ^ lo + c % 2 ^ lo

unfoldable pub set_i_op : ℕ → Code → Code
unfolding set_bits
set_i_op v c = set_bits 26 6 v c

unfoldable pub set_rs : ℕ → Code → Code
unfolding set_bits
set_rs v c = set_bits 21 5 v c

unfoldable pub set_rt : ℕ → Code → Code
unfolding set_bits
set_rt v c = set_bits 16 5 v c

unfoldable pub set_rd : ℕ → Code → Code
unfolding set_bits
set_rd v c = set_bits 11 5 v c

unfoldable pub set_r_imm : ℕ → Code → Code
unfolding set_bits
set_r_imm v c = set_bits 6 5 v c

unfoldable pub set_r_op : ℕ → Code → Code
unfolding set_bits
set_r_op v c = set_bits 0 6 v c

unfoldable pub set_i_imm : ℕ → Code → Code
unfolding set_bits
set_i_imm v c = set_bits 0 16 v c

unfoldable pub set_m_op : ℕ → Code → Code
unfolding set_bits
set_m_op v c = set_bits 0 5 v c
