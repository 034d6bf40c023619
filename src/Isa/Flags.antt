-- ===== src/Isa/Flags.antt =====
-- disassembler.h: `struct opcode`, and its flags read through the options of CMakeLists.txt, each of
-- them at its default, on.
use lightrec.Base.{ℕ, Bool, true, ◌&&◌, any_bit}
use lightrec.Isa.Fields.{Code}

pub record Opcode : Type 0 where
  pub c : Code
  pub flags : ℕ
  pub source_pc : ℕ

abbrev pub opt_detect_impossible_branches : Bool
opt_detect_impossible_branches = true

abbrev pub opt_local_branches : Bool
opt_local_branches = true

abbrev pub opt_switch_delay_slots : Bool
opt_switch_delay_slots = true

abbrev pub opt_flag_io : Bool
opt_flag_io = true

abbrev pub opt_flag_mult_div : Bool
opt_flag_mult_div = true

abbrev pub opt_handle_load_delays : Bool
opt_handle_load_delays = true

unfoldable pub op_flag_load_delay : ℕ → Bool
unfolding any_bit
op_flag_load_delay flags = opt_handle_load_delays && any_bit flags 0x8

unfoldable pub op_flag_no_ds : ℕ → Bool
unfolding any_bit
op_flag_no_ds flags = opt_switch_delay_slots && any_bit flags 0x1

unfoldable pub op_flag_sync : ℕ → Bool
unfolding any_bit
op_flag_sync flags = opt_local_branches && any_bit flags 0x2

unfoldable pub op_flag_smc : ℕ → Bool
unfolding any_bit
op_flag_smc flags = opt_flag_io && any_bit flags 0x10

unfoldable pub op_flag_emulate_branch : ℕ → Bool
unfolding any_bit
op_flag_emulate_branch flags = opt_detect_impossible_branches && any_bit flags 0x8

unfoldable pub op_flag_local_branch : ℕ → Bool
unfolding any_bit
op_flag_local_branch flags = opt_local_branches && any_bit flags 0x10

unfoldable pub op_flag_no_lo : ℕ → Bool
unfolding any_bit
op_flag_no_lo flags = opt_flag_mult_div && any_bit flags 0x8

unfoldable pub op_flag_no_hi : ℕ → Bool
unfolding any_bit
op_flag_no_hi flags = opt_flag_mult_div && any_bit flags 0x10
