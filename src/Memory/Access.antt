-- ===== src/Memory/Access.antt =====
-- lightrec.c: `lightrec_rw` and `lightrec_rw_helper`. The pointer `flags` may be null.
use lightrec.Base.{
  ℕ, ◌*◌, ◌/◌, ◌%◌, ◌^◌, Bool, true, false, not, ◌&&◌, ◌==◌, if◌then◌else◌, Option, none, some,
  List, get_elem?, add32, sext8, sext16, bit_or, any_bit,
}
use lightrec.Isa.{Code, Standard, rs, rt, i_imm, op_of}
use lightrec.Interpreter.Regs.{set_reg}
use lightrec.Blockcache.Geometry.{kunseg, lut_offset}
use lightrec.Execution.Machine.{Machine}
use lightrec.Execution.Cycles.{lightrec_set_exit_flags, exit_segfault}
use lightrec.Coprocessor.Gte.{lightrec_mfc2, lightrec_mtc2}
use lightrec.Memory.Maps.{MemMap, MemMapOps, lightrec_get_map, psx_map_parallel_port}
use lightrec.Memory.Default.{lightrec_default_ops}
use lightrec.Memory.Unaligned.{lightrec_swl, lightrec_swr, lightrec_lwl, lightrec_lwr}

-- `LIGHTREC_FLAGS_GET_IO_MODE`, and `*flags |= LIGHTREC_IO_MODE(mode)`.
unfoldable pub io_mode : ℕ → ℕ
io_mode flags = flags / 2 ^ 7 % 2 ^ 3

unfoldable pub add_io_mode : ℕ → ℕ → ℕ
add_io_mode mode flags = bit_or flags (mode * 2 ^ 7)

abbrev pub io_direct : ℕ
io_direct = 0x1

abbrev pub io_hw : ℕ
io_hw = 0x2

abbrev pub io_direct_hw : ℕ
io_direct_hw = 0x6

unfoldable pub block_effective_address : ℕ → ℕ → ℕ
unfolding kunseg add32 sext16
block_effective_address base disp = kunseg (add32 base (sext16 disp))

-- The tag of an access to a map without accessors of its own.
unfoldable pub direct_mode : ℕ → Code → ℕ → ℕ
direct_mode root c base =
    if root == psx_map_parallel_port
    then io_hw
    else if not (rs c == 0) && base == 0
    then io_hw
    else io_direct

unfoldable pub tag_untagged : ℕ → Option ℕ → Option ℕ
unfolding io_mode add_io_mode
tag_untagged mode none = none
tag_untagged mode (some flags) = some (if io_mode flags == 0 then add_io_mode mode flags else flags)

unfoldable pub is_direct_hw : Option ℕ → Bool
unfolding io_mode
is_direct_hw none = false
is_direct_hw (some flags) = io_mode flags == io_direct_hw

unfoldable pub was_tagged : Option ℕ → Bool
unfolding io_mode
was_tagged none = true
was_tagged (some flags) = not (io_mode flags == 0)

-- The accessors of the access, and its flags.
unfoldable pub select_ops :
    List MemMap → Option MemMapOps → ℕ → Code → ℕ → Option ℕ → MemMapOps × Option ℕ
unfolding lightrec_default_ops direct_mode tag_untagged is_direct_hw
select_ops maps none root c base flags =
    (lightrec_default_ops maps, tag_untagged (direct_mode root c base) flags)
select_ops maps (some ops) root c base flags =
    if is_direct_hw flags
    then (lightrec_default_ops maps, flags)
    else (ops, tag_untagged io_hw flags)

-- The block that runs: its address and its flags.
pub record RunningBlock : Type 0 where
  pub pc : ℕ
  pub flags : ℕ

abbrev pub block_never_compile : ℕ
block_never_compile = 0x1

abbrev pub block_should_recompile : ℕ
block_should_recompile = 0x2

-- A first tag asks for another compilation of the block.
unfoldable pub flag_recompile : Bool → RunningBlock → Machine → RunningBlock × Machine
unfolding any_bit lut_offset
flag_recompile tagged block m =
    let flagged = record block { flags = bit_or block.flags block_should_recompile } in
    let cleared = record m {
      block_cache = record m.block_cache {
        code_lut = λ i. if lut_offset block.pc == i then 0 else (m.block_cache).code_lut i;
      };
    } in
    if not tagged && not (any_bit block.flags block_never_compile)
    then (flagged, if any_bit block.flags block_should_recompile then m else cleared)
    else (block, m)

unfoldable pub do_access : MemMapOps → Standard → Code → ℕ → ℕ → ℕ → Machine → ℕ × Machine
unfolding lightrec_swl lightrec_swr lightrec_lwl lightrec_lwr lightrec_mfc2 lightrec_mtc2 sext8
    sext16
do_access ops Standard.sb c host addr word m = (0, ops.sb c host addr word m)
do_access ops Standard.sh c host addr word m = (0, ops.sh c host addr word m)
do_access ops Standard.swl c host addr word m = (0, lightrec_swl ops c host addr word m)
do_access ops Standard.swr c host addr word m = (0, lightrec_swr ops c host addr word m)
do_access ops Standard.sw c host addr word m = (0, ops.sw c host addr word m)
do_access ops Standard.swc2 c host addr word m =
    (0, ops.sw c host addr (lightrec_mfc2 (rt c) m.cp2d) m)
do_access ops Standard.lb c host addr word m = let r = ops.lb c host addr m in (sext8 r.0, r.1)
do_access ops Standard.lbu c host addr word m = ops.lb c host addr m
do_access ops Standard.lh c host addr word m = let r = ops.lh c host addr m in (sext16 r.0, r.1)
do_access ops Standard.lhu c host addr word m = ops.lh c host addr m
do_access ops Standard.lwc2 c host addr word m =
    let r = ops.lw c host addr m in (0, record r.1 { cp2d = lightrec_mtc2 (rt c) r.0 (r.1).cp2d })
do_access ops Standard.lwl c host addr word m = lightrec_lwl ops c host addr word m
do_access ops Standard.lwr c host addr word m = lightrec_lwr ops c host addr word m
do_access ops Standard.meta_lwu c host addr word m = ops.lwu c host addr m
do_access ops Standard.meta_swu c host addr word m = (0, ops.swu c host addr word m)
do_access ops _ c host addr word m = ops.lw c host addr m

-- What a call leaves: the word, the flags, the block and the state.
pub record Access : Type 0 where
  pub word : ℕ
  pub flags : Option ℕ
  pub block : RunningBlock
  pub machine : Machine

unfoldable pub access_map :
    List MemMap → MemMap → ℕ → ℕ → Code → ℕ → ℕ → ℕ → Option ℕ → RunningBlock → Machine → Access
unfolding select_ops flag_recompile was_tagged do_access
access_map maps map root host c addr base word flags block m =
    let chosen = select_ops maps map.ops root c base flags in
    let flagged = flag_recompile (was_tagged flags) block m in
    let done = do_access chosen.0 (op_of c) c host addr word flagged.1 in
    record { word = done.0; flags = chosen.1; block = flagged.0; machine = done.1 }

-- `__segfault_cb`, without its messages.
unfoldable pub segfault_cb : Machine → Machine
unfolding lightrec_set_exit_flags
segfault_cb m = lightrec_set_exit_flags exit_segfault m

unfoldable pub lightrec_rw : List MemMap → Code → ℕ → ℕ → Option ℕ → RunningBlock → Machine → Access
unfolding block_effective_address lightrec_get_map access_map segfault_cb
lightrec_rw maps c base word flags block m =
    let addr = block_effective_address base (i_imm c) in
    let fault : Access = record {
      word = 0;
      flags = flags;
      block = block;
      machine = segfault_cb m;
    } in
    elim (lightrec_get_map maps addr) [
      | none ↦ fault
      | some (root, host) ↦ elim (get_elem? maps root) [
        | none ↦ fault
        | some map ↦ access_map maps map root host c addr base word flags block m
      ]
    ]

unfoldable pub writes_back : Standard → Bool
writes_back Standard.lb = true
writes_back Standard.lbu = true
writes_back Standard.lh = true
writes_back Standard.lhu = true
writes_back Standard.lwl = true
writes_back Standard.lwr = true
writes_back Standard.lw = true
writes_back Standard.meta_lwu = true
writes_back _ = false

-- With `OPT_HANDLE_LOAD_DELAYS` on: the word waits in `temp_reg` if no delay is pending.
unfoldable pub write_back : Code → ℕ → Machine → Machine
unfolding set_reg
write_back c word m =
    if m.in_delay_slot_n == 0
    then record m { temp_reg = word; in_delay_slot_n = 0xff }
    else if rt c == 0
    then m
    else record m { gpr = set_reg (rt c) word m.gpr }

unfoldable pub lightrec_rw_helper : List MemMap → Code → Option ℕ → RunningBlock → Machine → Access
unfolding lightrec_rw writes_back write_back
lightrec_rw_helper maps c flags block m =
    let done = lightrec_rw maps c (m.gpr (rs c)) (m.gpr (rt c)) flags block m in
    if writes_back (op_of c)
    then record done { machine = write_back c done.word done.machine }
    else done
