-- ===== src/Lib.antt =====
-- Lightrec, a recompiler of MIPS code for a PlayStation emulator: the passes that reason about guest
-- opcodes, against the interpreter of the same opcodes, and the state that both run on.
--
-- Parts and files:
-- - Base: the names that every file shares; Boolean tests on numbers, 32-bit words with their
--   wrap-around written out, and the digits of a word (Base/Bits), by which the masks are compared.
-- - Isa: disassembler.h. A guest opcode is a 32-bit word (`Code`), read through `rs`, `rt`, `rd`,
--   `r_imm`, `r_op`, `i_imm` in the little-endian layout of `opcode_r`, `opcode_i` and `opcode_m`;
--   `op_of`, `special_of` and the like give the member of the enumeration that a field names. The
--   flags of `struct opcode` are read with the options of CMakeLists.txt at their defaults.
-- - Optimizer: optimizer.c. Optimizer/Masks holds `opcode_read_mask`, `opcode_write_mask` and the
--   tests made of them; a mask is a number whose digit `i` stands for register `i`, 32 and 33 being
--   LO and HI. Optimizer/Queries has the tests on one opcode, Optimizer/Search the searches over an
--   opcode list.
-- - Interpreter: interpreter.c. A register file is a function from register numbers (`Gpr`). Each
--   handler that works on registers alone is a function on it (Interpreter/Alu); the dispatch tables
--   are `effect`, which tells such a handler from all the others. Interpreter/Branch has the
--   conditions of the branches, Interpreter/Link the return addresses.
-- - Constprop: constprop.c and constprop.h. `struct constprop_data` is a record, the array `v` a
--   function from register numbers. Constprop/Add, Constprop/Compare, Constprop/Shift and
--   Constprop/Switch are the cases of the switch, Constprop/Propagate is `lightrec_consts_propagate`,
--   Constprop/Region is `lightrec_get_constprop_map`. Constprop/Describes says what an entry claims
--   of a word; Constprop/Sound and Constprop/RegionSound prove from it, and Constprop/Divergence
--   shows where an entry claims what is false.
-- - Blockcache: blockcache.c. The cache is a record of its two families of chains, the longest length,
--   the bit set `translated_words` and the code index (Blockcache/Invalidate); a chain is a list. A
--   visit of chains is a function on the code index, all that the visitor changes. The extents of
--   blocks are those of lightrec-private.h (Blockcache/Geometry); Blockcache/Words and
--   Blockcache/Guard have the bit set, Blockcache/Find the lookup, Blockcache/Outdated the hash,
--   Blockcache/Register and Blockcache/Revoked the proofs.
-- - DelaySlots: optimizer-delay-slots.c. The test that lets an opcode trade places with its branch,
--   and the pass over the opcode list (DelaySlots/Pass).
-- - Passes: passes of optimizer.c over the opcode list, `lightrec_transform_branches`
--   (Passes/Branches), `lightrec_handle_load_delays` with `lightrec_detect_impossible_branches`
--   (Passes/Marks), and `lightrec_transform_ops` (Passes/Transform). Its parts are
--   `lightrec_patch_known_zero` (Passes/KnownZero), the rewrites of one opcode as functions on its
--   code (Passes/Simplify), `nullify_branch` (Passes/Syncs), the rewrites of LUI (Passes/Lui) and
--   `lightrec_optimize_sll_sra` (Passes/Casts). Assignments to the bit fields of an opcode are
--   functions on its word (Isa/Update). Passes/BranchSound, Passes/SpecialSound and Passes/Operands
--   compare the rewritten opcodes with the interpreter.
-- - Regcache: regcache.c. The array `lightrec_regs` is a function from slots, a pointer into it a slot
--   number; the calls of GNU Lightning are a list, the newest first (`Emit`, `Regcache`). The numbers
--   that Lightning gives to registers are the record `Lightning`, what its calls do to the registers
--   and the memory of a host is the record `Jit` (Regcache/Host), both arguments. Regcache/Refines
--   says when a host under a cache stands for the guest registers.
-- - Private: the inline functions of lightrec-private.h on block flags and on immediates.
-- - Execution: execution.c and the fallbacks of lightrec.c. The fields of `struct lightrec_state`
--   that count cycles and ask for an exit are the record `Machine`; the dispatcher is an argument.
-- - Memory: lightrec.c, from the map that holds an address to `lightrec_rw` with its tags. A memory
--   is a function from host addresses to bytes; the callbacks of the emulator are arguments.
-- - Coprocessor: lightrec.c, the registers of coprocessors 0 and 2 with their side effects on
--   interrupts and on the colour and coordinate queues; the commands are arguments.
-- - Memmanager: memmanager.c, the counts of memory by type. What malloc and calloc return is an
--   argument.
-- - Examples: the theorems at concrete inputs.
--
-- How they interact: the recompiler calls `lightrec_consts_propagate` once for each index of a block,
-- to carry what is known of the registers from one opcode to the next; the passes of optimizer.c ask
-- the masks which registers an opcode reads and writes, and rewrite it by what is known of them. The
-- interpreter runs the same opcodes, and is what both are measured by. The code emitter, which is not
-- modelled, asks the register cache for host registers.
--
-- Bounds and fuel: words are natural numbers below 2 ^ 32. The loops of constprop.c go over the 32
-- bits of a word; each round goes up (or down) by at least one bit, so their models have 32 rounds
-- (Constprop/Rounds).
-- `lightrec_get_map` follows mirrors with as much fuel as there are maps, which is enough when a
-- mirror points at an earlier map. A read past the end of an opcode list is `none`, as is a division
-- that C leaves undefined.
--
-- Not modelled: machine code generation (emitter.c), which is calls of GNU Lightning; the allocator
-- under tlsf; printing; and, so far, removal from the block cache, the compilation of blocks, the
-- store observer, and the passes on local branches, idle loops, flags, division sequences and early
-- unloads. The big-endian layout of the opcodes and builds with an optimisation switched off are left
-- aside.
pub mod Base
pub mod Isa
pub mod Optimizer
pub mod Interpreter
pub mod Constprop
pub mod Blockcache
mod Examples
pub mod DelaySlots
pub mod Execution
pub mod Memory
pub mod Coprocessor
pub mod Memmanager
pub mod Passes
pub mod Private
pub mod Regcache
