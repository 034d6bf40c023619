-- ===== src/Examples/Lists.antt =====
-- The theorems on jumps, immediates and hashes, at concrete words.
use lightrec.Base.{ℕ, true, false, ◌≡◌, ◌+◌, ◌*◌, ◌⊎◌, arith, List, [], ◌∷◌}
use lightrec.Isa.{op_of}
use lightrec.Interpreter.Regs.{Gpr}
use lightrec.Interpreter.Branch.{branch_condition}
use lightrec.Interpreter.Link.{jump_target, branch_target}
use lightrec.Passes.Branches.{transform_jump}
use lightrec.Passes.JumpTarget.{transform_jump-target}
use lightrec.Blockcache.Outdated.{
  HashedBlock, lightrec_calculate_block_hash, lightrec_block_is_outdated, IsStale, IsSettled,
  is_outdated_settles,
}

abbrev zeros : Gpr
zeros i = 0

-- `j 0x1010` at 0x1004.
transform_jump-target_example :
    (transform_jump 0x1000 1 0x08000404 ≡ 0x08000404)
    ⊎ (branch_condition
          (op_of (transform_jump 0x1000 1 0x08000404))
          (transform_jump 0x1000 1 0x08000404)
          zeros
        ≡ true)
      × (branch_target (0x1000 + 1 * 4) (transform_jump 0x1000 1 0x08000404)
          ≡ jump_target (0x1000 + 1 * 4) 0x08000404)
transform_jump-target_example =
    transform_jump-target 0x1000 1 0x08000404 zeros (omega arith) (omega arith) (omega arith)

abbrev code : List ℕ
code = 0x24020001 ∷ 0x03e00008 ∷ []

abbrev hashed : HashedBlock
hashed = record {
  pc = 0x80000040;
  code = code;
  hash = lightrec_calculate_block_hash code;
  function = 0;
}

abbrev no_entries : ℕ → ℕ
no_entries i = 0

-- The same block after its second word has been overwritten.
abbrev overwritten : HashedBlock
overwritten = record hashed { code = 0x24020001 ∷ 0 ∷ [] }

is_outdated_settles_example :
    let r = lightrec_block_is_outdated 7 overwritten no_entries in
    ((r ≡ (true, no_entries)) × IsStale overwritten no_entries)
    ⊎ ((r.0 ≡ false) × (¬ IsStale overwritten no_entries) × IsSettled 7 overwritten no_entries r.1)
is_outdated_settles_example = is_outdated_settles 7 overwritten no_entries (omega arith)
