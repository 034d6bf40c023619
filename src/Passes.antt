-- ===== src/Passes.antt =====
-- optimizer.c: the passes that rewrite an opcode list one opcode at a time.
pub mod Branches
pub mod Marks
pub mod KnownZero
pub mod Simplify
pub mod Known
pub mod BranchSound
pub mod Moves
pub mod AluSound
pub mod SumSound
pub mod SpecialSound
pub mod Zeroed
pub mod ZeroedSound
pub mod Patched
pub mod ProductDivergence
pub mod Operands
pub mod Syncs
pub mod Lui
pub mod Casts
pub mod Transform
pub mod JumpTarget
unfoldable pub use Branches.*
unfoldable pub use Marks.*
