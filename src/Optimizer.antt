-- ===== src/Optimizer.antt =====
-- optimizer.c: the classification of opcodes that every pass rests on, and the searches over the
-- opcode list.
pub mod Predicates
pub mod Masks
pub mod MaskBits
pub mod Queries
pub mod Search
pub mod SearchLaws
pub mod NopDivergence
unfoldable pub use Predicates.*
unfoldable pub use Masks.*
unfoldable pub use Queries.*
unfoldable pub use Search.*
