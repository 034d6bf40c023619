-- ===== src/Isa.antt =====
-- disassembler.h: `union code` as a 32-bit word with its bit fields, the opcode enumerations, and
-- `struct opcode` with its flags.
pub mod Opcodes
pub mod Fields
pub mod Update
pub mod UpdateLaws
pub mod Flags
unfoldable pub use Opcodes.*
unfoldable pub use Fields.*
unfoldable pub use Flags.*
unfoldable pub use Update.*
