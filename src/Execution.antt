-- ===== src/Execution.antt =====
-- execution.c, and the fallbacks of lightrec.c: cycles, exit flags, and the accounting of blocks that
-- the interpreter runs in place of generated code.
pub mod Machine
pub mod Cycles
pub mod Fallback
pub mod Steps
pub mod Accounting
unfoldable pub use Machine.*
unfoldable pub use Cycles.*
unfoldable pub use Fallback.*
