-- ===== src/DelaySlots.antt =====
-- optimizer-delay-slots.c: the pass that puts the opcode of a delay slot before its branch.
pub mod Allow
pub mod Pass
pub mod Sound
pub mod Order
unfoldable pub use Allow.*
unfoldable pub use Pass.*
