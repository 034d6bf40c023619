-- ===== src/Coprocessor.antt =====
-- lightrec.c: the registers of the two coprocessors, and what a write to them does.
pub mod Gte
pub mod System
pub mod Colour
pub mod Rfe
pub mod Interrupts
unfoldable pub use Gte.*
unfoldable pub use System.*
