-- ===== src/Memmanager.antt =====
-- memmanager.c: the bytes in use, by type of memory. `malloc` and `calloc` are arguments, by what they
-- return; a count is an `unsigned int` of 32 bits.
pub mod Usage
pub mod Total
unfoldable pub use Usage.*
