-- ===== src/Memory.antt =====
-- lightrec.c: the memory map, the default accessors, the unaligned accesses, and `lightrec_rw`.
pub mod Host
pub mod Maps
pub mod Default
pub mod Unaligned
pub mod Access
pub mod Lookup
pub mod Fault
pub mod Whole
pub mod RoundTrip
unfoldable pub use Host.*
unfoldable pub use Maps.*
unfoldable pub use Default.*
unfoldable pub use Unaligned.*
unfoldable pub use Access.*
