-- ===== src/Regcache.antt =====
-- regcache.c: the cache of guest registers in host registers.
pub mod Data
pub mod Search
pub mod Alloc
pub mod Flags
pub mod Program
pub mod Host
pub mod Refines
pub mod WriteBack
pub mod Find
pub mod Slots
pub mod Ready
pub mod Reads
pub mod Writes
pub mod Temps
pub mod Layout
pub mod Clean
unfoldable pub use Data.*
unfoldable pub use Search.*
unfoldable pub use Alloc.*
unfoldable pub use Flags.*
unfoldable pub use Program.*
