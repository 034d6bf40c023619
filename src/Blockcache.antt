-- ===== src/Blockcache.antt =====
-- blockcache.c: the bit set of the code words that registered blocks cover; Blockcache/Geometry has
-- the addresses and extents of lightrec-private.h.
pub mod Geometry
pub mod Words
pub mod Segments
pub mod Guard
pub mod Invalidate
pub mod Revoked
pub mod Register
pub mod Find
pub mod Lookup
pub mod Outdated
