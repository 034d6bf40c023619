-- ===== src/Private.antt =====
-- lightrec-private.h: the small predicates and flags that several parts share.
pub mod Extend
pub mod BlockFlags
