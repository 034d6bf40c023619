-- ===== src/Blockcache/Lookup.antt =====
-- blockcache.c: registration and lookup, against a map from addresses to blocks.
use lightrec.Base.{
  ℕ, ◌/◌, ◌%◌, ◌^◌, ◌≡◌, ◌==◌, if◌then◌else◌, Option, some, refl, ==_cases, inl, inr, ==_refl,
  Bool-cases,
}
use lightrec.Blockcache.Geometry.{CachedBlock, kunseg}
use lightrec.Blockcache.Invalidate.{Blockcache, lightrec_register_block, page_chain_add}
use lightrec.Blockcache.Find.{lightrec_find_block, find_in_chain}

-- The block that an address has, as the cache promises it: a map from unsegmented addresses.
abbrev pub blocks_of : Blockcache → ℕ → Option CachedBlock
blocks_of cache kaddr = find_in_chain kaddr (cache.lut (kaddr / 4 % 2 ^ 14))

registered_at :
    (cache : Blockcache) (b : CachedBlock) (k : ℕ)
    → blocks_of (lightrec_register_block cache b) k
      ≡ (if kunseg b.pc == k then some b else blocks_of cache k)
unfolding lightrec_register_block page_chain_add find_in_chain
registered_at cache b k = elim (==_cases (kunseg b.pc) k) [
  | inl same ↦ rw (same, ==_refl (k / 4 % 2 ^ 14), same, ==_refl k) refl
  | inr other ↦ rw other (elim (Bool-cases (kunseg b.pc / 4 % 2 ^ 14 == k / 4 % 2 ^ 14)) [
    | inl y ↦ rw (y, other) refl
    | inr n ↦ rw n refl
  ])
]

-- Registration puts a block at its unsegmented address in the map from addresses to blocks, in place of
-- the one that was there, and changes the map nowhere else; a lookup reads the map at the unsegmented
-- address.
pub register-blocks_of :
    (cache : Blockcache) (b : CachedBlock) (kaddr pc : ℕ)
    → (blocks_of (lightrec_register_block cache b) kaddr
        ≡ (if kunseg b.pc == kaddr then some b else blocks_of cache kaddr))
      × (lightrec_find_block (lightrec_register_block cache b) pc
          ≡ (if kunseg b.pc == kunseg pc then some b else lightrec_find_block cache pc))
unfolding lightrec_find_block
register-blocks_of cache b kaddr pc =
    (registered_at cache b kaddr, registered_at cache b (kunseg pc))
