-- ===== src/Blockcache/Find.antt =====
-- blockcache.c: the lookup of blocks by address.
use lightrec.Base.{
  ℕ, ◌/◌, ◌%◌, ◌^◌, ◌==◌, ◌&&◌, if◌then◌else◌, leb, ltb, Option, none, some, List, [], ◌∷◌,
}
use lightrec.Blockcache.Geometry.{CachedBlock, kunseg, block_end_pc}
use lightrec.Blockcache.Invalidate.{Blockcache}

-- `(kunseg(pc) >> 2) & (LUT_SIZE - 1)`.
unfoldable pub lightrec_get_lut_entry : CachedBlock → ℕ
unfolding kunseg
lightrec_get_lut_entry b = kunseg b.pc / 4 % 2 ^ 14

unfoldable pub find_in_chain : ℕ → List CachedBlock → Option CachedBlock
unfolding kunseg
find_in_chain pc [] = none
find_in_chain pc (b ∷ chain) =
    let rest = find_in_chain pc chain in if kunseg b.pc == pc then some b else rest

unfoldable pub lightrec_find_block : Blockcache → ℕ → Option CachedBlock
unfolding kunseg find_in_chain
lightrec_find_block cache pc = find_in_chain (kunseg pc) (cache.lut (kunseg pc / 4 % 2 ^ 14))

unfoldable pub find_containing : ℕ → List CachedBlock → Option CachedBlock
unfolding kunseg block_end_pc
find_containing addr [] = none
find_containing addr (b ∷ chain) =
    let rest = find_containing addr chain in
    if leb (kunseg b.pc) addr && ltb addr (block_end_pc b) then some b else rest

unfoldable pub lightrec_find_block_from_lut : Blockcache → ℕ → ℕ → Option CachedBlock
unfolding kunseg find_containing
lightrec_find_block_from_lut cache lut_entry addr =
    find_containing (kunseg addr) (cache.lut lut_entry)
