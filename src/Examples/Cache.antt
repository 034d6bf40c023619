-- ===== src/Examples/Cache.antt =====
-- The theorems on the block cache, at one block of four words.
use lightrec.Base.{◌≡◌, arith, true, [], refl, inl, sub32, add32, any_bit, lnot}
use lightrec.Blockcache.Geometry.{
  CachedBlock, kunseg, lut_offset, block_end_pc, block_overlaps_range, clamp_word_run,
}
use lightrec.Blockcache.Invalidate.{Blockcache, lightrec_register_block, lightrec_invalidate_blocks}
use lightrec.Blockcache.Revoked.{Registered, invalidate-zero}
use lightrec.Blockcache.Register.{register-Registered}

abbrev pub empty_cache : Blockcache
empty_cache = record {
  lut = λ i. [];
  pages = λ i. [];
  max_block_words = 0;
  translated_words = λ i. 0;
  code_lut = λ i. 0;
}

abbrev pub small_block : CachedBlock
small_block = record { pc = 0x80000040; nb_ops = 4; has_function = true }

register-Registered_example :
    Registered (lightrec_register_block empty_cache small_block) small_block
unfolding lut_offset kunseg any_bit lnot
register-Registered_example =
    register-Registered empty_cache small_block small_block (omega arith) (inl refl)

-- The block has been compiled: each word has an entry.
abbrev compiled_cache : Blockcache
compiled_cache = record (lightrec_register_block empty_cache small_block) { code_lut = λ i. 1 }

compiled_cache-Registered : Registered compiled_cache small_block
unfolding lut_offset kunseg any_bit lnot
compiled_cache-Registered =
    let r = register-Registered empty_cache small_block small_block (omega arith) (inl refl) in
    record { chained = r.chained; short = r.short; marked = r.marked }

invalidate-zero_example : lightrec_invalidate_blocks compiled_cache 0x48 4 16 ≡ 0
unfolding lut_offset kunseg any_bit lnot block_overlaps_range block_end_pc add32 clamp_word_run
    sub32
invalidate-zero_example =
    invalidate-zero compiled_cache 0x48 4 small_block 18 compiled_cache-Registered refl refl
      (omega arith) (omega arith) (omega arith) (omega arith)
