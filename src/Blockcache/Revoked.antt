-- ===== src/Blockcache/Revoked.antt =====
-- blockcache.c: an invalidation reaches each registered block that shares a word with its range.
use lightrec.Base.{
  ℕ, zero, suc, ◌+◌, ◌-◌, ◌/◌, ◌<◌, ◌≤◌, ◌≡◌, ◌⊎◌, inl, inr, arith, ◌==◌, if◌then◌else◌, ltb, true,
  false, ==_cases, List, [], ◌∷◌, add32,
}
use lightrec.Blockcache.Geometry.{
  CachedBlock, ram_size, lut_offset, block_overlaps_range, clamp_word_run,
}
use lightrec.Blockcache.Words.{is_translated, any_translated_word}
use lightrec.Blockcache.Guard.{any_run-finds}
use lightrec.Blockcache.Invalidate.{
  Blockcache, remove_from_code_lut, page_of_word, lightrec_revoke_block, revoke_if_overlapping,
  visit_chain, visit_pages, for_each_candidate_block, lightrec_invalidate_blocks,
}

abbrev pub IsIn : CachedBlock → List CachedBlock → Type 0
IsIn b [] = ⊥
IsIn b (c ∷ chain) = (c ≡ b) ⊎ IsIn b chain

-- What registration leaves of a block: its place in the chain of its page, the bound on its length,
-- and its words in the bit set.
pub record Registered (cache : Blockcache) (b : CachedBlock) : Type 0 where
  pub chained : IsIn b (cache.pages (page_of_word (lut_offset b.pc)))
  pub short : b.nb_ops ≤ cache.max_block_words
  pub marked :
      (x : ℕ)
      → lut_offset b.pc ≤ x
      → x < lut_offset b.pc + b.nb_ops
      → is_translated cache.translated_words x ≡ true

module _ (begin end : ℕ) where
  revoke-zero :
      (b : CachedBlock) (lut : ℕ → ℕ) (i : ℕ)
      → lut i ≡ 0
      → revoke_if_overlapping begin end b lut i ≡ 0
  unfolding revoke_if_overlapping lightrec_revoke_block remove_from_code_lut
  revoke-zero b lut i z = ground arith

  revoke-hit :
      (b : CachedBlock) (lut : ℕ → ℕ)
      → b.has_function ≡ true
      → 0 < b.nb_ops
      → block_overlaps_range b begin end ≡ true
      → revoke_if_overlapping begin end b lut (lut_offset b.pc) ≡ 0
  unfolding revoke_if_overlapping lightrec_revoke_block remove_from_code_lut
  revoke-hit b lut compiled pos overlaps = rw (overlaps, compiled) (ground arith)

  chain-zero :
      (chain : List CachedBlock) (lut : ℕ → ℕ) (i : ℕ)
      → lut i ≡ 0
      → visit_chain begin end chain lut i ≡ 0
  unfolding visit_chain
  chain-zero [] lut i z = z
  chain-zero (b ∷ chain) lut i z =
      chain-zero chain (revoke_if_overlapping begin end b lut) i (revoke-zero b lut i z)

  pages-zero :
      (pages : ℕ → List CachedBlock) (n page : ℕ) (lut : ℕ → ℕ) (i : ℕ)
      → lut i ≡ 0
      → visit_pages begin end pages n page lut i ≡ 0
  unfolding visit_pages
  pages-zero pages zero page lut i z = z
  pages-zero pages (suc n) page lut i z =
      pages-zero pages n (page + 1) _ i (chain-zero (pages page) lut i z)

  module _ (b : CachedBlock) (compiled : b.has_function ≡ true) (pos : 0 < b.nb_ops)
      (overlaps : block_overlaps_range b begin end ≡ true) where
    chain-hit :
        (chain : List CachedBlock) (lut : ℕ → ℕ)
        → IsIn b chain
        → visit_chain begin end chain lut (lut_offset b.pc) ≡ 0
    unfolding visit_chain
    chain-hit [] lut m = absurd m
    chain-hit (c ∷ chain) lut (inl e) =
        chain-zero chain _ (lut_offset b.pc) (rw e (revoke-hit b lut compiled pos overlaps))
    chain-hit (c ∷ chain) lut (inr m) = chain-hit chain _ m

    pages-hit :
        (pages : ℕ → List CachedBlock) (n page p : ℕ) (lut : ℕ → ℕ)
        → IsIn b (pages p)
        → page ≤ p
        → p < page + n
        → visit_pages begin end pages n page lut (lut_offset b.pc) ≡ 0
    unfolding visit_pages
    pages-hit pages zero page p lut m lo hi = absurd (omega arith)
    pages-hit pages (suc n) page p lut m lo hi = elim (==_cases page p) [
      | inl e ↦ pages-zero pages n (page + 1) _ (lut_offset b.pc) (rw e (chain-hit (pages p) lut m))
      | inr ne ↦ pages-hit pages n (page + 1) p _ m (ground arith) (omega arith)
    ]

    candidates-hit :
        (cache : Blockcache) (first count x : ℕ)
        → Registered cache b
        → lut_offset b.pc ≤ x
        → x < lut_offset b.pc + b.nb_ops
        → first ≤ x
        → x < first + count
        → for_each_candidate_block cache first count begin end (lut_offset b.pc) ≡ 0
    unfolding for_each_candidate_block page_of_word
    candidates-hit cache first count x r h1 h2 h3 h4 =
        let reach = if ltb cache.max_block_words first then first - cache.max_block_words else 0 in
        pages-hit cache.pages (page_of_word (first + count - 1) + 1 - page_of_word reach)
          (page_of_word reach) (page_of_word (lut_offset b.pc)) cache.code_lut r.chained
          (unfold page_of_word in ground (arith, r.short))
          (unfold page_of_word in ground (arith, r.short))

clamp-clamp :
    (offset count : ℕ)
    → clamp_word_run offset (clamp_word_run offset count) ≡ clamp_word_run offset count
unfolding clamp_word_run
clamp-clamp offset count = ground arith

guard-finds :
    (cache : Blockcache) (b : CachedBlock) (first n x : ℕ)
    → Registered cache b
    → lut_offset b.pc ≤ x
    → x < lut_offset b.pc + b.nb_ops
    → first ≤ x
    → x < first + clamp_word_run first n
    → any_translated_word cache.translated_words first (clamp_word_run first n) ≡ true
unfolding any_translated_word
guard-finds cache b first n x r h1 h2 h3 h4 =
    any_run-finds (clamp_word_run first (clamp_word_run first n)) first cache.translated_words x h3
      (rw (clamp-clamp first n) h4) (r.marked x h1 h2)

-- After an invalidation, the code index has no entry at the start of any compiled block that is
-- registered, overlaps the range, and shares a word of the index with it. The range is cut at the
-- size of RAM, and its run of words at the end of the index, as the code does.
pub invalidate-zero :
    (cache : Blockcache) (addr len : ℕ) (b : CachedBlock) (x : ℕ)
    → Registered cache b
    → b.has_function ≡ true
    → block_overlaps_range b addr (add32 addr (if ltb ram_size len then ram_size else len)) ≡ true
    → lut_offset b.pc ≤ x
    → x < lut_offset b.pc + b.nb_ops
    → lut_offset addr ≤ x
    → x
      < lut_offset addr
        + clamp_word_run (lut_offset addr) (((if ltb ram_size len then ram_size else len) + 3) / 4)
    → lightrec_invalidate_blocks cache addr len (lut_offset b.pc) ≡ 0
unfolding lightrec_invalidate_blocks
invalidate-zero cache addr len b x r compiled overlaps h1 h2 h3 h4 =
    let bounded = if ltb ram_size len then ram_size else len in
    let first = lut_offset addr in
    let count = clamp_word_run first ((bounded + 3) / 4) in
    let found = guard-finds cache b first ((bounded + 3) / 4) x r h1 h2 h3 h4 in
    let nonzero : (count == 0) ≡ false = ground arith in
    rw (nonzero, found)
      (candidates-hit addr (add32 addr bounded) b compiled (omega arith) overlaps cache first count
        x r h1 h2 h3 h4)
