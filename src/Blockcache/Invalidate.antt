-- ===== src/Blockcache/Invalidate.antt =====
-- blockcache.c: the page chains, registration, and `lightrec_invalidate_blocks`.
use lightrec.Base.{
  ℕ, zero, suc, ◌+◌, ◌-◌, ◌/◌, ◌%◌, ◌^◌, ◌==◌, if◌then◌else◌, leb, ltb, not, ◌&&◌, ◌||◌, List, [],
  ◌∷◌, add32, max,
}
use lightrec.Blockcache.Geometry.{
  CachedBlock, ram_size, kunseg, lut_offset, block_overlaps_range, clamp_word_run,
}
use lightrec.Blockcache.Words.{TranslatedWords, mark_translated_words, any_translated_word}

-- `struct blockcache` and the code index: `pages` holds the chain of each page, and a `code_lut`
-- entry of 0 is a null pointer.
pub record Blockcache : Type 0 where
  pub lut : ℕ → List CachedBlock
  pub pages : ℕ → List CachedBlock
  pub max_block_words : ℕ
  pub translated_words : TranslatedWords
  pub code_lut : ℕ → ℕ

-- `lut_write` of zero over the words of a block, if it has been compiled.
unfoldable pub remove_from_code_lut : CachedBlock → (ℕ → ℕ) → ℕ → ℕ
unfolding lut_offset
remove_from_code_lut b lut = λ i.
    if b.has_function && (leb (lut_offset b.pc) i && ltb i (lut_offset b.pc + b.nb_ops))
    then 0
    else lut i

unfoldable pub page_of_word : ℕ → ℕ
page_of_word word = word / 2 ^ 10

unfoldable pub page_chain_add : Blockcache → CachedBlock → Blockcache
unfolding page_of_word lut_offset
page_chain_add cache b = record cache {
  pages = λ p. if page_of_word (lut_offset b.pc) == p then b ∷ cache.pages p else cache.pages p;
  max_block_words = max cache.max_block_words b.nb_ops;
}

unfoldable pub lightrec_revoke_block : CachedBlock → (ℕ → ℕ) → ℕ → ℕ
unfolding lut_offset remove_from_code_lut
lightrec_revoke_block b lut =
    if not b.has_function || lut (lut_offset b.pc) == 0 then lut else remove_from_code_lut b lut

unfoldable pub revoke_if_overlapping : ℕ → ℕ → CachedBlock → (ℕ → ℕ) → ℕ → ℕ
unfolding block_overlaps_range lightrec_revoke_block
revoke_if_overlapping begin end b lut =
    if block_overlaps_range b begin end then lightrec_revoke_block b lut else lut

-- The visit of one chain, and of `n` pages from `page` on.
unfoldable pub visit_chain : ℕ → ℕ → List CachedBlock → (ℕ → ℕ) → ℕ → ℕ
unfolding revoke_if_overlapping
visit_chain begin end [] lut = lut
visit_chain begin end (b ∷ chain) lut =
    visit_chain begin end chain (revoke_if_overlapping begin end b lut)

unfoldable pub visit_pages : ℕ → ℕ → (ℕ → List CachedBlock) → ℕ → ℕ → (ℕ → ℕ) → ℕ → ℕ
unfolding visit_chain
visit_pages begin end pages zero page lut = lut
visit_pages begin end pages (suc n) page lut =
    visit_pages begin end pages n (page + 1) (visit_chain begin end (pages page) lut)

-- `for_each_candidate_block` with `revoke_if_overlapping`.
unfoldable pub for_each_candidate_block : Blockcache → ℕ → ℕ → ℕ → ℕ → ℕ → ℕ
unfolding page_of_word visit_pages
for_each_candidate_block cache first count begin end =
    let reach = if ltb cache.max_block_words first then first - cache.max_block_words else 0 in
    let last = page_of_word (first + count - 1) in
    visit_pages begin end cache.pages (last + 1 - page_of_word reach) (page_of_word reach)
      cache.code_lut

-- The code index after the call; the statistics are left out.
unfoldable pub lightrec_invalidate_blocks : Blockcache → ℕ → ℕ → ℕ → ℕ
unfolding lut_offset clamp_word_run any_translated_word for_each_candidate_block add32
lightrec_invalidate_blocks cache addr len =
    let bounded = if ltb ram_size len then ram_size else len in
    let first = lut_offset addr in
    let count = clamp_word_run first ((bounded + 3) / 4) in
    let done = for_each_candidate_block cache first count addr (add32 addr bounded) in
    if count == 0 || not (any_translated_word cache.translated_words first count)
    then cache.code_lut
    else done

unfoldable pub lightrec_register_block : Blockcache → CachedBlock → Blockcache
unfolding page_chain_add lut_offset kunseg mark_translated_words remove_from_code_lut
lightrec_register_block cache b =
    let chained = page_chain_add cache b in
    let entry = kunseg b.pc / 4 % 2 ^ 14 in
    record chained {
      lut = λ i. if entry == i then b ∷ cache.lut i else cache.lut i;
      translated_words =
          mark_translated_words cache.translated_words (lut_offset (kunseg b.pc)) b.nb_ops;
      code_lut = remove_from_code_lut b cache.code_lut;
    }
