-- ===== src/Blockcache/Register.antt =====
-- blockcache.c: registration puts a block where an invalidation finds it, and keeps the others there.
use lightrec.Base.{
  ℕ, ◌+◌, ◌<◌, ◌≤◌, ◌≡◌, ◌⊎◌, inl, inr, arith, ◌==◌, if◌then◌else◌, Bool, true, false, ◌||◌, List,
  ◌∷◌, refl, sub32, ◌∙◌, subst, sym,
}
use lightrec.Blockcache.Geometry.{CachedBlock, code_lut_size, kunseg, lut_offset, clamp_word_run}
use lightrec.Blockcache.Segments.{lut_offset-kunseg}
use lightrec.Blockcache.Words.{is_translated, TranslatedWords, mark_translated_words}
use lightrec.Blockcache.Guard.{in_run, mark_run-in_run}
use lightrec.Blockcache.Invalidate.{
  Blockcache, page_of_word, page_chain_add, lightrec_register_block,
}
use lightrec.Blockcache.Revoked.{IsIn, Registered}

IsIn-if :
    (test : Bool) (b c : CachedBlock) (chain : List CachedBlock)
    → IsIn c chain
    → IsIn c (if test then b ∷ chain else chain)
IsIn-if true b c chain m = inr m
IsIn-if false b c chain m = m

mark-new :
    (t : TranslatedWords) (offset n x : ℕ)
    → offset + n ≤ code_lut_size
    → offset ≤ x
    → x < offset + n
    → is_translated (mark_translated_words t offset n) x ≡ true
mark-new t offset n x fits lo hi = mark_run-in_run t offset n x ∙ run_true
  where
    run_true : (in_run offset n x || is_translated t x) ≡ true
    run_true = unfold in_run clamp_word_run sub32 in ground arith

mark-old :
    (t : TranslatedWords) (offset n x : ℕ)
    → is_translated t x ≡ true
    → is_translated (mark_translated_words t offset n) x ≡ true
mark-old t offset n x h = mark_run-in_run t offset n x ∙ rw h (or_true (in_run offset n x))
  where
    or_true : (b : Bool) → (b || true) ≡ true
    or_true true = refl
    or_true false = refl

-- Registering a block makes it registered and keeps every registered block so, if the new block ends
-- within the index of code words.
pub register-Registered :
    (cache : Blockcache) (b c : CachedBlock)
    → lut_offset b.pc + b.nb_ops ≤ code_lut_size
    → (c ≡ b) ⊎ Registered cache c
    → Registered (lightrec_register_block cache b) c
unfolding lightrec_register_block page_chain_add
register-Registered cache b c fits (inl e) =
    subst (λ d. Registered (lightrec_register_block cache b) d) (sym e)
      (record {
        chained =
            let own : (page_of_word (lut_offset b.pc) == page_of_word (lut_offset b.pc)) ≡ true =
              ground arith in
            rw own (inl refl);
        short = omega arith;
        marked = λ x lo hi.
            rw (lut_offset-kunseg b.pc)
              (mark-new cache.translated_words (lut_offset b.pc) b.nb_ops x fits lo hi);
      })
register-Registered cache b c fits (inr r) = record {
  chained =
      IsIn-if (page_of_word (lut_offset b.pc) == page_of_word (lut_offset c.pc)) b c _ r.chained;
  short = omega (arith, r.short);
  marked = λ x lo hi.
      mark-old cache.translated_words (lut_offset (kunseg b.pc)) b.nb_ops x (r.marked x lo hi);
}
