-- ===== src/Blockcache/Guard.antt =====
-- blockcache.c: what the loops over runs of words do to the bit set, and the guard of
-- `lightrec_invalidate_blocks`.
use lightrec.Base.{
  ℕ, zero, suc, ◌+◌, ◌<◌, ◌≤◌, ◌≡◌, ◌⊎◌, inl, inr, arith, true, false, ==_cases, Bool-cases, ◌∙◌,
  refl, ltb, leb, Bool, not, ◌&&◌, ◌||◌,
}
use lightrec.Blockcache.Geometry.{clamp_word_run}
use lightrec.Blockcache.Words.{
  TranslatedWords, is_translated, set_translated, clear_translated, mark_run, clear_run, any_run,
  mark_translated_words, clear_translated_words, any_translated_word,
}
use lightrec.Blockcache.Words.{
  set_translated_self, set_translated_ne, clear_translated_self, clear_translated_ne,
}

mark_run-outside :
    (n w : ℕ) (t : TranslatedWords) (x : ℕ)
    → (x < w) ⊎ (w + n ≤ x)
    → is_translated (mark_run n w t) x ≡ is_translated t x
unfolding mark_run
mark_run-outside zero w t x h = refl
mark_run-outside (suc n) w t x h =
    mark_run-outside n (w + 1) (set_translated w t) x (grind arith)
    ∙ set_translated_ne w t x (grind arith)

mark_run-inside :
    (n w : ℕ) (t : TranslatedWords) (x : ℕ)
    → w ≤ x
    → x < w + n
    → is_translated (mark_run n w t) x ≡ true
unfolding mark_run
mark_run-inside zero w t x lo hi = absurd (omega arith)
mark_run-inside (suc n) w t x lo hi = elim (==_cases w x) [
  | inl e ↦
      mark_run-outside n (w + 1) (set_translated w t) x (inl (omega (arith, e)))
      ∙ rw (← e) (set_translated_self w t)
  | inr ne ↦ mark_run-inside n (w + 1) (set_translated w t) x (ground arith) (omega arith)
]

clear_run-outside :
    (n w : ℕ) (t : TranslatedWords) (x : ℕ)
    → (x < w) ⊎ (w + n ≤ x)
    → is_translated (clear_run n w t) x ≡ is_translated t x
unfolding clear_run
clear_run-outside zero w t x h = refl
clear_run-outside (suc n) w t x h =
    clear_run-outside n (w + 1) (clear_translated w t) x (grind arith)
    ∙ clear_translated_ne w t x (grind arith)

clear_run-inside :
    (n w : ℕ) (t : TranslatedWords) (x : ℕ)
    → w ≤ x
    → x < w + n
    → is_translated (clear_run n w t) x ≡ false
unfolding clear_run
clear_run-inside zero w t x lo hi = absurd (omega arith)
clear_run-inside (suc n) w t x lo hi = elim (==_cases w x) [
  | inl e ↦
      clear_run-outside n (w + 1) (clear_translated w t) x (inl (omega (arith, e)))
      ∙ rw (← e) (clear_translated_self w t)
  | inr ne ↦ clear_run-inside n (w + 1) (clear_translated w t) x (ground arith) (omega arith)
]

pub any_run-finds :
    (n w : ℕ) (t : TranslatedWords) (x : ℕ)
    → w ≤ x
    → x < w + n
    → is_translated t x ≡ true
    → any_run n w t ≡ true
unfolding any_run
any_run-finds zero w t x lo hi h = absurd (omega arith)
any_run-finds (suc n) w t x lo hi h = elim (Bool-cases (is_translated t w)) [
  | inl one ↦ rw one refl
  | inr z ↦ rw z (elim (==_cases w x) [
    | inl e ↦ absurd (let u = rw (← e) at h in cc z)
    | inr ne ↦ any_run-finds n (w + 1) t x (ground arith) (omega arith) h
  ])
]

-- After a block's words are marked, the guard of an invalidation finds every run that shares a word
-- with the block, both runs cut at the end of the index.
pub any_translated_word-mark :
    (t : TranslatedWords) (offset count first n x : ℕ)
    → offset ≤ x
    → x < offset + clamp_word_run offset count
    → first ≤ x
    → x < first + clamp_word_run first n
    → any_translated_word (mark_translated_words t offset count) first n ≡ true
unfolding any_translated_word mark_translated_words
any_translated_word-mark t offset count first n x h1 h2 h3 h4 =
    any_run-finds (clamp_word_run first n) first _ x h3 h4
      (mark_run-inside (clamp_word_run offset count) offset t x h1 h2)

-- The words that a call with this offset and count goes over.
unfoldable pub in_run : ℕ → ℕ → ℕ → Bool
in_run offset count x = leb offset x && ltb x (offset + clamp_word_run offset count)

pub mark_run-in_run :
    (t : TranslatedWords) (offset count x : ℕ)
    → is_translated (mark_translated_words t offset count) x
      ≡ (in_run offset count x || is_translated t x)
unfolding mark_translated_words in_run
mark_run-in_run t offset count x =
    let n = clamp_word_run offset count in
    elim (Bool-cases (leb offset x && ltb x (offset + n))) [
      | inl y ↦ rw y (mark_run-inside n offset t x (ground arith) (ground arith))
      | inr z ↦ rw z (mark_run-outside n offset t x (ground arith))
    ]

clear_run-in_run :
    (t : TranslatedWords) (offset count x : ℕ)
    → is_translated (clear_translated_words t offset count) x
      ≡ (not (in_run offset count x) && is_translated t x)
unfolding clear_translated_words in_run
clear_run-in_run t offset count x =
    let n = clamp_word_run offset count in
    elim (Bool-cases (leb offset x && ltb x (offset + n))) [
      | inl y ↦ rw y (clear_run-inside n offset t x (ground arith) (ground arith))
      | inr z ↦ rw z (clear_run-outside n offset t x (ground arith))
    ]

-- After one block's words are cleared and another's marked, a word is translated when it is one of
-- the second block's, or is none of the first block's and was translated.
pub clear-mark_words :
    (t : TranslatedWords) (gone n other m x : ℕ)
    → is_translated (mark_translated_words (clear_translated_words t gone n) other m) x
      ≡ (in_run other m x || not (in_run gone n x) && is_translated t x)
clear-mark_words t gone n other m x =
    rw (mark_run-in_run (clear_translated_words t gone n) other m x, clear_run-in_run t gone n x)
      refl
