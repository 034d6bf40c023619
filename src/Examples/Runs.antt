-- ===== src/Examples/Runs.antt =====
-- The theorems on the translated words, at runs that overlap.
use lightrec.Base.{◌≡◌, arith, true, sub32}
use lightrec.Blockcache.Geometry.{clamp_word_run}
use lightrec.Blockcache.Words.{TranslatedWords, mark_translated_words, any_translated_word}
use lightrec.Blockcache.Guard.{any_translated_word-mark}

abbrev nothing : TranslatedWords
nothing i = 0

abbrev everything : TranslatedWords
everything i = 255

any_translated_word-mark_example :
    any_translated_word (mark_translated_words nothing 16 4) 18 9 ≡ true
unfolding clamp_word_run sub32
any_translated_word-mark_example =
    any_translated_word-mark nothing 16 4 18 9 18 (omega arith) (omega arith) (omega arith)
      (omega arith)
