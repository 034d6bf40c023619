-- ===== src/Private/Extend.antt =====
-- lightrec-private.h: whether an immediate holds a word.
use lightrec.Base.{
  ℕ, ◌-◌, ◌^◌, ◌<◌, ◌≡◌, ◌↔◌, ◌==◌, Bool, true, ltb, arith, IsU32, add32, sra, shr, lnot, is_neg,
  sext8, sext16,
}

unfoldable pub can_sign_extend : ℕ → ℕ → Bool
unfolding sra add32
can_sign_extend value order = ltb (add32 (sra value (order - 1)) 1) 2

unfoldable pub can_zero_extend : ℕ → ℕ → Bool
unfolding shr
can_zero_extend value order = shr value order == 0

-- A word passes the test for a signed immediate of 16 or 8 bits exactly if sign extension of its low
-- bits gives it back, and the test for an unsigned one of 16 exactly if it is below 2 ^ 16.
pub can_extend_iff :
    (x : ℕ)
    → IsU32 x
    → ((can_sign_extend x 16 ≡ true) ↔ (sext16 x ≡ x))
      × ((can_sign_extend x 8 ≡ true) ↔ (sext8 x ≡ x))
      × ((can_zero_extend x 16 ≡ true) ↔ (x < 2 ^ 16))
unfolding can_sign_extend can_zero_extend sra shr lnot is_neg add32 sext16 sext8
can_extend_iff x h = (ground arith, ground arith, ground arith)
