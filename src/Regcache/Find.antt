-- ===== src/Regcache/Find.antt =====
-- What the search for a free slot in regcache.c finds: a slot of the least priority.
use lightrec.Base.{
  ℕ, zero, suc, ◌+◌, ◌<◌, ◌≤◌, ltb, ◌==◌, ◌≡◌, refl, subst, true, false, ◌&&◌, Option, none, some,
  ◌⊎◌, inl, inr, arith, Bool-cases,
}
use lightrec.Regcache.Data.{NativeRegister, Lightning, Regcache}
use lightrec.Regcache.Search.{array_size, is_free, best_down, alloc_temp, best_up}

-- A free slot of the least priority among the first `n`, or no free slot with a priority below 5.
abbrev pub IsBest : (ℕ → NativeRegister) → ℕ → Option ℕ → Type 0
IsBest regs n none = (m : ℕ) → m < n → is_free (regs m) ≡ true → 5 ≤ (regs m).prio
IsBest regs n (some k) =
    (k < n)
    × (is_free (regs k) ≡ true)
    × ((m : ℕ) → m < n → is_free (regs m) ≡ true → (regs k).prio ≤ (regs m).prio)

-- The same of the slots seen so far, with the priority that the loop keeps.
abbrev Leads : (ℕ → NativeRegister) → ℕ → (ℕ → Type 0) → Option ℕ → ℕ → Type 0
Leads regs n Seen none best =
    (best ≡ 5) × ((m : ℕ) → m < n → Seen m → is_free (regs m) ≡ true → 5 ≤ (regs m).prio)
Leads regs n Seen (some k) best =
    (best ≡ (regs k).prio)
    × (k < n)
    × (is_free (regs k) ≡ true)
    × ((m : ℕ) → m < n → Seen m → is_free (regs m) ≡ true → (regs k).prio ≤ (regs m).prio)

module _ (regs : ℕ → NativeRegister) (n : ℕ) where
  -- Everything is seen.
  finish :
      {Seen : ℕ → Type 0} (nreg : Option ℕ) (best : ℕ)
      → ((m : ℕ) → m < n → Seen m)
      → Leads regs n Seen nreg best
      → IsBest regs n nreg
  finish none best all lead = λ m b free. lead.1 m b (all m b) free
  finish (some k) best all lead = (lead.1, lead.2, λ m b free. lead.3 m b (all m b) free)

  -- One more slot `i` is seen, which is no better.
  pass :
      {Seen Seen' : ℕ → Type 0} (i : ℕ) (nreg : Option ℕ) (best : ℕ)
      → ((m : ℕ) → Seen' m → Seen m ⊎ (i ≡ m))
      → (is_free (regs i) && ltb (regs i).prio best) ≡ false
      → Leads regs n Seen nreg best
      → Leads regs n Seen' nreg best
  pass i none best more worse lead = (
    lead.0,
    λ m b seen free. elim (more m seen) [
      | inl old ↦ lead.1 m b old free
      | inr e ↦ subst (λ x. is_free (regs x) ≡ true → 5 ≤ (regs x).prio) e (λ f. ground arith) free
    ],
  )
  pass i (some k) best more worse lead = (
    lead.0,
    lead.1,
    lead.2,
    λ m b seen free. elim (more m seen) [
      | inl old ↦ lead.3 m b old free
      | inr e ↦
          subst (λ x. is_free (regs x) ≡ true → (regs k).prio ≤ (regs x).prio) e (λ f. ground arith)
            free
    ],
  )

  -- One more slot `i` is seen, and it is the best one.
  take :
      {Seen Seen' : ℕ → Type 0} (i : ℕ) (nreg : Option ℕ) (best : ℕ)
      → i < n
      → ((m : ℕ) → Seen' m → Seen m ⊎ (i ≡ m))
      → (is_free (regs i) && ltb (regs i).prio best) ≡ true
      → Leads regs n Seen nreg best
      → Leads regs n Seen' (some i) (regs i).prio
  take i none best lt more better lead = (
    refl,
    lt,
    ground arith,
    λ m b seen free. elim (more m seen) [
      | inl old ↦ ground (arith, lead.1 m b old free)
      | inr e ↦ rw e (omega arith)
    ],
  )
  take i (some k) best lt more better lead = (
    refl,
    lt,
    ground arith,
    λ m b seen free. elim (more m seen) [
      | inl old ↦ ground (arith, lead.3 m b old free)
      | inr e ↦ rw e (omega arith)
    ],
  )

  -- A slot that nobody uses and that holds nothing is the best there is.
  stop :
      (i : ℕ) (best : ℕ)
      → i < n
      → (is_free (regs i) && ltb (regs i).prio best) ≡ true
      → ((regs i).prio == 0) ≡ true
      → IsBest regs n (some i)
  stop i best lt better empty = (lt, ground arith, λ m b free. ground arith)

  pub best_up-IsBest :
      (left i : ℕ) (nreg : Option ℕ) (best : ℕ)
      → i + left ≡ n
      → Leads regs n (λ m. m < i) nreg best
      → IsBest regs n (best_up regs left i nreg best)
  unfolding best_up
  best_up-IsBest zero i nreg best e lead = finish nreg best (λ m b. omega arith) lead
  best_up-IsBest (suc left) i nreg best e lead =
      let more : (m : ℕ) → m < i + 1 → (m < i) ⊎ (i ≡ m) = λ m b. ground arith in
      elim (Bool-cases (is_free (regs i) && ltb (regs i).prio best)) [
        | inl better ↦ elim (Bool-cases ((regs i).prio == 0)) [
          | inl empty ↦ rw (better, empty) (stop i best (omega arith) better empty)
          | inr full ↦
              rw (better, full)
                (best_up-IsBest left (i + 1) (some i) (regs i).prio (omega arith)
                  (take i nreg best (omega arith) more better lead))
        ]
        | inr worse ↦
            rw worse (
              best_up-IsBest left (i + 1) nreg best (omega arith)
                (pass i nreg best more worse lead))
      ]

  best_down-IsBest :
      (i : ℕ) (nreg : Option ℕ) (best : ℕ)
      → i ≤ n
      → Leads regs n (λ m. i ≤ m) nreg best
      → IsBest regs n (best_down regs i nreg best)
  unfolding best_down
  best_down-IsBest zero nreg best e lead = finish nreg best (λ m b. omega arith) lead
  best_down-IsBest (suc i) nreg best e lead =
      let more : (m : ℕ) → i ≤ m → (suc i ≤ m) ⊎ (i ≡ m) = λ m b. ground arith in
      elim (Bool-cases (is_free (regs i) && ltb (regs i).prio best)) [
        | inl better ↦ elim (Bool-cases ((regs i).prio == 0)) [
          | inl empty ↦ rw (better, empty) (stop i best (omega arith) better empty)
          | inr full ↦
              rw (better, full)
                (best_down-IsBest i (some i) (regs i).prio (omega arith)
                  (take i nreg best (omega arith) more better lead))
        ]
        | inr worse ↦
            rw worse (best_down-IsBest i nreg best (omega arith) (pass i nreg best more worse lead))
      ]

-- `alloc_temp` finds a slot that is neither used nor locked, and no free slot has a lower priority; it
-- finds none only if no slot of a valid priority is free.
pub alloc_temp-IsBest :
    (l : Lightning) (cache : Regcache)
    → IsBest cache.lightrec_regs (array_size l) (alloc_temp l cache)
unfolding alloc_temp
alloc_temp-IsBest l cache =
    best_down-IsBest cache.lightrec_regs (array_size l) (array_size l) none 5 (omega arith)
      (refl, λ m b seen free. absurd (omega arith))
