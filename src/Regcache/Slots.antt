-- ===== src/Regcache/Slots.antt =====
-- What the search for a guest register in regcache.c finds: the slot that maps it, or a free one.
use lightrec.Base.{
  ℕ, zero, suc, ◌+◌, ◌<◌, ◌≡◌, ◌≢◌, refl, subst, Bool, true, false, not, ◌&&◌, ◌||◌, Option, none,
  some, ◌⊎◌, inl, inr, arith, Bool-cases, ==_cases, ==_iff, ==_refl, ap,
}
use lightrec.Regcache.Data.{NativeRegister, Lightning, Regcache, is_emulated}
use lightrec.Regcache.Search.{
  array_size, is_free, is_mapped, mapped_from, find_mapped_reg, best_up, alloc_in_out,
}
use lightrec.Interpreter.Regs.{Gpr}
use lightrec.Regcache.Host.{Host, Jit}
use lightrec.Regcache.Refines.{Maps, Implements}
use lightrec.Regcache.WriteBack.{emulates_cases}
use lightrec.Regcache.Find.{IsBest, best_up-IsBest}

-- The slot that maps `reg`, or that none does.
abbrev pub IsFound : (ℕ → NativeRegister) → ℕ → ℕ → Bool → Option ℕ → Type 0
IsFound regs n reg out none = (m : ℕ) → m < n → is_mapped (regs m) reg out ≡ false
IsFound regs n reg out (some k) = (k < n) × (is_mapped (regs k) reg out ≡ true)

mapped_from-IsFound :
    (regs : ℕ → NativeRegister) (n left i reg : ℕ) (out : Bool)
    → i + left ≡ n
    → ((m : ℕ) → m < i → is_mapped (regs m) reg out ≡ false)
    → IsFound regs n reg out (mapped_from regs left i reg out)
unfolding mapped_from
mapped_from-IsFound regs n zero i reg out e before = λ m b. before m (omega arith)
mapped_from-IsFound regs n (suc left) i reg out e before =
    elim (Bool-cases (is_mapped (regs i) reg out)) [
      | inl found ↦ rw found (omega arith, found)
      | inr other ↦ rw other (
          mapped_from-IsFound regs n left (i + 1) reg out (omega arith) (λ m b.
            elim (==_cases i m) [
              | inl same ↦ subst (λ x. is_mapped (regs x) reg out ≡ false) same other
              | inr ne ↦ before m (ground arith)
            ]))
    ]

pub find_mapped_reg-IsFound :
    (l : Lightning) (cache : Regcache) (reg : ℕ) (out : Bool)
    → IsFound cache.lightrec_regs (array_size l) reg out (find_mapped_reg l cache reg out)
unfolding find_mapped_reg
find_mapped_reg-IsFound l cache reg out =
    mapped_from-IsFound cache.lightrec_regs (array_size l) (array_size l) 0 reg out (omega arith)
      (λ m b. absurd (omega arith))

not_emulated : (e : Option ℕ) (r : ℕ) → e ≢ some r → is_emulated e r ≢ true
not_emulated none r ne h = cc
not_emulated (some q) r ne h = ne (ap some ((==_iff q r).0 h))

pub Maps-is_mapped :
    (nreg : NativeRegister) (reg : ℕ) (out : Bool) → is_mapped nreg reg out ≡ true → Maps nreg reg
Maps-is_mapped nreg reg out h = elim (emulates_cases nreg.emulated_register reg) [
  | inl e ↦ (ground arith, e)
  | inr ne ↦ absurd (not_emulated nreg.emulated_register reg ne (ground arith))
]

pub is_mapped-Maps :
    (nreg : NativeRegister) (reg : ℕ) (out : Bool)
    → (not out || not nreg.locked) ≡ true
    → is_mapped nreg reg out ≡ false
    → ¬ Maps nreg reg
is_mapped-Maps nreg reg out open_slot h m =
    let e : is_emulated nreg.emulated_register reg ≡ true = rw (m.1) (==_refl reg) in ground arith

-- `alloc_in_out` gives the slot that maps `reg`, or a best free one if there is none.
abbrev pub IsChosen : (ℕ → NativeRegister) → ℕ → ℕ → Bool → Option ℕ → Type 0
IsChosen regs n reg out r =
    ((k : ℕ) × (r ≡ some k) × (k < n) × (is_mapped (regs k) reg out ≡ true))
    ⊎ (((m : ℕ) → m < n → is_mapped (regs m) reg out ≡ false) × IsBest regs n r)

pub alloc_in_out-IsChosen :
    (l : Lightning) (cache : Regcache) (reg : ℕ) (out : Bool)
    → IsChosen cache.lightrec_regs (array_size l) reg out (alloc_in_out l cache reg out)
unfolding alloc_in_out
alloc_in_out-IsChosen l cache reg out =
    elim (find_mapped_reg l cache reg out)
        as (λ r.
          IsFound cache.lightrec_regs (array_size l) reg out r
          → IsChosen cache.lightrec_regs (array_size l) reg out (elim r [
            | some i ↦ some i
            | none ↦ best_up cache.lightrec_regs (array_size l) 0 none 5
          ])) [
            | none ↦ λ absent. inr (
              absent,
              best_up-IsBest cache.lightrec_regs (array_size l) (array_size l) 0 none 5
                  (omega arith) (refl, λ m b seen free. absurd (omega arith)),
            )
            | some k ↦ λ found. inl (k, refl, found.0, found.1)
          ]
      (find_mapped_reg-IsFound l cache reg out)

-- What the search gives the allocations: a slot with no output in use, and no other that maps `reg`.
pub alloc_in_out-Slot :
    (l : Lightning) (j : Jit) (s : Host) (g : Gpr) (cache : Regcache) (reg : ℕ) (out : Bool)
    → Implements l j s g cache
    → ((m : ℕ) → m < array_size l → (not out || not (cache.lightrec_regs m).locked) ≡ true)
    → ((k : ℕ)
        → k < array_size l
        → Maps (cache.lightrec_regs k) reg
        → ((cache.lightrec_regs k).used && (cache.lightrec_regs k).output) ≡ false)
    → (k : ℕ) × (k < array_size l)
      × (is_free (cache.lightrec_regs k) ≡ true)
      × ((cache.lightrec_regs k).prio < 5)
    → (i : ℕ) × (alloc_in_out l cache reg out ≡ some i)
      × (i < array_size l)
      × (((cache.lightrec_regs i).used && (cache.lightrec_regs i).output) ≡ false)
      × ((k : ℕ) → k < array_size l → i ≢ k → ¬ Maps (cache.lightrec_regs k) reg)
alloc_in_out-Slot l j s g cache reg out h unlocked idle (m, bm, free, low) =
    let regs = cache.lightrec_regs in
    elim (alloc_in_out-IsChosen l cache reg out) [
      | inl (k, e, b, mapped) ↦
          let maps = Maps-is_mapped (regs k) reg out mapped in
          (k, e, b, idle k b maps, λ n bn ne other. ne (h.unique k n reg b bn maps other))
      | inr (absent, best) ↦
          elim (alloc_in_out l cache reg out)
              as (λ r.
                IsBest regs (array_size l) r
                → (i : ℕ) × (r ≡ some i)
                  × (i < array_size l)
                  × (((regs i).used && (regs i).output) ≡ false)
                  × ((k : ℕ) → k < array_size l → i ≢ k → ¬ Maps (regs k) reg)) [
                    | none ↦ λ none_free. absurd (omega (arith, none_free m bm free))
                    | some k ↦ λ found. (
                      k,
                      refl,
                      found.0,
                      ground arith,
                      λ n bn ne. is_mapped-Maps (regs n) reg out (unlocked n bn) (absent n bn),
                    )
                  ]
            best
    ]
