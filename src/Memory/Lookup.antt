-- ===== src/Memory/Lookup.antt =====
-- lightrec.c: what the lookup of an address in the memory maps finds.
use lightrec.Base.{
  ℕ, zero, suc, ◌+◌, ◌-◌, ◌<◌, ◌≡◌, ◌↔◌, true, false, Bool-cases, arith, refl, ap, ◌∙◌, Option,
  none, some, List, [], ◌∷◌, length, get_elem?, inl, inr, subst,
}
use lightrec.Memory.Maps.{
  MemMap, map_holds, map_idx_from, lightrec_get_map_idx, mirror_root, root_of, lightrec_get_map,
}

-- The map at index `d` is the first that holds the address.
pub record FirstHolder (maps : List MemMap) (kaddr d : ℕ) : Type 0 where
  pub map : MemMap
  pub at : get_elem? maps d ≡ some map
  pub holds : map_holds map kaddr ≡ true
  pub before :
      (k : ℕ) (other : MemMap)
      → k < d
      → get_elem? maps k ≡ some other
      → map_holds other kaddr ≡ false

some-injective : {A : Type 0} {x y : A} → some x ≡ some y → x ≡ y
some-injective e = cc

holder_behind :
    (map : MemMap) (maps : List MemMap) (kaddr d : ℕ)
    → map_holds map kaddr ≡ false
    → FirstHolder maps kaddr d
    → FirstHolder (map ∷ maps) kaddr (suc d)
holder_behind map maps kaddr d n f = record {
  map = f.map;
  at = f.at;
  holds = f.holds;
  before = earlier;
}
  where
    earlier :
        (k : ℕ) (other : MemMap)
        → k < suc d
        → get_elem? (map ∷ maps) k ≡ some other
        → map_holds other kaddr ≡ false
    earlier zero other lt at = subst (λ t. map_holds t kaddr ≡ false) (some-injective at) n
    earlier (suc k) other lt at = f.before k other (omega arith) at

found_from :
    (maps : List MemMap) (i kaddr j : ℕ)
    → map_idx_from maps i kaddr ≡ some j
    → (d : ℕ) × (j ≡ i + d) × FirstHolder maps kaddr d
unfolding map_idx_from
found_from [] i kaddr j h = absurd cc
found_from (map ∷ maps) i kaddr j h = elim (Bool-cases (map_holds map kaddr)) [
  | inl y ↦ (
    0,
    omega (arith, some-injective (rw y at h)),
    record { map = map; at = refl; holds = y; before = λ k other lt at. absurd (omega arith) },
  )
  | inr n ↦
      let r = found_from maps (i + 1) kaddr j (rw n at h) in
      (suc r.0, omega (arith, r.1), holder_behind map maps kaddr r.0 n r.2)
]

none_from :
    (maps : List MemMap) (i kaddr k : ℕ) (map : MemMap)
    → map_idx_from maps i kaddr ≡ none
    → get_elem? maps k ≡ some map
    → map_holds map kaddr ≡ false
unfolding map_idx_from
none_from [] i kaddr k map h at = absurd cc
none_from (first ∷ maps) i kaddr zero map h at = elim (Bool-cases (map_holds first kaddr)) [
  | inl y ↦ absurd (let h' = rw y at h in cc h')
  | inr n ↦ subst (λ t. map_holds t kaddr ≡ false) (some-injective at) n
]
none_from (first ∷ maps) i kaddr (suc k) map h at = elim (Bool-cases (map_holds first kaddr)) [
  | inl y ↦ absurd (let h' = rw y at h in cc h')
  | inr n ↦ none_from maps (i + 1) kaddr k map (rw n at h) at
]

-- A mirror points at an earlier place of the array.
abbrev pub Descending : List MemMap → Type 0
Descending maps =
    (k next : ℕ) (map : MemMap) → get_elem? maps k ≡ some map → map.mirror_of ≡ some next → next < k

-- The second place is reached from the first by following `mirror_of`, map after map.
pub data Mirrors (maps : List MemMap) : ℕ → ℕ → Type 0 where
  here : {idx : ℕ} → Mirrors maps idx idx
  mirror :
      {idx root : ℕ} (map : MemMap) (next : ℕ)
      → get_elem? maps idx ≡ some map
      → map.mirror_of ≡ some next
      → Mirrors maps next root
      → Mirrors maps idx root

-- What the loop over mirrors ends at.
pub record Root (maps : List MemMap) (root : ℕ) : Type 0 where
  pub map : MemMap
  pub at : get_elem? maps root ≡ some map
  pub plain : map.mirror_of ≡ none

within :
    {A : Type 0} (list : List A) (k : ℕ) → k < length list → (x : A) × (get_elem? list k ≡ some x)
within [] k h = absurd (omega arith)
within (x ∷ list) zero h = (x, refl)
within (x ∷ list) (suc k) h = within list k (omega arith)

lt-length :
    {A : Type 0} (list : List A) (k : ℕ) (x : A) → get_elem? list k ≡ some x → k < length list
lt-length [] k x h = absurd cc
lt-length (y ∷ list) zero x h = omega arith
lt-length (y ∷ list) (suc k) x h = let r = lt-length list k x h in omega (arith, r)

-- As many rounds as there are maps are enough for the mirrors.
mirror_root-Root :
    (maps : List MemMap) (fuel idx : ℕ)
    → Descending maps
    → idx < length maps
    → idx < fuel
    → (root : ℕ) × (mirror_root maps fuel idx ≡ some root) × Root maps root × Mirrors maps idx root
unfolding mirror_root
mirror_root-Root maps zero idx down h lt = absurd (omega arith)
mirror_root-Root maps (suc fuel) idx down h lt =
    let found = within maps idx h in
    go found.0 found.1 (found.0.mirror_of) refl (λ next lower.
      mirror_root-Root maps fuel next down (omega (arith, lower)) (omega (arith, lower)))
  where
    go :
        (map : MemMap)
        → get_elem? maps idx ≡ some map
        → (o : Option ℕ) → map.mirror_of ≡ o
        → ((next : ℕ)
            → next < idx
            → (root : ℕ) × (mirror_root maps fuel next ≡ some root)
              × Root maps root
              × Mirrors maps next root)
        → (root : ℕ) × (mirror_root maps (suc fuel) idx ≡ some root)
          × Root maps root
          × Mirrors maps idx root
    go map at none m rest =
        (idx, rw (mirror_root, at, m) refl, record { map = map; at = at; plain = m }, Mirrors.here)
    go map at (some next) m rest =
        let r = rest next (down idx next map at m) in
        (r.0, rw (mirror_root, at, m) r.1, r.2, Mirrors.mirror map next at m r.3)

get_map_found :
    (maps : List MemMap) (kaddr d root : ℕ) (first target : MemMap)
    → map_idx_from maps 0 kaddr ≡ some d
    → get_elem? maps d ≡ some first
    → mirror_root maps (length maps) d ≡ some root
    → get_elem? maps root ≡ some target
    → lightrec_get_map maps kaddr ≡ some (root, target.address + (kaddr - first.pc))
unfolding lightrec_get_map lightrec_get_map_idx root_of
get_map_found maps kaddr d root first target e at r to =
    rw (lightrec_get_map, lightrec_get_map_idx, e, at, root_of, r, to) refl

-- An address that a map holds resolves: from the first map that holds it, along the mirrors of that map,
-- to a map that mirrors nothing, at the offset of the address in the first map. Condition: every mirror
-- points at an earlier map.
pub get_map-Root :
    (maps : List MemMap) (kaddr k : ℕ) (held : MemMap)
    → Descending maps
    → get_elem? maps k ≡ some held
    → map_holds held kaddr ≡ true
    → (d : ℕ) × (first : FirstHolder maps kaddr d) × (root : ℕ) × (target : Root maps root)
      × Mirrors maps d root
      × (lightrec_get_map maps kaddr ≡ some (root, target.map.address + (kaddr - first.map.pc)))
unfolding lightrec_get_map lightrec_get_map_idx root_of
get_map-Root maps kaddr k held down at holds = go (map_idx_from maps 0 kaddr) refl
  where
    go :
        (o : Option ℕ)
        → map_idx_from maps 0 kaddr ≡ o
        → (d : ℕ) × (first : FirstHolder maps kaddr d) × (root : ℕ) × (target : Root maps root)
          × Mirrors maps d root
          × (lightrec_get_map maps kaddr ≡ some (root, target.map.address + (kaddr - first.map.pc)))
    go none e = absurd (let no = none_from maps 0 kaddr k held e at in cc (no, holds))
    go (some j) e =
        let f = found_from maps 0 kaddr j e in
        let j_is_d : j ≡ f.0 = omega (arith, f.1) in
        let first = f.2 in
        let r =
          mirror_root-Root maps (length maps) f.0 down (lt-length maps f.0 first.map first.at)
            (lt-length maps f.0 first.map first.at) in
        let target = r.2 in
        (
          f.0,
          first,
          r.0,
          target,
          r.3,
          get_map_found maps kaddr f.0 r.0 first.map target.map (e ∙ ap some j_is_d) first.at r.1
              target.at,
        )

-- An address that no map holds resolves to none, and no other address does. Condition: every mirror
-- points at an earlier map.
pub get_map_none :
    (maps : List MemMap) (kaddr : ℕ)
    → Descending maps
    → (lightrec_get_map maps kaddr ≡ none)
      ↔ ((k : ℕ) (map : MemMap) → get_elem? maps k ≡ some map → map_holds map kaddr ≡ false)
unfolding lightrec_get_map lightrec_get_map_idx
get_map_none maps kaddr down = (
  λ h k map at. elim (Bool-cases (map_holds map kaddr)) [
    | inl y ↦ absurd (let r = get_map-Root maps kaddr k map down at y in cc (h, r.5))
    | inr n ↦ n
  ],
  λ h. unheld h (map_idx_from maps 0 kaddr) refl,
)
  where
    unheld :
        ((k : ℕ) (map : MemMap) → get_elem? maps k ≡ some map → map_holds map kaddr ≡ false)
        → (o : Option ℕ) → map_idx_from maps 0 kaddr ≡ o
        → lightrec_get_map maps kaddr ≡ none
    unheld h none e = rw (lightrec_get_map, lightrec_get_map_idx, e) refl
    unheld h (some j) e =
        let f = found_from maps 0 kaddr j e in
        absurd (let no = h f.0 f.2.map f.2.at in let yes = f.2.holds in cc (no, yes))
