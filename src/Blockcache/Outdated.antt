-- ===== src/Blockcache/Outdated.antt =====
-- blockcache.c: the hash of a block's code, and `lightrec_block_is_outdated`.
use lightrec.Base.{
  ℕ, ◌≡◌, ◌≢◌, ◌⊎◌, Bool, true, false, not, ◌==◌, if◌then◌else◌, List, [], ◌∷◌, add32, shl, shr,
  bit_xor, ==_cases, ==_refl, inl, inr, refl, arith,
}
use lightrec.Blockcache.Geometry.{lut_offset}

-- The members of `struct block` that the two functions read: `code` holds the words of the guest, and
-- `function` is 0 if there is none.
pub record HashedBlock : Type 0 where
  pub pc : ℕ
  pub code : List ℕ
  pub hash : ℕ
  pub function : ℕ

unfoldable pub hash_word : ℕ → ℕ → ℕ
unfolding add32 shl shr
hash_word hash word = let a = add32 hash word in let b = add32 a (shl a 10) in bit_xor b (shr b 6)

unfoldable pub hash_code : ℕ → List ℕ → ℕ
unfolding hash_word
hash_code hash [] = hash
hash_code hash (word ∷ code) = hash_code (hash_word hash word) code

unfoldable pub finish_hash : ℕ → ℕ
unfolding add32 shl shr
finish_hash hash =
    let a = add32 hash (shl hash 3) in let b = bit_xor a (shr a 11) in add32 b (shl b 15)

unfoldable pub lightrec_calculate_block_hash : List ℕ → ℕ
unfolding hash_code finish_hash
lightrec_calculate_block_hash code = finish_hash (hash_code 0xffffffff code)

-- The answer and the code index after it; `get_next_block` is the dispatcher's entry.
unfoldable pub lightrec_block_is_outdated : ℕ → HashedBlock → (ℕ → ℕ) → Bool × (ℕ → ℕ)
unfolding lut_offset lightrec_calculate_block_hash
lightrec_block_is_outdated get_next_block b lut =
    let offset = lut_offset b.pc in
    let entry = if b.function == 0 then get_next_block else b.function in
    if not (lut offset == 0)
    then (false, lut)
    else if not (b.hash == lightrec_calculate_block_hash b.code)
    then (true, lut)
    else (false, λ i. if offset == i then entry else lut i)

live_entry :
    (next : ℕ) (b : HashedBlock) (lut : ℕ → ℕ)
    → lut (lut_offset b.pc) ≢ 0
    → lightrec_block_is_outdated next b lut ≡ (false, lut)
unfolding lightrec_block_is_outdated
live_entry next b lut h = elim (==_cases (lut (lut_offset b.pc)) 0) [
  | inl z ↦ absurd (h z)
  | inr ne ↦ rw ne refl
]

-- The code index with the entry that a call writes.
abbrev restored : ℕ → HashedBlock → (ℕ → ℕ) → ℕ → ℕ
restored next b lut i =
    if lut_offset b.pc == i then (if b.function == 0 then next else b.function) else lut i

lost_entry :
    (next : ℕ) (b : HashedBlock) (lut : ℕ → ℕ)
    → lut (lut_offset b.pc) ≡ 0
    → b.hash ≡ lightrec_calculate_block_hash b.code
    → lightrec_block_is_outdated next b lut ≡ (false, restored next b lut)
unfolding lightrec_block_is_outdated
lost_entry next b lut z same = rw (z, same, ==_refl (lightrec_calculate_block_hash b.code)) refl

restored-nonzero :
    (next : ℕ) (b : HashedBlock) (lut : ℕ → ℕ)
    → next ≢ 0
    → restored next b lut (lut_offset b.pc) ≢ 0
restored-nonzero next b lut h =
    rw (==_refl (lut_offset b.pc)) (elim (==_cases b.function 0) [
      | inl z ↦ rw z h
      | inr ne ↦ rw ne (λ e. ground (arith, e, ne))
    ])

restored-ne :
    (next : ℕ) (b : HashedBlock) (lut : ℕ → ℕ) (i : ℕ)
    → lut_offset b.pc ≢ i
    → restored next b lut i ≡ lut i
restored-ne next b lut i h = ground arith

hash_differs :
    (b : HashedBlock)
    → b.hash ≢ lightrec_calculate_block_hash b.code
    → (b.hash == lightrec_calculate_block_hash b.code) ≡ false
hash_differs b ne = ground arith

changed_code :
    (next : ℕ) (b : HashedBlock) (lut : ℕ → ℕ)
    → lut (lut_offset b.pc) ≡ 0
    → b.hash ≢ lightrec_calculate_block_hash b.code
    → lightrec_block_is_outdated next b lut ≡ (true, lut)
unfolding lightrec_block_is_outdated
changed_code next b lut z ne = rw (z, hash_differs b ne) refl

-- The code at the block's address is not what was compiled, and no entry vouches for it.
abbrev pub IsStale : HashedBlock → (ℕ → ℕ) → Type 0
IsStale b lut = (lut (lut_offset b.pc) ≡ 0) × (b.hash ≢ lightrec_calculate_block_hash b.code)

-- The block has an entry in `after`, where `before` is the same elsewhere, and later calls say no and
-- leave the index alone, whatever has become of the code.
pub record IsSettled (next : ℕ) (b : HashedBlock) (before after : ℕ → ℕ) : Type 0 where
  pub live : after (lut_offset b.pc) ≢ 0
  pub elsewhere : (i : ℕ) → lut_offset b.pc ≢ i → after i ≡ before i
  pub again :
      (code : List ℕ)
      → lightrec_block_is_outdated next (record b { code = code }) after ≡ (false, after)

-- A block is outdated exactly when the code index has no entry for it and its code does not have the
-- hash that was taken of it; the index is then left alone. Otherwise the block has an entry afterwards,
-- no other entry changes, and later calls say no and leave the index alone, whatever has become of
-- the code. Condition: the entry of the dispatcher is not null.
pub is_outdated_settles :
    (get_next_block : ℕ) (b : HashedBlock) (lut : ℕ → ℕ)
    → get_next_block ≢ 0
    → let r = lightrec_block_is_outdated get_next_block b lut in
      ((r ≡ (true, lut)) × IsStale b lut)
      ⊎ ((r.0 ≡ false) × (¬ IsStale b lut) × IsSettled get_next_block b lut r.1)
is_outdated_settles get_next_block b lut some_next = elim (==_cases (lut (lut_offset b.pc)) 0) [
  | inr there ↦
      let live : lut (lut_offset b.pc) ≢ 0 = λ e. ground (arith, e, there) in
      rw (live_entry get_next_block b lut live) (
        inr (
          refl,
          λ stale. live stale.0,
          record {
            live = live;
            elsewhere = λ i ne. refl;
            again = λ code. live_entry get_next_block (record b { code = code }) lut live;
          },
        ))
  | inl gone ↦ elim (==_cases b.hash (lightrec_calculate_block_hash b.code)) [
    | inl same ↦
        let live = restored-nonzero get_next_block b lut some_next in
        rw (lost_entry get_next_block b lut gone same) (
          inr (
            refl,
            λ stale. stale.1 same,
            record {
              live = live;
              elsewhere = restored-ne get_next_block b lut;
              again = λ code.
                  live_entry get_next_block (record b { code = code })
                    (restored get_next_block b lut) live;
            },
          ))
    | inr differs ↦
        let ne : b.hash ≢ lightrec_calculate_block_hash b.code = λ e. ground (arith, e, differs) in
        rw (changed_code get_next_block b lut gone ne) (inl (refl, (gone, ne)))
  ]
]
