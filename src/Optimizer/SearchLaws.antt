-- ===== src/Optimizer/SearchLaws.antt =====
-- optimizer.c: what the searches find.
use lightrec.Base.{
  ℕ, zero, suc, ◌-◌, ◌<◌, ◌≡◌, arith, Bool, true, false, ◌&&◌, ◌||◌, ltb, Option, none, some, List,
  get_elem?, Bool-cases, inl, inr, ==_cases, refl, sym, ◌∙◌,
}
use lightrec.Isa.{Opcode, op_flag_sync}
use lightrec.Optimizer.Masks.{opcode_reads_register, opcode_writes_register}
use lightrec.Optimizer.Queries.{has_delay_slot}
use lightrec.Optimizer.Search.{found, at_is, prev_writer, find_prev_writer}

-- Neither reads nor writes the register, and control runs through it.
pub record PassesBy (op : Opcode) (reg : ℕ) : Type 0 where
  pub unread : opcode_reads_register op.c reg ≡ false
  pub unwritten : opcode_writes_register op.c reg ≡ false
  pub straight : has_delay_slot op.c ≡ false
  pub unsynced : op_flag_sync op.flags ≡ false

-- The opcode at `j` writes the register, and those from there up to `i` pass it by.
pub record LastWriter (list : List Opcode) (i reg j : ℕ) : Type 0 where
  pub before : j < i
  pub writes : at_is list j (λ op. opcode_writes_register op.c reg) ≡ true
  pub between : (k : ℕ) (op : Opcode) → j < k → k < i → get_elem? list k ≡ some op → PassesBy op reg

some-injective : {x y : Opcode} → some x ≡ some y → x ≡ y
some-injective e = cc

or_false : (a b c : Bool) → (a || b || c) ≡ false → (a ≡ false) × (b ≡ false) × (c ≡ false)
or_false a b c h = ground arith

found-injective : {i j : ℕ} → found i ≡ found j → i ≡ j
found-injective e = cc

-- One round of the search, from what the rest of it finds.
prev_writer_step :
    (list : List Opcode) (i reg j : ℕ) (op : Opcode)
    → get_elem? list i ≡ some op
    → (prev_writer list i reg ≡ found j → LastWriter list i reg j)
    → prev_writer list (suc i) reg ≡ found j
    → LastWriter list (suc i) reg j
unfolding prev_writer
prev_writer_step list i reg j op e rest h = elim (Bool-cases (opcode_writes_register op.c reg)) [
  | inl w ↦ elim (Bool-cases (ltb 0 i && at_is list (i - 1) (λ prev. has_delay_slot prev.c))) [
    | inl slot ↦ absurd (let h' = rw (prev_writer, e, w, slot) at h in cc)
    | inr plain ↦
        let same : i ≡ j = found-injective (rw (prev_writer, e, w, plain) at h) in
        record {
          before = omega arith;
          writes = rw (← same, at_is, e) w;
          between = λ k op' lo hi at. absurd (omega (arith, same));
        }
  ]
  | inr nw ↦
      elim (Bool-cases
        (op_flag_sync op.flags || has_delay_slot op.c || opcode_reads_register op.c reg)) [
          | inl stop ↦ absurd (let h' = rw (prev_writer, e, nw, stop) at h in cc)
          | inr go ↦
              let r = rest (rw (prev_writer, e, nw, go) at h) in
              let f =
                or_false (op_flag_sync op.flags) (has_delay_slot op.c)
                  (opcode_reads_register op.c reg) go in
              record {
                before = omega (arith, r.before);
                writes = r.writes;
                between = λ k op' lo hi at. elim (==_cases k i) [
                  | inl same ↦
                      let here : op ≡ op' = some-injective (sym e ∙ rw same at at) in
                      rw (← here)
                        (record { unread = f.2; unwritten = nw; straight = f.1; unsynced = f.0 })
                  | inr ne ↦ r.between k op' lo (ground arith) at
                ];
              }
        ]
]

prev_writer-LastWriter :
    (list : List Opcode) (i reg j : ℕ) → prev_writer list i reg ≡ found j → LastWriter list i reg j
unfolding prev_writer
prev_writer-LastWriter list zero reg j h = absurd cc
prev_writer-LastWriter list (suc i) reg j h =
    go (get_elem? list i) refl (prev_writer-LastWriter list i reg j)
  where
    go :
        (o : Option Opcode)
        → get_elem? list i ≡ o
        → (prev_writer list i reg ≡ found j → LastWriter list i reg j)
        → LastWriter list (suc i) reg j
    go none e rest = absurd (let h' = rw (prev_writer, e) at h in cc)
    go (some op) e rest = prev_writer_step list i reg j op e rest h

-- What `find_prev_writer` finds is the last writer of the register before the offset: the opcodes
-- from there to the offset neither read nor write it, have no delay slot, and are no branch targets.
pub find_prev_writer-LastWriter :
    (list : List Opcode) (offset reg j : ℕ)
    → find_prev_writer list offset reg ≡ found j
    → LastWriter list offset reg j
unfolding find_prev_writer
find_prev_writer-LastWriter list offset reg j h = go (get_elem? list offset) refl
  where
    go : (o : Option Opcode) → get_elem? list offset ≡ o → LastWriter list offset reg j
    go none e = absurd (let h' = rw (find_prev_writer, e) at h in cc)
    go (some op) e = elim (Bool-cases (op_flag_sync op.flags)) [
      | inl y ↦ absurd (let h' = rw (find_prev_writer, e, y) at h in cc)
      | inr n ↦ prev_writer-LastWriter list offset reg j (rw (find_prev_writer, e, n) at h)
    ]
