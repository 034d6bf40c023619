-- ===== src/Passes/Casts.antt =====
-- optimizer.c: `lightrec_optimize_sll_sra`, which turns a shift left and a shift right into a cast.
use lightrec.Base.{
  ℕ, ◌+◌, ◌-◌, ◌==◌, Bool, true, false, not, ◌&&◌, ◌||◌, if◌then◌else◌, Option, none, some, List,
  length, get_elem?, shl,
}
use lightrec.Isa.{
  Code, Opcode, Standard, Special, rt, rd, r_imm, op_of, special_of, set_i_op, set_rs, set_rt,
  set_rd, set_m_op,
}
use lightrec.Constprop.Data.{Consts, set_const}
use lightrec.Optimizer.Search.{Search, found, absent, past_end}
use lightrec.Optimizer.{
  is_delay_slot, find_next_reader, find_prev_writer, reg_is_dead, reg_is_read_or_written,
}
use lightrec.Passes.Marks.{update_at}
use lightrec.Passes.Lui.{is_special}

infixl 5 ◌>>=◌
abbrev ◌>>=◌ {ℓ κ} : {A : Type ℓ} {B : Type κ} → Option A → (A → Option B) → Option B
none >>= f = none
some a >>= f = f a

abbrev is_sra : Special → Bool
is_sra Special.sra = true
is_sra _ = false

abbrev is_lhu : Standard → Bool
is_lhu Standard.lhu = true
is_lhu _ = false

abbrev is_lbu : Standard → Bool
is_lbu Standard.lbu = true
is_lbu _ = false

-- `next` is a shift right of what `curr` leaves, by as many bits.
unfoldable pub is_cast_end : Code → Code → Bool
is_cast_end curr next =
    is_special (op_of next)
    && is_sra (special_of next)
    && r_imm next == r_imm curr
    && rt next == rd curr

-- The pair of codes with rZ for rY, where there is a middle register rY; `none` if it is needed.
unfoldable pub without_middle : List Opcode → ℕ → ℕ → Code → Code → Option (Option (Code × Code))
unfolding reg_is_dead reg_is_read_or_written set_rd set_rt
without_middle list offset idx curr next =
    if not (rd curr == rt curr) && not (rd next == rt next)
    then (do
      dead ← reg_is_dead list (length list) idx (rd curr)
      busy ← (if dead then reg_is_read_or_written list offset idx (rd next) else some true)
      some (if busy then none else some (set_rd (rd next) curr, set_rt (rd next) next)))
    else some (some (curr, next))

-- The list and the array `v` while a cast is made.
pub record Cast : Type 0 where
  pub list : List Opcode
  pub consts : Consts

unfoldable pub with_code : ℕ → Code → List Opcode → List Opcode
unfolding update_at
with_code i c list = update_at i (λ op. record op { c = c }) list

-- `op->i.op = OP_LH` or `OP_LB`, for the load that a cast may join, if it may.
unfoldable pub signed_load : Code → Code → Option Code
unfolding set_i_op
signed_load curr load =
    if r_imm curr == 16 && is_lhu (op_of load)
    then some (set_i_op 0x21 load)
    else if r_imm curr == 24 && is_lbu (op_of load)
    then some (set_i_op 0x20 load)
    else none

-- The entry of a register that holds a signed byte or halfword.
unfoldable pub sign_entry : ℕ → ℕ → Consts → Consts
unfolding set_const shl
sign_entry reg imm v =
    set_const reg (record (v reg) { known = 0; sign = shl 0xffffff80 (24 - imm) }) v

-- "Convert SLL/SRA to EXT".
unfoldable pub to_ext : Code → Code → Code
unfolding set_rs set_m_op set_i_op
to_ext curr c =
    set_i_op 0x3c (set_m_op (if r_imm curr == 24 then 0x01 else 0x02) (set_rs (rt curr) c))

-- The cast joined to the load at `idx2`, which has become `load`. `curr->r.imm` is read again after the
-- opcode `change` has been cleared: it is 0 then, if that opcode is `curr`.
unfoldable pub join_load : ℕ → ℕ → ℕ → Code → Code → Code → Cast → Option Cast
unfolding reg_is_dead reg_is_read_or_written with_code sign_entry set_const set_rt set_rs set_rd
    set_m_op set_i_op
join_load idx idx2 change curr next load cast =
    let changed = with_code idx2 load cast.list in
    let amount = if change == idx then r_imm curr else 0 in
    if rd next == rt load
    then some (record {
      list = with_code change 0 changed;
      consts = sign_entry (rt load) amount cast.consts;
    })
    else do
      dead ← reg_is_dead changed (length changed) idx (rt load)
      busy ← (if dead then reg_is_read_or_written changed (idx2 + 1) idx (rd next) else some true)
      let forgotten = record (cast.consts (rt load)) { known = 0; sign = 0 }
      let moved = set_i_op 0x3c (
          set_m_op 0x00
            (set_rs (rt load) (set_rd (rd next) (if change == idx then next else curr))))
      some (
          if not busy
          then record {
            list = with_code change 0 (with_code idx2 (set_rt (rd next) load) changed);
            consts = sign_entry (rd next) amount (set_const (rt load) forgotten cast.consts);
          }
          else record {
            list = with_code change moved changed;
            consts = sign_entry (rt load) (r_imm curr) cast.consts;
          })

-- `ldop`, if the value of the load at `idx2` is not needed but for the cast, and it can be signed.
unfoldable pub joined_load : List Opcode → ℕ → Code → Code → Search → Option (Option (ℕ × Code))
unfolding reg_is_dead signed_load
joined_load list idx curr next past_end = none
joined_load list idx curr next absent = some none
joined_load list idx curr next (found idx2) = elim (get_elem? list idx2) [
  | none ↦ none
  | some ldop ↦ do
    dead ←
        (if rd next == rt ldop.c then some true else reg_is_dead list (length list) idx (rt ldop.c))
    let signed = signed_load curr ldop.c
    some (if dead then elim signed [ none ↦ none | some load ↦ some (idx2, load) ] else none)
]

-- The cast of the pair at `offset` and `idx`: `change` becomes the cast, `nop` a no-op.
unfoldable pub make_cast : ℕ → ℕ → ℕ → ℕ → Code → Code → Cast → Option Cast
unfolding find_prev_writer joined_load join_load with_code to_ext
make_cast offset idx change nop curr next cast = do
  joined ← joined_load cast.list idx curr next (find_prev_writer cast.list offset (rt curr))
  done ← elim joined [
    | none ↦ some (record cast {
      list = with_code change (to_ext curr (if change == idx then next else curr)) cast.list;
    })
    | some (idx2, load) ↦ join_load idx idx2 change curr next load cast
  ]
  some (record done { list = with_code nop 0 done.list })

-- The pair, once it has no middle register.
unfoldable pub cast_pair : ℕ → ℕ → Code → Code → Cast → Option Cast
unfolding with_code reg_is_dead make_cast
cast_pair offset idx curr next cast =
    let list = with_code idx next (with_code offset curr cast.list) in
    let kept = record cast { list = list } in
    if rd curr == rt curr
    then (do
      dead ←
          (if rd curr == rd next then some true else reg_is_dead list (length list) idx (rd curr))
      (if dead then make_cast offset idx idx offset curr next kept else some kept))
    else make_cast offset idx offset idx curr next kept

unfoldable pub sll_sra_at : ℕ → Code → Cast → Search → Option Cast
unfolding is_cast_end without_middle cast_pair
sll_sra_at offset curr cast past_end = none
sll_sra_at offset curr cast absent = some cast
sll_sra_at offset curr cast (found idx) = elim (get_elem? cast.list idx) [
  | none ↦ none
  | some next ↦ if not (is_cast_end curr next.c) then some cast else do
    pair ← without_middle cast.list offset idx curr next.c
    elim pair [ none ↦ some cast | some (c, d) ↦ cast_pair offset idx c d cast ]
]

-- `none` is a read past the end of the list.
unfoldable pub lightrec_optimize_sll_sra : ℕ → Code → Cast → Option Cast
unfolding is_delay_slot find_next_reader sll_sra_at
lightrec_optimize_sll_sra offset curr cast =
    let made =
      sll_sra_at offset curr cast
        (find_next_reader cast.list (length cast.list) (offset + 1) (rd curr)) in
    if not (r_imm curr == 24) && not (r_imm curr == 16) || is_delay_slot cast.list offset
    then some cast
    else made
