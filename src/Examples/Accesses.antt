-- ===== src/Examples/Accesses.antt =====
-- The theorems on memory accesses, at two maps, the second a mirror of the first.
use lightrec.Base.{
  ℕ, zero, suc, ◌-◌, ◌+◌, true, false, ◌≡◌, arith, some, none, List, [], ◌∷◌, get_elem?, refl, sym,
  any_bit, bit_or, add32, lnot, subst, sext16,
}
use lightrec.Isa.{i_imm}
use lightrec.Blockcache.Geometry.{kunseg}
use lightrec.Execution.Cycles.{exit_segfault}
use lightrec.Memory.{
  MemMap, map_holds, lightrec_get_map, RunningBlock, lightrec_rw, block_effective_address,
}
use lightrec.Memory.Lookup.{FirstHolder, Root, Mirrors, Descending, get_map-Root}
use lightrec.Memory.Fault.{rw_unmapped}
use lightrec.Memory.RoundTrip.{store_unaligned, load_unaligned, load-store_unaligned}
use lightrec.Examples.Machines.{machine}

abbrev pub ram : MemMap
ram = record { pc = 0; length = 0x200000; address = 0x10000; ops = none; mirror_of = none }

abbrev pub mirror : MemMap
mirror = record { pc = 0x200000; length = 0x200000; address = 0; ops = none; mirror_of = some 0 }

abbrev pub maps : List MemMap
maps = ram ∷ mirror ∷ []

next-injective : {x y : ℕ} → some x ≡ some y → x ≡ y
next-injective e = cc

map-injective : {x y : MemMap} → some x ≡ some y → x ≡ y
map-injective e = cc

maps-Descending : Descending maps
maps-Descending zero next map at m =
    let e = subst (λ (t : MemMap). t.mirror_of ≡ some next) (sym (map-injective at)) m in cc e
maps-Descending (suc zero) next map at m =
    let e = subst (λ (t : MemMap). t.mirror_of ≡ some next) (sym (map-injective at)) m in
    omega (arith, next-injective e)
maps-Descending (suc (suc k)) next map at m = cc at

load-store_unaligned_example :
    (load_unaligned maps 0 0x10001 1 9 (store_unaligned maps 0 0x10001 1 0x12345678 machine)).0
    ≡ 0x12345678
load-store_unaligned_example =
    load-store_unaligned maps 0 0x10001 1 0x12345678 9 machine (omega arith) (omega arith) refl

get_map-Root_example :
    (d : ℕ) × (first : FirstHolder maps 0x200010 d) × (root : ℕ) × (target : Root maps root)
    × Mirrors maps d root
    × (lightrec_get_map maps 0x200010 ≡ some (root, target.map.address + (0x200010 - first.map.pc)))
unfolding map_holds add32
get_map-Root_example = get_map-Root maps 0x200010 1 mirror maps-Descending refl refl

-- `lw r2, 4(r1)`.
abbrev lw_word : ℕ
lw_word = 0x8c220004

unheld :
    (k : ℕ) (map : MemMap)
    → get_elem? maps k ≡ some map
    → map_holds map (block_effective_address 0x400000 (i_imm lw_word)) ≡ false
unfolding map_holds add32 block_effective_address i_imm kunseg sext16 lnot
unheld zero map at =
    subst (λ t. map_holds t (block_effective_address 0x400000 (i_imm lw_word)) ≡ false)
      (map-injective at) refl
unheld (suc zero) map at =
    subst (λ t. map_holds t (block_effective_address 0x400000 (i_imm lw_word)) ≡ false)
      (map-injective at) refl
unheld (suc (suc k)) map at = cc at

abbrev running : RunningBlock
running = record { pc = 0x1000; flags = 0 }

rw_unmapped_example :
    let r = lightrec_rw maps lw_word 0x400000 0 (some 0) running machine in
    (any_bit r.machine.exit_flags exit_segfault ≡ true)
    × (r.machine ≡ record machine {
      exit_flags = bit_or machine.exit_flags exit_segfault;
      target_cycle = machine.current_cycle;
    })
    × (r.word ≡ 0)
    × (r.flags ≡ some 0)
rw_unmapped_example =
    rw_unmapped maps lw_word 0x400000 0 (some 0) running machine maps-Descending unheld
