-- ===== src/Memory/Maps.antt =====
-- lightrec.c and lightrec.h: the memory maps, and `lightrec_invalidate`.
use lightrec.Base.{
  ℕ, zero, suc, ◌+◌, ◌-◌, Bool, ◌&&◌, ◌==◌, if◌then◌else◌, leb, ltb, Option, none, some, List, [],
  ◌∷◌, length, get_elem?, bit_and, lnot, add32,
}
use lightrec.Execution.Machine.{Machine}
use lightrec.Blockcache.Geometry.{kunseg, ram_size}
use lightrec.Blockcache.Invalidate.{lightrec_invalidate_blocks}

-- `struct lightrec_mem_map_ops`: opcode, host address, guest address, data word. A load answers with a
-- number of its width.
pub record MemMapOps : Type 0 where
  pub sb : ℕ → ℕ → ℕ → ℕ → Machine → Machine
  pub sh : ℕ → ℕ → ℕ → ℕ → Machine → Machine
  pub sw : ℕ → ℕ → ℕ → ℕ → Machine → Machine
  pub lb : ℕ → ℕ → ℕ → Machine → ℕ × Machine
  pub lh : ℕ → ℕ → ℕ → Machine → ℕ × Machine
  pub lw : ℕ → ℕ → ℕ → Machine → ℕ × Machine
  pub lwu : ℕ → ℕ → ℕ → Machine → ℕ × Machine
  pub swu : ℕ → ℕ → ℕ → ℕ → Machine → Machine

-- `struct lightrec_mem_map`; `mirror_of` points at another place of the array.
pub record MemMap : Type 0 where
  pub pc : ℕ
  pub length : ℕ
  pub address : ℕ
  pub ops : Option MemMapOps
  pub mirror_of : Option ℕ

abbrev pub psx_map_kernel_user_ram : ℕ
psx_map_kernel_user_ram = 0

abbrev pub psx_map_parallel_port : ℕ
psx_map_parallel_port = 3

-- `PSX_MAP_MIRROR1` to `PSX_MAP_MIRROR3`.
abbrev pub psx_map_mirror1 : ℕ
psx_map_mirror1 = 6

abbrev pub psx_map_mirror3 : ℕ
psx_map_mirror3 = 8

unfoldable pub map_holds : MemMap → ℕ → Bool
unfolding add32
map_holds map kaddr = leb map.pc kaddr && ltb kaddr (add32 map.pc map.length)

-- The loop, from index `i` on; `none` is `PSX_MAP_UNKNOWN`.
unfoldable pub map_idx_from : List MemMap → ℕ → ℕ → Option ℕ
unfolding map_holds
map_idx_from [] i kaddr = none
map_idx_from (map ∷ maps) i kaddr =
    let rest = map_idx_from maps (i + 1) kaddr in if map_holds map kaddr then some i else rest

unfoldable pub lightrec_get_map_idx : List MemMap → ℕ → Option ℕ
unfolding map_idx_from
lightrec_get_map_idx maps kaddr = map_idx_from maps 0 kaddr

-- `while (map->mirror_of)`, on fuel; `none` if it runs out or a pointer leaves the array.
unfoldable pub mirror_root : List MemMap → ℕ → ℕ → Option ℕ
mirror_root maps zero idx = none
mirror_root maps (suc fuel) idx = elim (get_elem? maps idx) [
  | none ↦ none
  | some map ↦ elim map.mirror_of [ none ↦ some idx | some next ↦ mirror_root maps fuel next ]
]

-- The index of the map that an address resolves to, and the host address.
unfoldable pub root_of : List MemMap → ℕ → ℕ → Option (ℕ × ℕ)
unfolding mirror_root
root_of maps idx offset = elim (mirror_root maps (length maps) idx) [
  | none ↦ none
  | some root ↦ elim (get_elem? maps root) [
    | none ↦ none
    | some map ↦ some (root, map.address + offset)
  ]
]

unfoldable pub lightrec_get_map : List MemMap → ℕ → Option (ℕ × ℕ)
unfolding lightrec_get_map_idx root_of
lightrec_get_map maps kaddr = elim (lightrec_get_map_idx maps kaddr) [
  | none ↦ none
  | some idx ↦ elim (get_elem? maps idx) [
    | none ↦ none
    | some map ↦ root_of maps idx (kaddr - map.pc)
  ]
]

unfoldable pub invalidate_range : ℕ → ℕ → Machine → Machine
unfolding lightrec_invalidate_blocks
invalidate_range kaddr len m = record m {
  block_cache = record m.block_cache {
    code_lut = lightrec_invalidate_blocks m.block_cache kaddr len;
  };
}

unfoldable pub lightrec_invalidate : List MemMap → ℕ → ℕ → Machine → Machine
unfolding kunseg lnot lightrec_get_map_idx invalidate_range
lightrec_invalidate maps addr len m =
    let kaddr = kunseg (bit_and addr (lnot 3)) in
    elim (lightrec_get_map_idx maps kaddr) [
      | none ↦ m
      | some idx ↦
          if leb psx_map_mirror1 idx && leb idx psx_map_mirror3
          then invalidate_range (bit_and kaddr (ram_size - 1)) len m
          else if idx == psx_map_kernel_user_ram
          then invalidate_range kaddr len m
          else m
    ]
