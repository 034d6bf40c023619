-- ===== src/Constprop/Region.antt =====
-- constprop.c: the map that an access through a known register falls into.
use lightrec.Base.{
  ℕ, ◌+◌, ◌==◌, ◌&&◌, not, if◌then◌else◌, Option, none, some, List, [], ◌∷◌, bit_and, add32, sext16,
}
use lightrec.Blockcache.Geometry.{kunseg}
use lightrec.Memory.{MemMap, map_holds}
use lightrec.Constprop.Data.{ConstpropData, get_min_value, get_max_value}

-- The loop over the maps, from index `i` on.
unfoldable pub range_map_from : List MemMap → ℕ → ℕ → ℕ → Option ℕ
unfolding map_holds
range_map_from [] i min max = none
range_map_from (map ∷ maps) i min max =
    let rest = range_map_from maps (i + 1) min max in
    if map_holds map min && map_holds map max then some i else rest

unfoldable pub lightrec_get_constprop_map : List MemMap → ConstpropData → ℕ → Option ℕ
unfolding get_min_value get_max_value add32 sext16 kunseg range_map_from
lightrec_get_constprop_map maps d imm =
    let min = add32 (get_min_value d) (sext16 imm) in
    let max = add32 (get_max_value d) (sext16 imm) in
    if not (bit_and min 0xe0000000 == bit_and max 0xe0000000)
    then none
    else range_map_from maps 0 (kunseg min) (kunseg max)
