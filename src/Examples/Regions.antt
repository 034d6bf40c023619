-- ===== src/Examples/Regions.antt =====
-- The theorem on the map of an access, at a register that is known.
use lightrec.Base.{◌≡◌, true, arith, some, get_elem?, add32, lnot, sext16, refl}
use lightrec.Base.Bits.{bit}
use lightrec.Blockcache.Geometry.{kunseg}
use lightrec.Constprop.Data.{get_min_value, get_max_value, constant}
use lightrec.Constprop.Describes.{constant-Describes}
use lightrec.Constprop.Region.{lightrec_get_constprop_map, range_map_from}
use lightrec.Constprop.RegionSound.{get_constprop_map-holds}
use lightrec.Memory.{MemMap, map_holds, block_effective_address}
use lightrec.Examples.Accesses.{maps}

get_constprop_map-holds_example :
    (map : MemMap) × (get_elem? maps 1 ≡ some map)
    × (map_holds map (block_effective_address 0x80200010 4) ≡ true)
unfolding lightrec_get_constprop_map range_map_from get_min_value get_max_value map_holds kunseg
    lnot add32 sext16 bit
get_constprop_map-holds_example =
    get_constprop_map-holds maps (constant 0x80200010) 0x80200010 4 1
      (constant-Describes 0x80200010 (omega arith)) refl refl refl
