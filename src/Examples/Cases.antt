-- ===== src/Examples/Cases.antt =====
-- The theorems on single cases of the switch, at concrete entries and words.
use lightrec.Base.{◌≡◌, false, arith, any_bit, lnot, sext16}
use lightrec.Constprop.Data.{ConstpropData}
use lightrec.Constprop.Describes.{Describes, forget-Describes}
use lightrec.Constprop.Shift.{andi_consts, upper_sign, ori_consts, exts_consts}
use lightrec.Constprop.Add.{addi_loop}
use lightrec.Constprop.Rounds.{addi_loop-rounds}
use lightrec.Constprop.Sound.Immediate.{andi-Describes, ori-Describes}
use lightrec.Constprop.Sound.Extend.{exts-Describes}

-- Nothing is known.
abbrev unknown_word : ConstpropData
unknown_word = record { value = 0; known = 0; sign = 0 }

-- All but the lowest digits are known.
abbrev pub nibble : ConstpropData
nibble = record { value = 0; known = 0xfffffff0; sign = 0 }

-- Some lower digits are known, and the upper ones copy the sign.
abbrev pub narrow : ConstpropData
narrow = record { value = 5; known = 5; sign = 0xffff0000 }

-- The upper digits copy the sign.
abbrev half : ConstpropData
half = record { value = 0; known = 0; sign = 0xffff8000 }

pub nibble-Describes : Describes nibble 5
unfolding andi_consts lnot
nibble-Describes =
    andi-Describes (forget-Describes unknown_word 0x7ff5 (omega arith) (omega arith)) 0xf
      (omega arith)

half-Describes : Describes half 0xfffff000
unfolding exts_consts any_bit sext16
half-Describes = exts-Describes (forget-Describes unknown_word 0xf000 (omega arith) (omega arith))

pub narrow-Describes : Describes narrow 0xfffff005
unfolding ori_consts upper_sign any_bit
narrow-Describes = ori-Describes half-Describes 5 (omega arith)

addi_loop-rounds_example :
    addi_loop 32 0 false 32 narrow 5 nibble nibble ≡ addi_loop 40 0 false 32 narrow 5 nibble nibble
addi_loop-rounds_example =
    addi_loop-rounds 32 40 0 false 32 narrow 5 nibble nibble (omega arith) (omega arith)
