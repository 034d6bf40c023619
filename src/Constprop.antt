-- ===== src/Constprop.antt =====
-- constprop.c and constprop.h: what is known of each register before an opcode runs.
pub mod Data
pub mod Shift
pub mod Add
pub mod Rounds
pub mod Compare
pub mod Switch
pub mod Propagate
pub mod Describes
pub mod Sound
pub mod Divergence
pub mod Region
pub mod RegionSound
