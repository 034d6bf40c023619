-- ===== src/Examples.antt =====
-- The theorems at concrete registers, words and opcodes.
mod Cases
mod Whole
mod Runs
mod Cache
mod Slots
mod Machines
mod Accesses
mod Lists
mod Regions
mod Registers
mod Rewrites
