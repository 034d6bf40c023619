-- ===== src/Constprop/Sound.antt =====
-- The entries that the switch computes describe what the interpreter's handlers compute.
pub mod Logic
pub mod Carry
pub mod Below
pub mod Sums
pub mod SignMask
pub mod Shift
pub mod Immediate
pub mod Extend
pub mod Compare
pub mod MultDiv
pub mod Step
pub mod Addition
pub mod Covered
pub mod NotTaken
pub mod Whole
