-- ===== src/Interpreter.antt =====
-- interpreter.c.
pub mod Regs
pub mod Alu
pub mod Table
pub mod Words
pub mod Link
pub mod Frame
pub mod Reads
pub mod OnlyZero
pub mod Nop
pub mod Branch
