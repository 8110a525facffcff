-- ===== src/Inspector.antt =====
-- Project1/inspector.c: what it shows of the machine, from the files of the proc file system.
pub mod Run
pub mod Options
pub mod Fields
pub mod Uptime
pub mod Progress
pub mod System
pub mod Hardware
pub mod Tasks
pub mod Main
mod Tests
