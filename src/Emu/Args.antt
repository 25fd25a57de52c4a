-- ===== src/Emu/Args.antt =====
-- spdm_emu/spdm_emu_common/spdm_emu.c: the command line of the two programs.
pub mod Names
pub mod Tables
pub mod Globals
pub mod Branches
pub mod Options
pub mod Process
pub mod Runs
pub mod Flags
mod Tests
