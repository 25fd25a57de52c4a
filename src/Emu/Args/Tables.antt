-- ===== src/Emu/Args/Tables.antt =====
-- The tables of names of spdm_emu/spdm_emu_common/spdm_emu.c.
mod Algorithms
mod Capabilities
mod Modes
pub use Algorithms.*
pub use Capabilities.*
pub use Modes.*
