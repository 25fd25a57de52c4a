-- ===== src/Emu.antt =====
-- The emulator's own programs: spdm_emu/spdm_emu_common.
pub mod Socket
pub mod Io
pub mod Command
pub mod Buffer
pub mod NvStorage
pub mod Args
pub mod Pcap
mod Tests
