-- ===== src/Tdisp.antt =====
-- PCIe TDISP: library/pci_tdisp_device_lib_sample, pci_tdisp_responder_lib, pci_tdisp_requester_lib.
pub mod Messages
pub mod Device
pub mod Responder
pub mod Machine
pub mod Trace
pub mod Nonce
pub mod Portion
pub mod Requester
pub mod Reassembly
pub mod Stall
pub mod Valid
pub mod Admission
pub mod Handshake
pub mod Calls
mod Tests
