-- ===== src/PciIde.antt =====
-- PCIe IDE key management: library/pci_ide_km_device_lib_sample, pci_ide_km_responder_lib and
-- pci_ide_km_requester_lib.
pub mod Messages
pub mod Device
pub mod Responder
pub mod Requester
pub mod Keys
pub mod Exchange
mod Tests
