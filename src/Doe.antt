-- ===== src/Doe.antt =====
-- PCI DOE: library/pci_doe_responder_lib.
pub mod Vendor
pub mod Dispatch
pub mod Registered
pub mod Unanswered
pub mod Init
pub mod Discovery
pub mod Exchange
mod Tests
