-- ===== src/CxlIde.antt =====
-- CXL IDE key management: library/cxl_ide_km_device_lib_sample, cxl_ide_km_responder_lib and
-- cxl_ide_km_requester_lib.
pub mod Messages
pub mod Device
pub mod Responder
pub mod Requester
pub mod Exchange
mod Tests
