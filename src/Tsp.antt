-- ===== src/Tsp.antt =====
-- CXL TSP: library/cxl_tsp_device_lib_sample, library/cxl_tsp_responder_lib and
-- library/cxl_tsp_requester_lib.
pub mod Messages
pub mod Device
pub mod Validate
pub mod Responder
pub mod Trace
pub mod Control
pub mod Replies
pub mod Entries
pub mod Acceptance
pub mod Configured
pub mod Portion
pub mod Sessions
pub mod Checks
pub mod Calls
pub mod Agreement
pub mod Exchange
pub mod Session
pub mod Report
pub mod Tests
