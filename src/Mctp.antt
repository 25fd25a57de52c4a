-- ===== src/Mctp.antt =====
-- MCTP and PLDM: library/mctp_requester_lib and library/mctp_responder_lib.
pub mod Messages
pub mod Responder
pub mod Requester
pub mod Exchange
mod Tests
