-- ===== src/Mctp/Messages.antt =====
-- The messages of MCTP and PLDM as mctp_requester_lib and mctp_responder_lib read and write them. The
-- structures and numbers are declared by libspdm's industry_standard/mctp.h and pldm.h: they are the
-- fields of `Pldm`.
use spdm_emu.Prelude.{ℕ, ◌≡◌, ◌≢◌, ◌≤◌, ◌<◌, bit_and, bit_or}

-- A message behind its `mctp_message_header_t`.
pub record Mctp (A : Type 0) : Type 0 where
  pub message_type : ℕ
  pub body : A

-- `pldm_message_header_t`, which is the whole of a `pldm_get_tid_request_t`.
pub record PldmHeader : Type 0 where
  pub instance_id : ℕ
  pub pldm_type : ℕ
  pub pldm_command_code : ℕ

-- `pldm_get_tid_response_t`
pub record TidResponse : Type 0 where
  pub pldm_header : PldmHeader
  pub pldm_completion_code : ℕ
  pub tid : ℕ

-- MCTP_MAX_MESSAGE_SIZE
abbrev pub mctp_max_message_size : ℕ
mctp_max_message_size = 0x100

pub record Pldm : Type 0 where
  pub message_type_pldm : ℕ
  pub mctp_header_size : ℕ
  pub request_mask : ℕ
  pub datagram_mask : ℕ
  pub instance_id_mask : ℕ
  pub version_mask : ℕ
  pub type_mask : ℕ
  pub header_version : ℕ
  pub control_discovery : ℕ
  pub get_tid : ℕ
  pub base_code_success : ℕ
  pub pldm_header_size : ℕ
  pub get_tid_request_size : ℕ
  pub get_tid_response_size : ℕ

-- What the headers document: the request bit is one bit, apart from the instance number; no bit is
-- set in 0; PLDM control and discovery is a type, under the version of the header; and the sizes.
pub record PldmLaws (k : Pldm) : Type 0 where
  pub request_bit : bit_and (bit_or 0 k.request_mask) k.request_mask ≢ 0
  pub request_instance : bit_and (bit_or 0 k.request_mask) k.instance_id_mask ≡ 0
  pub no_request_bit : bit_and 0 k.request_mask ≡ 0
  pub no_datagram_bit : bit_and 0 k.datagram_mask ≡ 0
  pub no_instance : bit_and 0 k.instance_id_mask ≡ 0
  pub control_version : bit_and k.control_discovery k.version_mask ≡ k.header_version
  pub control_type : bit_and k.control_discovery k.type_mask ≡ k.control_discovery
  pub request_fits : k.pldm_header_size ≤ k.get_tid_request_size
  pub request_small : k.get_tid_request_size ≤ mctp_max_message_size
  pub response_small : k.get_tid_response_size < mctp_max_message_size
