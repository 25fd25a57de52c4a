-- ===== src/Mctp/Responder.antt =====
-- library/mctp_responder_lib: the dispatch of an MCTP message in a session, that of a PLDM message,
-- and the response to GET_TID.
use spdm_emu.Prelude.{
  ℕ, ◌+◌, ◌-◌, List, [], ◌∷◌, bit_and, ◌==◌, ◌!=◌, ◌&&◌, ltb, leb, if◌then◌else◌, Reply, asserted,
  fails, replies, invalid_msg_size, invalid_msg_field, unsupported_cap,
}
use spdm_emu.Mctp.Messages.{Mctp, PldmHeader, TidResponse, Pldm}

module _ (k : Pldm) where
  -- The response is written where there is room for it; an assertion guards the room.
  unfoldable pub pldm_get_response_control_get_tid : PldmHeader → ℕ → ℕ → Reply TidResponse
  pldm_get_response_control_get_tid r request_size response_size =
      if request_size != k.get_tid_request_size
      then fails invalid_msg_size
      else if ltb response_size k.get_tid_response_size
      then asserted
      else replies k.get_tid_response_size (record {
        pldm_header = record r { instance_id = bit_and r.instance_id k.instance_id_mask };
        pldm_completion_code = k.base_code_success;
        tid = 1;
      })

  abbrev pub PldmHandler : Type 0
  PldmHandler = PldmHeader → ℕ → ℕ → Reply TidResponse

  -- The type and the command of each entry.
  abbrev pub m_pldm_secured_app_dispatch : List (ℕ × ℕ × PldmHandler)
  m_pldm_secured_app_dispatch =
      (k.control_discovery, k.get_tid, pldm_get_response_control_get_tid) ∷ []

  unfoldable pub pldm_dispatch : List (ℕ × ℕ × PldmHandler) → PldmHandler
  pldm_dispatch [] r request_size response_size = fails unsupported_cap
  pldm_dispatch ((pldm_type, command, func) ∷ table) r request_size response_size =
      if bit_and r.pldm_type k.type_mask == pldm_type && r.pldm_command_code == command
      then func r request_size response_size
      else pldm_dispatch table r request_size response_size

  unfoldable pub pldm_get_response_secured_app_request : PldmHandler
  unfolding pldm_dispatch
  pldm_get_response_secured_app_request r request_size response_size =
      if ltb request_size k.pldm_header_size
      then fails invalid_msg_size
      else if bit_and r.instance_id k.request_mask == 0
      then fails invalid_msg_field
      else if bit_and r.pldm_type k.version_mask != k.header_version
      then fails invalid_msg_field
      else pldm_dispatch m_pldm_secured_app_dispatch r request_size response_size

  -- The message type of each entry.
  abbrev pub m_mctp_secured_app_dispatch : List (ℕ × PldmHandler)
  m_mctp_secured_app_dispatch = (k.message_type_pldm, pldm_get_response_secured_app_request) ∷ []

  -- What a handler's reply becomes behind the MCTP header.
  unfoldable pub mctp_reply : ℕ → Reply TidResponse → Reply (Mctp TidResponse)
  mctp_reply message_type asserted = asserted
  mctp_reply message_type (fails status) = fails status
  mctp_reply message_type (replies size rsp) =
      replies (size + k.mctp_header_size) (record { message_type = message_type; body = rsp })

  unfoldable pub mctp_dispatch :
      List (ℕ × PldmHandler) → Mctp PldmHeader → ℕ → ℕ → Reply (Mctp TidResponse)
  unfolding mctp_reply
  mctp_dispatch [] q request_size response_size = fails unsupported_cap
  mctp_dispatch ((message_type, func) ∷ table) q request_size response_size =
      if q.message_type == message_type
      then mctp_reply q.message_type
          (func q.body (request_size - k.mctp_header_size) (response_size - k.mctp_header_size))
      else mctp_dispatch table q request_size response_size

  unfoldable pub mctp_get_response_secured_app_request :
      Mctp PldmHeader → ℕ → ℕ → Reply (Mctp TidResponse)
  unfolding mctp_dispatch
  mctp_get_response_secured_app_request q request_size response_size =
      if ltb request_size k.mctp_header_size
      then fails invalid_msg_size
      else if leb response_size k.mctp_header_size
      then asserted
      else mctp_dispatch m_mctp_secured_app_dispatch q request_size response_size
