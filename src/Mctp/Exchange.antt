-- ===== src/Mctp/Exchange.antt =====
-- GET_TID of mctp_requester_lib, served by mctp_responder_lib.
use spdm_emu.Prelude.{ℕ, ◌+◌, ◌-◌, ◌≡◌, ◌<◌, arith, bit_or, replies, some, success}
use spdm_emu.Mctp.Messages.{Mctp, PldmHeader, TidResponse, Pldm, PldmLaws}
use spdm_emu.Mctp.Responder.{
  pldm_get_response_control_get_tid, pldm_get_response_secured_app_request,
  mctp_get_response_secured_app_request,
}
use spdm_emu.Mctp.Requester.{Received, received, tid_check, pldm_control_get_tid}

-- The transport brings each message to the responder, with the room that the requester has, and
-- brings a response back as it is.
abbrev pub Serves : (k : Pldm) {P : Type 0} → (P → Mctp PldmHeader → ℕ → ℕ → P × Received) → Type 0
Serves k {P} send =
    (peer : P) (q : Mctp PldmHeader) (n m size : ℕ) (rsp : Mctp TidResponse)
    → mctp_get_response_secured_app_request k q n m ≡ replies size rsp
    → send peer q n m ≡ (peer, received size rsp)

module _ (k : Pldm) (laws : PldmLaws k) where
  -- The request of GET_TID, and the response to it.
  abbrev pub tid_request : Mctp PldmHeader
  tid_request = record {
    message_type = k.message_type_pldm;
    body = record {
      instance_id = bit_or 0 k.request_mask;
      pldm_type = k.control_discovery;
      pldm_command_code = k.get_tid;
    };
  }

  abbrev pub tid_response : Mctp TidResponse
  tid_response = record {
    message_type = k.message_type_pldm;
    body = record {
      pldm_header = record {
        instance_id = 0;
        pldm_type = k.control_discovery;
        pldm_command_code = k.get_tid;
      };
      pldm_completion_code = k.base_code_success;
      tid = 1;
    };
  }

  -- GET_TID is answered by the TID 1.
  pub tid_answered :
      0 < k.get_tid_response_size
      → mctp_get_response_secured_app_request k tid_request
          (k.mctp_header_size + k.get_tid_request_size)
          (k.mctp_header_size + k.get_tid_response_size)
        ≡ replies (k.get_tid_response_size + k.mctp_header_size) tid_response
  unfolding mctp_get_response_secured_app_request pldm_get_response_secured_app_request
      pldm_get_response_control_get_tid
  tid_answered some_bytes =
      let n : k.mctp_header_size + k.get_tid_request_size - k.mctp_header_size
          ≡ k.get_tid_request_size =
        omega arith in
      let m : k.mctp_header_size + k.get_tid_response_size - k.mctp_header_size
          ≡ k.get_tid_response_size =
        omega arith in
      rw (n, m, laws.request_instance)
        (ground
          (arith, laws.request_bit, laws.control_version, laws.control_type, laws.request_fits))

  tid_accepted : tid_check k 0 k.get_tid_response_size tid_response.body ≡ success
  unfolding tid_check
  tid_accepted =
      rw (laws.no_request_bit, laws.no_datagram_bit, laws.no_instance)
        (ground (arith, laws.control_version, laws.control_type))

  -- GET_TID of the requester succeeds against the responder, which answers with the TID 1; what the
  -- caller's variable held before it holds afterwards: the TID is not brought to the caller. The
  -- transport serves the responder, a response is not empty, and the numbers of the protocol obey
  -- `PldmLaws`.
  pub tid_not_delivered :
      {P : Type 0} (send : P → Mctp PldmHeader → ℕ → ℕ → P × Received) (peer : P) (tid : ℕ)
      → Serves k send
      → 0 < k.get_tid_response_size
      → (mctp_get_response_secured_app_request k tid_request
            (k.mctp_header_size + k.get_tid_request_size)
            (k.mctp_header_size + k.get_tid_response_size)
          ≡ replies (k.get_tid_response_size + k.mctp_header_size) tid_response)
        × (pldm_control_get_tid k send peer tid ≡ (peer, some success, tid))
  unfolding pldm_control_get_tid
  tid_not_delivered send peer tid serves some_bytes =
      let answered = tid_answered some_bytes in
      let served =
        serves peer tid_request (k.mctp_header_size + k.get_tid_request_size)
          (k.mctp_header_size + k.get_tid_response_size)
          (k.get_tid_response_size + k.mctp_header_size) tid_response answered in
      let n : k.get_tid_response_size + k.mctp_header_size - k.mctp_header_size
          ≡ k.get_tid_response_size =
        omega arith in
      (
        answered,
        rw (served, n) (ground (arith, tid_accepted, laws.request_small, laws.response_small)),
      )
