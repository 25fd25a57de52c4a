-- ===== src/Mctp/Tests.antt =====
-- GET_TID at the numbers of PLDM, over a transport that loses nothing.
use spdm_emu.Prelude.{
  ℕ, ◌≡◌, refl, arith, Reply, asserted, fails, replies, some, success, invalid_parameter,
}
use spdm_emu.Mctp.Messages.{Mctp, PldmHeader, TidResponse, Pldm, PldmLaws}
use spdm_emu.Mctp.Responder.{mctp_get_response_secured_app_request}
use spdm_emu.Mctp.Requester.{Received, failed, received, pldm_control_get_tid}
use spdm_emu.Mctp.Exchange.{Serves, tid_request, tid_response, tid_not_delivered}

abbrev pldm : Pldm
pldm = record {
  message_type_pldm = 1;
  mctp_header_size = 1;
  request_mask = 0x80;
  datagram_mask = 0x40;
  instance_id_mask = 0x1F;
  version_mask = 0xC0;
  type_mask = 0x3F;
  header_version = 0;
  control_discovery = 0;
  get_tid = 2;
  base_code_success = 0;
  pldm_header_size = 3;
  get_tid_request_size = 3;
  get_tid_response_size = 5;
}

pldm-laws : PldmLaws pldm
pldm-laws = record {
  request_bit = omega arith;
  request_instance = refl;
  no_request_bit = refl;
  no_datagram_bit = refl;
  no_instance = refl;
  control_version = refl;
  control_type = refl;
  request_fits = omega arith;
  request_small = omega arith;
  response_small = omega arith;
}

abbrev deliver : Reply (Mctp TidResponse) → Received
deliver asserted = failed invalid_parameter
deliver (fails status) = failed status
deliver (replies size rsp) = received size rsp

abbrev carry : ℕ → Mctp PldmHeader → ℕ → ℕ → ℕ × Received
carry peer q n m = (peer, deliver (mctp_get_response_secured_app_request pldm q n m))

carry-Serves : Serves pldm carry
carry-Serves peer q n m size rsp e = rw e refl

tid_not_delivered_example :
    (mctp_get_response_secured_app_request pldm (tid_request pldm pldm-laws) 4 6
      ≡ replies 6 (tid_response pldm pldm-laws))
    × (pldm_control_get_tid pldm carry 7 99 ≡ (7, some success, 99))
tid_not_delivered_example = tid_not_delivered pldm pldm-laws carry 7 99 carry-Serves (omega arith)
