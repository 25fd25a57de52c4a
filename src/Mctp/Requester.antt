-- ===== src/Mctp/Requester.antt =====
-- library/mctp_requester_lib: an exchange over MCTP, one over PLDM, and GET_TID. What
-- libspdm_send_receive_data does with a message is the parameter `send`, over a state of the peer.
use spdm_emu.Prelude.{
  ℕ, ◌+◌, ◌-◌, bit_and, bit_or, ◌!=◌, ltb, leb, if◌then◌else◌, Option, none, some, Status, success,
  invalid_msg_size, invalid_msg_field,
}
use spdm_emu.Mctp.Messages.{Mctp, PldmHeader, TidResponse, mctp_max_message_size, Pldm}

-- What comes back from the peer: an error status, or a response and its size.
pub data Received : Type 0 where
  failed : Status → Received
  received : ℕ → Mctp TidResponse → Received

-- The end of an exchange: a failed assertion, an error, or a response and its size.
pub data Exchanged : Type 0 where
  asserts : Exchanged
  stops : Status → Exchanged
  brings : ℕ → TidResponse → Exchanged

module _ (k : Pldm) where
  -- The checks on a response.
  unfoldable pub mctp_answer : ℕ → Received → Exchanged
  mctp_answer message_type (failed status) = stops status
  mctp_answer message_type (received size rsp) =
      if ltb size k.mctp_header_size
      then stops invalid_msg_size
      else if rsp.message_type != message_type
      then stops invalid_msg_field
      else brings (size - k.mctp_header_size) rsp.body

  -- The checks of GET_TID on a response, for the instance number that it asked with.
  unfoldable pub tid_check : ℕ → ℕ → TidResponse → Status
  tid_check instance_id size rsp =
      let h = rsp.pldm_header in
      if size != k.get_tid_response_size
      then invalid_msg_size
      else if bit_and h.instance_id k.request_mask != 0
      then invalid_msg_field
      else if bit_and h.instance_id k.datagram_mask != 0
      then invalid_msg_field
      else if bit_and h.instance_id k.instance_id_mask != instance_id
      then invalid_msg_field
      else if bit_and h.pldm_type k.version_mask != k.header_version
      then invalid_msg_field
      else if bit_and h.pldm_type k.type_mask != k.control_discovery
      then invalid_msg_field
      else if h.pldm_command_code != k.get_tid
      then invalid_msg_field
      else if rsp.pldm_completion_code != k.base_code_success
      then invalid_msg_field
      else success

  unfoldable pub tid_answer : ℕ → Exchanged → Option Status
  unfolding tid_check
  tid_answer instance_id asserts = none
  tid_answer instance_id (stops status) = some status
  tid_answer instance_id (brings size rsp) = some (tid_check instance_id size rsp)

module _ (k : Pldm) {P : Type 0} (send : P → Mctp PldmHeader → ℕ → ℕ → P × Received) where
  -- `room` is *response_size on entry.
  unfoldable pub mctp_send_receive_data : P → ℕ → PldmHeader → ℕ → ℕ → P × Exchanged
  unfolding mctp_answer
  mctp_send_receive_data peer message_type request request_size room =
      let (peer', answer) =
        send peer (record { message_type = message_type; body = request })
          (k.mctp_header_size + request_size) (k.mctp_header_size + room) in
      if ltb mctp_max_message_size request_size
      then (peer, asserts)
      else if leb mctp_max_message_size room
      then (peer, asserts)
      else (peer', mctp_answer k message_type answer)

  unfoldable pub pldm_send_receive_data : P → PldmHeader → ℕ → ℕ → P × Exchanged
  unfolding mctp_send_receive_data
  pldm_send_receive_data peer request request_size room =
      mctp_send_receive_data peer k.message_type_pldm request request_size room

  -- The last component is what `*tid` holds afterwards; `none` is a failed assertion.
  unfoldable pub pldm_control_get_tid : P → ℕ → P × Option Status × ℕ
  unfolding pldm_send_receive_data tid_answer
  pldm_control_get_tid peer tid =
      let request : PldmHeader = record {
        instance_id = bit_or 0 k.request_mask;
        pldm_type = k.control_discovery;
        pldm_command_code = k.get_tid;
      } in
      let (peer', exchanged) =
        pldm_send_receive_data peer request k.get_tid_request_size k.get_tid_response_size in
      (peer', tid_answer k 0 exchanged, tid)
