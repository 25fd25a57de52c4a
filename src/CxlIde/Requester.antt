-- ===== src/CxlIde/Requester.antt =====
-- library/cxl_ide_km_requester_lib: the five requests, each with the checks on its response. What
-- cxl_ide_km_send_receive_data does with a request is the parameter `send`, over a state of the peer.
use spdm_emu.Prelude.{
  ℕ, ◌+◌, ◌-◌, ◌*◌, ◌/◌, ◌^◌, ◌%◌, List, take, write_at, ◌!=◌, ltb, if◌then◌else◌, Status, success,
  invalid_msg_size, invalid_msg_field, buffer_too_small,
}
use spdm_emu.CxlIde.Messages.{KeyBuffer, Request, Response, CxlIdeKm, zero_key}
use spdm_emu.CxlIde.Responder.{get_key_ack_mine_size}

-- What comes back from the peer: an error status, or a response and its size.
pub data Received : Type 0 where
  lost : Status → Received
  received : ℕ → Response → Received

module _ (k : CxlIdeKm) where
  -- A zeroed request with its fields.
  unfoldable pub cxl_request : ℕ → ℕ → ℕ → ℕ → KeyBuffer → Request
  cxl_request object_id stream_id key_sub_stream port_index key = record {
    object_id = object_id;
    stream_id = stream_id;
    key_sub_stream = key_sub_stream;
    port_index = port_index;
    key_buffer = key;
  }

  -- The checks that the acknowledgements share.
  unfoldable pub cxl_acknowledged : ℕ → ℕ → Request → ℕ → Response → Status
  cxl_acknowledged ack_size ack_id q response_size rsp =
      if response_size != ack_size
      then invalid_msg_size
      else if rsp.object_id != ack_id
      then invalid_msg_field
      else if rsp.stream_id != q.stream_id
      then invalid_msg_field
      else if rsp.key_sub_stream != q.key_sub_stream
      then invalid_msg_field
      else if rsp.port_index != q.port_index
      then invalid_msg_field
      else success

-- What a pointer of the caller holds: it is written with success only.
unfoldable pub on_success : {A : Type 0} → Status → A → A → A
on_success success written old = written
on_success status written old = old

-- What cxl_ide_km_query leaves: its status, and what it writes through its pointers.
pub record CxlQueryResult : Type 0 where
  pub result : Status
  pub dev_func_num : ℕ
  pub bus_num : ℕ
  pub segment : ℕ
  pub max_port_index : ℕ
  pub caps : ℕ
  pub ide_reg_buffer : List ℕ
  pub ide_reg_buffer_count : ℕ

module _ (k : CxlIdeKm) {P : Type 0} (send : P → Request → ℕ → P × Received) where
  unfoldable pub cxl_ide_km_key_prog : P → ℕ → ℕ → ℕ → KeyBuffer → ℕ → P × Status × ℕ
  unfolding cxl_request cxl_acknowledged on_success
  cxl_ide_km_key_prog peer stream_id key_sub_stream port_index key kp_ack_status =
      let q = cxl_request k k.key_prog stream_id key_sub_stream port_index key in
      let (peer', answer) = send peer q (k.key_prog_size + k.key_buffer_size) in
      elim answer [
        | lost status ↦ (peer', status, kp_ack_status)
        | received size rsp ↦
            let status = cxl_acknowledged k k.kp_ack_size k.kp_ack q size rsp in
            (peer', status, on_success status rsp.status kp_ack_status)
      ]

  unfoldable pub cxl_ide_km_key_set_go : P → ℕ → ℕ → ℕ → P × Status
  unfolding cxl_request cxl_acknowledged
  cxl_ide_km_key_set_go peer stream_id key_sub_stream port_index =
      let q = cxl_request k k.k_set_go stream_id key_sub_stream port_index zero_key in
      let (peer', answer) = send peer q k.k_set_go_size in
      elim answer [
        | lost status ↦ (peer', status)
        | received size rsp ↦
            (peer', cxl_acknowledged k k.k_set_gostop_ack_size k.k_set_gostop_ack q size rsp)
      ]

  unfoldable pub cxl_ide_km_key_set_stop : P → ℕ → ℕ → ℕ → P × Status
  unfolding cxl_request cxl_acknowledged
  cxl_ide_km_key_set_stop peer stream_id key_sub_stream port_index =
      let q = cxl_request k k.k_set_stop stream_id key_sub_stream port_index zero_key in
      let (peer', answer) = send peer q k.k_set_stop_size in
      elim answer [
        | lost status ↦ (peer', status)
        | received size rsp ↦
            (peer', cxl_acknowledged k k.k_set_gostop_ack_size k.k_set_gostop_ack q size rsp)
      ]

  -- The last component is the caller's key buffer.
  unfoldable pub cxl_ide_km_get_key : P → ℕ → ℕ → ℕ → KeyBuffer → P × Status × KeyBuffer
  unfolding cxl_request cxl_acknowledged on_success
  cxl_ide_km_get_key peer stream_id key_sub_stream port_index key_buffer =
      let q = cxl_request k k.get_key stream_id key_sub_stream port_index zero_key in
      let (peer', answer) = send peer q k.get_key_size in
      elim answer [
        | lost status ↦ (peer', status, key_buffer)
        | received size rsp ↦
            let status = cxl_acknowledged k (get_key_ack_mine_size k) k.get_key_ack q size rsp in
            (peer', status, on_success status rsp.key_buffer key_buffer)
      ]

  -- What is done with the response to QUERY; `old` holds what the pointers point to.
  unfoldable pub cxl_query_answer : Request → CxlQueryResult → Received → CxlQueryResult
  cxl_query_answer q old (lost status) = record old { result = status }
  cxl_query_answer q old (received size rsp) =
      let count = (size - k.query_resp_size) % 2 ^ 32 / 4 in
      if ltb size k.query_resp_size
      then record old { result = invalid_msg_size }
      else if size != k.query_resp_size + count * 4
      then record old { result = invalid_msg_size }
      else if rsp.object_id != k.query_resp
      then record old { result = invalid_msg_field }
      else if rsp.port_index != q.port_index
      then record old { result = invalid_msg_field }
      else if ltb old.ide_reg_buffer_count count
      then record old { result = buffer_too_small; ide_reg_buffer_count = count }
      else record {
        result = success;
        dev_func_num = rsp.dev_func_num;
        bus_num = rsp.bus_num;
        segment = rsp.segment;
        max_port_index = rsp.max_port_index;
        caps = rsp.caps;
        ide_reg_buffer = write_at old.ide_reg_buffer 0 (take count rsp.ide_reg_block);
        ide_reg_buffer_count = count;
      }

  unfoldable pub cxl_ide_km_query : P → ℕ → CxlQueryResult → P × CxlQueryResult
  unfolding cxl_request cxl_query_answer
  cxl_ide_km_query peer port_index old =
      let q = cxl_request k k.query 0 0 port_index zero_key in
      let (peer', answer) = send peer q k.query_size in (peer', cxl_query_answer q old answer)
