-- ===== src/CxlIde/Responder.antt =====
-- library/cxl_ide_km_responder_lib: one handler for each request, and the dispatch by object id. A
-- handler takes the port context, what the random number generator draws, the request with its size
-- and the room for the response, and returns the context, the request buffer, from which KEY_PROG
-- wipes the key, and the reply.
use spdm_emu.Prelude.{
  ℕ, ◌+◌, ◌*◌, List, [], ◌∷◌, ◌==◌, ◌!=◌, ltb, if◌then◌else◌, take, Option, Reply, asserted, fails,
  replies, Status, success, invalid_msg_size, unsupported_cap,
}
use spdm_emu.CxlIde.Messages.{KeyBuffer, Request, Response, CxlIdeKm, zero_key}
use spdm_emu.CxlIde.Device.{
  CxlPort, ide_cap_reg_block_max_count, cxl_ide_km_device_key_prog, cxl_ide_km_device_key_set_go,
  cxl_ide_km_device_key_set_stop, cxl_ide_km_device_get_key, cxl_ide_km_device_query,
}

-- sizeof(cxl_ide_km_query_resp_mine_t): seven bytes and the registers behind the header.
abbrev pub cxl_query_resp_mine_size : CxlIdeKm → ℕ
cxl_query_resp_mine_size k = k.header_size + 7 + ide_cap_reg_block_max_count * 4

-- sizeof(cxl_ide_km_get_key_ack_mine_t): six bytes and the key behind the header.
abbrev pub get_key_ack_mine_size : CxlIdeKm → ℕ
get_key_ack_mine_size k = k.header_size + 6 + k.key_buffer_size

module _ (k : CxlIdeKm) where
  abbrev pub CxlHandler : Type 0
  CxlHandler = CxlPort → Option (List ℕ) → Request → ℕ → ℕ → CxlPort × Request × Reply Response

  -- A zeroed response with the fields that every acknowledgement carries.
  unfoldable pub cxl_acknowledgement : ℕ → Request → ℕ → KeyBuffer → Response
  cxl_acknowledgement object_id r status key = record {
    object_id = object_id;
    stream_id = r.stream_id;
    key_sub_stream = r.key_sub_stream;
    port_index = r.port_index;
    status = status;
    dev_func_num = 0;
    bus_num = 0;
    segment = 0;
    max_port_index = 0;
    caps = 0;
    ide_reg_block = [];
    key_buffer = key;
  }

  -- The end of a handler: LIBSPDM_STATUS_SUCCESS or an error of the device.
  unfoldable pub cxl_acknowledge : Status → ℕ → Response → Reply Response
  cxl_acknowledge success size rsp = replies size rsp
  cxl_acknowledge status size rsp = fails status

  unfoldable pub cxl_ide_km_get_response_query : CxlHandler
  unfolding cxl_ide_km_device_query
  cxl_ide_km_get_response_query c random r request_size response_size =
      if request_size != k.query_size
      then (c, r, fails invalid_msg_size)
      else if ltb response_size (cxl_query_resp_mine_size k)
      then (c, r, asserted)
      else let (c', status) = cxl_ide_km_device_query k c r.port_index in
        if ltb ide_cap_reg_block_max_count c'.ide_reg_buffer_count then (c', r, asserted) else (
          c',
          r,
          replies (k.query_resp_size + c'.ide_reg_buffer_count * 4) (record {
            object_id = k.query_resp;
            stream_id = 0;
            key_sub_stream = 0;
            port_index = r.port_index;
            status = 0;
            dev_func_num = c'.dev_func_num;
            bus_num = c'.bus_num;
            segment = c'.segment;
            max_port_index = c'.max_port_index;
            caps = c'.caps;
            ide_reg_block = take c'.ide_reg_buffer_count c'.ide_reg_buffer;
            key_buffer = zero_key;
          }),
        )

  unfoldable pub cxl_ide_km_get_response_key_prog : CxlHandler
  unfolding cxl_ide_km_device_key_prog cxl_acknowledge cxl_acknowledgement
  cxl_ide_km_get_response_key_prog c random r request_size response_size =
      if request_size != k.key_prog_size + k.key_buffer_size
      then (c, r, fails invalid_msg_size)
      else if ltb response_size k.kp_ack_size
      then (c, r, asserted)
      else let (c', status, kp_ack_status) =
          cxl_ide_km_device_key_prog k c r.key_sub_stream r.port_index r.key_buffer 0 in
        (
          c',
          record r { key_buffer = zero_key },
          cxl_acknowledge status k.kp_ack_size
              (cxl_acknowledgement k.kp_ack r kp_ack_status zero_key),
        )

  unfoldable pub cxl_ide_km_get_response_key_set_go : CxlHandler
  unfolding cxl_ide_km_device_key_set_go cxl_acknowledge cxl_acknowledgement
  cxl_ide_km_get_response_key_set_go c random r request_size response_size =
      if request_size != k.k_set_go_size
      then (c, r, fails invalid_msg_size)
      else if ltb response_size k.k_set_gostop_ack_size
      then (c, r, asserted)
      else let (c', status) = cxl_ide_km_device_key_set_go k c r.key_sub_stream r.port_index in
        (
          c',
          r,
          cxl_acknowledge status k.k_set_gostop_ack_size
              (cxl_acknowledgement k.k_set_gostop_ack r 0 zero_key),
        )

  unfoldable pub cxl_ide_km_get_response_key_set_stop : CxlHandler
  unfolding cxl_ide_km_device_key_set_stop cxl_acknowledge cxl_acknowledgement
  cxl_ide_km_get_response_key_set_stop c random r request_size response_size =
      if request_size != k.k_set_stop_size
      then (c, r, fails invalid_msg_size)
      else if ltb response_size k.k_set_gostop_ack_size
      then (c, r, asserted)
      else let (c', status) = cxl_ide_km_device_key_set_stop k c r.key_sub_stream r.port_index in
        (
          c',
          r,
          cxl_acknowledge status k.k_set_gostop_ack_size
              (cxl_acknowledgement k.k_set_gostop_ack r 0 zero_key),
        )

  unfoldable pub cxl_ide_km_get_response_get_key : CxlHandler
  unfolding cxl_ide_km_device_get_key cxl_acknowledge cxl_acknowledgement
  cxl_ide_km_get_response_get_key c random r request_size response_size =
      if request_size != k.get_key_size
      then (c, r, fails invalid_msg_size)
      else if ltb response_size (get_key_ack_mine_size k)
      then (c, r, asserted)
      else let (status, key) = cxl_ide_km_device_get_key k c random r.port_index zero_key in
        (
          c,
          r,
          cxl_acknowledge status (get_key_ack_mine_size k)
              (cxl_acknowledgement k.get_key_ack r 0 key),
        )

  -- `m_cxl_ide_km_dispatch`
  abbrev pub m_cxl_ide_km_dispatch : List (ℕ × CxlHandler)
  m_cxl_ide_km_dispatch =
      (k.query, cxl_ide_km_get_response_query)
      ∷ (k.key_prog, cxl_ide_km_get_response_key_prog)
      ∷ (k.k_set_go, cxl_ide_km_get_response_key_set_go)
      ∷ (k.k_set_stop, cxl_ide_km_get_response_key_set_stop)
      ∷ (k.get_key, cxl_ide_km_get_response_get_key)
      ∷ []

  -- The loop over the table, and the status behind it.
  unfoldable pub cxl_dispatch : List (ℕ × CxlHandler) → CxlHandler
  cxl_dispatch [] c random r request_size response_size = (c, r, fails unsupported_cap)
  cxl_dispatch ((object_id, func) ∷ table) c random r request_size response_size =
      if r.object_id == object_id
      then func c random r request_size response_size
      else cxl_dispatch table c random r request_size response_size

  unfoldable pub cxl_ide_km_get_response : CxlHandler
  unfolding cxl_dispatch
  cxl_ide_km_get_response c random r request_size response_size =
      if ltb request_size k.header_size
      then (c, r, fails invalid_msg_size)
      else cxl_dispatch m_cxl_ide_km_dispatch c random r request_size response_size
