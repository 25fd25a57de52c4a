-- ===== src/PciIde/Responder.antt =====
-- library/pci_ide_km_responder_lib: one handler for each request, and the dispatch by object id. A
-- handler takes the port context, the request with its size and the room for the response, and
-- returns the context, the request buffer, from which KEY_PROG wipes the key, and the reply.
pub mod Cases
use spdm_emu.Prelude.{
  ℕ, ◌+◌, ◌*◌, List, [], ◌∷◌, ◌==◌, ◌!=◌, ltb, leb, if◌then◌else◌, replicate, take, Bool, Reply,
  asserted, fails, replies, Status, success, invalid_msg_size, unsupported_cap,
}
use spdm_emu.PciIde.Messages.{Request, Response, IdeKm}
use spdm_emu.PciIde.Device.{
  Port, ide_reg_block_supported_count, pci_ide_km_device_key_prog, pci_ide_km_device_key_set_go,
  pci_ide_km_device_key_set_stop, pci_ide_km_device_query,
}

-- sizeof(pci_ide_km_query_resp_mine_t): six bytes and the registers behind the header.
abbrev pub query_resp_mine_size : IdeKm → ℕ
query_resp_mine_size k = k.header_size + 6 + ide_reg_block_supported_count * 4

module _ (k : IdeKm) where
  abbrev pub Handler : Type 0
  Handler = Port → Request → ℕ → ℕ → Port × Request × Reply Response

  -- A zeroed response with the fields that every acknowledgement carries.
  unfoldable pub acknowledgement : ℕ → Request → ℕ → Response
  acknowledgement object_id r status = record {
    object_id = object_id;
    stream_id = r.stream_id;
    key_sub_stream = r.key_sub_stream;
    port_index = r.port_index;
    status = status;
    dev_func_num = 0;
    bus_num = 0;
    segment = 0;
    max_port_index = 0;
    ide_reg_block = [];
  }

  -- The end of a handler: the device's status, LIBSPDM_STATUS_SUCCESS or an error.
  unfoldable pub acknowledge : Status → ℕ → Response → Reply Response
  acknowledge success size rsp = replies size rsp
  acknowledge status size rsp = fails status

  unfoldable pub pci_ide_km_get_response_query : Handler
  unfolding pci_ide_km_device_query
  pci_ide_km_get_response_query c r request_size response_size =
      if request_size != k.query_size
      then (c, r, fails invalid_msg_size)
      else if ltb response_size (query_resp_mine_size k)
      then (c, r, asserted)
      else let (c', status) = pci_ide_km_device_query k c r.port_index in
        if ltb ide_reg_block_supported_count c'.ide_reg_buffer_count then (c', r, asserted) else (
          c',
          r,
          replies (k.query_resp_size + c'.ide_reg_buffer_count * 4) (record {
            object_id = k.query_resp;
            stream_id = 0;
            key_sub_stream = 0;
            port_index = r.port_index;
            status = 0;
            dev_func_num = c'.dev_func_num;
            bus_num = c'.bus_num;
            segment = c'.segment;
            max_port_index = c'.max_port_index;
            ide_reg_block = take c'.ide_reg_buffer_count c'.ide_reg_buffer;
          }),
        )

  unfoldable pub pci_ide_km_get_response_key_prog : Handler
  unfolding pci_ide_km_device_key_prog acknowledge acknowledgement
  pci_ide_km_get_response_key_prog c r request_size response_size =
      if request_size != k.key_prog_size + k.key_buffer_size
      then (c, r, fails invalid_msg_size)
      else if ltb response_size k.kp_ack_size
      then (c, r, asserted)
      else let (c', status, kp_ack_status) =
          pci_ide_km_device_key_prog k c r.key_sub_stream r.port_index r.key_buffer 0 in
        (
          c',
          record r { key_buffer = replicate k.key_buffer_size 0 },
          acknowledge status k.kp_ack_size (acknowledgement k.kp_ack r kp_ack_status),
        )

  unfoldable pub pci_ide_km_get_response_key_set_go : Handler
  unfolding pci_ide_km_device_key_set_go acknowledge acknowledgement
  pci_ide_km_get_response_key_set_go c r request_size response_size =
      if request_size != k.k_set_go_size
      then (c, r, fails invalid_msg_size)
      else if ltb response_size k.k_set_gostop_ack_size
      then (c, r, asserted)
      else let (c', status) = pci_ide_km_device_key_set_go k c r.key_sub_stream r.port_index in
        (c', r, acknowledge status k.k_set_gostop_ack_size (acknowledgement k.k_set_gostop_ack r 0))

  unfoldable pub pci_ide_km_get_response_key_set_stop : Handler
  unfolding pci_ide_km_device_key_set_stop acknowledge acknowledgement
  pci_ide_km_get_response_key_set_stop c r request_size response_size =
      if request_size != k.k_set_stop_size
      then (c, r, fails invalid_msg_size)
      else if ltb response_size k.k_set_gostop_ack_size
      then (c, r, asserted)
      else let (c', status) = pci_ide_km_device_key_set_stop k c r.key_sub_stream r.port_index in
        (c', r, acknowledge status k.k_set_gostop_ack_size (acknowledgement k.k_set_gostop_ack r 0))

  -- `m_pci_ide_km_dispatch`
  abbrev pub m_pci_ide_km_dispatch : List (ℕ × Handler)
  m_pci_ide_km_dispatch =
      (k.query, pci_ide_km_get_response_query)
      ∷ (k.key_prog, pci_ide_km_get_response_key_prog)
      ∷ (k.k_set_go, pci_ide_km_get_response_key_set_go)
      ∷ (k.k_set_stop, pci_ide_km_get_response_key_set_stop)
      ∷ []

  -- The loop over the table, and the status behind it.
  unfoldable pub dispatch : List (ℕ × Handler) → Handler
  dispatch [] c r request_size response_size = (c, r, fails unsupported_cap)
  dispatch ((object_id, func) ∷ table) c r request_size response_size =
      if r.object_id == object_id
      then func c r request_size response_size
      else dispatch table c r request_size response_size

  unfoldable pub pci_ide_km_get_response : Handler
  unfolding dispatch
  pci_ide_km_get_response c r request_size response_size =
      if ltb request_size k.header_size
      then (c, r, fails invalid_msg_size)
      else dispatch m_pci_ide_km_dispatch c r request_size response_size
