-- ===== src/PciIde/Exchange.antt =====
-- The requests of pci_ide_km_requester_lib, served by pci_ide_km_responder_lib.
use spdm_emu.Prelude.{
  ℕ, ◌+◌, ◌*◌, ◌≡◌, ◌≤◌, refl, length-set, length-replicate, ==_refl, Bool, true, false, arith,
  List, [], set, replicate, replies, success, write_at,
}
use spdm_emu.PciIde.Messages.{Request, Response, IdeKm, IdeKmLaws, slot}
use spdm_emu.PciIde.Device.{
  Port, ide_reg_block_supported_count, libidekm_initialize_device_port_context,
}
use spdm_emu.PciIde.Responder.{
  acknowledgement, pci_ide_km_get_response, pci_ide_km_get_response_query,
  pci_ide_km_get_response_key_prog, pci_ide_km_get_response_key_set_go,
  pci_ide_km_get_response_key_set_stop,
}
use spdm_emu.PciIde.Requester.{
  Received, received, request, QueryResult, query_answer, pci_ide_km_query, pci_ide_km_key_prog,
  pci_ide_km_key_set_go, pci_ide_km_key_set_stop,
}
use spdm_emu.PciIde.Keys.{HasRoom, replicate-Row, get_or, get_or-set}

-- The transport brings each request to the port with room `m` for the response, and brings a
-- response back as it is.
abbrev pub Serves : (k : IdeKm) → ℕ → (Port → Request → ℕ → Port × Received) → Type 0
Serves k m send =
    (c : Port) (r : Request) (n : ℕ) (c' : Port) (r' : Request) (size : ℕ) (rsp : Response)
    → pci_ide_km_get_response k c r n m ≡ (c', r', replies size rsp)
    → send c r n ≡ (c', received size rsp)

module _ (k : IdeKm) (c : Port) where
  -- The context with a key in its place.
  abbrev pub with_key : ℕ → List ℕ → Port
  with_key key_sub_stream key = record c {
    key_buffer = set c.key_buffer (slot k key_sub_stream) key;
    is_key_prog = set c.is_key_prog (slot k key_sub_stream) true;
  }

  -- The context with a key set started or stopped.
  abbrev pub with_use : ℕ → Bool → Port
  with_use key_sub_stream b = record c {
    is_key_set_go = set c.is_key_set_go (slot k key_sub_stream) b;
  }

module _ (k : IdeKm) (laws : IdeKmLaws k) (m : ℕ) (room : HasRoom k m) (c : Port)
    (r : Request) where
  key_prog_accepted :
      r.object_id ≡ k.key_prog
      → c.port_index ≡ r.port_index
      → pci_ide_km_get_response k c r (k.key_prog_size + k.key_buffer_size) m ≡ (
        with_key k c r.key_sub_stream r.key_buffer,
        record r { key_buffer = replicate k.key_buffer_size 0 },
        replies k.kp_ack_size (acknowledgement k k.kp_ack r k.kp_ack_success),
      )
  unfolding pci_ide_km_get_response pci_ide_km_get_response_key_prog
  key_prog_accepted t p =
      ground (arith, laws.requests_distinct, laws.key_prog_fits, room.for_key_prog)

  go_accepted :
      r.object_id ≡ k.k_set_go
      → c.port_index ≡ r.port_index
      → pci_ide_km_get_response k c r k.k_set_go_size m ≡ (
        with_use k c r.key_sub_stream true,
        r,
        replies k.k_set_gostop_ack_size (acknowledgement k k.k_set_gostop_ack r 0),
      )
  unfolding pci_ide_km_get_response pci_ide_km_get_response_key_set_go
  go_accepted t p = ground (arith, laws.requests_distinct, laws.k_set_go_fits, room.for_go)

  stop_accepted :
      r.object_id ≡ k.k_set_stop
      → c.port_index ≡ r.port_index
      → pci_ide_km_get_response k c r k.k_set_stop_size m ≡ (
        with_use k c r.key_sub_stream false,
        r,
        replies k.k_set_gostop_ack_size (acknowledgement k k.k_set_gostop_ack r 0),
      )
  unfolding pci_ide_km_get_response pci_ide_km_get_response_key_set_stop
  stop_accepted t p = ground (arith, laws.requests_distinct, laws.k_set_stop_fits, room.for_go)

  abbrev pub registers : ℕ → Response
  registers port_index = record {
    object_id = k.query_resp;
    stream_id = 0;
    key_sub_stream = 0;
    port_index = port_index;
    status = 0;
    dev_func_num = 0;
    bus_num = 0;
    segment = 0;
    max_port_index = 7;
    ide_reg_block = replicate ide_reg_block_supported_count 0;
  }

  query_accepted :
      r.object_id ≡ k.query
      → pci_ide_km_get_response k c r k.query_size m ≡ (
        libidekm_initialize_device_port_context k r.port_index,
        r,
        replies (k.query_resp_size + ide_reg_block_supported_count * 4) (registers r.port_index),
      )
  unfolding pci_ide_km_get_response pci_ide_km_get_response_query
      libidekm_initialize_device_port_context replicate
  query_accepted t = ground (arith, laws.requests_distinct, laws.query_fits, room.for_query)

module _ (k : IdeKm) (laws : IdeKmLaws k) (m : ℕ) (room : HasRoom k m)
    (send : Port → Request → ℕ → Port × Received) (serves : Serves k m send) where
  key_prog_lem :
      (c : Port) (stream_id key_sub_stream port_index : ℕ) (key : List ℕ) (old : ℕ)
      → c.port_index ≡ port_index
      → pci_ide_km_key_prog k send c stream_id key_sub_stream port_index key old
        ≡ (with_key k c key_sub_stream key, success, k.kp_ack_success)
  unfolding request acknowledgement pci_ide_km_key_prog
  key_prog_lem c stream_id key_sub_stream port_index key old p =
      let q : Request = request k k.key_prog stream_id key_sub_stream port_index key in
      let served =
        serves c q (k.key_prog_size + k.key_buffer_size) (with_key k c key_sub_stream key)
          (record q { key_buffer = replicate k.key_buffer_size 0 }) k.kp_ack_size
          (acknowledgement k k.kp_ack q k.kp_ack_success)
          (key_prog_accepted k laws m room c q refl p) in
      rw (served, pci_ide_km_key_prog) (ground arith)

  key_set_go_lem :
      (c : Port) (stream_id key_sub_stream port_index : ℕ)
      → c.port_index ≡ port_index
      → pci_ide_km_key_set_go k send c stream_id key_sub_stream port_index
        ≡ (with_use k c key_sub_stream true, success)
  unfolding request acknowledgement pci_ide_km_key_set_go
  key_set_go_lem c stream_id key_sub_stream port_index p =
      let q : Request = request k k.k_set_go stream_id key_sub_stream port_index [] in
      let served =
        serves c q k.k_set_go_size (with_use k c key_sub_stream true) q k.k_set_gostop_ack_size
          (acknowledgement k k.k_set_gostop_ack q 0) (go_accepted k laws m room c q refl p) in
      rw (served, pci_ide_km_key_set_go) (ground arith)

  key_set_stop_lem :
      (c : Port) (stream_id key_sub_stream port_index : ℕ)
      → c.port_index ≡ port_index
      → pci_ide_km_key_set_stop k send c stream_id key_sub_stream port_index
        ≡ (with_use k c key_sub_stream false, success)
  unfolding request acknowledgement pci_ide_km_key_set_stop
  key_set_stop_lem c stream_id key_sub_stream port_index p =
      let q : Request = request k k.k_set_stop stream_id key_sub_stream port_index [] in
      let served =
        serves c q k.k_set_stop_size (with_use k c key_sub_stream false) q k.k_set_gostop_ack_size
          (acknowledgement k k.k_set_gostop_ack q 0) (stop_accepted k laws m room c q refl p) in
      rw (served, pci_ide_km_key_set_stop) (ground arith)

  -- What the caller of pci_ide_km_query holds after a good response.
  abbrev pub queried : QueryResult → QueryResult
  queried old = record {
    result = success;
    dev_func_num = 0;
    bus_num = 0;
    segment = 0;
    max_port_index = 7;
    ide_reg_buffer = write_at old.ide_reg_buffer 0 (replicate ide_reg_block_supported_count 0);
    ide_reg_buffer_count = ide_reg_block_supported_count;
  }

  query_lem :
      (c : Port) (port_index : ℕ) (old : QueryResult)
      → ide_reg_block_supported_count ≤ old.ide_reg_buffer_count
      → pci_ide_km_query k send c port_index old
        ≡ (libidekm_initialize_device_port_context k port_index, queried old)
  unfolding request pci_ide_km_query query_answer replicate
  query_lem c port_index old fits =
      let q : Request = request k k.query 0 0 port_index [] in
      let served =
        serves c q k.query_size (libidekm_initialize_device_port_context k port_index) q
          (k.query_resp_size + ide_reg_block_supported_count * 4)
          (registers k laws m room c q port_index) (query_accepted k laws m room c q refl) in
      rw served (ground arith)

  -- From any state of the port, the requester's QUERY, KEY_PROG and K_SET_GO for it all succeed
  -- against the responder, KEY_PROG with the acknowledged status of success, and leave the key in
  -- its place, programmed and in use; K_SET_STOP then succeeds and leaves it programmed and not in
  -- use. The transport serves the port and leaves room for the responses, the caller of QUERY has
  -- room for the registers, and the numbers of the protocol obey `IdeKmLaws`.
  pub key_establishment :
      (c : Port) (stream_id key_sub_stream port_index : ℕ) (key : List ℕ) (old : QueryResult)
      (status : ℕ)
      → ide_reg_block_supported_count ≤ old.ide_reg_buffer_count
      → let place = slot k key_sub_stream in
        let (c1, answer) = pci_ide_km_query k send c port_index old in
        let (c2, prog, kp_ack_status) =
          pci_ide_km_key_prog k send c1 stream_id key_sub_stream port_index key status in
        let (c3, go) = pci_ide_km_key_set_go k send c2 stream_id key_sub_stream port_index in
        let (c4, stop) = pci_ide_km_key_set_stop k send c3 stream_id key_sub_stream port_index in
        (answer.result ≡ success)
        × (prog ≡ success)
        × (kp_ack_status ≡ k.kp_ack_success)
        × (go ≡ success)
        × (get_or [] c3.key_buffer place ≡ key)
        × (get_or false c3.is_key_prog place ≡ true)
        × (get_or false c3.is_key_set_go place ≡ true)
        × (stop ≡ success)
        × (get_or [] c4.key_buffer place ≡ key)
        × (get_or false c4.is_key_prog place ≡ true)
        × (get_or false c4.is_key_set_go place ≡ false)
  unfolding libidekm_initialize_device_port_context replicate
  key_establishment c stream_id key_sub_stream port_index key old status fits =
      let place = slot k key_sub_stream in
      let bound = laws.slot_bound key_sub_stream in
      let c1 = libidekm_initialize_device_port_context k port_index in
      let c2 = with_key k c1 key_sub_stream key in
      let c3 = with_use k c2 key_sub_stream true in
      rw (query_lem c port_index old fits) (
        rw (key_prog_lem c1 stream_id key_sub_stream port_index key status refl) (
          rw (key_set_go_lem c2 stream_id key_sub_stream port_index refl) (
            rw (key_set_stop_lem c3 stream_id key_sub_stream port_index refl) (
              ground (
                arith,
                get_or-set [] c1.key_buffer place place key bound,
                get_or-set false c1.is_key_prog place place true bound,
                get_or-set false c1.is_key_set_go place place true bound,
                get_or-set false c3.is_key_set_go place place false
                    (omega (arith, length-set c1.is_key_set_go place true)),
                ==_refl place,
              )))))

  -- QUERY drops the keys of the port, whatever was programmed before, and a K_SET_GO that follows it
  -- is acknowledged as a success all the same: the place is in use, with no key programmed and zeroes
  -- for its material. The transport serves the port and leaves room for the responses, the caller
  -- of QUERY has room for the registers, and the numbers of the protocol obey `IdeKmLaws`.
  pub go_without_key :
      (c : Port) (stream_id key_sub_stream port_index : ℕ) (old : QueryResult)
      → ide_reg_block_supported_count ≤ old.ide_reg_buffer_count
      → let place = slot k key_sub_stream in
        let (c1, answer) = pci_ide_km_query k send c port_index old in
        let (c2, go) = pci_ide_km_key_set_go k send c1 stream_id key_sub_stream port_index in
        (answer.result ≡ success)
        × (go ≡ success)
        × (get_or false c2.is_key_set_go place ≡ true)
        × (get_or false c2.is_key_prog place ≡ false)
        × (get_or [] c2.key_buffer place ≡ replicate k.key_buffer_size 0)
  unfolding libidekm_initialize_device_port_context
  go_without_key c stream_id key_sub_stream port_index old fits =
      let place = slot k key_sub_stream in
      let bound = laws.slot_bound key_sub_stream in
      let c1 = libidekm_initialize_device_port_context k port_index in
      rw (query_lem c port_index old fits) (
        rw (key_set_go_lem c1 stream_id key_sub_stream port_index refl) (
          refl,
          refl,
          ground (
            arith,
            get_or-set false c1.is_key_set_go place place true
                (omega (arith, length-replicate 4 false, bound)),
            ==_refl place,
          ),
          (replicate-Row false false).entry place bound,
          (replicate-Row [] (replicate k.key_buffer_size 0)).entry place bound,
        ))
