-- ===== src/CxlIde/Exchange.antt =====
-- The requests of cxl_ide_km_requester_lib, served by cxl_ide_km_responder_lib.
use spdm_emu.Prelude.{
  ℕ, ◌+◌, ◌*◌, ◌≡◌, ◌≤◌, refl, true, false, arith, List, [], ◌∷◌, ==_refl, set, replicate, some,
  replies, success,
}
use spdm_emu.PciIde.Keys.{get_or, get_or-set}
use spdm_emu.CxlIde.Messages.{KeyBuffer, Request, Response, CxlIdeKm, CxlIdeKmLaws, zero_key, place}
use spdm_emu.CxlIde.Device.{
  CxlPort, ide_cap_reg_block_max_count, libcxlidekm_initialize_device_port_context,
}
use spdm_emu.CxlIde.Responder.{
  cxl_query_resp_mine_size, get_key_ack_mine_size, cxl_acknowledgement, cxl_ide_km_get_response,
  cxl_ide_km_get_response_query, cxl_ide_km_get_response_key_prog,
  cxl_ide_km_get_response_key_set_go, cxl_ide_km_get_response_get_key,
}
use spdm_emu.CxlIde.Requester.{
  Received, received, cxl_request, CxlQueryResult, cxl_query_answer, cxl_ide_km_query,
  cxl_ide_km_key_prog, cxl_ide_km_key_set_go, cxl_ide_km_get_key,
}

-- The room that each response needs.
pub record HasRoom (k : CxlIdeKm) (m : ℕ) : Type 0 where
  pub for_query : cxl_query_resp_mine_size k ≤ m
  pub for_key_prog : k.kp_ack_size ≤ m
  pub for_go : k.k_set_gostop_ack_size ≤ m
  pub for_key : get_key_ack_mine_size k ≤ m

-- The transport brings each request to the port, whose generator draws `random`, with room `m` for the
-- response, and brings a response back as it is.
abbrev pub Serves :
    (k : CxlIdeKm) → List ℕ → ℕ → (CxlPort → Request → ℕ → CxlPort × Received) → Type 0
Serves k random m send =
    (c : CxlPort) (r : Request) (n : ℕ) (c' : CxlPort) (r' : Request) (size : ℕ) (rsp : Response)
    → cxl_ide_km_get_response k c (some random) r n m ≡ (c', r', replies size rsp)
    → send c r n ≡ (c', received size rsp)

-- The key that the device generates from what it draws.
abbrev pub generated : List ℕ → KeyBuffer
generated random = record { key = random; iv = 0 ∷ 1 ∷ 2 ∷ [] }

module _ (k : CxlIdeKm) (c : CxlPort) where
  abbrev with_key : ℕ → KeyBuffer → CxlPort
  with_key key_sub_stream key = record c {
    key_buffer = set c.key_buffer (place k key_sub_stream) key;
    is_key_prog = set c.is_key_prog (place k key_sub_stream) true;
  }

  abbrev with_use : ℕ → CxlPort
  with_use key_sub_stream = record c {
    is_key_set_go = set c.is_key_set_go (place k key_sub_stream) true;
  }

module _ (k : CxlIdeKm) (laws : CxlIdeKmLaws k) (m : ℕ) (room : HasRoom k m) (random : List ℕ)
    (c : CxlPort) (r : Request) where
  key_prog_accepted :
      r.object_id ≡ k.key_prog
      → c.port_index ≡ r.port_index
      → cxl_ide_km_get_response k c (some random) r (k.key_prog_size + k.key_buffer_size) m ≡ (
        with_key k c r.key_sub_stream r.key_buffer,
        record r { key_buffer = zero_key },
        replies k.kp_ack_size (cxl_acknowledgement k k.kp_ack r k.kp_ack_success zero_key),
      )
  unfolding cxl_ide_km_get_response cxl_ide_km_get_response_key_prog
  key_prog_accepted t p =
      ground (arith, laws.requests_distinct, laws.key_prog_fits, room.for_key_prog)

  go_accepted :
      r.object_id ≡ k.k_set_go
      → c.port_index ≡ r.port_index
      → cxl_ide_km_get_response k c (some random) r k.k_set_go_size m ≡ (
        with_use k c r.key_sub_stream,
        r,
        replies k.k_set_gostop_ack_size (cxl_acknowledgement k k.k_set_gostop_ack r 0 zero_key),
      )
  unfolding cxl_ide_km_get_response cxl_ide_km_get_response_key_set_go
  go_accepted t p = ground (arith, laws.requests_distinct, laws.k_set_go_fits, room.for_go)

  get_key_accepted :
      r.object_id ≡ k.get_key
      → c.port_index ≡ r.port_index
      → cxl_ide_km_get_response k c (some random) r k.get_key_size m ≡ (
        c,
        r,
        replies
            (get_key_ack_mine_size k)
            (cxl_acknowledgement k k.get_key_ack r 0 (generated random)),
      )
  unfolding cxl_ide_km_get_response cxl_ide_km_get_response_get_key
  get_key_accepted t p = ground (arith, laws.requests_distinct, laws.get_key_fits, room.for_key)

  abbrev registers : ℕ → Response
  registers port_index = record {
    object_id = k.query_resp;
    stream_id = 0;
    key_sub_stream = 0;
    port_index = port_index;
    status = 0;
    dev_func_num = 0;
    bus_num = 0;
    segment = 0;
    max_port_index = 7;
    caps = (libcxlidekm_initialize_device_port_context k port_index).caps;
    ide_reg_block = replicate ide_cap_reg_block_max_count 0;
    key_buffer = zero_key;
  }

  query_accepted :
      r.object_id ≡ k.query
      → cxl_ide_km_get_response k c (some random) r k.query_size m ≡ (
        libcxlidekm_initialize_device_port_context k r.port_index,
        r,
        replies (k.query_resp_size + ide_cap_reg_block_max_count * 4) (registers r.port_index),
      )
  unfolding cxl_ide_km_get_response cxl_ide_km_get_response_query
      libcxlidekm_initialize_device_port_context replicate
  query_accepted t = ground (arith, laws.requests_distinct, laws.query_fits, room.for_query)

module _ (k : CxlIdeKm) (laws : CxlIdeKmLaws k) (m : ℕ) (room : HasRoom k m) (random : List ℕ)
    (send : CxlPort → Request → ℕ → CxlPort × Received) (serves : Serves k random m send)
    (c : CxlPort) where
  key_prog_lem :
      (stream_id key_sub_stream port_index : ℕ) (key : KeyBuffer) (old : ℕ)
      → c.port_index ≡ port_index
      → cxl_ide_km_key_prog k send c stream_id key_sub_stream port_index key old
        ≡ (with_key k c key_sub_stream key, success, k.kp_ack_success)
  unfolding cxl_request cxl_acknowledgement cxl_ide_km_key_prog
  key_prog_lem stream_id key_sub_stream port_index key old p =
      let q : Request = cxl_request k k.key_prog stream_id key_sub_stream port_index key in
      let served =
        serves c q (k.key_prog_size + k.key_buffer_size) (with_key k c key_sub_stream key)
          (record q { key_buffer = zero_key }) k.kp_ack_size
          (cxl_acknowledgement k k.kp_ack q k.kp_ack_success zero_key)
          (key_prog_accepted k laws m room random c q refl p) in
      rw (served, cxl_ide_km_key_prog) (ground arith)

  key_set_go_lem :
      (stream_id key_sub_stream port_index : ℕ)
      → c.port_index ≡ port_index
      → cxl_ide_km_key_set_go k send c stream_id key_sub_stream port_index
        ≡ (with_use k c key_sub_stream, success)
  unfolding cxl_request cxl_acknowledgement cxl_ide_km_key_set_go
  key_set_go_lem stream_id key_sub_stream port_index p =
      let q : Request = cxl_request k k.k_set_go stream_id key_sub_stream port_index zero_key in
      let served =
        serves c q k.k_set_go_size (with_use k c key_sub_stream) q k.k_set_gostop_ack_size
          (cxl_acknowledgement k k.k_set_gostop_ack q 0 zero_key)
          (go_accepted k laws m room random c q refl p) in
      rw (served, cxl_ide_km_key_set_go) (ground arith)

  get_key_lem :
      (stream_id key_sub_stream port_index : ℕ) (old : KeyBuffer)
      → c.port_index ≡ port_index
      → cxl_ide_km_get_key k send c stream_id key_sub_stream port_index old
        ≡ (c, success, generated random)
  unfolding cxl_request cxl_acknowledgement cxl_ide_km_get_key
  get_key_lem stream_id key_sub_stream port_index old p =
      let q : Request = cxl_request k k.get_key stream_id key_sub_stream port_index zero_key in
      let served =
        serves c q k.get_key_size c q (get_key_ack_mine_size k)
          (cxl_acknowledgement k k.get_key_ack q 0 (generated random))
          (get_key_accepted k laws m room random c q refl p) in
      rw (served, cxl_ide_km_get_key) (ground arith)

  query_lem :
      (port_index : ℕ) (old : CxlQueryResult)
      → ide_cap_reg_block_max_count ≤ old.ide_reg_buffer_count
      → let (c', answer) = cxl_ide_km_query k send c port_index old in
        (c' ≡ libcxlidekm_initialize_device_port_context k port_index) × (answer.result ≡ success)
  unfolding cxl_request cxl_ide_km_query cxl_query_answer
  query_lem port_index old fits =
      let q : Request = cxl_request k k.query 0 0 port_index zero_key in
      let served =
        serves c q k.query_size (libcxlidekm_initialize_device_port_context k port_index) q
          (k.query_resp_size + ide_cap_reg_block_max_count * 4)
          (registers k laws m room random c q port_index)
          (query_accepted k laws m room random c q refl) in
      rw served (ground arith)

-- From any state of the port, the requester's QUERY, GET_KEY, KEY_PROG with the key that was brought
-- and K_SET_GO all succeed against the responder: the key is the one that the device draws, with the
-- fixed vector, and it ends in its place, programmed and in use. The transport serves the port, whose
-- generator works, and leaves room for the responses, the caller of QUERY has room for the registers,
-- and the numbers of the protocol obey `CxlIdeKmLaws`.
pub generated_key_in_use :
    (k : CxlIdeKm) (m : ℕ) (random : List ℕ) (send : CxlPort → Request → ℕ → CxlPort × Received)
    (c : CxlPort) (stream_id key_sub_stream port_index status : ℕ) (old : CxlQueryResult)
    (buffer : KeyBuffer)
    → CxlIdeKmLaws k
    → HasRoom k m
    → Serves k random m send
    → ide_cap_reg_block_max_count ≤ old.ide_reg_buffer_count
    → let (c1, answer) = cxl_ide_km_query k send c port_index old in
      let (c2, got, key) =
        cxl_ide_km_get_key k send c1 stream_id key_sub_stream port_index buffer in
      let (c3, prog, kp_ack_status) =
        cxl_ide_km_key_prog k send c2 stream_id key_sub_stream port_index key status in
      let (c4, go) = cxl_ide_km_key_set_go k send c3 stream_id key_sub_stream port_index in
      (answer.result ≡ success)
      × (got ≡ success)
      × (key ≡ generated random)
      × (prog ≡ success)
      × (kp_ack_status ≡ k.kp_ack_success)
      × (go ≡ success)
      × (get_or zero_key c4.key_buffer (place k key_sub_stream) ≡ generated random)
      × (get_or false c4.is_key_prog (place k key_sub_stream) ≡ true)
      × (get_or false c4.is_key_set_go (place k key_sub_stream) ≡ true)
unfolding libcxlidekm_initialize_device_port_context replicate
generated_key_in_use k m random send c stream_id key_sub_stream port_index status old buffer laws
      room serves fits =
    let i = place k key_sub_stream in
    let bound = laws.place_bound key_sub_stream in
    let c1 = libcxlidekm_initialize_device_port_context k port_index in
    let c3 = with_key k c1 key_sub_stream (generated random) in
    let opened = query_lem k laws m room random send serves c port_index old fits in
    rw (opened.0) (
      rw
        (get_key_lem k laws m room random send serves c1 stream_id key_sub_stream port_index buffer
          refl)
        (rw
          (key_prog_lem k laws m room random send serves c1 stream_id key_sub_stream port_index
            (generated random) status refl)
          (rw
            (key_set_go_lem k laws m room random send serves c3 stream_id key_sub_stream port_index
              refl)
            (
              opened.1,
              refl,
              refl,
              refl,
              refl,
              refl,
              ground (
                arith,
                get_or-set zero_key c1.key_buffer i i (generated random) bound,
                ==_refl i,
              ),
              ground (arith, get_or-set false c1.is_key_prog i i true bound, ==_refl i),
              ground (arith, get_or-set false c1.is_key_set_go i i true bound, ==_refl i),
            ))))
