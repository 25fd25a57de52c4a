-- ===== src/CxlIde/Tests.antt =====
-- The theorem on CXL IDE key management at the numbers of a device, with a transport that calls the
-- responder.
use spdm_emu.Prelude.{
  bit_and_2, ℕ, ◌≡◌, ap, true, false, arith, List, [], ◌∷◌, replicate, some, Reply, asserted, fails,
  replies, success, invalid_msg_field,
}
use spdm_emu.PciIde.Keys.{get_or}
use spdm_emu.CxlIde.Messages.{Request, Response, CxlIdeKm, CxlIdeKmLaws, zero_key}
use spdm_emu.CxlIde.Device.{CxlPort, libcxlidekm_initialize_device_port_context}
use spdm_emu.CxlIde.Responder.{cxl_ide_km_get_response}
use spdm_emu.CxlIde.Requester.{
  Received, lost, received, CxlQueryResult, cxl_ide_km_query, cxl_ide_km_key_prog,
  cxl_ide_km_key_set_go, cxl_ide_km_get_key,
}
use spdm_emu.CxlIde.Exchange.{HasRoom, Serves, generated, generated_key_in_use}

abbrev cxl_numbers : CxlIdeKm
cxl_numbers = record {
  query = 0;
  query_resp = 1;
  key_prog = 2;
  kp_ack = 3;
  k_set_go = 4;
  k_set_stop = 5;
  k_set_gostop_ack = 6;
  get_key = 7;
  get_key_ack = 8;
  kp_ack_success = 0;
  key_direction_mask = 2;
  cap_version_1 = 1;
  iv_gen_cap = 2;
  key_gen_cap = 4;
  k_set_stop_cap = 16;
  header_size = 1;
  query_size = 3;
  query_resp_size = 8;
  key_prog_size = 7;
  key_buffer_size = 44;
  kp_ack_size = 7;
  k_set_go_size = 7;
  k_set_stop_size = 7;
  k_set_gostop_ack_size = 7;
  get_key_size = 7;
}

cxl_numbers-laws : CxlIdeKmLaws cxl_numbers
cxl_numbers-laws = record {
  requests_distinct = ground arith;
  place_bound = λ s. omega (arith, bit_and_2 s);
  query_fits = omega arith;
  key_prog_fits = omega arith;
  k_set_go_fits = omega arith;
  k_set_stop_fits = omega arith;
  get_key_fits = omega arith;
}

abbrev drawn : List ℕ
drawn = 3 ∷ 1 ∷ 4 ∷ 1 ∷ 5 ∷ 9 ∷ 2 ∷ 6 ∷ []

abbrev brought : Reply Response → Received
brought asserted = lost invalid_msg_field
brought (fails status) = lost status
brought (replies size rsp) = received size rsp

abbrev direct : CxlPort → Request → ℕ → CxlPort × Received
direct c r n =
    let (c', r', reply) = cxl_ide_km_get_response cxl_numbers c (some drawn) r n 1024 in
    (c', brought reply)

direct-Serves : Serves cxl_numbers drawn 1024 direct
direct-Serves c r n c' r' size rsp e = ap (λ p. (p.0, brought p.2)) e

cxl_numbers-HasRoom : HasRoom cxl_numbers 1024
cxl_numbers-HasRoom = record {
  for_query = omega arith;
  for_key_prog = omega arith;
  for_go = omega arith;
  for_key = omega arith;
}

abbrev cxl_caller : CxlQueryResult
cxl_caller = record {
  result = invalid_msg_field;
  dev_func_num = 9;
  bus_num = 9;
  segment = 9;
  max_port_index = 9;
  caps = 0;
  ide_reg_buffer = replicate 9 7;
  ide_reg_buffer_count = 9;
}

generated_key_in_use_example :
    let start = libcxlidekm_initialize_device_port_context cxl_numbers 1 in
    let (c1, answer) = cxl_ide_km_query cxl_numbers direct start 4 cxl_caller in
    let (c2, got, key) = cxl_ide_km_get_key cxl_numbers direct c1 0 0x12 4 zero_key in
    let (c3, prog, kp_ack_status) = cxl_ide_km_key_prog cxl_numbers direct c2 0 0x12 4 key 77 in
    let (c4, go) = cxl_ide_km_key_set_go cxl_numbers direct c3 0 0x12 4 in
    (answer.result ≡ success)
    × (got ≡ success)
    × (key ≡ generated drawn)
    × (prog ≡ success)
    × (kp_ack_status ≡ 0)
    × (go ≡ success)
    × (get_or zero_key c4.key_buffer 1 ≡ generated drawn)
    × (get_or false c4.is_key_prog 1 ≡ true)
    × (get_or false c4.is_key_set_go 1 ≡ true)
generated_key_in_use_example =
    generated_key_in_use cxl_numbers 1024 drawn direct
      (libcxlidekm_initialize_device_port_context cxl_numbers 1) 0 0x12 4 77 cxl_caller zero_key
      cxl_numbers-laws cxl_numbers-HasRoom direct-Serves (omega arith)
