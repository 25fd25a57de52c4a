-- ===== src/PciIde/Tests.antt =====
-- The theorems on IDE key management at the numbers of the protocol, with a transport that calls the
-- responder.
use spdm_emu.Prelude.{
  bit_and_3, ℕ, ◌≡◌, refl, ap, true, false, arith, List, [], ◌∷◌, replicate, Reply, asserted, fails,
  replies, success, invalid_msg_field,
}
use spdm_emu.PciIde.Messages.{Request, Response, IdeKm, IdeKmLaws}
use spdm_emu.PciIde.Device.{Port, libidekm_initialize_device_port_context}
use spdm_emu.PciIde.Responder.{pci_ide_km_get_response}
use spdm_emu.PciIde.Requester.{
  Received, lost, received, QueryResult, pci_ide_km_query, pci_ide_km_key_prog,
  pci_ide_km_key_set_go, pci_ide_km_key_set_stop,
}
use spdm_emu.PciIde.Keys.{Keys, HasRoom, Shows, get_or, run, effects, run-Shows, replicate-Row}
use spdm_emu.PciIde.Exchange.{Serves, key_establishment, go_without_key}

abbrev numbers : IdeKm
numbers = record {
  query = 0;
  query_resp = 1;
  key_prog = 2;
  kp_ack = 3;
  k_set_go = 4;
  k_set_stop = 5;
  k_set_gostop_ack = 6;
  kp_ack_success = 0;
  key_set_mask = 1;
  key_direction_mask = 2;
  header_size = 1;
  query_size = 3;
  query_resp_size = 7;
  key_prog_size = 7;
  key_buffer_size = 48;
  kp_ack_size = 7;
  k_set_go_size = 7;
  k_set_stop_size = 7;
  k_set_gostop_ack_size = 7;
}

numbers-laws : IdeKmLaws numbers
numbers-laws = record {
  requests_distinct = ground arith;
  slot_bound = bit_and_3;
  query_resp_lem = refl;
  query_fits = omega arith;
  key_prog_fits = omega arith;
  k_set_go_fits = omega arith;
  k_set_stop_fits = omega arith;
}

abbrev brought : Reply Response → Received
brought asserted = lost invalid_msg_field
brought (fails status) = lost status
brought (replies size rsp) = received size rsp

abbrev direct : Port → Request → ℕ → Port × Received
direct c r n =
    let (c', r', reply) = pci_ide_km_get_response numbers c r n 1024 in (c', brought reply)

direct-Serves : Serves numbers 1024 direct
direct-Serves c r n c' r' size rsp e = ap (λ p. (p.0, brought p.2)) e

numbers-HasRoom : HasRoom numbers 1024
numbers-HasRoom = record {
  for_query = omega arith;
  for_key_prog = omega arith;
  for_go = omega arith;
}

-- A port that was opened for the index 3 of another link.
abbrev opened : Port
opened = libidekm_initialize_device_port_context numbers 3

abbrev caller : QueryResult
caller = record {
  result = invalid_msg_field;
  dev_func_num = 9;
  bus_num = 9;
  segment = 9;
  max_port_index = 9;
  ide_reg_buffer = replicate 80 7;
  ide_reg_buffer_count = 80;
}

abbrev some_key : List ℕ
some_key = replicate 48 0xa5

key_establishment_example :
    let (c1, answer) = pci_ide_km_query numbers direct opened 5 caller in
    let (c2, prog, kp_ack_status) = pci_ide_km_key_prog numbers direct c1 1 0x12 5 some_key 77 in
    let (c3, go) = pci_ide_km_key_set_go numbers direct c2 1 0x12 5 in
    let (c4, stop) = pci_ide_km_key_set_stop numbers direct c3 1 0x12 5 in
    (answer.result ≡ success)
    × (prog ≡ success)
    × (kp_ack_status ≡ 0)
    × (go ≡ success)
    × (get_or [] c3.key_buffer 2 ≡ some_key)
    × (get_or false c3.is_key_prog 2 ≡ true)
    × (get_or false c3.is_key_set_go 2 ≡ true)
    × (stop ≡ success)
    × (get_or [] c4.key_buffer 2 ≡ some_key)
    × (get_or false c4.is_key_prog 2 ≡ true)
    × (get_or false c4.is_key_set_go 2 ≡ false)
key_establishment_example =
    key_establishment numbers numbers-laws 1024 numbers-HasRoom direct direct-Serves opened 1 0x12 5
      some_key caller 77 (omega arith)

go_without_key_example :
    let (c1, answer) = pci_ide_km_query numbers direct opened 5 caller in
    let (c2, go) = pci_ide_km_key_set_go numbers direct c1 1 0x12 5 in
    (answer.result ≡ success)
    × (go ≡ success)
    × (get_or false c2.is_key_set_go 2 ≡ true)
    × (get_or false c2.is_key_prog 2 ≡ false)
    × (get_or [] c2.key_buffer 2 ≡ replicate 48 0)
go_without_key_example =
    go_without_key numbers numbers-laws 1024 numbers-HasRoom direct direct-Serves opened 1 0x12 5
      caller (omega arith)

-- QUERY for port 5, a key for it, a key for another port, a start, and a request that is too short.
abbrev asked : ℕ → ℕ → ℕ → List ℕ → Request
asked object_id key_sub_stream port_index key = record {
  object_id = object_id;
  stream_id = 1;
  key_sub_stream = key_sub_stream;
  port_index = port_index;
  key_buffer = key;
}

abbrev history : List (Request × ℕ × ℕ)
history =
    (asked 0 0 5 [], 3, 1024)
    ∷ (asked 2 1 5 some_key, 55, 1024)
    ∷ (asked 2 3 6 some_key, 55, 1024)
    ∷ (asked 4 1 5 [], 7, 1024)
    ∷ (asked 5 1 5 [], 6, 1024)
    ∷ []

abbrev blank : Keys
blank = record {
  port = 3;
  at = λ _. record { material = replicate 48 0; programmed = false; in_use = false };
}

opened-Shows : Shows opened blank
unfolding libidekm_initialize_device_port_context
opened-Shows = record {
  port = refl;
  material = replicate-Row [] (replicate 48 0);
  programmed = replicate-Row false false;
  in_use = replicate-Row false false;
}

run-Shows_example : Shows (run numbers opened history) (effects numbers blank history)
run-Shows_example =
    run-Shows numbers history opened blank numbers-laws (ground (arith, numbers-HasRoom))
      opened-Shows

history_leaves :
    (effects numbers blank history).at 1
    ≡ record { material = some_key; programmed = true; in_use = true }
unfolding effects
history_leaves = refl
