-- ===== src/Tdisp/Tests.antt =====
-- The TDISP theorems at one device: a TDI for which the numbers of the protocol are those of the
-- specification, and short structures.
use spdm_emu.Prelude.{
  ℕ, ◌≡◌, ◌↔◌, refl, true, false, Bool, arith, List, [], ◌∷◌, ◌++◌, ◌==◌, ◌&&◌, take, drop, none,
  success, replicate, Status,
}
use spdm_emu.Tdisp.Messages.{InterfaceId, Request, Tdisp, TdispLaws}
use spdm_emu.Tdisp.Device.{
  Interface, Surroundings, libtdisp_initialize_interface_context, libtdisp_get_interface_context,
  same_interface, default_bytes, generate_report, generate_default,
}
use spdm_emu.Tdisp.Responder.{pci_tdisp_get_response, open_dispatch}
use spdm_emu.Tdisp.Responder.Replies.{
  HasRoom, IsAnswer, Untouched, response-IsAnswer, response_error_unchanged,
}
use spdm_emu.Tdisp.Machine.{Move, response-Move}
use spdm_emu.Tdisp.Trace.{Call, run}
use spdm_emu.Tdisp.Nonce.{HandsOutThenPresents, run_needs_nonce}
use spdm_emu.Tdisp.Requester.{out_of_fuel, returns, pci_tdisp_get_interface_report}
use spdm_emu.Tdisp.Reassembly.{responder, interface_report_fetched}
use spdm_emu.Tdisp.Stall.{empty_portion, interface_report_never_ends}
use spdm_emu.Tdisp.Valid.{IsValid, ReportFits, initialize-IsValid, run-IsValid}
use spdm_emu.Tdisp.Handshake.{lock_then_start}
use spdm_emu.Tdisp.Calls.{
  Misread, plain_request, pci_tdisp_lock_interface, pci_tdisp_start_interface,
}
use spdm_emu.Tdisp.Calls.Session.{interface_started}

bytes_equal : List ℕ → List ℕ → Bool
bytes_equal [] [] = true
bytes_equal [] (y ∷ ys) = false
bytes_equal (x ∷ xs) [] = false
bytes_equal (x ∷ xs) (y ∷ ys) = x == y && bytes_equal xs ys

bytes_equal_iff : (xs ys : List ℕ) → (bytes_equal xs ys ≡ true) ↔ (xs ≡ ys)
unfolding bytes_equal
bytes_equal_iff [] [] = (λ _. refl, λ _. refl)
bytes_equal_iff [] (y ∷ ys) = (λ e. cc, λ e. cc)
bytes_equal_iff (x ∷ xs) [] = (λ e. cc, λ e. cc)
bytes_equal_iff (x ∷ xs) (y ∷ ys) =
    (λ e. ground (arith, bytes_equal_iff xs ys), λ e. ground (arith, bytes_equal_iff xs ys))

-- The report is 200 bytes long here: three portions and a rest.
abbrev tdisp : Tdisp
tdisp = record {
  version_10 = 0x10;
  get_version = 0x81;
  get_capabilities = 0x82;
  lock_interface_req = 0x83;
  get_device_interface_report = 0x84;
  get_device_interface_state = 0x85;
  start_interface_req = 0x86;
  stop_interface_req = 0x87;
  version = 0x01;
  capabilities = 0x02;
  lock_interface = 0x03;
  device_interface_report = 0x04;
  device_interface_state = 0x05;
  start_interface = 0x06;
  stop_interface = 0x07;
  error = 0x7F;
  invalid_request = 1;
  invalid_interface = 0x101;
  invalid_interface_state = 4;
  invalid_nonce = 0x102;
  insufficient_entropy = 0x103;
  unsupported_request = 7;
  version_mismatch = 0x41;
  config_unlocked = 0;
  config_locked = 1;
  run = 2;
  no_fw_update = 1;
  system_cache_line_size = 2;
  lock_msix = 4;
  no_update_after_lock = 1;
  dma_without_pasid = 2;
  is_non_tee_mem = 4;
  is_mem_attr_updatable = 8;
  header_size = 16;
  get_version_size = 16;
  get_capabilities_size = 20;
  lock_interface_req_size = 36;
  get_report_size = 20;
  get_state_size = 16;
  start_interface_req_size = 48;
  stop_interface_req_size = 16;
  version_rsp_size = 18;
  capabilities_rsp_size = 44;
  lock_interface_rsp_size = 48;
  report_rsp_size = 20;
  state_rsp_size = 17;
  start_interface_rsp_size = 16;
  stop_interface_rsp_size = 16;
  error_size = 24;
  interface_id_rest_size = 0;
  req_caps_size = 4;
  req_msg_supported_size = 16;
  lock_interface_param_size = 20;
  nonce_size = 2;
  report_bytes = λ report. replicate 200 report.interface_info;
  misread = λ body. record { portion_length = 0; remainder_length = 0; report = [] };
  mem_equal = bytes_equal;
}

tdisp-laws : TdispLaws tdisp
unfolding bytes_equal
tdisp-laws = record {
  unlocked_ne_locked = omega arith;
  unlocked_ne_run = omega arith;
  locked_ne_run = omega arith;
  invalid_interface_ne_success = omega arith;
  invalid_interface_state_ne_success = omega arith;
  invalid_nonce_ne_success = omega arith;
  insufficient_entropy_ne_success = omega arith;
  mem_equal_iff = bytes_equal_iff;
  types_distinct = omega arith;
  header_fits = omega arith;
}

abbrev tdi : InterfaceId
tdi = record { function_id = 5; rest = [] }

abbrev context : Interface
context = record {
  interface_id = tdi;
  supported_tdisp_versions = 0x10 ∷ [];
  supported_tdisp_versions_count = 1;
  tdisp_rsp_caps = record {
    dsm_caps = 0;
    req_msg_supported = 0xFE ∷ [];
    lock_interface_flags_supported = 7;
    dev_addr_width = 48;
    num_req_this = 0;
    num_req_all = 0;
  };
  tdisp_version = 0;
  tdisp_req_caps = [];
  lock_interface_param = [];
  tdi_state = 0;
  start_interface_nonce = [];
  interface_report = [];
  interface_report_size = 0;
}

abbrev drawn : List ℕ
drawn = 0xAB ∷ 0xCD ∷ []

abbrev entropy : Surroundings
entropy = record { random_ok = true; random_bytes = drawn; load_from_json = none }

abbrev request : ℕ → List ℕ → Request
request message_type nonce = record {
  header = record { version = 0x10; message_type = message_type; interface_id = tdi };
  req_caps = [];
  lock_interface_param = 1 ∷ [];
  start_interface_nonce = nonce;
  offset = 0;
  length = 64;
}

abbrev room : ℕ
room = 84

has-room : HasRoom tdisp room
has-room = omega arith

response-Move_example :
    Move tdisp
      (request 0x83 [])
      0
      (pci_tdisp_get_response tdisp context entropy (request 0x83 []) 36 room).0.tdi_state
response-Move_example = response-Move tdisp context entropy (request 0x83 []) 36 room

response-IsAnswer_example :
    IsAnswer tdisp
      (request 0x83 [])
      36
      room
      (pci_tdisp_get_response tdisp context entropy (request 0x83 []) 36 room).1
response-IsAnswer_example =
    response-IsAnswer tdisp context entropy (request 0x83 []) 36 room has-room

response_error_unchanged_example :
    Untouched tdisp context entropy
      (request 0x86 drawn)
      48
      room
      (pci_tdisp_get_response tdisp context entropy (request 0x86 drawn) 48 room)
response_error_unchanged_example =
    response_error_unchanged tdisp context entropy (request 0x86 drawn) 48 room

-- A TDI that is locked, with a report of 100 bytes.
abbrev report : List ℕ
report = replicate 100 7

abbrev locked_context : Interface
locked_context = record context {
  tdi_state = 1;
  start_interface_nonce = drawn;
  interface_report = report;
  interface_report_size = 100;
}

lock_then_start_example :
    (pci_tdisp_get_response tdisp context entropy (request 0x83 []) 36 room).0.tdi_state ≡ 1
unfolding libtdisp_get_interface_context same_interface bytes_equal
lock_then_start_example =
    (lock_then_start tdisp context entropy entropy (request 0x83 []) (request 0x86 drawn) room room
      tdisp-laws refl refl (record { versioned = refl; known = refl })
      (record { versioned = refl; known = refl }) refl refl has-room has-room).1

abbrev lock_call : Call
lock_call = record {
  surroundings = entropy;
  request = request 0x83 [];
  request_size = 36;
  response_size = room;
}

abbrev start_call : Call
start_call = record {
  surroundings = entropy;
  request = request 0x86 drawn;
  request_size = 48;
  response_size = room;
}

abbrev history : List Call
history = lock_call ∷ start_call ∷ []

history_runs : (run tdisp context history).tdi_state ≡ 2
unfolding run pci_tdisp_get_response open_dispatch libtdisp_get_interface_context same_interface
    bytes_equal generate_report generate_default replicate
history_runs = refl

run_needs_nonce_example :
    HandsOutThenPresents tdisp context history (run tdisp context history).start_interface_nonce
run_needs_nonce_example = run_needs_nonce tdisp tdisp-laws context history refl history_runs

report-fits : ReportFits tdisp
unfolding default_bytes replicate
report-fits = omega arith

fresh : Interface
fresh = libtdisp_initialize_interface_context tdisp tdi

run-IsValid_example : IsValid tdisp (run tdisp fresh history)
unfolding fresh
run-IsValid_example =
    run-IsValid tdisp tdisp-laws report-fits (libtdisp_initialize_interface_context tdisp tdi)
      history (tt, (tt, tt)) (initialize-IsValid tdisp tdi)

abbrev buffer : List ℕ
buffer = replicate 128 0

interface_report_fetched_example :
    pci_tdisp_get_interface_report tdisp
      (responder tdisp entropy (Status.code 9) room)
      tdi
      128
      2
      locked_context
      buffer
    ≡ (locked_context, returns success 100 (take 100 report ++ drop 100 buffer))
unfolding libtdisp_get_interface_context same_interface bytes_equal replicate
interface_report_fetched_example =
    interface_report_fetched tdisp tdisp-laws locked_context entropy (Status.code 9) tdi room 128
      buffer
      (record {
        known = refl;
        filled = omega arith;
        small = omega arith;
        stored = omega arith;
        fits = omega arith;
        space = omega arith;
        roomy = omega arith;
      })
      2 (omega arith)

interface_report_never_ends_example :
    pci_tdisp_get_interface_report tdisp
      (λ (peer : Unit {0}) q n. (peer, empty_portion tdisp 5 q))
      tdi
      128
      9
      tt
      buffer
    ≡ (tt, out_of_fuel)
interface_report_never_ends_example =
    interface_report_never_ends tdisp (λ (peer : Unit {0}) q n. (peer, empty_portion tdisp 5 q)) tdi
      128 5 (λ peer q n. refl) (omega arith) (omega arith) (omega arith) 9 tt buffer

abbrev misaddressed : Request
misaddressed = request 0x99 []

abbrev nothing_misread : Misread
nothing_misread = record {
  version = λ _. (0, []);
  capabilities = λ _. record {
    dsm_caps = 0;
    req_msg_supported = [];
    lock_interface_flags_supported = 0;
    dev_addr_width = 0;
    num_req_this = 0;
    num_req_all = 0;
  };
  nonce = λ _. [];
  tdi_state = λ _. 9;
}

interface_started_example :
    let (s', locked, nonce) =
      pci_tdisp_lock_interface tdisp nothing_misread
        (responder tdisp entropy (Status.code 9) room)
        tdi
        context
        []
        [] in
    let (s'', started) =
      pci_tdisp_start_interface tdisp nothing_misread
        (responder tdisp entropy (Status.code 9) room)
        tdi
        s'
        nonce in
    (locked ≡ success)
    × (nonce ≡ drawn)
    × (s'.tdi_state ≡ 1)
    × (started ≡ success)
    × (s''.tdi_state ≡ 2)
unfolding libtdisp_get_interface_context same_interface bytes_equal plain_request replicate
interface_started_example =
    interface_started tdisp nothing_misread entropy (Status.code 9) room tdi context [] []
      tdisp-laws has-room refl refl refl
