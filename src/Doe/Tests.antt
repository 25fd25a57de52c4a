-- ===== src/Doe/Tests.antt =====
-- The DOE theorems at one responder, whose handlers are the TSP responder of Tsp.Tests and stubs that
-- refuse everything.
use spdm_emu.Prelude.{
  ℕ, ◌+◌, ◌≡◌, ◌≢◌, ◌≤◌, refl, true, false, Bool, arith, replicate, [], ◌∷◌, none, some, Status,
  success, code, if◌then◌else◌, leb,
}
use spdm_emu.Tsp.Messages.{Request, Response}
use spdm_emu.Tsp.Device.{Context}
use spdm_emu.Tsp.Tests.{tsp, blank, no_psk, request}
use spdm_emu.Doe.Vendor.{
  Spdm, VendorRequest, returned, null_call, answers, Func, Entry, Registry, no_registry, matches,
  well_formed, wrap, look_up, call, pci_doe_register_vendor_response_func,
  pci_doe_get_response_spdm_vendor_defined_request,
}
use spdm_emu.Doe.Dispatch.{SpdmLaws, IsVendorAnswer, vendor_response-IsVendorAnswer}
use spdm_emu.Doe.Registered.{registered, registered-null}
use spdm_emu.Doe.Unanswered.{tsp_func, sessionless_answered}
use spdm_emu.Doe.Init.{Protocols, pci_doe_init_responder, handler, deliver, init_responder-deliver}

-- An error of libspdm is a constant of it, and no small number.
abbrev is_error : Status → Bool
is_error success = false
is_error (code n) = false
is_error _ = true

abbrev spdm : Spdm
spdm = record {
  version_14 = 0x14;
  vendor_defined_request = 0xFE;
  vendor_defined_response = 0x7E;
  large_req = 1;
  large_resp = 1;
  registry_pcisig = 3;
  message_header_size = 4;
  request_size = 12;
  request_large_size = 16;
  response_size = 12;
  response_large_size = 16;
  vendor_id_size = 2;
  protocol_header_size = 1;
  is_error = is_error;
}

spdm-laws : SpdmLaws spdm
spdm-laws = record {
  same_headers = refl;
  same_large_headers = refl;
  protocol_within = omega arith;
  protocol_within_large = omega arith;
  pcisig_ne_zero = omega arith;
}

abbrev protocols : Protocols
protocols = record {
  vendor_pcisig = 1;
  vendor_cxl = 0x1E98;
  pci_ide_km = 0;
  pci_tdisp = 1;
  cxl_ide_km = 0;
  cxl_tsp = 1;
}

-- A handler over a counter, which answers by its argument and takes four bytes, as far as they fit.
abbrev echo : Func ℕ ℕ ℕ
echo s session_id a n room = (s + 1, returned success (if leb room 4 then room else 4) (some a))

abbrev asks : VendorRequest ℕ
asks = record {
  spdm_version = 0x12;
  request_response_code = 0xFE;
  param1 = 0;
  standard_id = 3;
  len = 2;
  vendor_id = 1;
  payload_length = 5;
  protocol_id = 1;
  payload = 77;
  large_payload_length = 0;
  large_protocol_id = 0;
  large_payload = 0;
}

abbrev echo_registry : Registry ℕ ℕ ℕ
echo_registry = record {
  table =
      record { standard_id = 3; vendor_id = 1; protocol_id = 0; func = none }
      ∷ record { standard_id = 3; vendor_id = 1; protocol_id = 1; func = some echo }
      ∷ [];
  count = 2;
}

echo_fits : (room : ℕ) → (if leb room 4 then room else 4) ≤ room
echo_fits room = ground arith

vendor_response-IsVendorAnswer_example :
    IsVendorAnswer spdm asks 64
      (pci_doe_get_response_spdm_vendor_defined_request spdm echo_registry 0 (some 9) asks 16 64).1
vendor_response-IsVendorAnswer_example =
    vendor_response-IsVendorAnswer spdm spdm-laws echo_registry 0 (some 9) asks 16 64
      (tt, ((λ s session_id a n room. echo_fits room), tt)) (omega arith)

abbrev registration : Entry ℕ ℕ ℕ
registration = record { standard_id = 3; vendor_id = 1; protocol_id = 1; func = some echo }

-- A NULL pointer for another protocol, and one for the protocol of `asks`.
abbrev null_of : ℕ → Entry ℕ ℕ ℕ
null_of protocol_id = record {
  standard_id = 3;
  vendor_id = 1;
  protocol_id = protocol_id;
  func = none;
}

registered-null_example :
    (pci_doe_get_response_spdm_vendor_defined_request spdm
      (registered spdm no_registry (null_of 0 ∷ registration ∷ []))
      0
      (some 9)
      asks
      16
      64).1
    ≢ null_call
registered-null_example =
    registered-null spdm spdm-laws (null_of 0 ∷ registration ∷ []) 0 (some 9) asks 16 64
      ((λ _ _ other. absurd (omega (arith, other))), ((λ _ _ _ e. cc), tt))

-- The registration takes a NULL pointer, and the dispatch of its protocol calls it.
null_called :
    (pci_doe_get_response_spdm_vendor_defined_request spdm
      (registered spdm no_registry (null_of 1 ∷ registration ∷ []))
      0
      (some 9)
      asks
      16
      64).1
    ≡ null_call
unfolding pci_doe_get_response_spdm_vendor_defined_request registered no_registry replicate
    pci_doe_register_vendor_response_func look_up well_formed matches call
null_called = refl

init_responder-deliver_example :
    ((pci_doe_init_responder spdm protocols echo echo echo echo no_registry).1 ≡ some success)
    × (look_up spdm
          (pci_doe_init_responder spdm protocols echo echo echo echo no_registry).0.table
          asks
          0
          (some 9)
          52
        ≡ deliver spdm protocols echo echo echo echo asks 0
            (some 9)
            52
            (handler spdm protocols echo echo echo echo 1 1))
init_responder-deliver_example =
    init_responder-deliver spdm protocols echo echo echo echo asks 0 (some 9) 52 (omega arith) refl
      refl

-- GET_TARGET_TSP_VERSION, sent outside any session.
abbrev plain : VendorRequest Request
plain = record {
  spdm_version = 0x12;
  request_response_code = 0xFE;
  param1 = 0;
  standard_id = 3;
  len = 2;
  vendor_id = 0x1E98;
  payload_length = 5;
  protocol_id = 1;
  payload = request 0x81;
  large_payload_length = 0;
  large_protocol_id = 0;
  large_payload = request 0x81;
}

abbrev tsp_entry : Entry Context Request Response
tsp_entry = record {
  standard_id = 3;
  vendor_id = 0x1E98;
  protocol_id = 1;
  func = some (tsp_func tsp no_psk);
}

sessionless_answered_example :
    pci_doe_get_response_spdm_vendor_defined_request spdm
      (record { table = tsp_entry ∷ []; count = 1 })
      blank
      none
      plain
      16
      4096
    ≡ (blank, answers 4096 (wrap spdm plain 4084 none))
unfolding matches well_formed
sessionless_answered_example =
    sessionless_answered spdm spdm-laws tsp blank no_psk tsp_entry [] 1 plain 16 4096 refl refl refl
      refl refl (omega arith) (omega arith) (omega arith) (omega arith)
