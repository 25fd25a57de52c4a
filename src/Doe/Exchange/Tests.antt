-- ===== src/Doe/Exchange/Tests.antt =====
-- The theorems on vendor defined requests at a peer that answers with five bytes, into a buffer of
-- eight bytes and into one of two.
use spdm_emu.Prelude.{
  ℕ, ◌+◌, ◌≡◌, ◌<◌, refl, false, arith, List, [], ◌∷◌, ◌++◌, take, drop, replicate, none, success,
}
use spdm_emu.Doe.Vendor.{Spdm}
use spdm_emu.Doe.Exchange.{
  VendorMessage, VendorAnswer, answered, vendor_max_message_size, vendor_message,
  pci_doe_spdm_vendor_send_receive_data_ex,
}
use spdm_emu.Doe.Exchange.Stored.{IsResponse, vendor_response_delivered, vendor_response_overruns}

abbrev sizes : Spdm
sizes = record {
  version_14 = 0x14;
  vendor_defined_request = 0xfe;
  vendor_defined_response = 0x7e;
  large_req = 1;
  large_resp = 1;
  registry_pcisig = 3;
  message_header_size = 4;
  request_size = 12;
  request_large_size = 16;
  response_size = 12;
  response_large_size = 16;
  vendor_id_size = 2;
  protocol_header_size = 1;
  is_error = λ _. false;
}

abbrev five_bytes : VendorMessage
five_bytes = record {
  session_id = none;
  standard_id = 3;
  vendor_id_len = 2;
  vendor_id = 1;
  payload_length = 6;
  protocol_id = 0;
  payload = 11 ∷ 12 ∷ 13 ∷ 14 ∷ 15 ∷ 77 ∷ 77 ∷ [];
}

abbrev peer_of_five : ℕ → VendorMessage → ℕ × VendorAnswer
peer_of_five n m = (n + 1, answered five_bytes)

abbrev question : List ℕ
question = 0 ∷ 5 ∷ []

abbrev memory : List ℕ
memory = 0 ∷ 1 ∷ 2 ∷ 3 ∷ 4 ∷ 5 ∷ 6 ∷ 7 ∷ 8 ∷ 9 ∷ []

five_bytes-IsResponse : IsResponse sizes (vendor_message sizes none 1 0 question 2) five_bytes
unfolding vendor_message
five_bytes-IsResponse = record {
  standard = refl;
  vendor_len = refl;
  vendor = refl;
  protocol = refl;
  header = omega arith;
  whole = omega arith;
}

vendor_response_delivered_example :
    let (peer', d) =
      pci_doe_spdm_vendor_send_receive_data_ex sizes peer_of_five 0 none 1 0 question 2 memory 8 in
    (d.status ≡ success)
    × (d.response_size ≡ 5)
    × (take 5 d.response ≡ 11 ∷ 12 ∷ 13 ∷ 14 ∷ 15 ∷ [])
    × (drop 5 d.response ≡ 5 ∷ 6 ∷ 7 ∷ 8 ∷ 9 ∷ [])
    × (d.request_buffer ≡ replicate (1 + vendor_max_message_size) 0)
    × (take 5 d.response_buffer ≡ replicate 5 0)
vendor_response_delivered_example =
    vendor_response_delivered sizes peer_of_five 0 none 1 0 question 2 memory 8 five_bytes refl
      five_bytes-IsResponse

vendor_response_overruns_example :
    let (peer', d) =
      pci_doe_spdm_vendor_send_receive_data_ex sizes peer_of_five 0 none 1 0 question 2 memory 2 in
    (d.status ≡ success)
    × (drop 2 d.response ≡ (13 ∷ 14 ∷ 15 ∷ []) ++ (5 ∷ 6 ∷ 7 ∷ 8 ∷ 9 ∷ []))
    × (0 < 3)
vendor_response_overruns_example =
    vendor_response_overruns sizes peer_of_five 0 none 1 0 question 2 memory 2 five_bytes refl
      five_bytes-IsResponse (omega arith)
