-- ===== src/Doe/Discovery/Tests.antt =====
-- The theorems on DOE discovery at the numbers of the protocol, with a transport that calls the
-- responder and counts the messages, and a peer that always names a next index.
use spdm_emu.Prelude.{
  ℕ, suc, ◌+◌, ◌/◌, ◌%◌, ◌^◌, ◌≡◌, refl, arith, List, [], ◌∷◌, ◌==◌, ltb, if◌then◌else◌, Reply,
  asserted, fails, replies, success, invalid_msg_size, invalid_msg_field, ◌&&◌,
}
use spdm_emu.Doe.Discovery.{
  Protocol, DiscoveryRequest, DiscoveryResponse, Doe, Answer, no_answer, answer, ended,
  pci_doe_discovery, pci_doe_get_response_doe_request, discovery_loop, discovery_request,
  on_discovery, on_protocol, response_status,
}
use spdm_emu.Doe.Discovery.Ends.{FailsByError, IsEnd, pci_doe_discovery-IsEnd}
use spdm_emu.Doe.Discovery.Found.{DoeLaws, Answers, protocol, protocols_discovered}

abbrev doe_numbers : Doe
doe_numbers = record {
  vendor_id_pcisig = 1;
  type_doe_discovery = 0;
  type_spdm = 1;
  type_secured_spdm = 2;
  protocol_size = 3;
  request_size = 12;
  response_size = 12;
  decode = λ n r.
      if n == 12 && r.vendor_id == 1 && r.data_object_type == 0 && r.length == 3
      then (success, r.index)
      else (invalid_msg_field, 0);
  encode = λ word room.
      if ltb room 12
      then fails invalid_msg_size
      else replies 12 (record {
        vendor_id = 1;
        data_object_type = 0;
        length = 3;
        found = record { vendor_id = word % 2 ^ 16; data_object_type = word / 2 ^ 16 % 2 ^ 8 };
        next_index = word / 2 ^ 24;
      });
}

doe_numbers-laws : DoeLaws doe_numbers
doe_numbers-laws = record {
  vendor_lem = refl;
  discovery_lem = refl;
  spdm_lem = refl;
  secured_lem = refl;
  decode_lem = λ r v t l. rw (v, t, l) refl;
  encode_lem = λ word bound. refl;
}

abbrev replied_with : Reply DiscoveryResponse → Answer
replied_with asserted = no_answer invalid_msg_field
replied_with (fails status) = no_answer invalid_msg_field
replied_with (replies size rsp) = answer size rsp

abbrev counting : ℕ → DiscoveryRequest → ℕ → ℕ × Answer
counting peer r n = (suc peer, replied_with (pci_doe_get_response_doe_request doe_numbers r n 12))

counting-Answers : Answers doe_numbers counting
counting-Answers peer r n size rsp e = rw e refl

abbrev blank_table : List Protocol
blank_table = protocol 9 ∷ protocol 9 ∷ protocol 9 ∷ protocol 7 ∷ []

protocols_discovered_example :
    (pci_doe_discovery doe_numbers counting 0 blank_table 12 0).1
    ≡ ended success 9 (protocol 0 ∷ protocol 1 ∷ protocol 2 ∷ protocol 7 ∷ [])
protocols_discovered_example =
    protocols_discovered doe_numbers counting 0 blank_table 12 0 doe_numbers-laws counting-Answers
      (omega arith) (omega arith) (omega arith)

-- Each response names the next index.
abbrev endless : ℕ → DiscoveryRequest → ℕ → ℕ × Answer
endless peer r n = (
  suc peer,
  answer 12 (record {
    vendor_id = 1;
    data_object_type = 0;
    length = 3;
    found = protocol 5;
    next_index = r.index + 1;
  }),
)

endless-FailsByError : FailsByError endless
endless-FailsByError peer r n = λ e. cc

pci_doe_discovery-IsEnd_example :
    IsEnd doe_numbers 12 4 (pci_doe_discovery doe_numbers endless 0 blank_table 12 0).1
pci_doe_discovery-IsEnd_example =
    pci_doe_discovery-IsEnd doe_numbers endless 0 blank_table 12 0 endless-FailsByError

-- The caller's four places are filled, and the fifth request is not sent.
endless_ends :
    pci_doe_discovery doe_numbers endless 0 blank_table 12 0
    ≡ (4, ended invalid_msg_size 12 (protocol 5 ∷ protocol 5 ∷ protocol 5 ∷ protocol 5 ∷ []))
unfolding pci_doe_discovery discovery_loop discovery_request on_discovery on_protocol
    response_status
endless_ends = refl
