-- ===== src/Doe/Discovery.antt =====
-- DOE discovery: library/pci_doe_requester_lib/pci_doe_req_discovery.c, whose loop asks for one
-- protocol after the other, and library/pci_doe_responder_lib/pci_doe_dispatch.c, which answers. The
-- message structures are declared by libspdm: their numbers are the fields of `Doe`, with the two
-- functions of libspdm that take a request apart and put a response together.
pub mod Ends
pub mod Found
mod Tests
use spdm_emu.Prelude.{
  ℕ, zero, suc, ◌+◌, ◌*◌, ◌/◌, ◌^◌, ◌≡◌, ◌<◌, Bool, ◌&&◌, bit_or, List, [], ◌∷◌, set, get_elem?,
  length, Option, none, some, ◌-◌, ◌==◌, ◌!=◌, ltb, leb, if◌then◌else◌, Reply, asserted, fails,
  replies, Status, success, invalid_msg_size, invalid_msg_field,
}

-- `pci_doe_data_object_protocol_t`
pub record Protocol : Type 0 where
  pub vendor_id : ℕ
  pub data_object_type : ℕ

-- `doe_discovery_request_mine_t`: the DOE header, and the discovery request.
pub record DiscoveryRequest : Type 0 where
  pub vendor_id : ℕ
  pub data_object_type : ℕ
  pub length : ℕ
  pub index : ℕ
  pub version : ℕ

-- `doe_discovery_response_mine_t`: the DOE header, and the discovery response.
pub record DiscoveryResponse : Type 0 where
  pub vendor_id : ℕ
  pub data_object_type : ℕ
  pub length : ℕ
  pub found : Protocol
  pub next_index : ℕ

pub record Doe : Type 0 where
  pub vendor_id_pcisig : ℕ
  pub type_doe_discovery : ℕ
  pub type_spdm : ℕ
  pub type_secured_spdm : ℕ
  -- sizeof
  pub protocol_size : ℕ
  pub request_size : ℕ
  pub response_size : ℕ
  -- libspdm_pci_doe_decode_discovery_request, and libspdm_pci_doe_encode_discovery on the word at
  -- `reply[2]`
  pub decode : ℕ → DiscoveryRequest → Status × ℕ
  pub encode : ℕ → ℕ → Reply DiscoveryResponse

-- What pci_doe_send_receive_data leaves: an error status, or a response with its size.
pub data Answer : Type 0 where
  no_answer : Status → Answer
  answer : ℕ → DiscoveryResponse → Answer

-- How pci_doe_discovery ends: with its status, `*data_object_protocol_size` and the table.
-- `unfinished` is a loop that has run out of fuel, and `over_run` the failed assertion.
pub data Discovery : Type 0 where
  unfinished over_run : Discovery
  ended : Status → ℕ → List Protocol → Discovery

module _ (k : Doe) where
  unfoldable pub discovery_request : ℕ → ℕ → DiscoveryRequest
  discovery_request index version = record {
    vendor_id = k.vendor_id_pcisig;
    data_object_type = k.type_doe_discovery;
    length = k.request_size / 4;
    index = index;
    version = version;
  }

  -- The checks on a response to the request for `index`.
  unfoldable pub response_status : ℕ → ℕ → DiscoveryResponse → Status
  response_status index size rsp =
      if size != k.response_size
      then invalid_msg_size
      else if rsp.vendor_id != k.vendor_id_pcisig
      then invalid_msg_field
      else if rsp.data_object_type != k.type_doe_discovery
      then invalid_msg_field
      else if rsp.length != k.response_size / 4
      then invalid_msg_field
      else if rsp.next_index != 0 && rsp.next_index != index + 1
      then invalid_msg_field
      else success

module _ (k : Doe) {P : Type 0} (send : P → DiscoveryRequest → ℕ → P × Answer) where
  -- The rest of the round once a response has passed the checks; `next` is the next round.
  unfoldable pub on_protocol :
      (P → ℕ → List Protocol → P × Discovery)
      → P
      → ℕ
      → ℕ
      → List Protocol
      → DiscoveryResponse
      → P × Discovery
  on_protocol next peer total_index index table rsp =
      let table' = set table index rsp.found in
      if rsp.next_index != 0
      then next peer rsp.next_index table'
      else if leb (index + 1) total_index
      then (peer, ended success ((index + 1) * k.protocol_size) table')
      else (peer, over_run)

  -- `room` is `*data_object_protocol_size` on entry.
  unfoldable pub on_discovery :
      (P → ℕ → List Protocol → P × Discovery)
      → ℕ
      → ℕ
      → ℕ
      → List Protocol
      → P × Answer
      → P × Discovery
  on_discovery next room total_index index table (peer, no_answer status) =
      (peer, ended status room table)
  on_discovery next room total_index index table (peer, answer size rsp) =
      elim (response_status k index size rsp) [
        | success ↦ on_protocol next peer total_index index table rsp
        | status ↦ (peer, ended status room table)
      ]

  unfoldable pub discovery_loop : ℕ → ℕ → ℕ → ℕ → P → ℕ → List Protocol → P × Discovery
  unfolding discovery_request on_discovery
  discovery_loop zero version room total_index peer index table = (peer, unfinished)
  discovery_loop (suc fuel) version room total_index peer index table =
      if ltb total_index (index + 1)
      then (peer, ended invalid_msg_size room table)
      else on_discovery (discovery_loop fuel version room total_index) room total_index index table
          (send peer (discovery_request k index version) k.request_size)

  -- One round for each protocol that the caller has room for, and one to find that there is no more.
  unfoldable pub pci_doe_discovery : P → List Protocol → ℕ → ℕ → P × Discovery
  unfolding discovery_loop
  pci_doe_discovery peer table room version =
      let total_index = room / k.protocol_size in
      discovery_loop (total_index + 1) version room total_index peer 0 table

module _ (k : Doe) where
  -- `m_data_object_protocol`
  abbrev pub m_data_object_protocol : List Protocol
  m_data_object_protocol =
      record { vendor_id = k.vendor_id_pcisig; data_object_type = k.type_doe_discovery }
      ∷ record { vendor_id = k.vendor_id_pcisig; data_object_type = k.type_spdm }
      ∷ record { vendor_id = k.vendor_id_pcisig; data_object_type = k.type_secured_spdm }
      ∷ []

  -- The word `reply[2]` for a protocol and the index of the next one.
  unfoldable pub reply_word : ℕ → Protocol → ℕ
  reply_word next_index p =
      bit_or (bit_or (next_index * 2 ^ 24) (p.data_object_type * 2 ^ 16)) p.vendor_id

  -- What is done with what libspdm has decoded.
  unfoldable pub discovery_reply : Status × ℕ → ℕ → Reply DiscoveryResponse
  unfolding reply_word
  discovery_reply (success, index) response_size = elim (get_elem? m_data_object_protocol index) [
    | none ↦ fails invalid_msg_field
    | some p ↦
        if index == length m_data_object_protocol - 1
        then k.encode (reply_word 0 p) response_size
        else k.encode (reply_word (index + 1) p) response_size
  ]
  discovery_reply (status, index) response_size = fails status

  unfoldable pub pci_doe_get_response_doe_request :
      DiscoveryRequest → ℕ → ℕ → Reply DiscoveryResponse
  unfolding discovery_reply
  pci_doe_get_response_doe_request r request_size response_size =
      discovery_reply (k.decode request_size r) response_size
