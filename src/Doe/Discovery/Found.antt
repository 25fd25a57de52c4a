-- ===== src/Doe/Discovery/Found.antt =====
-- The discovery loop of the requester against the responder of this repository.
use native.Mathlib.Nat.{le-div_iff_mul-le}
use spdm_emu.Prelude.{
  ℕ, zero, suc, ◌+◌, ◌-◌, ◌*◌, ◌/◌, ◌%◌, ◌^◌, ◌≡◌, ◌≤◌, ◌<◌, refl, ap, ◌∙◌, true, false, arith,
  bit_or, ◌==◌, ltb, leb, if◌then◌else◌, List, [], ◌∷◌, ◌++◌, drop, length, replies, success,
}
use spdm_emu.Doe.Discovery.{
  Protocol, DiscoveryRequest, DiscoveryResponse, Doe, Answer, answer, Discovery, ended,
  discovery_request, response_status, on_protocol, on_discovery, discovery_loop, pci_doe_discovery,
  m_data_object_protocol, reply_word, discovery_reply, pci_doe_get_response_doe_request,
}

-- The protocol of PCI-SIG with a type.
abbrev pub protocol : ℕ → Protocol
protocol type = record { vendor_id = 1; data_object_type = type }

-- The response that carries a word: the vendor in the low two bytes, then the type, and the next
-- index in the highest byte.
abbrev pub carrying : Doe → ℕ → DiscoveryResponse
carrying k word = record {
  vendor_id = k.vendor_id_pcisig;
  data_object_type = k.type_doe_discovery;
  length = k.response_size / 4;
  found = record { vendor_id = word % 2 ^ 16; data_object_type = word / 2 ^ 16 % 2 ^ 8 };
  next_index = word / 2 ^ 24;
}

-- The documented numbers of PCI DOE, and the documented effect of libspdm's functions on a request
-- with a good header and on a word.
pub record DoeLaws (k : Doe) : Type 0 where
  pub vendor_lem : k.vendor_id_pcisig ≡ 1
  pub discovery_lem : k.type_doe_discovery ≡ 0
  pub spdm_lem : k.type_spdm ≡ 1
  pub secured_lem : k.type_secured_spdm ≡ 2
  pub decode_lem :
      (r : DiscoveryRequest)
      → r.vendor_id ≡ k.vendor_id_pcisig
      → r.data_object_type ≡ k.type_doe_discovery
      → r.length ≡ k.request_size / 4
      → k.decode k.request_size r ≡ (success, r.index)
  pub encode_lem :
      (word : ℕ)
      → word < 2 ^ 32
      → k.encode word k.response_size ≡ replies k.response_size (carrying k word)

-- The transport brings each request to the responder, with room for the response structure, and
-- brings a response back as it is.
abbrev pub Answers : (k : Doe) {P : Type 0} → (P → DiscoveryRequest → ℕ → P × Answer) → Type 0
Answers k {P} send =
    (peer : P) (r : DiscoveryRequest) (n size : ℕ) (rsp : DiscoveryResponse)
    → pci_doe_get_response_doe_request k r n k.response_size ≡ replies size rsp
    → (send peer r n).1 ≡ answer size rsp

module _ (k : Doe) (laws : DoeLaws k) {P : Type 0} (send : P → DiscoveryRequest → ℕ → P × Answer)
    (answers : Answers k send) (version : ℕ) where
  -- The word for the protocol at an index below 3.
  abbrev word : ℕ → ℕ
  word index = (if index == 2 then 0 else (index + 1) * 2 ^ 24) + index * 2 ^ 16 + 1

  word_lem :
      (next_index type index : ℕ)
      → bit_or (bit_or (next_index * 2 ^ 24) (type * 2 ^ 16)) 1 ≡ word index
      → word index < 2 ^ 32
      → k.encode
          (reply_word k next_index
            (record { vendor_id = k.vendor_id_pcisig; data_object_type = type }))
          k.response_size
        ≡ replies k.response_size (carrying k (word index))
  unfolding reply_word
  word_lem next_index type index e bound =
      ap (λ w. k.encode w k.response_size) (rw laws.vendor_lem e)
      ∙ laws.encode_lem (word index) bound

  replied :
      (index : ℕ)
      → index < 3
      → discovery_reply k (success, index) k.response_size
        ≡ replies k.response_size (carrying k (word index))
  unfolding discovery_reply
  replied zero low = word_lem 1 k.type_doe_discovery 0 (rw laws.discovery_lem refl) (omega arith)
  replied (suc zero) low = word_lem 2 k.type_spdm 1 (rw laws.spdm_lem refl) (omega arith)
  replied (suc (suc zero)) low =
      word_lem 0 k.type_secured_spdm 2 (rw laws.secured_lem refl) (omega arith)
  replied (suc (suc (suc i))) low = absurd (omega arith)

  answered :
      (peer : P) (index : ℕ)
      → index < 3
      → (send peer (discovery_request k index version) k.request_size).1
        ≡ answer k.response_size (carrying k (word index))
  unfolding discovery_request pci_doe_get_response_doe_request
  answered peer index low =
      answers peer (discovery_request k index version) k.request_size k.response_size
        (carrying k (word index))
        (rw (laws.decode_lem (discovery_request k index version) refl refl refl)
          (replied index low))

  accepted :
      (index : ℕ)
      → index < 3
      → response_status k index k.response_size (carrying k (word index)) ≡ success
  unfolding response_status
  accepted zero low = ground arith
  accepted (suc zero) low = ground arith
  accepted (suc (suc zero)) low = ground arith
  accepted (suc (suc (suc i))) low = absurd (omega arith)

  on_discovery_lem :
      (next : P → ℕ → List Protocol → P × Discovery) (room total index : ℕ) (table : List Protocol)
      (a : P × Answer) (rsp : DiscoveryResponse)
      → a.1 ≡ answer k.response_size rsp
      → response_status k index k.response_size rsp ≡ success
      → on_discovery k send next room total index table a
        ≡ on_protocol k send next a.0 total index table rsp
  unfolding on_discovery
  on_discovery_lem next room total index table (p, x) rsp e s = rw (e, on_discovery, s) refl

  -- A round for an index below 3 hands the responder's protocol on.
  round :
      (fuel room total : ℕ) (peer : P) (index : ℕ) (table : List Protocol)
      → index < 3
      → suc index ≤ total
      → discovery_loop k send (suc fuel) version room total peer index table
        ≡ on_protocol k send
            (discovery_loop k send fuel version room total)
            (send peer (discovery_request k index version) k.request_size).0
            total
            index
            table
            (carrying k (word index))
  unfolding discovery_loop
  round fuel room total peer index table low fits =
      let free : ltb total (index + 1) ≡ false = ground arith in
      rw free (
        on_discovery_lem (discovery_loop k send fuel version room total) room total index table
          (send peer (discovery_request k index version) k.request_size) (carrying k (word index))
          (answered peer index low) (accepted index low))

  all_rounds :
      (fuel room total : ℕ) (peer : P) (a b c : Protocol) (table : List Protocol)
      → 3 ≤ total
      → (discovery_loop k send
          (suc (suc (suc fuel)))
          version
          room
          total
          peer
          0
          (a ∷ b ∷ c ∷ table)).1
        ≡ ended success (3 * k.protocol_size) (protocol 0 ∷ protocol 1 ∷ protocol 2 ∷ table)
  unfolding on_protocol
  all_rounds fuel room total peer a b c table fits =
      let p1 = (send peer (discovery_request k 0 version) k.request_size).0 in
      let p2 = (send p1 (discovery_request k 1 version) k.request_size).0 in
      let end : leb 3 total ≡ true = ground arith in
      rw (round (suc (suc fuel)) room total peer 0 (a ∷ b ∷ c ∷ table) (omega arith) (omega arith))
        (rw
          (round (suc fuel) room total p1 1 (protocol 0 ∷ b ∷ c ∷ table) (omega arith)
            (omega arith))
          (rw
            (
              round fuel room total p2 2 (protocol 0 ∷ protocol 1 ∷ c ∷ table) (omega arith)
                  (omega arith),
              end,
            )
            refl))

-- Against the responder, a discovery whose caller has room for three protocols, three or more in the
-- table, ends with success, the size of three protocols, and the responder's own protocols at the
-- head of the table. The numbers of the protocol obey `DoeLaws`, and the transport brings requests
-- and responses as they are.
pub protocols_discovered :
    (k : Doe) {P : Type 0} (send : P → DiscoveryRequest → ℕ → P × Answer) (peer : P)
    (table : List Protocol) (room version : ℕ)
    → DoeLaws k
    → Answers k send
    → 0 < k.protocol_size
    → 3 * k.protocol_size ≤ room
    → 3 ≤ length table
    → (pci_doe_discovery k send peer table room version).1
      ≡ ended success
          (length (m_data_object_protocol k) * k.protocol_size)
          (m_data_object_protocol k ++ drop (length (m_data_object_protocol k)) table)
unfolding pci_doe_discovery
protocols_discovered k send peer (a ∷ b ∷ c ∷ table) room version laws answers pos fits long =
    let total = room / k.protocol_size in
    let enough : 3 ≤ total = (le-div_iff_mul-le pos).1 fits in
    let e : total + 1 ≡ suc (suc (suc (total - 2))) = omega arith in
    rw e (
      all_rounds k laws send answers version (total - 2) room total peer a b c table enough
      ∙ rw (laws.vendor_lem, laws.discovery_lem, laws.spdm_lem, laws.secured_lem) refl)
protocols_discovered k send peer (a ∷ b ∷ []) room version laws answers pos fits long =
    absurd (omega arith)
protocols_discovered k send peer (a ∷ []) room version laws answers pos fits long =
    absurd (omega arith)
protocols_discovered k send peer [] room version laws answers pos fits long = absurd (omega arith)
