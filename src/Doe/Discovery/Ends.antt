-- ===== src/Doe/Discovery/Ends.antt =====
-- The discovery loop against any peer.
use native.Mathlib.Nat.{mul-le-mul_right, div-mul-le_self}
use spdm_emu.Prelude.{
  ◌∙◌, ◌⊎◌, invalid_msg_size, invalid_msg_field, ℕ, zero, suc, ◌+◌, ◌*◌, ◌/◌, ◌≡◌, ◌≢◌, ◌≤◌, refl,
  true, arith, ◌!=◌, ltb, leb, Bool-cases, inl, inr, List, set, length, length-set, Status, success,
}
use spdm_emu.Doe.Discovery.{
  Protocol, DiscoveryRequest, DiscoveryResponse, Doe, Answer, no_answer, answer, Discovery,
  unfinished, over_run, ended, discovery_request, response_status, on_protocol, on_discovery,
  discovery_loop, pci_doe_discovery,
}

-- How a discovery may end: with success, where the size counts whole protocols, at least one and no
-- more than there is room for, or with another status and the caller's size; the table keeps its
-- length.
abbrev pub IsEnd : Doe → ℕ → ℕ → Discovery → Type 0
IsEnd k room len unfinished = ⊥
IsEnd k room len over_run = ⊥
IsEnd k room len (ended success size found) =
    (length found ≡ len) × (size ≤ room) × ((n : ℕ) × (1 ≤ n) × (size ≡ n * k.protocol_size))
IsEnd k room len (ended status size found) = (length found ≡ len) × (size ≡ room)

-- pci_doe_send_receive_data does not report success where there is no answer.
abbrev pub FailsByError : {P : Type 0} → (P → DiscoveryRequest → ℕ → P × Answer) → Type 0
FailsByError {P} send =
    (peer : P) (r : DiscoveryRequest) (n : ℕ) → (send peer r n).1 ≢ no_answer success

module _ (k : Doe) {P : Type 0} (send : P → DiscoveryRequest → ℕ → P × Answer)
    (room version total len : ℕ) (fits : total * k.protocol_size ≤ room) where
  -- A response is refused by one of two statuses, or names no next index but the following one.
  response_status-cases :
      (index size : ℕ) (rsp : DiscoveryResponse)
      → (response_status k index size rsp ≡ invalid_msg_size)
        ⊎ (response_status k index size rsp ≡ invalid_msg_field)
        ⊎ ((response_status k index size rsp ≡ success)
            × ((rsp.next_index ≡ 0) ⊎ (rsp.next_index ≡ suc index)))
  unfolding response_status
  response_status-cases index size rsp = ground arith

  IsEnd-on_protocol :
      (next : P → ℕ → List Protocol → P × Discovery) (p : P) (index : ℕ) (table : List Protocol)
      (rsp : DiscoveryResponse)
      → length table ≡ len
      → suc index ≤ total
      → (rsp.next_index ≡ 0) ⊎ (rsp.next_index ≡ suc index)
      → ((p : P) (found : List Protocol)
          → length found ≡ len
          → IsEnd k room len (next p (suc index) found).1)
      → IsEnd k room len (on_protocol k send next p total index table rsp).1
  unfolding on_protocol
  IsEnd-on_protocol next p index table rsp same low (inl last) rest =
      let bounded : (index + 1) * k.protocol_size ≤ room =
        omega (
          arith,
          mul-le-mul_right {m = index + 1} {n = total} k.protocol_size (omega arith),
          fits,
        ) in
      let room_left : leb (index + 1) total ≡ true = ground arith in
      rw (last, room_left)
        (length-set table index rsp.found ∙ same, bounded, (index + 1, omega arith, refl))
  IsEnd-on_protocol next p index table rsp same low (inr more) rest =
      let goes : (suc index != 0) ≡ true = ground arith in
      rw (more, goes) (rest p (set table index rsp.found) (length-set table index rsp.found ∙ same))

  response-IsEnd :
      (next : P → ℕ → List Protocol → P × Discovery) (index : ℕ) (table : List Protocol)
      (a : P × Answer)
      → length table ≡ len
      → suc index ≤ total
      → a.1 ≢ no_answer success
      → ((p : P) (found : List Protocol)
          → length found ≡ len
          → IsEnd k room len (next p (suc index) found).1)
      → IsEnd k room len (on_discovery k send next room total index table a).1
  unfolding on_discovery
  response-IsEnd next index table (p, no_answer status) same low e rest = go status e
    where
      go : (s : Status) → no_answer s ≢ no_answer success → IsEnd k room len (ended s room table)
      go success e = absurd (e refl)
      go s e = (same, refl)
  response-IsEnd next index table (p, answer size rsp) same low e rest =
      elim (response_status-cases index size rsp) [
        | inl s ↦ rw (s, on_discovery, IsEnd) (same, refl)
        | inr (inl s) ↦ rw (s, on_discovery, IsEnd) (same, refl)
        | inr (inr (s, n)) ↦
            rw (s, on_discovery, IsEnd) (IsEnd-on_protocol next p index table rsp same low n rest)
      ]

  loop-IsEnd :
      (fuel : ℕ) (peer : P) (index : ℕ) (table : List Protocol)
      → length table ≡ len
      → FailsByError send
      → index ≤ total
      → suc total ≤ fuel + index
      → IsEnd k room len (discovery_loop k send fuel version room total peer index table).1
  unfolding discovery_loop
  loop-IsEnd zero peer index table same fails low fuelled = absurd (omega arith)
  loop-IsEnd (suc fuel) peer index table same fails low fuelled =
      elim (Bool-cases (ltb total (index + 1))) [
        | inl full ↦ rw full (same, refl)
        | inr free ↦ rw free (
            response-IsEnd (discovery_loop k send fuel version room total) index table
              (send peer (discovery_request k index version) k.request_size) same (ground arith)
              (fails peer (discovery_request k index version) k.request_size)
              (λ p found same'.
                loop-IsEnd fuel p (suc index) found same' fails (ground arith) (omega arith)))
      ]

-- Against any peer, whose failures are reported by an error status, the discovery ends within one
-- round for each protocol that the caller has room for and one more, and its assertion does not
-- fail. It ends with success, where the size that is returned counts whole protocols, at least one,
-- and is no more than the caller's room, or with another status and the size that the caller gave;
-- the table keeps its length.
pub pci_doe_discovery-IsEnd :
    (k : Doe) {P : Type 0} (send : P → DiscoveryRequest → ℕ → P × Answer) (peer : P)
    (table : List Protocol) (room version : ℕ)
    → FailsByError send
    → IsEnd k room (length table) (pci_doe_discovery k send peer table room version).1
unfolding pci_doe_discovery
pci_doe_discovery-IsEnd k send peer table room version fails =
    loop-IsEnd k send room version (room / k.protocol_size) (length table)
      (div-mul-le_self room k.protocol_size) (room / k.protocol_size + 1) peer 0 table refl fails
      (omega arith) (omega arith)
