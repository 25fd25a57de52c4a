-- ===== src/Tdisp/Calls.antt =====
-- library/pci_tdisp_requester_lib: the requests that are answered in one message, each with the
-- checks on its response. What pci_tdisp_send_receive_data does with a request is the parameter
-- `send`, over a state of the peer.
pub mod Session
use spdm_emu.Prelude.{
  ℕ, List, [], ◌∷◌, get_elem?, Option, none, some, ◌==◌, ◌!=◌, if◌then◌else◌, replicate, Status,
  success, invalid_msg_size, invalid_msg_field,
}
use spdm_emu.Tdisp.Messages.{
  InterfaceId, Header, ResponderCapabilities, Request, Response, Body, Tdisp, version_rsp,
  capabilities_rsp, lock_interface_rsp, interface_state_rsp,
}
use spdm_emu.Tdisp.Requester.{Received, failed, received}

-- What each structure reads of a response that is another one.
pub record Misread : Type 0 where
  pub version : Body → ℕ × List ℕ
  pub capabilities : Body → ResponderCapabilities
  pub nonce : Body → List ℕ
  pub tdi_state : Body → ℕ

module _ (v : Misread) where
  unfoldable pub version_of : Body → ℕ × List ℕ
  version_of (version_rsp count entries) = (count, entries)
  version_of body = v.version body

  unfoldable pub capabilities_of : Body → ResponderCapabilities
  capabilities_of (capabilities_rsp caps) = caps
  capabilities_of body = v.capabilities body

  unfoldable pub nonce_of : Body → List ℕ
  nonce_of (lock_interface_rsp nonce) = nonce
  nonce_of body = v.nonce body

  unfoldable pub state_of : Body → ℕ
  state_of (interface_state_rsp state) = state
  state_of body = v.tdi_state body

module _ (k : Tdisp) where
  -- A zeroed request with its header.
  unfoldable pub plain_request : ℕ → InterfaceId → Request
  plain_request message_type id = record {
    header = record {
      version = k.version_10;
      message_type = message_type;
      interface_id = record {
        function_id = id.function_id;
        rest = replicate k.interface_id_rest_size 0;
      };
    };
    req_caps = [];
    lock_interface_param = [];
    start_interface_nonce = [];
    offset = 0;
    length = 0;
  }

  -- The checks that the functions share, on a response of the given size and type.
  unfoldable pub response_check : ℕ → ℕ → Request → ℕ → Header → Status
  response_check expected_size message_type q response_size h =
      if response_size != expected_size
      then invalid_msg_size
      else if h.version != q.header.version
      then invalid_msg_field
      else if h.message_type != message_type
      then invalid_msg_field
      else if h.interface_id.function_id != q.header.interface_id.function_id
      then invalid_msg_field
      else success

  -- The status of an answer, with what is read of a response that passes, or what was there before.
  unfoldable pub on_reply : {A : Type 0} → A → (Body → A) → ℕ → ℕ → Request → Received → Status × A
  unfolding response_check
  on_reply old read expected_size message_type q (failed status) = (status, old)
  on_reply old read expected_size message_type q (received response_size rsp) =
      elim (response_check expected_size message_type q response_size rsp.header) [
        | success ↦ (success, read rsp.body)
        | status ↦ (status, old)
      ]

  -- The checks on the list of versions.
  unfoldable pub version_check : Status → ℕ × List ℕ → Status
  version_check success (count, entries) =
      if count != 1 then invalid_msg_field else elim (get_elem? entries 0) [
        | none ↦ invalid_msg_field
        | some entry ↦ if entry != k.version_10 then invalid_msg_field else success
      ]
  version_check status (count, entries) = status

module _ (k : Tdisp) (v : Misread) {P : Type 0} (send : P → Request → ℕ → P × Received)
    (id : InterfaceId) where
  -- The second component is what is written through the pointer of the caller.
  unfoldable pub pci_tdisp_get_version : P → P × Status
  unfolding plain_request on_reply version_check version_of
  pci_tdisp_get_version peer =
      let q = plain_request k k.get_version id in
      let (peer', answer) = send peer q k.get_version_size in
      let (status, found) =
        on_reply k (0, []) (version_of v) k.version_rsp_size k.version q answer in
      (peer', version_check k status found)

  unfoldable pub pci_tdisp_get_capabilities :
      P → List ℕ → ResponderCapabilities → P × Status × ResponderCapabilities
  unfolding plain_request on_reply capabilities_of
  pci_tdisp_get_capabilities peer req_caps rsp_caps =
      let q = record (plain_request k k.get_capabilities id) { req_caps = req_caps } in
      let (peer', answer) = send peer q k.get_capabilities_size in
      let (status, found) =
        on_reply k rsp_caps (capabilities_of v) k.capabilities_rsp_size k.capabilities q answer in
      (peer', status, found)

  unfoldable pub pci_tdisp_lock_interface : P → List ℕ → List ℕ → P × Status × List ℕ
  unfolding plain_request on_reply nonce_of
  pci_tdisp_lock_interface peer lock_interface_param start_interface_nonce =
      let q = record (plain_request k k.lock_interface_req id) {
        lock_interface_param = lock_interface_param;
      } in
      let (peer', answer) = send peer q k.lock_interface_req_size in
      let (status, found) =
        on_reply k start_interface_nonce (nonce_of v) k.lock_interface_rsp_size k.lock_interface q
          answer in
      (peer', status, found)

  unfoldable pub pci_tdisp_get_interface_state : P → ℕ → P × Status × ℕ
  unfolding plain_request on_reply state_of
  pci_tdisp_get_interface_state peer tdi_state =
      let q = plain_request k k.get_device_interface_state id in
      let (peer', answer) = send peer q k.get_state_size in
      let (status, found) =
        on_reply k tdi_state (state_of v) k.state_rsp_size k.device_interface_state q answer in
      (peer', status, found)

  unfoldable pub pci_tdisp_start_interface : P → List ℕ → P × Status
  unfolding plain_request on_reply
  pci_tdisp_start_interface peer start_interface_nonce =
      let q = record (plain_request k k.start_interface_req id) {
        start_interface_nonce = start_interface_nonce;
      } in
      let (peer', answer) = send peer q k.start_interface_req_size in
      let (status, read) =
        on_reply k tt (λ _. tt) k.start_interface_rsp_size k.start_interface q answer in
      (peer', status)

  unfoldable pub pci_tdisp_stop_interface : P → P × Status
  unfolding plain_request on_reply
  pci_tdisp_stop_interface peer =
      let q = plain_request k k.stop_interface_req id in
      let (peer', answer) = send peer q k.stop_interface_req_size in
      let (status, read) =
        on_reply k tt (λ _. tt) k.stop_interface_rsp_size k.stop_interface q answer in
      (peer', status)
