-- ===== src/Tsp/Calls.antt =====
-- library/cxl_tsp_requester_lib: the requests that are answered in one message, each with the
-- checks on its response. What cxl_tsp_send_receive_data does with a request is the parameter
-- `send`, over a state of the peer.
use spdm_emu.Prelude.{
  ℕ, ◌+◌, ◌*◌, List, [], get_elem?, Option, none, some, ◌!=◌, ltb, if◌then◌else◌, replicate, take,
  Status, success, invalid_msg_size, invalid_msg_field, invalid_state_local,
}
use spdm_emu.Tsp.Messages.{
  Header, DeviceCapabilities, DeviceConfiguration, SecondSessionInfo, Request, Response, Body, Tsp,
  get_version_rsp, get_capabilities_rsp, get_configuration_rsp,
}
use spdm_emu.Tsp.Device.{zero_configuration}
use spdm_emu.Tsp.Checks.{cxl_tsp_validate_capability, cxl_tsp_validate_configruation}

-- What comes back from the peer: an error status, or a response and its size.
pub data Received : Type 0 where
  failed : Status → Received
  received : ℕ → Response → Received

-- What follows the header in a `cxl_tsp_get_target_configuration_report_rsp_mine_t`.
pub record ReportView : Type 0 where
  pub portion_length : ℕ
  pub remainder_length : ℕ
  pub report : List ℕ

-- What each structure reads of a response that is another one.
pub record Misread : Type 0 where
  pub version : Body → ℕ × List ℕ
  pub capabilities : Body → DeviceCapabilities
  pub configuration : Body → DeviceConfiguration × ℕ
  pub report : Body → ReportView

-- What get_configuration writes through its two pointers; `none` is a NULL pointer.
pub record Stored : Type 0 where
  pub configuration : Option DeviceConfiguration
  pub current_tsp_state : ℕ

module _ (v : Misread) where
  unfoldable pub version_of : Body → ℕ × List ℕ
  version_of (get_version_rsp count entries) = (count, entries)
  version_of body = v.version body

  unfoldable pub capabilities_of : Body → DeviceCapabilities
  capabilities_of (get_capabilities_rsp caps) = caps
  capabilities_of body = v.capabilities body

  unfoldable pub configuration_of : Body → DeviceConfiguration × ℕ
  configuration_of (get_configuration_rsp configuration state) = (configuration, state)
  configuration_of body = v.configuration body

module _ (k : Tsp) where
  unfoldable pub zero_session_info : SecondSessionInfo
  zero_session_info = record {
    configuration_validity_flags = 0;
    secondary_session_ckid_type = 0;
    secondary_session_psk_key_material = replicate 4 (replicate k.psk_key_material_size 0);
  }

  -- A zeroed request with its header.
  unfoldable pub plain_request : ℕ → Request
  unfolding zero_session_info
  plain_request op_code = record {
    header = record { tsp_version = k.version_10; op_code = op_code };
    configuration = zero_configuration k;
    second_session = zero_session_info;
    offset = 0;
    length = 0;
    te_state = 0;
    number_of_memory_ranges = 0;
    memory_ranges = [];
  }

  -- The checks that the functions share, on a response of the given size and op code.
  unfoldable pub response_check : ℕ → ℕ → Request → ℕ → Header → Status
  response_check expected_size op_code q response_size h =
      if response_size != expected_size
      then invalid_msg_size
      else if h.tsp_version != q.header.tsp_version
      then invalid_msg_field
      else if h.op_code != op_code
      then invalid_msg_field
      else success

  -- The status of an answer and what the caller's variables hold: `read` goes on with a response
  -- that passes, and any other answer leaves the variables as they were.
  unfoldable pub on_reply :
      {A : Type 0} → A → (Body → Status × A) → ℕ → ℕ → Request → Received → Status × A
  unfolding response_check
  on_reply old read expected_size op_code q (failed status) = (status, old)
  on_reply old read expected_size op_code q (received response_size rsp) =
      elim (response_check expected_size op_code q response_size rsp.header) [
        | success ↦ read rsp.body
        | status ↦ (status, old)
      ]

  -- The checks on the list of versions.
  unfoldable pub version_check : ℕ × List ℕ → Status
  version_check (count, entries) =
      if count != 1 then invalid_msg_field else elim (get_elem? entries 0) [
        | none ↦ invalid_msg_field
        | some entry ↦ if entry != k.version_10 then invalid_msg_field else success
      ]

  -- What get_configuration does with an accepted response, for a caller that wants the
  -- configuration and for one that passes NULL.
  unfoldable pub take_configuration : Stored → DeviceConfiguration × ℕ → Status × Stored
  take_configuration old (found, state) =
      let in_range = if ltb k.state_error state then invalid_msg_field else success in
      elim old.configuration [
        | none ↦ (in_range, record { configuration = none; current_tsp_state = state })
        | some before ↦ elim (cxl_tsp_validate_configruation k found) [
          | success ↦ (in_range, record { configuration = some found; current_tsp_state = state })
          | status ↦ (status, record old { configuration = some found })
        ]
      ]

module _ (k : Tsp) (v : Misread) {P : Type 0} (send : P → Request → ℕ → P × Received) where
  unfoldable pub cxl_tsp_get_version : P → P × Status
  unfolding plain_request on_reply version_check version_of
  cxl_tsp_get_version peer =
      let q = plain_request k k.get_target_tsp_version in
      let (peer', answer) = send peer q k.get_version_size in
      let (status, read) =
        on_reply k tt (λ body. (version_check k (version_of v body), tt)) k.get_version_rsp_size
          k.get_target_tsp_version_rsp q answer in
      (peer', status)

  -- The last component is what `*device_capabilities` holds: a set that is refused is stored too.
  unfoldable pub cxl_tsp_get_capabilities : P → DeviceCapabilities → P × Status × DeviceCapabilities
  unfolding plain_request on_reply capabilities_of
  cxl_tsp_get_capabilities peer device_capabilities =
      let q = plain_request k k.get_target_capabilities in
      let (peer', answer) = send peer q k.get_capabilities_size in
      let (status, found) =
        on_reply k device_capabilities
          (λ body. (cxl_tsp_validate_capability k (capabilities_of v body), capabilities_of v body))
          k.get_capabilities_rsp_size k.get_target_capabilities_rsp q answer in
      (peer', status, found)

  unfoldable pub cxl_tsp_set_configuration :
      P → DeviceConfiguration → SecondSessionInfo → P × Status
  unfolding plain_request on_reply
  cxl_tsp_set_configuration peer device_configuration device_2nd_session_info =
      let q = record (plain_request k k.set_target_configuration) {
        configuration = device_configuration;
        second_session = device_2nd_session_info;
      } in
      let (peer', answer) = send peer q k.set_configuration_size in
      let (status, read) =
        on_reply k tt (λ _. (success, tt)) k.set_configuration_rsp_size
          k.set_target_configuration_rsp q answer in
      (peer', status)

  unfoldable pub cxl_tsp_get_configuration : P → Stored → P × Status × Stored
  unfolding plain_request on_reply take_configuration configuration_of
  cxl_tsp_get_configuration peer old =
      let q = plain_request k k.get_target_configuration in
      let (peer', answer) = send peer q k.get_configuration_size in
      let (status, stored) =
        on_reply k old (λ body. take_configuration k old (configuration_of v body))
          k.get_configuration_rsp_size k.get_target_configuration_rsp q answer in
      (peer', status, stored)

  unfoldable pub cxl_tsp_lock_configuration : P → P × Status
  unfolding plain_request on_reply
  cxl_tsp_lock_configuration peer =
      let q = plain_request k k.lock_target_configuration in
      let (peer', answer) = send peer q k.lock_configuration_size in
      let (status, read) =
        on_reply k tt (λ _. (success, tt)) k.lock_configuration_rsp_size
          k.lock_target_configuration_rsp q answer in
      (peer', status)

  unfoldable pub cxl_tsp_set_te_state : P → ℕ → ℕ → List (List ℕ) → P × Status
  unfolding plain_request on_reply
  cxl_tsp_set_te_state peer te_state number_of_memory_ranges memory_ranges =
      let q = record (plain_request k k.set_target_te_state) {
        te_state = te_state;
        number_of_memory_ranges = number_of_memory_ranges;
        memory_ranges = take number_of_memory_ranges memory_ranges;
      } in
      let (peer', answer) =
        send peer q (k.set_te_state_size + number_of_memory_ranges * k.memory_range_size) in
      let (status, read) =
        on_reply k tt (λ _. (success, tt)) k.set_te_state_rsp_size k.set_target_te_state_rsp q
          answer in
      if ltb 32 number_of_memory_ranges then (peer, invalid_state_local) else (peer', status)
