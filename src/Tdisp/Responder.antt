-- ===== src/Tdisp/Responder.antt =====
-- library/pci_tdisp_responder_lib: one handler for each request, and the dispatch by message type.
-- A handler takes the interface context, the surroundings of the device, the request with its size
-- and the room for the response, and returns the new context and what it leaves behind.
pub mod Cases
pub mod Replies
use spdm_emu.Prelude.{
  ℕ, ◌+◌, ◌-◌, List, [], ◌∷◌, ◌==◌, ◌!=◌, ltb, leb, if◌then◌else◌, replicate, take, drop, Reply,
  asserted, fails, replies, invalid_msg_size,
}
use spdm_emu.Tdisp.Messages.{
  Header, Request, Body, Response, Tdisp, version_rsp, capabilities_rsp, lock_interface_rsp,
  interface_report_rsp, interface_state_rsp, start_interface_rsp, stop_interface_rsp, error_rsp,
}
use spdm_emu.Tdisp.Device.{
  Interface, Surroundings, error_code_success, pci_tdisp_device_get_version,
  pci_tdisp_device_get_capabilities, pci_tdisp_device_lock_interface,
  pci_tdisp_device_get_interface_report, pci_tdisp_device_get_interface_state,
  pci_tdisp_device_start_interface, pci_tdisp_device_stop_interface,
}

-- LIBTDISP_INTERFACE_REPORT_PORTION_LEN
abbrev pub interface_report_portion_len : ℕ
interface_report_portion_len = 0x40

-- LIBTDISP_MAX_VERSION_COUNT
abbrev pub max_version_count : ℕ
max_version_count = 1

module _ (k : Tdisp) where
  -- The response header: the bytes of the interface id that are not copied stay zero.
  unfoldable pub response_header : Header → ℕ → Header
  response_header h message_type = record {
    version = h.version;
    message_type = message_type;
    interface_id = record {
      function_id = h.interface_id.function_id;
      rest = replicate k.interface_id_rest_size 0;
    };
  }

  -- LIBSPDM_ASSERT (*response_size >= size); then the response of that size.
  unfoldable pub respond : Header → ℕ → ℕ → Body → ℕ → Reply Response
  unfolding response_header
  respond h message_type size body response_size =
      if leb size response_size
      then replies size (record { header = response_header h message_type; body = body })
      else asserted

  unfoldable pub pci_tdisp_get_response_error : Header → ℕ → ℕ → ℕ → Reply Response
  unfolding respond
  pci_tdisp_get_response_error h error_code error_data response_size =
      respond h k.error k.error_size (error_rsp error_code error_data) response_size

  -- The two checks that every handler makes first, on the size and on the version.
  unfoldable pub checked :
      ℕ → Interface → Request → ℕ → ℕ → Interface × Reply Response → Interface × Reply Response
  unfolding pci_tdisp_get_response_error
  checked size s r request_size response_size rest =
      if request_size != size
      then (s, pci_tdisp_get_response_error r.header k.invalid_request 0 response_size)
      else if r.header.version != k.version_10
      then (s, pci_tdisp_get_response_error r.header k.version_mismatch 0 response_size)
      else rest

  unfoldable pub pci_tdisp_get_response_version :
      Interface → Surroundings → Request → ℕ → ℕ → Interface × Reply Response
  unfolding checked pci_tdisp_device_get_version
  pci_tdisp_get_response_version s w r request_size response_size =
      checked k.get_version_size s r request_size response_size (
        if ltb response_size k.version_rsp_size
        then (s, asserted)
        else let (s', code, count, entry) =
            pci_tdisp_device_get_version k s r.header.interface_id max_version_count in
          if code != error_code_success
          then (s', pci_tdisp_get_response_error r.header code 0 response_size)
          else (
            s',
            respond r.header k.version k.version_rsp_size (version_rsp count entry) response_size,
          ))

  unfoldable pub pci_tdisp_get_response_capabilities :
      Interface → Surroundings → Request → ℕ → ℕ → Interface × Reply Response
  unfolding checked pci_tdisp_device_get_capabilities
  pci_tdisp_get_response_capabilities s w r request_size response_size =
      checked k.get_capabilities_size s r request_size response_size (
        if ltb response_size k.capabilities_rsp_size
        then (s, asserted)
        else let (s', code, rsp_caps) =
            pci_tdisp_device_get_capabilities k s r.header.interface_id r.req_caps in
          if code != error_code_success
          then (s', pci_tdisp_get_response_error r.header code 0 response_size)
          else (
            s',
            respond r.header k.capabilities k.capabilities_rsp_size (capabilities_rsp rsp_caps)
                response_size,
          ))

  unfoldable pub pci_tdisp_get_response_lock_interface :
      Interface → Surroundings → Request → ℕ → ℕ → Interface × Reply Response
  unfolding checked pci_tdisp_device_lock_interface
  pci_tdisp_get_response_lock_interface s w r request_size response_size =
      checked k.lock_interface_req_size s r request_size response_size (
        if ltb response_size k.lock_interface_rsp_size
        then (s, asserted)
        else let (s', code, nonce) =
            pci_tdisp_device_lock_interface k s w r.header.interface_id r.lock_interface_param in
          if code != error_code_success
          then (s', pci_tdisp_get_response_error r.header code 0 response_size)
          else (
            s',
            respond r.header k.lock_interface k.lock_interface_rsp_size (lock_interface_rsp nonce)
                response_size,
          ))

  -- The length that the code answers with, before the checks: at most one portion.
  unfoldable pub portion_limit : ℕ → ℕ
  portion_limit length =
      if ltb interface_report_portion_len length then interface_report_portion_len else length

  unfoldable pub pci_tdisp_get_response_interface_report :
      Interface → Surroundings → Request → ℕ → ℕ → Interface × Reply Response
  unfolding checked pci_tdisp_device_get_interface_report portion_limit
  pci_tdisp_get_response_interface_report s w r request_size response_size =
      checked k.get_report_size s r request_size response_size (
        let (code, interface_report, interface_report_size) =
          pci_tdisp_device_get_interface_report k s r.header.interface_id in
        let length = portion_limit r.length in
        let left = interface_report_size - r.offset in
        let portion = if ltb left length then left else length in
        if code != error_code_success
        then (s, pci_tdisp_get_response_error r.header code 0 response_size)
        else if length == 0
        then (s, pci_tdisp_get_response_error r.header k.invalid_request 0 response_size)
        else if leb interface_report_size r.offset
        then (s, pci_tdisp_get_response_error r.header k.invalid_request 0 response_size)
        else (
          s,
          respond r.header k.device_interface_report (k.report_rsp_size + portion)
              (interface_report_rsp portion (interface_report_size - (portion + r.offset))
                (take portion (drop r.offset interface_report)))
              response_size,
        ))

  unfoldable pub pci_tdisp_get_response_interface_state :
      Interface → Surroundings → Request → ℕ → ℕ → Interface × Reply Response
  unfolding checked pci_tdisp_device_get_interface_state
  pci_tdisp_get_response_interface_state s w r request_size response_size =
      checked k.get_state_size s r request_size response_size (
        if ltb response_size k.state_rsp_size
        then (s, asserted)
        else let (code, tdi_state) =
            pci_tdisp_device_get_interface_state k s r.header.interface_id in
          if code != error_code_success
          then (s, pci_tdisp_get_response_error r.header code 0 response_size)
          else (
            s,
            respond r.header k.device_interface_state k.state_rsp_size
                (interface_state_rsp tdi_state) response_size,
          ))

  unfoldable pub pci_tdisp_get_response_start_interface :
      Interface → Surroundings → Request → ℕ → ℕ → Interface × Reply Response
  unfolding checked pci_tdisp_device_start_interface
  pci_tdisp_get_response_start_interface s w r request_size response_size =
      checked k.start_interface_req_size s r request_size response_size (
        let (s', code) =
          pci_tdisp_device_start_interface k s r.header.interface_id r.start_interface_nonce in
        if code != error_code_success
        then (s', pci_tdisp_get_response_error r.header code 0 response_size)
        else (
          s',
          respond r.header k.start_interface k.start_interface_rsp_size start_interface_rsp
              response_size,
        ))

  unfoldable pub pci_tdisp_get_response_stop_interface :
      Interface → Surroundings → Request → ℕ → ℕ → Interface × Reply Response
  unfolding checked pci_tdisp_device_stop_interface
  pci_tdisp_get_response_stop_interface s w r request_size response_size =
      checked k.stop_interface_req_size s r request_size response_size (
        let (s', code) = pci_tdisp_device_stop_interface k s r.header.interface_id in
        if code != error_code_success
        then (s', pci_tdisp_get_response_error r.header code 0 response_size)
        else (
          s',
          respond r.header k.stop_interface k.stop_interface_rsp_size stop_interface_rsp
              response_size,
        ))

  abbrev pub Handler : Type 0
  Handler = Interface → Surroundings → Request → ℕ → ℕ → Interface × Reply Response

  -- `m_pci_tdisp_dispatch`
  abbrev pub m_pci_tdisp_dispatch : List (ℕ × Handler)
  m_pci_tdisp_dispatch =
      (k.get_version, pci_tdisp_get_response_version)
      ∷ (k.get_capabilities, pci_tdisp_get_response_capabilities)
      ∷ (k.lock_interface_req, pci_tdisp_get_response_lock_interface)
      ∷ (k.get_device_interface_report, pci_tdisp_get_response_interface_report)
      ∷ (k.get_device_interface_state, pci_tdisp_get_response_interface_state)
      ∷ (k.start_interface_req, pci_tdisp_get_response_start_interface)
      ∷ (k.stop_interface_req, pci_tdisp_get_response_stop_interface)
      ∷ []

  -- The table with its handlers open: what proofs about all of them name.
  unfoldable pub open_dispatch : List (ℕ × Handler)
  unfolding pci_tdisp_get_response_version pci_tdisp_get_response_capabilities
      pci_tdisp_get_response_lock_interface pci_tdisp_get_response_interface_report
      pci_tdisp_get_response_interface_state pci_tdisp_get_response_start_interface
      pci_tdisp_get_response_stop_interface
  open_dispatch = m_pci_tdisp_dispatch

  -- The loop over the table, and the error response behind it.
  unfoldable pub dispatch : List (ℕ × Handler) → Handler
  dispatch [] s w r request_size response_size = (
    s,
    pci_tdisp_get_response_error r.header k.unsupported_request r.header.message_type response_size,
  )
  dispatch ((message_type, func) ∷ table) s w r request_size response_size =
      if r.header.message_type == message_type
      then func s w r request_size response_size
      else dispatch table s w r request_size response_size

  unfoldable pub pci_tdisp_get_response : Handler
  unfolding dispatch
  pci_tdisp_get_response s w r request_size response_size =
      if ltb request_size k.header_size
      then (s, fails invalid_msg_size)
      else dispatch m_pci_tdisp_dispatch s w r request_size response_size
