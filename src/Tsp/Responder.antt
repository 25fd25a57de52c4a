-- ===== src/Tsp/Responder.antt =====
-- library/cxl_tsp_responder_lib: one handler for each op code, and the dispatch. A handler takes the
-- device context, the surroundings of the device, the session (`none` for NULL), the request with
-- its size and the room for the response.
pub mod Cases
use spdm_emu.Prelude.{
  ℕ, ◌+◌, ◌-◌, ◌*◌, ◌&&◌, ◌||◌, List, [], ◌∷◌, ◌==◌, ◌!=◌, ltb, leb, if◌then◌else◌, take, drop,
  Option, none, some, Reply, asserted, fails, replies, Status, invalid_msg_size, unsupported_cap,
  code,
}
use spdm_emu.Tsp.Messages.{
  Header, Request, Body, Response, Tsp, get_version_rsp, get_capabilities_rsp,
  set_configuration_rsp, get_configuration_rsp, get_report_rsp, lock_configuration_rsp,
  set_te_state_rsp, error_rsp,
}
use spdm_emu.Tsp.Device.{
  Context, Surroundings, SessionType, primary, secondary, other, error_code_success,
  libcxltsp_get_session_type, cxl_tsp_device_get_version, cxl_tsp_device_get_capabilities,
  cxl_tsp_device_get_configuration, cxl_tsp_device_set_configuration,
  cxl_tsp_device_get_configuration_report, cxl_tsp_device_lock_configuration,
  cxl_tsp_device_set_te_state,
}
use spdm_emu.Tsp.Validate.{cxl_tsp_validate_configruation}

-- LIBCXLTSP_CONFIGURATION_REPORT_PORTION_LEN
abbrev pub configuration_report_portion_len : ℕ
configuration_report_portion_len = 0x200

-- Which sessions a handler serves.
pub data Privilege : Type 0 where
  any_session not_other only_primary : Privilege

module _ (k : Tsp) where
  -- LIBSPDM_ASSERT (*response_size >= size); then the response of that size.
  unfoldable pub respond : Header → ℕ → ℕ → Body → ℕ → Reply Response
  respond h op_code size body response_size =
      if leb size response_size
      then replies size (record {
        header = record { tsp_version = h.tsp_version; op_code = op_code };
        body = body;
      })
      else asserted

  unfoldable pub cxl_tsp_get_response_error : Header → ℕ → ℕ → ℕ → Reply Response
  unfolding respond
  cxl_tsp_get_response_error h error_code error_data response_size =
      respond h k.error_rsp k.error_size (error_rsp error_code error_data) response_size

  abbrev pub Handler : Type 0
  Handler = Context → Surroundings → Option ℕ → Request → ℕ → ℕ → Context × Reply Response

  -- The checks on the session, with which every handler begins: the error code is returned as the
  -- status.
  unfoldable pub admitted :
      Privilege → Context → Option ℕ → (ℕ → Context × Reply Response) → Context × Reply Response
  admitted privilege c none rest = (c, fails (code k.no_privilege))
  admitted any_session c (some id) rest = rest id
  admitted not_other c (some id) rest = elim (libcxltsp_get_session_type c id) [
    | other ↦ (c, fails (code k.no_privilege))
    | _ ↦ rest id
  ]
  admitted only_primary c (some id) rest = elim (libcxltsp_get_session_type c id) [
    | primary ↦ rest id
    | _ ↦ (c, fails (code k.no_privilege))
  ]

  -- The checks on the size and on the version.
  unfoldable pub checked :
      ℕ → Context → Request → ℕ → ℕ → Context × Reply Response → Context × Reply Response
  unfolding cxl_tsp_get_response_error
  checked size c r request_size response_size rest =
      if request_size != size
      then (c, cxl_tsp_get_response_error r.header k.invalid_request 0 response_size)
      else if r.header.tsp_version != k.version_10
      then (c, cxl_tsp_get_response_error r.header k.version_mismatch 0 response_size)
      else rest

  unfoldable pub cxl_tsp_get_response_get_version : Handler
  unfolding admitted checked cxl_tsp_device_get_version
  cxl_tsp_get_response_get_version c w session_id r request_size response_size =
      admitted any_session c session_id λ id.
        checked k.get_version_size c r request_size response_size (
          if ltb response_size k.get_version_rsp_size
          then (c, asserted)
          else let (c', error_code, count, entry) = cxl_tsp_device_get_version k c w id 1 in
            if error_code != error_code_success
            then (c', cxl_tsp_get_response_error r.header error_code 0 response_size)
            else (
              c',
              respond r.header k.get_target_tsp_version_rsp k.get_version_rsp_size
                  (get_version_rsp count entry) response_size,
            ))

  unfoldable pub cxl_tsp_get_response_get_capabilities : Handler
  unfolding admitted checked cxl_tsp_device_get_capabilities
  cxl_tsp_get_response_get_capabilities c w session_id r request_size response_size =
      admitted any_session c session_id λ id.
        checked k.get_capabilities_size c r request_size response_size (
          if ltb response_size k.get_capabilities_rsp_size
          then (c, asserted)
          else let (error_code, capabilities) = cxl_tsp_device_get_capabilities c in
            if error_code != error_code_success
            then (c, cxl_tsp_get_response_error r.header error_code 0 response_size)
            else (
              c,
              respond r.header k.get_target_capabilities_rsp k.get_capabilities_rsp_size
                  (get_capabilities_rsp capabilities) response_size,
            ))

  unfoldable pub cxl_tsp_get_response_set_configuration : Handler
  unfolding admitted checked cxl_tsp_device_get_capabilities cxl_tsp_device_get_configuration
      cxl_tsp_device_set_configuration
  cxl_tsp_get_response_set_configuration c w session_id r request_size response_size =
      admitted only_primary c session_id λ id.
        checked k.set_configuration_size c r request_size response_size (
          if ltb response_size k.set_configuration_rsp_size
          then (c, asserted)
          else let (error_code, capabilities) = cxl_tsp_device_get_capabilities c in
            if error_code != error_code_success
            then (c, cxl_tsp_get_response_error r.header error_code 0 response_size)
            else let (error_code', current, current_tsp_state) =
                cxl_tsp_device_get_configuration c in
              if error_code' != error_code_success
              then (c, cxl_tsp_get_response_error r.header error_code' 0 response_size)
              else if current_tsp_state != k.config_unlocked
              then (c, cxl_tsp_get_response_error r.header k.invalid_security_state 0 response_size)
              else let valid = cxl_tsp_validate_configruation k r capabilities in
                if valid != error_code_success
                then (c, cxl_tsp_get_response_error r.header valid 0 response_size)
                else let (c', error_code'') =
                    cxl_tsp_device_set_configuration c r.configuration r.second_session in
                  if error_code'' != error_code_success
                  then (c', cxl_tsp_get_response_error r.header error_code'' 0 response_size)
                  else (
                    c',
                    respond r.header k.set_target_configuration_rsp k.set_configuration_rsp_size
                        set_configuration_rsp response_size,
                  ))

  unfoldable pub cxl_tsp_get_response_get_configuration : Handler
  unfolding admitted checked cxl_tsp_device_get_configuration
  cxl_tsp_get_response_get_configuration c w session_id r request_size response_size =
      admitted not_other c session_id λ id.
        checked k.get_configuration_size c r request_size response_size (
          if ltb response_size k.get_configuration_rsp_size
          then (c, asserted)
          else let (error_code, configuration, current_tsp_state) =
              cxl_tsp_device_get_configuration c in
            if error_code != error_code_success
            then (c, cxl_tsp_get_response_error r.header error_code 0 response_size)
            else if current_tsp_state != k.config_unlocked && current_tsp_state != k.config_locked
            then (c, cxl_tsp_get_response_error r.header k.invalid_security_state 0 response_size)
            else (
              c,
              respond r.header k.get_target_configuration_rsp k.get_configuration_rsp_size
                  (get_configuration_rsp configuration current_tsp_state) response_size,
            ))

  unfoldable pub cxl_tsp_get_response_get_configuration_report : Handler
  unfolding admitted checked cxl_tsp_device_get_configuration
      cxl_tsp_device_get_configuration_report
  cxl_tsp_get_response_get_configuration_report c w session_id r request_size response_size =
      admitted not_other c session_id λ id.
        checked k.get_report_size c r request_size response_size (
          let (error_code, configuration, current_tsp_state) = cxl_tsp_device_get_configuration c in
          if error_code != error_code_success
          then (c, cxl_tsp_get_response_error r.header error_code 0 response_size)
          else if current_tsp_state != k.config_unlocked && current_tsp_state != k.config_locked
          then (c, cxl_tsp_get_response_error r.header k.invalid_security_state 0 response_size)
          else let (c', error_code', configuration_report, configuration_report_size) =
              cxl_tsp_device_get_configuration_report c in
            let length =
              if ltb configuration_report_portion_len r.length
              then configuration_report_portion_len
              else r.length in
            let left = configuration_report_size - r.offset in
            let portion = if ltb left length then left else length in
            if error_code' != error_code_success
            then (c', cxl_tsp_get_response_error r.header error_code' 0 response_size)
            else if length == 0
            then (c', cxl_tsp_get_response_error r.header k.invalid_request 0 response_size)
            else if leb configuration_report_size r.offset
            then (c', cxl_tsp_get_response_error r.header k.invalid_request 0 response_size)
            else (
              c',
              respond r.header k.get_target_configuration_report_rsp
                  (k.get_report_rsp_size + portion)
                  (get_report_rsp portion (configuration_report_size - (portion + r.offset))
                    (take portion (drop r.offset configuration_report)))
                  response_size,
            ))

  unfoldable pub cxl_tsp_get_response_lock_configuration : Handler
  unfolding admitted checked cxl_tsp_device_get_configuration cxl_tsp_device_lock_configuration
  cxl_tsp_get_response_lock_configuration c w session_id r request_size response_size =
      admitted only_primary c session_id λ id.
        checked k.lock_configuration_size c r request_size response_size (
          let (error_code, configuration, current_tsp_state) = cxl_tsp_device_get_configuration c in
          if error_code != error_code_success
          then (c, cxl_tsp_get_response_error r.header error_code 0 response_size)
          else if current_tsp_state == k.config_locked
          then (c, cxl_tsp_get_response_error r.header k.already_locked 0 response_size)
          else if current_tsp_state != k.config_unlocked
          then (c, cxl_tsp_get_response_error r.header k.invalid_security_state 0 response_size)
          else if ltb response_size k.lock_configuration_rsp_size
          then (c, asserted)
          else let (c', error_code') = cxl_tsp_device_lock_configuration k c in
            if error_code' != error_code_success
            then (c', cxl_tsp_get_response_error r.header error_code' 0 response_size)
            else (
              c',
              respond r.header k.lock_target_configuration_rsp k.lock_configuration_rsp_size
                  lock_configuration_rsp response_size,
            ))

  unfoldable pub cxl_tsp_get_response_set_te_state : Handler
  unfolding admitted cxl_tsp_get_response_error cxl_tsp_device_get_configuration
      cxl_tsp_device_set_te_state
  cxl_tsp_get_response_set_te_state c w session_id r request_size response_size =
      admitted not_other c session_id λ id.
        if ltb request_size k.set_te_state_size
        then (c, cxl_tsp_get_response_error r.header k.invalid_request 0 response_size)
        else if r.number_of_memory_ranges == 0 || ltb 32 r.number_of_memory_ranges
        then (c, cxl_tsp_get_response_error r.header k.invalid_request 0 response_size)
        else if request_size
            != k.set_te_state_size + r.number_of_memory_ranges * k.memory_range_size
        then (c, cxl_tsp_get_response_error r.header k.invalid_request 0 response_size)
        else if r.header.tsp_version != k.version_10
        then (c, cxl_tsp_get_response_error r.header k.version_mismatch 0 response_size)
        else let (error_code, configuration, current_tsp_state) =
            cxl_tsp_device_get_configuration c in
          if error_code != error_code_success
          then (c, cxl_tsp_get_response_error r.header error_code 0 response_size)
          else if current_tsp_state != k.config_locked
          then (c, cxl_tsp_get_response_error r.header k.invalid_security_state 0 response_size)
          else if ltb response_size k.set_te_state_rsp_size
          then (c, asserted)
          else let error_code' =
              cxl_tsp_device_set_te_state c r.te_state r.number_of_memory_ranges r.memory_ranges in
            if error_code' != error_code_success
            then (c, cxl_tsp_get_response_error r.header error_code' 0 response_size)
            else (
              c,
              respond r.header k.set_target_te_state_rsp k.set_te_state_rsp_size set_te_state_rsp
                  response_size,
            )

  -- `m_cxl_tsp_dispatch`
  abbrev pub m_cxl_tsp_dispatch : List (ℕ × Handler)
  m_cxl_tsp_dispatch =
      (k.get_target_tsp_version, cxl_tsp_get_response_get_version)
      ∷ (k.get_target_capabilities, cxl_tsp_get_response_get_capabilities)
      ∷ (k.set_target_configuration, cxl_tsp_get_response_set_configuration)
      ∷ (k.get_target_configuration, cxl_tsp_get_response_get_configuration)
      ∷ (k.get_target_configuration_report, cxl_tsp_get_response_get_configuration_report)
      ∷ (k.lock_target_configuration, cxl_tsp_get_response_lock_configuration)
      ∷ (k.set_target_te_state, cxl_tsp_get_response_set_te_state)
      ∷ []

  -- The table with its handlers open: what proofs about all of them name.
  unfoldable pub open_dispatch : List (ℕ × Handler)
  unfolding cxl_tsp_get_response_get_version cxl_tsp_get_response_get_capabilities
      cxl_tsp_get_response_set_configuration cxl_tsp_get_response_get_configuration
      cxl_tsp_get_response_get_configuration_report cxl_tsp_get_response_lock_configuration
      cxl_tsp_get_response_set_te_state
  open_dispatch = m_cxl_tsp_dispatch

  -- The loop over the table, and the status behind it.
  unfoldable pub dispatch : List (ℕ × Handler) → Handler
  dispatch [] c w session_id r request_size response_size = (c, fails unsupported_cap)
  dispatch ((op_code, func) ∷ table) c w session_id r request_size response_size =
      if r.header.op_code == op_code
      then func c w session_id r request_size response_size
      else dispatch table c w session_id r request_size response_size

  unfoldable pub cxl_tsp_get_response : Handler
  unfolding dispatch
  cxl_tsp_get_response c w session_id r request_size response_size =
      if ltb request_size k.header_size
      then (c, fails invalid_msg_size)
      else dispatch m_cxl_tsp_dispatch c w session_id r request_size response_size
