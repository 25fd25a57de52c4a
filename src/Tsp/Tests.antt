-- ===== src/Tsp/Tests.antt =====
-- The TSP theorems at one device: a target for which the numbers of the protocol are distinct small
-- ones, with short structures.
mod Calls
use spdm_emu.Prelude.{
  ℕ, ◌≡◌, ◌↔◌, refl, true, false, arith, [], ◌∷◌, some, replicate, inl, Distinct, All,
}
use spdm_emu.Tsp.Messages.{DeviceConfiguration, SecondSessionInfo, Request, Tsp, TspLaws}
use spdm_emu.Tsp.Device.{
  Context, Surroundings, zero_configuration, libcxltsp_initialize_device_context,
  libcxltsp_initialize_session_id, libcxltsp_get_session_type, libcxltsp_is_session_primary,
}
use spdm_emu.Tsp.Validate.{
  entries_ok, cxl_tsp_validate_configruation, memory_features_ok, memory_features, algorithm_ok,
  libspdm_onehot0, te_features_ok, te_features, oob_granularity_ok, ckids_ok, ib_granularity_ok,
  second_sessions_ok, secondary_sessions,
}
use spdm_emu.Tsp.Responder.{
  cxl_tsp_get_response, open_dispatch, cxl_tsp_get_response_get_configuration_report,
}
use spdm_emu.Tsp.Replies.{IsAnswer, Untouched, tsp_response-IsAnswer, tsp_error_unchanged}
use spdm_emu.Tsp.Trace.{Call, run}
use spdm_emu.Tsp.Control.{Move, SameControl, response_unprivileged, control_moves, run_locked}
use spdm_emu.Tsp.Entries.{indices, Admissible, entries_iff}
use spdm_emu.Tsp.Acceptance.{Acceptable, validate_iff}
use spdm_emu.Tsp.Configured.{ConfigMove, Configured, configuration_moves, run-Configured}
use spdm_emu.Tsp.Portion.{IsReportPortion, tsp_report-IsPortion}
use spdm_emu.Tsp.Sessions.{type_after, session_type-initialize}

abbrev pub tsp : Tsp
tsp = record {
  version_10 = 0x10;
  get_target_tsp_version = 0x81;
  get_target_capabilities = 0x82;
  set_target_configuration = 0x83;
  get_target_configuration = 0x84;
  get_target_configuration_report = 0x85;
  lock_target_configuration = 0x86;
  set_target_te_state = 0x87;
  get_target_tsp_version_rsp = 0x01;
  get_target_capabilities_rsp = 0x02;
  set_target_configuration_rsp = 0x03;
  get_target_configuration_rsp = 0x04;
  get_target_configuration_report_rsp = 0x05;
  lock_target_configuration_rsp = 0x06;
  set_target_te_state_rsp = 0x07;
  error_rsp = 0x7F;
  invalid_request = 1;
  version_mismatch = 2;
  no_privilege = 3;
  invalid_security_state = 4;
  already_locked = 5;
  config_unlocked = 0;
  config_locked = 1;
  state_error = 255;
  enable_encryption = 1;
  enable_ckid_based_encryption = 2;
  enable_range_based_encryption = 4;
  enable_ckid_based_required = 8;
  support_encryption = 1;
  support_ckid_based_encryption = 2;
  support_range_based_encryption = 4;
  support_initiator_supplied_entropy = 8;
  support_ckid_based_required = 16;
  aes_xts_128 = 1;
  aes_xts_256 = 2;
  vendor_specific = 4;
  write_access_control = 1;
  read_access_control = 2;
  implicit_te_state_change = 4;
  explicit_oob_te_state_change = 8;
  explicit_ib_te_state_change = 16;
  explicit_te_state_change_sanitize = 32;
  granularity_64B = 1;
  granularity_entire_memory = 128;
  support_locked_target_fw_update = 1;
  support_additional_spdm_sessions = 4;
  header_size = 4;
  get_version_size = 4;
  get_capabilities_size = 4;
  set_configuration_size = 40;
  get_configuration_size = 4;
  get_report_size = 8;
  lock_configuration_size = 4;
  set_te_state_size = 8;
  memory_range_size = 16;
  get_version_rsp_size = 6;
  get_capabilities_rsp_size = 32;
  set_configuration_rsp_size = 4;
  get_configuration_rsp_size = 36;
  get_report_rsp_size = 8;
  lock_configuration_rsp_size = 4;
  set_te_state_rsp_size = 4;
  error_size = 12;
  granularity_entry_rest_size = 2;
  psk_key_material_size = 2;
  second_session_count = 4;
}

pub tsp-laws : TspLaws tsp
tsp-laws = record { unlocked_ne_locked = omega arith; invalid_request_ne_success = omega arith }

abbrev pub room : ℕ
room = 1024

abbrev pub keys : SecondSessionInfo
keys = record {
  configuration_validity_flags = 1;
  secondary_session_ckid_type = 0;
  secondary_session_psk_key_material = replicate 4 (7 ∷ 8 ∷ []);
}

-- Encryption by AES-XTS-256, read access control, and in-band changes of the TE state.
abbrev pub wanted : DeviceConfiguration
wanted = record {
  memory_encryption_features_enable = 1;
  memory_encryption_algorithm_select = 2;
  te_state_change_and_access_control_features_enable = 18;
  explicit_oob_te_state_granularity = 0;
  configuration_features_enable = 0;
  ckid_base = 0;
  number_of_ckids = 0;
  explicit_ib_te_state_granularity_entry =
      record { length_index = 0; rest = 1 ∷ 2 ∷ [] }
      ∷ record { length_index = 0xff; rest = 0 ∷ 0 ∷ [] }
      ∷ record { length_index = 3; rest = 3 ∷ 4 ∷ [] }
      ∷ [];
}

abbrev pub request : ℕ → Request
request op_code = record {
  header = record { tsp_version = 0x10; op_code = op_code };
  configuration = wanted;
  second_session = keys;
  offset = 256;
  length = 600;
  te_state = 0;
  number_of_memory_ranges = 1;
  memory_ranges = [];
}

abbrev pub no_psk : Surroundings
no_psk = record { is_psk = false; current_psk_session_index = 0 }

abbrev psk : Surroundings
psk = record { is_psk = true; current_psk_session_index = 2 }

-- The global of the library before any request.
abbrev pub blank : Context
blank = record {
  session_id_primary_valid = false;
  session_id_primary = 0;
  session_id_secondary_valid = replicate 4 false;
  session_id_secondary = replicate 4 0;
  supported_tsp_versions = 0 ∷ [];
  supported_tsp_versions_count = 0;
  device_capabilities = record {
    memory_encryption_features_supported = 0;
    memory_encryption_algorithms_supported = 0;
    memory_encryption_number_of_range_based_keys = 0;
    te_state_change_and_access_control_features_supported = 0;
    supported_explicit_oob_te_state_granularity = 0;
    supported_explicit_ib_te_state_granularity = 0;
    configuration_features_supported = 0;
    number_of_ckids = 0;
    number_of_secondary_sessions = 0;
  };
  device_configuration = zero_configuration tsp;
  device_2nd_session_info = keys;
  current_tsp_state = 0;
  configuration_report = replicate 4096 0;
  configuration_report_size = 0;
  second_session_psk = replicate 4 (0 ∷ 0 ∷ []);
}

abbrev call : ℕ → ℕ → Call
call op_code size = record {
  surroundings = no_psk;
  session_id = some 9;
  request = request op_code;
  request_size = size;
  response_size = room;
}

-- The target with session 9 as its primary one, and the same target locked.
abbrev established : Context
established = run tsp blank (call 0x81 4 ∷ [])

abbrev locked : Context
locked = run tsp established (call 0x83 40 ∷ call 0x86 4 ∷ [])

-- Each request of the setup is served.
setup :
    (locked.session_id_primary_valid ≡ true)
    × (locked.session_id_primary ≡ 9)
    × (locked.current_tsp_state ≡ 1)
    × (locked.device_configuration ≡ wanted)
    × (locked.device_capabilities.number_of_ckids ≡ 0)
unfolding run cxl_tsp_get_response open_dispatch zero_configuration libcxltsp_get_session_type
    libcxltsp_is_session_primary cxl_tsp_validate_configruation memory_features_ok memory_features
    algorithm_ok libspdm_onehot0 te_features_ok te_features oob_granularity_ok ckids_ok
    ib_granularity_ok second_sessions_ok secondary_sessions entries_ok
    libcxltsp_initialize_device_context libcxltsp_initialize_session_id replicate
setup = (refl, refl, refl, refl, refl)

run_locked_example :
    SameControl locked (run tsp locked (call 0x83 40 ∷ call 0x85 8 ∷ call 0x81 4 ∷ []))
run_locked_example =
    run_locked tsp tsp-laws locked (call 0x83 40 ∷ call 0x85 8 ∷ call 0x81 4 ∷ []) setup.0 setup.2

configuration_moves_example :
    ConfigMove tsp
      (some 9)
      (request 0x83)
      established
      (cxl_tsp_get_response tsp established no_psk (some 9) (request 0x83) 40 room).0
configuration_moves_example =
    configuration_moves tsp established no_psk (some 9) (request 0x83) 40 room

run-Configured_example :
    Configured tsp (run tsp blank (call 0x81 4 ∷ call 0x83 40 ∷ call 0x86 4 ∷ []))
run-Configured_example =
    run-Configured tsp tsp-laws blank (call 0x81 4 ∷ call 0x83 40 ∷ call 0x86 4 ∷ [])
      (omega arith, inl refl)

tsp_response-IsAnswer_example :
    IsAnswer tsp
      (request 0x85)
      8
      room
      (cxl_tsp_get_response tsp locked no_psk (some 9) (request 0x85) 8 room).1
tsp_response-IsAnswer_example =
    tsp_response-IsAnswer tsp locked no_psk (some 9) (request 0x85) 8 room (record {
      for_version = omega arith;
      for_capabilities = omega arith;
      for_set = omega arith;
      for_get = omega arith;
      for_report = omega arith;
      for_lock = omega arith;
      for_te_state = omega arith;
      for_error = omega arith;
    })

validate_iff_example :
    (cxl_tsp_validate_configruation tsp (request 0x83) locked.device_capabilities ≡ 0)
    ↔ Acceptable tsp (request 0x83) locked.device_capabilities
validate_iff_example =
    validate_iff tsp (request 0x83) locked.device_capabilities tsp-laws (ground (arith, setup.4))

abbrev served : Context
served = record blank { session_id_primary_valid = true; session_id_primary = 9 }
