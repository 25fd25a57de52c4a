-- ===== src/Tsp/Messages.antt =====
-- The TSP messages as the code of cxl_tsp_responder_lib reads and writes them. The structures and
-- numbers of the protocol are declared by industry_standard/cxl_tsp.h, which is part of libspdm and
-- not of this repository: they are the fields of `Tsp`.
use spdm_emu.Prelude.{ℕ, List, [], ◌∷◌, ◌≢◌, ◌≤◌, Distinct}

-- `cxl_tsp_header_t`
pub record Header : Type 0 where
  pub tsp_version : ℕ
  pub op_code : ℕ

-- `libcxltsp_device_capabilities_t`
pub record DeviceCapabilities : Type 0 where
  pub memory_encryption_features_supported : ℕ
  pub memory_encryption_algorithms_supported : ℕ
  pub memory_encryption_number_of_range_based_keys : ℕ
  pub te_state_change_and_access_control_features_supported : ℕ
  pub supported_explicit_oob_te_state_granularity : ℕ
  pub supported_explicit_ib_te_state_granularity : ℕ
  pub configuration_features_supported : ℕ
  pub number_of_ckids : ℕ
  pub number_of_secondary_sessions : ℕ

-- `cxl_tsp_explicit_ib_te_state_granularity_entry_t`: `rest` holds the bytes that are only copied.
pub record GranularityEntry : Type 0 where
  pub length_index : ℕ
  pub rest : List ℕ

-- `libcxltsp_device_configuration_t`
pub record DeviceConfiguration : Type 0 where
  pub memory_encryption_features_enable : ℕ
  pub memory_encryption_algorithm_select : ℕ
  pub te_state_change_and_access_control_features_enable : ℕ
  pub explicit_oob_te_state_granularity : ℕ
  pub configuration_features_enable : ℕ
  pub ckid_base : ℕ
  pub number_of_ckids : ℕ
  pub explicit_ib_te_state_granularity_entry : List GranularityEntry

-- `libcxltsp_device_2nd_session_info_t`
pub record SecondSessionInfo : Type 0 where
  pub configuration_validity_flags : ℕ
  pub secondary_session_ckid_type : ℕ
  pub secondary_session_psk_key_material : List (List ℕ)

-- A request buffer, as the fields that the handlers read through their own request structure. The
-- fields of SET_TARGET_CONFIGURATION are grouped as the handler stores them.
pub record Request : Type 0 where
  pub header : Header
  pub configuration : DeviceConfiguration
  pub second_session : SecondSessionInfo
  pub offset : ℕ
  pub length : ℕ
  pub te_state : ℕ
  pub number_of_memory_ranges : ℕ
  pub memory_ranges : List (List ℕ)

-- What follows the header in each response structure.
pub data Body : Type 0 where
  get_version_rsp : ℕ → List ℕ → Body
  get_capabilities_rsp : DeviceCapabilities → Body
  set_configuration_rsp : Body
  get_configuration_rsp : DeviceConfiguration → ℕ → Body
  get_report_rsp : ℕ → ℕ → List ℕ → Body
  lock_configuration_rsp : Body
  set_te_state_rsp : Body
  error_rsp : ℕ → ℕ → Body

pub record Response : Type 0 where
  pub header : Header
  pub body : Body

-- industry_standard/cxl_tsp.h, and what the TSP code calls of libspdm.
pub record Tsp : Type 0 where
  pub version_10 : ℕ
  -- op codes
  pub get_target_tsp_version : ℕ
  pub get_target_capabilities : ℕ
  pub set_target_configuration : ℕ
  pub get_target_configuration : ℕ
  pub get_target_configuration_report : ℕ
  pub lock_target_configuration : ℕ
  pub set_target_te_state : ℕ
  pub get_target_tsp_version_rsp : ℕ
  pub get_target_capabilities_rsp : ℕ
  pub set_target_configuration_rsp : ℕ
  pub get_target_configuration_rsp : ℕ
  pub get_target_configuration_report_rsp : ℕ
  pub lock_target_configuration_rsp : ℕ
  pub set_target_te_state_rsp : ℕ
  pub error_rsp : ℕ
  -- CXL_TSP_ERROR_CODE_*
  pub invalid_request : ℕ
  pub version_mismatch : ℕ
  pub no_privilege : ℕ
  pub invalid_security_state : ℕ
  pub already_locked : ℕ
  -- CXL_TSP_STATE_*
  pub config_unlocked : ℕ
  pub config_locked : ℕ
  pub state_error : ℕ
  -- CXL_TSP_MEMORY_ENCRYPTION_*
  pub enable_encryption : ℕ
  pub enable_ckid_based_encryption : ℕ
  pub enable_range_based_encryption : ℕ
  pub enable_ckid_based_required : ℕ
  pub support_encryption : ℕ
  pub support_ckid_based_encryption : ℕ
  pub support_range_based_encryption : ℕ
  pub support_initiator_supplied_entropy : ℕ
  pub support_ckid_based_required : ℕ
  pub aes_xts_128 : ℕ
  pub aes_xts_256 : ℕ
  pub vendor_specific : ℕ
  -- CXL_TSP_TE_STATE_CHANGE_AND_ACCESS_CONTROL_FEATURES_*
  pub write_access_control : ℕ
  pub read_access_control : ℕ
  pub implicit_te_state_change : ℕ
  pub explicit_oob_te_state_change : ℕ
  pub explicit_ib_te_state_change : ℕ
  pub explicit_te_state_change_sanitize : ℕ
  -- CXL_TSP_EXPLICIT_IB_TE_STATE_CHANGE_GRANULARITY_* and CXL_TSP_CONFIGURATION_FEATURES_*
  pub granularity_64B : ℕ
  pub granularity_entire_memory : ℕ
  pub support_locked_target_fw_update : ℕ
  pub support_additional_spdm_sessions : ℕ
  -- sizeof
  pub header_size : ℕ
  pub get_version_size : ℕ
  pub get_capabilities_size : ℕ
  pub set_configuration_size : ℕ
  pub get_configuration_size : ℕ
  pub get_report_size : ℕ
  pub lock_configuration_size : ℕ
  pub set_te_state_size : ℕ
  pub memory_range_size : ℕ
  pub get_version_rsp_size : ℕ
  pub get_capabilities_rsp_size : ℕ
  pub set_configuration_rsp_size : ℕ
  pub get_configuration_rsp_size : ℕ
  pub get_report_rsp_size : ℕ
  pub lock_configuration_rsp_size : ℕ
  pub set_te_state_rsp_size : ℕ
  pub error_size : ℕ
  pub granularity_entry_rest_size : ℕ
  pub psk_key_material_size : ℕ
  -- CXL_TSP_2ND_SESSION_COUNT
  pub second_session_count : ℕ

-- What the header documents, and the theorems use.
pub record TspLaws (k : Tsp) : Type 0 where
  pub unlocked_ne_locked : k.config_unlocked ≢ k.config_locked
  pub invalid_request_ne_success : k.invalid_request ≢ 0

-- That the requests are told apart, that each of them is at least a header long, and that the
-- states of an unlocked and of a locked target come before CONFIG_ERROR.
pub record TspRequests (k : Tsp) : Type 0 where
  pub requests_distinct : Distinct (
      k.get_target_tsp_version ∷ k.get_target_capabilities ∷ k.set_target_configuration
      ∷ k.get_target_configuration ∷ k.get_target_configuration_report ∷ k.lock_target_configuration
      ∷ k.set_target_te_state ∷ [])
  pub version_fits : k.header_size ≤ k.get_version_size
  pub set_fits : k.header_size ≤ k.set_configuration_size
  pub get_fits : k.header_size ≤ k.get_configuration_size
  pub report_fits : k.header_size ≤ k.get_report_size
  pub lock_fits : k.header_size ≤ k.lock_configuration_size
  pub te_state_fits : k.header_size ≤ k.set_te_state_size
  pub unlocked_le_error : k.config_unlocked ≤ k.state_error
  pub locked_le_error : k.config_locked ≤ k.state_error
