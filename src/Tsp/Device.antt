-- ===== src/Tsp/Device.antt =====
-- library/cxl_tsp_device_lib_sample: the device context, the sessions that it knows, and the
-- operations on it. The context is the global `g_cxltsp_device_context`, here with the table
-- `m_cxl_tsp_2nd_session_psk` of pre-shared keys that set_configuration fills.
use spdm_emu.Prelude.{
  ℕ, suc, ◌+◌, ◌^◌, Bool, true, false, ◌&&◌, ◌||◌, List, [], ◌∷◌, bit_and, bit_or, ◌==◌, ◌!=◌, ltb,
  if◌then◌else◌, take, replicate, set,
}
use spdm_emu.Tsp.Messages.{DeviceCapabilities, DeviceConfiguration, SecondSessionInfo, Tsp}

-- `libcxltsp_device_context`, and the pre-shared keys.
pub record Context : Type 0 where
  pub session_id_primary_valid : Bool
  pub session_id_primary : ℕ
  pub session_id_secondary_valid : List Bool
  pub session_id_secondary : List ℕ
  pub supported_tsp_versions : List ℕ
  pub supported_tsp_versions_count : ℕ
  pub device_capabilities : DeviceCapabilities
  pub device_configuration : DeviceConfiguration
  pub device_2nd_session_info : SecondSessionInfo
  pub current_tsp_state : ℕ
  pub configuration_report : List ℕ
  pub configuration_report_size : ℕ
  pub second_session_psk : List (List ℕ)

-- What a call asks of its surroundings: LIBSPDM_DATA_SESSION_USE_PSK of the session, and
-- `m_cxl_tsp_current_psk_session_index`.
pub record Surroundings : Type 0 where
  pub is_psk : Bool
  pub current_psk_session_index : ℕ

-- `libcxltsp_session_type`
pub data SessionType : Type 0 where
  primary secondary other : SessionType

abbrev pub error_code_success : ℕ
error_code_success = 0

-- LIBCXLTSP_CONFIGURATION_REPORT_MAX_SIZE
abbrev pub configuration_report_max_size : ℕ
configuration_report_max_size = 0x1000

-- sizeof(cxl_tsp_target_configuration_report_mine_t), a packed structure of bytes.
abbrev pub configuration_report_struct_size : ℕ
configuration_report_struct_size = 1 + 3 + 0x3c + 0x20 + 0x38 + 0x10 + 0x10 + 0x24

unfoldable pub libcxltsp_is_session_primary : Context → ℕ → Bool
libcxltsp_is_session_primary c session_id =
    c.session_id_primary_valid && c.session_id_primary == session_id

-- The loop over the two arrays of secondary sessions.
unfoldable pub secondary_among : List Bool → List ℕ → ℕ → Bool
secondary_among [] ids session_id = false
secondary_among (valid ∷ valids) [] session_id = false
secondary_among (valid ∷ valids) (id ∷ ids) session_id =
    valid && id == session_id || secondary_among valids ids session_id

unfoldable pub libcxltsp_is_session_secondary : Context → ℕ → Bool
unfolding secondary_among
libcxltsp_is_session_secondary c session_id =
    secondary_among (take 4 c.session_id_secondary_valid) (take 4 c.session_id_secondary) session_id

unfoldable pub libcxltsp_get_session_type : Context → ℕ → SessionType
libcxltsp_get_session_type c session_id =
    if libcxltsp_is_session_primary c session_id
    then primary
    else if libcxltsp_is_session_secondary c session_id
    then secondary
    else other

-- The assertion on the index holds at both calls.
unfoldable pub libcxltsp_set_session_id : Context → ℕ → Bool → ℕ → Context
libcxltsp_set_session_id c session_id is_secondary session_index =
    if is_secondary
    then record c {
      session_id_secondary_valid = set c.session_id_secondary_valid session_index true;
      session_id_secondary = set c.session_id_secondary session_index session_id;
    }
    else record c { session_id_primary_valid = true; session_id_primary = session_id }

unfoldable pub libcxltsp_initialize_session_id : Context → Surroundings → ℕ → Context
unfolding libcxltsp_set_session_id
libcxltsp_initialize_session_id c w session_id =
    if c.session_id_primary_valid
    then if w.is_psk
      then if ltb w.current_psk_session_index 4
        then libcxltsp_set_session_id c session_id true w.current_psk_session_index
        else c
      else c
    else libcxltsp_set_session_id c session_id false 0

module _ (k : Tsp) where
  -- The configuration of a zeroed context.
  unfoldable pub zero_configuration : DeviceConfiguration
  zero_configuration = record {
    memory_encryption_features_enable = 0;
    memory_encryption_algorithm_select = 0;
    te_state_change_and_access_control_features_enable = 0;
    explicit_oob_te_state_granularity = 0;
    configuration_features_enable = 0;
    ckid_base = 0;
    number_of_ckids = 0;
    explicit_ib_te_state_granularity_entry =
        replicate 8 (record { length_index = 0; rest = replicate k.granularity_entry_rest_size 0 });
  }

  unfoldable pub libcxltsp_initialize_device_context : Context → Context
  libcxltsp_initialize_device_context c = if c.session_id_primary_valid then c else record {
    session_id_primary_valid = false;
    session_id_primary = 0;
    session_id_secondary_valid = replicate k.second_session_count false;
    session_id_secondary = replicate k.second_session_count 0;
    supported_tsp_versions = k.version_10 ∷ [];
    supported_tsp_versions_count = 1;
    device_capabilities = record {
      memory_encryption_features_supported = k.support_encryption;
      memory_encryption_algorithms_supported = k.aes_xts_256;
      memory_encryption_number_of_range_based_keys = 0;
      te_state_change_and_access_control_features_supported =
          bit_or (bit_or k.read_access_control k.implicit_te_state_change)
            k.explicit_ib_te_state_change;
      supported_explicit_oob_te_state_granularity = 0;
      supported_explicit_ib_te_state_granularity = k.granularity_64B;
      configuration_features_supported =
          bit_or k.support_locked_target_fw_update k.support_additional_spdm_sessions;
      number_of_ckids = 0;
      number_of_secondary_sessions = 1;
    };
    device_configuration = zero_configuration;
    device_2nd_session_info = record {
      configuration_validity_flags = 0;
      secondary_session_ckid_type = 0;
      secondary_session_psk_key_material = replicate 4 (replicate k.psk_key_material_size 0);
    };
    current_tsp_state = 0;
    configuration_report = replicate configuration_report_max_size 0;
    configuration_report_size = 0;
    second_session_psk = c.second_session_psk;
  }

  unfoldable pub cxl_tsp_device_get_version :
      Context → Surroundings → ℕ → ℕ → Context × ℕ × ℕ × List ℕ
  unfolding libcxltsp_initialize_device_context libcxltsp_initialize_session_id
  cxl_tsp_device_get_version c w session_id version_number_entry_count =
      let c' =
        libcxltsp_initialize_session_id (libcxltsp_initialize_device_context c) w session_id in
      (
        c',
        error_code_success,
        c'.supported_tsp_versions_count,
        take c'.supported_tsp_versions_count c'.supported_tsp_versions,
      )

  unfoldable pub cxl_tsp_device_lock_configuration : Context → Context × ℕ
  cxl_tsp_device_lock_configuration c =
      (record c { current_tsp_state = k.config_locked }, error_code_success)

unfoldable pub cxl_tsp_device_get_capabilities : Context → ℕ × DeviceCapabilities
cxl_tsp_device_get_capabilities c = (error_code_success, c.device_capabilities)

-- The configuration is copied where the caller wants it.
unfoldable pub cxl_tsp_device_get_configuration : Context → ℕ × DeviceConfiguration × ℕ
cxl_tsp_device_get_configuration c =
    (error_code_success, c.device_configuration, c.current_tsp_state)

-- The loop of set_configuration over the secondary sessions, from `index` on: key material of a
-- valid session replaces its key.
unfoldable pub copy_psks : ℕ → ℕ → List (List ℕ) → List (List ℕ) → List (List ℕ)
copy_psks flags index [] keys = []
copy_psks flags index (psk ∷ psks) [] = psk ∷ psks
copy_psks flags index (psk ∷ psks) (key ∷ keys) =
    (if bit_and flags (2 ^ index) != 0 then key else psk) ∷ copy_psks flags (suc index) psks keys

unfoldable pub cxl_tsp_device_set_configuration :
    Context → DeviceConfiguration → SecondSessionInfo → Context × ℕ
cxl_tsp_device_set_configuration c configuration info = (
  record c {
    device_configuration = configuration;
    device_2nd_session_info = info;
    second_session_psk =
        copy_psks info.configuration_validity_flags 0 c.second_session_psk
          info.secondary_session_psk_key_material;
  },
  error_code_success,
)

-- The report is the array of the context, whose first byte is set.
unfoldable pub cxl_tsp_device_get_configuration_report : Context → Context × ℕ × List ℕ × ℕ
cxl_tsp_device_get_configuration_report c =
    let report = set c.configuration_report 0 1 in
    (
      record c {
        configuration_report = report;
        configuration_report_size = configuration_report_struct_size;
      },
      error_code_success,
      report,
      configuration_report_struct_size,
    )

unfoldable pub cxl_tsp_device_set_te_state : Context → ℕ → ℕ → List (List ℕ) → ℕ
cxl_tsp_device_set_te_state c te_state number_of_memory_ranges memory_ranges = error_code_success
