-- ===== src/Emu/Args/Tables/Modes.antt =====
-- The other tables of spdm_emu/spdm_emu_common/spdm_emu.c. The macros of its
-- own headers are written out; `m` gives the values of the constants of libspdm by their names.
use Prim.Native.String.{String}
use spdm_emu.Prelude.{ℕ, List, [], ◌∷◌}
use spdm_emu.Emu.Args.Names.{Entry}

abbrev entry : ℕ → String → Entry
entry v n = record { value = v; name = n }

module _ (m : String → ℕ) where
  abbrev pub m_transport_value_string_table : List Entry
  m_transport_value_string_table =
      entry 0x00 "NONE" ∷ entry 0x01 "MCTP" ∷ entry 0x02 "PCI_DOE" ∷ entry 0x03 "TCP" ∷ []

  abbrev pub m_tcp_subtype_string_table : List Entry
  m_tcp_subtype_string_table = entry 0x00 "NO_RI" ∷ entry 0x01 "RI" ∷ []

  abbrev pub m_version_value_string_table : List Entry
  m_version_value_string_table =
      entry (m "SPDM_MESSAGE_VERSION_10") "1.0"
      ∷ entry (m "SPDM_MESSAGE_VERSION_11") "1.1"
      ∷ entry (m "SPDM_MESSAGE_VERSION_12") "1.2"
      ∷ entry (m "SPDM_MESSAGE_VERSION_13") "1.3"
      ∷ entry (m "SPDM_MESSAGE_VERSION_14") "1.4"
      ∷ []

  abbrev pub m_secured_message_version_value_string_table : List Entry
  m_secured_message_version_value_string_table =
      entry (m "SECURED_SPDM_VERSION_10") "1.0"
      ∷ entry (m "SECURED_SPDM_VERSION_11") "1.1"
      ∷ entry (m "SECURED_SPDM_VERSION_12") "1.2"
      ∷ []

  abbrev pub m_pqc_first_policy_string_table : List Entry
  m_pqc_first_policy_string_table = entry 0 "FALSE" ∷ entry 1 "TRUE" ∷ []

  abbrev pub m_basic_mut_auth_policy_string_table : List Entry
  m_basic_mut_auth_policy_string_table = entry 0 "NO" ∷ entry 1 "BASIC" ∷ []

  abbrev pub m_mut_auth_policy_string_table : List Entry
  m_mut_auth_policy_string_table =
      entry 0 "NO"
      ∷ entry (m "SPDM_KEY_EXCHANGE_RESPONSE_MUT_AUTH_REQUESTED") "WO_ENCAP"
      ∷ entry (m "SPDM_KEY_EXCHANGE_RESPONSE_MUT_AUTH_REQUESTED_WITH_ENCAP_REQUEST") "W_ENCAP"
      ∷ entry (m "SPDM_KEY_EXCHANGE_RESPONSE_MUT_AUTH_REQUESTED_WITH_GET_DIGESTS") "DIGESTS"
      ∷ []

  abbrev pub m_measurement_summary_hash_type_string_table : List Entry
  m_measurement_summary_hash_type_string_table =
      entry (m "SPDM_CHALLENGE_REQUEST_NO_MEASUREMENT_SUMMARY_HASH") "NO"
      ∷ entry (m "SPDM_CHALLENGE_REQUEST_TCB_COMPONENT_MEASUREMENT_HASH") "TCB"
      ∷ entry (m "SPDM_CHALLENGE_REQUEST_ALL_MEASUREMENTS_HASH") "ALL"
      ∷ []

  abbrev pub m_measurement_operation_string_table : List Entry
  m_measurement_operation_string_table =
      entry (m "SPDM_GET_MEASUREMENTS_REQUEST_MEASUREMENT_OPERATION_TOTAL_NUMBER_OF_MEASUREMENTS")
        "ONE_BY_ONE"
      ∷ entry (m "SPDM_GET_MEASUREMENTS_REQUEST_MEASUREMENT_OPERATION_ALL_MEASUREMENTS") "ALL"
      ∷ []

  abbrev pub m_measurement_attribute_string_table : List Entry
  m_measurement_attribute_string_table =
      entry 0 "HASH"
      ∷ entry (m "SPDM_GET_MEASUREMENTS_REQUEST_ATTRIBUTES_RAW_BIT_STREAM_REQUESTED") "RAW"
      ∷ []

  abbrev pub m_key_update_action_string_table : List Entry
  m_key_update_action_string_table =
      entry (m "LIBSPDM_KEY_UPDATE_ACTION_REQUESTER") "REQ"
      ∷ entry (m "LIBSPDM_KEY_UPDATE_ACTION_RESPONDER") "RSP"
      ∷ entry (m "LIBSPDM_KEY_UPDATE_ACTION_MAX") "ALL"
      ∷ []

  abbrev pub m_slot_id_string_table : List Entry
  m_slot_id_string_table =
      entry 0x0 "0"
      ∷ entry 0x1 "1"
      ∷ entry 0x2 "2"
      ∷ entry 0x3 "3"
      ∷ entry 0x4 "4"
      ∷ entry 0x5 "5"
      ∷ entry 0x6 "6"
      ∷ entry 0x7 "7"
      ∷ entry 0xFF "0xFF"
      ∷ []

  abbrev pub m_slot_count_string_table : List Entry
  m_slot_count_string_table =
      entry 0x1 "1"
      ∷ entry 0x2 "2"
      ∷ entry 0x3 "3"
      ∷ entry 0x4 "4"
      ∷ entry 0x5 "5"
      ∷ entry 0x6 "6"
      ∷ entry 0x7 "7"
      ∷ entry 0x8 "8"
      ∷ []

  abbrev pub m_exe_mode_string_table : List Entry
  m_exe_mode_string_table = entry 0 "SHUTDOWN" ∷ entry 1 "CONTINUE" ∷ []

  abbrev pub m_exe_connection_string_table : List Entry
  m_exe_connection_string_table =
      entry 0x1 "VER_ONLY"
      ∷ entry 0 "VCA"
      ∷ entry 0x2 "DIGEST"
      ∷ entry 0x4 "CERT"
      ∷ entry 0x8 "CHAL"
      ∷ entry 0x10 "MEAS"
      ∷ entry 0x80 "MEL"
      ∷ entry 0x20 "SET_CERT"
      ∷ entry 0x40 "GET_CSR"
      ∷ entry 0x100 "GET_KEY_PAIR_INFO"
      ∷ entry 0x200 "SET_KEY_PAIR_INFO"
      ∷ entry 0x400 "EP_INFO"
      ∷ entry 0x800 "SUPPORTED_ALGO"
      ∷ []

  abbrev pub m_exe_session_string_table : List Entry
  m_exe_session_string_table =
      entry 0x1 "KEY_EX"
      ∷ entry 0x2 "PSK"
      ∷ entry 0x4 "NO_END"
      ∷ entry 0x8 "KEY_UPDATE"
      ∷ entry 0x10 "HEARTBEAT"
      ∷ entry 0x20 "MEAS"
      ∷ entry 0x800 "MEL"
      ∷ entry 0x1000 "GET_KEY_PAIR_INFO"
      ∷ entry 0x2000 "SET_KEY_PAIR_INFO"
      ∷ entry 0x100 "DIGEST"
      ∷ entry 0x200 "CERT"
      ∷ entry 0x40 "SET_CERT"
      ∷ entry 0x80 "GET_CSR"
      ∷ entry 0x400 "APP"
      ∷ entry 0x4000 "EP_INFO"
      ∷ []
