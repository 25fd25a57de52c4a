-- ===== src/Emu/Args/Tables/Capabilities.antt =====
-- The tables of capabilities of spdm_emu/spdm_emu_common/spdm_emu.c. The macros of its
-- own headers are written out; `m` gives the values of the constants of libspdm by their names.
use Prim.Native.String.{String}
use spdm_emu.Prelude.{ℕ, List, [], ◌∷◌}
use spdm_emu.Emu.Args.Names.{Entry}

abbrev entry : ℕ → String → Entry
entry v n = record { value = v; name = n }

module _ (m : String → ℕ) where
  abbrev pub m_spdm_requester_capabilities_string_table : List Entry
  m_spdm_requester_capabilities_string_table =
      entry (m "SPDM_GET_CAPABILITIES_REQUEST_FLAGS_CERT_CAP") "CERT"
      ∷ entry (m "SPDM_GET_CAPABILITIES_REQUEST_FLAGS_CHAL_CAP") "CHAL"
      ∷ entry (m "SPDM_GET_CAPABILITIES_REQUEST_FLAGS_ENCRYPT_CAP") "ENCRYPT"
      ∷ entry (m "SPDM_GET_CAPABILITIES_REQUEST_FLAGS_MAC_CAP") "MAC"
      ∷ entry (m "SPDM_GET_CAPABILITIES_REQUEST_FLAGS_MUT_AUTH_CAP") "MUT_AUTH"
      ∷ entry (m "SPDM_GET_CAPABILITIES_REQUEST_FLAGS_KEY_EX_CAP") "KEY_EX"
      ∷ entry (m "SPDM_GET_CAPABILITIES_REQUEST_FLAGS_PSK_CAP_REQUESTER") "PSK"
      ∷ entry (m "SPDM_GET_CAPABILITIES_REQUEST_FLAGS_ENCAP_CAP") "ENCAP"
      ∷ entry (m "SPDM_GET_CAPABILITIES_REQUEST_FLAGS_HBEAT_CAP") "HBEAT"
      ∷ entry (m "SPDM_GET_CAPABILITIES_REQUEST_FLAGS_KEY_UPD_CAP") "KEY_UPD"
      ∷ entry (m "SPDM_GET_CAPABILITIES_REQUEST_FLAGS_HANDSHAKE_IN_THE_CLEAR_CAP")
          "HANDSHAKE_IN_CLEAR"
      ∷ entry (m "SPDM_GET_CAPABILITIES_REQUEST_FLAGS_PUB_KEY_ID_CAP") "PUB_KEY_ID"
      ∷ entry (m "SPDM_GET_CAPABILITIES_REQUEST_FLAGS_CHUNK_CAP") "CHUNK"
      ∷ entry (m "SPDM_GET_CAPABILITIES_REQUEST_FLAGS_EP_INFO_CAP_NO_SIG") "EP_INFO_NO_SIG"
      ∷ entry (m "SPDM_GET_CAPABILITIES_REQUEST_FLAGS_EP_INFO_CAP_SIG") "EP_INFO_SIG"
      ∷ entry (m "SPDM_GET_CAPABILITIES_REQUEST_FLAGS_EVENT_CAP") "EVENT"
      ∷ entry (m "SPDM_GET_CAPABILITIES_REQUEST_FLAGS_MULTI_KEY_CAP_ONLY") "MULTI_KEY_ONLY"
      ∷ entry (m "SPDM_GET_CAPABILITIES_REQUEST_FLAGS_MULTI_KEY_CAP_NEG") "MULTI_KEY_NEG"
      ∷ entry (m "SPDM_GET_CAPABILITIES_REQUEST_FLAGS_LARGE_RESP_CAP") "LARGE_RESP"
      ∷ []

  abbrev pub m_spdm_responder_capabilities_string_table : List Entry
  m_spdm_responder_capabilities_string_table =
      entry (m "SPDM_GET_CAPABILITIES_RESPONSE_FLAGS_CACHE_CAP") "CACHE"
      ∷ entry (m "SPDM_GET_CAPABILITIES_RESPONSE_FLAGS_CERT_CAP") "CERT"
      ∷ entry (m "SPDM_GET_CAPABILITIES_RESPONSE_FLAGS_CHAL_CAP") "CHAL"
      ∷ entry (m "SPDM_GET_CAPABILITIES_RESPONSE_FLAGS_MEAS_CAP_NO_SIG") "MEAS_NO_SIG"
      ∷ entry (m "SPDM_GET_CAPABILITIES_RESPONSE_FLAGS_MEAS_CAP_SIG") "MEAS_SIG"
      ∷ entry (m "SPDM_GET_CAPABILITIES_RESPONSE_FLAGS_MEAS_FRESH_CAP") "MEAS_FRESH"
      ∷ entry (m "SPDM_GET_CAPABILITIES_RESPONSE_FLAGS_ENCRYPT_CAP") "ENCRYPT"
      ∷ entry (m "SPDM_GET_CAPABILITIES_RESPONSE_FLAGS_MAC_CAP") "MAC"
      ∷ entry (m "SPDM_GET_CAPABILITIES_RESPONSE_FLAGS_MUT_AUTH_CAP") "MUT_AUTH"
      ∷ entry (m "SPDM_GET_CAPABILITIES_RESPONSE_FLAGS_KEY_EX_CAP") "KEY_EX"
      ∷ entry (m "SPDM_GET_CAPABILITIES_RESPONSE_FLAGS_PSK_CAP_RESPONDER") "PSK"
      ∷ entry (m "SPDM_GET_CAPABILITIES_RESPONSE_FLAGS_PSK_CAP_RESPONDER_WITH_CONTEXT")
          "PSK_WITH_CONTEXT"
      ∷ entry (m "SPDM_GET_CAPABILITIES_RESPONSE_FLAGS_ENCAP_CAP") "ENCAP"
      ∷ entry (m "SPDM_GET_CAPABILITIES_RESPONSE_FLAGS_HBEAT_CAP") "HBEAT"
      ∷ entry (m "SPDM_GET_CAPABILITIES_RESPONSE_FLAGS_KEY_UPD_CAP") "KEY_UPD"
      ∷ entry (m "SPDM_GET_CAPABILITIES_RESPONSE_FLAGS_HANDSHAKE_IN_THE_CLEAR_CAP")
          "HANDSHAKE_IN_CLEAR"
      ∷ entry (m "SPDM_GET_CAPABILITIES_RESPONSE_FLAGS_PUB_KEY_ID_CAP") "PUB_KEY_ID"
      ∷ entry (m "SPDM_GET_CAPABILITIES_RESPONSE_FLAGS_CHUNK_CAP") "CHUNK"
      ∷ entry (m "SPDM_GET_CAPABILITIES_RESPONSE_FLAGS_ALIAS_CERT_CAP") "ALIAS_CERT"
      ∷ entry (m "SPDM_GET_CAPABILITIES_RESPONSE_FLAGS_SET_CERT_CAP") "SET_CERT"
      ∷ entry (m "SPDM_GET_CAPABILITIES_RESPONSE_FLAGS_CSR_CAP") "CSR"
      ∷ entry (m "SPDM_GET_CAPABILITIES_RESPONSE_FLAGS_CERT_INSTALL_RESET_CAP") "CERT_INSTALL_RESET"
      ∷ entry (m "SPDM_GET_CAPABILITIES_RESPONSE_FLAGS_EP_INFO_CAP_NO_SIG") "EP_INFO_NO_SIG"
      ∷ entry (m "SPDM_GET_CAPABILITIES_RESPONSE_FLAGS_EP_INFO_CAP_SIG") "EP_INFO_SIG"
      ∷ entry (m "SPDM_GET_CAPABILITIES_RESPONSE_FLAGS_MEL_CAP") "MEL"
      ∷ entry (m "SPDM_GET_CAPABILITIES_RESPONSE_FLAGS_EVENT_CAP") "EVENT"
      ∷ entry (m "SPDM_GET_CAPABILITIES_RESPONSE_FLAGS_MULTI_KEY_CAP_ONLY") "MULTI_KEY_ONLY"
      ∷ entry (m "SPDM_GET_CAPABILITIES_RESPONSE_FLAGS_MULTI_KEY_CAP_NEG") "MULTI_KEY_NEG"
      ∷ entry (m "SPDM_GET_CAPABILITIES_RESPONSE_FLAGS_GET_KEY_PAIR_INFO_CAP") "GET_KEY_PAIR_INFO"
      ∷ entry (m "SPDM_GET_CAPABILITIES_RESPONSE_FLAGS_SET_KEY_PAIR_INFO_CAP") "SET_KEY_PAIR_INFO"
      ∷ entry (m "SPDM_GET_CAPABILITIES_RESPONSE_FLAGS_SET_KEY_PAIR_RESET_CAP") "SET_KEY_PAIR_RESET"
      ∷ entry (m "SPDM_GET_CAPABILITIES_RESPONSE_FLAGS_LARGE_RESP_CAP") "LARGE_RESP"
      ∷ []
