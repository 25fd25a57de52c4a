-- ===== src/Emu/Args/Tables/Algorithms.antt =====
-- The tables of algorithms of spdm_emu/spdm_emu_common/spdm_emu.c. The macros of its
-- own headers are written out; `m` gives the values of the constants of libspdm by their names.
use Prim.Native.String.{String}
use spdm_emu.Prelude.{ℕ, List, [], ◌∷◌}
use spdm_emu.Emu.Args.Names.{Entry}

abbrev entry : ℕ → String → Entry
entry v n = record { value = v; name = n }

module _ (m : String → ℕ) where
  abbrev pub m_hash_value_string_table : List Entry
  m_hash_value_string_table =
      entry (m "SPDM_ALGORITHMS_BASE_HASH_ALGO_TPM_ALG_SHA_256") "SHA_256"
      ∷ entry (m "SPDM_ALGORITHMS_BASE_HASH_ALGO_TPM_ALG_SHA_384") "SHA_384"
      ∷ entry (m "SPDM_ALGORITHMS_BASE_HASH_ALGO_TPM_ALG_SHA_512") "SHA_512"
      ∷ entry (m "SPDM_ALGORITHMS_BASE_HASH_ALGO_TPM_ALG_SHA3_256") "SHA3_256"
      ∷ entry (m "SPDM_ALGORITHMS_BASE_HASH_ALGO_TPM_ALG_SHA3_384") "SHA3_384"
      ∷ entry (m "SPDM_ALGORITHMS_BASE_HASH_ALGO_TPM_ALG_SHA3_512") "SHA3_512"
      ∷ entry (m "SPDM_ALGORITHMS_BASE_HASH_ALGO_TPM_ALG_SM3_256") "SM3_256"
      ∷ []

  abbrev pub m_measurement_spec_value_string_table : List Entry
  m_measurement_spec_value_string_table =
      entry (m "SPDM_MEASUREMENT_SPECIFICATION_DMTF") "DMTF" ∷ []

  abbrev pub m_mel_spec_value_string_table : List Entry
  m_mel_spec_value_string_table = entry (m "SPDM_MEL_SPECIFICATION_DMTF") "DMTF" ∷ []

  abbrev pub m_measurement_hash_value_string_table : List Entry
  m_measurement_hash_value_string_table =
      entry (m "SPDM_ALGORITHMS_MEASUREMENT_HASH_ALGO_RAW_BIT_STREAM_ONLY") "RAW_BIT"
      ∷ entry (m "SPDM_ALGORITHMS_MEASUREMENT_HASH_ALGO_TPM_ALG_SHA_256") "SHA_256"
      ∷ entry (m "SPDM_ALGORITHMS_MEASUREMENT_HASH_ALGO_TPM_ALG_SHA_384") "SHA_384"
      ∷ entry (m "SPDM_ALGORITHMS_MEASUREMENT_HASH_ALGO_TPM_ALG_SHA_512") "SHA_512"
      ∷ entry (m "SPDM_ALGORITHMS_MEASUREMENT_HASH_ALGO_TPM_ALG_SHA3_256") "SHA3_256"
      ∷ entry (m "SPDM_ALGORITHMS_MEASUREMENT_HASH_ALGO_TPM_ALG_SHA3_384") "SHA3_384"
      ∷ entry (m "SPDM_ALGORITHMS_MEASUREMENT_HASH_ALGO_TPM_ALG_SHA3_512") "SHA3_512"
      ∷ entry (m "SPDM_ALGORITHMS_MEASUREMENT_HASH_ALGO_TPM_ALG_SM3_256") "SM3_256"
      ∷ []

  abbrev pub m_asym_value_string_table : List Entry
  m_asym_value_string_table =
      entry 0 "NONE"
      ∷ entry (m "SPDM_ALGORITHMS_BASE_ASYM_ALGO_TPM_ALG_RSASSA_2048") "RSASSA_2048"
      ∷ entry (m "SPDM_ALGORITHMS_BASE_ASYM_ALGO_TPM_ALG_RSASSA_3072") "RSASSA_3072"
      ∷ entry (m "SPDM_ALGORITHMS_BASE_ASYM_ALGO_TPM_ALG_RSASSA_4096") "RSASSA_4096"
      ∷ entry (m "SPDM_ALGORITHMS_BASE_ASYM_ALGO_TPM_ALG_RSAPSS_2048") "RSAPSS_2048"
      ∷ entry (m "SPDM_ALGORITHMS_BASE_ASYM_ALGO_TPM_ALG_RSAPSS_3072") "RSAPSS_3072"
      ∷ entry (m "SPDM_ALGORITHMS_BASE_ASYM_ALGO_TPM_ALG_RSAPSS_4096") "RSAPSS_4096"
      ∷ entry (m "SPDM_ALGORITHMS_BASE_ASYM_ALGO_TPM_ALG_ECDSA_ECC_NIST_P256") "ECDSA_P256"
      ∷ entry (m "SPDM_ALGORITHMS_BASE_ASYM_ALGO_TPM_ALG_ECDSA_ECC_NIST_P384") "ECDSA_P384"
      ∷ entry (m "SPDM_ALGORITHMS_BASE_ASYM_ALGO_TPM_ALG_ECDSA_ECC_NIST_P521") "ECDSA_P521"
      ∷ entry (m "SPDM_ALGORITHMS_BASE_ASYM_ALGO_TPM_ALG_SM2_ECC_SM2_P256") "SM2_P256"
      ∷ entry (m "SPDM_ALGORITHMS_BASE_ASYM_ALGO_EDDSA_ED25519") "EDDSA_25519"
      ∷ entry (m "SPDM_ALGORITHMS_BASE_ASYM_ALGO_EDDSA_ED448") "EDDSA_448"
      ∷ []

  abbrev pub m_dhe_value_string_table : List Entry
  m_dhe_value_string_table =
      entry 0 "NONE"
      ∷ entry (m "SPDM_ALGORITHMS_DHE_NAMED_GROUP_FFDHE_2048") "FFDHE_2048"
      ∷ entry (m "SPDM_ALGORITHMS_DHE_NAMED_GROUP_FFDHE_3072") "FFDHE_3072"
      ∷ entry (m "SPDM_ALGORITHMS_DHE_NAMED_GROUP_FFDHE_4096") "FFDHE_4096"
      ∷ entry (m "SPDM_ALGORITHMS_DHE_NAMED_GROUP_SECP_256_R1") "SECP_256_R1"
      ∷ entry (m "SPDM_ALGORITHMS_DHE_NAMED_GROUP_SECP_384_R1") "SECP_384_R1"
      ∷ entry (m "SPDM_ALGORITHMS_DHE_NAMED_GROUP_SECP_521_R1") "SECP_521_R1"
      ∷ entry (m "SPDM_ALGORITHMS_DHE_NAMED_GROUP_SM2_P256") "SM2_P256"
      ∷ []

  abbrev pub m_aead_value_string_table : List Entry
  m_aead_value_string_table =
      entry (m "SPDM_ALGORITHMS_AEAD_CIPHER_SUITE_AES_128_GCM") "AES_128_GCM"
      ∷ entry (m "SPDM_ALGORITHMS_AEAD_CIPHER_SUITE_AES_256_GCM") "AES_256_GCM"
      ∷ entry (m "SPDM_ALGORITHMS_AEAD_CIPHER_SUITE_CHACHA20_POLY1305") "CHACHA20_POLY1305"
      ∷ entry (m "SPDM_ALGORITHMS_AEAD_CIPHER_SUITE_AEAD_SM4_GCM") "SM4_128_GCM"
      ∷ []

  abbrev pub m_pqc_asym_value_string_table : List Entry
  m_pqc_asym_value_string_table =
      entry 0 "NONE"
      ∷ entry (m "SPDM_ALGORITHMS_PQC_ASYM_ALGO_ML_DSA_44") "ML_DSA_44"
      ∷ entry (m "SPDM_ALGORITHMS_PQC_ASYM_ALGO_ML_DSA_65") "ML_DSA_65"
      ∷ entry (m "SPDM_ALGORITHMS_PQC_ASYM_ALGO_ML_DSA_87") "ML_DSA_87"
      ∷ entry (m "SPDM_ALGORITHMS_PQC_ASYM_ALGO_SLH_DSA_SHA2_128S") "SLH_DSA_SHA2_128S"
      ∷ entry (m "SPDM_ALGORITHMS_PQC_ASYM_ALGO_SLH_DSA_SHAKE_128S") "SLH_DSA_SHAKE_128S"
      ∷ entry (m "SPDM_ALGORITHMS_PQC_ASYM_ALGO_SLH_DSA_SHA2_128F") "SLH_DSA_SHA2_128F"
      ∷ entry (m "SPDM_ALGORITHMS_PQC_ASYM_ALGO_SLH_DSA_SHAKE_128F") "SLH_DSA_SHAKE_128F"
      ∷ entry (m "SPDM_ALGORITHMS_PQC_ASYM_ALGO_SLH_DSA_SHA2_192S") "SLH_DSA_SHA2_192S"
      ∷ entry (m "SPDM_ALGORITHMS_PQC_ASYM_ALGO_SLH_DSA_SHAKE_192S") "SLH_DSA_SHAKE_192S"
      ∷ entry (m "SPDM_ALGORITHMS_PQC_ASYM_ALGO_SLH_DSA_SHA2_192F") "SLH_DSA_SHA2_192F"
      ∷ entry (m "SPDM_ALGORITHMS_PQC_ASYM_ALGO_SLH_DSA_SHAKE_192F") "SLH_DSA_SHAKE_192F"
      ∷ entry (m "SPDM_ALGORITHMS_PQC_ASYM_ALGO_SLH_DSA_SHA2_256S") "SLH_DSA_SHA2_256S"
      ∷ entry (m "SPDM_ALGORITHMS_PQC_ASYM_ALGO_SLH_DSA_SHAKE_256S") "SLH_DSA_SHAKE_256S"
      ∷ entry (m "SPDM_ALGORITHMS_PQC_ASYM_ALGO_SLH_DSA_SHA2_256F") "SLH_DSA_SHA2_256F"
      ∷ entry (m "SPDM_ALGORITHMS_PQC_ASYM_ALGO_SLH_DSA_SHAKE_256F") "SLH_DSA_SHAKE_256F"
      ∷ []

  abbrev pub m_kem_value_string_table : List Entry
  m_kem_value_string_table =
      entry 0 "NONE"
      ∷ entry (m "SPDM_ALGORITHMS_KEM_ALG_ML_KEM_512") "ML_KEM_512"
      ∷ entry (m "SPDM_ALGORITHMS_KEM_ALG_ML_KEM_768") "ML_KEM_768"
      ∷ entry (m "SPDM_ALGORITHMS_KEM_ALG_ML_KEM_1024") "ML_KEM_1024"
      ∷ []

  abbrev pub m_key_schedule_value_string_table : List Entry
  m_key_schedule_value_string_table = entry (m "SPDM_ALGORITHMS_KEY_SCHEDULE_SPDM") "HMAC_HASH" ∷ []

  abbrev pub m_other_param_value_string_table : List Entry
  m_other_param_value_string_table =
      entry (m "SPDM_ALGORITHMS_OPAQUE_DATA_FORMAT_1") "OPAQUE_FMT_1"
      ∷ entry (m "SPDM_ALGORITHMS_MULTI_KEY_CONN") "MULTI_KEY_CONN"
      ∷ []
