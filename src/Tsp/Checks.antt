-- ===== src/Tsp/Checks.antt =====
-- The validations of library/cxl_tsp_requester_lib: cxl_tsp_validate_capability of
-- cxl_tsp_req_get_capabilities.c and cxl_tsp_validate_configruation of
-- cxl_tsp_req_get_configuration.c, in the parts between their blank lines. Every refusal is
-- LIBSPDM_STATUS_INVALID_MSG_FIELD, so a part is a test.
use spdm_emu.Prelude.{
  ℕ, ◌+◌, ◌%◌, ◌^◌, Bool, true, false, not, ◌&&◌, ◌||◌, List, [], ◌∷◌, bit_and, bit_or, ◌==◌, ◌!=◌,
  ltb, leb, if◌then◌else◌, Status, success, invalid_msg_field,
}
use spdm_emu.Tsp.Messages.{DeviceCapabilities, DeviceConfiguration, GranularityEntry, Tsp}
use spdm_emu.Tsp.Validate.{has, libspdm_onehot0, memory_features, te_features}

module _ (k : Tsp) where
  -- The features that the code looks at; the others are masked out.
  unfoldable pub supported_memory_features : DeviceCapabilities → ℕ
  supported_memory_features caps = bit_and caps.memory_encryption_features_supported (
      bit_or
        (bit_or
          (bit_or (bit_or k.support_encryption k.support_ckid_based_encryption)
            k.support_range_based_encryption)
          k.support_initiator_supplied_entropy)
        k.support_ckid_based_required)

  unfoldable pub supported_memory_ok : ℕ → Bool
  supported_memory_ok supported =
      if bit_and supported k.support_encryption == 0
      then not (
          has supported k.support_ckid_based_encryption
          || has supported k.support_range_based_encryption
          || has supported k.support_ckid_based_required)
      else not (
          has supported k.support_ckid_based_required
          && bit_and supported k.support_ckid_based_encryption == 0)

  unfoldable pub supported_algorithms_ok : ℕ → DeviceCapabilities → Bool
  supported_algorithms_ok supported caps =
      let algorithms =
        bit_and caps.memory_encryption_algorithms_supported
          (bit_or (bit_or k.aes_xts_128 k.aes_xts_256) k.vendor_specific) in
      if has supported k.support_encryption then algorithms != 0 else true

  unfoldable pub range_keys_ok : ℕ → DeviceCapabilities → Bool
  range_keys_ok supported caps =
      if bit_and supported k.support_range_based_encryption == 0
      then caps.memory_encryption_number_of_range_based_keys == 0
      else caps.memory_encryption_number_of_range_based_keys != 0

  unfoldable pub supported_te_features : DeviceCapabilities → ℕ
  supported_te_features caps = bit_and caps.te_state_change_and_access_control_features_supported (
      bit_or
        (bit_or
          (bit_or
            (bit_or (bit_or k.write_access_control k.read_access_control)
              k.implicit_te_state_change)
            k.explicit_oob_te_state_change)
          k.explicit_ib_te_state_change)
        k.explicit_te_state_change_sanitize)

  -- Access control and sanitising need a change of the TE state, here for what is supported and
  -- below for what is enabled.
  unfoldable pub access_ok : ℕ → Bool
  access_ok features =
      let explicit = bit_or k.explicit_oob_te_state_change k.explicit_ib_te_state_change in
      let any =
        bit_or (bit_or k.implicit_te_state_change k.explicit_oob_te_state_change)
          k.explicit_ib_te_state_change in
      if has features k.write_access_control && bit_and features explicit == 0
      then false
      else not (has features k.read_access_control && bit_and features any == 0)

  unfoldable pub sanitize_ok : ℕ → Bool
  sanitize_ok features =
      let explicit = bit_or k.explicit_oob_te_state_change k.explicit_ib_te_state_change in
      not (has features k.explicit_te_state_change_sanitize && bit_and features explicit == 0)

  unfoldable pub implicit_ok : ℕ → DeviceCapabilities → Bool
  implicit_ok te caps = not (
      has te k.implicit_te_state_change
      && (bit_and te k.explicit_ib_te_state_change == 0
          || bit_and caps.supported_explicit_ib_te_state_granularity k.granularity_64B == 0))

  unfoldable pub supported_oob_ok : ℕ → DeviceCapabilities → Bool
  supported_oob_ok te caps =
      if bit_and te k.explicit_oob_te_state_change == 0
      then caps.supported_explicit_oob_te_state_granularity == 0
      else caps.supported_explicit_oob_te_state_granularity != 0

  unfoldable pub supported_ib_ok : ℕ → DeviceCapabilities → Bool
  supported_ib_ok te caps =
      let granularity =
        bit_and caps.supported_explicit_ib_te_state_granularity
          (bit_or 0x7FF k.granularity_entire_memory) in
      if bit_and te k.explicit_ib_te_state_change == 0 then granularity == 0 else granularity != 0

  unfoldable pub supported_ckids_ok : ℕ → DeviceCapabilities → Bool
  supported_ckids_ok supported caps =
      if has supported k.support_ckid_based_encryption
      then not (ltb caps.number_of_ckids 2 || leb 0x2000 caps.number_of_ckids)
      else true

  unfoldable pub supported_sessions_ok : DeviceCapabilities → Bool
  supported_sessions_ok caps =
      let features =
        bit_and caps.configuration_features_supported
          (bit_or k.support_locked_target_fw_update k.support_additional_spdm_sessions) in
      if bit_and features k.support_additional_spdm_sessions == 0
      then caps.number_of_secondary_sessions == 0
      else not (caps.number_of_secondary_sessions == 0 || ltb 4 caps.number_of_secondary_sessions)

  unfoldable pub cxl_tsp_validate_capability : DeviceCapabilities → Status
  cxl_tsp_validate_capability caps =
      let supported = supported_memory_features caps in
      let te = supported_te_features caps in
      if not (supported_memory_ok supported)
      then invalid_msg_field
      else if not (supported_algorithms_ok supported caps)
      then invalid_msg_field
      else if not (range_keys_ok supported caps)
      then invalid_msg_field
      else if not (access_ok te)
      then invalid_msg_field
      else if not (implicit_ok te caps)
      then invalid_msg_field
      else if not (sanitize_ok te)
      then invalid_msg_field
      else if not (supported_oob_ok te caps)
      then invalid_msg_field
      else if not (supported_ib_ok te caps)
      then invalid_msg_field
      else if not (supported_ckids_ok supported caps)
      then invalid_msg_field
      else if not (supported_sessions_ok caps)
      then invalid_msg_field
      else success

  unfoldable pub enabled_memory_ok : ℕ → Bool
  enabled_memory_ok enable =
      if bit_and enable k.enable_encryption == 0
      then not (
          has enable k.enable_ckid_based_encryption
          || has enable k.enable_range_based_encryption
          || has enable k.enable_ckid_based_required)
      else if has enable k.enable_ckid_based_encryption
          && has enable k.enable_range_based_encryption
      then false
      else if has enable k.enable_ckid_based_encryption
          && bit_and enable k.enable_ckid_based_required == 0
      then false
      else not (
          has enable k.enable_ckid_based_required
          && bit_and enable k.enable_ckid_based_encryption == 0)

  unfoldable pub selected_algorithm_ok : ℕ → DeviceConfiguration → Bool
  selected_algorithm_ok enable c =
      let select =
        bit_and c.memory_encryption_algorithm_select
          (bit_or (bit_or k.aes_xts_128 k.aes_xts_256) k.vendor_specific) in
      if bit_and enable k.enable_encryption == 0 then select == 0 else libspdm_onehot0 select

  unfoldable pub selected_oob_ok : ℕ → DeviceConfiguration → Bool
  selected_oob_ok te c =
      let granularity = c.explicit_oob_te_state_granularity in
      if bit_and te k.explicit_oob_te_state_change == 0
      then granularity == 0
      else libspdm_onehot0 granularity

  -- The sum is that of two uint32_t.
  unfoldable pub selected_ckids_ok : ℕ → DeviceConfiguration → Bool
  selected_ckids_ok enable c =
      if has enable k.enable_ckid_based_required
      then not (leb 0x2000 c.ckid_base || leb 0x2000 ((c.ckid_base + c.number_of_ckids) % 2 ^ 32))
      else true

-- The loop over the eight granularity entries, with the bits of the indices met so far.
unfoldable pub indices_ok : ℕ → List GranularityEntry → Bool
indices_ok length_index_bit [] = true
indices_ok length_index_bit (entry ∷ entries) =
    let i = entry.length_index in
    let skip = indices_ok length_index_bit entries in
    let next = indices_ok (bit_or length_index_bit (2 ^ i)) entries in
    if i == 0xff
    then skip
    else if ltb 7 i
    then false
    else if has length_index_bit (2 ^ i)
    then false
    else next

module _ (k : Tsp) where
  unfoldable pub selected_ib_ok : ℕ → DeviceConfiguration → Bool
  selected_ib_ok te c =
      if has te k.explicit_ib_te_state_change
      then indices_ok 0 c.explicit_ib_te_state_granularity_entry
      else true

  unfoldable pub cxl_tsp_validate_configruation : DeviceConfiguration → Status
  cxl_tsp_validate_configruation c =
      let enable = memory_features k c in
      let te = te_features k c in
      if not (enabled_memory_ok k enable)
      then invalid_msg_field
      else if not (selected_algorithm_ok k enable c)
      then invalid_msg_field
      else if not (access_ok k te)
      then invalid_msg_field
      else if not (sanitize_ok k te)
      then invalid_msg_field
      else if not (selected_oob_ok k te c)
      then invalid_msg_field
      else if not (selected_ckids_ok k enable c)
      then invalid_msg_field
      else if not (selected_ib_ok te c)
      then invalid_msg_field
      else success
