-- ===== src/Tsp/Validate.antt =====
-- cxl_tsp_validate_configruation of
-- library/cxl_tsp_responder_lib/cxl_tsp_rsp_set_configuration.c, in the parts between its blank
-- lines. Every refusal is INVALID_REQUEST, so a part is a test.
use spdm_emu.Prelude.{
  ℕ, ◌+◌, ◌-◌, ◌%◌, ◌^◌, Bool, true, false, not, ◌&&◌, ◌||◌, List, [], ◌∷◌, bit_and, bit_or, ◌==◌,
  ◌!=◌, ltb, leb, if◌then◌else◌, Option, none, some,
}
use spdm_emu.Tsp.Messages.{DeviceCapabilities, DeviceConfiguration, GranularityEntry, Request, Tsp}
use spdm_emu.Tsp.Device.{error_code_success}

-- (value & flag) != 0
abbrev pub has : ℕ → ℕ → Bool
has value flag = bit_and value flag != 0

unfoldable pub libspdm_onehot0 : ℕ → Bool
libspdm_onehot0 mask = mask == 0 || bit_and mask (mask - 1) == 0

-- The loop over the eight granularity entries, with the bits of the indices met so far.
unfoldable pub entries_ok : Bool → ℕ → List GranularityEntry → Bool
entries_ok entire_memory length_index_bit [] = true
entries_ok entire_memory length_index_bit (entry ∷ entries) =
    let i = entry.length_index in
    let skip = entries_ok entire_memory length_index_bit entries in
    let next = entries_ok entire_memory (bit_or length_index_bit (2 ^ i)) entries in
    if i == 0xff
    then skip
    else if ltb 7 i
    then false
    else if entire_memory && i == 7
    then false
    else if has length_index_bit (2 ^ i)
    then false
    else next

-- The switch on the validity flags.
unfoldable pub secondary_sessions : ℕ → Option ℕ
secondary_sessions flags =
    if flags == 0
    then some 0
    else if flags == 0x1
    then some 1
    else if flags == 0x3
    then some 2
    else if flags == 0x7
    then some 3
    else if flags == 0xF
    then some 4
    else none

module _ (k : Tsp) where
  -- The flags that the code looks at; the others are masked out.
  unfoldable pub memory_features : DeviceConfiguration → ℕ
  memory_features c = bit_and c.memory_encryption_features_enable (
      bit_or
        (bit_or (bit_or k.enable_encryption k.enable_ckid_based_encryption)
          k.enable_range_based_encryption)
        k.enable_ckid_based_required)

  unfoldable pub memory_features_ok : ℕ → ℕ → Bool
  memory_features_ok enable supported =
      if bit_and enable k.enable_encryption == 0
      then not (
          has enable k.enable_ckid_based_encryption
          || has enable k.enable_range_based_encryption
          || has enable k.enable_ckid_based_required)
      else if bit_and supported k.support_encryption == 0
      then false
      else if has enable k.enable_ckid_based_encryption
          && bit_and supported k.support_ckid_based_encryption == 0
      then false
      else if has enable k.enable_range_based_encryption
          && bit_and supported k.support_range_based_encryption == 0
      then false
      else if has enable k.enable_ckid_based_required
          && bit_and supported k.support_ckid_based_required == 0
      then false
      else if has enable k.enable_ckid_based_encryption
          && has enable k.enable_range_based_encryption
      then false
      else if has enable k.enable_ckid_based_encryption
          && bit_and enable k.enable_ckid_based_required == 0
      then false
      else if has enable k.enable_ckid_based_required
          && bit_and enable k.enable_ckid_based_encryption == 0
      then false
      else true

  unfoldable pub algorithm_ok : ℕ → DeviceConfiguration → DeviceCapabilities → Bool
  algorithm_ok enable c caps =
      let select =
        bit_and c.memory_encryption_algorithm_select
          (bit_or (bit_or k.aes_xts_128 k.aes_xts_256) k.vendor_specific) in
      if bit_and enable k.enable_encryption == 0
      then select == 0
      else if not (libspdm_onehot0 select)
      then false
      else if bit_and select caps.memory_encryption_algorithms_supported == 0
      then false
      else true

  unfoldable pub te_features : DeviceConfiguration → ℕ
  te_features c = bit_and c.te_state_change_and_access_control_features_enable (
      bit_or
        (bit_or
          (bit_or
            (bit_or (bit_or k.write_access_control k.read_access_control)
              k.implicit_te_state_change)
            k.explicit_oob_te_state_change)
          k.explicit_ib_te_state_change)
        k.explicit_te_state_change_sanitize)

  unfoldable pub te_features_ok : ℕ → ℕ → Bool
  te_features_ok enable supported =
      let explicit = bit_or k.explicit_oob_te_state_change k.explicit_ib_te_state_change in
      let any =
        bit_or (bit_or k.implicit_te_state_change k.explicit_oob_te_state_change)
          k.explicit_ib_te_state_change in
      if bit_and enable supported != enable
      then false
      else if has enable k.write_access_control && bit_and enable explicit == 0
      then false
      else if has enable k.read_access_control && bit_and enable any == 0
      then false
      else if has enable k.explicit_te_state_change_sanitize && bit_and enable explicit == 0
      then false
      else true

  unfoldable pub oob_granularity_ok : ℕ → DeviceConfiguration → DeviceCapabilities → Bool
  oob_granularity_ok enable c caps =
      let granularity = c.explicit_oob_te_state_granularity in
      if bit_and enable k.explicit_oob_te_state_change == 0
      then granularity == 0
      else if not (libspdm_onehot0 granularity)
      then false
      else if bit_and granularity caps.supported_explicit_oob_te_state_granularity == 0
      then false
      else true

  -- The sum is that of two uint32_t.
  unfoldable pub ckids_ok : ℕ → DeviceConfiguration → DeviceCapabilities → Bool
  ckids_ok enable c caps =
      if has enable k.enable_ckid_based_required
      then if ltb caps.number_of_ckids c.number_of_ckids
        then false
        else if leb 0x2000 c.ckid_base
        then false
        else if leb 0x2000 ((c.ckid_base + c.number_of_ckids) % 2 ^ 32)
        then false
        else true
      else true

  unfoldable pub ib_granularity_ok : ℕ → DeviceConfiguration → DeviceCapabilities → Bool
  ib_granularity_ok enable c caps =
      if has enable k.explicit_ib_te_state_change
      then entries_ok
          (has caps.supported_explicit_ib_te_state_granularity k.granularity_entire_memory) 0
          c.explicit_ib_te_state_granularity_entry
      else true

  unfoldable pub second_sessions_ok : ℕ → DeviceCapabilities → Bool
  second_sessions_ok flags caps = elim (secondary_sessions flags) [
    | none ↦ false
    | some n ↦ not (ltb caps.number_of_secondary_sessions n)
  ]

  unfoldable pub cxl_tsp_validate_configruation : Request → DeviceCapabilities → ℕ
  cxl_tsp_validate_configruation r caps =
      let c = r.configuration in
      let enable = memory_features c in
      let te = te_features c in
      if not (memory_features_ok enable caps.memory_encryption_features_supported)
      then k.invalid_request
      else if not (algorithm_ok enable c caps)
      then k.invalid_request
      else if not (te_features_ok te caps.te_state_change_and_access_control_features_supported)
      then k.invalid_request
      else if not (oob_granularity_ok te c caps)
      then k.invalid_request
      else if not (ckids_ok enable c caps)
      then k.invalid_request
      else if not (ib_granularity_ok te c caps)
      then k.invalid_request
      else if not (second_sessions_ok r.second_session.configuration_validity_flags caps)
      then k.invalid_request
      else error_code_success
