-- ===== src/Tsp/Agreement.antt =====
-- The two validations of a TSP configuration: that of the responder before it stores one, and that
-- of the requester when it reads one back.
use spdm_emu.Prelude.{ℕ, ◌≡◌, Bool, true, List, [], ◌∷◌, bit_or, ◌^◌, arith, refl, success}
use spdm_emu.Tsp.Messages.{
  DeviceCapabilities, DeviceConfiguration, GranularityEntry, Request, Tsp, TspLaws,
}
use spdm_emu.Tsp.Validate.{
  has, entries_ok, libspdm_onehot0, memory_features, memory_features_ok, algorithm_ok, te_features,
  te_features_ok, oob_granularity_ok, ckids_ok, ib_granularity_ok, second_sessions_ok,
}
use spdm_emu.Tsp.Validate
use spdm_emu.Tsp.Checks.{
  access_ok, sanitize_ok, enabled_memory_ok, selected_algorithm_ok, selected_oob_ok,
  selected_ckids_ok, indices_ok, selected_ib_ok, cxl_tsp_validate_configruation,
}

-- The requester's loop does not refuse the index of the entire memory.
indices_ok-entries_ok :
    (entire_memory : Bool) (bits : ℕ) (entries : List GranularityEntry)
    → entries_ok entire_memory bits entries ≡ true
    → indices_ok bits entries ≡ true
unfolding entries_ok indices_ok
indices_ok-entries_ok entire_memory bits [] h = refl
indices_ok-entries_ok entire_memory bits (entry ∷ entries) h = ground (
  arith,
  indices_ok-entries_ok entire_memory bits entries,
  indices_ok-entries_ok entire_memory (bit_or bits (2 ^ entry.length_index)) entries,
)

module _ (k : Tsp) where
  memory_agrees :
      (enable supported : ℕ)
      → memory_features_ok k enable supported ≡ true
      → enabled_memory_ok k enable ≡ true
  unfolding memory_features_ok enabled_memory_ok
  memory_agrees enable supported h = ground arith

  algorithm_agrees :
      (enable : ℕ) (c : DeviceConfiguration) (caps : DeviceCapabilities)
      → algorithm_ok k enable c caps ≡ true
      → selected_algorithm_ok k enable c ≡ true
  unfolding algorithm_ok selected_algorithm_ok
  algorithm_agrees enable c caps h = ground arith

  access_agrees :
      (enable supported : ℕ)
      → te_features_ok k enable supported ≡ true
      → (access_ok k enable ≡ true) × (sanitize_ok k enable ≡ true)
  unfolding te_features_ok access_ok sanitize_ok
  access_agrees enable supported h = ground arith

  oob_agrees :
      (te : ℕ) (c : DeviceConfiguration) (caps : DeviceCapabilities)
      → oob_granularity_ok k te c caps ≡ true
      → selected_oob_ok k te c ≡ true
  unfolding oob_granularity_ok selected_oob_ok
  oob_agrees te c caps h = ground arith

  ckids_agree :
      (enable : ℕ) (c : DeviceConfiguration) (caps : DeviceCapabilities)
      → ckids_ok k enable c caps ≡ true
      → selected_ckids_ok k enable c ≡ true
  unfolding ckids_ok selected_ckids_ok
  ckids_agree enable c caps h = ground arith

  ib_agrees :
      (te : ℕ) (c : DeviceConfiguration) (caps : DeviceCapabilities)
      → ib_granularity_ok k te c caps ≡ true
      → selected_ib_ok k te c ≡ true
  unfolding ib_granularity_ok selected_ib_ok
  ib_agrees te c caps h = ground (
    arith,
    indices_ok-entries_ok
        (has caps.supported_explicit_ib_te_state_granularity k.granularity_entire_memory) 0
        c.explicit_ib_te_state_granularity_entry,
  )

  -- What the responder accepts, for whatever capabilities, the requester accepts when it reads it
  -- back. INVALID_REQUEST is not the number 0 (`TspLaws`).
  pub configuration_agrees :
      (r : Request) (caps : DeviceCapabilities)
      → TspLaws k
      → Validate.cxl_tsp_validate_configruation k r caps ≡ 0
      → cxl_tsp_validate_configruation k r.configuration ≡ success
  unfolding Validate.cxl_tsp_validate_configruation cxl_tsp_validate_configruation
  configuration_agrees r caps laws h =
      let c = r.configuration in
      let enable = memory_features k c in
      let te = te_features k c in
      ground (
        arith,
        laws.invalid_request_ne_success,
        memory_agrees enable caps.memory_encryption_features_supported,
        algorithm_agrees enable c caps,
        access_agrees te caps.te_state_change_and_access_control_features_supported,
        oob_agrees te c caps,
        ckids_agree enable c caps,
        ib_agrees te c caps,
      )
