-- ===== src/Tsp/Acceptance.antt =====
-- What cxl_tsp_validate_configruation of
-- library/cxl_tsp_responder_lib/cxl_tsp_rsp_set_configuration.c accepts, described apart from the
-- order of its checks.
use spdm_emu.Prelude.{
  ℕ, zero, suc, ◌+◌, ◌-◌, ◌^◌, ◌≡◌, ◌≤◌, ◌<◌, ◌↔◌, refl, true, false, arith, All, Distinct, bit_and,
  bit_or, not, ltb, Option, none, some,
}
use spdm_emu.Tsp.Messages.{DeviceCapabilities, DeviceConfiguration, Request, Tsp, TspLaws}
use spdm_emu.Tsp.Validate.{
  has, libspdm_onehot0, secondary_sessions, memory_features, memory_features_ok, algorithm_ok,
  te_features, te_features_ok, oob_granularity_ok, ckids_ok, ib_granularity_ok, second_sessions_ok,
  cxl_tsp_validate_configruation,
}
use spdm_emu.Tsp.Entries.{indices, Admissible, entries_iff}

secondary_sessions_sound :
    (flags n : ℕ) → secondary_sessions flags ≡ some n → (n ≤ 4) × (flags + 1 ≡ 2 ^ n)
unfolding secondary_sessions
secondary_sessions_sound flags n e = ground arith

secondary_sessions_all :
    (flags n : ℕ) → n ≤ 4 → flags + 1 ≡ 2 ^ n → secondary_sessions flags ≡ some n
unfolding secondary_sessions
secondary_sessions_all flags zero h e = ground arith
secondary_sessions_all flags (suc zero) h e = ground arith
secondary_sessions_all flags (suc (suc zero)) h e = ground arith
secondary_sessions_all flags (suc (suc (suc zero))) h e = ground arith
secondary_sessions_all flags (suc (suc (suc (suc zero)))) h e = ground arith
secondary_sessions_all flags (suc (suc (suc (suc (suc n))))) h e = absurd (omega arith)

module _ (k : Tsp) where
  -- Without encryption no kind of it is enabled; with it, each kind that is enabled is supported,
  -- and keys by CKID exclude keys by range and come with the requirement of a CKID.
  abbrev MemoryFeatures : ℕ → ℕ → Type 0
  MemoryFeatures enable supported =
      (has enable k.enable_encryption ≡ false
        → (has enable k.enable_ckid_based_encryption ≡ false)
          × (has enable k.enable_range_based_encryption ≡ false)
          × (has enable k.enable_ckid_based_required ≡ false))
      × (has enable k.enable_encryption ≡ true
          → (has supported k.support_encryption ≡ true)
            × (has enable k.enable_ckid_based_encryption ≡ true
                → (has supported k.support_ckid_based_encryption ≡ true)
                  × (has enable k.enable_range_based_encryption ≡ false))
            × (has enable k.enable_range_based_encryption ≡ true
                → has supported k.support_range_based_encryption ≡ true)
            × (has enable k.enable_ckid_based_required ≡ true
                → has supported k.support_ckid_based_required ≡ true)
            × (has enable k.enable_ckid_based_encryption ≡ has enable k.enable_ckid_based_required))

  MemoryFeatures-iff :
      (enable supported : ℕ)
      → (memory_features_ok k enable supported ≡ true) ↔ MemoryFeatures enable supported
  unfolding memory_features_ok
  MemoryFeatures-iff enable supported = ground arith

  -- The sessions that the flags announce are the first `n`, and the target supports that many.
  abbrev Sessions : ℕ → DeviceCapabilities → Type 0
  Sessions flags caps =
      (n : ℕ) × (n ≤ 4) × (n ≤ caps.number_of_secondary_sessions) × (flags + 1 ≡ 2 ^ n)

  Sessions-iff :
      (flags : ℕ) (caps : DeviceCapabilities)
      → (second_sessions_ok k flags caps ≡ true) ↔ Sessions flags caps
  unfolding second_sessions_ok
  Sessions-iff flags caps = go (secondary_sessions flags) refl
    where
      go :
          (o : Option ℕ)
          → secondary_sessions flags ≡ o
          → (elim o [ none ↦ false | some n ↦ not (ltb caps.number_of_secondary_sessions n) ]
              ≡ true)
            ↔ Sessions flags caps
      go none e = (
        λ h. absurd (ground (arith, h)),
        λ (n, few, _, e'). absurd (ground (arith, secondary_sessions_all flags n few e')),
      )
      go (some n) e =
          let (few, e') = secondary_sessions_sound flags n e in
          (
            λ h. (n, few, ground arith, e'),
            λ (n', few', enough, e''). ground (arith, secondary_sessions_all flags n' few' e''),
          )

  -- The keys fit the target and the 13 bits of a CKID.
  abbrev Ckids : ℕ → DeviceConfiguration → DeviceCapabilities → Type 0
  Ckids enable c caps =
      has enable k.enable_ckid_based_required ≡ true
      → (c.number_of_ckids ≤ caps.number_of_ckids) × (c.ckid_base + c.number_of_ckids < 0x2000)

  Ckids-iff :
      (enable : ℕ) (c : DeviceConfiguration) (caps : DeviceCapabilities)
      → caps.number_of_ckids ≤ 2 ^ 32 - 0x2000
      → (ckids_ok k enable c caps ≡ true) ↔ Ckids enable c caps
  unfolding ckids_ok
  Ckids-iff enable c caps h = ground arith

  -- The algorithm: none without encryption, and with it one that the target supports.
  abbrev Algorithm : ℕ → DeviceConfiguration → DeviceCapabilities → Type 0
  Algorithm enable c caps =
      let select =
        bit_and c.memory_encryption_algorithm_select
          (bit_or (bit_or k.aes_xts_128 k.aes_xts_256) k.vendor_specific) in
      (has enable k.enable_encryption ≡ false → select ≡ 0)
      × (has enable k.enable_encryption ≡ true
          → (bit_and select (select - 1) ≡ 0)
            × (has select caps.memory_encryption_algorithms_supported ≡ true))

  Algorithm-iff :
      (enable : ℕ) (c : DeviceConfiguration) (caps : DeviceCapabilities)
      → (algorithm_ok k enable c caps ≡ true) ↔ Algorithm enable c caps
  unfolding algorithm_ok libspdm_onehot0
  Algorithm-iff enable c caps = ground arith

  -- Only supported features; access control and sanitising come with a change of the TE state.
  abbrev TeFeatures : ℕ → ℕ → Type 0
  TeFeatures enable supported =
      let explicit = bit_or k.explicit_oob_te_state_change k.explicit_ib_te_state_change in
      let any =
        bit_or (bit_or k.implicit_te_state_change k.explicit_oob_te_state_change)
          k.explicit_ib_te_state_change in
      (bit_and enable supported ≡ enable)
      × (has enable k.write_access_control ≡ true → has enable explicit ≡ true)
      × (has enable k.read_access_control ≡ true → has enable any ≡ true)
      × (has enable k.explicit_te_state_change_sanitize ≡ true → has enable explicit ≡ true)

  TeFeatures-iff :
      (enable supported : ℕ)
      → (te_features_ok k enable supported ≡ true) ↔ TeFeatures enable supported
  unfolding te_features_ok
  TeFeatures-iff enable supported = ground arith

  -- The out-of-band granularity: none without that change, and with it one that is supported.
  abbrev OobGranularity : ℕ → DeviceConfiguration → DeviceCapabilities → Type 0
  OobGranularity enable c caps =
      let granularity = c.explicit_oob_te_state_granularity in
      (has enable k.explicit_oob_te_state_change ≡ false → granularity ≡ 0)
      × (has enable k.explicit_oob_te_state_change ≡ true
          → (bit_and granularity (granularity - 1) ≡ 0)
            × (has granularity caps.supported_explicit_oob_te_state_granularity ≡ true))

  OobGranularity-iff :
      (enable : ℕ) (c : DeviceConfiguration) (caps : DeviceCapabilities)
      → (oob_granularity_ok k enable c caps ≡ true) ↔ OobGranularity enable c caps
  unfolding oob_granularity_ok libspdm_onehot0
  OobGranularity-iff enable c caps = ground arith

  -- The in-band granularities, with that change: distinct indices that the loop may meet.
  abbrev IbGranularity : ℕ → DeviceConfiguration → DeviceCapabilities → Type 0
  IbGranularity enable c caps =
      let entries = c.explicit_ib_te_state_granularity_entry in
      has enable k.explicit_ib_te_state_change ≡ true
      → Distinct (indices entries)
        × All
            (Admissible
              (has caps.supported_explicit_ib_te_state_granularity k.granularity_entire_memory))
            (indices entries)

  IbGranularity-iff :
      (enable : ℕ) (c : DeviceConfiguration) (caps : DeviceCapabilities)
      → (ib_granularity_ok k enable c caps ≡ true) ↔ IbGranularity enable c caps
  unfolding ib_granularity_ok
  IbGranularity-iff enable c caps = ground (
    arith,
    entries_iff (has caps.supported_explicit_ib_te_state_granularity k.granularity_entire_memory)
        c.explicit_ib_te_state_granularity_entry,
  )

  -- A configuration that a target with these capabilities takes.
  pub record Acceptable (r : Request) (caps : DeviceCapabilities) : Type 0 where
    pub memory_features_taken :
        MemoryFeatures (memory_features k r.configuration) caps.memory_encryption_features_supported
    pub algorithm_taken : Algorithm (memory_features k r.configuration) r.configuration caps
    pub te_features_taken :
        TeFeatures
          (te_features k r.configuration)
          caps.te_state_change_and_access_control_features_supported
    pub oob_granularity_taken : OobGranularity (te_features k r.configuration) r.configuration caps
    pub ckids_taken : Ckids (memory_features k r.configuration) r.configuration caps
    pub ib_granularity_taken : IbGranularity (te_features k r.configuration) r.configuration caps
    pub sessions_taken : Sessions r.second_session.configuration_validity_flags caps

  abbrev Checks : Request → DeviceCapabilities → Type 0
  Checks r caps =
      let c = r.configuration in
      let m = memory_features k c in
      let t = te_features k c in
      (memory_features_ok k m caps.memory_encryption_features_supported ≡ true)
      × (algorithm_ok k m c caps ≡ true)
      × (te_features_ok k t caps.te_state_change_and_access_control_features_supported ≡ true)
      × (oob_granularity_ok k t c caps ≡ true)
      × (ckids_ok k m c caps ≡ true)
      × (ib_granularity_ok k t c caps ≡ true)
      × (second_sessions_ok k r.second_session.configuration_validity_flags caps ≡ true)

  Checks-iff :
      (r : Request) (caps : DeviceCapabilities)
      → TspLaws k
      → (cxl_tsp_validate_configruation k r caps ≡ 0) ↔ Checks r caps
  unfolding cxl_tsp_validate_configruation
  Checks-iff r caps laws = (λ h. ground (arith, laws, h), λ h. ground (arith, laws, h))

  -- The validation answers success exactly for the acceptable configurations, as long as the
  -- target has at most 2^32 - 0x2000 CKIDs and INVALID_REQUEST is not the code of success.
  pub validate_iff :
      (r : Request) (caps : DeviceCapabilities)
      → TspLaws k
      → caps.number_of_ckids ≤ 2 ^ 32 - 0x2000
      → (cxl_tsp_validate_configruation k r caps ≡ 0) ↔ Acceptable r caps
  validate_iff r caps laws h =
      let c = r.configuration in
      let m = memory_features k c in
      let t = te_features k c in
      let all = Checks-iff r caps laws in
      let memory = MemoryFeatures-iff m caps.memory_encryption_features_supported in
      let algorithm = Algorithm-iff m c caps in
      let te = TeFeatures-iff t caps.te_state_change_and_access_control_features_supported in
      let oob = OobGranularity-iff t c caps in
      let keys = Ckids-iff m c caps h in
      let ib = IbGranularity-iff t c caps in
      let second = Sessions-iff r.second_session.configuration_validity_flags caps in
      (
        λ e.
            let (p, q, u, v, x, y, z) = all.0 e in
            record {
              memory_features_taken = memory.0 p;
              algorithm_taken = algorithm.0 q;
              te_features_taken = te.0 u;
              oob_granularity_taken = oob.0 v;
              ckids_taken = keys.0 x;
              ib_granularity_taken = ib.0 y;
              sessions_taken = second.0 z;
            },
        λ a. all.1 (
          memory.1 a.memory_features_taken,
          algorithm.1 a.algorithm_taken,
          te.1 a.te_features_taken,
          oob.1 a.oob_granularity_taken,
          keys.1 a.ckids_taken,
          ib.1 a.ib_granularity_taken,
          second.1 a.sessions_taken,
        ),
      )
