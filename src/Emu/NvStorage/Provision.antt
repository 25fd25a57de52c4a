-- ===== src/Emu/NvStorage/Provision.antt =====
-- spdm_provision_psk_version_only of nv_storage.c: what a connection has after it.
use spdm_emu.Prelude.{
  ℕ, ◌/◌, ◌%◌, ◌^◌, ◌≡◌, ◌≢◌, ◌≤◌, ◌⊎◌, inl, inr, refl, ap, ◌∙◌, true, false, arith, Bool,
  AtMostOneBit, [], ◌∷◌, ◌++◌, All, ◌==◌, ◌!=◌, leb, if◌then◌else◌, some, Status, success,
  unsupported_cap,
}
use spdm_emu.Emu.NvStorage.{
  Item, connection_state, spdm_version, capability_flags, capability_ct_exponent, measurement_spec,
  measurement_hash_algo, base_asym_algo, base_hash_algo, dhe_name_group, aead_cipher_suite,
  req_base_asym_alg, key_schedule, other_params_support, mel_spec, connection, Libspdm, Settings,
  version_number, last, version_11, version_12, version_13,
}
use spdm_emu.Emu.NvStorage.Calls.{same, LibspdmLaws, value_after}
use spdm_emu.Emu.NvStorage.Steps.{
  put, run_steps, algorithm_steps, version_steps, peer_flags, with_peer_flags, with_settings, steps,
  provision_connection, spdm_provision_psk_version_only,
}
use spdm_emu.Emu.NvStorage.Runs.{Passes, calls_of, RanTo-run_steps, unset_steps}

-- The settings and the context once the version is known to both.
abbrev pub versioned : (k : Libspdm) → Settings → k.Context → Bool → Settings × k.Context
versioned k g c true = (record g { use_version = last (k.versions c) / 2 ^ 8 % 2 ^ 8 }, c)
versioned k g c false = (g, k.set c spdm_version (version_number g.use_version))

module _ (k : Libspdm) (g : Settings) (c : k.Context) where
  provision_connection_lem :
      (requester : Bool)
      → g.use_version ≢ 0
      → provision_connection k g c requester
        ≡ with_settings k
            (with_peer_flags k g requester)
            (run_steps k c (steps k g requester ++ (put connection_state k.state_negotiated ∷ [])))
  unfolding provision_connection
  provision_connection_lem requester known =
      let named : (g.use_version == 0) ≡ false = ground (arith, known) in rw named refl

  asserted_state :
      k.get c connection connection_state ≡ k.state_after_version
      → (k.get c connection connection_state != k.state_after_version) ≡ false
  asserted_state after = ground (arith, after)

module _ (k : Libspdm) (g : Settings) (c : k.Context) where
  provision_lem :
      (b : Bool)
      → k.get c connection connection_state ≡ k.state_after_version
      → (versioned k g c b).0.use_version ≢ 0
      → let (g', c') = versioned k g c b in
        spdm_provision_psk_version_only k g c b
        ≡ some (
            with_settings k
              (with_peer_flags k g' b)
              (run_steps k c' (steps k g' b ++ (put connection_state k.state_negotiated ∷ []))))
  unfolding spdm_provision_psk_version_only
  provision_lem true after known =
      rw (asserted_state k g c after)
        (ap some (provision_connection_lem k (versioned k g c true).0 c true known))
  provision_lem false after known =
      rw (asserted_state k g c after)
        (ap some (provision_connection_lem k g (versioned k g c false).1 false known))

-- Each algorithm of the settings, as far as their version has it, is one algorithm or none.
pub record IsSettled (g : Settings) : Type 0 where
  pub measurements : AtMostOneBit g.support_measurement_spec
  pub measurement_hash : AtMostOneBit g.support_measurement_hash_algo
  pub asym : AtMostOneBit g.support_asym_algo
  pub hash : AtMostOneBit g.support_hash_algo
  pub dhe : version_11 ≤ g.use_version → AtMostOneBit g.support_dhe_algo
  pub aead : version_11 ≤ g.use_version → AtMostOneBit g.support_aead_algo
  pub req_asym : version_11 ≤ g.use_version → AtMostOneBit g.support_req_asym_algo
  pub schedule : version_11 ≤ g.use_version → AtMostOneBit g.support_key_schedule_algo
  pub other_params : version_12 ≤ g.use_version → AtMostOneBit g.support_other_params_support
  pub log : version_13 ≤ g.use_version → AtMostOneBit g.support_mel_spec

-- A connection that is negotiated by the settings, seen from one side. The flags of the other side
-- are those of a peer, if the settings have any, and otherwise those that they have for that side.
pub record IsBySettings (k : Libspdm) (g : Settings) (requester : Bool) (d : k.Context)
    : Type 0 where
  pub state : k.get d connection connection_state ≡ k.state_negotiated
  pub exponent : k.get d connection capability_ct_exponent ≡ 0
  pub flags_of_peer :
      g.use_peer_capability_flags ≢ 0
      → k.get d connection capability_flags ≡ g.use_peer_capability_flags
  pub flags_of_responder :
      g.use_peer_capability_flags ≡ 0
      → requester ≡ true
      → k.get d connection capability_flags ≡ g.use_responder_capability_flags
  pub flags_of_requester :
      g.use_peer_capability_flags ≡ 0
      → requester ≡ false
      → k.get d connection capability_flags ≡ g.use_requester_capability_flags
  pub measurements : k.get d connection measurement_spec ≡ g.support_measurement_spec
  pub measurement_hash : k.get d connection measurement_hash_algo ≡ g.support_measurement_hash_algo
  pub asym : k.get d connection base_asym_algo ≡ g.support_asym_algo
  pub hash : k.get d connection base_hash_algo ≡ g.support_hash_algo
  pub dhe :
      k.get d connection dhe_name_group
      ≡ (if leb version_11 g.use_version then g.support_dhe_algo else 0)
  pub aead :
      k.get d connection aead_cipher_suite
      ≡ (if leb version_11 g.use_version then g.support_aead_algo else 0)
  pub req_asym :
      k.get d connection req_base_asym_alg
      ≡ (if leb version_11 g.use_version then g.support_req_asym_algo else 0)
  pub schedule :
      k.get d connection key_schedule
      ≡ (if leb version_11 g.use_version then g.support_key_schedule_algo else 0)
  pub other_params :
      version_12 ≤ g.use_version
      → k.get d connection other_params_support ≡ g.support_other_params_support
  pub log : version_13 ≤ g.use_version → k.get d connection mel_spec ≡ g.support_mel_spec

versioned_state :
    (k : Libspdm) (laws : LibspdmLaws k) (g : Settings) (c : k.Context) (requester : Bool)
    → k.get (versioned k g c requester).1 connection connection_state
      ≡ k.get c connection connection_state
versioned_state k laws g c true = refl
versioned_state k laws g c false =
    laws.get-set c spdm_version connection_state (version_number g.use_version)

-- The flags that the settings keep for the other side.
abbrev pub flags_of_other : Settings → Bool → ℕ
flags_of_other g requester =
    if requester then g.use_responder_capability_flags else g.use_requester_capability_flags

module _ (k : Libspdm) (g : Settings) (requester : Bool) where
  peer_flags-kept :
      peer_flags k g requester ≡ flags_of_other (with_peer_flags k g requester) requester
  unfolding with_peer_flags
  peer_flags-kept = ground arith

  IsSettled-steps : All Passes (steps k g requester) → IsSettled g
  unfolding algorithm_steps version_steps
  IsSettled-steps all = record {
    measurements = ground (arith, all);
    measurement_hash = ground (arith, all);
    asym = ground (arith, all);
    hash = ground (arith, all);
    dhe = λ at. ground (arith, all);
    aead = λ at. ground (arith, all);
    req_asym = λ at. ground (arith, all);
    schedule = λ at. ground (arith, all);
    other_params = λ at. ground (arith, all);
    log = λ at. ground (arith, all);
  }

  flags_set :
      (v : ℕ)
      → value_after (calls_of (steps k g requester)) capability_flags v ≡ peer_flags k g requester
  unfolding algorithm_steps version_steps
  flags_set v = ground arith

  steps-IsSettled : IsSettled g → All Passes (steps k g requester)
  unfolding algorithm_steps version_steps
  steps-IsSettled s = ground (arith, s)

  IsBySettings-steps :
      (c d : k.Context)
      → ((j : Item)
          → k.get d connection j ≡ (
              if same connection_state j
              then k.state_negotiated
              else value_after (calls_of (steps k g requester)) j (k.get c connection j)))
      → IsBySettings k g requester d
  unfolding algorithm_steps version_steps peer_flags
  IsBySettings-steps c d values = record {
    state = values connection_state;
    exponent = ground (arith, values capability_ct_exponent);
    flags_of_peer = λ has. ground (arith, values capability_flags);
    flags_of_responder = λ no side. ground (arith, values capability_flags);
    flags_of_requester = λ no side. ground (arith, values capability_flags);
    measurements = ground (arith, values measurement_spec);
    measurement_hash = ground (arith, values measurement_hash_algo);
    asym = ground (arith, values base_asym_algo);
    hash = ground (arith, values base_hash_algo);
    dhe = ground (arith, values dhe_name_group);
    aead = ground (arith, values aead_cipher_suite);
    req_asym = ground (arith, values req_base_asym_alg);
    schedule = ground (arith, values key_schedule);
    other_params = λ at. ground (arith, values other_params_support);
    log = λ at. ground (arith, values mel_spec);
  }

-- A connection in the state after GET_VERSION, of a known version, is provisioned without a failed
-- assertion. Either each algorithm of the settings, as far as the version has it, has one bit set at
-- most, the call succeeds, and the connection is negotiated with these algorithms and the other
-- side's flags, which the settings keep; or some algorithm has more bits, the call fails with UNSUPPORTED_CAP, and the
-- connection stays in its state. libspdm obeys `LibspdmLaws`.
pub provision-IsProvisioned :
    (k : Libspdm) (g : Settings) (c : k.Context) (requester : Bool)
    → LibspdmLaws k
    → k.get c connection connection_state ≡ k.state_after_version
    → (versioned k g c requester).0.use_version ≢ 0
    → let g' = (versioned k g c requester).0 in
      let kept = with_peer_flags k g' requester in
      (d : k.Context) × (status : Status) × (spdm_provision_psk_version_only k g c requester
        ≡ some (kept, d, status))
      × (((status ≡ success)
            × IsSettled g'
            × IsBySettings k g' requester d
            × (k.get d connection capability_flags ≡ flags_of_other kept requester))
          ⊎ ((status ≡ unsupported_cap)
              × (IsSettled g' → ⊥)
              × (k.get d connection connection_state ≡ k.state_after_version)))
unfolding with_settings
provision-IsProvisioned k g c requester laws after known =
    let (g', c') = versioned k g c requester in
    let ran =
      run_steps k c' (steps k g' requester ++ (put connection_state k.state_negotiated ∷ [])) in
    (
      ran.0,
      ran.1,
      provision_lem k g c requester after known,
      elim (RanTo-run_steps k laws (steps k g' requester) c' (unset_steps k laws g' requester)) [
        | inl (e, all, values) ↦ inl (
          e,
          IsSettled-steps k g' requester all,
          IsBySettings-steps k g' requester c' ran.0 values,
          values capability_flags
              ∙ flags_set k g' requester (k.get c' connection capability_flags)
              ∙ peer_flags-kept k g' requester,
        )
        | inr (e, failing, state) ↦ inr (
          e,
          (λ s. failing (steps-IsSettled k g' requester s)),
          state ∙ versioned_state k laws g c requester ∙ after,
        )
      ],
    )
