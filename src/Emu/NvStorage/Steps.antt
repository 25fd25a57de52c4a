-- ===== src/Emu/NvStorage/Steps.antt =====
-- spdm_provision_psk_version_only of nv_storage.c: a connection is set up from the settings of the
-- program, once its version is known.
use spdm_emu.Prelude.{
  ℕ, ◌-◌, ◌/◌, ◌%◌, ◌^◌, Bool, ◌||◌, bit_and, List, [], ◌∷◌, ◌++◌, ◌==◌, ◌!=◌, leb, if◌then◌else◌,
  Option, none, some, Status, success, unsupported_cap,
}
use spdm_emu.Emu.NvStorage.{
  Item, connection_state, spdm_version, capability_flags, capability_ct_exponent, measurement_spec,
  measurement_hash_algo, base_asym_algo, base_hash_algo, dhe_name_group, aead_cipher_suite,
  req_base_asym_alg, key_schedule, other_params_support, mel_spec, connection, Libspdm, Settings,
  version_number, last, version_11, version_12, version_13,
}

-- One step: a call of libspdm_set_data, or one behind the test that its value has one bit set at
-- most.
pub data Step : Type 0 where
  put put_onehot : Item → ℕ → Step

unfoldable pub libspdm_onehot0 : ℕ → Bool
libspdm_onehot0 mask = mask == 0 || bit_and mask (mask - 1) == 0

module _ (k : Libspdm) where
  open k use {Context}

  unfoldable pub run_steps : Context → List Step → Context × Status
  run_steps c [] = (c, success)
  run_steps c (put item value ∷ steps) = run_steps (k.set c item value) steps
  run_steps c (put_onehot item value ∷ steps) =
      if libspdm_onehot0 value then run_steps (k.set c item value) steps else (c, unsupported_cap)

  -- The steps behind those of the version and the flags.
  unfoldable pub algorithm_steps : Settings → List Step
  algorithm_steps g =
      put_onehot measurement_spec g.support_measurement_spec
      ∷ put_onehot measurement_hash_algo g.support_measurement_hash_algo
      ∷ put_onehot base_asym_algo g.support_asym_algo
      ∷ put_onehot base_hash_algo g.support_hash_algo
      ∷ []

  unfoldable pub version_steps : Settings → List Step
  version_steps g =
      if leb version_11 g.use_version
      then put_onehot dhe_name_group g.support_dhe_algo
        ∷ put_onehot aead_cipher_suite g.support_aead_algo
        ∷ put_onehot req_base_asym_alg g.support_req_asym_algo
        ∷ put_onehot key_schedule g.support_key_schedule_algo
        ∷ (if leb version_12 g.use_version
            then put_onehot other_params_support g.support_other_params_support
              ∷ (if leb version_13 g.use_version
                  then put_onehot mel_spec g.support_mel_spec ∷ []
                  else [])
            else [])
      else put dhe_name_group 0
        ∷ put aead_cipher_suite 0
        ∷ put req_base_asym_alg 0
        ∷ put key_schedule 0
        ∷ []

  -- The flags of the peer, which the settings may give apart.
  unfoldable pub peer_flags : Settings → Bool → ℕ
  peer_flags g requester =
      if g.use_peer_capability_flags != 0
      then g.use_peer_capability_flags
      else if requester
      then g.use_responder_capability_flags
      else g.use_requester_capability_flags

  unfoldable pub with_peer_flags : Settings → Bool → Settings
  unfolding peer_flags
  with_peer_flags g requester =
      if requester
      then record g { use_responder_capability_flags = peer_flags g requester }
      else record g { use_requester_capability_flags = peer_flags g requester }

  unfoldable pub with_settings : Settings → Context × Status → Settings × Context × Status
  with_settings g (c, status) = (g, c, status)

  abbrev pub steps : Settings → Bool → List Step
  steps g requester =
      put capability_ct_exponent 0
      ∷ put capability_flags (peer_flags g requester)
      ∷ (algorithm_steps g ++ version_steps g)

  -- What is done once the version is in the settings and in the context.
  unfoldable pub provision_connection : Settings → Context → Bool → Settings × Context × Status
  unfolding run_steps algorithm_steps version_steps peer_flags with_peer_flags with_settings
  provision_connection g c requester =
      if g.use_version == 0
      then (g, c, unsupported_cap)
      else with_settings (with_peer_flags g requester)
          (run_steps c (steps g requester ++ (put connection_state k.state_negotiated ∷ [])))

  -- `none` is the failed assertion on the connection state. The requester takes the version from the
  -- context, the responder gives it its own.
  unfoldable pub spdm_provision_psk_version_only :
      Settings → Context → Bool → Option (Settings × Context × Status)
  unfolding provision_connection
  spdm_provision_psk_version_only g c requester =
      if k.get c connection connection_state != k.state_after_version
      then none
      else some (
          if requester
          then provision_connection (record g { use_version = last (k.versions c) / 2 ^ 8 % 2 ^ 8 })
              c requester
          else provision_connection g (k.set c spdm_version (version_number g.use_version))
              requester)
