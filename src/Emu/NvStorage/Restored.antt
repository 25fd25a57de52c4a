-- ===== src/Emu/NvStorage/Restored.antt =====
-- A connection that was saved by spdm_save_negotiated_state and is loaded again by
-- spdm_load_negotiated_state.
use spdm_emu.Prelude.{
  Bool-cases, inl, inr, ℕ, ◌≡◌, ◌≢◌, ◌≤◌, ◌<◌, refl, sym, ◌∙◌, true, false, arith, Bool, bit_and,
  List, [], ◌∷◌, length, ◌==◌, ltb, leb, if◌then◌else◌, some, success,
}
use spdm_emu.Emu.NvStorage.{
  Item, connection_state, capability_flags, capability_ct_exponent, measurement_spec,
  measurement_hash_algo, base_asym_algo, base_hash_algo, dhe_name_group, aead_cipher_suite,
  req_base_asym_alg, key_schedule, other_params_support, mel_spec, local, connection,
  NegotiatedState, holds, Libspdm, Settings, version_number, version_11, version_12, version_13,
  override, common_items, version_items, restore, load_content, spdm_load_negotiated_state, written,
  negotiated_state, spdm_save_negotiated_state, with_settings, negotiated_state_struct_version,
}
use spdm_emu.Emu.NvStorage.Calls.{
  same, LibspdmLaws, value_after, versions_after, get-restore, versions-restore, get_vca-restore,
}

-- The calls for version 1.2, which a later version adds to for the measurement log only.
abbrev modern_items : Settings → List (Item × ℕ)
modern_items g =
    (dhe_name_group, g.support_dhe_algo)
    ∷ (aead_cipher_suite, g.support_aead_algo)
    ∷ (req_base_asym_alg, g.support_req_asym_algo)
    ∷ (key_schedule, g.support_key_schedule_algo)
    ∷ (other_params_support, g.support_other_params_support)
    ∷ []

module _ (k : Libspdm) (g : Settings) (at12 : version_12 ≤ g.use_version) where
  modern_value :
      (j : Item) (v : ℕ)
      → same mel_spec j ≡ false
      → value_after (version_items k g) j v ≡ value_after (modern_items g) j v
  unfolding version_items
  modern_value j v other =
      let e11 : leb version_11 g.use_version ≡ true = ground arith in
      let e12 : leb version_12 g.use_version ≡ true = ground arith in
      elim (Bool-cases (leb version_13 g.use_version)) [
        | inl e13 ↦ rw (e11, e12, e13, other) refl
        | inr e13 ↦ rw (e11, e12, e13) refl
      ]

  log_value :
      (v : ℕ)
      → version_13 ≤ g.use_version
      → value_after (version_items k g) mel_spec v ≡ g.support_mel_spec
  unfolding version_items
  log_value v at13 =
      let e11 : leb version_11 g.use_version ≡ true = ground arith in
      let e12 : leb version_12 g.use_version ≡ true = ground arith in
      let e13 : leb version_13 g.use_version ≡ true = ground (arith, at13) in
      rw (e11, e12, e13) refl

  modern_versions : (vs : List ℕ) → versions_after (version_items k g) vs ≡ vs
  unfolding version_items
  modern_versions vs =
      let e11 : leb version_11 g.use_version ≡ true = ground arith in
      let e12 : leb version_12 g.use_version ≡ true = ground arith in
      elim (Bool-cases (leb version_13 g.use_version)) [
        | inl e13 ↦ rw (e11, e12, e13) refl
        | inr e13 ↦ rw (e11, e12, e13) refl
      ]

-- The items, the versions and the messages of a connection that are the same in another.
pub record IsSameConnection (k : Libspdm) (c d : k.Context) : Type 0 where
  pub state : k.get d connection connection_state ≡ k.get c connection connection_state
  pub versions : k.versions d ≡ k.versions c
  pub messages : k.get_vca d ≡ k.get_vca c
  pub flags : k.get d connection capability_flags ≡ k.get c connection capability_flags
  pub measurements : k.get d connection measurement_spec ≡ k.get c connection measurement_spec
  pub measurement_hash :
      k.get d connection measurement_hash_algo ≡ k.get c connection measurement_hash_algo
  pub asym : k.get d connection base_asym_algo ≡ k.get c connection base_asym_algo
  pub hash : k.get d connection base_hash_algo ≡ k.get c connection base_hash_algo
  pub dhe : k.get d connection dhe_name_group ≡ k.get c connection dhe_name_group
  pub aead : k.get d connection aead_cipher_suite ≡ k.get c connection aead_cipher_suite
  pub req_asym : k.get d connection req_base_asym_alg ≡ k.get c connection req_base_asym_alg
  pub schedule : k.get d connection key_schedule ≡ k.get c connection key_schedule
  pub other_params :
      k.get d connection other_params_support ≡ k.get c connection other_params_support

module _ (k : Libspdm) (laws : LibspdmLaws k) (g : Settings) (c d : k.Context) (requester : Bool)
    (version : ℕ) (known : k.versions c ≡ version_number version ∷ []) (low : version_12 ≤ version)
    (bound : version < 256) where
  -- What is saved, and the settings that it makes.
  saved : NegotiatedState
  saved = negotiated_state k c requester

  overridden : Settings
  unfolding saved
  overridden = override k g saved requester

  saved_version : overridden.use_version ≡ version
  unfolding negotiated_state saved override overridden
  saved_version = rw known (omega arith)

  kept :
      (j : Item)
      → same mel_spec j ≡ false
      → same connection_state j ≡ false
      → k.get (restore k overridden d saved requester) connection j
        ≡ value_after
            (modern_items overridden)
            j
            (value_after (common_items k overridden saved requester) j (k.get d connection j))
  kept j other unset =
      get-restore k laws overridden d saved requester j
      ∙ rw unset (
          modern_value k overridden (omega (arith, saved_version, low)) j
            (value_after (common_items k overridden saved requester) j (k.get d connection j))
            other)

  exponent_lem :
      k.get (restore k overridden d saved requester) connection capability_ct_exponent ≡ 0
  unfolding common_items
  exponent_lem = kept capability_ct_exponent refl refl

  log_lem :
      version_13 ≤ version → k.get (restore k overridden d saved requester) connection mel_spec ≡ 0
  unfolding override negotiated_state saved overridden
  log_lem at13 =
      get-restore k laws overridden d saved requester mel_spec
      ∙ log_value k overridden (omega (arith, saved_version, low))
          (value_after (common_items k overridden saved requester) mel_spec
            (k.get d connection mel_spec))
          (omega (arith, saved_version, at13))

  IsSameConnection-restore :
      k.get c connection connection_state ≡ k.state_negotiated
      → IsSameConnection k c (restore k overridden d saved requester)
  unfolding override negotiated_state saved overridden common_items
  IsSameConnection-restore negotiated = record {
    state = get-restore k laws overridden d saved requester connection_state ∙ sym negotiated;
    versions =
        versions-restore k laws overridden d saved requester
        ∙ modern_versions k overridden (omega (arith, saved_version, low))
            (version_number overridden.use_version ∷ [])
        ∙ rw (saved_version, known) refl;
    messages =
        get_vca-restore k laws overridden d saved requester (ground (arith, saved_version, low));
    flags = kept capability_flags refl refl ∙ flags_lem requester;
    measurements = kept measurement_spec refl refl;
    measurement_hash = kept measurement_hash_algo refl refl;
    asym = kept base_asym_algo refl refl;
    hash = kept base_hash_algo refl refl;
    dhe = kept dhe_name_group refl refl;
    aead = kept aead_cipher_suite refl refl;
    req_asym = kept req_base_asym_alg refl refl;
    schedule = kept key_schedule refl refl;
    other_params = kept other_params_support refl refl;
  }
    where
      flags_lem :
          (b : Bool)
          → (if b
              then (negotiated_state k c b).responder_cap_flags
              else (negotiated_state k c b).requester_cap_flags)
            ≡ k.get c connection capability_flags
      flags_lem true = refl
      flags_lem false = refl

load_overridden :
    (k : Libspdm) (g : Settings) (d : k.Context) (requester : Bool) (s : NegotiatedState)
    → s.version ≡ negotiated_state_struct_version
    → load_content k g d requester (some (holds s))
      ≡ (override k g s requester, restore k (override k g s requester) d s requester, success)
unfolding load_content
load_overridden k g d requester s e = rw e refl

saved_struct_version :
    (k : Libspdm) (c : k.Context) (requester : Bool)
    → (negotiated_state k c requester).version ≡ negotiated_state_struct_version
unfolding negotiated_state
saved_struct_version k c requester = refl

saved_flags :
    (k : Libspdm) (g : Settings) (c : k.Context) (requester : Bool)
    → (override k g (negotiated_state k c requester) requester).use_capability_flags
      ≡ k.get c local capability_flags
unfolding override negotiated_state
saved_flags k g c true = refl
saved_flags k g c false = refl

module _ (k : Libspdm) (laws : LibspdmLaws k) (g g2 : Settings) (f f' : k.Files) (c d : k.Context)
    (requester : Bool) (version name : ℕ) (known : k.versions c ≡ version_number version ∷ [])
    (saves : g.save_state_file_name ≡ some name) (loads : g2.load_state_file_name ≡ some name)
    (negotiated : k.get c connection connection_state ≡ k.state_negotiated)
    (caching : bit_and (negotiated_state k c requester).responder_cap_flags k.cache_cap ≢ 0)
    (wrote : k.write f name (holds (negotiated_state k c requester)) ≡ some f') where
  save_lem :
      spdm_save_negotiated_state k g f c requester
      ≡ (record g { end_session_attributes = 0 }, f', some success)
  unfolding spdm_save_negotiated_state written with_settings
  save_lem =
      let s = negotiated_state k c requester in
      let ready : (k.get c connection connection_state == k.state_negotiated) ≡ true =
        ground (arith, negotiated) in
      let versioned : ltb 0 (length (k.versions c)) ≡ true = rw known refl in
      let cached : (bit_and s.responder_cap_flags k.cache_cap == 0) ≡ false =
        ground (arith, caching) in
      rw (saves, ready, versioned, cached, wrote) refl

  load_lem :
      spdm_load_negotiated_state k g2 f' d requester
      ≡ load_content k g2 d requester (some (holds (negotiated_state k c requester)))
  unfolding spdm_load_negotiated_state
  load_lem =
      rw (loads, laws.read-write f f' name (holds (negotiated_state k c requester)) wrote) refl

  -- A negotiated connection of version 1.2 or later, of a peer that caches, is saved with success when
  -- the file can be written; a program that loads the same file, in whatever state, succeeds, and
  -- has the same connection: its state, version, messages, flags of the peer and algorithms. It has
  -- the version and the flags of its own that were saved. libspdm and the files obey `LibspdmLaws`.
  pub load-save :
      version_12 ≤ version
      → version < 256
      → let (g', f'', saved_status) = spdm_save_negotiated_state k g f c requester in
        let (g'', d', loaded_status) = spdm_load_negotiated_state k g2 f'' d requester in
        (saved_status ≡ some success)
        × (loaded_status ≡ success)
        × IsSameConnection k c d'
        × (g''.use_version ≡ version)
        × (g''.use_capability_flags ≡ k.get c local capability_flags)
  unfolding saved overridden
  load-save low bound =
      let s = negotiated_state k c requester in
      rw save_lem (
        rw (load_lem, load_overridden k g2 d requester s (saved_struct_version k c requester))
          (
            refl,
            refl,
            IsSameConnection-restore k laws g2 c d requester version known low bound negotiated,
            saved_version k laws g2 c d requester version known low bound,
            saved_flags k g2 c requester,
          ))

  -- The same connection of version 1.3 or later loses its specification of the measurement log: the
  -- loading succeeds and sets it to 0, whatever was negotiated. The exponent of the peer's time is
  -- set to 0 as well.
  pub load-save_drops :
      version_13 ≤ version
      → version < 256
      → let (g', f'', saved_status) = spdm_save_negotiated_state k g f c requester in
        let (g'', d', loaded_status) = spdm_load_negotiated_state k g2 f'' d requester in
        (saved_status ≡ some success)
        × (loaded_status ≡ success)
        × (k.get d' connection mel_spec ≡ 0)
        × (k.get d' connection capability_ct_exponent ≡ 0)
  unfolding saved overridden
  load-save_drops low bound =
      let s = negotiated_state k c requester in
      rw save_lem (
        rw (load_lem, load_overridden k g2 d requester s (saved_struct_version k c requester))
          (
            refl,
            refl,
            log_lem k laws g2 c d requester version known (omega arith) bound low,
            exponent_lem k laws g2 c d requester version known (omega arith) bound,
          ))
