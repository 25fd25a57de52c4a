-- ===== src/Emu/NvStorage.antt =====
-- spdm_emu/spdm_emu_common/nv_storage.c: the negotiated state of a connection, provisioned, saved to a
-- file and loaded from it. libspdm's context with libspdm_get_data and libspdm_set_data, and its
-- functions that read and write a file, are the parameter `Libspdm`.
pub mod Steps
pub mod Runs
pub mod Provision
pub mod Calls
pub mod Restored
mod Tests
use spdm_emu.Prelude.{
  ℕ, zero, suc, ◌+◌, ◌-◌, ◌*◌, ◌/◌, ◌%◌, ◌^◌, Bool, bit_and, List, [], ◌∷◌, ◌++◌, length, ◌==◌, ltb,
  leb, if◌then◌else◌, Option, none, some, Status, success, unsupported_cap,
}

-- The items of LIBSPDM_DATA_ that the code uses.
pub data Item : Type 0 where
  is_requester connection_state spdm_version capability_flags capability_ct_exponent : Item
  measurement_spec measurement_hash_algo base_asym_algo base_hash_algo dhe_name_group : Item
  aead_cipher_suite req_base_asym_alg key_schedule other_params_support mel_spec : Item

-- LIBSPDM_DATA_LOCATION_LOCAL and LIBSPDM_DATA_LOCATION_CONNECTION
pub data Location : Type 0 where
  local connection : Location

-- `spdm_negotiated_state_struct_t`; the length of `vca_buffer` is vca_buffer_size.
pub record NegotiatedState : Type 0 where
  pub version : ℕ
  pub spdm_version : ℕ
  pub requester_cap_ct_exponent : ℕ
  pub requester_cap_flags : ℕ
  pub responder_cap_ct_exponent : ℕ
  pub responder_cap_flags : ℕ
  pub measurement_spec : ℕ
  pub other_params_support : ℕ
  pub mel_spec : ℕ
  pub measurement_hash_algo : ℕ
  pub base_asym_algo : ℕ
  pub base_hash_algo : ℕ
  pub dhe_named_group : ℕ
  pub aead_cipher_suite : ℕ
  pub req_base_asym_alg : ℕ
  pub key_schedule : ℕ
  pub vca_buffer : List ℕ

-- A file: as many bytes as the structure has, which are read as one, or another number of bytes.
pub data Content : Type 0 where
  holds : NegotiatedState → Content
  of_other_size : Content

-- `versions` is what LIBSPDM_DATA_SPDM_VERSION of the connection fills the array with.
pub record Libspdm : Type 1 where
  pub Context : Type 0
  pub Files : Type 0
  pub get : Context → Location → Item → ℕ
  pub set : Context → Item → ℕ → Context
  pub versions : Context → List ℕ
  pub get_vca : Context → List ℕ
  pub set_vca : Context → List ℕ → Context
  pub read : Files → ℕ → Option Content
  pub write : Files → ℕ → Content → Option Files
  -- constants
  pub state_after_version : ℕ
  pub state_negotiated : ℕ
  pub cache_cap : ℕ

-- The globals of spdm_emu.c and nv_storage.c that the code uses.
pub record Settings : Type 0 where
  pub load_state_file_name : Option ℕ
  pub save_state_file_name : Option ℕ
  pub end_session_attributes : ℕ
  pub use_version : ℕ
  pub use_capability_flags : ℕ
  pub use_requester_capability_flags : ℕ
  pub use_responder_capability_flags : ℕ
  pub use_peer_capability_flags : ℕ
  pub support_measurement_spec : ℕ
  pub support_measurement_hash_algo : ℕ
  pub support_asym_algo : ℕ
  pub support_hash_algo : ℕ
  pub support_dhe_algo : ℕ
  pub support_aead_algo : ℕ
  pub support_req_asym_algo : ℕ
  pub support_key_schedule_algo : ℕ
  pub support_other_params_support : ℕ
  pub support_mel_spec : ℕ

-- SPDM_NEGOTIATED_STATE_STRUCT_VERSION
abbrev pub negotiated_state_struct_version : ℕ
negotiated_state_struct_version = 1

-- SPDM_MESSAGE_VERSION_11, 12 and 13, and the shift of a version number
abbrev pub version_11 : ℕ
version_11 = 0x11

abbrev pub version_12 : ℕ
version_12 = 0x12

abbrev pub version_13 : ℕ
version_13 = 0x13

abbrev pub version_number : ℕ → ℕ
version_number version = version * 2 ^ 8

-- The last of a list, 0 when there is none.
abbrev pub last : List ℕ → ℕ
last [] = 0
last (x ∷ []) = x
last (x ∷ y ∷ xs) = last (y ∷ xs)

module _ (k : Libspdm) where
  open k use {Context, Files}

  -- Calls of libspdm_set_data, in order.
  unfoldable pub set_all : Context → List (Item × ℕ) → Context
  set_all c [] = c
  set_all c ((item, value) ∷ xs) = set_all (k.set c item value) xs

  -- The globals that a state overrides.
  unfoldable pub override : Settings → NegotiatedState → Bool → Settings
  override g s requester = record g {
    use_version = s.spdm_version;
    use_requester_capability_flags = s.requester_cap_flags;
    use_responder_capability_flags = s.responder_cap_flags;
    use_capability_flags = if requester then s.requester_cap_flags else s.responder_cap_flags;
    support_measurement_spec = s.measurement_spec;
    support_measurement_hash_algo = s.measurement_hash_algo;
    support_asym_algo = s.base_asym_algo;
    support_hash_algo = s.base_hash_algo;
    support_dhe_algo = s.dhe_named_group;
    support_aead_algo = s.aead_cipher_suite;
    support_req_asym_algo = s.req_base_asym_alg;
    support_key_schedule_algo = s.key_schedule;
    support_other_params_support = s.other_params_support;
    support_mel_spec = s.mel_spec;
  }

  -- The calls before the test on the version.
  unfoldable pub common_items : Settings → NegotiatedState → Bool → List (Item × ℕ)
  common_items g s requester =
      (is_requester, if requester then 1 else 0)
      ∷ (spdm_version, version_number g.use_version)
      ∷ (capability_ct_exponent, 0)
      ∷ (capability_flags, if requester then s.responder_cap_flags else s.requester_cap_flags)
      ∷ (measurement_spec, g.support_measurement_spec)
      ∷ (measurement_hash_algo, g.support_measurement_hash_algo)
      ∷ (base_asym_algo, g.support_asym_algo)
      ∷ (base_hash_algo, g.support_hash_algo)
      ∷ []

  -- The calls for the version, before the one for the messages.
  unfoldable pub version_items : Settings → List (Item × ℕ)
  version_items g =
      if leb version_11 g.use_version
      then (dhe_name_group, g.support_dhe_algo)
        ∷ (aead_cipher_suite, g.support_aead_algo)
        ∷ (req_base_asym_alg, g.support_req_asym_algo)
        ∷ (key_schedule, g.support_key_schedule_algo)
        ∷ (if leb version_12 g.use_version
            then (other_params_support, g.support_other_params_support)
              ∷ (if leb version_13 g.use_version then (mel_spec, g.support_mel_spec) ∷ [] else [])
            else [])
      else (dhe_name_group, 0)
        ∷ (aead_cipher_suite, 0)
        ∷ (req_base_asym_alg, 0)
        ∷ (key_schedule, 0)
        ∷ []

  -- The messages, for the versions that have them.
  unfoldable pub set_messages : Settings → Context → NegotiatedState → Context
  set_messages g c s = if leb version_11 g.use_version then k.set_vca c s.vca_buffer else c

  -- The connection that a state restores.
  unfoldable pub restore : Settings → Context → NegotiatedState → Bool → Context
  unfolding set_all common_items version_items set_messages
  restore g c s requester =
      let before = set_all (set_all c (common_items g s requester)) (version_items g) in
      k.set (set_messages g before s) connection_state k.state_negotiated

  unfoldable pub load_content :
      Settings → Context → Bool → Option Content → Settings × Context × Status
  unfolding override restore
  load_content g c requester none = (g, c, unsupported_cap)
  load_content g c requester (some of_other_size) = (g, c, unsupported_cap)
  load_content g c requester (some (holds s)) =
      if s.version == negotiated_state_struct_version
      then (override g s requester, restore (override g s requester) c s requester, success)
      else (g, c, unsupported_cap)

  unfoldable pub spdm_load_negotiated_state :
      Settings → Files → Context → Bool → Settings × Context × Status
  unfolding load_content
  spdm_load_negotiated_state g f c requester = elim g.load_state_file_name [
    | none ↦ (g, c, unsupported_cap)
    | some name ↦ load_content g c requester (k.read f name)
  ]

  -- The status of a write.
  unfoldable pub written : Files → Option Files → Files × Status
  written f none = (f, unsupported_cap)
  written f (some f') = (f', success)

  unfoldable pub spdm_clear_negotiated_state : Settings → Files → Files × Status
  unfolding written
  spdm_clear_negotiated_state g f = elim g.save_state_file_name [
    | none ↦ (f, unsupported_cap)
    | some name ↦ written f (k.write f name of_other_size)
  ]

  -- The structure that is saved: `mel_spec` stays the zero that it was cleared to.
  unfoldable pub negotiated_state : Context → Bool → NegotiatedState
  negotiated_state c requester =
      let own = k.get c local in
      let peer = k.get c connection in
      record {
        version = negotiated_state_struct_version;
        spdm_version = last (k.versions c) / 2 ^ 8 % 2 ^ 8;
        requester_cap_ct_exponent =
            if requester then own capability_ct_exponent else peer capability_ct_exponent;
        requester_cap_flags = if requester then own capability_flags else peer capability_flags;
        responder_cap_ct_exponent =
            if requester then peer capability_ct_exponent else own capability_ct_exponent;
        responder_cap_flags = if requester then peer capability_flags else own capability_flags;
        measurement_spec = peer measurement_spec;
        other_params_support = peer other_params_support;
        mel_spec = 0;
        measurement_hash_algo = peer measurement_hash_algo;
        base_asym_algo = peer base_asym_algo;
        base_hash_algo = peer base_hash_algo;
        dhe_named_group = peer dhe_name_group;
        aead_cipher_suite = peer aead_cipher_suite;
        req_base_asym_alg = peer req_base_asym_alg;
        key_schedule = peer key_schedule;
        vca_buffer = k.get_vca c;
      }

  unfoldable pub with_settings : Settings → Files × Status → Settings × Files × Option Status
  with_settings g (f, status) = (g, f, some status)

  -- The status is `none` where an assertion fails.
  unfoldable pub spdm_save_negotiated_state :
      Settings → Files → Context → Bool → Settings × Files × Option Status
  unfolding negotiated_state spdm_clear_negotiated_state written with_settings
  spdm_save_negotiated_state g f c requester = elim g.save_state_file_name [
    | none ↦ (g, f, some unsupported_cap)
    | some name ↦
        let g' = record g { end_session_attributes = 0 } in
        let s = negotiated_state c requester in
        if k.get c connection connection_state == k.state_negotiated
        then if ltb 0 (length (k.versions c))
          then if bit_and s.responder_cap_flags k.cache_cap == 0
            then with_settings g' (spdm_clear_negotiated_state g' f)
            else with_settings g' (written f (k.write f name (holds s)))
          else (g', f, none)
        else (g', f, none)
  ]
