-- ===== src/Emu/NvStorage/Tests.antt =====
-- The theorems on nv_storage.c at a context that is a function of its items, and files that are a
-- function of their names.
use spdm_emu.Prelude.{
  ℕ, ◌%◌, ◌^◌, ◌≡◌, ◌≢◌, refl, sym, ap, ◌∙◌, ==_refl, arith, true, false, List, [], ◌∷◌, ◌==◌,
  if◌then◌else◌, Option, none, some, bit_and, Status, success, unsupported_cap, ◌⊎◌,
}
use spdm_emu.Emu.NvStorage.{
  connection_state, spdm_version, capability_flags, capability_ct_exponent, mel_spec, local,
  connection, Content, holds, Libspdm, Settings, negotiated_state, spdm_save_negotiated_state,
  spdm_load_negotiated_state,
}
use spdm_emu.Emu.NvStorage.Calls.{item_id, same, LibspdmLaws}
use spdm_emu.Emu.NvStorage.Restored.{IsSameConnection, load-save, load-save_drops}
use spdm_emu.Emu.NvStorage.Steps.{with_peer_flags, spdm_provision_psk_version_only}
use spdm_emu.Emu.NvStorage.Provision.{
  IsSettled, IsBySettings, flags_of_other, versioned, provision-IsProvisioned,
}

record Store : Type 0 where
  locals : ℕ → ℕ
  items : ℕ → ℕ
  versions : List ℕ
  messages : List ℕ

abbrev store : Libspdm
store = record {
  Context = Store;
  Files = ℕ → Option Content;
  get = λ c l i. elim l [ local ↦ c.locals (item_id i) | connection ↦ c.items (item_id i) ];
  set = λ c i v. record c {
    items = λ j. if item_id i == j then v else c.items j;
    versions = if same i spdm_version then v ∷ [] else c.versions;
  };
  versions = λ c. c.versions;
  get_vca = λ c. c.messages;
  set_vca = λ c xs. record c { messages = xs };
  read = λ f name. f name;
  write = λ f name x. some (λ n. if n == name then some x else f n);
  state_after_version = 1;
  state_negotiated = 3;
  cache_cap = 1;
}

store-laws : LibspdmLaws store
store-laws = record {
  get-set = λ c i j v. refl;
  get-set_vca = λ c j xs. refl;
  versions-set = λ c i v. refl;
  versions-set_vca = λ c xs. refl;
  get_vca-set = λ c i v. refl;
  get_vca-set_vca = λ c xs. refl;
  read-write = λ f f' name x e.
      sym (ap (λ o. elim o [ none ↦ none | some h ↦ h name ]) e) ∙ rw (==_refl name) refl;
}

-- A connection of version 1.3 with every algorithm negotiated, and one that is blank.
abbrev negotiated : Store
negotiated = record {
  locals = λ i. if i == 3 then 0x77 else 9;
  items = λ i. if i == 1 then 3 else if i == 3 then 0x11 else 2 ^ (i % 4);
  versions = 0x1300 ∷ [];
  messages = 0x10 ∷ 0x84 ∷ 0 ∷ 0 ∷ [];
}

abbrev blank : Store
blank = record { locals = λ _. 0; items = λ _. 0; versions = []; messages = [] }

abbrev settings : Settings
settings = record {
  load_state_file_name = some 7;
  save_state_file_name = some 7;
  end_session_attributes = 1;
  use_version = 0x12;
  use_capability_flags = 0;
  use_requester_capability_flags = 5;
  use_responder_capability_flags = 6;
  use_peer_capability_flags = 0;
  support_measurement_spec = 1;
  support_measurement_hash_algo = 2;
  support_asym_algo = 4;
  support_hash_algo = 8;
  support_dhe_algo = 16;
  support_aead_algo = 2;
  support_req_asym_algo = 1;
  support_key_schedule_algo = 1;
  support_other_params_support = 2;
  support_mel_spec = 1;
}

abbrev empty_files : ℕ → Option Content
empty_files name = none

abbrev one_file : ℕ → Option Content
one_file name = if name == 7 then some (holds (negotiated_state store negotiated true)) else none

negotiated-caches : bit_and (negotiated_state store negotiated true).responder_cap_flags 1 ≢ 0
unfolding negotiated_state
negotiated-caches = omega arith

load-save_example :
    let (g', f'', saved_status) =
      spdm_save_negotiated_state store settings empty_files negotiated true in
    let (g'', d', loaded_status) = spdm_load_negotiated_state store settings f'' blank true in
    (saved_status ≡ some success)
    × (loaded_status ≡ success)
    × IsSameConnection store negotiated d'
    × (g''.use_version ≡ 0x13)
    × (g''.use_capability_flags ≡ 0x77)
load-save_example =
    load-save store store-laws settings settings empty_files one_file negotiated blank true 0x13 7
      refl refl refl refl negotiated-caches refl (omega arith) (omega arith)

load-save_drops_example :
    let (g', f'', saved_status) =
      spdm_save_negotiated_state store settings empty_files negotiated true in
    let (g'', d', loaded_status) = spdm_load_negotiated_state store settings f'' blank true in
    (saved_status ≡ some success)
    × (loaded_status ≡ success)
    × (store.get d' connection mel_spec ≡ 0)
    × (store.get d' connection capability_ct_exponent ≡ 0)
load-save_drops_example =
    load-save_drops store store-laws settings settings empty_files one_file negotiated blank true
      0x13 7 refl refl refl refl negotiated-caches refl (omega arith) (omega arith)

-- The dropped specification was 4.
negotiated_log : store.get negotiated connection mel_spec ≡ 4
negotiated_log = refl

-- A context after GET_VERSION, for the responder, which uses version 1.2.
abbrev versioned_only : Store
versioned_only = record blank { items = λ i. if i == 1 then 1 else 0 }

provision-IsProvisioned_example :
    let g' = (versioned store settings versioned_only false).0 in
    let kept = with_peer_flags store g' false in
    (d : Store) × (status : Status) × (spdm_provision_psk_version_only store settings versioned_only
        false
      ≡ some (kept, d, status))
    × (((status ≡ success)
          × IsSettled g'
          × IsBySettings store g' false d
          × (store.get d connection capability_flags ≡ flags_of_other kept false))
        ⊎ ((status ≡ unsupported_cap)
            × (IsSettled g' → ⊥)
            × (store.get d connection connection_state ≡ store.state_after_version)))
provision-IsProvisioned_example =
    provision-IsProvisioned store settings versioned_only false store-laws refl (omega arith)
