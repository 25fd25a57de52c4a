-- ===== src/Emu/NvStorage/Calls.antt =====
-- What a connection holds after the calls of libspdm_set_data that load a state.
use spdm_emu.Prelude.{
  Bool-cases, inl, inr, ℕ, ◌≡◌, refl, ap, ◌∙◌, true, Bool, List, [], ◌∷◌, ◌==◌, leb, if◌then◌else◌,
  some,
}
use spdm_emu.Emu.NvStorage.{
  Item, is_requester, connection_state, spdm_version, capability_flags, capability_ct_exponent,
  measurement_spec, measurement_hash_algo, base_asym_algo, base_hash_algo, dhe_name_group,
  aead_cipher_suite, req_base_asym_alg, key_schedule, other_params_support, mel_spec, connection,
  NegotiatedState, Content, Libspdm, Settings, version_11, set_all, set_messages, common_items,
  version_items, restore,
}

abbrev pub item_id : Item → ℕ
item_id is_requester = 0
item_id connection_state = 1
item_id spdm_version = 2
item_id capability_flags = 3
item_id capability_ct_exponent = 4
item_id measurement_spec = 5
item_id measurement_hash_algo = 6
item_id base_asym_algo = 7
item_id base_hash_algo = 8
item_id dhe_name_group = 9
item_id aead_cipher_suite = 10
item_id req_base_asym_alg = 11
item_id key_schedule = 12
item_id other_params_support = 13
item_id mel_spec = 14

abbrev pub same : Item → Item → Bool
same i j = item_id i == item_id j

-- What the code relies on: an item of the connection that was set is read back, a version that was
-- set is the one version of the connection, and a file that was written is read back.
pub record LibspdmLaws (k : Libspdm) : Type 0 where
  pub get-set :
      (c : k.Context) (i j : Item) (v : ℕ)
      → k.get (k.set c i v) connection j ≡ (if same i j then v else k.get c connection j)
  pub get-set_vca :
      (c : k.Context) (j : Item) (xs : List ℕ)
      → k.get (k.set_vca c xs) connection j ≡ k.get c connection j
  pub versions-set :
      (c : k.Context) (i : Item) (v : ℕ)
      → k.versions (k.set c i v) ≡ (if same i spdm_version then v ∷ [] else k.versions c)
  pub versions-set_vca : (c : k.Context) (xs : List ℕ) → k.versions (k.set_vca c xs) ≡ k.versions c
  pub get_vca-set : (c : k.Context) (i : Item) (v : ℕ) → k.get_vca (k.set c i v) ≡ k.get_vca c
  pub get_vca-set_vca : (c : k.Context) (xs : List ℕ) → k.get_vca (k.set_vca c xs) ≡ xs
  pub read-write :
      (f f' : k.Files) (name : ℕ) (x : Content)
      → k.write f name x ≡ some f'
      → k.read f' name ≡ some x

-- The value of an item, or the versions, after calls of libspdm_set_data.
abbrev pub value_after : List (Item × ℕ) → Item → ℕ → ℕ
value_after [] j v = v
value_after ((i, x) ∷ xs) j v = value_after xs j (if same i j then x else v)

abbrev pub versions_after : List (Item × ℕ) → List ℕ → List ℕ
versions_after [] vs = vs
versions_after ((i, x) ∷ xs) vs = versions_after xs (if same i spdm_version then x ∷ [] else vs)

module _ (k : Libspdm) (laws : LibspdmLaws k) where
  get-set_all :
      (c : k.Context) (xs : List (Item × ℕ)) (j : Item)
      → k.get (set_all k c xs) connection j ≡ value_after xs j (k.get c connection j)
  unfolding set_all
  get-set_all c [] j = refl
  get-set_all c ((i, x) ∷ xs) j =
      get-set_all (k.set c i x) xs j ∙ ap (value_after xs j) (laws.get-set c i j x)

  versions-set_all :
      (c : k.Context) (xs : List (Item × ℕ))
      → k.versions (set_all k c xs) ≡ versions_after xs (k.versions c)
  unfolding set_all
  versions-set_all c [] = refl
  versions-set_all c ((i, x) ∷ xs) =
      versions-set_all (k.set c i x) xs ∙ ap (versions_after xs) (laws.versions-set c i x)

  get-set_messages :
      (g : Settings) (c : k.Context) (s : NegotiatedState) (j : Item)
      → k.get (set_messages k g c s) connection j ≡ k.get c connection j
  unfolding set_messages
  get-set_messages g c s j = elim (Bool-cases (leb version_11 g.use_version)) [
    | inl e ↦ rw e (laws.get-set_vca c j s.vca_buffer)
    | inr e ↦ rw e refl
  ]

  versions-set_messages :
      (g : Settings) (c : k.Context) (s : NegotiatedState)
      → k.versions (set_messages k g c s) ≡ k.versions c
  unfolding set_messages
  versions-set_messages g c s = elim (Bool-cases (leb version_11 g.use_version)) [
    | inl e ↦ rw e (laws.versions-set_vca c s.vca_buffer)
    | inr e ↦ rw e refl
  ]

  get_vca-set_messages :
      (g : Settings) (c : k.Context) (s : NegotiatedState)
      → leb version_11 g.use_version ≡ true
      → k.get_vca (set_messages k g c s) ≡ s.vca_buffer
  unfolding set_messages
  get_vca-set_messages g c s modern = rw modern (laws.get_vca-set_vca c s.vca_buffer)

  module _ (g : Settings) (c : k.Context) (s : NegotiatedState) (requester : Bool) where
    abbrev common : k.Context
    common = set_all k c (common_items k g s requester)

    abbrev before : k.Context
    before = set_all k common (version_items k g)

    pub get-restore :
        (j : Item)
        → k.get (restore k g c s requester) connection j ≡ (
            if same connection_state j
            then k.state_negotiated
            else value_after
                (version_items k g)
                j
                (value_after (common_items k g s requester) j (k.get c connection j)))
    unfolding restore
    get-restore j =
        laws.get-set (set_messages k g before s) connection_state j k.state_negotiated
        ∙ ap (λ v. if same connection_state j then k.state_negotiated else v)
            (get-set_messages g before s j
              ∙ get-set_all common (version_items k g) j
              ∙ ap (value_after (version_items k g) j)
                  (get-set_all c (common_items k g s requester) j))

    pub versions-restore :
        k.versions (restore k g c s requester)
        ≡ versions_after
            (version_items k g)
            (versions_after (common_items k g s requester) (k.versions c))
    unfolding restore
    versions-restore =
        laws.versions-set (set_messages k g before s) connection_state k.state_negotiated
        ∙ versions-set_messages g before s
        ∙ versions-set_all common (version_items k g)
        ∙ ap (versions_after (version_items k g))
            (versions-set_all c (common_items k g s requester))

    pub get_vca-restore :
        leb version_11 g.use_version ≡ true → k.get_vca (restore k g c s requester) ≡ s.vca_buffer
    unfolding restore
    get_vca-restore modern =
        laws.get_vca-set (set_messages k g before s) connection_state k.state_negotiated
        ∙ get_vca-set_messages g before s modern
