-- ===== src/Tsp/Session.antt =====
-- A session of cxl_tsp_requester_lib with the responder: a target is configured, locked and asked
-- to change the TE state of memory ranges.
use spdm_emu.Prelude.{
  ℕ, ◌+◌, ◌*◌, ◌≡◌, ◌≤◌, ◌<◌, ◌⊎◌, inl, inr, refl, arith, List, take, some, success,
}
use spdm_emu.Tsp.Messages.{
  DeviceConfiguration, SecondSessionInfo, Request, Tsp, TspLaws, TspRequests, set_configuration_rsp,
  get_configuration_rsp, lock_configuration_rsp, set_te_state_rsp,
}
use spdm_emu.Tsp.Device.{Context, Surroundings}
use spdm_emu.Tsp.Validate
use spdm_emu.Tsp.Replies.{HasRoom}
use spdm_emu.Tsp.Checks.{cxl_tsp_validate_configruation}
use spdm_emu.Tsp.Agreement.{configuration_agrees}
use spdm_emu.Tsp.Calls.{
  Received, Misread, Stored, plain_request, response_check, on_reply, take_configuration,
  configuration_of, cxl_tsp_set_configuration, cxl_tsp_get_configuration,
  cxl_tsp_lock_configuration, cxl_tsp_set_te_state,
}
use spdm_emu.Tsp.Exchange.{
  Serves, Controls, answer_to, with_configuration, set_accepted, get_accepted, lock_accepted,
  te_state_accepted,
}

-- The request that set_configuration sends.
abbrev pub set_request : Tsp → DeviceConfiguration → SecondSessionInfo → Request
set_request k configuration info = record (plain_request k k.set_target_configuration) {
  configuration = configuration;
  second_session = info;
}

module _ (k : Tsp) (laws : TspLaws k) (requests : TspRequests k) (w : Surroundings) (m : ℕ)
    (room : HasRoom k m) (id : ℕ) (v : Misread) (send : Context → Request → ℕ → Context × Received)
    (serves : Serves k w id m send) (c : Context) (controls : Controls c id) where
  set_configuration_lem :
      (configuration : DeviceConfiguration) (info : SecondSessionInfo)
      → c.current_tsp_state ≡ k.config_unlocked
      → Validate.cxl_tsp_validate_configruation k
          (set_request k configuration info)
          c.device_capabilities
        ≡ 0
      → cxl_tsp_set_configuration k v send c configuration info
        ≡ (with_configuration c configuration info, success)
  unfolding plain_request cxl_tsp_set_configuration on_reply response_check
  set_configuration_lem configuration info u valid =
      let q : Request = set_request k configuration info in
      let served =
        serves c q k.set_configuration_size (with_configuration c configuration info)
          k.set_configuration_rsp_size
          (answer_to k q k.set_target_configuration_rsp set_configuration_rsp)
          (set_accepted k laws requests w m room c id controls q refl refl u valid) in
      rw (served, cxl_tsp_set_configuration) (ground arith)

  get_configuration_lem :
      (before : DeviceConfiguration) (state : ℕ)
      → (c.current_tsp_state ≡ k.config_unlocked) ⊎ (c.current_tsp_state ≡ k.config_locked)
      → cxl_tsp_validate_configruation k c.device_configuration ≡ success
      → cxl_tsp_get_configuration k v send c
          (record { configuration = some before; current_tsp_state = state })
        ≡ (
          c,
          success,
          record {
            configuration = some c.device_configuration;
            current_tsp_state = c.current_tsp_state;
          },
        )
  unfolding plain_request cxl_tsp_get_configuration on_reply response_check take_configuration
      configuration_of
  get_configuration_lem before state u valid =
      let q : Request = plain_request k k.get_target_configuration in
      let served =
        serves c q k.get_configuration_size c k.get_configuration_rsp_size
          (answer_to k q k.get_target_configuration_rsp
            (get_configuration_rsp c.device_configuration c.current_tsp_state))
          (get_accepted k laws requests w m room c id controls q refl refl u) in
      rw (served, cxl_tsp_get_configuration)
        (elim u [
          | inl e ↦ ground (arith, requests.unlocked_le_error)
          | inr e ↦ ground (arith, requests.locked_le_error)
        ])

  lock_configuration_lem :
      c.current_tsp_state ≡ k.config_unlocked
      → cxl_tsp_lock_configuration k v send c
        ≡ (record c { current_tsp_state = k.config_locked }, success)
  unfolding plain_request cxl_tsp_lock_configuration on_reply response_check
  lock_configuration_lem u =
      let q : Request = plain_request k k.lock_target_configuration in
      let served =
        serves c q k.lock_configuration_size (record c { current_tsp_state = k.config_locked })
          k.lock_configuration_rsp_size
          (answer_to k q k.lock_target_configuration_rsp lock_configuration_rsp)
          (lock_accepted k laws requests w m room c id controls q refl refl u) in
      rw (served, cxl_tsp_lock_configuration) (ground arith)

  set_te_state_lem :
      (te_state number : ℕ) (ranges : List (List ℕ))
      → c.current_tsp_state ≡ k.config_locked
      → 0 < number
      → number ≤ 32
      → cxl_tsp_set_te_state k v send c te_state number ranges ≡ (c, success)
  unfolding plain_request cxl_tsp_set_te_state on_reply response_check
  set_te_state_lem te_state number ranges l some_ranges few =
      let q : Request = record (plain_request k k.set_target_te_state) {
        te_state = te_state;
        number_of_memory_ranges = number;
        memory_ranges = take number ranges;
      } in
      let served =
        serves c q (k.set_te_state_size + number * k.memory_range_size) c k.set_te_state_rsp_size
          (answer_to k q k.set_target_te_state_rsp set_te_state_rsp)
          (te_state_accepted k laws requests w m room c id controls q refl refl l some_ranges
            few) in
      rw (served, cxl_tsp_set_te_state) (ground arith)

module _ (k : Tsp) (laws : TspLaws k) (requests : TspRequests k) (w : Surroundings) (m : ℕ)
    (room : HasRoom k m) (id : ℕ) (v : Misread) (send : Context → Request → ℕ → Context × Received)
    (serves : Serves k w id m send) where
  -- In the primary session of an unlocked target, set_configuration of a configuration that the
  -- responder's validation accepts succeeds; get_configuration then succeeds with that very
  -- configuration and the state of the target, before a lock and after it; lock_configuration
  -- succeeds, and so does set_te_state for 1 to 32 memory ranges once the target is locked. The
  -- transport serves the target and leaves room for the responses, and the numbers of the protocol
  -- obey `TspLaws` and `TspRequests`.
  pub target_configured :
      (c : Context) (configuration before : DeviceConfiguration) (info : SecondSessionInfo)
      (state te_state number : ℕ) (ranges : List (List ℕ))
      → Controls c id
      → c.current_tsp_state ≡ k.config_unlocked
      → Validate.cxl_tsp_validate_configruation k
          (set_request k configuration info)
          c.device_capabilities
        ≡ 0
      → 0 < number
      → number ≤ 32
      → let old : Stored = record { configuration = some before; current_tsp_state = state } in
        let (c1, set) = cxl_tsp_set_configuration k v send c configuration info in
        let (c2, got, read) = cxl_tsp_get_configuration k v send c1 old in
        let (c3, locked) = cxl_tsp_lock_configuration k v send c2 in
        let (c4, got', read') = cxl_tsp_get_configuration k v send c3 old in
        let (c5, changed) = cxl_tsp_set_te_state k v send c4 te_state number ranges in
        (set ≡ success)
        × (got ≡ success)
        × (read.configuration ≡ some configuration)
        × (read.current_tsp_state ≡ k.config_unlocked)
        × (locked ≡ success)
        × (got' ≡ success)
        × (read'.configuration ≡ some configuration)
        × (read'.current_tsp_state ≡ k.config_locked)
        × (changed ≡ success)
  target_configured c configuration before info state te_state number ranges controls u valid h h' =
      let agreed =
        configuration_agrees k (set_request k configuration info) c.device_capabilities laws
          valid in
      let c1 = with_configuration c configuration info in
      let controls1 : Controls c1 id = record {
        valid = controls.valid;
        primary_id = controls.primary_id;
      } in
      let c3 : Context = record c1 { current_tsp_state = k.config_locked } in
      let controls3 : Controls c3 id = record {
        valid = controls.valid;
        primary_id = controls.primary_id;
      } in
      rw
        (
          set_configuration_lem k laws requests w m room id v send serves c controls configuration
              info u valid,
          get_configuration_lem k laws requests w m room id v send serves c1 controls1 before state
              (inl u) agreed,
          lock_configuration_lem k laws requests w m room id v send serves c1 controls1 u,
          get_configuration_lem k laws requests w m room id v send serves c3 controls3 before state
              (inr refl) agreed,
          set_te_state_lem k laws requests w m room id v send serves c3 controls3 te_state number
              ranges refl h h',
        )
        (refl, refl, refl, u, refl, refl, refl, refl, refl)
