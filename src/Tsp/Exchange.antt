-- ===== src/Tsp/Exchange.antt =====
-- The requests of cxl_tsp_requester_lib in the primary session, served by cxl_tsp_responder_lib.
use spdm_emu.Prelude.{ℕ, ◌+◌, ◌*◌, ◌≡◌, ◌≤◌, ◌<◌, ◌⊎◌, inl, inr, true, arith, some, replies}
use spdm_emu.Tsp.Messages.{
  DeviceConfiguration, SecondSessionInfo, Request, Response, Body, Tsp, TspLaws, TspRequests,
  set_configuration_rsp, get_configuration_rsp, lock_configuration_rsp, set_te_state_rsp,
}
use spdm_emu.Tsp.Device.{
  Context, Surroundings, primary, libcxltsp_is_session_primary, libcxltsp_get_session_type,
  copy_psks,
}
use spdm_emu.Tsp.Validate
use spdm_emu.Tsp.Responder.{
  cxl_tsp_get_response, cxl_tsp_get_response_set_configuration,
  cxl_tsp_get_response_get_configuration, cxl_tsp_get_response_lock_configuration,
  cxl_tsp_get_response_set_te_state,
}
use spdm_emu.Tsp.Replies.{HasRoom}
use spdm_emu.Tsp.Calls.{Received, received}

-- The transport brings each request in session `id` to the target with room `m` for the response,
-- and brings a response back as it is.
abbrev pub Serves :
    Tsp → Surroundings → ℕ → ℕ → (Context → Request → ℕ → Context × Received) → Type 0
Serves k w id m send =
    (c : Context) (r : Request) (n : ℕ) (c' : Context) (size : ℕ) (rsp : Response)
    → cxl_tsp_get_response k c w (some id) r n m ≡ (c', replies size rsp)
    → send c r n ≡ (c', received size rsp)

-- A target whose primary session is `id`.
pub record Controls (c : Context) (id : ℕ) : Type 0 where
  pub valid : c.session_id_primary_valid ≡ true
  pub primary_id : c.session_id_primary ≡ id

pub session_type-Controls :
    (c : Context) (id : ℕ) → Controls c id → libcxltsp_get_session_type c id ≡ primary
unfolding libcxltsp_get_session_type libcxltsp_is_session_primary
session_type-Controls c id h = ground (arith, h.valid, h.primary_id)

module _ (k : Tsp) where
  -- A response as the responder makes it.
  abbrev pub answer_to : Request → ℕ → Body → Response
  answer_to r op_code body = record {
    header = record { tsp_version = r.header.tsp_version; op_code = op_code };
    body = body;
  }

-- The target with another configuration, as the device stores it.
abbrev pub with_configuration : Context → DeviceConfiguration → SecondSessionInfo → Context
with_configuration c configuration info = record c {
  device_configuration = configuration;
  device_2nd_session_info = info;
  second_session_psk =
      copy_psks info.configuration_validity_flags 0 c.second_session_psk
        info.secondary_session_psk_key_material;
}

module _ (k : Tsp) (laws : TspLaws k) (requests : TspRequests k) (w : Surroundings) (m : ℕ)
    (room : HasRoom k m) (c : Context) (id : ℕ) (controls : Controls c id) (r : Request)
    (versioned : r.header.tsp_version ≡ k.version_10) where
  pub set_accepted :
      r.header.op_code ≡ k.set_target_configuration
      → c.current_tsp_state ≡ k.config_unlocked
      → Validate.cxl_tsp_validate_configruation k r c.device_capabilities ≡ 0
      → cxl_tsp_get_response k c w (some id) r k.set_configuration_size m ≡ (
        with_configuration c r.configuration r.second_session,
        replies k.set_configuration_rsp_size
            (answer_to k r k.set_target_configuration_rsp set_configuration_rsp),
      )
  unfolding cxl_tsp_get_response cxl_tsp_get_response_set_configuration
  set_accepted t u valid = ground (
    arith,
    requests.requests_distinct,
    requests.set_fits,
    room.for_set,
    session_type-Controls c id controls,
  )

  pub get_accepted :
      r.header.op_code ≡ k.get_target_configuration
      → (c.current_tsp_state ≡ k.config_unlocked) ⊎ (c.current_tsp_state ≡ k.config_locked)
      → cxl_tsp_get_response k c w (some id) r k.get_configuration_size m ≡ (
        c,
        replies k.get_configuration_rsp_size (
            answer_to k r k.get_target_configuration_rsp
              (get_configuration_rsp c.device_configuration c.current_tsp_state)),
      )
  unfolding cxl_tsp_get_response cxl_tsp_get_response_get_configuration
  get_accepted t (inl u) = ground (
    arith,
    requests.requests_distinct,
    requests.get_fits,
    room.for_get,
    session_type-Controls c id controls,
  )
  get_accepted t (inr u) = ground (
    arith,
    requests.requests_distinct,
    requests.get_fits,
    room.for_get,
    session_type-Controls c id controls,
  )

  pub lock_accepted :
      r.header.op_code ≡ k.lock_target_configuration
      → c.current_tsp_state ≡ k.config_unlocked
      → cxl_tsp_get_response k c w (some id) r k.lock_configuration_size m ≡ (
        record c { current_tsp_state = k.config_locked },
        replies k.lock_configuration_rsp_size
            (answer_to k r k.lock_target_configuration_rsp lock_configuration_rsp),
      )
  unfolding cxl_tsp_get_response cxl_tsp_get_response_lock_configuration
  lock_accepted t u = ground (
    arith,
    laws.unlocked_ne_locked,
    requests.requests_distinct,
    requests.lock_fits,
    room.for_lock,
    session_type-Controls c id controls,
  )

  pub te_state_accepted :
      r.header.op_code ≡ k.set_target_te_state
      → c.current_tsp_state ≡ k.config_locked
      → 0 < r.number_of_memory_ranges
      → r.number_of_memory_ranges ≤ 32
      → cxl_tsp_get_response k c w
          (some id)
          r
          (k.set_te_state_size + r.number_of_memory_ranges * k.memory_range_size)
          m
        ≡ (
          c,
          replies k.set_te_state_rsp_size
              (answer_to k r k.set_target_te_state_rsp set_te_state_rsp),
        )
  unfolding cxl_tsp_get_response cxl_tsp_get_response_set_te_state
  te_state_accepted t u some_ranges few = ground (
    arith,
    requests.requests_distinct,
    requests.te_state_fits,
    room.for_te_state,
    session_type-Controls c id controls,
  )
