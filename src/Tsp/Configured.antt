-- ===== src/Tsp/Configured.antt =====
-- Where the configuration of a TSP target comes from.
use spdm_emu.Prelude.{
  ℕ, ◌-◌, ◌^◌, ◌≡◌, ◌≤◌, ◌⊎◌, inl, inr, refl, true, false, arith, List, [], ◌∷◌, Option, none, some,
}
use spdm_emu.Tsp.Messages.{
  DeviceCapabilities, DeviceConfiguration, SecondSessionInfo, Request, Tsp, TspLaws,
}
use spdm_emu.Tsp.Device.{Context, Surroundings, zero_configuration}
use spdm_emu.Tsp.Validate.{cxl_tsp_validate_configruation}
use spdm_emu.Tsp.Responder.{open_dispatch, cxl_tsp_get_response}
use spdm_emu.Tsp.Responder.Cases.{response_rule}
use spdm_emu.Tsp.Trace.{Call, step, run}
use spdm_emu.Tsp.Control.{primary_session, primary_known}
use spdm_emu.Tsp.Acceptance.{Acceptable, validate_iff}

-- What a request may do to the configuration and the capabilities.
pub data ConfigMove (k : Tsp) (session_id : Option ℕ) (r : Request) (c d : Context) : Type 0 where
  keeps :
      d.device_configuration ≡ c.device_configuration
      → d.device_2nd_session_info ≡ c.device_2nd_session_info
      → d.device_capabilities ≡ c.device_capabilities
      → ConfigMove k session_id r c d
  resets :
      c.session_id_primary_valid ≡ false
      → d.device_configuration ≡ zero_configuration k
      → d.device_capabilities.number_of_ckids ≡ 0
      → ConfigMove k session_id r c d
  stores :
      session_id ≡ some c.session_id_primary
      → c.session_id_primary_valid ≡ true
      → c.current_tsp_state ≡ k.config_unlocked
      → cxl_tsp_validate_configruation k r c.device_capabilities ≡ 0
      → d.device_configuration ≡ r.configuration
      → d.device_2nd_session_info ≡ r.second_session
      → d.device_capabilities ≡ c.device_capabilities
      → ConfigMove k session_id r c d

module _ (k : Tsp) (c : Context) (w : Surroundings) (session_id : Option ℕ) (r : Request)
    (n m : ℕ) where
  -- The configuration changes in two ways only: it is cleared while there is no primary session,
  -- and a request of the primary session stores its own configuration and secondary sessions, when
  -- the validation has accepted them and the target is in CONFIG_UNLOCKED.
  pub configuration_moves :
      ConfigMove k session_id r c (cxl_tsp_get_response k c w session_id r n m).0
  unfolding open_dispatch
  configuration_moves = go session_id
    where
      go : (i : Option ℕ) → ConfigMove k i r c (cxl_tsp_get_response k c w i r n m).0
      go none =
          response_rule k c w none r n m (λ p. ConfigMove k none r c p.0)
            (λ _. keeps refl refl refl) (keeps refl refl refl) (λ _. keeps refl refl refl)
            (λ _. keeps refl refl refl) (λ _. keeps refl refl refl) (λ _. keeps refl refl refl)
            (λ _. keeps refl refl refl) (λ _. keeps refl refl refl) (λ _. keeps refl refl refl)
      go (some id) =
          response_rule k c w (some id) r n m (λ p. ConfigMove k (some id) r c p.0)
            (λ _. keeps refl refl refl) (keeps refl refl refl) (λ _. ground arith)
            (λ _. ground arith) (λ _. ground (arith, primary_session c id, primary_known c id))
            (λ _. ground arith) (λ _. ground arith) (λ _. ground arith) (λ _. ground arith)

-- The configuration is the cleared one, or an acceptable one that came with the secondary sessions;
-- and the target has a number of CKIDs that the validation can bound.
abbrev pub Held : Tsp → DeviceConfiguration → SecondSessionInfo → DeviceCapabilities → Type 0
Held k configuration info caps =
    (caps.number_of_ckids ≤ 2 ^ 32 - 0x2000)
    × ((configuration ≡ zero_configuration k)
        ⊎ ((r : Request) × (r.configuration ≡ configuration)
            × (r.second_session ≡ info)
            × Acceptable k r caps))

abbrev pub Configured : Tsp → Context → Type 0
Configured k c = Held k c.device_configuration c.device_2nd_session_info c.device_capabilities

module _ (k : Tsp) (laws : TspLaws k) where
  step-Configured :
      (c d : Context) (i : Option ℕ) (r : Request)
      → ConfigMove k i r c d
      → Configured k c
      → Configured k d
  step-Configured c d i r (keeps conf second caps) h = rw (conf, second, caps) h
  step-Configured c d i r (resets v conf caps) h = (omega arith, inl conf)
  step-Configured c d i r (stores p v u valid conf second caps) h =
      rw (conf, second, caps)
        (h.0, inr (r, refl, refl, (validate_iff k r c.device_capabilities laws h.0).0 valid))

  -- In any history of requests, in whatever sessions, the configuration of the target is the
  -- cleared one or one that is acceptable for the capabilities of the target, which has at most
  -- 2^32 - 0x2000 CKIDs, when this is so at the start. The numbers of the protocol obey `TspLaws`.
  pub run-Configured : (c : Context) (xs : List Call) → Configured k c → Configured k (run k c xs)
  unfolding run
  run-Configured c [] h = h
  run-Configured c (x ∷ xs) h = run-Configured (step k c x).0 xs (
      step-Configured c (step k c x).0 x.session_id x.request
        (configuration_moves k c x.surroundings x.session_id x.request x.request_size
          x.response_size)
        h)
