-- ===== src/Tsp/Control.antt =====
-- Who controls a TSP target, and how its TSP state changes.
use spdm_emu.Prelude.{ℕ, ◌≡◌, ◌≢◌, refl, ◌∙◌, true, false, arith, List, [], ◌∷◌, Option, none, some}
use spdm_emu.Tsp.Messages.{Request, Tsp, TspLaws}
use spdm_emu.Tsp.Device.{
  Context, Surroundings, primary, libcxltsp_is_session_primary, libcxltsp_get_session_type,
}
use spdm_emu.Tsp.Responder.{open_dispatch, cxl_tsp_get_response}
use spdm_emu.Tsp.Responder.Cases.{response_rule}
use spdm_emu.Tsp.Trace.{Call, step, run}

-- `d` has the primary session, the capabilities, the configuration, the secondary sessions' keys
-- and the TSP state of `c`.
pub record SameControl (c d : Context) : Type 0 where
  pub valid : d.session_id_primary_valid ≡ c.session_id_primary_valid
  pub primary_id : d.session_id_primary ≡ c.session_id_primary
  pub capabilities : d.device_capabilities ≡ c.device_capabilities
  pub configuration : d.device_configuration ≡ c.device_configuration
  pub second_session : d.device_2nd_session_info ≡ c.device_2nd_session_info
  pub keys : d.second_session_psk ≡ c.second_session_psk
  pub state : d.current_tsp_state ≡ c.current_tsp_state

pub primary_session :
    (c : Context) (id : ℕ) → libcxltsp_get_session_type c id ≡ primary → c.session_id_primary ≡ id
unfolding libcxltsp_get_session_type libcxltsp_is_session_primary
primary_session c id h = ground arith

module _ (k : Tsp) (c : Context) (w : Surroundings) (r : Request) (n m : ℕ) where
  -- Once there is a primary session, a request in any other session, or in none, changes neither
  -- the primary session nor the capabilities, the configuration, the keys and the TSP state.
  pub response_unprivileged :
      (session_id : Option ℕ)
      → c.session_id_primary_valid ≡ true
      → session_id ≢ some c.session_id_primary
      → SameControl c (cxl_tsp_get_response k c w session_id r n m).0
  unfolding open_dispatch
  response_unprivileged none v h =
      response_rule k c w none r n m (λ p. SameControl c p.0) (λ _. ground arith) (ground arith)
        (λ _. ground arith) (λ _. ground arith) (λ _. ground arith) (λ _. ground arith)
        (λ _. ground arith) (λ _. ground arith) (λ _. ground arith)
  response_unprivileged (some id) v h =
      response_rule k c w (some id) r n m (λ p. SameControl c p.0) (λ _. ground arith)
        (ground arith) (λ _. ground arith) (λ _. ground arith)
        (λ _. ground (arith, primary_session c id)) (λ _. ground arith) (λ _. ground arith)
        (λ _. ground (arith, primary_session c id)) (λ _. ground arith)

-- The moves of the TSP state: an established primary session stays, and only it can lock a target
-- that is not locked.
pub data Move (k : Tsp) (session_id : Option ℕ) (r : Request) (c d : Context) : Type 0 where
  stays : d.current_tsp_state ≡ c.current_tsp_state → Move k session_id r c d
  establishes :
      c.session_id_primary_valid ≡ false → d.current_tsp_state ≡ 0 → Move k session_id r c d
  locks :
      r.header.op_code ≡ k.lock_target_configuration
      → session_id ≡ some c.session_id_primary
      → c.session_id_primary_valid ≡ true
      → c.current_tsp_state ≡ k.config_unlocked
      → d.current_tsp_state ≡ k.config_locked
      → Move k session_id r c d

pub primary_known :
    (c : Context) (id : ℕ)
    → libcxltsp_get_session_type c id ≡ primary
    → c.session_id_primary_valid ≡ true
unfolding libcxltsp_get_session_type libcxltsp_is_session_primary
primary_known c id h = ground arith

module _ (k : Tsp) (c : Context) (w : Surroundings) (session_id : Option ℕ) (r : Request)
    (n m : ℕ) where
  -- The TSP state changes in two ways only: it is reset to 0 while there is no primary session,
  -- and LOCK_TARGET_CONFIGURATION, in the primary session, takes CONFIG_UNLOCKED to CONFIG_LOCKED.
  pub control_moves : Move k session_id r c (cxl_tsp_get_response k c w session_id r n m).0
  unfolding open_dispatch
  control_moves = go session_id
    where
      go : (i : Option ℕ) → Move k i r c (cxl_tsp_get_response k c w i r n m).0
      go none =
          response_rule k c w none r n m (λ p. Move k none r c p.0) (λ _. stays refl) (stays refl)
            (λ _. stays refl) (λ _. stays refl) (λ _. stays refl) (λ _. stays refl)
            (λ _. stays refl) (λ _. stays refl) (λ _. stays refl)
      go (some id) =
          response_rule k c w (some id) r n m (λ p. Move k (some id) r c p.0) (λ _. stays refl)
            (stays refl) (λ _. ground arith) (λ _. stays (ground arith)) (λ _. stays (ground arith))
            (λ _. stays (ground arith)) (λ _. stays (ground arith))
            (λ t. ground (arith, primary_session c id, primary_known c id))
            (λ _. stays (ground arith))

  response_locked :
      TspLaws k
      → c.session_id_primary_valid ≡ true
      → c.current_tsp_state ≡ k.config_locked
      → SameControl c (cxl_tsp_get_response k c w session_id r n m).0
  unfolding open_dispatch
  response_locked laws v l = go session_id
    where
      go : (i : Option ℕ) → SameControl c (cxl_tsp_get_response k c w i r n m).0
      go none =
          response_rule k c w none r n m (λ p. SameControl c p.0) (λ _. ground arith) (ground arith)
            (λ _. ground arith) (λ _. ground arith) (λ _. ground arith) (λ _. ground arith)
            (λ _. ground arith) (λ _. ground arith) (λ _. ground arith)
      go (some id) =
          response_rule k c w (some id) r n m (λ p. SameControl c p.0) (λ _. ground arith)
            (ground arith) (λ _. ground arith) (λ _. ground arith)
            (λ _. ground (arith, laws.unlocked_ne_locked)) (λ _. ground arith) (λ _. ground arith)
            (λ _. ground arith) (λ _. ground arith)

module _ (k : Tsp) (laws : TspLaws k) where
  -- Once a primary session has locked the target, no history of requests, in whatever sessions,
  -- changes the primary session, the capabilities, the configuration, the keys or the TSP state.
  -- The numbers of the protocol obey `TspLaws`.
  pub run_locked :
      (c : Context) (xs : List Call)
      → c.session_id_primary_valid ≡ true
      → c.current_tsp_state ≡ k.config_locked
      → SameControl c (run k c xs)
  unfolding run
  run_locked c [] v l = ground arith
  run_locked c (x ∷ xs) v l =
      let d = (step k c x).0 in
      let s =
        response_locked k c x.surroundings x.session_id x.request x.request_size x.response_size
          laws v l in
      ground (arith, s, run_locked d xs (s.valid ∙ v) (s.state ∙ l))
