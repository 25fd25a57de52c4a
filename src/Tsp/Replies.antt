-- ===== src/Tsp/Replies.antt =====
-- What every answer of cxl_tsp_get_response has in common.
use spdm_emu.Prelude.{
  ℕ, ◌+◌, ◌≡◌, ◌≤◌, ◌<◌, ◌⊎◌, inl, inr, refl, arith, Reply, asserted, fails, replies, Option, none,
  some, invalid_msg_size, unsupported_cap, code,
}
use spdm_emu.Tsp.Messages.{
  Request, Body, Response, Tsp, get_version_rsp, get_capabilities_rsp, set_configuration_rsp,
  get_configuration_rsp, get_report_rsp, lock_configuration_rsp, set_te_state_rsp, error_rsp,
}
use spdm_emu.Tsp.Device.{Context, Surroundings}
use spdm_emu.Tsp.Responder.{configuration_report_portion_len, open_dispatch, cxl_tsp_get_response}
use spdm_emu.Tsp.Responder.Cases.{response_rule}

module _ (k : Tsp) where
  -- The bytes that a response takes.
  abbrev pub body_size : Body → ℕ
  body_size (get_version_rsp count entry) = k.get_version_rsp_size
  body_size (get_capabilities_rsp caps) = k.get_capabilities_rsp_size
  body_size set_configuration_rsp = k.set_configuration_rsp_size
  body_size (get_configuration_rsp configuration state) = k.get_configuration_rsp_size
  body_size (get_report_rsp portion remainder bytes) = k.get_report_rsp_size + portion
  body_size lock_configuration_rsp = k.lock_configuration_rsp_size
  body_size set_te_state_rsp = k.set_te_state_rsp_size
  body_size (error_rsp error_code extra) = k.error_size

  -- The op code of each response structure.
  abbrev pub body_code : Body → ℕ
  body_code (get_version_rsp count entry) = k.get_target_tsp_version_rsp
  body_code (get_capabilities_rsp caps) = k.get_target_capabilities_rsp
  body_code set_configuration_rsp = k.set_target_configuration_rsp
  body_code (get_configuration_rsp configuration state) = k.get_target_configuration_rsp
  body_code (get_report_rsp portion remainder bytes) = k.get_target_configuration_report_rsp
  body_code lock_configuration_rsp = k.lock_target_configuration_rsp
  body_code set_te_state_rsp = k.set_target_te_state_rsp
  body_code (error_rsp error_code extra) = k.error_rsp

  -- The room that the largest response needs.
  pub record HasRoom (m : ℕ) : Type 0 where
    pub for_version : k.get_version_rsp_size ≤ m
    pub for_capabilities : k.get_capabilities_rsp_size ≤ m
    pub for_set : k.set_configuration_rsp_size ≤ m
    pub for_get : k.get_configuration_rsp_size ≤ m
    pub for_report : k.get_report_rsp_size + configuration_report_portion_len ≤ m
    pub for_lock : k.lock_configuration_rsp_size ≤ m
    pub for_te_state : k.set_te_state_rsp_size ≤ m
    pub for_error : k.error_size ≤ m

  -- An answer to `r`, whose size was `n`, in a buffer of `m` bytes.
  abbrev pub IsAnswer : Request → ℕ → ℕ → Reply Response → Type 0
  IsAnswer r n m asserted = ⊥
  IsAnswer r n m (fails status) =
      ((status ≡ invalid_msg_size) × (n < k.header_size))
      ⊎ (status ≡ unsupported_cap)
      ⊎ (status ≡ code k.no_privilege)
  IsAnswer r n m (replies size rsp) =
      (size ≡ body_size rsp.body)
      × (size ≤ m)
      × (rsp.header.tsp_version ≡ r.header.tsp_version)
      × (rsp.header.op_code ≡ body_code rsp.body)

module _ (k : Tsp) (c : Context) (w : Surroundings) (session_id : Option ℕ) (r : Request)
    (n m : ℕ) where
  -- With room for the largest response no assertion of the responder fails: a request is refused
  -- with the status INVALID_MSG_SIZE, UNSUPPORTED_CAP or the number NO_PRIVILEGE, or gets a response
  -- that fits the buffer, whose size and op code are those of its structure, and which carries the
  -- version of the request.
  pub tsp_response-IsAnswer :
      HasRoom k m → IsAnswer k r n m (cxl_tsp_get_response k c w session_id r n m).1
  unfolding open_dispatch
  tsp_response-IsAnswer room = go session_id
    where
      go : (i : Option ℕ) → IsAnswer k r n m (cxl_tsp_get_response k c w i r n m).1
      go none =
          response_rule k c w none r n m (λ p. IsAnswer k r n m p.1) (λ short. inl (refl, short))
            (inr (inl refl)) (λ _. ground arith) (λ _. ground arith) (λ _. ground arith)
            (λ _. ground arith) (λ _. ground arith) (λ _. ground arith) (λ _. ground arith)
      go (some id) =
          response_rule k c w (some id) r n m (λ p. IsAnswer k r n m p.1)
            (λ short. inl (refl, short)) (inr (inl refl)) (λ _. ground arith) (λ _. ground arith)
            (λ _. ground arith) (λ _. ground arith) (λ _. ground arith) (λ _. ground arith)
            (λ _. ground arith)

  -- What an answer that is no success may leave: all of the context but the report.
  abbrev pub Untouched : Context × Reply Response → Type 0
  Untouched (d, asserted) = Unit
  Untouched (d, fails status) = d ≡ c
  Untouched (d, replies size rsp) = elim rsp.body [
    | error_rsp error_code extra ↦ d ≡ record c {
      configuration_report = d.configuration_report;
      configuration_report_size = d.configuration_report_size;
    }
    | _ ↦ Unit
  ]

  -- A request that is refused by a status leaves the context as it was, and one that is answered by
  -- an error response leaves all of it but the configuration report.
  pub tsp_error_unchanged : Untouched (cxl_tsp_get_response k c w session_id r n m)
  unfolding open_dispatch
  tsp_error_unchanged = go session_id
    where
      go : (i : Option ℕ) → Untouched (cxl_tsp_get_response k c w i r n m)
      go none =
          response_rule k c w none r n m Untouched (λ _. refl) refl (λ _. ground arith)
            (λ _. ground arith) (λ _. ground arith) (λ _. ground arith) (λ _. ground arith)
            (λ _. ground arith) (λ _. ground arith)
      go (some id) =
          response_rule k c w (some id) r n m Untouched (λ _. refl) refl (λ _. ground arith)
            (λ _. ground arith) (λ _. ground arith) (λ _. ground arith) (λ _. ground arith)
            (λ _. ground arith) (λ _. ground arith)
