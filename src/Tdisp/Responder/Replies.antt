-- ===== src/Tdisp/Responder/Replies.antt =====
-- What every answer of pci_tdisp_get_response has in common.
use spdm_emu.Prelude.{
  ℕ, ◌+◌, ◌≡◌, ◌≤◌, ◌<◌, ◌⊎◌, refl, arith, Reply, asserted, fails, replies, invalid_msg_size,
}
use spdm_emu.Tdisp.Messages.{
  Request, Body, Response, Tdisp, version_rsp, capabilities_rsp, lock_interface_rsp,
  interface_report_rsp, interface_state_rsp, start_interface_rsp, stop_interface_rsp, error_rsp,
}
use spdm_emu.Tdisp.Device.{Interface, Surroundings}
use spdm_emu.Tdisp.Responder.{open_dispatch, interface_report_portion_len, pci_tdisp_get_response}
use spdm_emu.Tdisp.Responder.Cases.{response_rule}

module _ (k : Tdisp) where
  -- The bytes that a response takes: its structure, and the portion behind a report response.
  abbrev pub body_size : Body → ℕ
  body_size (version_rsp count entry) = k.version_rsp_size
  body_size (capabilities_rsp caps) = k.capabilities_rsp_size
  body_size (lock_interface_rsp nonce) = k.lock_interface_rsp_size
  body_size (interface_report_rsp portion remainder bytes) = k.report_rsp_size + portion
  body_size (interface_state_rsp state) = k.state_rsp_size
  body_size start_interface_rsp = k.start_interface_rsp_size
  body_size stop_interface_rsp = k.stop_interface_rsp_size
  body_size (error_rsp code_ extra) = k.error_size

  -- The message type of each response structure.
  abbrev pub body_type : Body → ℕ
  body_type (version_rsp count entry) = k.version
  body_type (capabilities_rsp caps) = k.capabilities
  body_type (lock_interface_rsp nonce) = k.lock_interface
  body_type (interface_report_rsp portion remainder bytes) = k.device_interface_report
  body_type (interface_state_rsp state) = k.device_interface_state
  body_type start_interface_rsp = k.start_interface
  body_type stop_interface_rsp = k.stop_interface
  body_type (error_rsp code_ extra) = k.error

  -- The room that the largest response needs.
  pub record HasRoom (m : ℕ) : Type 0 where
    pub for_version : k.version_rsp_size ≤ m
    pub for_capabilities : k.capabilities_rsp_size ≤ m
    pub for_lock : k.lock_interface_rsp_size ≤ m
    pub for_report : k.report_rsp_size + interface_report_portion_len ≤ m
    pub for_state : k.state_rsp_size ≤ m
    pub for_start : k.start_interface_rsp_size ≤ m
    pub for_stop : k.stop_interface_rsp_size ≤ m
    pub for_error : k.error_size ≤ m

  -- An answer to `r`, whose size was `n`, in a buffer of `m` bytes.
  abbrev pub IsAnswer : Request → ℕ → ℕ → Reply Response → Type 0
  IsAnswer r n m asserted = ⊥
  IsAnswer r n m (fails status) = (status ≡ invalid_msg_size) × (n < k.header_size)
  IsAnswer r n m (replies size rsp) =
      (size ≡ body_size rsp.body)
      × (size ≤ m)
      × (rsp.header.version ≡ r.header.version)
      × (rsp.header.message_type ≡ body_type rsp.body)
      × (rsp.header.interface_id.function_id ≡ r.header.interface_id.function_id)

module _ (k : Tdisp) (s : Interface) (w : Surroundings) (r : Request) (n m : ℕ) where
  -- With room for the largest response no assertion of the responder fails: a request without a
  -- header is refused with INVALID_MSG_SIZE, and any other gets a response that fits the buffer,
  -- whose size is that of its structure and portion, whose message type is that of its structure,
  -- and which carries the version and the function id of the request.
  pub response-IsAnswer : HasRoom k m → IsAnswer k r n m (pci_tdisp_get_response k s w r n m).1
  unfolding open_dispatch
  response-IsAnswer room =
      response_rule k s w r n m (λ p. IsAnswer k r n m p.1) (λ short. (refl, short)) (ground arith)
        (λ t. ground arith) (λ t. ground arith) (λ t. ground arith) (λ t. ground arith)
        (λ t. ground arith) (λ t. ground arith) (λ t. ground arith)

  -- The state that an error response may leave: the context as it was, or, where the nonce could
  -- not be drawn, the context with the new lock parameters.
  abbrev pub Untouched : Interface × Reply Response → Type 0
  Untouched (s', asserted) = Unit
  Untouched (s', fails status) = s' ≡ s
  Untouched (s', replies size rsp) = elim rsp.body [
    | error_rsp code_ extra ↦
        (s' ≡ s)
        ⊎ ((code_ ≡ k.insufficient_entropy)
            × (s' ≡ record s { lock_interface_param = r.lock_interface_param }))
    | _ ↦ Unit
  ]

  -- A request that is answered by an error response, or by none, leaves the interface context as it
  -- was, but for the lock parameters of a LOCK request whose nonce could not be drawn.
  pub response_error_unchanged : Untouched (pci_tdisp_get_response k s w r n m)
  unfolding open_dispatch
  response_error_unchanged =
      response_rule k s w r n m Untouched (λ short. refl) (ground arith) (λ t. ground arith)
        (λ t. ground arith) (λ t. ground arith) (λ t. ground arith) (λ t. ground arith)
        (λ t. ground arith) (λ t. ground arith)
