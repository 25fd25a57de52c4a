-- ===== src/Tdisp/Admission.antt =====
-- Which requests the responder refuses before the device sees them.
use spdm_emu.Prelude.{
  ℕ, ◌≡◌, ◌==◌, ◌!=◌, ltb, if◌then◌else◌, arith, List, [], ◌∷◌, Option, none, some, Reply, fails,
  invalid_msg_size,
}
use spdm_emu.Tdisp.Messages.{Request, Response, Tdisp}
use spdm_emu.Tdisp.Device.{Interface, Surroundings}
use spdm_emu.Tdisp.Responder.{
  pci_tdisp_get_response_version, pci_tdisp_get_response_capabilities,
  pci_tdisp_get_response_lock_interface, pci_tdisp_get_response_interface_report,
  pci_tdisp_get_response_interface_state, pci_tdisp_get_response_start_interface,
  pci_tdisp_get_response_stop_interface, open_dispatch, pci_tdisp_get_response,
  pci_tdisp_get_response_error,
}

module _ (k : Tdisp) where
  -- The message types that the responder knows, each with the size of its request.
  abbrev pub request_sizes : List (ℕ × ℕ)
  request_sizes =
      (k.get_version, k.get_version_size)
      ∷ (k.get_capabilities, k.get_capabilities_size)
      ∷ (k.lock_interface_req, k.lock_interface_req_size)
      ∷ (k.get_device_interface_report, k.get_report_size)
      ∷ (k.get_device_interface_state, k.get_state_size)
      ∷ (k.start_interface_req, k.start_interface_req_size)
      ∷ (k.stop_interface_req, k.stop_interface_req_size)
      ∷ []

  abbrev pub size_in : List (ℕ × ℕ) → ℕ → Option ℕ
  size_in [] message_type = none
  size_in ((t, size) ∷ table) message_type =
      if message_type == t then some size else size_in table message_type

  -- The answer to a request of the wrong size or version.
  pub misfit : Request → ℕ → ℕ → ℕ → Option (Reply Response)
  misfit r n m size =
      if n != size
      then some (pci_tdisp_get_response_error k r.header k.invalid_request 0 m)
      else if r.header.version != k.version_10
      then some (pci_tdisp_get_response_error k r.header k.version_mismatch 0 m)
      else none

  -- The answer to a request that is not passed to the device.
  unfoldable pub refusal : Request → ℕ → ℕ → Option (Reply Response)
  refusal r n m =
      if ltb n k.header_size
      then some (fails invalid_msg_size)
      else elim (size_in request_sizes r.header.message_type) [
        | none ↦
            some (
              pci_tdisp_get_response_error k r.header k.unsupported_request r.header.message_type m)
        | some size ↦ misfit r n m size
      ]

module _ (k : Tdisp) (s : Interface) (w : Surroundings) (r : Request) (n m : ℕ) where
  -- Each handler answers a request of the wrong size or version so, and leaves the context.
  record Misfits (reply : Reply Response) : Type 0 where
    version :
        misfit k r n m k.get_version_size ≡ some reply
        → pci_tdisp_get_response_version k s w r n m ≡ (s, reply)
    capabilities :
        misfit k r n m k.get_capabilities_size ≡ some reply
        → pci_tdisp_get_response_capabilities k s w r n m ≡ (s, reply)
    lock_interface :
        misfit k r n m k.lock_interface_req_size ≡ some reply
        → pci_tdisp_get_response_lock_interface k s w r n m ≡ (s, reply)
    interface_report :
        misfit k r n m k.get_report_size ≡ some reply
        → pci_tdisp_get_response_interface_report k s w r n m ≡ (s, reply)
    interface_state :
        misfit k r n m k.get_state_size ≡ some reply
        → pci_tdisp_get_response_interface_state k s w r n m ≡ (s, reply)
    start_interface :
        misfit k r n m k.start_interface_req_size ≡ some reply
        → pci_tdisp_get_response_start_interface k s w r n m ≡ (s, reply)
    stop_interface :
        misfit k r n m k.stop_interface_req_size ≡ some reply
        → pci_tdisp_get_response_stop_interface k s w r n m ≡ (s, reply)

  misfits : (reply : Reply Response) → Misfits reply
  unfolding misfit open_dispatch
  misfits reply = record {
    version = λ h. ground arith;
    capabilities = λ h. ground arith;
    lock_interface = λ h. ground arith;
    interface_report = λ h. ground arith;
    interface_state = λ h. ground arith;
    start_interface = λ h. ground arith;
    stop_interface = λ h. ground arith;
  }

  -- A request shorter than the header is refused with INVALID_MSG_SIZE, one of an unknown message
  -- type by the error UNSUPPORTED_REQUEST with that type, one whose size is not that of its type by
  -- INVALID_REQUEST, and one of another version by VERSION_MISMATCH, in this order; the context
  -- stays as it was.
  pub response_refused :
      (reply : Reply Response)
      → refusal k r n m ≡ some reply
      → pci_tdisp_get_response k s w r n m ≡ (s, reply)
  unfolding pci_tdisp_get_response refusal
  response_refused reply h = ground (
    arith,
    (misfits reply).version,
    (misfits reply).capabilities,
    (misfits reply).lock_interface,
    (misfits reply).interface_report,
    (misfits reply).interface_state,
    (misfits reply).start_interface,
    (misfits reply).stop_interface,
  )
