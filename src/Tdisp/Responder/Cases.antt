-- ===== src/Tdisp/Responder/Cases.antt =====
-- A case rule for pci_tdisp_get_response: what holds of each handler, of the error response for an
-- unknown message type and of a request without a header holds of the dispatch.
use spdm_emu.Prelude.{
  ℕ, ◌≡◌, ◌<◌, Reply, fails, invalid_msg_size, ltb, ◌==◌, Bool-cases, inl, inr, List, [], ◌∷◌,
  arith,
}
use spdm_emu.Tdisp.Messages.{Request, Response, Tdisp}
use spdm_emu.Tdisp.Device.{Interface, Surroundings}
use spdm_emu.Tdisp.Responder.{
  Handler, dispatch, m_pci_tdisp_dispatch, pci_tdisp_get_response, pci_tdisp_get_response_error,
  pci_tdisp_get_response_version, pci_tdisp_get_response_capabilities,
  pci_tdisp_get_response_lock_interface, pci_tdisp_get_response_interface_report,
  pci_tdisp_get_response_interface_state, pci_tdisp_get_response_start_interface,
  pci_tdisp_get_response_stop_interface,
}

module _ {ℓ} (k : Tdisp) (s : Interface) (w : Surroundings) (r : Request) (n m : ℕ)
    (P : Interface × Reply Response → Type ℓ) where
  Holds : List (ℕ × Handler k) → Type ℓ
  Holds [] = Unit
  Holds ((t, f) ∷ table) = (r.header.message_type ≡ t → P (f s w r n m)) × Holds table

  dispatch_rule :
      (table : List (ℕ × Handler k))
      → P (s, pci_tdisp_get_response_error k r.header k.unsupported_request r.header.message_type m)
      → Holds table
      → P (dispatch k table s w r n m)
  unfolding dispatch Holds
  dispatch_rule [] e h = e
  dispatch_rule ((t, f) ∷ table) e h = elim (Bool-cases (r.header.message_type == t)) [
    | inl c ↦ rw c (h.0 (ground arith))
    | inr c ↦ rw c (dispatch_rule table e h.1)
  ]

  pub response_rule :
      (n < k.header_size → P (s, fails invalid_msg_size))
      → P (s, pci_tdisp_get_response_error k r.header k.unsupported_request r.header.message_type m)
      → (r.header.message_type ≡ k.get_version → P (pci_tdisp_get_response_version k s w r n m))
      → (r.header.message_type ≡ k.get_capabilities
          → P (pci_tdisp_get_response_capabilities k s w r n m))
      → (r.header.message_type ≡ k.lock_interface_req
          → P (pci_tdisp_get_response_lock_interface k s w r n m))
      → (r.header.message_type ≡ k.get_device_interface_report
          → P (pci_tdisp_get_response_interface_report k s w r n m))
      → (r.header.message_type ≡ k.get_device_interface_state
          → P (pci_tdisp_get_response_interface_state k s w r n m))
      → (r.header.message_type ≡ k.start_interface_req
          → P (pci_tdisp_get_response_start_interface k s w r n m))
      → (r.header.message_type ≡ k.stop_interface_req
          → P (pci_tdisp_get_response_stop_interface k s w r n m))
      → P (pci_tdisp_get_response k s w r n m)
  unfolding pci_tdisp_get_response Holds
  response_rule short e a b c d f g h = elim (Bool-cases (ltb n k.header_size)) [
    | inl p ↦ rw p (short (ground arith))
    | inr p ↦ rw p (dispatch_rule (m_pci_tdisp_dispatch k) e (a, (b, (c, (d, (f, (g, (h, tt))))))))
  ]
