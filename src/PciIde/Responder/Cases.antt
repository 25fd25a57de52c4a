-- ===== src/PciIde/Responder/Cases.antt =====
-- A case rule for pci_ide_km_get_response: what holds of each handler for its own requests, of a
-- request without a header and of an unknown object id holds of the dispatch.
use spdm_emu.Prelude.{
  ℕ, ◌≡◌, ◌≢◌, ◌<◌, arith, Reply, fails, invalid_msg_size, unsupported_cap, ltb, ◌==◌, Bool-cases,
  inl, inr,
}
use spdm_emu.PciIde.Messages.{Request, Response, IdeKm}
use spdm_emu.PciIde.Device.{Port}
use spdm_emu.PciIde.Responder.{
  pci_ide_km_get_response, pci_ide_km_get_response_query, pci_ide_km_get_response_key_prog,
  pci_ide_km_get_response_key_set_go, pci_ide_km_get_response_key_set_stop,
}

module _ {ℓ} (k : IdeKm) (c : Port) (r : Request) (n m : ℕ)
    (P : Port × Request × Reply Response → Type ℓ) where
  pub response_rule :
      (n < k.header_size → P (c, r, fails invalid_msg_size))
      → (r.object_id ≢ k.query
          → r.object_id ≢ k.key_prog
          → r.object_id ≢ k.k_set_go
          → r.object_id ≢ k.k_set_stop
          → P (c, r, fails unsupported_cap))
      → (r.object_id ≡ k.query → P (pci_ide_km_get_response_query k c r n m))
      → (r.object_id ≡ k.key_prog → P (pci_ide_km_get_response_key_prog k c r n m))
      → (r.object_id ≡ k.k_set_go → P (pci_ide_km_get_response_key_set_go k c r n m))
      → (r.object_id ≡ k.k_set_stop → P (pci_ide_km_get_response_key_set_stop k c r n m))
      → P (pci_ide_km_get_response k c r n m)
  unfolding pci_ide_km_get_response
  response_rule short unknown query prog go stop = elim (Bool-cases (ltb n k.header_size)) [
    | inl e ↦ rw e (short (ground arith))
    | inr e ↦ elim (Bool-cases (r.object_id == k.query)) [
      | inl q ↦ rw (e, q) (query (ground arith))
      | inr q ↦ elim (Bool-cases (r.object_id == k.key_prog)) [
        | inl p ↦ rw (e, q, p) (prog (ground arith))
        | inr p ↦ elim (Bool-cases (r.object_id == k.k_set_go)) [
          | inl g ↦ rw (e, q, p, g) (go (ground arith))
          | inr g ↦ elim (Bool-cases (r.object_id == k.k_set_stop)) [
            | inl s ↦ rw (e, q, p, g, s) (stop (ground arith))
            | inr s ↦
                rw (e, q, p, g, s)
                  (unknown (ground arith) (ground arith) (ground arith) (ground arith))
          ]
        ]
      ]
    ]
  ]
