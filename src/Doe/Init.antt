-- ===== src/Doe/Init.antt =====
-- pci_doe_init_responder of spdm_emu/spdm_responder_emu/spdm_responder_pci_doe.c: the responder
-- registers its four vendor handlers. Their numbers are declared by libspdm: they are the fields of
-- `Protocols`.
use spdm_emu.Prelude.{
  ℕ, ◌≡◌, ◌≢◌, ◌==◌, false, arith, replicate, Option, none, some, Status, success, unsupported_cap,
  if◌then◌else◌,
}
use spdm_emu.Doe.Vendor.{
  Spdm, VendorRequest, Outcome, refuses, Func, Registry, req_protocol_id, matches, call, look_up,
  no_registry, pci_doe_register_vendor_response_func,
}

pub record Protocols : Type 0 where
  pub vendor_pcisig : ℕ
  pub vendor_cxl : ℕ
  pub pci_ide_km : ℕ
  pub pci_tdisp : ℕ
  pub cxl_ide_km : ℕ
  pub cxl_tsp : ℕ

module _ {ℓ} {S A B : Type ℓ} (k : Spdm) (v : Protocols)
    (ide_km tdisp cxl_km tsp : Func S A B) where
  -- One call with the check behind it; `none` is a failed assertion.
  unfoldable pub register_next :
      Registry S A B × Option Status → ℕ → ℕ → Func S A B → Registry S A B × Option Status
  register_next (g, none) vendor_id protocol_id func = (g, none)
  register_next (g, some status) vendor_id protocol_id func =
      if k.is_error status
      then (g, some status)
      else pci_doe_register_vendor_response_func k g k.registry_pcisig vendor_id protocol_id
          (some func)

  unfoldable pub pci_doe_init_responder : Registry S A B → Registry S A B × Option Status
  unfolding register_next
  pci_doe_init_responder g =
      let first =
        pci_doe_register_vendor_response_func k g k.registry_pcisig v.vendor_pcisig v.pci_ide_km
          (some ide_km) in
      let second = register_next first v.vendor_pcisig v.pci_tdisp tdisp in
      let third = register_next second v.vendor_cxl v.cxl_ide_km cxl_km in
      register_next third v.vendor_cxl v.cxl_tsp tsp

  -- The handler that a vendor and a protocol name.
  abbrev pub handler : ℕ → ℕ → Option (Func S A B)
  handler vendor_id protocol_id =
      if vendor_id == v.vendor_pcisig
      then if protocol_id == v.pci_ide_km
        then some ide_km
        else if protocol_id == v.pci_tdisp
        then some tdisp
        else none
      else if vendor_id == v.vendor_cxl
      then if protocol_id == v.cxl_ide_km
        then some cxl_km
        else if protocol_id == v.cxl_tsp
        then some tsp
        else none
      else none

  abbrev pub deliver : VendorRequest A → S → Option ℕ → ℕ → Option (Func S A B) → S × Outcome B
  deliver r s session_id room none = (s, refuses unsupported_cap)
  deliver r s session_id room (some func) = call k r s session_id room (some func)

  -- pci_doe_init_responder succeeds on the empty table, and the table then hands each PCI-SIG request
  -- to the handler that its vendor and its protocol name, and refuses any other: the two vendors
  -- differ, and success is no error.
  pub init_responder-deliver :
      (r : VendorRequest A) (s : S) (session_id : Option ℕ) (room : ℕ)
      → v.vendor_pcisig ≢ v.vendor_cxl
      → k.is_error success ≡ false
      → r.standard_id ≡ k.registry_pcisig
      → ((pci_doe_init_responder no_registry).1 ≡ some success)
        × (look_up k (pci_doe_init_responder no_registry).0.table r s session_id room
            ≡ deliver r s session_id room (handler r.vendor_id (req_protocol_id k r)))
  unfolding pci_doe_init_responder pci_doe_register_vendor_response_func no_registry replicate
      look_up matches
  init_responder-deliver r s session_id room apart fine standard =
      (ground (arith, fine), ground (arith, fine, standard, apart))
