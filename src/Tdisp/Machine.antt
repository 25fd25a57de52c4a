-- ===== src/Tdisp/Machine.antt =====
-- The TDI state machine that the responder and the device library drive.
use spdm_emu.Prelude.{ℕ, ◌≡◌, ◌≢◌, refl, arith, some, none, Option, Bool, List}
use spdm_emu.Tdisp.Messages.{Request, Tdisp}
use spdm_emu.Tdisp.Device.{Interface, Surroundings, locked, generate_default, generate_report}
use spdm_emu.Tdisp.Responder.{open_dispatch, pci_tdisp_get_response}
use spdm_emu.Tdisp.Responder.Cases.{response_rule}

-- The moves of the TDI state that a request may cause, each with its message type.
pub data Move (k : Tdisp) (r : Request) (s s' : ℕ) : Type 0 where
  stays : s' ≡ s → Move k r s s'
  resets : r.header.message_type ≡ k.get_version → s' ≡ k.config_unlocked → Move k r s s'
  locks :
      r.header.message_type ≡ k.lock_interface_req
      → s ≡ k.config_unlocked
      → s' ≡ k.config_locked
      → Move k r s s'
  starts :
      r.header.message_type ≡ k.start_interface_req
      → s ≡ k.config_locked
      → s' ≡ k.run
      → Move k r s s'
  stops :
      r.header.message_type ≡ k.stop_interface_req
      → s ≢ k.config_unlocked
      → s' ≡ k.config_unlocked
      → Move k r s s'

module _ (k : Tdisp) where
  pub tdi_state-generate_report :
      (s : Interface) (load : Option (List ℕ → ℕ → Bool × List ℕ × ℕ))
      → (generate_report k s load).tdi_state ≡ s.tdi_state
  unfolding generate_report generate_default
  tdi_state-generate_report s none = refl
  tdi_state-generate_report s (some load) = ground arith

  pub id-generate_report :
      (s : Interface) (load : Option (List ℕ → ℕ → Bool × List ℕ × ℕ))
      → (generate_report k s load).interface_id ≡ s.interface_id
  unfolding generate_report generate_default
  id-generate_report s none = refl
  id-generate_report s (some load) = ground arith

  pub nonce-generate_report :
      (s : Interface) (load : Option (List ℕ → ℕ → Bool × List ℕ × ℕ))
      → (generate_report k s load).start_interface_nonce ≡ s.start_interface_nonce
  unfolding generate_report generate_default
  nonce-generate_report s none = refl
  nonce-generate_report s (some load) = ground arith

module _ (k : Tdisp) (s : Interface) (w : Surroundings) (r : Request) (n m : ℕ) where
  -- A request moves the TDI state only as its message type allows: GET_VERSION resets it to
  -- CONFIG_UNLOCKED, LOCK takes CONFIG_UNLOCKED to CONFIG_LOCKED, START takes CONFIG_LOCKED to RUN,
  -- STOP takes any state but CONFIG_UNLOCKED to CONFIG_UNLOCKED, and otherwise it stays.
  pub response-Move : Move k r s.tdi_state (pci_tdisp_get_response k s w r n m).0.tdi_state
  unfolding open_dispatch
  response-Move =
      response_rule k s w r n m (λ p. Move k r s.tdi_state p.0.tdi_state) (λ _. stays refl)
        (stays refl) (λ t. ground arith) (λ t. stays (ground arith))
        (λ t. ground (
          arith,
          tdi_state-generate_report k (locked k s w r.lock_interface_param) w.load_from_json,
        ))
        (λ t. stays (ground arith)) (λ t. stays (ground arith)) (λ t. ground arith)
        (λ t. ground arith)
