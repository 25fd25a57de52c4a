-- ===== src/Tdisp/Handshake.antt =====
-- LOCK, then START: the exchange that brings a TDI to RUN.
use spdm_emu.Prelude.{ℕ, ◌≡◌, ◌≢◌, ◌≤◌, ◌⊎◌, refl, true, arith, List, replies}
use spdm_emu.Tdisp.Messages.{Request, Tdisp, TdispLaws, lock_interface_rsp, start_interface_rsp}
use spdm_emu.Tdisp.Device.{
  Interface, Surroundings, libtdisp_get_interface_context, locked, generate_report,
}
use spdm_emu.Tdisp.Responder.{
  response_header, pci_tdisp_get_response_error, pci_tdisp_get_response,
  pci_tdisp_get_response_lock_interface, pci_tdisp_get_response_start_interface,
}
use spdm_emu.Tdisp.Responder.Replies.{HasRoom}
use spdm_emu.Tdisp.Machine.{tdi_state-generate_report, nonce-generate_report, id-generate_report}

-- A request of the version and for the interface that the context serves.
pub record IsAddressed (k : Tdisp) (s : Interface) (r : Request) : Type 0 where
  pub versioned : r.header.version ≡ k.version_10
  pub known : libtdisp_get_interface_context k s r.header.interface_id ≡ true

module _ (k : Tdisp) (laws : TdispLaws k) (s : Interface) (w : Surroundings) (r : Request)
    (m : ℕ) where
  lock_dispatch :
      r.header.message_type ≡ k.lock_interface_req
      → pci_tdisp_get_response k s w r k.lock_interface_req_size m
        ≡ pci_tdisp_get_response_lock_interface k s w r k.lock_interface_req_size m
  unfolding pci_tdisp_get_response
  lock_dispatch t = ground (arith, laws.types_distinct, laws.header_fits)

  start_dispatch :
      r.header.message_type ≡ k.start_interface_req
      → pci_tdisp_get_response k s w r k.start_interface_req_size m
        ≡ pci_tdisp_get_response_start_interface k s w r k.start_interface_req_size m
  unfolding pci_tdisp_get_response
  start_dispatch t = ground (arith, laws.types_distinct, laws.header_fits)

  -- The context after an accepted LOCK request.
  abbrev pub after_lock : Interface
  after_lock = generate_report k (locked k s w r.lock_interface_param) w.load_from_json

  lock_accepted :
      r.header.message_type ≡ k.lock_interface_req
      → IsAddressed k s r
      → s.tdi_state ≡ k.config_unlocked
      → w.random_ok ≡ true
      → k.lock_interface_rsp_size ≤ m
      → pci_tdisp_get_response k s w r k.lock_interface_req_size m ≡ (
        after_lock,
        replies k.lock_interface_rsp_size (record {
          header = response_header k r.header k.lock_interface;
          body = lock_interface_rsp w.random_bytes;
        }),
      )
  unfolding pci_tdisp_get_response_lock_interface
  lock_accepted t a u ok fits = rw (lock_dispatch t) (ground arith)

  lock-IsAddressed : (q : Request) → IsAddressed k s q → IsAddressed k after_lock q
  unfolding libtdisp_get_interface_context
  lock-IsAddressed q a = record {
    versioned = a.versioned;
    known =
        rw (id-generate_report k (locked k s w r.lock_interface_param) w.load_from_json) a.known;
  }

  start_answered :
      (nonce : List ℕ)
      → s.start_interface_nonce ≡ nonce
      → r.header.message_type ≡ k.start_interface_req
      → IsAddressed k s r
      → s.tdi_state ≡ k.config_locked
      → HasRoom k m
      → let (s', reply) = pci_tdisp_get_response k s w r k.start_interface_req_size m in
        ((r.start_interface_nonce ≡ nonce)
          × (s' ≡ record s { tdi_state = k.run })
          × (reply
              ≡ replies k.start_interface_rsp_size (record {
                header = response_header k r.header k.start_interface;
                body = start_interface_rsp;
              })))
        ⊎ ((r.start_interface_nonce ≢ nonce)
            × (s' ≡ s)
            × (reply ≡ pci_tdisp_get_response_error k r.header k.invalid_nonce 0 m))
  unfolding pci_tdisp_get_response_start_interface
  start_answered nonce e t a l room = rw (start_dispatch t) (
      ground (
        arith,
        laws.mem_equal_iff r.start_interface_nonce s.start_interface_nonce,
        laws.invalid_nonce_ne_success,
        room.for_start,
      ))

-- A LOCK request to an unlocked TDI is answered by the drawn nonce, where it can be drawn, and locks
-- the TDI. A START request to it then takes the TDI to RUN if it presents that nonce, and if not, is
-- refused with INVALID_NONCE and leaves the TDI as it is.
pub lock_then_start :
    (k : Tdisp) (s : Interface) (w w' : Surroundings) (r r' : Request) (m m' : ℕ)
    → TdispLaws k
    → r.header.message_type ≡ k.lock_interface_req
    → r'.header.message_type ≡ k.start_interface_req
    → IsAddressed k s r
    → IsAddressed k s r'
    → s.tdi_state ≡ k.config_unlocked
    → w.random_ok ≡ true
    → HasRoom k m
    → HasRoom k m'
    → let (s', reply) = pci_tdisp_get_response k s w r k.lock_interface_req_size m in
      let (s'', reply') = pci_tdisp_get_response k s' w' r' k.start_interface_req_size m' in
      (reply
        ≡ replies k.lock_interface_rsp_size (record {
          header = response_header k r.header k.lock_interface;
          body = lock_interface_rsp w.random_bytes;
        }))
      × (s'.tdi_state ≡ k.config_locked)
      × (((r'.start_interface_nonce ≡ w.random_bytes)
            × (s'' ≡ record s' { tdi_state = k.run })
            × (reply'
                ≡ replies k.start_interface_rsp_size (record {
                  header = response_header k r'.header k.start_interface;
                  body = start_interface_rsp;
                })))
          ⊎ ((r'.start_interface_nonce ≢ w.random_bytes)
              × (s'' ≡ s')
              × (reply' ≡ pci_tdisp_get_response_error k r'.header k.invalid_nonce 0 m')))
lock_then_start k s w w' r r' m m' laws t t' a a' u ok room room' =
    let g = locked k s w r.lock_interface_param in
    let nonce = nonce-generate_report k g w.load_from_json in
    rw (lock_accepted k laws s w r m t a u ok room.for_lock) (
      refl,
      tdi_state-generate_report k g w.load_from_json,
      start_answered k laws (after_lock k laws s w r m) w' r' m' w.random_bytes nonce t'
          (lock-IsAddressed k laws s w r m r' a') (tdi_state-generate_report k g w.load_from_json)
          room',
    )
