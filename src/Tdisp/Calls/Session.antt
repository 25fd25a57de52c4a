-- ===== src/Tdisp/Calls/Session.antt =====
-- The requester brings a TDI from unlocked to running, and stops it, with the responder for a peer.
use spdm_emu.Prelude.{ℕ, ◌≡◌, inl, inr, refl, true, arith, List, Reply, replies, Status, success}
use spdm_emu.Tdisp.Messages.{
  InterfaceId, Request, Response, Body, Tdisp, TdispLaws, lock_interface_rsp, start_interface_rsp,
}
use spdm_emu.Tdisp.Device.{Interface, Surroundings, libtdisp_get_interface_context}
use spdm_emu.Tdisp.Responder.{response_header, pci_tdisp_get_response}
use spdm_emu.Tdisp.Responder.Replies.{HasRoom}
use spdm_emu.Tdisp.Requester.{received}
use spdm_emu.Tdisp.Reassembly.{deliver, responder}
use spdm_emu.Tdisp.Handshake.{lock_then_start}
use spdm_emu.Tdisp.Calls.{
  Misread, plain_request, response_check, on_reply, nonce_of, pci_tdisp_lock_interface,
  pci_tdisp_start_interface,
}

delivered :
    (lost : Status) (p : Interface × Reply Response) (size : ℕ) (rsp : Response)
    → p.1 ≡ replies size rsp
    → deliver lost p ≡ (p.0, received size rsp)
delivered lost (s, reply) size rsp e = rw e refl

module _ (k : Tdisp) (w : Surroundings) (lost : Status) (room : ℕ) where
  served :
      (s : Interface) (q : Request) (n size : ℕ) (rsp : Response)
      → (pci_tdisp_get_response k s w q n room).1 ≡ replies size rsp
      → responder k w lost room s q n
        ≡ ((pci_tdisp_get_response k s w q n room).0, received size rsp)
  unfolding responder
  served s q n size rsp e = delivered lost (pci_tdisp_get_response k s w q n room) size rsp e

  -- A response with the header of the responder passes the checks.
  on_reply-accepted :
      {A : Type 0} (old : A) (read : Body → A) (size message_type : ℕ) (q : Request) (body : Body)
      → on_reply k old read size message_type q
          (received size (record { header = response_header k q.header message_type; body = body }))
        ≡ (success, read body)
  unfolding on_reply response_check response_header
  on_reply-accepted old read size message_type q body =
      let passes : response_check k size message_type q size
            (response_header k q.header message_type)
          ≡ success =
        ground arith in
      rw (passes, on_reply) refl

  module _ (v : Misread) (id : InterfaceId) (s : Interface) where
    -- The two requests.
    abbrev lock_request : List ℕ → Request
    lock_request param = record (plain_request k k.lock_interface_req id) {
      lock_interface_param = param;
    }

    abbrev start_request : List ℕ → Request
    start_request nonce = record (plain_request k k.start_interface_req id) {
      start_interface_nonce = nonce;
    }

    lock_interface_lem :
        (param old nonce : List ℕ)
        → (pci_tdisp_get_response k s w (lock_request param) k.lock_interface_req_size room).1
          ≡ replies k.lock_interface_rsp_size (record {
            header = response_header k (lock_request param).header k.lock_interface;
            body = lock_interface_rsp nonce;
          })
        → pci_tdisp_lock_interface k v (responder k w lost room) id s param old ≡ (
          (pci_tdisp_get_response k s w (lock_request param) k.lock_interface_req_size room).0,
          success,
          nonce,
        )
    unfolding pci_tdisp_lock_interface nonce_of
    lock_interface_lem param old nonce e =
        rw
          (
            served s (lock_request param) k.lock_interface_req_size k.lock_interface_rsp_size
                (record {
                  header = response_header k (lock_request param).header k.lock_interface;
                  body = lock_interface_rsp nonce;
                })
                e,
            on_reply-accepted old (nonce_of v) k.lock_interface_rsp_size k.lock_interface
                (lock_request param) (lock_interface_rsp nonce),
          )
          refl

    start_interface_lem :
        (nonce : List ℕ)
        → (pci_tdisp_get_response k s w (start_request nonce) k.start_interface_req_size room).1
          ≡ replies k.start_interface_rsp_size (record {
            header = response_header k (start_request nonce).header k.start_interface;
            body = start_interface_rsp;
          })
        → pci_tdisp_start_interface k v (responder k w lost room) id s nonce ≡ (
          (pci_tdisp_get_response k s w (start_request nonce) k.start_interface_req_size room).0,
          success,
        )
    unfolding pci_tdisp_start_interface
    start_interface_lem nonce e =
        rw
          (
            served s (start_request nonce) k.start_interface_req_size k.start_interface_rsp_size
                (record {
                  header = response_header k (start_request nonce).header k.start_interface;
                  body = start_interface_rsp;
                })
                e,
            on_reply-accepted tt (λ _. tt) k.start_interface_rsp_size k.start_interface
                (start_request nonce) start_interface_rsp,
          )
          refl

-- The requester's LOCK of an unlocked TDI, where a nonce can be drawn, succeeds against the responder
-- and brings the nonce that was drawn; its START with that nonce succeeds and the TDI runs.
pub interface_started :
    (k : Tdisp) (v : Misread) (w : Surroundings) (lost : Status) (room : ℕ) (id : InterfaceId)
    (s : Interface) (param old : List ℕ)
    → TdispLaws k
    → HasRoom k room
    → libtdisp_get_interface_context k s
        (plain_request k k.lock_interface_req id).header.interface_id
      ≡ true
    → s.tdi_state ≡ k.config_unlocked
    → w.random_ok ≡ true
    → let (s', locked, nonce) =
        pci_tdisp_lock_interface k v (responder k w lost room) id s param old in
      let (s'', started) = pci_tdisp_start_interface k v (responder k w lost room) id s' nonce in
      (locked ≡ success)
      × (nonce ≡ w.random_bytes)
      × (s'.tdi_state ≡ k.config_locked)
      × (started ≡ success)
      × (s''.tdi_state ≡ k.run)
unfolding plain_request
interface_started k v w lost room id s param old laws roomy known unlocked drawn =
    let r = lock_request k w lost room v id s param in
    let r' = start_request k w lost room v id s w.random_bytes in
    let h =
      lock_then_start k s w w r r' room room laws refl refl
        (record { versioned = refl; known = known }) (record { versioned = refl; known = known })
        unlocked drawn roomy roomy in
    let s' = (pci_tdisp_get_response k s w r k.lock_interface_req_size room).0 in
    rw (lock_interface_lem k w lost room v id s param old w.random_bytes h.0) (elim h.2 [
      | inl (n, state, reply) ↦
          rw (start_interface_lem k w lost room v id s' w.random_bytes reply, state)
            (refl, refl, h.1, refl, refl)
      | inr (other, state, reply) ↦ absurd (other refl)
    ])
