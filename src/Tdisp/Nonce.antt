-- ===== src/Tdisp/Nonce.antt =====
-- How a TDI gets to RUN, over a history of requests.
use spdm_emu.Prelude.{ℕ, ◌≡◌, ◌≢◌, ◌⊎◌, arith, List, [], ◌∷◌, Reply}
use spdm_emu.Tdisp.Messages.{Request, Response, Tdisp, TdispLaws}
use spdm_emu.Tdisp.Device.{Interface, Surroundings, locked}
use spdm_emu.Tdisp.Responder.{open_dispatch, pci_tdisp_get_response}
use spdm_emu.Tdisp.Responder.Cases.{response_rule}
use spdm_emu.Tdisp.Machine.{tdi_state-generate_report, nonce-generate_report}
use spdm_emu.Tdisp.Trace.{Call, handed_out, step, run}

-- Some START request of the history presents `nonce`.
abbrev pub Presents : (k : Tdisp) → List Call → List ℕ → Type 0
Presents k [] nonce = ⊥
Presents k (c ∷ cs) nonce =
    ((c.request.header.message_type ≡ k.start_interface_req)
      × (c.request.start_interface_nonce ≡ nonce))
    ⊎ Presents k cs nonce

-- Some LOCK response of the history from `s` hands out `nonce`, and a later START request presents it.
abbrev pub HandsOutThenPresents : (k : Tdisp) → Interface → List Call → List ℕ → Type 0
HandsOutThenPresents k s [] nonce = ⊥
HandsOutThenPresents k s (c ∷ cs) nonce =
    ((handed_out (step k s c).1 ≡ nonce ∷ []) × Presents k cs nonce)
    ⊎ HandsOutThenPresents k (step k s c).0 cs nonce

module _ (k : Tdisp) (s : Interface) (w : Surroundings) (r : Request) (n m : ℕ) where
  -- After a request the TDI is unlocked, or this request has locked it and handed out its nonce, or
  -- the TDI had that nonce and was not unlocked before.
  abbrev Keyed : Interface × Reply Response → Type 0
  Keyed (s', reply) =
      (s'.tdi_state ≡ k.config_unlocked)
      ⊎ ((handed_out reply ≡ s'.start_interface_nonce ∷ []) × (s'.tdi_state ≡ k.config_locked))
      ⊎ ((s'.start_interface_nonce ≡ s.start_interface_nonce) × (s.tdi_state ≢ k.config_unlocked))

  -- If the TDI runs after a request, the request was a START with its nonce, or it ran before.
  abbrev Started : Interface × Reply Response → Type 0
  Started (s', reply) =
      s'.tdi_state ≡ k.run
      → ((r.header.message_type ≡ k.start_interface_req)
          × (r.start_interface_nonce ≡ s'.start_interface_nonce))
        ⊎ (s.tdi_state ≡ k.run)

  response-Keyed : TdispLaws k → Keyed (pci_tdisp_get_response k s w r n m)
  unfolding open_dispatch
  response-Keyed laws =
      response_rule k s w r n m Keyed (λ short. ground arith) (ground arith) (λ t. ground arith)
        (λ t. ground arith)
        (λ t. ground (
          arith,
          tdi_state-generate_report k (locked k s w r.lock_interface_param) w.load_from_json,
          nonce-generate_report k (locked k s w r.lock_interface_param) w.load_from_json,
        ))
        (λ t. ground arith) (λ t. ground arith) (λ t. ground (arith, laws.unlocked_ne_locked))
        (λ t. ground arith)

  response-Started : TdispLaws k → Started (pci_tdisp_get_response k s w r n m)
  unfolding open_dispatch
  response-Started laws =
      response_rule k s w r n m Started (λ short. ground arith) (ground arith) (λ t. ground arith)
        (λ t. ground arith)
        (λ t. ground (
          arith,
          tdi_state-generate_report k (locked k s w r.lock_interface_param) w.load_from_json,
          nonce-generate_report k (locked k s w r.lock_interface_param) w.load_from_json,
        ))
        (λ t. ground arith) (λ t. ground arith)
        (λ t. ground (arith, laws.mem_equal_iff r.start_interface_nonce s.start_interface_nonce))
        (λ t. ground arith)

module _ (k : Tdisp) (laws : TdispLaws k) where
  chain :
      (s : Interface) (cs : List Call)
      → let x = (run k s cs).start_interface_nonce in
        (run k s cs).tdi_state ≡ k.run
        → HandsOutThenPresents k s cs x
          ⊎ ((s.tdi_state ≢ k.config_unlocked)
              × (x ≡ s.start_interface_nonce)
              × (Presents k cs x ⊎ (s.tdi_state ≡ k.run)))
  unfolding run
  chain s [] h = ground (arith, laws.unlocked_ne_run)
  chain s (c ∷ cs) h =
      let s' = (step k s c).0 in
      ground (
        arith,
        chain s' cs h,
        response-Keyed k s c.surroundings c.request c.request_size c.response_size laws,
        response-Started k s c.surroundings c.request c.request_size c.response_size laws,
        laws.locked_ne_run,
      )

  -- A TDI that was unlocked and runs after a history of requests got there with its nonce: some
  -- LOCK response of the history handed the nonce out, and a later START request presented it.
  pub run_needs_nonce :
      (s : Interface) (cs : List Call)
      → s.tdi_state ≡ k.config_unlocked
      → (run k s cs).tdi_state ≡ k.run
      → HandsOutThenPresents k s cs (run k s cs).start_interface_nonce
  run_needs_nonce s cs u h = ground (arith, chain s cs h)
