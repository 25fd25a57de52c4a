-- ===== src/Tdisp/Trace.antt =====
-- A history of requests, as the DOE mailbox hands them to pci_tdisp_get_response one by one.
use spdm_emu.Prelude.{ℕ, List, [], ◌∷◌, Reply, replies}
use spdm_emu.Tdisp.Messages.{Request, Body, Response, Tdisp, version_rsp, lock_interface_rsp}
use spdm_emu.Tdisp.Device.{Interface, Surroundings}
use spdm_emu.Tdisp.Responder.{pci_tdisp_get_response}

pub record Call : Type 0 where
  pub surroundings : Surroundings
  pub request : Request
  pub request_size : ℕ
  pub response_size : ℕ

-- The nonce that an answer hands out.
abbrev pub handed_out : Reply Response → List (List ℕ)
handed_out (replies size rsp) = of_body rsp.body
  where
    of_body : Body → List (List ℕ)
    of_body (version_rsp count entry) = []
    of_body (lock_interface_rsp nonce) = nonce ∷ []
    of_body _ = []
handed_out _ = []

module _ (k : Tdisp) where
  abbrev pub step : Interface → Call → Interface × Reply Response
  step s c = pci_tdisp_get_response k s c.surroundings c.request c.request_size c.response_size

  -- The context after a history.
  unfoldable pub run : Interface → List Call → Interface
  run s [] = s
  run s (c ∷ cs) = run (step s c).0 cs
