-- ===== src/Tdisp/Stall.antt =====
-- The report loop of the requester against a peer that sends no bytes.
use spdm_emu.Prelude.{ℕ, zero, suc, ◌≡◌, ◌<◌, ◌≤◌, ◌^◌, refl, arith, List, [], inr}
use spdm_emu.Tdisp.Messages.{InterfaceId, Request, Tdisp, interface_report_rsp}
use spdm_emu.Tdisp.Responder.{response_header}
use spdm_emu.Tdisp.Requester.{
  resume-inr, on_answer, Received, received, out_of_fuel, Progress, report_request, advance,
  get_interface_report_loop, pci_tdisp_get_interface_report,
}

module _ (k : Tdisp) (remaining : ℕ) where
  -- A well-formed answer with an empty portion and `remaining` bytes still to come.
  abbrev pub empty_portion : Request → Received
  empty_portion q = received k.report_rsp_size (record {
    header = response_header k q.header k.device_interface_report;
    body = interface_report_rsp 0 remaining [];
  })

module _ (k : Tdisp) {P : Type 0} (send : P → Request → ℕ → P × Received) (id : InterfaceId)
    (size remaining : ℕ)
    (stalls : (peer : P) (q : Request) (n : ℕ)
      → send peer q n ≡ (peer, empty_portion k remaining q))
    (some_left : 0 < remaining) (announced : remaining ≤ size) (word : remaining < 2 ^ 16) where
  goes_on :
      (p : Progress)
      → p.offset ≡ 0
      → (p' : Progress) × (p'.offset ≡ 0)
        × (on_answer k size p
              (report_request k id p)
              (empty_portion k remaining (report_request k id p))
            ≡ inr p')
  unfolding on_answer report_request response_header
  goes_on p e = (
    advance k p (record { portion_length = 0; remainder_length = remaining; report = [] }),
    omega arith,
    ground arith,
  )

  never_ends :
      (fuel : ℕ) (peer : P) (p : Progress)
      → p.offset ≡ 0
      → get_interface_report_loop k send id size fuel peer p ≡ (peer, out_of_fuel)
  unfolding get_interface_report_loop
  never_ends zero peer p e = refl
  never_ends (suc fuel) peer p e =
      let (p', e', next) = goes_on p e in
      rw (stalls peer (report_request k id p) k.get_report_size)
        (rw (next, resume-inr) (never_ends fuel peer p' e'))

  -- A peer that answers every report request with an empty portion and a non-zero remainder, which
  -- fits the caller's buffer, keeps the requester in its loop: no number of rounds ends it.
  pub interface_report_never_ends :
      (fuel : ℕ) (peer : P) (buffer : List ℕ)
      → pci_tdisp_get_interface_report k send id size fuel peer buffer ≡ (peer, out_of_fuel)
  unfolding pci_tdisp_get_interface_report
  interface_report_never_ends fuel peer buffer = never_ends fuel peer _ refl
