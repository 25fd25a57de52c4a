-- ===== src/Tdisp/Portion.antt =====
-- What GET_DEVICE_INTERFACE_REPORT answers, for every offset and length.
use spdm_emu.Prelude.{
  ℕ, ◌+◌, ◌-◌, ◌≡◌, ◌≤◌, ◌<◌, ◌⊎◌, true, arith, take, drop, length, length-take, length-drop, Reply,
  asserted, fails, replies, min,
}
use spdm_emu.Tdisp.Messages.{Request, Response, Tdisp, TdispLaws, interface_report_rsp, error_rsp}
use spdm_emu.Tdisp.Device.{Interface, Surroundings, libtdisp_get_interface_context}
use spdm_emu.Tdisp.Responder.{
  interface_report_portion_len, open_dispatch, response_header,
  pci_tdisp_get_response_interface_report, pci_tdisp_get_response,
}

-- The bytes of the portion that is due at `offset` to a request for `wanted` bytes.
abbrev pub due : Interface → ℕ → ℕ → ℕ
due s offset wanted =
    min (min wanted interface_report_portion_len) (s.interface_report_size - offset)

module _ (k : Tdisp) (s : Interface) (w : Surroundings) (r : Request) (n m : ℕ) where
  abbrev pub IsPortion : Reply Response → Type 0
  IsPortion asserted = Unit
  IsPortion (fails status) = ⊥
  IsPortion (replies size rsp) = elim rsp.body [
    | interface_report_rsp portion remainder bytes ↦
        (portion ≡ due s r.offset r.length)
        × (0 < portion)
        × (r.offset + portion + remainder ≡ s.interface_report_size)
        × (bytes ≡ take portion (drop r.offset s.interface_report))
        × (s.interface_report_size ≤ length s.interface_report → length bytes ≡ portion)
    | error_rsp code extra ↦
        (code ≡ k.invalid_interface) ⊎ (code ≡ k.version_mismatch) ⊎ (code ≡ k.invalid_request)
    | _ ↦ ⊥
  ]

  -- Every response to GET_DEVICE_INTERFACE_REPORT is an error of one of three kinds or the portion that
  -- is due: not empty, the bytes of the report from the offset on, all of them present when the report
  -- fits its array, and offset, portion and remainder add up to the size of the report.
  pub report-IsPortion : IsPortion (pci_tdisp_get_response_interface_report k s w r n m).1
  unfolding open_dispatch
  report-IsPortion = ground (
    arith,
    length-take (due s r.offset r.length) (drop r.offset s.interface_report),
    length-drop r.offset s.interface_report,
  )

-- The request that a report handler accepts for the interface of the context.
pub record Asks (k : Tdisp) (s : Interface) (r : Request) (m : ℕ) : Type 0 where
  pub typed : r.header.message_type ≡ k.get_device_interface_report
  pub versioned : r.header.version ≡ k.version_10
  pub known : libtdisp_get_interface_context k s r.header.interface_id ≡ true
  pub wants : 0 < r.length
  pub inside : r.offset < s.interface_report_size
  pub room : k.report_rsp_size + interface_report_portion_len ≤ m

module _ (k : Tdisp) (laws : TdispLaws k) (s : Interface) (w : Surroundings) (r : Request) (m : ℕ)
    (asks : Asks k s r m) where
  report_dispatch :
      pci_tdisp_get_response k s w r k.get_report_size m
      ≡ pci_tdisp_get_response_interface_report k s w r k.get_report_size m
  unfolding pci_tdisp_get_response
  report_dispatch = ground (arith, laws.types_distinct, laws.header_fits)

  -- A well-formed request below the end of the report is answered by the portion that is due, and
  -- the context stays.
  pub response_portion :
      let portion = due s r.offset r.length in
      pci_tdisp_get_response k s w r k.get_report_size m ≡ (
        s,
        replies (k.report_rsp_size + portion) (record {
          header = response_header k r.header k.device_interface_report;
          body =
              interface_report_rsp portion
                (s.interface_report_size - (portion + r.offset))
                (take portion (drop r.offset s.interface_report));
        }),
      )
  unfolding pci_tdisp_get_response_interface_report
  response_portion = rw report_dispatch (ground arith)
