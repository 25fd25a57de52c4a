-- ===== src/Doe/Unanswered.antt =====
-- The dispatch over the TSP responder of library/cxl_tsp_responder_lib.
use spdm_emu.Prelude.{ℕ, ◌-◌, ◌≡◌, ◌≤◌, ◌<◌, true, false, arith, List, ◌∷◌, none, some, code}
use spdm_emu.Tsp.Messages.{Request, Response, Tsp}
use spdm_emu.Tsp.Device.{Context, Surroundings}
use spdm_emu.Tsp.Responder.{cxl_tsp_get_response, cxl_tsp_get_response_get_version, dispatch}
use spdm_emu.Doe.Vendor.{
  Spdm, VendorRequest, returned, from_reply, answers, Func, Entry, req_header_size, req_payload,
  req_payload_length, matches, wrap, finish, call, look_up, well_formed,
  pci_doe_get_response_spdm_vendor_defined_request,
}
use spdm_emu.Doe.Dispatch.{SpdmLaws}

-- The TSP responder as a vendor handler.
unfoldable pub tsp_func : Tsp → Surroundings → Func Context Request Response
tsp_func t w c session_id r n room =
    let (c', reply) = cxl_tsp_get_response t c w session_id r n room in (c', from_reply room reply)

module _ (t : Tsp) (c : Context) (w : Surroundings) where
  sessionless :
      (r : Request) (n room : ℕ)
      → t.header_size ≤ n
      → r.header.op_code ≡ t.get_target_tsp_version
      → tsp_func t w c none r n room ≡ (c, returned (code t.no_privilege) room none)
  unfolding tsp_func cxl_tsp_get_response dispatch cxl_tsp_get_response_get_version
  sessionless r n room long op = ground arith

module _ (k : Spdm) (laws : SpdmLaws k) (t : Tsp) (c : Context) (w : Surroundings)
    (e : Entry Context Request Response) (es : List (Entry Context Request Response)) where
  -- Where the number NO_PRIVILEGE, returned as a status, is no error of libspdm, a well-formed
  -- request with GET_TARGET_TSP_VERSION outside any session, which the first entry of the table
  -- hands to the TSP responder, changes nothing and is answered by the dispatch with a response
  -- that is as large as the whole buffer, and behind its header nothing that the handler has
  -- written. The sizes of the messages obey `SpdmLaws`.
  pub sessionless_answered :
      (count : ℕ) (r : VendorRequest Request) (n m : ℕ)
      → e.func ≡ some (tsp_func t w)
      → matches k r e ≡ true
      → well_formed k r n ≡ true
      → k.is_error (code t.no_privilege) ≡ false
      → (req_payload k r).header.op_code ≡ t.get_target_tsp_version
      → t.header_size ≤ req_payload_length k r - k.protocol_header_size
      → k.message_header_size ≤ n
      → req_header_size k r ≤ n
      → req_header_size k r < m
      → pci_doe_get_response_spdm_vendor_defined_request k
          (record { table = e ∷ es; count = count })
          c
          none
          r
          n
          m
        ≡ (c, answers m (wrap k r (m - req_header_size k r) none))
  unfolding pci_doe_get_response_spdm_vendor_defined_request look_up call finish
  sessionless_answered count r n m func hit good lax op long long' long'' room = ground (
    arith,
    laws.same_headers,
    laws.same_large_headers,
    sessionless t c w (req_payload k r) (req_payload_length k r - k.protocol_header_size)
        (m - req_header_size k r) long op,
  )
