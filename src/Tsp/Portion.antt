-- ===== src/Tsp/Portion.antt =====
-- What GET_TARGET_CONFIGURATION_REPORT answers, for every offset and length.
use spdm_emu.Prelude.{
  ℕ, ◌+◌, ◌-◌, ◌≡◌, ◌≤◌, ◌<◌, ◌⊎◌, arith, List, ltb, if◌then◌else◌, take, drop, set, length,
  length-take, length-drop, length-set, Option, none, some, Reply, asserted, fails, replies, code,
  min,
}
use spdm_emu.Tsp.Messages.{Request, Response, Tsp, get_report_rsp, error_rsp}
use spdm_emu.Tsp.Device.{Context, Surroundings, configuration_report_struct_size}
use spdm_emu.Tsp.Responder.{
  configuration_report_portion_len, open_dispatch, cxl_tsp_get_response_get_configuration_report,
}

-- The bytes of the portion that is due at `offset` to a request for `wanted` bytes.
unfoldable pub report_due : ℕ → ℕ → ℕ
report_due offset wanted =
    min (min wanted configuration_report_portion_len) (configuration_report_struct_size - offset)

due_bytes :
    (report : List ℕ) (offset wanted : ℕ)
    → configuration_report_struct_size ≤ length report
    → length (take (report_due offset wanted) (drop offset (set report 0 1)))
      ≡ report_due offset wanted
unfolding report_due
due_bytes report offset wanted h = omega (
  arith,
  length-take (report_due offset wanted) (drop offset (set report 0 1)),
  length-drop offset (set report 0 1),
  length-set report 0 1,
)

-- The portion as the handler computes it.
due_lem :
    (offset wanted : ℕ)
    → (let length =
          if ltb configuration_report_portion_len wanted
          then configuration_report_portion_len
          else wanted in
        let left = configuration_report_struct_size - offset in
        if ltb left length then left else length)
      ≡ report_due offset wanted
unfolding report_due
due_lem offset wanted = ground arith

due_positive :
    (offset wanted : ℕ)
    → 0 < wanted
    → offset < configuration_report_struct_size
    → 0 < report_due offset wanted
unfolding report_due
due_positive offset wanted h h' = omega arith

due_left :
    (offset wanted : ℕ)
    → offset < configuration_report_struct_size
    → offset
        + report_due offset wanted
        + (configuration_report_struct_size - (report_due offset wanted + offset))
      ≡ configuration_report_struct_size
unfolding report_due
due_left offset wanted h = omega arith

module _ (k : Tsp) (c : Context) (w : Surroundings) (r : Request) (n m : ℕ) where
  abbrev pub IsReportPortion : Reply Response → Type 0
  IsReportPortion asserted = Unit
  IsReportPortion (fails status) = status ≡ code k.no_privilege
  IsReportPortion (replies size rsp) = elim rsp.body [
    | get_report_rsp portion remainder bytes ↦
        (portion ≡ report_due r.offset r.length)
        × (0 < portion)
        × (r.offset + portion + remainder ≡ configuration_report_struct_size)
        × (bytes ≡ take portion (drop r.offset (set c.configuration_report 0 1)))
        × (configuration_report_struct_size ≤ length c.configuration_report
            → length bytes ≡ portion)
    | error_rsp error_code extra ↦
        (error_code ≡ k.invalid_security_state)
        ⊎ (error_code ≡ k.version_mismatch)
        ⊎ (error_code ≡ k.invalid_request)
    | _ ↦ ⊥
  ]

  -- Every response to GET_TARGET_CONFIGURATION_REPORT is an error of one of three kinds or the portion
  -- that is due: not empty, at most 0x200 bytes and what was asked for, the bytes of the report from
  -- the offset on, all of them present when the report fits its array, and with the number of bytes
  -- left. A session that is neither primary nor secondary gets the status NO_PRIVILEGE.
  pub tsp_report-IsPortion :
      (session_id : Option ℕ)
      → IsReportPortion (cxl_tsp_get_response_get_configuration_report k c w session_id r n m).1
  unfolding open_dispatch
  tsp_report-IsPortion none = ground arith
  tsp_report-IsPortion (some id) = rw (due_lem r.offset r.length) (
      ground (
        arith,
        due_bytes c.configuration_report r.offset r.length,
        due_positive r.offset r.length,
        due_left r.offset r.length,
      ))
