-- ===== src/Tsp/Report.antt =====
-- library/cxl_tsp_requester_lib/cxl_tsp_req_get_configuration_report.c: the loop that collects the
-- configuration report portion by portion. What cxl_tsp_send_receive_data does with a request is
-- the parameter `send`, over a state of the peer. The variables of the rounds and the ends are those
-- of the loop of the TDISP requester.
pub mod Ends
pub mod Fetched
use spdm_emu.Prelude.{
  ℕ, zero, suc, ◌+◌, ◌%◌, ◌^◌, min, List, ◌==◌, ◌!=◌, ltb, ◌&&◌, if◌then◌else◌, take, write_at,
  Status, success, invalid_msg_size, invalid_msg_field, buffer_too_small, Option, none, some, ◌⊎◌,
  inl, inr,
}
use spdm_emu.Tsp.Messages.{Header, Request, Body, Tsp, get_report_rsp}
use spdm_emu.Tsp.Responder.{configuration_report_portion_len}
use spdm_emu.Tsp.Calls.{Received, failed, received, ReportView, Misread, plain_request}
use spdm_emu.Tdisp.Requester.{Outcome, out_of_fuel, returns, Progress, resume}

-- The response seen as a `cxl_tsp_get_target_configuration_report_rsp_mine_t`.
unfoldable pub report_of : Misread → Body → ReportView
report_of v (get_report_rsp portion remainder bytes) = record {
  portion_length = portion;
  remainder_length = remainder;
  report = bytes;
}
report_of v body = v.report body

-- The new values of the variables after an accepted portion.
unfoldable pub advance : Progress → ReportView → Progress
advance p v = record {
  offset = (p.offset + v.portion_length) % 2 ^ 16;
  remainder_length = v.remainder_length;
  total_report_length =
      if p.offset == 0
      then (v.portion_length + v.remainder_length) % 2 ^ 32
      else p.total_report_length;
  interface_report = write_at p.interface_report p.offset (take v.portion_length v.report);
}

module _ (k : Tsp) where
  unfoldable pub report_request : Progress → Request
  unfolding plain_request
  report_request p = record (plain_request k k.get_target_configuration_report) {
    offset = p.offset;
    length =
        if p.offset != 0
        then min p.remainder_length configuration_report_portion_len
        else configuration_report_portion_len;
  }

  -- The checks on a response, in the order of the code; `none` where they pass.
  unfoldable pub response_error : Request → ℕ → Header → ReportView → Option Status
  response_error q response_size h v =
      if ltb response_size k.get_report_rsp_size
      then some invalid_msg_size
      else if ltb q.length v.portion_length
      then some invalid_msg_size
      else if response_size != k.get_report_rsp_size + v.portion_length
      then some invalid_msg_size
      else if h.tsp_version != q.header.tsp_version
      then some invalid_msg_field
      else if h.op_code != k.get_target_configuration_report_rsp
      then some invalid_msg_field
      else none

module _ (size : ℕ) where
  -- From the checks on the total on: the outcome that ends the loop, or the variables of the next
  -- round.
  unfoldable pub accept_portion : Progress → ReportView → Outcome ⊎ Progress
  unfolding advance
  accept_portion p v =
      let p' = advance p v in
      if p.offset == 0 && ltb size p'.total_report_length
      then inl (returns buffer_too_small p'.total_report_length p.interface_report)
      else if p.offset != 0
          && p.total_report_length != (p.offset + v.portion_length + v.remainder_length) % 2 ^ 32
      then inl (returns invalid_msg_field size p.interface_report)
      else if v.remainder_length == 0
      then inl (returns success p'.total_report_length p'.interface_report)
      else inr p'

  -- One round from the answer on.
  unfoldable pub on_answer : Tsp → Misread → Progress → Request → Received → Outcome ⊎ Progress
  unfolding report_of response_error accept_portion
  on_answer k v p request (failed status) = inl (returns status size p.interface_report)
  on_answer k v p request (received response_size response) =
      let view = report_of v response.body in
      elim (response_error k request response_size response.header view) [
        | some status ↦ inl (returns status size p.interface_report)
        | none ↦ accept_portion p view
      ]

module _ (k : Tsp) (v : Misread) {P : Type 0} (send : P → Request → ℕ → P × Received)
    (size : ℕ) where
  -- The `do` loop, with fuel for its rounds.
  unfoldable pub get_configuration_report_loop : ℕ → P → Progress → P × Outcome
  get_configuration_report_loop zero peer p = (peer, out_of_fuel)
  get_configuration_report_loop (suc fuel) peer p =
      let request = report_request k p in
      let (peer', answer) = send peer request k.get_report_size in
      resume (get_configuration_report_loop fuel) peer' (on_answer size k v p request answer)

  -- `size` is `*configuration_report_size` and `buffer` the array on entry.
  unfoldable pub cxl_tsp_get_configuration_report : ℕ → P → List ℕ → P × Outcome
  cxl_tsp_get_configuration_report fuel peer buffer =
      get_configuration_report_loop fuel peer (record {
        offset = 0;
        remainder_length = 0;
        total_report_length = 0;
        interface_report = buffer;
      })
