-- ===== src/Tdisp/Requester.antt =====
-- library/pci_tdisp_requester_lib/pci_tdisp_req_get_interface_report.c: the loop that collects the
-- device interface report portion by portion. What pci_tdisp_send_receive_data does with a request
-- is the parameter `send`, over a state of the peer.
use spdm_emu.Prelude.{
  ℕ, zero, suc, ◌+◌, ◌%◌, ◌^◌, min, List, [], ◌==◌, ◌!=◌, ltb, ◌&&◌, if◌then◌else◌, replicate, take,
  write_at, Status, success, invalid_msg_size, invalid_msg_field, buffer_too_small, Option, none,
  some, ◌≡◌, refl, ◌⊎◌, inl, inr,
}
use spdm_emu.Tdisp.Messages.{
  InterfaceId, Header, Request, Response, Body, ReportView, Tdisp, interface_report_rsp, error_rsp,
}
use spdm_emu.Tdisp.Responder.{interface_report_portion_len}

-- What comes back from the peer: an error status, or a response and its size.
pub data Received : Type 0 where
  failed : Status → Received
  received : ℕ → Response → Received

-- What the loop ends with: the status, `*interface_report_size` and the caller's buffer.
pub data Outcome : Type 0 where
  out_of_fuel : Outcome
  returns : Status → ℕ → List ℕ → Outcome

-- The variables that the rounds share, and the caller's buffer.
pub record Progress : Type 0 where
  pub offset : ℕ
  pub remainder_length : ℕ
  pub total_report_length : ℕ
  pub interface_report : List ℕ

abbrev u16 : ℕ → ℕ
u16 x = x % 2 ^ 16

abbrev u32 : ℕ → ℕ
u32 x = x % 2 ^ 32

module _ (k : Tdisp) where
  -- The response seen as a `pci_tdisp_device_interface_report_response_mine_t`.
  unfoldable pub report_view : Body → ReportView
  report_view (interface_report_rsp portion remainder bytes) = record {
    portion_length = portion;
    remainder_length = remainder;
    report = bytes;
  }
  report_view (error_rsp code_ extra) = k.misread (error_rsp code_ extra)
  report_view body = k.misread body

  unfoldable pub report_request : InterfaceId → Progress → Request
  report_request id v = record {
    header = record {
      version = k.version_10;
      message_type = k.get_device_interface_report;
      interface_id = record {
        function_id = id.function_id;
        rest = replicate k.interface_id_rest_size 0;
      };
    };
    req_caps = [];
    lock_interface_param = [];
    start_interface_nonce = [];
    offset = v.offset;
    length =
        if v.offset != 0
        then min v.remainder_length interface_report_portion_len
        else interface_report_portion_len;
  }

  -- The checks on a response, in the order of the code; `none` where they pass.
  unfoldable pub response_error : Request → ℕ → Header → ReportView → Option Status
  response_error q response_size h v =
      if ltb response_size k.report_rsp_size
      then some invalid_msg_size
      else if ltb q.length v.portion_length
      then some invalid_msg_size
      else if response_size != k.report_rsp_size + v.portion_length
      then some invalid_msg_size
      else if h.version != q.header.version
      then some invalid_msg_field
      else if h.message_type != k.device_interface_report
      then some invalid_msg_field
      else if h.interface_id.function_id != q.header.interface_id.function_id
      then some invalid_msg_field
      else none

  -- The new values of the variables after an accepted portion.
  unfoldable pub advance : Progress → ReportView → Progress
  advance p v = record {
    offset = u16 (p.offset + v.portion_length);
    remainder_length = v.remainder_length;
    total_report_length =
        if p.offset == 0
        then u32 (v.portion_length + v.remainder_length)
        else p.total_report_length;
    interface_report = write_at p.interface_report p.offset (take v.portion_length v.report);
  }

module _ (k : Tdisp) (size : ℕ) where
  -- One round from the answer on: the outcome that ends the loop, or the variables of the next round.
  unfoldable pub on_answer : Progress → Request → Received → Outcome ⊎ Progress
  unfolding report_view response_error advance
  on_answer p request (failed status) = inl (returns status size p.interface_report)
  on_answer p request (received response_size response) =
      let v = report_view k response.body in
      let p' = advance k p v in
      elim (response_error k request response_size response.header v) [
        | some status ↦ inl (returns status size p.interface_report)
        | none ↦
            if p.offset == 0 && ltb size p'.total_report_length
            then inl (returns buffer_too_small p'.total_report_length p.interface_report)
            else if p.offset != 0
                && p.total_report_length != u32 (p.offset + v.portion_length + v.remainder_length)
            then inl (returns invalid_msg_field size p.interface_report)
            else if v.remainder_length == 0
            then inl (returns success p'.total_report_length p'.interface_report)
            else inr p'
      ]

-- The next round, or the end.
unfoldable pub resume :
    {P : Type 0} → (P → Progress → P × Outcome) → P → Outcome ⊎ Progress → P × Outcome
resume round peer (inl outcome) = (peer, outcome)
resume round peer (inr p) = round peer p

module _ {P : Type 0} (round : P → Progress → P × Outcome) (peer : P) where
  pub resume-inl : (outcome : Outcome) → resume round peer (inl outcome) ≡ (peer, outcome)
  unfolding resume
  resume-inl outcome = refl

  pub resume-inr : (p : Progress) → resume round peer (inr p) ≡ round peer p
  unfolding resume
  resume-inr p = refl

module _ (k : Tdisp) {P : Type 0} (send : P → Request → ℕ → P × Received) (id : InterfaceId)
    (size : ℕ) where
  -- The `do` loop, with fuel for its rounds.
  unfoldable pub get_interface_report_loop : ℕ → P → Progress → P × Outcome
  get_interface_report_loop zero peer p = (peer, out_of_fuel)
  get_interface_report_loop (suc fuel) peer p =
      let request = report_request k id p in
      let (peer', answer) = send peer request k.get_report_size in
      resume (get_interface_report_loop fuel) peer' (on_answer k size p request answer)

  -- `size` is `*interface_report_size` and `buffer` the array on entry.
  unfoldable pub pci_tdisp_get_interface_report : ℕ → P → List ℕ → P × Outcome
  pci_tdisp_get_interface_report fuel peer buffer = get_interface_report_loop fuel peer (record {
    offset = 0;
    remainder_length = 0;
    total_report_length = 0;
    interface_report = buffer;
  })
