-- ===== src/Tsp/Report/Fetched.antt =====
-- The loop of cxl_tsp_get_configuration_report against cxl_tsp_responder_lib.
use spdm_emu.Prelude.{
  ℕ, zero, suc, ◌+◌, ◌≡◌, ◌≤◌, ◌<◌, ◌⊎◌, inl, inr, refl, arith, List, length, take, drop, set, ◌++◌,
  write_at, length-take, length-set, take_length, ltb, Bool-cases, if◌then◌else◌, some, replies,
  success, buffer_too_small,
}
use spdm_emu.Tsp.Messages.{Request, Response, Tsp, TspRequests, get_report_rsp}
use spdm_emu.Tsp.Device.{Context, Surroundings, configuration_report_struct_size}
use spdm_emu.Tsp.Responder.{cxl_tsp_get_response, cxl_tsp_get_response_get_configuration_report}
use spdm_emu.Tsp.Replies.{HasRoom}
use spdm_emu.Tsp.Calls.{Received, received, Misread, plain_request}
use spdm_emu.Tsp.Exchange.{Serves, Controls, session_type-Controls, answer_to}
use spdm_emu.Tdisp.Requester.{returns, Progress, resume-inl}
use spdm_emu.Tsp.Report.{
  report_request, on_answer, get_configuration_report_loop, cxl_tsp_get_configuration_report,
}

-- The target after the report was built in its array, whose first byte says that it is valid.
abbrev pub with_report : Context → Context
with_report c = record c {
  configuration_report = set c.configuration_report 0 1;
  configuration_report_size = configuration_report_struct_size;
}

-- The first request of the loop.
abbrev first : List ℕ → Progress
first buffer = record {
  offset = 0;
  remainder_length = 0;
  total_report_length = 0;
  interface_report = buffer;
}

module _ (k : Tsp) (requests : TspRequests k) (w : Surroundings) (m : ℕ) (room : HasRoom k m)
    (c : Context) (id : ℕ) (controls : Controls c id) (buffer : List ℕ) where
  abbrev whole : Response
  whole = answer_to k (report_request k (first buffer)) k.get_target_configuration_report_rsp (
      get_report_rsp configuration_report_struct_size 0
        (take configuration_report_struct_size (set c.configuration_report 0 1)))

  report_accepted :
      (c.current_tsp_state ≡ k.config_unlocked) ⊎ (c.current_tsp_state ≡ k.config_locked)
      → cxl_tsp_get_response k c w (some id) (report_request k (first buffer)) k.get_report_size m
        ≡ (with_report c, replies (k.get_report_rsp_size + configuration_report_struct_size) whole)
  unfolding cxl_tsp_get_response cxl_tsp_get_response_get_configuration_report report_request
      plain_request
  report_accepted (inl u) = ground (
    arith,
    requests.requests_distinct,
    requests.report_fits,
    room.for_report,
    session_type-Controls c id controls,
  )
  report_accepted (inr u) = ground (
    arith,
    requests.requests_distinct,
    requests.report_fits,
    room.for_report,
    session_type-Controls c id controls,
  )

  round_fetched :
      (v : Misread) (size : ℕ)
      → configuration_report_struct_size ≤ size
      → on_answer size k v
          (first buffer)
          (report_request k (first buffer))
          (received (k.get_report_rsp_size + configuration_report_struct_size) whole)
        ≡ inl (
            returns success configuration_report_struct_size (
              write_at buffer 0 (
                take configuration_report_struct_size
                  (take configuration_report_struct_size (set c.configuration_report 0 1)))))
  unfolding on_answer report_request plain_request
  round_fetched v size fits = ground arith

  round_too_small :
      (v : Misread) (size : ℕ)
      → size < configuration_report_struct_size
      → on_answer size k v
          (first buffer)
          (report_request k (first buffer))
          (received (k.get_report_rsp_size + configuration_report_struct_size) whole)
        ≡ inl (returns buffer_too_small configuration_report_struct_size buffer)
  unfolding on_answer report_request plain_request
  round_too_small v size small = ground arith

written :
    (report buffer : List ℕ)
    → configuration_report_struct_size ≤ length report
    → write_at buffer 0
        (take configuration_report_struct_size (take configuration_report_struct_size report))
      ≡ take configuration_report_struct_size report ++ drop configuration_report_struct_size buffer
unfolding write_at
written report buffer h =
    let first_bytes = take configuration_report_struct_size report in
    let n : length first_bytes ≡ configuration_report_struct_size =
      omega (arith, length-take configuration_report_struct_size report) in
    rw (take_length configuration_report_struct_size first_bytes (omega arith)) (rw n refl)

-- Against the responder in a primary session, unlocked or locked, one round is enough: a buffer
-- whose size is at least that of the report gets the bytes of the target's report and keeps its
-- other bytes, with success and the size of the report, and a smaller one is left as it was, with
-- BUFFER_TOO_SMALL and that size. The transport serves the target and leaves room for the
-- responses, the target's array is no shorter than the report, and the numbers of the protocol obey
-- `TspRequests`.
pub configuration_report_fetched :
    (k : Tsp) (requests : TspRequests k) (w : Surroundings) (m : ℕ) (room : HasRoom k m) (id : ℕ)
    (v : Misread) (send : Context → Request → ℕ → Context × Received)
    (serves : Serves k w id m send) (c : Context) (size fuel : ℕ) (buffer : List ℕ)
    → Controls c id
    → (c.current_tsp_state ≡ k.config_unlocked) ⊎ (c.current_tsp_state ≡ k.config_locked)
    → configuration_report_struct_size ≤ length c.configuration_report
    → 0 < fuel
    → cxl_tsp_get_configuration_report k v send size fuel c buffer ≡ (
      with_report c,
      if ltb size configuration_report_struct_size
          then returns buffer_too_small configuration_report_struct_size buffer
          else returns success configuration_report_struct_size (
              take configuration_report_struct_size (set c.configuration_report 0 1)
              ++ drop configuration_report_struct_size buffer),
    )
unfolding cxl_tsp_get_configuration_report get_configuration_report_loop
configuration_report_fetched k requests w m room id v send serves c size zero buffer controls u s
      h =
    absurd (omega arith)
configuration_report_fetched k requests w m room id v send serves c size (suc fuel) buffer controls
      u s h =
    let served =
      serves c (report_request k (first buffer)) k.get_report_size (with_report c)
        (k.get_report_rsp_size + configuration_report_struct_size)
        (whole k requests w m room c id controls buffer)
        (report_accepted k requests w m room c id controls buffer u) in
    rw served (elim (Bool-cases (ltb size configuration_report_struct_size)) [
      | inl e ↦
          rw
            (
              e,
              round_too_small k requests w m room c id controls buffer v size (ground arith),
              resume-inl,
            )
            refl
      | inr e ↦
          rw
            (
              e,
              round_fetched k requests w m room c id controls buffer v size (ground arith),
              resume-inl,
              written (set c.configuration_report 0 1) buffer
                  (omega (arith, length-set c.configuration_report 0 1)),
            )
            refl
    ])
