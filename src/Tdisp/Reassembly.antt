-- ===== src/Tdisp/Reassembly.antt =====
-- The report loop of the requester against the responder.
use native.Mathlib.Decide.{dec_le}
use spdm_emu.Prelude.{
  write_at-portion, ◌%◌, ◌*◌, inl, inr, ℕ, zero, suc, ◌+◌, ◌-◌, ◌^◌, ◌≡◌, ◌≢◌, ◌≤◌, ◌<◌, min, refl,
  true, arith, take, drop, length, length-drop, List, ◌++◌, replicate, drop-drop, Reply, asserted,
  fails, replies, Status, success,
}
use spdm_emu.Tdisp.Messages.{
  InterfaceId, Request, Response, ReportView, Tdisp, TdispLaws, interface_report_rsp,
}
use spdm_emu.Tdisp.Device.{Interface, Surroundings, libtdisp_get_interface_context}
use spdm_emu.Tdisp.Responder.{interface_report_portion_len, response_header, pci_tdisp_get_response}
use spdm_emu.Tdisp.Portion.{Asks, due, response_portion}
use spdm_emu.Tdisp.Requester.{
  resume-inl, resume-inr, on_answer, Received, failed, received, returns, Progress, report_request,
  advance, get_interface_report_loop, pci_tdisp_get_interface_report,
}

-- What the requester receives of what the responder leaves behind; `lost` stands for the status of
-- a transport whose peer has stopped on an assertion.
abbrev pub deliver : Status → Interface × Reply Response → Interface × Received
deliver lost (s, asserted) = (s, failed lost)
deliver lost (s, fails status) = (s, failed status)
deliver lost (s, replies size rsp) = (s, received size rsp)

module _ (k : Tdisp) (w : Surroundings) (lost : Status) (room : ℕ) where
  -- A peer that answers each request by pci_tdisp_get_response.
  unfoldable pub responder : Interface → Request → ℕ → Interface × Received
  responder s q n = deliver lost (pci_tdisp_get_response k s w q n room)

-- A device whose report can be fetched for `id` into a buffer of `size` bytes.
pub record Ready (k : Tdisp) (s : Interface) (id : InterfaceId) (room size : ℕ) (buffer : List ℕ)
    : Type 0 where
  pub known :
      libtdisp_get_interface_context k s
        (record { function_id = id.function_id; rest = replicate k.interface_id_rest_size 0 })
      ≡ true
  pub filled : 0 < s.interface_report_size
  pub small : s.interface_report_size < 2 ^ 16
  pub stored : s.interface_report_size ≤ length s.interface_report
  pub fits : s.interface_report_size ≤ size
  pub space : size ≤ length buffer
  pub roomy : k.report_rsp_size + interface_report_portion_len ≤ room

module _ (k : Tdisp) (laws : TdispLaws k) (s : Interface) (w : Surroundings) (lost : Status)
    (id : InterfaceId) (room size : ℕ) (buffer : List ℕ)
    (ready : Ready k s id room size buffer) where
  -- Between two rounds: what is left to fetch, and the fetched bytes in front of `tail`.
  record Holds (p : Progress) (tail : List ℕ) : Type 0 where
    below : p.offset < s.interface_report_size
    rest : p.offset ≢ 0 → p.remainder_length ≡ s.interface_report_size - p.offset
    total : p.offset ≢ 0 → p.total_report_length ≡ s.interface_report_size
    bytes : p.interface_report ≡ take p.offset s.interface_report ++ tail
    left : s.interface_report_size - p.offset ≤ length tail

  -- The bytes that the next portion carries.
  abbrev next : Progress → ℕ
  next p = min interface_report_portion_len (s.interface_report_size - p.offset)

  abbrev view : Progress → ReportView
  view p = record {
    portion_length = next p;
    remainder_length = s.interface_report_size - (next p + p.offset);
    report = take (next p) (drop p.offset s.interface_report);
  }

  asks : (p : Progress) (tail : List ℕ) → Holds p tail → Asks k s (report_request k id p) room
  unfolding report_request
  asks p tail h = record {
    typed = refl;
    versioned = refl;
    known = ready.known;
    wants = ground arith;
    inside = h.below;
    room = ready.roomy;
  }

  due-next :
      (p : Progress) (tail : List ℕ)
      → Holds p tail
      → due s (report_request k id p).offset (report_request k id p).length ≡ next p
  unfolding report_request
  due-next p tail h = ground arith

  offset-report_request : (p : Progress) → (report_request k id p).offset ≡ p.offset
  unfolding report_request
  offset-report_request p = refl

  abbrev answer : Progress → Received
  answer p = received (k.report_rsp_size + next p) (record {
    header = response_header k (report_request k id p).header k.device_interface_report;
    body =
        interface_report_rsp (next p) (s.interface_report_size - (next p + p.offset))
          (take (next p) (drop p.offset s.interface_report));
  })

  answered :
      (p : Progress) (tail : List ℕ)
      → Holds p tail
      → responder k w lost room s (report_request k id p) k.get_report_size ≡ (s, answer p)
  unfolding responder
  answered p tail h =
      rw (response_portion k laws s w (report_request k id p) room (asks p tail h))
        (rw (due-next p tail h, offset-report_request p))

  -- A last round ends the loop with success, and any other goes on from the advanced variables.
  last_round :
      (p : Progress) (tail : List ℕ)
      → Holds p tail
      → s.interface_report_size - p.offset ≤ interface_report_portion_len
      → on_answer k size p (report_request k id p) (answer p)
        ≡ inl (returns success s.interface_report_size (advance k p (view p)).interface_report)
  unfolding on_answer response_header report_request
  last_round p tail h e = ground (arith, ready.fits, ready.small)

  middle_round :
      (p : Progress) (tail : List ℕ)
      → Holds p tail
      → interface_report_portion_len < s.interface_report_size - p.offset
      → on_answer k size p (report_request k id p) (answer p) ≡ inr (advance k p (view p))
  unfolding on_answer response_header report_request
  middle_round p tail h e = ground (arith, ready.fits, ready.small)

  fetched :
      (p : Progress) (tail : List ℕ)
      → Holds p tail
      → (advance k p (view p)).interface_report
        ≡ take (p.offset + next p) s.interface_report ++ drop (next p) tail
  unfolding advance
  fetched p tail h = rw (h.bytes) (
      write_at-portion s.interface_report tail p.offset (next p)
        (omega (arith, ready.stored, h.below)))

  offset-advance :
      (p : Progress) (tail : List ℕ)
      → Holds p tail
      → (advance k p (view p)).offset ≡ p.offset + next p
  unfolding advance
  offset-advance p tail h = omega (arith, ready.small, h.below)

  advance-Holds :
      (p : Progress) (tail : List ℕ)
      → Holds p tail
      → interface_report_portion_len < s.interface_report_size - p.offset
      → Holds (advance k p (view p)) (drop (next p) tail)
  unfolding advance
  advance-Holds p tail h e =
      let moved : (p.offset + next p) % 2 ^ 16 ≡ p.offset + next p =
        omega (arith, ready.small, h.below) in
      record {
        below = omega (arith, ready.small, h.below);
        rest = λ _. omega (arith, ready.small, h.below);
        total = λ _. ground (arith, ready.small);
        bytes = rw moved (fetched p tail h);
        left = omega (arith, ready.small, h.below, length-drop (next p) tail);
      }

  collects :
      (fuel : ℕ) (p : Progress) (tail : List ℕ)
      → Holds p tail
      → s.interface_report_size ≤ p.offset + fuel * interface_report_portion_len
      → get_interface_report_loop k (responder k w lost room) id size fuel s p ≡ (
        s,
        returns success s.interface_report_size (
            take s.interface_report_size s.interface_report
            ++ drop (s.interface_report_size - p.offset) tail),
      )
  unfolding get_interface_report_loop
  collects zero p tail h e = absurd (omega (arith, h.below))
  collects (suc fuel) p tail h e =
      elim (dec_le (s.interface_report_size - p.offset) interface_report_portion_len) [
        | yes last ↦
            let whole : next p ≡ s.interface_report_size - p.offset = omega arith in
            let ends : p.offset + next p ≡ s.interface_report_size = omega (arith, h.below) in
            rw (answered p tail h)
              (rw (last_round p tail h last, resume-inl) (rw (fetched p tail h, ends, whole)))
        | no more ↦
            let further : interface_report_portion_len < s.interface_report_size - p.offset =
              omega arith in
            let moved : (advance k p (view p)).offset ≡ p.offset + next p =
              offset-advance p tail h in
            let left : next p + (s.interface_report_size - (p.offset + next p))
                ≡ s.interface_report_size - p.offset =
              omega (arith, h.below) in
            let rest =
              collects fuel (advance k p (view p)) (drop (next p) tail)
                (advance-Holds p tail h further) (rw moved (omega arith)) in
            rw (answered p tail h) (
              rw (middle_round p tail h further, resume-inr)
                (rw (rest, moved, drop-drop (next p)) (rw left)))
      ]

  -- With a round for each portion of LIBTDISP_INTERFACE_REPORT_PORTION_LEN bytes, the loop of the
  -- requester ends with success against the responder: the buffer holds the report of the device,
  -- byte for byte, the size is that of the report, and the rest of the buffer and the interface
  -- context are unchanged.
  pub interface_report_fetched :
      (fuel : ℕ)
      → s.interface_report_size ≤ fuel * interface_report_portion_len
      → pci_tdisp_get_interface_report k (responder k w lost room) id size fuel s buffer ≡ (
        s,
        returns success s.interface_report_size (
            take s.interface_report_size s.interface_report ++ drop s.interface_report_size buffer),
      )
  unfolding pci_tdisp_get_interface_report
  interface_report_fetched fuel h =
      let all : s.interface_report_size - 0 ≡ s.interface_report_size = omega arith in
      rw (collects fuel _ buffer start (omega (arith, h))) (rw all)
    where
      start :
          Holds
            (record {
              offset = 0;
              remainder_length = 0;
              total_report_length = 0;
              interface_report = buffer;
            })
            buffer
      start = record {
        below = ready.filled;
        rest = λ n. absurd (n refl);
        total = λ n. absurd (n refl);
        bytes = refl;
        left = omega (arith, ready.fits, ready.space);
      }
