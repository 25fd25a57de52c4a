-- ===== src/Tsp/Report/Ends.antt =====
-- The loop of cxl_tsp_get_configuration_report against an arbitrary peer.
use spdm_emu.Prelude.{
  ℕ, zero, suc, ◌+◌, ◌%◌, ◌^◌, ◌≡◌, ◌≢◌, ◌≤◌, ◌<◌, ◌⊎◌, inl, inr, refl, arith, List, length, ltb,
  length-take, length-drop, length-append, take, drop, write_at, false, Status, success,
  invalid_msg_field, ◌++◌, ◌==◌, ◌!=◌, ◌&&◌, Bool-cases, buffer_too_small, Option, none, some,
}
use spdm_emu.Tsp.Messages.{Request, Response, Tsp}
use spdm_emu.Tsp.Calls.{Received, failed, received, ReportView, Misread}
use spdm_emu.Tdisp.Requester.{Outcome, returns, Progress, resume, resume-inl, resume-inr}
use spdm_emu.Tsp.Report.{
  report_of, advance, report_request, response_error, accept_portion, on_answer,
  get_configuration_report_loop, cxl_tsp_get_configuration_report,
}

-- How the loop ends for a caller with a buffer and its size.
pub data Ends (size : ℕ) (buffer : List ℕ) : Outcome → Type 0 where
  fetched :
      (n : ℕ) (report : List ℕ)
      → n ≤ size
      → length report ≡ length buffer
      → Ends size buffer (returns success n report)
  too_small : (n : ℕ) → size < n → Ends size buffer (returns buffer_too_small n buffer)
  refused :
      (status : Status) (report : List ℕ)
      → status ≢ success
      → length report ≡ length buffer
      → Ends size buffer (returns status size report)

-- A peer whose failures are no successes, whose lengths are those of two uint16_t, and which sends
-- no empty portion.
pub data IsGiving (v : Misread) : Received → Type 0 where
  fails_giving : (status : Status) → status ≢ success → IsGiving v (failed status)
  sends_giving :
      (n : ℕ) (rsp : Response)
      → 0 < (report_of v rsp.body).portion_length
      → (report_of v rsp.body).portion_length < 2 ^ 16
      → (report_of v rsp.body).remainder_length < 2 ^ 16
      → IsGiving v (received n rsp)

length-write_at :
    (dst src : List ℕ) (at : ℕ)
    → at + length src ≤ length dst
    → length (write_at dst at src) ≡ length dst
unfolding write_at
length-write_at dst src at h = omega (
  arith,
  length-append (take at dst) (src ++ drop (at + length src) dst),
  length-append src (drop (at + length src) dst),
  length-take at dst,
  length-drop (at + length src) dst,
)

module _ (k : Tsp) (v : Misread) (size : ℕ) (buffer : List ℕ) (word : size < 2 ^ 16)
    (space : size ≤ length buffer) where
  -- Between two rounds.
  record Holds (p : Progress) : Type 0 where
    inside : p.offset ≤ size
    total : p.total_report_length ≤ size
    same : length p.interface_report ≡ length buffer
    untouched : (p.offset ≢ 0) ⊎ (p.interface_report ≡ buffer)

  -- A round that ends the loop ends it well, and any other moves the offset on.
  Progresses : Progress → Outcome ⊎ Progress → Type 0
  Progresses p (inl outcome) = Ends size buffer outcome
  Progresses p (inr p') = Holds p' × (p.offset < p'.offset)

  length-advance :
      (p : Progress) (view : ReportView)
      → Holds p
      → p.offset + view.portion_length ≤ size
      → length (advance p view).interface_report ≡ length buffer
  unfolding advance
  length-advance p view h fits = omega (
    arith,
    h.same,
    space,
    length-take view.portion_length view.report,
    length-write_at p.interface_report (take view.portion_length view.report) p.offset
        (omega (arith, h.same, space, length-take view.portion_length view.report)),
  )

  -- A portion that passes the checks on the total is inside the caller's size.
  total_fits :
      (p : Progress) (view : ReportView)
      → Holds p
      → view.portion_length < 2 ^ 16
      → view.remainder_length < 2 ^ 16
      → p.offset == 0 && ltb size (advance p view).total_report_length ≡ false
      → p.offset != 0
          && p.total_report_length
            != (p.offset + view.portion_length + view.remainder_length) % 2 ^ 32
        ≡ false
      → (p.offset + view.portion_length ≤ size)
        × ((advance p view).total_report_length ≤ size)
        × ((advance p view).offset ≡ p.offset + view.portion_length)
  unfolding advance
  total_fits p view h w w' e e' = ground (arith, h.inside, h.total)

  accept_portion-Progresses :
      (p : Progress) (view : ReportView)
      → Holds p
      → 0 < view.portion_length
      → view.portion_length < 2 ^ 16
      → view.remainder_length < 2 ^ 16
      → Progresses p (accept_portion size p view)
  unfolding accept_portion Progresses
  accept_portion-Progresses p view h some_bytes w w' =
      let large = p.offset == 0 && ltb size (advance p view).total_report_length in
      let wrong =
        p.offset != 0
        && p.total_report_length
          != (p.offset + view.portion_length + view.remainder_length) % 2 ^ 32 in
      elim (Bool-cases large) [
        | inl e ↦ rw e (elim h.untouched [
          | inl moved ↦ absurd (ground (arith, moved))
          | inr same ↦ rw same (too_small _ (ground arith))
        ])
        | inr e ↦ elim (Bool-cases wrong) [
          | inl e' ↦ rw (e, e') (refused invalid_msg_field p.interface_report (λ x. cc) h.same)
          | inr e' ↦
              let (fits, total, moved) = total_fits p view h w w' e e' in
              let kept = length-advance p view h fits in
              elim (Bool-cases (view.remainder_length == 0)) [
                | inl last ↦ rw (e, e', last) (fetched _ _ total kept)
                | inr more ↦
                    rw (e, e', more)
                      (
                        record {
                          inside = omega arith;
                          total = total;
                          same = kept;
                          untouched = inl (λ z. omega arith);
                        },
                        omega arith,
                      )
              ]
        ]
      ]

  response_error-Fails :
      (q : Request) (n : ℕ) (rsp : Response) (view : ReportView) (status : Status)
      → response_error k q n rsp.header view ≡ some status
      → status ≢ success
  unfolding response_error
  response_error-Fails q n rsp view status e e' = ground arith

  on_answer-Progresses :
      (p : Progress) (q : Request) (answer : Received)
      → Holds p
      → IsGiving v answer
      → Progresses p (on_answer size k v p q answer)
  unfolding on_answer Progresses
  on_answer-Progresses p q (failed status) h (fails_giving _ bad) =
      refused status p.interface_report bad h.same
  on_answer-Progresses p q (received n rsp) h (sends_giving _ _ some_bytes w w') =
      go (response_error k q n rsp.header (report_of v rsp.body)) refl
    where
      go :
          (o : Option Status)
          → response_error k q n rsp.header (report_of v rsp.body) ≡ o
          → Progresses p (elim o [
            | some status ↦ inl (returns status size p.interface_report)
            | none ↦ accept_portion size p (report_of v rsp.body)
          ])
      go none e = accept_portion-Progresses p (report_of v rsp.body) h some_bytes w w'
      go (some status) e =
          refused status p.interface_report
            (response_error-Fails q n rsp (report_of v rsp.body) status e) h.same

  resume-Ends :
      {P : Type 0} (round : P → Progress → P × Outcome) (peer : P) (p : Progress)
      (next : Outcome ⊎ Progress)
      → Progresses p next
      → ((p' : Progress) → Holds p' → p.offset < p'.offset → Ends size buffer (round peer p').1)
      → Ends size buffer (resume round peer next).1
  unfolding Progresses
  resume-Ends round peer p (inl outcome) ends rest = rw resume-inl ends
  resume-Ends round peer p (inr p') (h, further) rest = rw resume-inr (rest p' h further)

  module _ {P : Type 0} (send : P → Request → ℕ → P × Received)
      (giving : (peer : P) (q : Request) (n : ℕ) → IsGiving v (send peer q n).1) where
    loop-Ends :
        (fuel : ℕ) (peer : P) (p : Progress)
        → Holds p
        → size < p.offset + fuel
        → Ends size buffer (get_configuration_report_loop k v send size fuel peer p).1
    unfolding get_configuration_report_loop
    loop-Ends zero peer p h e = absurd (omega (arith, h.inside))
    loop-Ends (suc fuel) peer p h e =
        let q = report_request k p in
        let sent = send peer q k.get_report_size in
        resume-Ends (get_configuration_report_loop k v send size fuel) sent.0 p
          (on_answer size k v p q sent.1)
          (on_answer-Progresses p q sent.1 h (giving peer q k.get_report_size))
          (λ p' h' further. loop-Ends fuel sent.0 p' h' (omega arith))

    -- With a buffer that holds the size that is given for it, fewer than 2^16 bytes, the loop ends
    -- within one round for each of them and one more, against any peer that sends no empty portion:
    -- with a report of at most that size, with BUFFER_TOO_SMALL, a larger size and the buffer as it
    -- was, or with another error and the size as it was. The buffer keeps its length. The peer's
    -- failures are no successes, and its lengths fit 16 bits.
    pub configuration_report-Ends :
        (fuel : ℕ) (peer : P)
        → size < fuel
        → Ends size buffer (cxl_tsp_get_configuration_report k v send size fuel peer buffer).1
    unfolding cxl_tsp_get_configuration_report
    configuration_report-Ends fuel peer h =
        loop-Ends fuel peer _
          (record { inside = omega arith; total = omega arith; same = refl; untouched = inr refl })
          (omega arith)
