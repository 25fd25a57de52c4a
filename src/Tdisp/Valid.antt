-- ===== src/Tdisp/Valid.antt =====
-- What holds of the interface context between two requests.
use spdm_emu.Prelude.{
  ℕ, ◌≡◌, ◌≢◌, ◌≤◌, ◌<◌, ◌⊎◌, inl, refl, true, Bool, arith, List, [], ◌∷◌, drop, All, length,
  length-append, length-drop, length-replicate, Option, none, some,
}
use spdm_emu.Tdisp.Messages.{InterfaceId, Request, Tdisp, TdispLaws}
use spdm_emu.Tdisp.Device.{
  Interface, Surroundings, interface_report_max_size, default_bytes, generate_default,
  generate_report, locked, libtdisp_initialize_interface_context,
}
use spdm_emu.Tdisp.Responder.{open_dispatch, pci_tdisp_get_response}
use spdm_emu.Tdisp.Responder.Cases.{response_rule}
use spdm_emu.Tdisp.Machine.{tdi_state-generate_report}
use spdm_emu.Tdisp.Trace.{Call, step, run}

-- The hardcoded report is not empty and fits the array.
pub record ReportFits (k : Tdisp) : Type 0 where
  pub some_bytes : 0 < length (default_bytes k)
  pub in_array : length (default_bytes k) ≤ interface_report_max_size

-- What pci_tdisp_device_interface_report_load_from_json documents: it fills the buffer that it is
-- given, and on success sets a size that is not 0 and does not exceed it.
abbrev pub LoadsWithin : Option (List ℕ → ℕ → Bool × List ℕ × ℕ) → Type 0
LoadsWithin none = Unit
LoadsWithin (some load) =
    (buffer : List ℕ) (size : ℕ)
    → length buffer ≡ interface_report_max_size
    → let (loaded, buffer', size') = load buffer size in
      (length buffer' ≡ interface_report_max_size)
      × (loaded ≡ true → (0 < size') × (size' ≤ interface_report_max_size))

pub record IsValid (k : Tdisp) (s : Interface) : Type 0 where
  pub array : length s.interface_report ≡ interface_report_max_size
  pub fits : s.interface_report_size ≤ interface_report_max_size
  pub known :
      (s.tdi_state ≡ k.config_unlocked) ⊎ (s.tdi_state ≡ k.config_locked) ⊎ (s.tdi_state ≡ k.run)
  pub reported : s.tdi_state ≢ k.config_unlocked → 0 < s.interface_report_size

module _ (k : Tdisp) where
  -- A context that was just initialised is valid.
  pub initialize-IsValid :
      (id : InterfaceId) → IsValid k (libtdisp_initialize_interface_context k id)
  unfolding libtdisp_initialize_interface_context
  initialize-IsValid id = record {
    array = length-replicate interface_report_max_size 0;
    fits = omega arith;
    known = inl refl;
    reported = λ n. absurd (n refl);
  }

  -- The report is in place, whatever the TDI state.
  abbrev Reported : Interface → Type 0
  Reported s =
      (length s.interface_report ≡ interface_report_max_size)
      × (0 < s.interface_report_size)
      × (s.interface_report_size ≤ interface_report_max_size)

  generate_default-Reported :
      (s : Interface)
      → ReportFits k
      → length s.interface_report ≡ interface_report_max_size
      → Reported (generate_default k s)
  unfolding generate_default
  generate_default-Reported s f h =
      let d = default_bytes k in
      (
        omega (
          arith,
          f.in_array,
          length-append d (drop (length d) s.interface_report),
          length-drop (length d) s.interface_report,
        ),
        f.some_bytes,
        f.in_array,
      )

  generate_report-Reported :
      (s : Interface) (load : Option (List ℕ → ℕ → Bool × List ℕ × ℕ))
      → ReportFits k
      → LoadsWithin load
      → length s.interface_report ≡ interface_report_max_size
      → Reported (generate_report k s load)
  unfolding generate_report
  generate_report-Reported s none f l h = generate_default-Reported s f h
  generate_report-Reported s (some load) f l h =
      let r = load s.interface_report s.interface_report_size in
      ground (
        arith,
        l s.interface_report s.interface_report_size h,
        generate_default-Reported (record s { interface_report = r.1; interface_report_size = r.2 })
            f,
      )

module _ (k : Tdisp) (s : Interface) (w : Surroundings) (r : Request) (n m : ℕ) where
  response-IsValid :
      TdispLaws k
      → ReportFits k
      → LoadsWithin w.load_from_json
      → IsValid k s
      → IsValid k (pci_tdisp_get_response k s w r n m).0
  unfolding open_dispatch
  response-IsValid laws f l v =
      response_rule k s w r n m (λ p. IsValid k p.0) (λ _. v) v
        (λ t. ground (arith, initialize-IsValid k r.header.interface_id)) (λ t. ground arith)
        (λ t. ground (
          arith,
          tdi_state-generate_report k (locked k s w r.lock_interface_param) w.load_from_json,
          generate_report-Reported k (locked k s w r.lock_interface_param) w.load_from_json f l
              v.array,
        ))
        (λ t. ground arith) (λ t. ground arith) (λ t. ground (arith, laws.unlocked_ne_locked))
        (λ t. ground arith)

module _ (k : Tdisp) (laws : TdispLaws k) (f : ReportFits k) where
  -- Every history of requests keeps the context valid: the report array keeps its length and the
  -- report fits it, the TDI state is one of CONFIG_UNLOCKED, CONFIG_LOCKED and RUN, and a TDI that
  -- is not CONFIG_UNLOCKED has a report. The loader, where there is one, keeps to its contract.
  pub run-IsValid :
      (s : Interface) (cs : List Call)
      → All (λ (c : Call). LoadsWithin c.surroundings.load_from_json) cs
      → IsValid k s
      → IsValid k (run k s cs)
  unfolding run
  run-IsValid s [] l v = v
  run-IsValid s (c ∷ cs) l v =
      run-IsValid (step k s c).0 cs l.1
        (response-IsValid k s c.surroundings c.request c.request_size c.response_size laws f l.0 v)
