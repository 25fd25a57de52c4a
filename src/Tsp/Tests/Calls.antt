-- ===== src/Tsp/Tests/Calls.antt =====
-- The theorems on the TSP requester at one target, whose primary session is 9.
use spdm_emu.Prelude.{
  ℕ, ◌-◌, ◌*◌, min, ◌≡◌, ◌≢◌, refl, arith, true, inl, length-replicate, [], ◌∷◌, replicate, take,
  drop, set, ◌++◌, some, Reply, asserted, fails, replies, success, invalid_parameter,
}
use spdm_emu.Tsp.Messages.{DeviceCapabilities, Request, Response, TspRequests, get_report_rsp}
use spdm_emu.Tsp.Device.{Context, configuration_report_struct_size}
use spdm_emu.Tsp.Validate
use spdm_emu.Tsp.Validate.{
  memory_features_ok, memory_features, algorithm_ok, libspdm_onehot0, te_features_ok, te_features,
  oob_granularity_ok, ckids_ok, ib_granularity_ok, second_sessions_ok, secondary_sessions,
  entries_ok,
}
use spdm_emu.Tsp.Responder.{cxl_tsp_get_response}
use spdm_emu.Tsp.Replies.{HasRoom}
use spdm_emu.Tsp.Checks.{
  supported_memory_ok, supported_memory_features, supported_algorithms_ok, range_keys_ok, access_ok,
  supported_te_features, implicit_ok, sanitize_ok, supported_oob_ok, supported_ib_ok,
  supported_ckids_ok, supported_sessions_ok, cxl_tsp_validate_capability,
}
use spdm_emu.Tsp.Calls.{
  Received, failed, received, Misread, Stored, cxl_tsp_set_configuration, cxl_tsp_get_configuration,
  cxl_tsp_lock_configuration, cxl_tsp_set_te_state,
}
use spdm_emu.Tsp.Exchange.{Serves, Controls}
use spdm_emu.Tsp.Session.{set_request, target_configured}
use spdm_emu.Tdisp.Requester.{returns}
use spdm_emu.Tsp.Report.{report_of, cxl_tsp_get_configuration_report}
use spdm_emu.Tsp.Report.Ends.{Ends, IsGiving, sends_giving, configuration_report-Ends}
use spdm_emu.Tsp.Report.Fetched.{with_report, configuration_report_fetched}
use spdm_emu.Tsp.Tests.{tsp, tsp-laws, keys, wanted, no_psk, blank, room}

tsp-requests : TspRequests tsp
tsp-requests = record {
  requests_distinct = ground arith;
  version_fits = omega arith;
  set_fits = omega arith;
  get_fits = omega arith;
  report_fits = omega arith;
  lock_fits = omega arith;
  te_state_fits = omega arith;
  unlocked_le_error = omega arith;
  locked_le_error = omega arith;
}

has_room : HasRoom tsp room
has_room = record {
  for_version = omega arith;
  for_capabilities = omega arith;
  for_set = omega arith;
  for_get = omega arith;
  for_report = omega arith;
  for_lock = omega arith;
  for_te_state = omega arith;
  for_error = omega arith;
}

-- The capabilities of the sample.
abbrev sample : DeviceCapabilities
sample = record {
  memory_encryption_features_supported = 1;
  memory_encryption_algorithms_supported = 2;
  memory_encryption_number_of_range_based_keys = 0;
  te_state_change_and_access_control_features_supported = 22;
  supported_explicit_oob_te_state_granularity = 0;
  supported_explicit_ib_te_state_granularity = 1;
  configuration_features_supported = 5;
  number_of_ckids = 0;
  number_of_secondary_sessions = 1;
}

-- The requester accepts them, and refuses them without an algorithm.
capabilities_checked :
    (cxl_tsp_validate_capability tsp sample ≡ success)
    × (cxl_tsp_validate_capability tsp
          (record sample { memory_encryption_algorithms_supported = 0 })
        ≢ success)
unfolding cxl_tsp_validate_capability supported_memory_ok supported_memory_features
    supported_algorithms_ok range_keys_ok access_ok supported_te_features implicit_ok sanitize_ok
    supported_oob_ok supported_ib_ok supported_ckids_ok supported_sessions_ok
capabilities_checked = (refl, λ e. cc)

abbrev controlled : Context
controlled = record blank {
  session_id_primary_valid = true;
  session_id_primary = 9;
  device_capabilities = sample;
}

controlled-Controls : Controls controlled 9
controlled-Controls = record { valid = refl; primary_id = refl }

abbrev misread : Misread
misread = record {
  version = λ _. (0, []);
  capabilities = λ _. sample;
  configuration = λ _. (wanted, 0);
  report = λ _. record { portion_length = 1; remainder_length = 0; report = [] };
}

abbrev deliver : Context × Reply Response → Context × Received
deliver (c, asserted) = (c, failed invalid_parameter)
deliver (c, fails status) = (c, failed invalid_parameter)
deliver (c, replies size rsp) = (c, received size rsp)

abbrev target : Context → Request → ℕ → Context × Received
target c r n = deliver (cxl_tsp_get_response tsp c no_psk (some 9) r n room)

target-Serves : Serves tsp no_psk 9 room target
target-Serves c r n c' size rsp e = rw e refl

accepted : Validate.cxl_tsp_validate_configruation tsp (set_request tsp wanted keys) sample ≡ 0
unfolding Validate.cxl_tsp_validate_configruation memory_features_ok memory_features algorithm_ok
    libspdm_onehot0 te_features_ok te_features oob_granularity_ok ckids_ok ib_granularity_ok
    second_sessions_ok secondary_sessions entries_ok
accepted = refl

target_configured_example :
    let old : Stored = record { configuration = some wanted; current_tsp_state = 7 } in
    let (c1, set) = cxl_tsp_set_configuration tsp misread target controlled wanted keys in
    let (c2, got, read) = cxl_tsp_get_configuration tsp misread target c1 old in
    let (c3, locked) = cxl_tsp_lock_configuration tsp misread target c2 in
    let (c4, got', read') = cxl_tsp_get_configuration tsp misread target c3 old in
    let (c5, changed) = cxl_tsp_set_te_state tsp misread target c4 1 2 ((1 ∷ []) ∷ (2 ∷ []) ∷ []) in
    (set ≡ success)
    × (got ≡ success)
    × (read.configuration ≡ some wanted)
    × (read.current_tsp_state ≡ 0)
    × (locked ≡ success)
    × (got' ≡ success)
    × (read'.configuration ≡ some wanted)
    × (read'.current_tsp_state ≡ 1)
    × (changed ≡ success)
target_configured_example =
    target_configured tsp tsp-laws tsp-requests no_psk room has_room 9 misread target target-Serves
      controlled wanted wanted keys 7 1 2 ((1 ∷ []) ∷ (2 ∷ []) ∷ []) controlled-Controls refl
      accepted (omega arith) (omega arith)

configuration_report_fetched_example :
    cxl_tsp_get_configuration_report tsp misread target 300 1 controlled (replicate 300 5) ≡ (
      with_report controlled,
      returns success configuration_report_struct_size (
          take configuration_report_struct_size (set controlled.configuration_report 0 1)
          ++ drop configuration_report_struct_size (replicate 300 5)),
    )
configuration_report_fetched_example =
    configuration_report_fetched tsp tsp-requests no_psk room has_room 9 misread target
      target-Serves controlled 300 1 (replicate 300 5) controlled-Controls (inl refl)
      (omega (arith, length-replicate {A = ℕ} 4096 0)) (omega arith)

-- A peer that sends its number of portions still to come, two bytes at a time.
abbrev peer : ℕ → Request → ℕ → ℕ × Received
peer left q n = (
  left - 1,
  received 10 (record {
    header = record { tsp_version = 0x10; op_code = 0x05 };
    body = get_report_rsp 2 (min 64 (2 * left)) (8 ∷ 9 ∷ []);
  }),
)

peer-IsGiving : (left : ℕ) (q : Request) (n : ℕ) → IsGiving misread (peer left q n).1
unfolding report_of
peer-IsGiving left q n = sends_giving _ _ (omega arith) (omega arith) (omega arith)

configuration_report-Ends_example :
    Ends 6
      (replicate 6 0)
      (cxl_tsp_get_configuration_report tsp misread peer 6 7 2 (replicate 6 0)).1
unfolding replicate
configuration_report-Ends_example =
    configuration_report-Ends tsp misread 6 (replicate 6 0) (omega arith) (omega arith) peer
      peer-IsGiving 7 2 (omega arith)
