-- ===== src/Emu/Args/Tests.antt =====
-- The command line at concrete arguments, for a host whose constants are all 4 but two.
use Prim.Native.String.{String}
use spdm_emu.Prelude.{
  suc, ◌≡◌, ◌≢◌, refl, true, false, length, List, [], ◌∷◌, ◌++◌, if◌then◌else◌, none, some,
}
use spdm_emu.Emu.Args.Names.{Entry, streq, get_value_from_name, get_flags_from_name}
use spdm_emu.Emu.Args.Tables.{m_hash_value_string_table}
use spdm_emu.Emu.Args.Globals.{Settings, Host}
use spdm_emu.Emu.Args.Branches.{opt_port, opt_pcap, opt_verbose}
use spdm_emu.Emu.Args.Options.{opt_trans, opt_hash}
use spdm_emu.Emu.Args.Process.{ran_out, exited, finished, options, args_loop, process_args}
use spdm_emu.Emu.Args.Runs.{args_loop_append, process_args-Ends}
use spdm_emu.Emu.Args.Flags.{NoComma, join, flags_of_names, flags_refused}

abbrev host : Host
host = record {
  macro = λ name.
      if streq name "SPDM_ALGORITHMS_BASE_HASH_ALGO_TPM_ALG_SHA_256"
      then 1
      else if streq name "SPDM_ALGORITHMS_BASE_HASH_ALGO_TPM_ALG_SHA_384"
      then 2
      else 4;
  malloc = λ size. true;
  atoi = λ text. if streq text "65537" then 65537 else 0;
}

abbrev start : Settings
start = record {
  m_use_transport_layer = 0;
  m_use_tcp_role_inquiry = 0;
  m_ip_address_string = "127.0.0.1";
  m_ip_explicitly_set = false;
  m_custom_port = 0;
  m_use_version = 0;
  m_use_secured_message_version = 0;
  m_decap_tdisp = false;
  m_use_capability_flags = 0;
  m_use_peer_capability_flags = 0;
  m_support_hash_algo = 0;
  m_support_measurement_spec = 0;
  m_support_mel_spec = 0;
  m_support_measurement_hash_algo = 0;
  m_support_asym_algo = 0;
  m_support_req_asym_algo = 0;
  m_support_dhe_algo = 0;
  m_support_aead_algo = 0;
  m_support_pqc_asym_algo = 0;
  m_support_req_pqc_asym_algo = 0;
  m_support_kem_algo = 0;
  m_support_key_schedule_algo = 0;
  m_support_other_params_support = 0;
  m_support_pqc_first = false;
  m_use_basic_mut_auth = 0;
  m_use_mut_auth = 0;
  m_use_measurement_summary_hash_type = 0;
  m_use_measurement_operation = 0;
  m_use_measurement_attribute = 0;
  m_use_key_update_action = 0;
  m_use_slot_id = 0;
  m_use_slot_count = 0;
  m_use_req_slot_id = 0;
  m_save_state_file_name = none;
  m_load_state_file_name = none;
  m_exe_mode = 0;
  m_exe_connection = 0;
  m_exe_session = 0;
  pcap_file_name = none;
  g_private_key_mode = false;
  m_verbose = false;
}

abbrev hashes : List Entry
hashes = m_hash_value_string_table host.macro

-- A port is taken modulo 2^16.
runs :
    (process_args host
        (λ name s. true)
        "spdm_requester_emu"
        ("--trans" ∷ "PCI_DOE" ∷ "--hash" ∷ "SHA_256,SHA_384" ∷ "-v" ∷ [])
        start
      ≡ finished
          (record start { m_use_transport_layer = 2; m_support_hash_algo = 3; m_verbose = true }))
    × (process_args host (λ name s. true) "spdm_requester_emu" ("--port" ∷ "65537" ∷ []) start
        ≡ finished (record start { m_custom_port = 1 }))
    × (process_args host (λ name s. true) "spdm_requester_emu" ("--hash" ∷ "SHA_1" ∷ []) start
        ≡ exited)
    × (process_args host (λ name s. true) "spdm_requester_emu" ("--hash" ∷ []) start ≡ exited)
    × (process_args host (λ name s. false) "spdm_requester_emu" ("--pcap" ∷ "a.pcap" ∷ []) start
        ≡ exited)
unfolding process_args opt_trans opt_hash opt_verbose opt_port opt_pcap
runs = (refl, refl, refl, refl, refl)

process_args-Ends_example :
    process_args host (λ name s. true) "spdm_requester_emu" ("--ver" ∷ "1.2" ∷ "--dhe" ∷ []) start
    ≢ ran_out
process_args-Ends_example =
    process_args-Ends host (λ name s. true) "spdm_requester_emu" ("--ver" ∷ "1.2" ∷ "--dhe" ∷ [])
      start

abbrev front : List String
front = "--trans" ∷ "PCI_DOE" ∷ "-v" ∷ []

abbrev back : List String
back = "--trans" ∷ "TCP" ∷ "--bad" ∷ []

args_loop_append_example :
    args_loop
      (options host "spdm_requester_emu")
      (suc (length (front ++ back)))
      (front ++ back)
      start
    ≡ args_loop
        (options host "spdm_requester_emu")
        (suc (length back))
        back
        (record start { m_use_transport_layer = 2; m_verbose = true })
unfolding args_loop options opt_trans opt_verbose
args_loop_append_example =
    args_loop_append (options host "spdm_requester_emu") front back start
      (record start { m_use_transport_layer = 2; m_verbose = true }) refl

-- No comma in a name of seven characters.
seven : NoComma "SHA_384"
seven = (refl, (refl, (refl, (refl, (refl, (refl, (refl, tt)))))))

abbrev two : List Entry
two = record { value = 2; name = "SHA_384" } ∷ record { value = 1; name = "SHA_256" } ∷ []

flags_of_names_example :
    get_flags_from_name host.malloc hashes (join ("SHA_384" ∷ "SHA_256" ∷ [])) ≡ some 3
unfolding get_value_from_name
flags_of_names_example =
    flags_of_names host.malloc hashes two (seven, (seven, tt)) (refl, (refl, tt)) refl

flags_refused_example :
    get_flags_from_name host.malloc hashes (join ("SHA_384" ∷ "MD5" ∷ "SHA_256" ∷ [])) ≡ none
unfolding get_value_from_name
flags_refused_example =
    flags_refused host.malloc hashes (record { value = 2; name = "SHA_384" } ∷ []) "MD5"
      ("SHA_256" ∷ []) (refl, tt) (seven, ((refl, (refl, (refl, tt))), (seven, tt))) refl
