-- ===== src/Emu/Args/Globals.antt =====
-- The globals that process_args of spdm_emu/spdm_emu_common/spdm_emu.c sets, and what it asks of
-- its surroundings.
use Prim.Native.String.{String}
use spdm_emu.Prelude.{ℕ, Bool, Option}

-- The globals, and the local `pcap_file_name`.
pub record Settings : Type 0 where
  pub m_use_transport_layer : ℕ
  pub m_use_tcp_role_inquiry : ℕ
  pub m_ip_address_string : String
  pub m_ip_explicitly_set : Bool
  pub m_custom_port : ℕ
  pub m_use_version : ℕ
  pub m_use_secured_message_version : ℕ
  pub m_decap_tdisp : Bool
  pub m_use_capability_flags : ℕ
  pub m_use_peer_capability_flags : ℕ
  pub m_support_hash_algo : ℕ
  pub m_support_measurement_spec : ℕ
  pub m_support_mel_spec : ℕ
  pub m_support_measurement_hash_algo : ℕ
  pub m_support_asym_algo : ℕ
  pub m_support_req_asym_algo : ℕ
  pub m_support_dhe_algo : ℕ
  pub m_support_aead_algo : ℕ
  pub m_support_pqc_asym_algo : ℕ
  pub m_support_req_pqc_asym_algo : ℕ
  pub m_support_kem_algo : ℕ
  pub m_support_key_schedule_algo : ℕ
  pub m_support_other_params_support : ℕ
  pub m_support_pqc_first : Bool
  pub m_use_basic_mut_auth : ℕ
  pub m_use_mut_auth : ℕ
  pub m_use_measurement_summary_hash_type : ℕ
  pub m_use_measurement_operation : ℕ
  pub m_use_measurement_attribute : ℕ
  pub m_use_key_update_action : ℕ
  pub m_use_slot_id : ℕ
  pub m_use_slot_count : ℕ
  pub m_use_req_slot_id : ℕ
  pub m_save_state_file_name : Option String
  pub m_load_state_file_name : Option String
  pub m_exe_mode : ℕ
  pub m_exe_connection : ℕ
  pub m_exe_session : ℕ
  pub pcap_file_name : Option String
  pub g_private_key_mode : Bool
  pub m_verbose : Bool

-- The constants of libspdm by their names, whether so many bytes can be allocated, and atoi as a
-- 32-bit pattern.
pub record Host : Type 0 where
  pub macro : String → ℕ
  pub malloc : ℕ → Bool
  pub atoi : String → ℕ

-- What the branch of an option does with its argument: new settings, the usage and an exit, or an
-- assertion that fails.
pub data Verdict : Type 0 where
  accepts : Settings → Verdict
  refuses : Verdict
  asserts : Verdict

abbrev pub Branch : Type 0
Branch = String → Settings → Verdict
