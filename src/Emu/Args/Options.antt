-- ===== src/Emu/Args/Options.antt =====
-- The branches of process_args of spdm_emu/spdm_emu_common/spdm_emu.c for the options whose argument
-- is read by a table of names, from the argument on.
use spdm_emu.Prelude.{◌%◌, ◌^◌, ◌!=◌}
use spdm_emu.Emu.Args.Tables.{
  m_aead_value_string_table, m_asym_value_string_table, m_basic_mut_auth_policy_string_table,
  m_dhe_value_string_table, m_exe_connection_string_table, m_exe_mode_string_table,
  m_exe_session_string_table, m_hash_value_string_table, m_kem_value_string_table,
  m_key_schedule_value_string_table, m_key_update_action_string_table,
  m_measurement_attribute_string_table, m_measurement_hash_value_string_table,
  m_measurement_operation_string_table, m_measurement_spec_value_string_table,
  m_measurement_summary_hash_type_string_table, m_mel_spec_value_string_table,
  m_mut_auth_policy_string_table, m_other_param_value_string_table, m_pqc_asym_value_string_table,
  m_pqc_first_policy_string_table, m_secured_message_version_value_string_table,
  m_slot_count_string_table, m_slot_id_string_table, m_tcp_subtype_string_table,
  m_transport_value_string_table, m_version_value_string_table,
}
use spdm_emu.Emu.Args.Globals.{Host, Branch}
use spdm_emu.Emu.Args.Branches.{by_value, by_flags}

module _ (h : Host) where
  unfoldable pub opt_trans : Branch
  unfolding by_value
  opt_trans =
      by_value h (m_transport_value_string_table h.macro)
        λ n s. record s { m_use_transport_layer = n }

  unfoldable pub opt_tcp_sub : Branch
  unfolding by_value
  opt_tcp_sub =
      by_value h (m_tcp_subtype_string_table h.macro) λ n s. record s { m_use_tcp_role_inquiry = n }

  unfoldable pub opt_ver : Branch
  unfolding by_value
  opt_ver =
      by_value h (m_version_value_string_table h.macro)
        λ n s. record s { m_use_version = n % 2 ^ 8 }

  unfoldable pub opt_sec_ver : Branch
  unfolding by_value
  opt_sec_ver =
      by_value h (m_secured_message_version_value_string_table h.macro)
        λ n s. record s { m_use_secured_message_version = n % 2 ^ 8 }

  unfoldable pub opt_hash : Branch
  unfolding by_flags
  opt_hash =
      by_flags h (m_hash_value_string_table h.macro) λ n s. record s { m_support_hash_algo = n }

  unfoldable pub opt_meas_spec : Branch
  unfolding by_flags
  opt_meas_spec =
      by_flags h (m_measurement_spec_value_string_table h.macro)
        λ n s. record s { m_support_measurement_spec = n % 2 ^ 8 }

  unfoldable pub opt_mel_spec : Branch
  unfolding by_flags
  opt_mel_spec =
      by_flags h (m_mel_spec_value_string_table h.macro)
        λ n s. record s { m_support_mel_spec = n % 2 ^ 8 }

  unfoldable pub opt_meas_hash : Branch
  unfolding by_flags
  opt_meas_hash =
      by_flags h (m_measurement_hash_value_string_table h.macro)
        λ n s. record s { m_support_measurement_hash_algo = n }

  unfoldable pub opt_asym : Branch
  unfolding by_flags
  opt_asym =
      by_flags h (m_asym_value_string_table h.macro) λ n s. record s { m_support_asym_algo = n }

  unfoldable pub opt_req_asym : Branch
  unfolding by_flags
  opt_req_asym =
      by_flags h (m_asym_value_string_table h.macro)
        λ n s. record s { m_support_req_asym_algo = n % 2 ^ 16 }

  unfoldable pub opt_dhe : Branch
  unfolding by_flags
  opt_dhe =
      by_flags h (m_dhe_value_string_table h.macro)
        λ n s. record s { m_support_dhe_algo = n % 2 ^ 16 }

  unfoldable pub opt_aead : Branch
  unfolding by_flags
  opt_aead =
      by_flags h (m_aead_value_string_table h.macro)
        λ n s. record s { m_support_aead_algo = n % 2 ^ 16 }

  unfoldable pub opt_pqc_asym : Branch
  unfolding by_flags
  opt_pqc_asym =
      by_flags h (m_pqc_asym_value_string_table h.macro)
        λ n s. record s { m_support_pqc_asym_algo = n }

  unfoldable pub opt_req_pqc_asym : Branch
  unfolding by_flags
  opt_req_pqc_asym =
      by_flags h (m_pqc_asym_value_string_table h.macro)
        λ n s. record s { m_support_req_pqc_asym_algo = n }

  unfoldable pub opt_kem : Branch
  unfolding by_flags
  opt_kem = by_flags h (m_kem_value_string_table h.macro) λ n s. record s { m_support_kem_algo = n }

  unfoldable pub opt_key_schedule : Branch
  unfolding by_flags
  opt_key_schedule =
      by_flags h (m_key_schedule_value_string_table h.macro)
        λ n s. record s { m_support_key_schedule_algo = n % 2 ^ 16 }

  unfoldable pub opt_other_param : Branch
  unfolding by_flags
  opt_other_param =
      by_flags h (m_other_param_value_string_table h.macro)
        λ n s. record s { m_support_other_params_support = n % 2 ^ 8 }

  unfoldable pub opt_pqc_first : Branch
  unfolding by_value
  opt_pqc_first =
      by_value h (m_pqc_first_policy_string_table h.macro)
        λ n s. record s { m_support_pqc_first = n != 0 }

  unfoldable pub opt_basic_mut_auth : Branch
  unfolding by_value
  opt_basic_mut_auth =
      by_value h (m_basic_mut_auth_policy_string_table h.macro)
        λ n s. record s { m_use_basic_mut_auth = n % 2 ^ 8 }

  unfoldable pub opt_mut_auth : Branch
  unfolding by_value
  opt_mut_auth =
      by_value h (m_mut_auth_policy_string_table h.macro)
        λ n s. record s { m_use_mut_auth = n % 2 ^ 8 }

  unfoldable pub opt_meas_sum : Branch
  unfolding by_value
  opt_meas_sum =
      by_value h (m_measurement_summary_hash_type_string_table h.macro)
        λ n s. record s { m_use_measurement_summary_hash_type = n % 2 ^ 8 }

  unfoldable pub opt_meas_op : Branch
  unfolding by_value
  opt_meas_op =
      by_value h (m_measurement_operation_string_table h.macro)
        λ n s. record s { m_use_measurement_operation = n % 2 ^ 8 }

  unfoldable pub opt_meas_att : Branch
  unfolding by_value
  opt_meas_att =
      by_value h (m_measurement_attribute_string_table h.macro)
        λ n s. record s { m_use_measurement_attribute = n % 2 ^ 8 }

  unfoldable pub opt_key_upd : Branch
  unfolding by_value
  opt_key_upd =
      by_value h (m_key_update_action_string_table h.macro)
        λ n s. record s { m_use_key_update_action = n }

  unfoldable pub opt_slot_id : Branch
  unfolding by_value
  opt_slot_id =
      by_value h (m_slot_id_string_table h.macro) λ n s. record s { m_use_slot_id = n % 2 ^ 8 }

  unfoldable pub opt_slot_count : Branch
  unfolding by_value
  opt_slot_count =
      by_value h (m_slot_count_string_table h.macro)
        λ n s. record s { m_use_slot_count = n % 2 ^ 8 }

  unfoldable pub opt_req_slot_id : Branch
  unfolding by_value
  opt_req_slot_id =
      by_value h (m_slot_id_string_table h.macro) λ n s. record s { m_use_req_slot_id = n % 2 ^ 8 }

  unfoldable pub opt_exe_mode : Branch
  unfolding by_value
  opt_exe_mode = by_value h (m_exe_mode_string_table h.macro) λ n s. record s { m_exe_mode = n }

  unfoldable pub opt_exe_conn : Branch
  unfolding by_flags
  opt_exe_conn =
      by_flags h (m_exe_connection_string_table h.macro) λ n s. record s { m_exe_connection = n }

  unfoldable pub opt_exe_session : Branch
  unfolding by_flags
  opt_exe_session =
      by_flags h (m_exe_session_string_table h.macro) λ n s. record s { m_exe_session = n }
