-- ===== src/Emu/Args/Branches.antt =====
-- The branches of process_args of spdm_emu/spdm_emu_common/spdm_emu.c for the options that no table
-- of names reads alone, and what the others share.
use Prim.Native.String.{String, len}
use spdm_emu.Prelude.{ℕ, ◌%◌, ◌^◌, ◌==◌, leb, true, false, List, if◌then◌else◌, none, some}
use spdm_emu.Emu.Args.Names.{Entry, streq, get_value_from_name, get_flags_from_name}
use spdm_emu.Emu.Args.Tables.{
  m_spdm_requester_capabilities_string_table, m_spdm_responder_capabilities_string_table,
}
use spdm_emu.Emu.Args.Globals.{Settings, Host, accepts, refuses, asserts, Branch}

unfoldable pub opt_ip : Branch
opt_ip argument s =
    if leb 16 (len argument)
    then refuses
    else accepts (record s { m_ip_address_string = argument; m_ip_explicitly_set = true })

unfoldable pub opt_decap_tdisp : Settings → Settings
opt_decap_tdisp s = record s { m_decap_tdisp = true }

unfoldable pub opt_save_state : Branch
opt_save_state argument s = accepts (record s { m_save_state_file_name = some argument })

unfoldable pub opt_load_state : Branch
opt_load_state argument s = accepts (record s { m_load_state_file_name = some argument })

unfoldable pub opt_pcap : Branch
opt_pcap argument s = accepts (record s { pcap_file_name = some argument })

unfoldable pub opt_priv_key_mode : Branch
opt_priv_key_mode argument s =
    if streq argument "PEM"
    then accepts (record s { g_private_key_mode = true })
    else if streq argument "RAW"
    then accepts (record s { g_private_key_mode = false })
    else refuses

unfoldable pub opt_verbose : Settings → Settings
opt_verbose s = record s { m_verbose = true }

module _ (h : Host) where
  unfoldable pub opt_port : Branch
  opt_port argument s =
      let port = h.atoi argument % 2 ^ 16 in
      if port == 0 then refuses else accepts (record s { m_custom_port = port })

  -- An option whose argument is one name of a table.
  unfoldable pub by_value : List Entry → (ℕ → Settings → Settings) → Branch
  unfolding get_value_from_name
  by_value table set argument s = elim (get_value_from_name table argument) [
    | none ↦ refuses
    | some n ↦ accepts (set n s)
  ]

  -- An option whose argument is a list of names of a table.
  unfoldable pub by_flags : List Entry → (ℕ → Settings → Settings) → Branch
  unfolding get_flags_from_name
  by_flags table set argument s = elim (get_flags_from_name h.malloc table argument) [
    | none ↦ refuses
    | some n ↦ accepts (set n s)
  ]

  -- The table depends on the program that reads its arguments.
  unfoldable pub opt_cap : String → Branch
  unfolding by_flags
  opt_cap program_name argument s =
      let set : ℕ → Settings → Settings = λ n s'. record s' { m_use_capability_flags = n } in
      if streq program_name "spdm_requester_emu"
      then by_flags (m_spdm_requester_capabilities_string_table h.macro) set argument s
      else if streq program_name "spdm_responder_emu"
      then by_flags (m_spdm_responder_capabilities_string_table h.macro) set argument s
      else asserts

  unfoldable pub opt_peer_cap : String → Branch
  unfolding by_flags
  opt_peer_cap program_name argument s =
      let set : ℕ → Settings → Settings = λ n s'. record s' { m_use_peer_capability_flags = n } in
      if streq program_name "spdm_responder_emu"
      then by_flags (m_spdm_requester_capabilities_string_table h.macro) set argument s
      else if streq program_name "spdm_requester_emu"
      then by_flags (m_spdm_responder_capabilities_string_table h.macro) set argument s
      else asserts
