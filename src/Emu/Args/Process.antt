-- ===== src/Emu/Args/Process.antt =====
-- process_args of spdm_emu/spdm_emu_common/spdm_emu.c.
use Prim.Native.String.{String}
use spdm_emu.Prelude.{
  ℕ, zero, suc, length, Bool, ◌||◌, List, [], ◌∷◌, if◌then◌else◌, Option, none, some,
}
use spdm_emu.Emu.Args.Names.{streq}
use spdm_emu.Emu.Args.Globals.{Settings, Host, Verdict, accepts, refuses, asserts, Branch}
use spdm_emu.Emu.Args.Branches.{
  opt_ip, opt_port, opt_decap_tdisp, opt_cap, opt_peer_cap, opt_save_state, opt_load_state,
  opt_pcap, opt_priv_key_mode, opt_verbose,
}
use spdm_emu.Emu.Args.Options.{
  opt_trans, opt_tcp_sub, opt_ver, opt_sec_ver, opt_hash, opt_meas_spec, opt_mel_spec,
  opt_meas_hash, opt_asym, opt_req_asym, opt_dhe, opt_aead, opt_pqc_asym, opt_req_pqc_asym, opt_kem,
  opt_key_schedule, opt_other_param, opt_pqc_first, opt_basic_mut_auth, opt_mut_auth, opt_meas_sum,
  opt_meas_op, opt_meas_att, opt_key_upd, opt_slot_id, opt_slot_count, opt_req_slot_id,
  opt_exe_mode, opt_exe_conn, opt_exe_session,
}

-- An option with an argument, or one that stands alone.
pub data Action : Type 0 where
  argument : Branch → Action
  alone : (Settings → Settings) → Action

-- One turn of the loop: an exit after the usage, a failed assertion, or the arguments that are left.
pub data Turn : Type 0 where
  exits : Turn
  aborts : Turn
  continues : List String → Settings → Turn

-- How process_args ends.
pub data Ending : Type 0 where
  ran_out : Ending
  exited : Ending
  aborted : Ending
  finished : Settings → Ending

module _ (h : Host) (program_name : String) where
  -- The options in the order in which the code compares them.
  unfoldable pub options : List (String × Action)
  options =
      ("--trans", argument (opt_trans h))
      ∷ ("--tcp_sub", argument (opt_tcp_sub h))
      ∷ ("--ip", argument opt_ip)
      ∷ ("--port", argument (opt_port h))
      ∷ ("--ver", argument (opt_ver h))
      ∷ ("--sec_ver", argument (opt_sec_ver h))
      ∷ ("--decap_tdisp", alone opt_decap_tdisp)
      ∷ ("--cap", argument (opt_cap h program_name))
      ∷ ("--peer_cap", argument (opt_peer_cap h program_name))
      ∷ ("--hash", argument (opt_hash h))
      ∷ ("--meas_spec", argument (opt_meas_spec h))
      ∷ ("--mel_spec", argument (opt_mel_spec h))
      ∷ ("--meas_hash", argument (opt_meas_hash h))
      ∷ ("--asym", argument (opt_asym h))
      ∷ ("--req_asym", argument (opt_req_asym h))
      ∷ ("--dhe", argument (opt_dhe h))
      ∷ ("--aead", argument (opt_aead h))
      ∷ ("--pqc_asym", argument (opt_pqc_asym h))
      ∷ ("--req_pqc_asym", argument (opt_req_pqc_asym h))
      ∷ ("--kem", argument (opt_kem h))
      ∷ ("--key_schedule", argument (opt_key_schedule h))
      ∷ ("--other_param", argument (opt_other_param h))
      ∷ ("--pqc_first", argument (opt_pqc_first h))
      ∷ ("--basic_mut_auth", argument (opt_basic_mut_auth h))
      ∷ ("--mut_auth", argument (opt_mut_auth h))
      ∷ ("--meas_sum", argument (opt_meas_sum h))
      ∷ ("--meas_op", argument (opt_meas_op h))
      ∷ ("--meas_att", argument (opt_meas_att h))
      ∷ ("--key_upd", argument (opt_key_upd h))
      ∷ ("--slot_id", argument (opt_slot_id h))
      ∷ ("--slot_count", argument (opt_slot_count h))
      ∷ ("--req_slot_id", argument (opt_req_slot_id h))
      ∷ ("--save_state", argument opt_save_state)
      ∷ ("--load_state", argument opt_load_state)
      ∷ ("--exe_mode", argument (opt_exe_mode h))
      ∷ ("--exe_conn", argument (opt_exe_conn h))
      ∷ ("--exe_session", argument (opt_exe_session h))
      ∷ ("--pcap", argument opt_pcap)
      ∷ ("--priv_key_mode", argument opt_priv_key_mode)
      ∷ ("--verbose", alone opt_verbose)
      ∷ ("-v", alone opt_verbose)
      ∷ []

unfoldable pub find_option : List (String × Action) → String → Option Action
find_option [] name = none
find_option ((option, action) ∷ table) name =
    if streq name option then some action else find_option table name

-- What follows a verdict, with the arguments behind the option's.
unfoldable pub after : List String → Verdict → Turn
after rest (accepts s) = continues rest s
after rest refuses = exits
after rest asserts = aborts

-- The branch that is taken, with the arguments behind the option's name.
unfoldable pub act : Option Action → List String → Settings → Turn
unfolding after
act none rest s = exits
act (some (alone set)) rest s = continues rest (set s)
act (some (argument branch)) [] s = exits
act (some (argument branch)) (value ∷ rest) s = after rest (branch value s)

-- The next turn of the loop, or the end.
unfoldable pub proceed : (List String → Settings → Ending) → Turn → Ending
proceed loop exits = exited
proceed loop aborts = aborted
proceed loop (continues rest s) = loop rest s

module _ (table : List (String × Action)) where
  -- The `while` loop, with fuel for its turns.
  unfoldable pub args_loop : ℕ → List String → Settings → Ending
  unfolding find_option act proceed
  args_loop zero args s = ran_out
  args_loop (suc fuel) [] s = finished s
  args_loop (suc fuel) (name ∷ rest) s =
      proceed (args_loop fuel) (act (find_option table name) rest s)

-- The capture file is opened behind the loop, for the transport that was chosen.
unfoldable pub open_capture : (String → Settings → Bool) → Ending → Ending
open_capture open_pcap_packet_file (finished s) = elim s.pcap_file_name [
  | none ↦ finished s
  | some name ↦ if open_pcap_packet_file name s then finished s else exited
]
open_capture open_pcap_packet_file ending = ending

module _ (h : Host) (open_pcap_packet_file : String → Settings → Bool) where
  -- `args` is what follows the program's own name.
  unfoldable pub process_args : String → List String → Settings → Ending
  unfolding args_loop open_capture options
  process_args program_name [] s = finished s
  process_args program_name (name ∷ rest) s =
      if streq name "-h" || streq name "--help"
      then exited
      else open_capture open_pcap_packet_file (
          args_loop (options h program_name) (suc (length (name ∷ rest))) (name ∷ rest)
            (record s { pcap_file_name = none }))
