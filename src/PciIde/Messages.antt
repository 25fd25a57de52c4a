-- ===== src/PciIde/Messages.antt =====
-- The IDE_KM messages as the code of pci_ide_km_responder_lib and pci_ide_km_requester_lib reads and
-- writes them. The structures and numbers of the protocol are declared by
-- industry_standard/pci_idekm.h, which is part of libspdm and not of this repository: they are the
-- fields of `IdeKm`.
use spdm_emu.Prelude.{ℕ, List, ◌+◌, ◌≡◌, ◌≤◌, ◌<◌, bit_and, bit_or, Distinct, [], ◌∷◌}

-- A request buffer, as the fields that the handlers read through their own structures;
-- `key_buffer` is what follows a KEY_PROG request.
pub record Request : Type 0 where
  pub object_id : ℕ
  pub stream_id : ℕ
  pub key_sub_stream : ℕ
  pub port_index : ℕ
  pub key_buffer : List ℕ

-- A response buffer, as the fields of all response structures.
pub record Response : Type 0 where
  pub object_id : ℕ
  pub stream_id : ℕ
  pub key_sub_stream : ℕ
  pub port_index : ℕ
  pub status : ℕ
  pub dev_func_num : ℕ
  pub bus_num : ℕ
  pub segment : ℕ
  pub max_port_index : ℕ
  pub ide_reg_block : List ℕ

pub record IdeKm : Type 0 where
  -- object ids
  pub query : ℕ
  pub query_resp : ℕ
  pub key_prog : ℕ
  pub kp_ack : ℕ
  pub k_set_go : ℕ
  pub k_set_stop : ℕ
  pub k_set_gostop_ack : ℕ
  pub kp_ack_success : ℕ
  pub key_set_mask : ℕ
  pub key_direction_mask : ℕ
  -- sizeof
  pub header_size : ℕ
  pub query_size : ℕ
  pub query_resp_size : ℕ
  pub key_prog_size : ℕ
  pub key_buffer_size : ℕ
  pub kp_ack_size : ℕ
  pub k_set_go_size : ℕ
  pub k_set_stop_size : ℕ
  pub k_set_gostop_ack_size : ℕ

-- The place of a key in the arrays of the device:
-- key_sub_stream & (PCI_IDE_KM_KEY_SET_MASK | PCI_IDE_KM_KEY_DIRECTION_MASK).
abbrev pub slot : IdeKm → ℕ → ℕ
slot k key_sub_stream = bit_and key_sub_stream (bit_or k.key_set_mask k.key_direction_mask)

-- What the header documents, and the theorems use.
pub record IdeKmLaws (k : IdeKm) : Type 0 where
  pub requests_distinct : Distinct (k.query ∷ k.key_prog ∷ k.k_set_go ∷ k.k_set_stop ∷ [])
  -- The masks are those of two bits.
  pub slot_bound : (key_sub_stream : ℕ) → slot k key_sub_stream < 4
  pub query_resp_lem : k.query_resp_size ≡ k.header_size + 6
  pub query_fits : k.header_size ≤ k.query_size
  pub key_prog_fits : k.header_size ≤ k.key_prog_size + k.key_buffer_size
  pub k_set_go_fits : k.header_size ≤ k.k_set_go_size
  pub k_set_stop_fits : k.header_size ≤ k.k_set_stop_size
