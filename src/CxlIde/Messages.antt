-- ===== src/CxlIde/Messages.antt =====
-- The messages of CXL IDE key management as the code of cxl_ide_km_responder_lib and
-- cxl_ide_km_requester_lib reads and writes them. The numbers of industry_standard/cxl_idekm.h, which
-- is part of libspdm and not of this repository, are the fields of `CxlIdeKm`.
use spdm_emu.Prelude.{ℕ, List, ◌+◌, ◌/◌, ◌≤◌, ◌<◌, bit_and, Distinct, [], ◌∷◌}

-- `cxl_ide_km_aes_256_gcm_key_buffer_t`
pub record KeyBuffer : Type 0 where
  pub key : List ℕ
  pub iv : List ℕ

-- A request buffer, as the fields that the handlers read through their own structures;
-- `key_buffer` is what follows a KEY_PROG request.
pub record Request : Type 0 where
  pub object_id : ℕ
  pub stream_id : ℕ
  pub key_sub_stream : ℕ
  pub port_index : ℕ
  pub key_buffer : KeyBuffer

-- A response buffer, as the fields of all response structures.
pub record Response : Type 0 where
  pub object_id : ℕ
  pub stream_id : ℕ
  pub key_sub_stream : ℕ
  pub port_index : ℕ
  pub status : ℕ
  pub dev_func_num : ℕ
  pub bus_num : ℕ
  pub segment : ℕ
  pub max_port_index : ℕ
  pub caps : ℕ
  pub ide_reg_block : List ℕ
  pub key_buffer : KeyBuffer

pub record CxlIdeKm : Type 0 where
  -- object ids
  pub query : ℕ
  pub query_resp : ℕ
  pub key_prog : ℕ
  pub kp_ack : ℕ
  pub k_set_go : ℕ
  pub k_set_stop : ℕ
  pub k_set_gostop_ack : ℕ
  pub get_key : ℕ
  pub get_key_ack : ℕ
  pub kp_ack_success : ℕ
  pub key_direction_mask : ℕ
  -- capabilities
  pub cap_version_1 : ℕ
  pub iv_gen_cap : ℕ
  pub key_gen_cap : ℕ
  pub k_set_stop_cap : ℕ
  -- sizeof
  pub header_size : ℕ
  pub query_size : ℕ
  pub query_resp_size : ℕ
  pub key_prog_size : ℕ
  pub key_buffer_size : ℕ
  pub kp_ack_size : ℕ
  pub k_set_go_size : ℕ
  pub k_set_stop_size : ℕ
  pub k_set_gostop_ack_size : ℕ
  pub get_key_size : ℕ

-- A zeroed key buffer.
unfoldable pub zero_key : KeyBuffer
zero_key = record { key = 0 ∷ 0 ∷ 0 ∷ 0 ∷ 0 ∷ 0 ∷ 0 ∷ 0 ∷ []; iv = 0 ∷ 0 ∷ 0 ∷ [] }

-- The place of a key in the arrays of the device: (key_sub_stream & CXL_IDE_KM_KEY_DIRECTION_MASK) >> 1.
abbrev pub place : CxlIdeKm → ℕ → ℕ
place k key_sub_stream = bit_and key_sub_stream k.key_direction_mask / 2

-- What the header documents, and the theorems use: the mask is that of the second bit.
pub record CxlIdeKmLaws (k : CxlIdeKm) : Type 0 where
  pub requests_distinct :
      Distinct (k.query ∷ k.key_prog ∷ k.k_set_go ∷ k.k_set_stop ∷ k.get_key ∷ [])
  pub place_bound : (key_sub_stream : ℕ) → place k key_sub_stream < 2
  pub query_fits : k.header_size ≤ k.query_size
  pub key_prog_fits : k.header_size ≤ k.key_prog_size + k.key_buffer_size
  pub k_set_go_fits : k.header_size ≤ k.k_set_go_size
  pub k_set_stop_fits : k.header_size ≤ k.k_set_stop_size
  pub get_key_fits : k.header_size ≤ k.get_key_size
