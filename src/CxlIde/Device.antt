-- ===== src/CxlIde/Device.antt =====
-- library/cxl_ide_km_device_lib_sample: the port context, which is the global
-- `g_cxlidekm_device_port_context`, and the operations on it.
use spdm_emu.Prelude.{
  ℕ, Bool, true, false, List, [], ◌∷◌, ◌==◌, if◌then◌else◌, replicate, set, bit_or, Option, none,
  some, Status, success, low_entropy, invalid_msg_field,
}
use spdm_emu.CxlIde.Messages.{CxlIdeKm, KeyBuffer, zero_key, place}

-- CXL_IDE_KM_IDE_CAP_REG_BLOCK_MAX_COUNT
abbrev pub ide_cap_reg_block_max_count : ℕ
ide_cap_reg_block_max_count = 9

-- `libcxlidekm_device_port_context`
pub record CxlPort : Type 0 where
  pub port_index : ℕ
  pub dev_func_num : ℕ
  pub bus_num : ℕ
  pub segment : ℕ
  pub max_port_index : ℕ
  pub caps : ℕ
  pub ide_reg_buffer : List ℕ
  pub ide_reg_buffer_count : ℕ
  pub stream_id : ℕ
  pub key_buffer : List KeyBuffer
  pub is_key_prog : List Bool
  pub is_key_set_go : List Bool

unfoldable pub libcxlidekm_get_device_port_context : CxlPort → ℕ → Bool
libcxlidekm_get_device_port_context c port_index = c.port_index == port_index

module _ (k : CxlIdeKm) where
  unfoldable pub libcxlidekm_initialize_device_port_context : ℕ → CxlPort
  libcxlidekm_initialize_device_port_context port_index = record {
    port_index = port_index;
    dev_func_num = 0;
    bus_num = 0;
    segment = 0;
    max_port_index = 7;
    caps = bit_or (bit_or (bit_or k.cap_version_1 k.iv_gen_cap) k.key_gen_cap) k.k_set_stop_cap;
    ide_reg_buffer = replicate ide_cap_reg_block_max_count 0;
    ide_reg_buffer_count = ide_cap_reg_block_max_count;
    stream_id = 0;
    key_buffer = replicate 2 zero_key;
    is_key_prog = replicate 2 false;
    is_key_set_go = replicate 2 false;
  }

  -- The last component is `*kp_ack_status`, where it is written.
  unfoldable pub cxl_ide_km_device_key_prog : CxlPort → ℕ → ℕ → KeyBuffer → ℕ → CxlPort × Status × ℕ
  unfolding libcxlidekm_get_device_port_context
  cxl_ide_km_device_key_prog c key_sub_stream port_index key kp_ack_status =
      if libcxlidekm_get_device_port_context c port_index
      then (
        record c {
          key_buffer = set c.key_buffer (place k key_sub_stream) key;
          is_key_prog = set c.is_key_prog (place k key_sub_stream) true;
        },
        success,
        k.kp_ack_success,
      )
      else (c, invalid_msg_field, kp_ack_status)

  unfoldable pub cxl_ide_km_device_key_set_go : CxlPort → ℕ → ℕ → CxlPort × Status
  unfolding libcxlidekm_get_device_port_context
  cxl_ide_km_device_key_set_go c key_sub_stream port_index =
      if libcxlidekm_get_device_port_context c port_index
      then (record c { is_key_set_go = set c.is_key_set_go (place k key_sub_stream) true }, success)
      else (c, invalid_msg_field)

  unfoldable pub cxl_ide_km_device_key_set_stop : CxlPort → ℕ → ℕ → CxlPort × Status
  unfolding libcxlidekm_get_device_port_context
  cxl_ide_km_device_key_set_stop c key_sub_stream port_index =
      if libcxlidekm_get_device_port_context c port_index
      then (
        record c { is_key_set_go = set c.is_key_set_go (place k key_sub_stream) false },
        success,
      )
      else (c, invalid_msg_field)

  -- `random` is what libspdm_get_random_number draws, nothing where it fails.
  unfoldable pub cxl_ide_km_device_get_key :
      CxlPort → Option (List ℕ) → ℕ → KeyBuffer → Status × KeyBuffer
  unfolding libcxlidekm_get_device_port_context
  cxl_ide_km_device_get_key c random port_index key_buffer =
      if libcxlidekm_get_device_port_context c port_index
      then elim random [
        | none ↦ (low_entropy, key_buffer)
        | some key ↦ (success, record { key = key; iv = 0 ∷ 1 ∷ 2 ∷ [] })
      ]
      else (invalid_msg_field, key_buffer)

  -- What is written through the pointers is read from the new context.
  unfoldable pub cxl_ide_km_device_query : CxlPort → ℕ → CxlPort × Status
  unfolding libcxlidekm_initialize_device_port_context
  cxl_ide_km_device_query c port_index =
      (libcxlidekm_initialize_device_port_context port_index, success)
