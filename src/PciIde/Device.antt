-- ===== src/PciIde/Device.antt =====
-- library/pci_ide_km_device_lib_sample: the port context and the operations on it. The context is the
-- global `g_idekm_device_port_context`; libidekm_get_device_port_context answers whether it is the
-- context of the port that was asked for.
use spdm_emu.Prelude.{
  ℕ, ◌+◌, ◌*◌, Bool, true, false, List, ◌==◌, if◌then◌else◌, replicate, set, Status, success,
  invalid_msg_field,
}
use spdm_emu.PciIde.Messages.{IdeKm, slot}

-- PCI_IDE_KM_IDE_REG_BLOCK_SUPPORTED_COUNT
abbrev pub ide_reg_block_supported_count : ℕ
ide_reg_block_supported_count = 2 + 2 * 4 + (3 + 2 + 3 * 1) * 8

-- `libidekm_device_port_context`
pub record Port : Type 0 where
  pub port_index : ℕ
  pub dev_func_num : ℕ
  pub bus_num : ℕ
  pub segment : ℕ
  pub max_port_index : ℕ
  pub ide_reg_buffer : List ℕ
  pub ide_reg_buffer_count : ℕ
  pub stream_id : ℕ
  pub key_buffer : List (List ℕ)
  pub is_key_prog : List Bool
  pub is_key_set_go : List Bool

unfoldable pub libidekm_get_device_port_context : Port → ℕ → Bool
libidekm_get_device_port_context c port_index = c.port_index == port_index

module _ (k : IdeKm) where
  unfoldable pub libidekm_initialize_device_port_context : ℕ → Port
  libidekm_initialize_device_port_context port_index = record {
    port_index = port_index;
    dev_func_num = 0;
    bus_num = 0;
    segment = 0;
    max_port_index = 7;
    ide_reg_buffer = replicate ide_reg_block_supported_count 0;
    ide_reg_buffer_count = ide_reg_block_supported_count;
    stream_id = 0;
    key_buffer = replicate 4 (replicate k.key_buffer_size 0);
    is_key_prog = replicate 4 false;
    is_key_set_go = replicate 4 false;
  }

  -- The last component is `*kp_ack_status`, where it is written.
  unfoldable pub pci_ide_km_device_key_prog : Port → ℕ → ℕ → List ℕ → ℕ → Port × Status × ℕ
  unfolding libidekm_get_device_port_context
  pci_ide_km_device_key_prog c key_sub_stream port_index key kp_ack_status =
      if libidekm_get_device_port_context c port_index
      then (
        record c {
          key_buffer = set c.key_buffer (slot k key_sub_stream) key;
          is_key_prog = set c.is_key_prog (slot k key_sub_stream) true;
        },
        success,
        k.kp_ack_success,
      )
      else (c, invalid_msg_field, kp_ack_status)

  unfoldable pub pci_ide_km_device_key_set_go : Port → ℕ → ℕ → Port × Status
  unfolding libidekm_get_device_port_context
  pci_ide_km_device_key_set_go c key_sub_stream port_index =
      if libidekm_get_device_port_context c port_index
      then (record c { is_key_set_go = set c.is_key_set_go (slot k key_sub_stream) true }, success)
      else (c, invalid_msg_field)

  unfoldable pub pci_ide_km_device_key_set_stop : Port → ℕ → ℕ → Port × Status
  unfolding libidekm_get_device_port_context
  pci_ide_km_device_key_set_stop c key_sub_stream port_index =
      if libidekm_get_device_port_context c port_index
      then (record c { is_key_set_go = set c.is_key_set_go (slot k key_sub_stream) false }, success)
      else (c, invalid_msg_field)

  -- What is written through the pointers is read from the new context.
  unfoldable pub pci_ide_km_device_query : Port → ℕ → Port × Status
  unfolding libidekm_initialize_device_port_context
  pci_ide_km_device_query c port_index =
      (libidekm_initialize_device_port_context port_index, success)
