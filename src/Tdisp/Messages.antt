-- ===== src/Tdisp/Messages.antt =====
-- The TDISP messages as the code of pci_tdisp_responder_lib reads and writes them. The message
-- structures and the numbers of the protocol are declared by industry_standard/pci_tdisp.h, which
-- is part of libspdm and not of this repository: they are the fields of `Tdisp`.
use spdm_emu.Prelude.{All, Distinct, [], ◌∷◌, ◌≤◌, ℕ, Bool, List, ◌≡◌, ◌≢◌, ◌↔◌, true}

-- `pci_tdisp_interface_id_t`: `rest` holds the bytes that the code only copies and compares.
pub record InterfaceId : Type 0 where
  pub function_id : ℕ
  pub rest : List ℕ

-- `pci_tdisp_header_t`
pub record Header : Type 0 where
  pub version : ℕ
  pub message_type : ℕ
  pub interface_id : InterfaceId

-- `pci_tdisp_responder_capabilities_t`, the fields that the device library fills.
pub record ResponderCapabilities : Type 0 where
  pub dsm_caps : ℕ
  pub req_msg_supported : List ℕ
  pub lock_interface_flags_supported : ℕ
  pub dev_addr_width : ℕ
  pub num_req_this : ℕ
  pub num_req_all : ℕ

-- `pci_tdisp_mmio_range_t`
pub record MmioRange : Type 0 where
  pub first_page : ℕ
  pub number_of_pages : ℕ
  pub range_attributes : ℕ
  pub range_id : ℕ

-- `pci_tdisp_device_interface_report_struct_mine_t`
pub record InterfaceReport : Type 0 where
  pub interface_info : ℕ
  pub msi_x_message_control : ℕ
  pub lnr_control : ℕ
  pub tph_control : ℕ
  pub mmio_range_count : ℕ
  pub mmio_range : List MmioRange
  pub device_specific_info_len : ℕ
  pub device_specific_info : List ℕ

-- A request buffer, as the fields that the handlers read through their own request structure.
-- Structures that are only copied are lists of their bytes.
pub record Request : Type 0 where
  pub header : Header
  pub req_caps : List ℕ
  pub lock_interface_param : List ℕ
  pub start_interface_nonce : List ℕ
  pub offset : ℕ
  pub length : ℕ

-- What follows the header in each response structure.
pub data Body : Type 0 where
  version_rsp : ℕ → List ℕ → Body
  capabilities_rsp : ResponderCapabilities → Body
  lock_interface_rsp : List ℕ → Body
  interface_report_rsp : ℕ → ℕ → List ℕ → Body
  interface_state_rsp : ℕ → Body
  start_interface_rsp : Body
  stop_interface_rsp : Body
  error_rsp : ℕ → ℕ → Body

pub record Response : Type 0 where
  pub header : Header
  pub body : Body

-- The three fields that the requester reads of a report response.
pub record ReportView : Type 0 where
  pub portion_length : ℕ
  pub remainder_length : ℕ
  pub report : List ℕ

-- industry_standard/pci_tdisp.h, and what the TDISP code calls of libspdm.
pub record Tdisp : Type 0 where
  pub version_10 : ℕ
  -- message types
  pub get_version : ℕ
  pub get_capabilities : ℕ
  pub lock_interface_req : ℕ
  pub get_device_interface_report : ℕ
  pub get_device_interface_state : ℕ
  pub start_interface_req : ℕ
  pub stop_interface_req : ℕ
  pub version : ℕ
  pub capabilities : ℕ
  pub lock_interface : ℕ
  pub device_interface_report : ℕ
  pub device_interface_state : ℕ
  pub start_interface : ℕ
  pub stop_interface : ℕ
  pub error : ℕ
  -- PCI_TDISP_ERROR_CODE_*
  pub invalid_request : ℕ
  pub invalid_interface : ℕ
  pub invalid_interface_state : ℕ
  pub invalid_nonce : ℕ
  pub insufficient_entropy : ℕ
  pub unsupported_request : ℕ
  pub version_mismatch : ℕ
  -- PCI_TDISP_INTERFACE_STATE_*
  pub config_unlocked : ℕ
  pub config_locked : ℕ
  pub run : ℕ
  -- flags and attributes
  pub no_fw_update : ℕ
  pub system_cache_line_size : ℕ
  pub lock_msix : ℕ
  pub no_update_after_lock : ℕ
  pub dma_without_pasid : ℕ
  pub is_non_tee_mem : ℕ
  pub is_mem_attr_updatable : ℕ
  -- sizeof
  pub header_size : ℕ
  pub get_version_size : ℕ
  pub get_capabilities_size : ℕ
  pub lock_interface_req_size : ℕ
  pub get_report_size : ℕ
  pub get_state_size : ℕ
  pub start_interface_req_size : ℕ
  pub stop_interface_req_size : ℕ
  pub version_rsp_size : ℕ
  pub capabilities_rsp_size : ℕ
  pub lock_interface_rsp_size : ℕ
  pub report_rsp_size : ℕ
  pub state_rsp_size : ℕ
  pub start_interface_rsp_size : ℕ
  pub stop_interface_rsp_size : ℕ
  pub error_size : ℕ
  pub interface_id_rest_size : ℕ
  pub req_caps_size : ℕ
  pub req_msg_supported_size : ℕ
  pub lock_interface_param_size : ℕ
  pub nonce_size : ℕ
  -- the bytes of a report structure in memory
  pub report_bytes : InterfaceReport → List ℕ
  -- what the requester reads if the response is another structure than the one it expects
  pub misread : Body → ReportView
  -- `libspdm_consttime_is_mem_equal`
  pub mem_equal : List ℕ → List ℕ → Bool

-- What the header and libspdm document, and the theorems use.
pub record TdispLaws (k : Tdisp) : Type 0 where
  pub unlocked_ne_locked : k.config_unlocked ≢ k.config_locked
  pub unlocked_ne_run : k.config_unlocked ≢ k.run
  pub locked_ne_run : k.config_locked ≢ k.run
  pub invalid_interface_ne_success : k.invalid_interface ≢ 0
  pub invalid_interface_state_ne_success : k.invalid_interface_state ≢ 0
  pub invalid_nonce_ne_success : k.invalid_nonce ≢ 0
  pub insufficient_entropy_ne_success : k.insufficient_entropy ≢ 0
  pub mem_equal_iff : (a b : List ℕ) → (k.mem_equal a b ≡ true) ↔ (a ≡ b)
  pub types_distinct : Distinct (
      k.get_version ∷ k.get_capabilities ∷ k.lock_interface_req ∷ k.get_device_interface_report
      ∷ k.get_device_interface_state ∷ k.start_interface_req ∷ k.stop_interface_req ∷ [])
  pub header_fits :
      All
        (λ n. k.header_size ≤ n)
        (k.get_version_size ∷ k.get_capabilities_size ∷ k.lock_interface_req_size
          ∷ k.get_report_size ∷ k.get_state_size ∷ k.start_interface_req_size
          ∷ k.stop_interface_req_size ∷ [])
