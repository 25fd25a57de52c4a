-- ===== src/Tdisp/Device.antt =====
-- library/pci_tdisp_device_lib_sample: the interface context and the operations on it. The context
-- is the global `g_tdisp_interface_context`; each operation returns the new one, the error code and
-- what it writes through its pointers.
use spdm_emu.Prelude.{
  ℕ, ◌-◌, Bool, List, [], ◌∷◌, ◌++◌, Option, none, some, bit_or, ◌==◌, ◌!=◌, if◌then◌else◌, length,
  take, drop, replicate,
}
use spdm_emu.Tdisp.Messages.{InterfaceId, ResponderCapabilities, MmioRange, InterfaceReport, Tdisp}

-- `libtdisp_interface_context`. The report is the whole array of LIBTDISP_INTERFACE_REPORT_MAX_SIZE.
pub record Interface : Type 0 where
  pub interface_id : InterfaceId
  pub supported_tdisp_versions : List ℕ
  pub supported_tdisp_versions_count : ℕ
  pub tdisp_rsp_caps : ResponderCapabilities
  pub tdisp_version : ℕ
  pub tdisp_req_caps : List ℕ
  pub lock_interface_param : List ℕ
  pub tdi_state : ℕ
  pub start_interface_nonce : List ℕ
  pub interface_report : List ℕ
  pub interface_report_size : ℕ

-- What one call of the device asks of its surroundings: `libspdm_random_bytes`, its verdict and
-- the bytes, and, where the build has TDISP_DEVICE_INTERFACE_REPORT_JSON_SUPPORT, the loader of
-- pci_tdisp_device_interface_report_json.c, from the buffer and its size to the verdict, the new
-- buffer and the new size.
pub record Surroundings : Type 0 where
  pub random_ok : Bool
  pub random_bytes : List ℕ
  pub load_from_json : Option (List ℕ → ℕ → Bool × List ℕ × ℕ)

abbrev pub error_code_success : ℕ
error_code_success = 0

-- LIBTDISP_INTERFACE_REPORT_MAX_SIZE
abbrev pub interface_report_max_size : ℕ
interface_report_max_size = 0x1000

abbrev mmio_range_count : ℕ
mmio_range_count = 4

abbrev device_info_len : ℕ
device_info_len = 16

-- "tdisp_dev_emu" with its terminator, in an array of 16 that was zeroed.
abbrev device_info : List ℕ
device_info =
    b't' ∷ b'd' ∷ b'i' ∷ b's' ∷ b'p' ∷ b'_' ∷ b'd' ∷ b'e' ∷ b'v' ∷ b'_' ∷ b'e' ∷ b'm' ∷ b'u' ∷ 0 ∷ 0
    ∷ 0 ∷ []

module _ (k : Tdisp) where
  unfoldable pub same_interface : InterfaceId → InterfaceId → Bool
  same_interface a b = k.mem_equal (a.function_id ∷ a.rest) (b.function_id ∷ b.rest)

  unfoldable pub libtdisp_initialize_interface_context : InterfaceId → Interface
  libtdisp_initialize_interface_context id = record {
    interface_id = id;
    supported_tdisp_versions = k.version_10 ∷ [];
    supported_tdisp_versions_count = 1;
    tdisp_rsp_caps = record {
      dsm_caps = 0;
      req_msg_supported = 0xFE ∷ replicate (k.req_msg_supported_size - 1) 0;
      lock_interface_flags_supported =
          bit_or (bit_or k.no_fw_update k.system_cache_line_size) k.lock_msix;
      dev_addr_width = 48;
      num_req_this = 0;
      num_req_all = 0;
    };
    tdisp_version = 0;
    tdisp_req_caps = replicate k.req_caps_size 0;
    lock_interface_param = replicate k.lock_interface_param_size 0;
    tdi_state = k.config_unlocked;
    start_interface_nonce = replicate k.nonce_size 0;
    interface_report = replicate interface_report_max_size 0;
    interface_report_size = 0;
  }

  -- NULL unless the request names the interface of the context.
  unfoldable pub libtdisp_get_interface_context : Interface → InterfaceId → Bool
  libtdisp_get_interface_context s id = same_interface s.interface_id id

  -- `*version_num_count` is the room for entries on entry.
  unfoldable pub pci_tdisp_device_get_version :
      Interface → InterfaceId → ℕ → Interface × ℕ × ℕ × List ℕ
  unfolding libtdisp_initialize_interface_context
  pci_tdisp_device_get_version s id version_num_count =
      let s' = libtdisp_initialize_interface_context id in
      (
        s',
        error_code_success,
        s'.supported_tdisp_versions_count,
        take s'.supported_tdisp_versions_count s'.supported_tdisp_versions,
      )

  unfoldable pub pci_tdisp_device_get_capabilities :
      Interface → InterfaceId → List ℕ → Interface × ℕ × ResponderCapabilities
  pci_tdisp_device_get_capabilities s id req_caps =
      if libtdisp_get_interface_context s id
      then (record s { tdisp_req_caps = req_caps }, error_code_success, s.tdisp_rsp_caps)
      else (s, k.invalid_interface, s.tdisp_rsp_caps)

  mmio_range : ℕ → ℕ → ℕ → ℕ → MmioRange
  mmio_range first pages attributes id = record {
    first_page = first;
    number_of_pages = pages;
    range_attributes = attributes;
    range_id = id;
  }

  default_report : InterfaceReport
  unfolding mmio_range
  default_report = record {
    interface_info = bit_or k.no_update_after_lock k.dma_without_pasid;
    msi_x_message_control = 0;
    lnr_control = 0;
    tph_control = 0;
    mmio_range_count = mmio_range_count;
    mmio_range =
        mmio_range 0x0000 1 k.is_non_tee_mem 1
        ∷ mmio_range 0x8000 4 k.is_mem_attr_updatable 2
        ∷ mmio_range 0x10000 8 k.is_mem_attr_updatable 3
        ∷ mmio_range 0x20000 8 k.is_mem_attr_updatable 4
        ∷ [];
    device_specific_info_len = device_info_len;
    device_specific_info = device_info;
  }

  -- The bytes of the hardcoded report.
  unfoldable pub default_bytes : List ℕ
  unfolding default_report
  default_bytes = k.report_bytes default_report

  -- The hardcoded report over the start of the array.
  unfoldable pub generate_default : Interface → Interface
  generate_default s = record s {
    interface_report = default_bytes ++ drop (length default_bytes) s.interface_report;
    interface_report_size = length default_bytes;
  }

  -- The second half of pci_tdisp_device_lock_interface: the loader first, where it is compiled in.
  unfoldable pub generate_report : Interface → Option (List ℕ → ℕ → Bool × List ℕ × ℕ) → Interface
  generate_report s none = generate_default s
  generate_report s (some load) =
      let (loaded, buffer, size) = load s.interface_report s.interface_report_size in
      let s' = record s { interface_report = buffer; interface_report_size = size } in
      if loaded then s' else generate_default s'

  -- The context once the interface is locked, with the report still to be generated.
  abbrev pub locked : Interface → Surroundings → List ℕ → Interface
  locked s w param = record s {
    lock_interface_param = param;
    start_interface_nonce = w.random_bytes;
    tdi_state = k.config_locked;
  }

  -- The last component is the nonce written through `start_interface_nonce`.
  unfoldable pub pci_tdisp_device_lock_interface :
      Interface → Surroundings → InterfaceId → List ℕ → Interface × ℕ × List ℕ
  pci_tdisp_device_lock_interface s w id param =
      if libtdisp_get_interface_context s id
      then if s.tdi_state != k.config_unlocked
        then (s, k.invalid_interface_state, [])
        else if w.random_ok
        then (
          generate_report (locked s w param) w.load_from_json,
          error_code_success,
          w.random_bytes,
        )
        else (record s { lock_interface_param = param }, k.insufficient_entropy, w.random_bytes)
      else (s, k.invalid_interface, [])

  unfoldable pub pci_tdisp_device_get_interface_report : Interface → InterfaceId → ℕ × List ℕ × ℕ
  pci_tdisp_device_get_interface_report s id =
      if libtdisp_get_interface_context s id
      then (error_code_success, s.interface_report, s.interface_report_size)
      else (k.invalid_interface, [], 0)

  unfoldable pub pci_tdisp_device_get_interface_state : Interface → InterfaceId → ℕ × ℕ
  pci_tdisp_device_get_interface_state s id =
      if libtdisp_get_interface_context s id
      then (error_code_success, s.tdi_state)
      else (k.invalid_interface, 0)

  unfoldable pub pci_tdisp_device_start_interface : Interface → InterfaceId → List ℕ → Interface × ℕ
  pci_tdisp_device_start_interface s id nonce =
      if libtdisp_get_interface_context s id
      then if s.tdi_state != k.config_locked
        then (s, k.invalid_interface_state)
        else if k.mem_equal nonce s.start_interface_nonce
        then (record s { tdi_state = k.run }, error_code_success)
        else (s, k.invalid_nonce)
      else (s, k.invalid_interface)

  unfoldable pub pci_tdisp_device_stop_interface : Interface → InterfaceId → Interface × ℕ
  pci_tdisp_device_stop_interface s id =
      if libtdisp_get_interface_context s id
      then if s.tdi_state == k.config_unlocked
        then (s, k.invalid_interface_state)
        else (record s { tdi_state = k.config_unlocked }, error_code_success)
      else (s, k.invalid_interface)
