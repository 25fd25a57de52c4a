-- ===== src/Doe/Vendor.antt =====
-- library/pci_doe_responder_lib/pci_doe_spdm_vendor_dispatch.c: the table of vendor handlers, the
-- registration, and the dispatch of a vendor defined SPDM request to them. The message structures
-- and LIBSPDM_STATUS_IS_ERROR are declared by libspdm: they are the fields of `Spdm`.
use spdm_emu.Prelude.{
  ℕ, suc, ◌+◌, ◌-◌, ◌%◌, ◌^◌, Bool, ◌&&◌, bit_and, List, [], ◌∷◌, replicate, set, ◌==◌, ◌!=◌, ltb,
  leb, if◌then◌else◌, Option, none, some, Reply, asserted, fails, replies, Status, success,
  invalid_msg_size, invalid_msg_field, unsupported_cap, invalid_parameter,
}

pub record Spdm : Type 0 where
  pub version_14 : ℕ
  pub vendor_defined_request : ℕ
  pub vendor_defined_response : ℕ
  pub large_req : ℕ
  pub large_resp : ℕ
  pub registry_pcisig : ℕ
  -- sizeof
  pub message_header_size : ℕ
  pub request_size : ℕ
  pub request_large_size : ℕ
  pub response_size : ℕ
  pub response_large_size : ℕ
  pub vendor_id_size : ℕ
  pub protocol_header_size : ℕ
  -- LIBSPDM_STATUS_IS_ERROR
  pub is_error : Status → Bool

-- The message, in the two structures that the code reads it through: `payload_length`,
-- `protocol_id` and `payload` of the one, and `large_` of the other.
pub record VendorRequest {ℓ} (A : Type ℓ) : Type ℓ where
  pub spdm_version : ℕ
  pub request_response_code : ℕ
  pub param1 : ℕ
  pub standard_id : ℕ
  pub len : ℕ
  pub vendor_id : ℕ
  pub payload_length : ℕ
  pub protocol_id : ℕ
  pub payload : A
  pub large_payload_length : ℕ
  pub large_protocol_id : ℕ
  pub large_payload : A

-- The response, with what the handler has written behind its header: `none` where it wrote nothing.
pub record VendorResponse {ℓ} (B : Type ℓ) : Type ℓ where
  pub spdm_version : ℕ
  pub request_response_code : ℕ
  pub param1 : ℕ
  pub standard_id : ℕ
  pub len : ℕ
  pub vendor_id : ℕ
  pub payload_length : ℕ
  pub protocol_id : ℕ
  pub payload : Option B

-- What a vendor handler leaves: a failed assertion, or its status with `*response_size`.
pub data Returned {ℓ} (B : Type ℓ) : Type ℓ where
  aborts : Returned B
  returned : Status → ℕ → Option B → Returned B

-- A handler that fails has not written `*response_size`, which holds the room.
abbrev pub from_reply {ℓ} : {B : Type ℓ} → ℕ → Reply B → Returned B
from_reply room asserted = aborts
from_reply room (fails status) = returned status room none
from_reply room (replies size b) = returned success size (some b)

-- How the dispatch ends; `null_call` is the call of a function that is not there.
pub data Outcome {ℓ} (B : Type ℓ) : Type ℓ where
  aborted null_call : Outcome B
  refuses : Status → Outcome B
  answers : ℕ → VendorResponse B → Outcome B

module _ {ℓ} (S A B : Type ℓ) where
  -- The state of the device, the session, the request with its size, and the room.
  abbrev pub Func : Type ℓ
  Func = S → Option ℕ → A → ℕ → ℕ → S × Returned B

-- `pci_doe_spdm_dispatch_struct_t`: a function pointer is `none` when it is NULL.
pub record Entry {ℓ} (S A B : Type ℓ) : Type ℓ where
  pub standard_id : ℕ
  pub vendor_id : ℕ
  pub protocol_id : ℕ
  pub func : Option (Func S A B)

-- `m_pci_doe_spdm_dispatch` and `m_pci_doe_spdm_dispatch_count`
pub record Registry {ℓ} (S A B : Type ℓ) : Type ℓ where
  pub table : List (Entry S A B)
  pub count : ℕ

-- LIBSPDM_ARRAY_SIZE(m_pci_doe_spdm_dispatch)
abbrev pub dispatch_size : ℕ
dispatch_size = 4

module _ {ℓ} {A : Type ℓ} (k : Spdm) where
  -- `use_large_payload`
  abbrev pub use_large : VendorRequest A → Bool
  use_large r = leb k.version_14 r.spdm_version && bit_and r.param1 k.large_req != 0

  abbrev pub req_header_size : VendorRequest A → ℕ
  req_header_size r = if use_large r then k.request_large_size else k.request_size

  abbrev pub rsp_header_size : VendorRequest A → ℕ
  rsp_header_size r = if use_large r then k.response_large_size else k.response_size

  abbrev pub req_payload_length : VendorRequest A → ℕ
  req_payload_length r = if use_large r then r.large_payload_length else r.payload_length

  abbrev pub req_protocol_id : VendorRequest A → ℕ
  req_protocol_id r = if use_large r then r.large_protocol_id else r.protocol_id

  abbrev pub req_payload : VendorRequest A → A
  req_payload r = if use_large r then r.large_payload else r.payload

  -- The checks between the assertion and the loop.
  unfoldable pub well_formed : VendorRequest A → ℕ → Bool
  well_formed r n =
      r.request_response_code == k.vendor_defined_request
      && r.standard_id == k.registry_pcisig
      && r.len == k.vendor_id_size
      && leb k.protocol_header_size (req_payload_length r)
      && leb (req_payload_length r - k.protocol_header_size) (n - req_header_size r)

module _ {ℓ} {A B : Type ℓ} (k : Spdm) where
  -- The message around what the handler wrote, whose size is `size`.
  unfoldable pub wrap : VendorRequest A → ℕ → Option B → VendorResponse B
  wrap r size payload = record {
    spdm_version = r.spdm_version;
    request_response_code = k.vendor_defined_response;
    param1 = if use_large k r then k.large_resp else 0;
    standard_id = r.standard_id;
    len = k.vendor_id_size;
    vendor_id = r.vendor_id;
    payload_length = (k.protocol_header_size + size) % 2 ^ 16;
    protocol_id = req_protocol_id k r;
    payload = payload;
  }

module _ {ℓ} {S A B : Type ℓ} where
  -- The globals before any registration.
  unfoldable pub no_registry : Registry S A B
  no_registry = record {
    table =
        replicate dispatch_size
          (record { standard_id = 0; vendor_id = 0; protocol_id = 0; func = none });
    count = 0;
  }

module _ {ℓ} {S A B : Type ℓ} (k : Spdm) where
  -- `none` is the assertion on the count. The function pointer is not compared with NULL.
  unfoldable pub pci_doe_register_vendor_response_func :
      Registry S A B → ℕ → ℕ → ℕ → Option (Func S A B) → Registry S A B × Option Status
  pci_doe_register_vendor_response_func g standard_id vendor_id protocol_id func =
      if standard_id != k.registry_pcisig
      then (g, some invalid_parameter)
      else if leb dispatch_size g.count
      then (g, none)
      else (
        record {
          table = set g.table g.count (record {
            standard_id = standard_id;
            vendor_id = vendor_id;
            protocol_id = protocol_id;
            func = func;
          });
          count = suc g.count;
        },
        some success,
      )

  -- The test of the loop.
  unfoldable pub matches : VendorRequest A → Entry S A B → Bool
  matches r e =
      r.standard_id == e.standard_id
      && r.vendor_id == e.vendor_id
      && req_protocol_id k r == e.protocol_id

  -- What the loop does with the status of the handler.
  unfoldable pub finish : VendorRequest A → S × Returned B → S × Outcome B
  unfolding wrap
  finish r (s, aborts) = (s, aborted)
  finish r (s, returned status size payload) =
      if k.is_error status
      then (s, refuses status)
      else (s, answers (size + rsp_header_size k r) (wrap k r size payload))

  unfoldable pub call : VendorRequest A → S → Option ℕ → ℕ → Option (Func S A B) → S × Outcome B
  unfolding finish
  call r s session_id room none = (s, null_call)
  call r s session_id room (some func) =
      finish r
        (func s session_id (req_payload k r) (req_payload_length k r - k.protocol_header_size) room)

  -- The loop over the table.
  unfoldable pub look_up : List (Entry S A B) → VendorRequest A → S → Option ℕ → ℕ → S × Outcome B
  unfolding matches call
  look_up [] r s session_id room = (s, refuses unsupported_cap)
  look_up (e ∷ es) r s session_id room =
      if matches r e then call r s session_id room e.func else look_up es r s session_id room

  unfoldable pub pci_doe_get_response_spdm_vendor_defined_request :
      Registry S A B → S → Option ℕ → VendorRequest A → ℕ → ℕ → S × Outcome B
  unfolding look_up well_formed
  pci_doe_get_response_spdm_vendor_defined_request g s session_id r n m =
      if ltb n k.message_header_size
      then (s, refuses invalid_msg_size)
      else if ltb n (req_header_size k r)
      then (s, refuses invalid_msg_size)
      else if leb m (req_header_size k r)
      then (s, aborted)
      else if well_formed k r n
      then look_up g.table r s session_id (m - req_header_size k r)
      else (s, refuses invalid_msg_field)
