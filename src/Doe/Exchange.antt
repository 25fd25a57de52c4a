-- ===== src/Doe/Exchange.antt =====
-- library/pci_doe_requester_lib/pci_doe_spdm_vendor_send_receive.c: a vendor defined request and the
-- response to it, and the functions of the four requester libraries that send through it. What
-- libspdm_vendor_send_request_receive_response does is the parameter `exchange`. A copy takes the size
-- of its destination from `*response_size`, which the line before has set to the size of the source:
-- the caller's own size is never read. A request is at most LIBPCIDOE_SPDM_VENDOR_MAX_MESSAGE_SIZE bytes
-- long, as those of the callers are: the copy of a longer one behind `request_buffer` is not modelled.
pub mod Stored
mod Tests
use spdm_emu.Prelude.{
  ℕ, ◌+◌, ◌-◌, ◌%◌, ◌^◌, Bool, List, [], replicate, take, write_at, ◌==◌, ◌!=◌, ltb, if◌then◌else◌,
  Option, Status, success, invalid_msg_field,
}
use spdm_emu.Doe.Vendor.{Spdm}
use spdm_emu.Doe.Init.{Protocols}

-- LIBPCIDOE_SPDM_VENDOR_MAX_MESSAGE_SIZE
abbrev pub vendor_max_message_size : ℕ
vendor_max_message_size = 0x400

-- What libspdm is given: the session, the ids of standard and vendor, and the payload with its
-- length, which begins with the protocol.
pub record VendorMessage : Type 0 where
  pub session_id : Option ℕ
  pub standard_id : ℕ
  pub vendor_id_len : ℕ
  pub vendor_id : ℕ
  pub payload_length : ℕ
  pub protocol_id : ℕ
  pub payload : List ℕ

-- What libspdm returns: an error status, or the ids of the response, the length of its payload, and
-- the buffer, the protocol and what follows it.
pub data VendorAnswer : Type 0 where
  failed : Status → VendorAnswer
  answered : VendorMessage → VendorAnswer

-- What is left: the status, `*response_size`, the memory from `response` on, and the bytes of the
-- local request buffer and of the response payload that were not cleared.
pub record Delivery : Type 0 where
  pub status : Status
  pub response_size : ℕ
  pub response : List ℕ
  pub request_buffer : List ℕ
  pub response_buffer : List ℕ

module _ (k : Spdm) where
  -- The request that libspdm is given.
  unfoldable pub vendor_message : Option ℕ → ℕ → ℕ → List ℕ → ℕ → VendorMessage
  vendor_message session_id vendor_id protocol_id request request_size = record {
    session_id = session_id;
    standard_id = k.registry_pcisig;
    vendor_id_len = k.vendor_id_size;
    vendor_id = vendor_id;
    payload_length = (k.protocol_header_size + request_size) % 2 ^ 32;
    protocol_id = protocol_id;
    payload = take request_size request;
  }

  -- The checks on a response.
  unfoldable pub vendor_status : VendorMessage → VendorMessage → Status
  vendor_status req rsp =
      if rsp.standard_id != k.registry_pcisig
      then invalid_msg_field
      else if rsp.vendor_id_len != k.vendor_id_size
      then invalid_msg_field
      else if rsp.vendor_id != req.vendor_id
      then invalid_msg_field
      else if rsp.protocol_id != req.protocol_id
      then invalid_msg_field
      else if ltb rsp.payload_length k.protocol_header_size
      then invalid_msg_field
      else success

  -- What is done once the request buffer has been cleared.
  unfoldable pub on_vendor_answer : VendorMessage → List ℕ → ℕ → VendorAnswer → Delivery
  unfolding vendor_status
  on_vendor_answer req response response_size (failed status) = record {
    status = status;
    response_size = response_size;
    response = response;
    request_buffer = replicate (k.protocol_header_size + vendor_max_message_size) 0;
    response_buffer = [];
  }
  on_vendor_answer req response response_size (answered rsp) = elim (vendor_status req rsp) [
    | success ↦
        let size = rsp.payload_length - k.protocol_header_size in
        record {
          status = success;
          response_size = size;
          response = write_at response 0 (take size rsp.payload);
          request_buffer = replicate (k.protocol_header_size + vendor_max_message_size) 0;
          response_buffer = write_at rsp.payload 0 (replicate size 0);
        }
    | status ↦ record {
      status = status;
      response_size = response_size;
      response = response;
      request_buffer = replicate (k.protocol_header_size + vendor_max_message_size) 0;
      response_buffer = rsp.payload;
    }
  ]

module _ (k : Spdm) {P : Type 0} (exchange : P → VendorMessage → P × VendorAnswer) where
  unfoldable pub pci_doe_spdm_vendor_send_receive_data_ex :
      P → Option ℕ → ℕ → ℕ → List ℕ → ℕ → List ℕ → ℕ → P × Delivery
  unfolding vendor_message on_vendor_answer
  pci_doe_spdm_vendor_send_receive_data_ex peer session_id vendor_id protocol_id request
        request_size response response_size =
      let req = vendor_message k session_id vendor_id protocol_id request request_size in
      let (peer', reply) = exchange peer req in
      (peer', on_vendor_answer k req response response_size reply)

  module _ (v : Protocols) where
    unfoldable pub pci_doe_spdm_vendor_send_receive_data :
        P → Option ℕ → ℕ → List ℕ → ℕ → List ℕ → ℕ → P × Delivery
    unfolding pci_doe_spdm_vendor_send_receive_data_ex
    pci_doe_spdm_vendor_send_receive_data peer session_id protocol_id request request_size response
          response_size =
        pci_doe_spdm_vendor_send_receive_data_ex peer session_id v.vendor_pcisig protocol_id request
          request_size response response_size

    -- A status that is no error becomes LIBSPDM_STATUS_SUCCESS.
    unfoldable pub or_success : P × Delivery → P × Delivery
    or_success (peer, d) =
        if k.is_error d.status then (peer, d) else (peer, record d { status = success })

    unfoldable pub pci_ide_km_send_receive_data :
        P → Option ℕ → List ℕ → ℕ → List ℕ → ℕ → P × Delivery
    unfolding pci_doe_spdm_vendor_send_receive_data or_success
    pci_ide_km_send_receive_data peer session_id request request_size response response_size =
        or_success (
          pci_doe_spdm_vendor_send_receive_data peer session_id v.pci_ide_km request request_size
            response response_size)

    unfoldable pub pci_tdisp_send_receive_data :
        P → Option ℕ → List ℕ → ℕ → List ℕ → ℕ → P × Delivery
    unfolding pci_doe_spdm_vendor_send_receive_data or_success
    pci_tdisp_send_receive_data peer session_id request request_size response response_size =
        or_success (
          pci_doe_spdm_vendor_send_receive_data peer session_id v.pci_tdisp request request_size
            response response_size)

    unfoldable pub cxl_ide_km_send_receive_data :
        P → Option ℕ → List ℕ → ℕ → List ℕ → ℕ → P × Delivery
    unfolding pci_doe_spdm_vendor_send_receive_data_ex or_success
    cxl_ide_km_send_receive_data peer session_id request request_size response response_size =
        or_success (
          pci_doe_spdm_vendor_send_receive_data_ex peer session_id v.vendor_cxl v.cxl_ide_km request
            request_size response response_size)

    unfoldable pub cxl_tsp_send_receive_data : P → Option ℕ → List ℕ → ℕ → List ℕ → ℕ → P × Delivery
    unfolding pci_doe_spdm_vendor_send_receive_data_ex or_success
    cxl_tsp_send_receive_data peer session_id request request_size response response_size =
        or_success (
          pci_doe_spdm_vendor_send_receive_data_ex peer session_id v.vendor_cxl v.cxl_tsp request
            request_size response response_size)
