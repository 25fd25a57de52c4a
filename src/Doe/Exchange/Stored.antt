-- ===== src/Doe/Exchange/Stored.antt =====
-- What a vendor defined request leaves in the memory of its caller.
use spdm_emu.Prelude.{
  ℕ, zero, suc, ◌+◌, ◌-◌, ◌≡◌, ◌≤◌, ◌<◌, refl, ap, ◌∙◌, arith, List, [], ◌∷◌, ◌++◌, length, take,
  drop, length-take, length-drop, take-append, replicate, length-replicate, write_at, Option,
  success,
}
use spdm_emu.Doe.Vendor.{Spdm}
use spdm_emu.Doe.Exchange.{
  VendorMessage, VendorAnswer, answered, vendor_message, vendor_status, on_vendor_answer,
  vendor_max_message_size, pci_doe_spdm_vendor_send_receive_data_ex,
}

-- A response to a message: of its standard, vendor and protocol, with a header and as many bytes as
-- its length says.
pub record IsResponse (k : Spdm) (req rsp : VendorMessage) : Type 0 where
  pub standard : rsp.standard_id ≡ k.registry_pcisig
  pub vendor_len : rsp.vendor_id_len ≡ k.vendor_id_size
  pub vendor : rsp.vendor_id ≡ req.vendor_id
  pub protocol : rsp.protocol_id ≡ req.protocol_id
  pub header : k.protocol_header_size ≤ rsp.payload_length
  pub whole : rsp.payload_length ≤ k.protocol_header_size + length rsp.payload

module _ {ℓ} {A : Type ℓ} where
  write_at-start : (xs ys : List A) → write_at xs 0 ys ≡ ys ++ drop (length ys) xs
  unfolding write_at
  write_at-start xs ys = ap (λ n. ys ++ drop n xs) (omega arith)

  take-write_at : (n : ℕ) (xs ys : List A) → length ys ≡ n → take n (write_at xs 0 ys) ≡ ys
  take-write_at n xs ys e = rw (write_at-start xs ys) (take-append n ys (drop (length ys) xs) e)

  drop_within : (n : ℕ) (xs ys : List A) → n ≤ length xs → drop n (xs ++ ys) ≡ drop n xs ++ ys
  drop_within zero xs ys h = refl
  drop_within (suc n) [] ys h = absurd (omega arith)
  drop_within (suc n) (x ∷ xs) ys h = drop_within n xs ys (omega arith)

  drop_whole : (n : ℕ) (xs : List A) → length xs ≤ n → drop n xs ≡ []
  drop_whole zero [] h = refl
  drop_whole zero (x ∷ xs) h = absurd (omega arith)
  drop_whole (suc n) [] h = refl
  drop_whole (suc n) (x ∷ xs) h = drop_whole n xs (omega arith)

  drop-write_at :
      (m n : ℕ) (xs ys : List A)
      → length ys ≡ n
      → m ≤ n
      → drop m (write_at xs 0 ys) ≡ drop m ys ++ drop n xs
  drop-write_at m n xs ys e h =
      rw (write_at-start xs ys)
        (drop_within m ys (drop (length ys) xs) (omega arith) ∙ ap (λ l. drop m ys ++ drop l xs) e)

module _ (k : Spdm) (req rsp : VendorMessage) (memory : List ℕ) (room : ℕ) where
  IsResponse-success : IsResponse k req rsp → vendor_status k req rsp ≡ success
  unfolding vendor_status
  IsResponse-success good =
      ground (arith, good.standard, good.vendor_len, good.vendor, good.protocol, good.header)

  on_vendor_answer_lem :
      IsResponse k req rsp
      → on_vendor_answer k req memory room (answered rsp) ≡ (
          let size = rsp.payload_length - k.protocol_header_size in
          record {
            status = success;
            response_size = size;
            response = write_at memory 0 (take size rsp.payload);
            request_buffer = replicate (k.protocol_header_size + vendor_max_message_size) 0;
            response_buffer = write_at rsp.payload 0 (replicate size 0);
          })
  unfolding on_vendor_answer
  on_vendor_answer_lem good = rw (IsResponse-success good, on_vendor_answer) refl

  -- The bytes that the response holds.
  abbrev pub size : ℕ
  size = rsp.payload_length - k.protocol_header_size

  size_stored : IsResponse k req rsp → length (take size rsp.payload) ≡ size
  size_stored good = omega (arith, length-take size rsp.payload, good.whole)

module _ (k : Spdm) {P : Type 0} (exchange : P → VendorMessage → P × VendorAnswer) (peer : P)
    (session_id : Option ℕ) (vendor_id protocol_id : ℕ) (request : List ℕ) (request_size : ℕ)
    (memory : List ℕ) (room : ℕ) (rsp : VendorMessage) where
  -- A response of the standard, vendor and protocol of the request, as long as it says, is delivered
  -- with success and its size without the protocol header: the memory at `response` begins with just
  -- its bytes, nothing behind them is touched, and the two local buffers are cleared. The caller's
  -- own room has no part in it.
  pub vendor_response_delivered :
      let req = vendor_message k session_id vendor_id protocol_id request request_size in
      let n = rsp.payload_length - k.protocol_header_size in
      (exchange peer req).1 ≡ answered rsp
      → IsResponse k req rsp
      → let (peer', d) =
          pci_doe_spdm_vendor_send_receive_data_ex k exchange peer session_id vendor_id protocol_id
            request request_size memory room in
        (d.status ≡ success)
        × (d.response_size ≡ n)
        × (take n d.response ≡ take n rsp.payload)
        × (drop n d.response ≡ drop n memory)
        × (d.request_buffer ≡ replicate (k.protocol_header_size + vendor_max_message_size) 0)
        × (take n d.response_buffer ≡ replicate n 0)
  unfolding pci_doe_spdm_vendor_send_receive_data_ex
  vendor_response_delivered e good =
      let req = vendor_message k session_id vendor_id protocol_id request request_size in
      let n = rsp.payload_length - k.protocol_header_size in
      let stored : length (take n rsp.payload) ≡ n = size_stored k req rsp memory room good in
      rw (e, on_vendor_answer_lem k req rsp memory room good)
        (
          refl,
          refl,
          take-write_at n memory (take n rsp.payload) stored,
          drop-write_at n n memory (take n rsp.payload) stored (omega arith)
              ∙ ap (λ l. l ++ drop n memory)
                  (drop_whole n (take n rsp.payload) (omega (arith, stored))),
          refl,
          take-write_at n rsp.payload (replicate n 0) (length-replicate n 0),
        )

  -- When such a response holds more bytes than the caller's buffer has room for, the call succeeds,
  -- and the bytes beyond the room are written over the memory behind the buffer.
  pub vendor_response_overruns :
      let req = vendor_message k session_id vendor_id protocol_id request request_size in
      let n = rsp.payload_length - k.protocol_header_size in
      (exchange peer req).1 ≡ answered rsp
      → IsResponse k req rsp
      → room < n
      → let (peer', d) =
          pci_doe_spdm_vendor_send_receive_data_ex k exchange peer session_id vendor_id protocol_id
            request request_size memory room in
        (d.status ≡ success)
        × (drop room d.response ≡ drop room (take n rsp.payload) ++ drop n memory)
        × (0 < length (drop room (take n rsp.payload)))
  unfolding pci_doe_spdm_vendor_send_receive_data_ex
  vendor_response_overruns e good over =
      let req = vendor_message k session_id vendor_id protocol_id request request_size in
      let n = rsp.payload_length - k.protocol_header_size in
      let stored : length (take n rsp.payload) ≡ n = size_stored k req rsp memory room good in
      rw (e, on_vendor_answer_lem k req rsp memory room good)
        (
          refl,
          drop-write_at room n memory (take n rsp.payload) stored (omega arith),
          omega (arith, length-drop room (take n rsp.payload), stored),
        )
