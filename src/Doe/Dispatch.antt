-- ===== src/Doe/Dispatch.antt =====
-- What the DOE dispatch answers, when its handlers keep to their room.
use spdm_emu.Prelude.{
  ℕ, ◌+◌, ◌-◌, ◌^◌, ◌≡◌, ◌≢◌, ◌≤◌, ◌<◌, arith, List, [], ◌∷◌, All, Option, none, some, Bool-cases,
  inl, inr,
}
use spdm_emu.Doe.Vendor.{
  Spdm, VendorRequest, Returned, aborts, returned, Outcome, answers, Func, Entry, Registry,
  req_header_size, rsp_header_size, req_protocol_id, matches, wrap, finish, call, look_up,
  pci_doe_get_response_spdm_vendor_defined_request,
}

-- What libspdm declares: a response has the headers of its request, which hold the protocol header.
pub record SpdmLaws (k : Spdm) : Type 0 where
  pub same_headers : k.response_size ≡ k.request_size
  pub same_large_headers : k.response_large_size ≡ k.request_large_size
  pub protocol_within : k.protocol_header_size ≤ k.request_size
  pub protocol_within_large : k.protocol_header_size ≤ k.request_large_size
  pub pcisig_ne_zero : k.registry_pcisig ≢ 0

abbrev pub Fits {ℓ} : {B : Type ℓ} → ℕ → Returned B → Type 0
Fits room aborts = Unit
Fits room (returned status size payload) = size ≤ room

-- A handler that leaves no more than the room it was given.
abbrev pub KeepsRoom {ℓ} : {S A B : Type ℓ} → Option (Func S A B) → Type ℓ
KeepsRoom none = Unit
KeepsRoom {S = S} {A = A} (some func) =
    (s : S) (session_id : Option ℕ) (a : A) (n room : ℕ) → Fits room (func s session_id a n room).1

-- An answer to `r` in a buffer of `m` bytes.
abbrev pub IsVendorAnswer {ℓ} : {A B : Type ℓ} → Spdm → VendorRequest A → ℕ → Outcome B → Type 0
IsVendorAnswer k r m (answers size rsp) =
    (size ≤ m)
    × (rsp.payload_length + rsp_header_size k r ≡ size + k.protocol_header_size)
    × (rsp.spdm_version ≡ r.spdm_version)
    × (rsp.request_response_code ≡ k.vendor_defined_response)
    × (rsp.standard_id ≡ r.standard_id)
    × (rsp.vendor_id ≡ r.vendor_id)
    × (rsp.protocol_id ≡ req_protocol_id k r)
IsVendorAnswer k r m _ = Unit

module _ {ℓ} {S A B : Type ℓ} (k : Spdm) (laws : SpdmLaws k) (r : VendorRequest A) (m : ℕ)
    (short : m < 2 ^ 16) (some_room : req_header_size k r < m) where
  finish-IsVendorAnswer :
      (p : S × Returned B)
      → Fits (m - req_header_size k r) p.1
      → IsVendorAnswer k r m (finish k r p).1
  unfolding finish wrap
  finish-IsVendorAnswer (s, aborts) fits = tt
  finish-IsVendorAnswer (s, returned status size payload) fits = ground (
    arith, laws.same_headers, laws.same_large_headers, laws.protocol_within,
    laws.protocol_within_large,
  )

  call-IsVendorAnswer :
      (s : S) (session_id : Option ℕ) (func : Option (Func S A B))
      → KeepsRoom func
      → IsVendorAnswer k r m (call k r s session_id (m - req_header_size k r) func).1
  unfolding call
  call-IsVendorAnswer s session_id none keeps = tt
  call-IsVendorAnswer s session_id (some func) keeps =
      finish-IsVendorAnswer _ (keeps s session_id _ _ (m - req_header_size k r))

  look_up-IsVendorAnswer :
      (table : List (Entry S A B)) (s : S) (session_id : Option ℕ)
      → All (λ e. KeepsRoom e.func) table
      → IsVendorAnswer k r m (look_up k table r s session_id (m - req_header_size k r)).1
  unfolding look_up
  look_up-IsVendorAnswer [] s session_id keeps = tt
  look_up-IsVendorAnswer (e ∷ es) s session_id keeps = elim (Bool-cases (matches k r e)) [
    | inl hit ↦ rw hit (call-IsVendorAnswer s session_id e.func keeps.0)
    | inr miss ↦ rw miss (look_up-IsVendorAnswer es s session_id keeps.1)
  ]

module _ {ℓ} {S A B : Type ℓ} (k : Spdm) (laws : SpdmLaws k) (g : Registry S A B) where
  -- When every handler of the table keeps to the room it is given, and the buffer is smaller than
  -- 2^16 bytes, an answer fits the buffer, its payload length is what the handler left with the
  -- protocol header, and it carries the version, standard, vendor and protocol of the request. The
  -- sizes of the messages obey `SpdmLaws`.
  pub vendor_response-IsVendorAnswer :
      (s : S) (session_id : Option ℕ) (r : VendorRequest A) (n m : ℕ)
      → All (λ e. KeepsRoom e.func) g.table
      → m < 2 ^ 16
      → IsVendorAnswer k r m
          (pci_doe_get_response_spdm_vendor_defined_request k g s session_id r n m).1
  unfolding pci_doe_get_response_spdm_vendor_defined_request
  vendor_response-IsVendorAnswer s session_id r n m keeps short =
      let found : req_header_size k r < m
          → IsVendorAnswer k r m (look_up k g.table r s session_id (m - req_header_size k r)).1 =
        λ room. look_up-IsVendorAnswer k laws r m short room g.table s session_id keeps in
      ground (arith, found)
