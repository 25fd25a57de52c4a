-- ===== src/Doe/Registered.antt =====
-- The registration of the vendor handlers, and pci_doe_init_responder of
-- spdm_emu/spdm_responder_emu/spdm_responder_pci_doe.c.
use spdm_emu.Prelude.{
  ℕ, zero, suc, ◌-◌, ◌≡◌, ◌≢◌, refl, sym, ◌∙◌, arith, List, [], ◌∷◌, All, set, replicate, Option,
  none, some, Bool-cases, inl, inr,
}
use spdm_emu.Doe.Vendor.{
  Spdm, VendorRequest, Returned, aborts, returned, null_call, Func, Entry, Registry,
  req_header_size, req_protocol_id, req_payload, req_payload_length, matches, finish, call, look_up,
  well_formed, no_registry, pci_doe_register_vendor_response_func,
  pci_doe_get_response_spdm_vendor_defined_request,
}
use spdm_emu.Doe.Dispatch.{SpdmLaws}

set-All {ℓ κ} :
    {A : Type ℓ} (P : A → Type κ) (xs : List A) (i : ℕ) (v : A)
    → All P xs
    → P v
    → All P (set xs i v)
set-All P [] i v h p = tt
set-All P (x ∷ xs) zero v h p = (p, h.1)
set-All P (x ∷ xs) (suc i) v h p = (h.0, set-All P xs i v h.1 p)

module _ {ℓ} {S A B : Type ℓ} (k : Spdm) where
  -- The registry after a history of registrations, each of an entry's numbers and function pointer.
  unfoldable pub registered : Registry S A B → List (Entry S A B) → Registry S A B
  registered g [] = g
  registered g (x ∷ xs) =
      registered
        (pci_doe_register_vendor_response_func k g x.standard_id x.vendor_id x.protocol_id x.func).0
        xs

  -- The request does not name this entry, or the entry's function pointer is not NULL.
  abbrev pub IsCallable : VendorRequest A → Entry S A B → Type ℓ
  IsCallable r e =
      r.standard_id ≡ e.standard_id
      → r.vendor_id ≡ e.vendor_id
      → req_protocol_id k r ≡ e.protocol_id
      → e.func ≢ none

  registered-IsCallable :
      (r : VendorRequest A) (g : Registry S A B) (xs : List (Entry S A B))
      → All (IsCallable r) xs
      → All (IsCallable r) g.table
      → All (IsCallable r) (registered g xs).table
  unfolding registered pci_doe_register_vendor_response_func
  registered-IsCallable r g [] callable h = h
  registered-IsCallable r g (x ∷ xs) (c, callable) h =
      registered-IsCallable r
        (pci_doe_register_vendor_response_func k g x.standard_id x.vendor_id x.protocol_id x.func).0
        xs callable (ground (arith, h, set-All (IsCallable r) g.table g.count x h c))

  finish-null : (r : VendorRequest A) (p : S × Returned B) → (finish k r p).1 ≢ null_call
  unfolding finish
  finish-null r (s, aborts) = ground arith
  finish-null r (s, returned status size payload) = ground arith

  call-null :
      (r : VendorRequest A) (s : S) (i : Option ℕ) (room : ℕ) (f : Option (Func S A B))
      → f ≢ none
      → (call k r s i room f).1 ≢ null_call
  unfolding call
  call-null r s i room none h = absurd (h refl)
  call-null r s i room (some func) h =
      finish-null r
        (func s i (req_payload k r) (req_payload_length k r - k.protocol_header_size) room)

  look_up-null :
      (table : List (Entry S A B)) (r : VendorRequest A) (s : S) (i : Option ℕ) (room : ℕ)
      → All (IsCallable r) table
      → (look_up k table r s i room).1 ≢ null_call
  unfolding look_up matches
  look_up-null [] r s i room h = ground arith
  look_up-null (x ∷ xs) r s i room h = elim (Bool-cases (matches k r x)) [
    | inl hit ↦ rw hit (
        call-null r s i room x.func
          (h.0 (ground (arith, hit)) (ground (arith, hit)) (ground (arith, hit))))
    | inr miss ↦ rw miss (look_up-null xs r s i room h.1)
  ]

module _ {ℓ} {S A B : Type ℓ} (k : Spdm) (laws : SpdmLaws k) where
  -- After any history of registrations, of which none that has the standard, the vendor and the
  -- protocol of a request gave a NULL pointer, the dispatch of this request never calls a NULL
  -- pointer, not even with unused entries in the table, as long as the number of PCI-SIG is not 0
  -- (`SpdmLaws`).
  pub registered-null :
      (xs : List (Entry S A B)) (s : S) (i : Option ℕ) (r : VendorRequest A) (n m : ℕ)
      → All (IsCallable k r) xs
      → (pci_doe_get_response_spdm_vendor_defined_request k
          (registered k no_registry xs)
          s
          i
          r
          n
          m).1
        ≢ null_call
  unfolding pci_doe_get_response_spdm_vendor_defined_request well_formed no_registry replicate
  registered-null xs s i r n m callable =
      let table = (registered k no_registry xs).table in
      let found : r.standard_id ≡ k.registry_pcisig
          → (look_up k table r s i (m - req_header_size k r)).1 ≢ null_call =
        λ standard.
          let unused : r.standard_id ≢ 0 = λ e. laws.pcisig_ne_zero (sym standard ∙ e) in
          let free : IsCallable k r
              (record { standard_id = 0; vendor_id = 0; protocol_id = 0; func = none }) =
            λ e. absurd (unused e) in
          look_up-null k table r s i (m - req_header_size k r) (
            registered-IsCallable k r no_registry xs callable (free, (free, (free, (free, tt))))) in
      ground (arith, found)
