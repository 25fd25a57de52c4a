-- ===== src/Emu/NvStorage/Runs.antt =====
-- The steps of spdm_provision_psk_version_only of nv_storage.c, as they are run one after the other.
use spdm_emu.Prelude.{
  ℕ, ◌≡◌, ◌⊎◌, inl, inr, refl, sym, ap, ◌∙◌, true, false, arith, Bool, Bool-cases, AtMostOneBit,
  bit_and-pred, bit_and-one_bit, List, [], ◌∷◌, ◌++◌, All, ◌==◌, if◌then◌else◌, Status, success,
  unsupported_cap,
}
use spdm_emu.Emu.NvStorage.{Item, connection_state, connection, Libspdm, Settings}
use spdm_emu.Emu.NvStorage.Calls.{same, LibspdmLaws, value_after}
use spdm_emu.Emu.NvStorage.Steps.{
  Step, put, put_onehot, libspdm_onehot0, run_steps, algorithm_steps, version_steps, steps,
}

onehot0_sound : (v : ℕ) → libspdm_onehot0 v ≡ true → AtMostOneBit v
unfolding libspdm_onehot0
onehot0_sound v e = elim (Bool-cases (v == 0)) [
  | inl zero ↦ inl (ground (arith, zero))
  | inr other ↦ bit_and-pred v (ground (arith, e, other))
]

onehot0_complete : (v : ℕ) → AtMostOneBit v → libspdm_onehot0 v ≡ true
unfolding libspdm_onehot0
onehot0_complete v (inl e) = ground (arith, e)
onehot0_complete v (inr (i, e)) = rw e (ground (arith, bit_and-one_bit i))

false_ne_true : false ≡ true → ⊥
false_ne_true e = cc

-- What a step needs to pass, and what it sets.
abbrev pub Passes : Step → Type 0
Passes (put item value) = Unit
Passes (put_onehot item value) = AtMostOneBit value

abbrev call_of : Step → Item × ℕ
call_of (put item value) = (item, value)
call_of (put_onehot item value) = (item, value)

abbrev pub calls_of : List Step → List (Item × ℕ)
calls_of [] = []
calls_of (x ∷ xs) = call_of x ∷ calls_of xs

-- Either every step has passed, and the connection has what the steps set and is negotiated, or a
-- step has not, and the state of the connection is what it was.
abbrev pub RanTo : (k : Libspdm) → k.Context → List Step → k.Context × Status → Type 0
RanTo k c xs (d, status) =
    ((status ≡ success)
      × All Passes xs
      × ((j : Item)
          → k.get d connection j ≡ (
              if same connection_state j
              then k.state_negotiated
              else value_after (calls_of xs) j (k.get c connection j))))
    ⊎ ((status ≡ unsupported_cap)
        × (All Passes xs → ⊥)
        × (k.get d connection connection_state ≡ k.get c connection connection_state))

module _ (k : Libspdm) (laws : LibspdmLaws k) where
  RanTo-step :
      (c : k.Context) (x : Step) (xs : List Step) (p : k.Context × Status)
      → Passes x
      → same (call_of x).0 connection_state ≡ false
      → RanTo k (k.set c (call_of x).0 (call_of x).1) xs p
      → RanTo k c (x ∷ xs) p
  RanTo-step c x xs (d, status) passed other (inl (e, all, values)) = inl (
    e,
    (passed, all),
    λ j.
        values j
        ∙ ap
            (λ v.
              if same connection_state j then k.state_negotiated else value_after (calls_of xs) j v)
            (laws.get-set c (call_of x).0 j (call_of x).1),
  )
  RanTo-step c x xs (d, status) passed other (inr (e, failing, state)) = inr (
    e,
    (λ all. failing all.1),
    state ∙ laws.get-set c (call_of x).0 connection_state (call_of x).1 ∙ rw other refl,
  )

  RanTo-test :
      (c : k.Context) (item : Item) (value : ℕ) (xs : List Step) (p : k.Context × Status) (b : Bool)
      → libspdm_onehot0 value ≡ b
      → same item connection_state ≡ false
      → RanTo k (k.set c item value) xs p
      → RanTo k c (put_onehot item value ∷ xs) (if b then p else (c, unsupported_cap))
  RanTo-test c item value xs p true e other rest =
      RanTo-step c (put_onehot item value) xs p (onehot0_sound value e) other rest
  RanTo-test c item value xs p false e other rest =
      inr (refl, (λ all. false_ne_true (sym e ∙ onehot0_complete value all.0)), refl)

  pub RanTo-run_steps :
      (xs : List Step) (c : k.Context)
      → All (λ x. same (call_of x).0 connection_state ≡ false) xs
      → RanTo k c xs (run_steps k c (xs ++ (put connection_state k.state_negotiated ∷ [])))
  unfolding run_steps
  RanTo-run_steps [] c other =
      inl (refl, tt, λ j. laws.get-set c connection_state j k.state_negotiated)
  RanTo-run_steps (put item value ∷ xs) c other =
      RanTo-step c (put item value) xs
        (run_steps k (k.set c item value) (xs ++ (put connection_state k.state_negotiated ∷ []))) tt
        other.0 (RanTo-run_steps xs (k.set c item value) other.1)
  RanTo-run_steps (put_onehot item value ∷ xs) c other =
      RanTo-test c item value xs
        (run_steps k (k.set c item value) (xs ++ (put connection_state k.state_negotiated ∷ [])))
        (libspdm_onehot0 value) refl other.0 (RanTo-run_steps xs (k.set c item value) other.1)

  pub unset_steps :
      (g : Settings) (requester : Bool)
      → All (λ x. same (call_of x).0 connection_state ≡ false) (steps k g requester)
  unfolding algorithm_steps version_steps
  unset_steps g requester = ground arith
